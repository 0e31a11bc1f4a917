-- ===== src/Tests/Earning.antt =====
-- What two integrations earn on one day.
use nestwatch.Common.{
  ℕ, ◌+◌, ◌≤◌, ◌≡◌, refl, String, true, false, Option, none, some, List, [], ◌∷◌, arith,
}
use nestwatch.Common.Keyed.{lookup, string_keys}
use nestwatch.Config.{
  Config, Provider, Progress, EarnedDay, entry_today, earn, too_many_sources, ceiling_mins,
  reward_for, tier_met, gate_met, provider_authority, exhausted_for,
}
use nestwatch.Config.Ceiling.{Report, run, left, run-left}
use nestwatch.Config.Gates.{openings, is_open, openings-once}
use nestwatch.Config.Sources.{sources, earn-crowds}
use nestwatch.Probe.{
  Probe, ProbeStatus, ProbeOutcome, refused, failed, due, due_now, chosen, last_at,
}
use nestwatch.Probe.Schedule.{Turn, turned, turns, run_once-Spaced}
use nestwatch.Tests.Base.{at_minute}

-- A ladder of two rungs under a gate, and a reward once a day.
abbrev maths : Provider
maths = record {
  enabled = true;
  minutes = 20;
  daily_cap_mins = none;
  tiers =
      record { questions = 10; minutes_practised = 0; reward_mins = 15 }
      ∷ record { questions = 30; minutes_practised = 0; reward_mins = 40 }
      ∷ [];
  gate = some (record { allowance_mins = 30; questions = 20; minutes_practised = 0 });
}

abbrev reading : Provider
reading = record { enabled = true; minutes = 20; daily_cap_mins = none; tiers = []; gate = none }

abbrev home : Config
home = record {
  providers = ("maths", maths) ∷ ("reading", reading) ∷ [];
  earned = [];
  extra = record { date = none; minutes = 0 };
}

abbrev done : ℕ → Option Progress
done n = some (record { questions = n; minutes = 0 })

abbrev reports : List Report
reports =
    record { source = "maths"; reported = done 12 }
    ∷ record { source = "reading"; reported = none }
    ∷ record { source = "maths"; reported = done 31 }
    ∷ []

run-left_example : (run home "maths" 10 reports).1 ≤ left 40 (entry_today home "maths" 10)
unfolding lookup ceiling_mins
run-left_example = run-left home "maths" maths 10 40 reports tt refl refl (omega arith)

openings-once_example : openings home "maths" 10 reports + is_open home "maths" 10 ≤ 1
openings-once_example = openings-once home "maths" 10 reports tt

abbrev paid_once : EarnedDay
paid_once = record { date = 10; minutes = none; bar_met = false }

-- Fifteen other sources were paid that day.
abbrev crowd : Config
crowd = record home {
  earned =
      ("a", paid_once)
      ∷ ("b", paid_once)
      ∷ ("c", paid_once)
      ∷ ("d", paid_once)
      ∷ ("e", paid_once)
      ∷ ("f", paid_once)
      ∷ ("g", paid_once)
      ∷ ("h", paid_once)
      ∷ ("i", paid_once)
      ∷ ("j", paid_once)
      ∷ ("k", paid_once)
      ∷ ("l", paid_once)
      ∷ ("m", paid_once)
      ∷ ("n", paid_once)
      ∷ ("o", paid_once)
      ∷ [];
}

earn-crowds_example :
    ((earn crowd "maths" 10 (done 25)).1 ≡ too_many_sources)
    × (sources 10 (earn crowd "maths" 10 (done 25)).0 ≡ 16)
unfolding provider_authority lookup gate_met tier_met reward_for
earn-crowds_example =
    earn-crowds crowd "maths" maths 10 15 (done 25) (ground arith) refl refl refl refl refl

-- Twenty minutes were paid for reading that day.
abbrev after_reading : Config
after_reading = record home {
  earned = ("reading", record { date = 10; minutes = none; bar_met = false }) ∷ [];
}

-- The check of the maths provider, every half hour once ten minutes of the day are used.
abbrev checks : List (String × Probe)
checks = ("maths", record { every_mins = 30; first_check_after_mins = 10 }) ∷ []

abbrev checked : String → Probe → Config → Config × Option Progress × ProbeOutcome
checked name p c = (c, none, refused)

abbrev turn_at : ℕ → Turn
turn_at m = record {
  run_one = checked;
  at = at_minute m;
  config = home;
  session_active = true;
  used_secs = some 900;
}

run_once-Spaced_example :
    let first = turned checks [] (turn_at 600) in
    (last_at (lookup "maths" first) ≡ some (at_minute 600))
    × (lookup "maths" (turns checks first (turn_at 610 ∷ turn_at 629 ∷ [])) ≡ lookup "maths" first)
unfolding lookup due exhausted_for due_now chosen
run_once-Spaced_example =
    run_once-Spaced "maths" (record { every_mins = 30; first_check_after_mins = 10 }) checks []
      (turn_at 600) (turn_at 610 ∷ turn_at 629 ∷ []) refl refl
      (((omega arith, omega arith)), (((omega arith, omega arith)), tt))

-- The last check failed, so the gate of the maths provider is lifted.
abbrev outage : List (String × ProbeStatus)
outage = ("maths", record { at = at_minute 600; reported = none; outcome = failed }) ∷ []
