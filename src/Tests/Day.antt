-- ===== src/Tests/Day.antt =====
-- The enforcer of the rules over the ticks of one day.
use nestwatch.Common.{
  ℕ, ◌*◌, ◌≡◌, ◌↔◌, refl, Bool, true, false, none, some, List, [], ◌∷◌, map, retain,
}
use nestwatch.Common.Keyed.{string_keys}
use nestwatch.Chrono.{second}
use nestwatch.Usage.{Usage}
use nestwatch.Words.{no_match}
use nestwatch.Rules.{Targets, GroupTarget}
use nestwatch.Enforce.{RunningProcess, Sweep, RulesEnforcer, sweep}
use nestwatch.Enforce.Rollover.{resets, Spaced, resets-Spaced}
use nestwatch.Enforce.Stops.{MustStop, kills, told, sweep-MustStop}
use nestwatch.Enforce.Notices.{Round, run, Tells, run-Tells}
use nestwatch.Enforce.Episode.{WarnsFirst, run-WarnsFirst}
use nestwatch.Tests.Base.{calendar, ascii, running, on_day, round_at}

abbrev video : GroupTarget
video = record {
  name = "Video";
  members = "tube" ∷ [];
  words = "film" ∷ [];
  limit_mins = 20;
  matched = no_match;
}

abbrev targets : Targets
targets = record { blocked = "game" ∷ []; app_limits = ("chess", 30) ∷ []; groups = video ∷ [] }

abbrev watched : Usage
watched = record (on_day 10).usage {
  per_group_secs = ("Video", 1180) ∷ [];
  per_group_web_secs = ("Video", 300) ∷ [];
}

-- The date goes back a day and forward again within a few hours.
resets-Spaced_example :
    Spaced none (resets (on_day 10) ((11, 0) ∷ (10, 3600 * second) ∷ (11, 50000 * second) ∷ []))
resets-Spaced_example =
    resets-Spaced (on_day 10) ((11, 0) ∷ (10, 3600 * second) ∷ (11, 50000 * second) ∷ [])

abbrev tenth : ℕ
tenth = 10

abbrev full : Sweep
full = record {
  targets = targets;
  usage = record watched { per_group_secs = ("Video", 1200) ∷ [] };
  child_processes = none;
}

sweep-MustStop_example :
    (test : RunningProcess → Bool) × ((p : RunningProcess)
      → (test p ≡ true) ↔ MustStop ascii full p)
    × (kills (sweep ascii full running []).1 ≡ map (λ p. p.pid) (retain test running))
sweep-MustStop_example = sweep-MustStop ascii full running []

abbrev rounds : List Round
rounds = round_at 0 ∷ round_at 30 ∷ round_at 60 ∷ []

run-Tells_example :
    Tells ascii []
      (run calendar ascii (on_day 10) rounds).0.announced
      (told ascii (run calendar ascii (on_day 10) rounds).1)
run-Tells_example = run-Tells calendar ascii (on_day 10) 10 rounds refl ((refl, (refl, (refl, tt))))

-- The child was warned, locked the screen himself, and comes back.
abbrev warned : RulesEnforcer
warned = record (on_day 10) { episode_warned = true; budget_deadline = some (60 * second) }

-- Three ticks past the limit.
run-WarnsFirst_example : WarnsFirst calendar ascii false (on_day 10) rounds
run-WarnsFirst_example =
    run-WarnsFirst calendar ascii rounds (on_day 10) refl refl ((refl, (refl, (refl, tt))))
