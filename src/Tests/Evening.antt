-- ===== src/Tests/Evening.antt =====
-- The curfew and its enforcer on one evening.
use nestwatch.Common.{ℕ, ◌+◌, ◌*◌, ◌<◌, refl, true, none, some, [], ◌∷◌, All}
use nestwatch.Chrono.{second}
use nestwatch.Countdown.{default}
use nestwatch.Curfew.{Curfew, Window, no_days, is_active_at, includes}
use nestwatch.Curfew.Enforcer.{Enforcer, Round, run_round, check_interval}
use nestwatch.Curfew.Enforcer.Episodes.{run_rounds, run_rounds-forced}
use nestwatch.Tests.Base.{calendar, bedtime, at_minute}

abbrev night : Window
night = record { start = "21:00"; end = "07:00"; days = no_days }

-- The parent has given an hour at nine, and takes it back at ten past nine.
abbrev extended : Curfew
extended = record bedtime { extra_until = some (at_minute 1320) }

abbrev round_at : ℕ → Round
round_at m = record {
  curfew = bedtime;
  now = at_minute m;
  instant = m * 60 * second;
  notified = true;
  power_off_ok = true;
}

-- Sixteen minutes before bedtime were read last, and nothing is pending.
abbrev waiting : Enforcer
waiting = record { deadline = none; countdown = record { last = some 16 } }

-- A shutdown for one second past nine, and a round then.
abbrev condemned : Enforcer
condemned = record { deadline = some (75601 * second); countdown = default }

run_rounds-forced_example :
    All (λ r. r.instant < 75601 * second + check_interval) (round_at 1260 ∷ [])
unfolding includes is_active_at
run_rounds-forced_example =
    run_rounds-forced calendar condemned (75601 * second) (round_at 1260 ∷ []) refl ((refl, tt))
      (unfold run_rounds in unfold run_round in refl)
