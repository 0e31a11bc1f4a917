-- ===== src/Tests/Limits.antt =====
-- The limits on attempts and the cache of answers, on a few calls.
use nestwatch.Common.{ℕ, ◌≤◌, false, [], ◌∷◌, arith}
use nestwatch.Common.Keyed.{nat_keys, lookup}
use nestwatch.Throttle.{Net, LoginLimiter, login_max_fails, login_lockout}
use nestwatch.Throttle.Lockout.{looked_at, looked_at-bounded}
use nestwatch.Throttle.Submissions.{Paced, run-Paced_from_empty}

-- Device 0 is this machine.
abbrev home : Net ℕ
home = record { to_canonical = λ ip. ip; is_loopback = λ ip. false; localhost = 0 }

abbrev no_failures : LoginLimiter ℕ
no_failures = record { inner = []; max_failures = login_max_fails; lockout = login_lockout }

looked_at-bounded_example :
    looked_at home 7 no_failures
      (record { ip = 7; now = 1 } ∷ record { ip = 8; now = 2 } ∷ record { ip = 7; now = 3 } ∷ [])
    ≤ login_max_fails
looked_at-bounded_example =
    looked_at-bounded home 7 0 no_failures
      (record { ip = 7; now = 1 } ∷ record { ip = 8; now = 2 } ∷ record { ip = 7; now = 3 } ∷ []) tt
      (unfold lookup in tt) (omega arith) (omega arith) (omega arith)

run-Paced_from_empty_example :
    Paced home 7
      (record { inner = []; max_per_window = 1; window = 10 })
      []
      (record { ip = 7; now = 1 } ∷ record { ip = 7; now = 5 } ∷ [])
run-Paced_from_empty_example =
    run-Paced_from_empty home 7 1 10 0
      (record { ip = 7; now = 1 } ∷ record { ip = 7; now = 5 } ∷ []) (omega arith)
