-- ===== src/Curfew/Enforcer/Episodes.antt =====
-- What the rounds of the bedtime loop do, one by one and over any run (src/curfew.rs).
use nestwatch.Common.{
  any-append, count-append, ℕ, ◌+◌, ◌≤◌, ◌<◌, ◌≡◌, Bool, true, false, none, some, List, [], ◌∷◌,
  ◌++◌, All, any, count, arith, is_some, if◌then◌else◌,
}
use nestwatch.Chrono.{Chrono}
use nestwatch.Curfew.{is_active_at}
use nestwatch.Curfew.Enforcer.{
  check_interval, Enforcer, Effect, notify, power_off, abort_power_off, Round, run_round,
}

abbrev pub is_notify : Effect → Bool
is_notify (notify m) = true
is_notify _ = false

abbrev pub is_power_off : Effect → Bool
is_power_off (power_off s) = true
is_power_off _ = false

abbrev pub is_abort_effect : Effect → Bool
is_abort_effect abort_power_off = true
is_abort_effect _ = false

-- The rounds one after the other, with all their effects.
unfoldable pub run_rounds : Chrono → Enforcer → List Round → Enforcer × List Effect
run_rounds chrono s [] = (s, [])
run_rounds chrono s (r ∷ rs) =
    let (t, effects) = run_round chrono s r in
    let (u, rest) = run_rounds chrono t rs in (u, effects ++ rest)

abbrev pub active : Chrono → Round → Bool
active chrono r = is_active_at chrono r.curfew r.now

-- A round in which the child is warned is one outside the curfew, with no shutdown pending before
-- it or after it, and none requested or cancelled in it.
pub notify_alone :
    (chrono : Chrono) (s : Enforcer) (r : Round)
    → any is_notify (run_round chrono s r).1 ≡ true
    → (active chrono r ≡ false)
      × (s.deadline ≡ none)
      × ((run_round chrono s r).0.deadline ≡ none)
      × (any is_power_off (run_round chrono s r).1 ≡ false)
      × (any is_abort_effect (run_round chrono s r).1 ≡ false)
unfolding run_round
notify_alone chrono s r h = ground arith

-- A round in the curfew requests a shutdown, or leaves the pending one as it is because its
-- deadline and the slack have not passed.
pending_or_forced :
    (chrono : Chrono) (s : Enforcer) (r : Round)
    → active chrono r ≡ true
    → any is_power_off (run_round chrono s r).1 ≡ false
    → (d : ℕ) × (s.deadline ≡ some d)
      × (r.instant < d + check_interval)
      × ((run_round chrono s r).0.deadline ≡ some d)
unfolding run_round
pending_or_forced chrono s r a h = ground arith

pending_is : (s : Enforcer) (d e : ℕ) → s.deadline ≡ some d → s.deadline ≡ some e → d ≡ e
pending_is s d e p q = cc

-- Over any rounds in the curfew that begin with a shutdown pending for `d` and in which none is
-- requested again, every round is earlier than `d` and the slack: a cancelled shutdown is requested
-- again by the first round after that.
pub run_rounds-forced :
    (chrono : Chrono) (s : Enforcer) (d : ℕ) (rs : List Round)
    → s.deadline ≡ some d
    → All (λ r. active chrono r ≡ true) rs
    → any is_power_off (run_rounds chrono s rs).1 ≡ false
    → All (λ r. r.instant < d + check_interval) rs
unfolding run_rounds
run_rounds-forced chrono s d [] p a h = tt
run_rounds-forced chrono s d (r ∷ rs) p a h =
    let split =
      any-append is_power_off (run_round chrono s r).1
        (run_rounds chrono (run_round chrono s r).0 rs).1 in
    let (e, was, early, still) = pending_or_forced chrono s r a.0 (ground arith) in
    let same : e ≡ d = pending_is s e d was p in
    (
      rw (← same) early,
      run_rounds-forced chrono (run_round chrono s r).0 d rs (rw (← same) still) a.1 (ground arith),
    )

abbrev pub pending : Enforcer → ℕ
pending s = if is_some s.deadline then 1 else 0

round_aborts :
    (chrono : Chrono) (s : Enforcer) (r : Round)
    → count is_abort_effect (run_round chrono s r).1 + pending (run_round chrono s r).0
      ≤ count is_power_off (run_round chrono s r).1 + pending s
unfolding run_round
round_aborts chrono s r = ground arith

-- Over any rounds, the shutdowns cancelled and the one still pending at the end are together no
-- more than the shutdowns requested and the one pending at the start: nothing is cancelled that
-- was not requested by this loop.
pub run_rounds-aborts :
    (chrono : Chrono) (s : Enforcer) (rs : List Round)
    → count is_abort_effect (run_rounds chrono s rs).1 + pending (run_rounds chrono s rs).0
      ≤ count is_power_off (run_rounds chrono s rs).1 + pending s
unfolding run_rounds
run_rounds-aborts chrono s [] = omega arith
run_rounds-aborts chrono s (r ∷ rs) = omega (
  arith,
  round_aborts chrono s r,
  run_rounds-aborts chrono (run_round chrono s r).0 rs,
  count-append is_abort_effect (run_round chrono s r).1
      (run_rounds chrono (run_round chrono s r).0 rs).1,
  count-append is_power_off (run_round chrono s r).1
      (run_rounds chrono (run_round chrono s r).0 rs).1,
)

-- Outside the curfew, a round leaves no shutdown pending.
pub inactive-pending :
    (chrono : Chrono) (s : Enforcer) (r : Round)
    → active chrono r ≡ false
    → (run_round chrono s r).0.deadline ≡ none
unfolding run_round
inactive-pending chrono s r h = ground arith
