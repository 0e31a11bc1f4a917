-- ===== src/Enforce/Loop/Log.antt =====
-- The sessions in the usage log (`run_rules_enforcer` of src/rules.rs).
use nestwatch.Common.{
  ℕ, ◌≡◌, refl, ap, ◌∙◌, Bool, true, false, Option, none, some, List, [], ◌∷◌, ◌++◌, inl, inr,
  Bool-cases, if◌then◌else◌, is_some_and,
}
use nestwatch.Chrono.{Chrono}
use nestwatch.Text.{Text}
use nestwatch.Usage.{Usage}
use nestwatch.Rules.{tick_mode, TickMode, measure, enforce}
use nestwatch.Rules
use nestwatch.Enforce.{
  RunningProcess, RuleAction, kill, app_stopped, lock_screen, shut_down, shut_down_now, warn_spent,
  lock_warning, time_warning,
}
use nestwatch.Enforce.Rollup.{Row}
use nestwatch.Enforce.Steps.{
  State, Seen, Round, Event, session_start, session_stop, app_stopped_line, budget_countdown,
  budget_lock, budget_shutdown, budget_warn, budget_shutdown_aborted, Performed, perform_one,
  perform_all, log_transition, session_lines, row_lines,
}
use nestwatch.Enforce.Loop.{
  begin_round, paused_round, decided_round, enforced_round, round_in, run_round, run_rounds,
}

-- Whether a session is open after a line; `none` where the line cannot stand there.
abbrev pub after_line : Bool → Event → Option Bool
after_line true session_start = none
after_line false session_start = some true
after_line true (session_stop used budget) = some false
after_line false (session_stop used budget) = none
after_line is_open _ = some is_open

unfoldable pub after_lines : Option Bool → List Event → Option Bool
after_lines none events = none
after_lines (some is_open) [] = some is_open
after_lines (some is_open) (e ∷ events) = after_lines (after_line is_open e) events

after_lines-append :
    (o : Option Bool) (xs ys : List Event)
    → after_lines o (xs ++ ys) ≡ after_lines (after_lines o xs) ys
unfolding after_lines
after_lines-append none xs ys = refl
after_lines-append (some b) [] ys = refl
after_lines-append (some b) (e ∷ xs) ys = after_lines-append (after_line b e) xs ys

-- The lines say nothing of a session.
abbrev Quiet : List Event → Type 0
Quiet events = (b : Bool) → after_lines (some b) events ≡ some b

abbrev is_open : State → Bool
is_open s = is_some_and (λ b. b) s.prev_active

Quiet-append : (xs ys : List Event) → Quiet xs → Quiet ys → Quiet (xs ++ ys)
Quiet-append xs ys p q b =
    after_lines-append (some b) xs ys ∙ ap (λ o. after_lines o ys) (p b) ∙ q b

Quiet-none : Quiet []
Quiet-none b = unfold after_lines in refl

row-Quiet : (o : Option Row) → Quiet (row_lines o)
unfolding after_lines
row-Quiet none b = refl
row-Quiet (some row) true = refl
row-Quiet (some row) false = refl

Quiet-line :
    (e : Event) → after_line true e ≡ some true → after_line false e ≡ some false → Quiet (e ∷ [])
unfolding after_lines
Quiet-line e t f true = rw (after_lines, t) refl
Quiet-line e t f false = rw (after_lines, f) refl

perform_one-Quiet :
    (succeeds : RuleAction → Bool) (used budget : ℕ) (a : RuleAction) (f : Performed)
    → Quiet f.lines
    → Quiet (perform_one succeeds used budget a f).lines
unfolding perform_one
perform_one-Quiet succeeds used budget (kill pid) f q = q
perform_one-Quiet succeeds used budget (app_stopped app reason) f q =
    Quiet-append f.lines _ q (Quiet-line (app_stopped_line app reason _) refl refl)
perform_one-Quiet succeeds used budget lock_screen f q = q
perform_one-Quiet succeeds used budget shut_down f q = q
perform_one-Quiet succeeds used budget shut_down_now f q = q
perform_one-Quiet succeeds used budget warn_spent f q = q
perform_one-Quiet succeeds used budget lock_warning f q = q
perform_one-Quiet succeeds used budget (time_warning mins) f q =
    elim (Bool-cases (succeeds (time_warning mins))) [
      | inl shown ↦
          rw (perform_one, shown)
            (Quiet-append f.lines _ q (Quiet-line (budget_countdown mins used budget) refl refl))
      | inr silent ↦ rw (perform_one, silent) q
    ]

perform_all-Quiet :
    (succeeds : RuleAction → Bool) (used budget : ℕ) (actions : List RuleAction) (f : Performed)
    → Quiet f.lines
    → Quiet (perform_all succeeds used budget actions f).lines
unfolding perform_all
perform_all-Quiet succeeds used budget [] f q = q
perform_all-Quiet succeeds used budget (a ∷ actions) f q =
    perform_all-Quiet succeeds used budget actions (perform_one succeeds used budget a f)
      (perform_one-Quiet succeeds used budget a f q)

when-Quiet : (b : Bool) (e : Event) → Quiet (e ∷ []) → Quiet (if b then e ∷ [] else [])
when-Quiet true e q = q
when-Quiet false e q = Quiet-none

-- The lines after one another, the first that says something of a session in the middle.
Quiet-around :
    (b c : Bool) (xs ys zs : List Event)
    → Quiet xs
    → after_lines (some b) ys ≡ some c
    → Quiet zs
    → after_lines (some b) (xs ++ (ys ++ zs)) ≡ some c
Quiet-around b c xs ys zs p middle q =
    after_lines-append (some b) xs (ys ++ zs)
    ∙ ap (λ o. after_lines o (ys ++ zs)) (p b)
    ∙ after_lines-append (some b) ys zs
    ∙ ap (λ o. after_lines o zs) middle
    ∙ q c

stop_lines :
    (b : Bool) (used : ℕ) (budget : Option ℕ)
    → after_lines (some b) (if b then session_stop used budget ∷ [] else []) ≡ some false
unfolding after_lines
stop_lines true used budget = refl
stop_lines false used budget = refl

session_lines-open :
    (o : Option Bool) (active : Bool) (used budget : ℕ)
    → after_lines (some (is_some_and (λ b. b) o)) (session_lines o active used budget) ≡ some active
unfolding session_lines after_lines
session_lines-open (some true) true used budget = refl
session_lines-open (some false) true used budget = refl
session_lines-open none true used budget = refl
session_lines-open (some true) false used budget = refl
session_lines-open (some false) false used budget = refl
session_lines-open none false used budget = refl

module _ (chrono : Chrono) (text : Text) (same_tally : Usage → Usage → Bool) where
  -- The lines of a round take the log from the state before to the state after.
  abbrev Tracks : State → Round → Type 0
  Tracks s r = after_lines (some (is_open s)) r.events ≡ some (is_open r.state)

  decided-Tracks :
      (s : State) (i : Seen) (today elapsed : ℕ) (procs : List RunningProcess)
      → Tracks s (decided_round chrono text same_tally s i today elapsed procs)
  unfolding decided_round log_transition
  decided-Tracks s i today elapsed procs =
      Quiet-around (is_open s) _ _ _ _ (row-Quiet _) (session_lines-open s.prev_active _ _ _) (
        Quiet-append _ _ (perform_all-Quiet i.succeeds _ _ _ _ Quiet-none) (
          Quiet-append _ _ (when-Quiet _ (budget_lock _ _) (Quiet-line _ refl refl)) (
            Quiet-append _ _ (when-Quiet _ (budget_shutdown _ _) (Quiet-line _ refl refl)) (
              Quiet-append _ _ (when-Quiet _ (budget_warn _ _) (Quiet-line _ refl refl))
                (when-Quiet _ budget_shutdown_aborted (Quiet-line _ refl refl))))))

  paused-Tracks :
      (s : State) (i : Seen) (today : ℕ) → Tracks s (paused_round chrono text same_tally s i today)
  unfolding paused_round
  paused-Tracks s i today =
      Quiet-around (is_open s) false [] _ _ Quiet-none (stop_lines (is_open s) _ none) (
        Quiet-append _ _ (when-Quiet _ budget_shutdown_aborted (Quiet-line _ refl refl))
          (row-Quiet _))

  enforced-Tracks :
      (s : State) (i : Seen) (today elapsed : ℕ) (procs : Option (List RunningProcess))
      → Tracks s (enforced_round chrono text same_tally s i today elapsed procs)
  unfolding enforced_round after_lines
  enforced-Tracks s i today elapsed none = refl
  enforced-Tracks s i today elapsed (some procs) = decided-Tracks s i today elapsed procs

  mode-Tracks :
      (mode : TickMode) (s : State) (i : Seen) (today elapsed : ℕ)
      → Tracks s (round_in chrono text same_tally mode s i today elapsed)
  unfolding round_in
  mode-Tracks Rules.stand_down s i today elapsed = paused-Tracks s i today
  mode-Tracks measure s i today elapsed = decided-Tracks s i today elapsed []
  mode-Tracks enforce s i today elapsed = enforced-Tracks s i today elapsed i.running_processes

  round-Tracks : (s : State) (i : Seen) → Tracks s (run_round chrono text same_tally s i)
  unfolding run_round begin_round
  round-Tracks s i =
      let (b, today, elapsed) = begin_round chrono text same_tally s i in
      mode-Tracks (tick_mode chrono text i.rules) b i today elapsed

-- In the usage log of any run of the loop, with pauses and failures in it, the starts and the stops
-- of sessions take turns: a start stands only where no session is open and a stop only where one
-- is, from the state at the start of the run to the state at its end.
pub run_rounds-alternate :
    (chrono : Chrono) (text : Text) (same_tally : Usage → Usage → Bool) (s : State) (is : List Seen)
    → let r = run_rounds chrono text same_tally s is in
      after_lines (some (is_some_and (λ b. b) s.prev_active)) r.1
      ≡ some (is_some_and (λ b. b) r.0.prev_active)
unfolding run_rounds
run_rounds-alternate chrono text same_tally s [] = unfold after_lines in refl
run_rounds-alternate chrono text same_tally s (i ∷ is) =
    let r = run_round chrono text same_tally s i in
    after_lines-append (some (is_open s)) r.events (run_rounds chrono text same_tally r.state is).1
    ∙ ap (λ o. after_lines o (run_rounds chrono text same_tally r.state is).1)
        (round-Tracks chrono text same_tally s i)
    ∙ run_rounds-alternate chrono text same_tally r.state is
