-- ===== src/Enforce/Episode.antt =====
-- An episode over the budget: when the screen is locked, and that the child is warned first (the
-- part of `decide` in src/rules.rs on the budget).
use nestwatch.Common.{
  any-append, ℕ, ◌*◌, ◌≤◌, ◌<◌, ◌≡◌, refl, ap, ◌∙◌, sym, Bool, true, false, Option, none, some,
  List, [], ◌∷◌, ◌++◌, any, arith, String, ◌&&◌, ltb, if◌then◌else◌,
}
use nestwatch.Chrono.{Chrono}
use nestwatch.Text.{Text, norm}
use nestwatch.Rules.{EnforceAction, lock, shutdown, warn, effective_budget_mins}
use nestwatch.Enforce.{
  RunningProcess, Tick, RuleAction, lock_screen, shut_down, shut_down_now, warn_spent, lock_warning,
  Sweep, sweep, RulesEnforcer, budget_step, charged, targets_at, decide,
}
use nestwatch.Enforce.Notices.{Round}

abbrev pub is_lock : RuleAction → Bool
is_lock lock_screen = true
is_lock _ = false

abbrev pub is_lock_warning : RuleAction → Bool
is_lock_warning lock_warning = true
is_lock_warning _ = false

-- An action on the child's whole session.
abbrev pub interrupts : RuleAction → Bool
interrupts lock_screen = true
interrupts shut_down = true
interrupts shut_down_now = true
interrupts warn_spent = true
interrupts lock_warning = true
interrupts _ = false

sweep-quiet :
    (text : Text) (w : Sweep) (ps : List RunningProcess) (announced : List String)
    → (any interrupts (sweep text w ps announced).1 ≡ false)
      × (any is_lock (sweep text w ps announced).1 ≡ false)
      × (any is_lock_warning (sweep text w ps announced).1 ≡ false)
unfolding sweep
sweep-quiet text w [] announced = (refl, refl, refl)
sweep-quiet text w (p ∷ ps) announced =
    ground
      (arith, sweep-quiet text w ps announced, sweep-quiet text w ps (norm text p.name ∷ announced))

-- The budget of a round is spent once the round is charged.
module _ (chrono : Chrono) (text : Text) where
  abbrev pub budget_of : Round → ℕ
  budget_of r = effective_budget_mins chrono text r.rules r.tick.today r.tick.adjustments

  abbrev pub IsSpent : RulesEnforcer → Round → Type 0
  IsSpent s r =
      (0 < budget_of r)
      × (budget_of r * 60 ≤ (charged chrono text s r.rules r.procs r.tick).usage.total_secs)

  abbrev after : RulesEnforcer → Round → RulesEnforcer
  after s r = (decide chrono text s r.rules r.procs r.tick).0

  abbrev actions : RulesEnforcer → Round → List RuleAction
  actions s r = (decide chrono text s r.rules r.procs r.tick).1

  -- What a round does to the episode is what `budget_step` does to the charged state.
  abbrev StepsAs : RulesEnforcer → Round → RulesEnforcer → Type 0
  StepsAs s r c =
      (c.budget_deadline ≡ s.budget_deadline)
      × (c.episode_warned ≡ s.episode_warned)
      × (c.usage ≡ (charged chrono text s r.rules r.procs r.tick).usage)
      × (after s r ≡ (budget_step r.rules.budget_action (budget_of r) c r.tick).0)
      × (any interrupts (actions s r)
          ≡ any interrupts (budget_step r.rules.budget_action (budget_of r) c r.tick).1)
      × (any is_lock (actions s r)
          ≡ any is_lock (budget_step r.rules.budget_action (budget_of r) c r.tick).1)
      × (any is_lock_warning (actions s r)
          ≡ any is_lock_warning (budget_step r.rules.budget_action (budget_of r) c r.tick).1)

  abbrev sweep_of : RulesEnforcer → Round → Sweep
  sweep_of s r = record {
    targets = targets_at chrono text r.rules r.tick;
    usage = (charged chrono text s r.rules r.procs r.tick).usage;
    child_processes = r.tick.child_processes;
  }

  abbrev swept : RulesEnforcer → Round → List String × List RuleAction
  swept s r =
      sweep text (sweep_of s r) r.procs (charged chrono text s r.rules r.procs r.tick).announced

  abbrev ready : RulesEnforcer → Round → RulesEnforcer
  ready s r = record (charged chrono text s r.rules r.procs r.tick) { announced = (swept s r).0 }

  decide-actions :
      (s : RulesEnforcer) (r : Round)
      → actions s r
        ≡ (swept s r).1 ++ (budget_step r.rules.budget_action (budget_of r) (ready s r) r.tick).1
  unfolding decide
  decide-actions s r = refl

  decide-steps : (s : RulesEnforcer) (r : Round) → StepsAs s r (ready s r)
  unfolding charged
  decide-steps s r =
      let budget = (budget_step r.rules.budget_action (budget_of r) (ready s r) r.tick).1 in
      let (a, b, c) =
        sweep-quiet text (sweep_of s r) r.procs
          (charged chrono text s r.rules r.procs r.tick).announced in
      (
        refl,
        refl,
        refl,
        unfold decide in refl,
        rw (decide-actions s r, any-append interrupts (swept s r).1 budget, a) refl,
        rw (decide-actions s r, any-append is_lock (swept s r).1 budget, b) refl,
        rw (decide-actions s r, any-append is_lock_warning (swept s r).1 budget, c) refl,
      )

step-interrupts :
    (action : EnforceAction) (budget : ℕ) (c : RulesEnforcer) (t : Tick)
    → any interrupts (budget_step action budget c t).1 ≡ true
    → (t.active ≡ true) × (0 < budget) × (budget * 60 ≤ c.usage.total_secs)
unfolding budget_step
step-interrupts lock budget c t h = ground arith
step-interrupts shutdown budget c t h = ground arith
step-interrupts warn budget c t h = ground arith

step-warns :
    (action : EnforceAction) (budget : ℕ) (c : RulesEnforcer) (t : Tick)
    → action ≡ warn
    → t.active ≡ true
    → 0 < budget
    → budget * 60 ≤ c.usage.total_secs
    → any interrupts (budget_step action budget c t).1 ≡ true
unfolding budget_step
step-warns lock budget c t w a b s = ground arith
step-warns shutdown budget c t w a b s = ground arith
step-warns warn budget c t w a b s = ground arith

abbrev pub AtMost : ℕ → Option ℕ → Type 0
AtMost d none = Unit
AtMost d (some e) = e ≤ d

-- Without a standing warning there is no episode.
abbrev Covers : Bool → RulesEnforcer → Type 0
Covers told c = told ≡ false → (c.episode_warned ≡ false) × (c.budget_deadline ≡ none)

-- Whether a warning stands after a round: one that was given does, until an active tick finds the
-- time used below the limit.
abbrev pub standing : (told warned active : Bool) (budget used : ℕ) → Bool
standing told warned active budget used =
    if warned
    then true
    else if active && ltb 0 budget && ltb used (budget * 60)
    then false
    else told

step-Covers :
    (action : EnforceAction) (budget : ℕ) (told : Bool) (c : RulesEnforcer) (t : Tick)
    → action ≡ lock
    → Covers told c
    → (any is_lock (budget_step action budget c t).1 ≡ true → told ≡ true)
      × Covers
          (standing told
            (any is_lock_warning (budget_step action budget c t).1)
            t.active
            budget
            c.usage.total_secs)
          (budget_step action budget c t).0
unfolding budget_step
step-Covers lock budget true c t a h = ((λ locked. refl), (λ (e : _). ground arith))
step-Covers lock budget false c t a h =
    let (w, d) = h refl in ((λ locked. ground arith), (λ e. ground arith))
step-Covers shutdown budget told c t a h = absurd cc
step-Covers warn budget told c t a h = absurd cc

module _ (chrono : Chrono) (text : Text) where
  -- The screen is locked, the PC shut down or the child told that the time is up only in an active
  -- tick at which the day's limit is spent; and with the action `warn` every such tick says so.
  pub decide-interrupts :
      (s : RulesEnforcer) (r : Round)
      → (any interrupts (actions chrono text s r) ≡ true
          → (r.tick.active ≡ true) × IsSpent chrono text s r)
        × (r.rules.budget_action ≡ warn
            → r.tick.active ≡ true
            → IsSpent chrono text s r
            → any interrupts (actions chrono text s r) ≡ true)
  decide-interrupts s r =
      let c = ready chrono text s r in
      let budget = budget_of chrono text r in
      let (_, _, _, _, same, _, _) = decide-steps chrono text s r in
      (
        (λ h.
            let (active, some_budget, spent) =
              step-interrupts r.rules.budget_action budget c r.tick (sym same ∙ h) in
            (active, (some_budget, spent))),
        (λ a active spent.
            same ∙ step-warns r.rules.budget_action budget c r.tick a active spent.0 spent.1),
      )

  abbrev pub AllLock : RulesEnforcer → List Round → Type 0
  AllLock s [] = Unit
  AllLock s (r ∷ rs) = (r.rules.budget_action ≡ lock) × AllLock (after chrono text s r) rs

  -- In each round the limit is spent whenever the tick is active.
  abbrev pub StaySpent : RulesEnforcer → List Round → Type 0
  StaySpent s [] = Unit
  StaySpent s (r ∷ rs) =
      (r.rules.budget_action ≡ lock)
      × (r.tick.active ≡ true → IsSpent chrono text s r)
      × StaySpent (after chrono text s r) rs

  abbrev pub LockFrom : ℕ → RulesEnforcer → List Round → Type 0
  LockFrom d s [] = Unit
  LockFrom d s (r ∷ rs) =
      (r.tick.active ≡ true → d ≤ r.tick.now → any is_lock (actions chrono text s r) ≡ true)
      × LockFrom d (after chrono text s r) rs

  abbrev warning_after : Bool → RulesEnforcer → Round → Bool
  warning_after told s r =
      standing told (any is_lock_warning (actions chrono text s r)) r.tick.active
        (budget_of chrono text r) (charged chrono text s r.rules r.procs r.tick).usage.total_secs

  -- In each round the screen is locked only if a warning stands from an earlier one.
  abbrev pub WarnsFirst : Bool → RulesEnforcer → List Round → Type 0
  WarnsFirst told s [] = Unit
  WarnsFirst told s (r ∷ rs) =
      (any is_lock (actions chrono text s r) ≡ true → told ≡ true)
      × WarnsFirst (warning_after told s r) (after chrono text s r) rs

  warns_from :
      (rs : List Round) (told : Bool) (s : RulesEnforcer)
      → Covers told s
      → AllLock s rs
      → WarnsFirst told s rs
  unfolding charged decide
  warns_from [] told s c h = tt
  warns_from (r ∷ rs) told s c h =
      let budget = budget_of chrono text r in
      let (locks, covers) =
        step-Covers r.rules.budget_action budget told (ready chrono text s r) r.tick h.0 c in
      let (_, _, _, _, _, same, warned) = decide-steps chrono text s r in
      let used = (charged chrono text s r.rules r.procs r.tick).usage.total_secs in
      (
        (λ locked. locks (sym same ∙ locked)),
        warns_from rs (warning_after told s r) (after chrono text s r)
            (λ e. covers (ap (λ w. standing told w r.tick.active budget used) (sym warned) ∙ e))
            h.1,
      )

  -- From a state outside any episode, as every start of the program is, and with the action `lock` in
  -- every tick, the screen is locked only after a warning of the same episode: one given at an
  -- earlier tick, since which no active tick found the time used below the day's limit.
  pub run-WarnsFirst :
      (rs : List Round) (s : RulesEnforcer)
      → s.episode_warned ≡ false
      → s.budget_deadline ≡ none
      → AllLock s rs
      → WarnsFirst false s rs
  run-WarnsFirst rs s w d h = warns_from rs false s (λ e. (w, d)) h
