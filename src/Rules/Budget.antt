-- ===== src/Rules/Budget.antt =====
-- The budget of a day, and what the questions about it agree on (src/rules.rs).
use nestwatch.Common.{ℕ, ◌≤◌, ◌<◌, ◌≡◌, ◌↔◌, true, false, none, some, arith, u32_max, min, sat32}
use nestwatch.Chrono.{Chrono}
use nestwatch.Text.{Text}
use nestwatch.Usage.{Usage, remaining_mins}
use nestwatch.Rules.{
  Rules, Adjustments, is_warn, base_budget_for, effective_budget_mins, budget_cuts_extension_short,
  spent_today,
}

module _ (chrono : Chrono) (text : Text) (r : Rules) (today : ℕ) where
  pub effective_budget-le :
      (adj : Adjustments) → effective_budget_mins chrono text r today adj ≤ u32_max
  unfolding effective_budget_mins
  effective_budget-le adj = ground arith

-- The day counts as spent exactly when the rules are enabled and the minutes left on it, as the
-- dashboard shows them, are 0: the test in seconds and the figure in minutes cannot disagree.
pub spent_today-remaining :
    (chrono : Chrono) (text : Text) (r : Rules) (today : ℕ) (adj : Adjustments) (usage : Usage)
    → (spent_today chrono text r today adj usage ≡ true) ↔ (
        (r.enabled ≡ true)
        × (remaining_mins usage (effective_budget_mins chrono text r today adj) ≡ some 0))
unfolding spent_today remaining_mins
spent_today-remaining chrono text r today adj usage = (
  (λ h. (ground (arith, effective_budget-le chrono text r today adj))),
  (λ h. (ground (arith, effective_budget-le chrono text r today adj))),
)

-- A later bedtime of at least a minute is reported as cut off at once exactly when the day is spent
-- and its action interrupts the child.
pub budget_cuts-spent_today :
    (chrono : Chrono) (text : Text) (r : Rules) (today : ℕ) (adj : Adjustments) (usage : Usage)
    (minutes : ℕ)
    → 0 < minutes
    → (budget_cuts_extension_short chrono text r today adj usage minutes ≡ some 0)
      ↔ ((spent_today chrono text r today adj usage ≡ true) × (is_warn r.budget_action ≡ false))
unfolding spent_today budget_cuts_extension_short
budget_cuts-spent_today chrono text r today adj usage minutes h = (
  (λ p. (ground (arith, effective_budget-le chrono text r today adj))),
  (λ p. (ground (arith, effective_budget-le chrono text r today adj))),
)

-- A gate of at least a minute on a day with a base budget: the day stays limited, never gets more
-- than without the gate, and gets all of the parent's extra minutes on top of the smaller of base
-- and gate, as far as `u32` goes. Without a gate, a day with no base budget stays unlimited however
-- many minutes are granted.
pub effective_budget-gate :
    (chrono : Chrono) (text : Text) (r : Rules) (today extra cap : ℕ)
    → 0 < cap
    → let gated =
        effective_budget_mins chrono text r today (record { extra = extra; gate_cap = some cap }) in
      let free =
        effective_budget_mins chrono text r today (record { extra = extra; gate_cap = none }) in
      let base = base_budget_for chrono text r today in
      (0 < gated)
      × (0 < base → (gated ≤ free) × (gated ≡ sat32 (min base cap) extra))
      × (base ≡ 0 → free ≡ 0)
unfolding effective_budget_mins
effective_budget-gate chrono text r today extra cap h = ground arith
