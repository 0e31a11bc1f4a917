-- ===== src/Tests/Budget.antt =====
-- The rules and the words of a group on a school day.
use nestwatch.Common.{ℕ, ◌≡◌, ◌↔◌, refl, String, none, some, List, [], ◌∷◌}
use nestwatch.Rules.{Adjustments, validate}
use nestwatch.Rules.Validation.{IsBounded, validate-IsBounded}
use nestwatch.Curfew.{no_days}
use nestwatch.Policy
use nestwatch.Policy.{Routine, Household, en, nl, rules_at, active_routine_at, policy, apply_policy}
use nestwatch.Policy.InForce.{InForce}
use nestwatch.Policy.Import.{rules_at-apply_policy}
use nestwatch.Tests.Base.{calendar, ascii, schoolday, bedtime, at_minute}

abbrev plain : Adjustments
plain = record { extra = 0; gate_cap = none }

abbrev gated : Adjustments
gated = record { extra = 10; gate_cap = some 20 }

validate-IsBounded_example : (validate calendar ascii schoolday ≡ none) ↔ IsBounded ascii schoolday
validate-IsBounded_example = validate-IsBounded calendar ascii schoolday

abbrev players : List (ℕ × String)
players = (3, "film") ∷ (4, "csrss.exe") ∷ []

-- Homework from four to six; the afternoon of another household, which it imports.
abbrev homework : Routine
homework = record {
  name = "Homework";
  rules = record schoolday { daily_budget_mins = 30 };
  schedule = record { start = "16:00"; end = "18:00"; days = no_days } ∷ [];
}

abbrev family : Household
family = record { curfew = bedtime; rules = schoolday; routines = homework ∷ []; language = en }

abbrev neighbours : Household
neighbours = record family { routines = []; language = nl }

rules_at-apply_policy_example :
    (rules_at calendar (apply_policy (policy family) neighbours) (at_minute 1000)
      ≡ rules_at calendar family (at_minute 1000))
    × (active_routine_at calendar (apply_policy (policy family) neighbours) (at_minute 1000)
        ≡ active_routine_at calendar family (at_minute 1000))
    × ((apply_policy (policy family) neighbours).rules.enabled ≡ neighbours.rules.enabled)
    × ((apply_policy (policy family) neighbours).curfew.extra_until ≡ neighbours.curfew.extra_until)
    × (Policy.validate calendar ascii (policy (apply_policy (policy family) neighbours))
        ≡ Policy.validate calendar ascii (policy family))
rules_at-apply_policy_example =
    rules_at-apply_policy calendar ascii neighbours family (at_minute 1000) refl
