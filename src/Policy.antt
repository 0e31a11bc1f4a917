-- ===== src/Policy.antt =====
-- The household's limits and their presets (`Routine`, `Policy` and the part of `Config` on them,
-- src/config.rs): which rules are in force at a moment, and what an import replaces.
pub mod InForce
pub mod Import
use nestwatch.Common.{
  ℕ, String, Bool, true, false, not, ◌&&◌, ◌||◌, Option, none, some, List, [], ◌∷◌, length, find,
  ltb, if◌then◌else◌,
}
use nestwatch.Chrono.{Chrono, DateTime, time, date}
use nestwatch.Text.{Text}
use nestwatch.Curfew.{Curfew, CurfewError, Window, any_window_active, validate as validate_curfew}
use nestwatch.Rules.{Rules, RulesError, validate as validate_rules}

abbrev pub max_routines : ℕ
max_routines = 20

abbrev pub max_routine_name : ℕ
max_routine_name = 40

pub record Routine : Type 0 where
  pub name : String
  pub rules : Rules
  pub schedule : List Window

pub data Language : Type 0 where
  en nl tr : Language

pub record Policy : Type 0 where
  pub curfew : Curfew
  pub rules : Rules
  pub routines : List Routine
  pub language : Language

-- The part of `Config` that a policy is taken from and put into.
pub record Household : Type 0 where
  pub curfew : Curfew
  pub rules : Rules
  pub routines : List Routine
  pub language : Language

abbrev pub is_empty : List Window → Bool
is_empty [] = true
is_empty _ = false

module _ (chrono : Chrono) where
  abbrev pub scheduled : DateTime → Routine → Bool
  scheduled at r =
      not (is_empty r.schedule)
      && any_window_active chrono r.schedule (time at) (chrono.weekday (date at))

  unfoldable pub scheduled_routine_at : Household → DateTime → Option Routine
  scheduled_routine_at c at = if not c.rules.enabled then none else find (scheduled at) c.routines

  unfoldable pub rules_at : Household → DateTime → Rules
  rules_at c at = elim (scheduled_routine_at c at) [ none ↦ c.rules | some r ↦ r.rules ]

  unfoldable pub active_routine_at : Household → DateTime → Option String
  active_routine_at c at = elim (scheduled_routine_at c at) [ none ↦ none | some r ↦ some r.name ]

unfoldable pub policy : Household → Policy
policy c = record {
  curfew = record c.curfew { extra_until = none };
  rules = c.rules;
  routines = c.routines;
  language = c.language;
}

unfoldable pub apply_policy : Policy → Household → Household
apply_policy p c = record {
  curfew = record p.curfew { extra_until = c.curfew.extra_until };
  rules = record p.rules { enabled = c.rules.enabled };
  routines = p.routines;
  language = p.language;
}

pub data PolicyError : Type 0 where
  curfew_error : CurfewError → PolicyError
  rules_error : RulesError → PolicyError
  too_many_routines : ℕ → PolicyError
  invalid_routine_name : String → PolicyError
  routine_error : String → RulesError → PolicyError

module _ (chrono : Chrono) (text : Text) where
  unfoldable pub validate_routines : List Routine → Option PolicyError
  validate_routines [] = none
  validate_routines (r ∷ rs) =
      let rest = validate_routines rs in
      let name = text.trim r.name in
      if text.is_empty name || ltb max_routine_name (text.chars name)
      then some (invalid_routine_name r.name)
      else elim (validate_rules chrono text r.rules) [
        | none ↦ rest
        | some e ↦ some (routine_error r.name e)
      ]

  -- `none` is `Ok(())`.
  unfoldable pub validate : Policy → Option PolicyError
  validate p = elim (validate_curfew chrono p.curfew) [
    | some e ↦ some (curfew_error e)
    | none ↦ elim (validate_rules chrono text p.rules) [
      | some e ↦ some (rules_error e)
      | none ↦
          if ltb max_routines (length p.routines)
          then some (too_many_routines (length p.routines))
          else validate_routines p.routines
    ]
  ]
