-- ===== src/Policy/Import.antt =====
-- What the import of a policy keeps (src/config.rs, `apply_policy`).
use nestwatch.Common.{◌≡◌, refl}
use nestwatch.Chrono.{Chrono, DateTime}
use nestwatch.Text.{Text}
use nestwatch.Curfew.{validate as validate_curfew}
use nestwatch.Rules.{days_too_big, limits_too_big, validate as validate_rules}
use nestwatch.Policy.{
  Household, policy, apply_policy, rules_at, active_routine_at, scheduled_routine_at, validate,
}

-- A policy exported from one household and imported into another puts the same rules in force there
-- at every moment, if both are paused or neither is; the pause and tonight's extension of the importing
-- household stay; and what it exports then is as valid as what was imported.
pub rules_at-apply_policy :
    (chrono : Chrono) (text : Text) (c d : Household) (at : DateTime)
    → c.rules.enabled ≡ d.rules.enabled
    → (let e = apply_policy (policy d) c in
        (rules_at chrono e at ≡ rules_at chrono d at)
        × (active_routine_at chrono e at ≡ active_routine_at chrono d at)
        × (e.rules.enabled ≡ c.rules.enabled)
        × (e.curfew.extra_until ≡ c.curfew.extra_until)
        × (validate chrono text (policy e) ≡ validate chrono text (policy d)))
unfolding rules_at active_routine_at scheduled_routine_at apply_policy policy validate
    validate_curfew validate_rules days_too_big limits_too_big
rules_at-apply_policy chrono text c d at same = (rw same refl, rw same refl, refl, refl, refl)
