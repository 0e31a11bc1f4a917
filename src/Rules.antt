-- ===== src/Rules.antt =====
-- The rules of a day (`Rules`, `AppGroup`, `Targets` of src/rules.rs): budgets, targets, validation.
pub mod Budget
pub mod Validation
use nestwatch.Common.{
  ℕ, ◌+◌, ◌*◌, ◌≤◌, String, Bool, true, false, not, ◌&&◌, ◌||◌, Option, none, some, List, [], ◌∷◌,
  map, length, any, find, retain, get_elem?, min, ltb, leb, if◌then◌else◌, sat32, unwrap_or,
}
use nestwatch.Common.Keyed.{◌=?◌, string_keys, mem?, insert}
use nestwatch.Chrono.{Chrono}
use nestwatch.Curfew.{max_warn_secs}
use nestwatch.Text.{Text, norm}
use nestwatch.Words.{
  max_rule_name, max_rule_entries, WordProblem, Normalised, refused, GroupMatch, no_match,
  normalise, is_usable, usable, add_name,
}
use nestwatch.Usage.{Usage, remaining_mins}

abbrev pub max_budget_mins : ℕ
max_budget_mins = 7 * 24 * 60

pub data EnforceAction : Type 0 where
  lock shutdown warn : EnforceAction

pub record AppGroup : Type 0 where
  pub name : String
  pub apps : List String
  pub words : List String
  pub limit_mins : ℕ

pub record Rules : Type 0 where
  pub enabled : Bool
  pub daily_budget_mins : ℕ
  pub budget_by_weekday : Option (List ℕ)
  pub blocklist : List String
  pub app_limits : List (String × ℕ)
  pub app_groups : List AppGroup
  pub warn_secs : ℕ
  pub budget_action : EnforceAction

pub data TickMode : Type 0 where
  stand_down measure enforce : TickMode

pub record Adjustments : Type 0 where
  pub extra : ℕ
  pub gate_cap : Option ℕ

-- A group as a tick compares it: `matched` is what the words found in this check.
pub record GroupTarget : Type 0 where
  pub name : String
  pub members : List String
  pub words : List String
  pub limit_mins : ℕ
  pub matched : GroupMatch

pub record Targets : Type 0 where
  pub blocked : List String
  pub app_limits : List (String × ℕ)
  pub groups : List GroupTarget

pub data RulesError : Type 0 where
  warning_too_long budget_too_big day_too_big limit_too_big too_many name_too_long : RulesError
  too_many_words : RulesError
  bad_word : String → WordProblem → RulesError

abbrev pub is_warn : EnforceAction → Bool
is_warn warn = true
is_warn _ = false

abbrev pub is_none_of {ℓ} : {A : Type ℓ} → List A → Bool
is_none_of [] = true
is_none_of (x ∷ xs) = false

-- `base.min(cap)` under the saturating additions; a base of 0 is an unlimited day.
unfoldable pub apply_adjustments : ℕ → Option ℕ → ℕ → ℕ
apply_adjustments base none extra = if ltb 0 base then sat32 base extra else 0
apply_adjustments base (some cap) extra =
    if ltb 0 base then sat32 (min base cap) extra else sat32 cap extra

-- `words::check`.
unfoldable pub check_each : Text → List String → Option RulesError
check_each text [] = none
check_each text (w ∷ ws) =
    let rest = check_each text ws in
    elim (normalise text w) [ refused p ↦ some (bad_word (text.trim w) p) | _ ↦ rest ]

unfoldable pub check : Text → List String → Option RulesError
unfolding check_each
check text words =
    if ltb max_rule_entries (length words) then some too_many_words else check_each text words

unfoldable pub check_groups : Text → List AppGroup → Option RulesError
check_groups text [] = none
check_groups text (g ∷ gs) =
    let rest = check_groups text gs in elim (check text g.words) [ some e ↦ some e | none ↦ rest ]

module _ (chrono : Chrono) (text : Text) where
  unfoldable pub has_pool : AppGroup → Bool
  has_pool g =
      ltb 0 g.limit_mins
      && (any (λ a. not (text.is_empty (text.trim a))) g.apps || any (is_usable text) g.words)

  unfoldable pub base_budget_for : Rules → ℕ → ℕ
  base_budget_for r today = elim r.budget_by_weekday [
    | none ↦ r.daily_budget_mins
    | some days ↦
        unwrap_or (get_elem? days (chrono.num_days_from_monday (chrono.weekday today)))
          r.daily_budget_mins
  ]

  unfoldable pub has_any_budget : Rules → Bool
  has_any_budget r = elim r.budget_by_weekday [
    | none ↦ ltb 0 r.daily_budget_mins
    | some days ↦ any (λ m. ltb 0 m) days
  ]

  -- A set of normalised names, the blank ones left out.
  unfoldable pub matchable : List String → List String
  matchable [] = []
  matchable (n ∷ ns) =
      let rest = matchable ns in
      if text.is_empty (norm text n) then rest else add_name (norm text n) rest

  -- Collecting into a map: of two names that are one when normalised, the later limit stands.
  unfoldable pub collect : List (String × ℕ) → List (String × ℕ) → List (String × ℕ)
  collect m [] = m
  collect m ((name, limit) ∷ es) = collect (insert (norm text name) limit m) es

  abbrev pub group_target : AppGroup → GroupTarget
  group_target g = record {
    name = g.name;
    members = matchable g.apps;
    words = usable text g.words;
    limit_mins = g.limit_mins;
    matched = no_match;
  }

  unfoldable pub from_rules : Rules → Targets
  unfolding has_pool matchable collect
  from_rules r = record {
    blocked = matchable r.blocklist;
    app_limits =
        collect [] (retain (λ e. ltb 0 e.1 && not (text.is_empty (text.trim e.0))) r.app_limits);
    groups = map group_target (retain has_pool r.app_groups);
  }

  unfoldable pub no_targets : Targets → Bool
  no_targets t = is_none_of t.blocked && is_none_of t.app_limits && is_none_of t.groups

  unfoldable pub has_targets : Rules → Bool
  unfolding has_any_budget from_rules no_targets
  has_targets r = has_any_budget r || not (no_targets (from_rules r))

  unfoldable pub has_words : Rules → Bool
  unfolding from_rules
  has_words r = any (λ g. not (is_none_of g.words)) (from_rules r).groups

  unfoldable pub tick_mode : Rules → TickMode
  unfolding has_targets
  tick_mode r = if not r.enabled then stand_down else if has_targets r then enforce else measure

  -- The clauses of `validate` up to the words, as tests that refuse.
  unfoldable pub days_too_big : Rules → Bool
  days_too_big r = elim r.budget_by_weekday [
    | none ↦ false
    | some days ↦ any (λ m. ltb max_budget_mins m) days
  ]

  unfoldable pub limits_too_big : Rules → Bool
  limits_too_big r =
      any (λ e. ltb max_budget_mins e.1) r.app_limits
      || any (λ g. ltb max_budget_mins g.limit_mins) r.app_groups

  unfoldable pub too_long : String → Bool
  too_long name = ltb max_rule_name (text.chars name)

  unfoldable pub validate : Rules → Option RulesError
  validate r =
      if ltb max_warn_secs r.warn_secs
      then some warning_too_long
      else if ltb max_budget_mins r.daily_budget_mins
      then some budget_too_big
      else if days_too_big r
      then some day_too_big
      else if limits_too_big r
      then some limit_too_big
      else if ltb max_rule_entries (length r.blocklist)
          || ltb max_rule_entries (length r.app_limits)
          || ltb max_rule_entries (length r.app_groups)
      then some too_many
      else if any too_long r.blocklist
          || any (λ e. too_long e.0) r.app_limits
          || any (λ g. too_long g.name || any too_long g.apps) r.app_groups
      then some name_too_long
      else check_groups text r.app_groups

  unfoldable pub effective_budget_mins : Rules → ℕ → Adjustments → ℕ
  unfolding apply_adjustments
  effective_budget_mins r today adj =
      apply_adjustments (base_budget_for r today) adj.gate_cap adj.extra

  unfoldable pub budget_cuts_extension_short : Rules → ℕ → Adjustments → Usage → ℕ → Option ℕ
  unfolding remaining_mins
  budget_cuts_extension_short r today adj usage minutes =
      if not r.enabled || is_warn r.budget_action
      then none
      else elim (remaining_mins usage (effective_budget_mins r today adj)) [
        | none ↦ none
        | some remaining ↦ if ltb remaining minutes then some remaining else none
      ]

  unfoldable pub spent_today : Rules → ℕ → Adjustments → Usage → Bool
  spent_today r today adj usage =
      let budget = effective_budget_mins r today adj in
      r.enabled && ltb 0 budget && leb (budget * 60) usage.total_secs
