-- ===== src/Rules/Validation.antt =====
-- What `validate` lets through (src/rules.rs).
use nestwatch.Common.{
  ℕ, ◌≤◌, ◌≡◌, ◌↔◌, refl, String, Bool, true, false, ◌||◌, Option, none, some, List, [], ◌∷◌, All,
  any, length, ltb, arith,
}
use mathlib.Core.Path.{subst}
use nestwatch.Chrono.{Chrono}
use nestwatch.Curfew.{max_warn_secs}
use nestwatch.Text.{Text}
use nestwatch.Words.{max_rule_name, max_rule_entries, normalise, refused, Normalised}
use nestwatch.Rules.{
  Rules, AppGroup, max_budget_mins, check_each, check, check_groups, days_too_big, limits_too_big,
  too_long, validate,
}

abbrev pub is_refused : Normalised → Bool
is_refused (refused p) = true
is_refused _ = false

module _ (text : Text) where
  -- At most 200 words, none of them refused by `normalise`.
  pub record AreWords (ws : List String) : Type 0 where
    pub few : length ws ≤ max_rule_entries
    pub each : All (λ w. is_refused (normalise text w) ≡ false) ws

  check_each-none :
      (ws : List String)
      → (check_each text ws ≡ none) ↔ All (λ w. is_refused (normalise text w) ≡ false) ws
  unfolding check_each
  check_each-none [] = (λ _. tt, λ _. refl)
  check_each-none (w ∷ ws) =
      let ih = check_each-none ws in ((λ h. ground (arith, ih.0)), (λ h. ground (arith, ih.1 h.1)))

  check-AreWords : (ws : List String) → (check text ws ≡ none) ↔ AreWords ws
  unfolding check
  check-AreWords ws =
      let each = check_each-none ws in
      ((λ h. ground (arith, each.0)), (λ h. ground (arith, each.1 h.each)))

  check_groups-none :
      (gs : List AppGroup) → (check_groups text gs ≡ none) ↔ All (λ g. AreWords g.words) gs
  unfolding check_groups
  check_groups-none [] = (λ _. tt, λ _. refl)
  check_groups-none (g ∷ gs) =
      let here = check-AreWords g.words in
      let ih = check_groups-none gs in
      ((λ h. ground (arith, here.0, ih.0)), (λ h. ground (arith, here.1 h.0, ih.1 h.1)))

  abbrev pub IsName : String → Type 0
  IsName s = text.chars s ≤ max_rule_name

  -- Every number and every name of the rules is within its bound.
  pub record IsBounded (r : Rules) : Type 0 where
    pub warning : r.warn_secs ≤ max_warn_secs
    pub daily : r.daily_budget_mins ≤ max_budget_mins
    pub weekdays :
        (days : List ℕ) → r.budget_by_weekday ≡ some days → All (λ m. m ≤ max_budget_mins) days
    pub limits : All (λ e. e.1 ≤ max_budget_mins) r.app_limits
    pub pools : All (λ g. g.limit_mins ≤ max_budget_mins) r.app_groups
    pub few_blocked : length r.blocklist ≤ max_rule_entries
    pub few_limits : length r.app_limits ≤ max_rule_entries
    pub few_groups : length r.app_groups ≤ max_rule_entries
    pub blocked_names : All IsName r.blocklist
    pub limit_names : All (λ e. IsName e.0) r.app_limits
    pub group_names : All (λ g. IsName g.name × All IsName g.apps) r.app_groups
    pub words : All (λ g. AreWords g.words) r.app_groups

some-inj {ℓ} : {A : Type ℓ} {a b : A} → some a ≡ some b → a ≡ b
some-inj h = cc

any-All {ℓ} :
    {A : Type ℓ} (p : A → Bool) (Q : A → Type 0) (each : (x : A) → (p x ≡ false) ↔ Q x)
    (xs : List A)
    → (any p xs ≡ false) ↔ All Q xs
any-All p Q each [] = (λ _. tt, λ _. refl)
any-All p Q each (x ∷ xs) =
    let ih = any-All p Q each xs in
    let here = each x in
    (
      (λ h. (here.0 (ground arith), ih.0 (ground arith))),
      (λ h. ground (arith, here.1 h.0, ih.1 h.1)),
    )

ltb-false : (a b : ℕ) → (ltb a b ≡ false) ↔ (b ≤ a)
ltb-false a b = ground arith

module _ (chrono : Chrono) (text : Text) (r : Rules) where
  too_long-IsName : (s : String) → (too_long chrono text s ≡ false) ↔ IsName text s
  unfolding too_long
  too_long-IsName s = ltb-false max_rule_name (text.chars s)

  abbrev entries_too_many : Bool
  entries_too_many =
      ltb max_rule_entries (length r.blocklist)
      || ltb max_rule_entries (length r.app_limits)
      || ltb max_rule_entries (length r.app_groups)

  abbrev names_too_long : Bool
  names_too_long =
      any (too_long chrono text) r.blocklist
      || any (λ e. too_long chrono text e.0) r.app_limits
      || any (λ g. too_long chrono text g.name || any (too_long chrono text) g.apps) r.app_groups

  validate-tests : (validate chrono text r ≡ none) ↔ (
      (r.warn_secs ≤ max_warn_secs)
      × (r.daily_budget_mins ≤ max_budget_mins)
      × (days_too_big chrono text r ≡ false)
      × (limits_too_big chrono text r ≡ false)
      × (entries_too_many ≡ false)
      × (names_too_long ≡ false)
      × (check_groups text r.app_groups ≡ none))
  unfolding validate
  validate-tests = ((λ h. ground arith), (λ h. ground arith))

  days_too_big-All :
      (o : Option (List ℕ))
      → r.budget_by_weekday ≡ o
      → (days_too_big chrono text r ≡ false)
        ↔ ((days : List ℕ) → o ≡ some days → All (λ m. m ≤ max_budget_mins) days)
  unfolding days_too_big
  days_too_big-All none e = ((λ h days q. cc), (λ h. rw (e, days_too_big)))
  days_too_big-All (some ds) e =
      let each =
        any-All (λ m. ltb max_budget_mins m) (λ m. m ≤ max_budget_mins) (ltb-false max_budget_mins)
          ds in
      (
        (λ h days q.
            subst (λ xs. All (λ m. m ≤ max_budget_mins) xs) (some-inj q) (each.0 (ground arith))),
        (λ h. rw (e, days_too_big) (each.1 (h ds refl))),
      )

  limits_too_big-All : (limits_too_big chrono text r ≡ false) ↔ (
      All (λ e. e.1 ≤ max_budget_mins) r.app_limits
      × All (λ g. g.limit_mins ≤ max_budget_mins) r.app_groups)
  unfolding limits_too_big
  limits_too_big-All =
      let apps =
        any-All (λ e. ltb max_budget_mins e.1) (λ (e : String × ℕ). e.1 ≤ max_budget_mins)
          (λ e. ltb-false max_budget_mins e.1) r.app_limits in
      let groups =
        any-All (λ g. ltb max_budget_mins g.limit_mins)
          (λ (g : AppGroup). g.limit_mins ≤ max_budget_mins)
          (λ g. ltb-false max_budget_mins g.limit_mins) r.app_groups in
      (
        (λ h. (apps.0 (ground arith), groups.0 (ground arith))),
        (λ h. ground (arith, apps.1 h.0, groups.1 h.1)),
      )

  group_name :
      (g : AppGroup)
      → (too_long chrono text g.name || any (too_long chrono text) g.apps ≡ false)
        ↔ (IsName text g.name × All (IsName text) g.apps)
  group_name g =
      let own = too_long-IsName g.name in
      let apps = any-All (too_long chrono text) (IsName text) too_long-IsName g.apps in
      (
        (λ h. (own.0 (ground arith), apps.0 (ground arith))),
        (λ h. ground (arith, own.1 h.0, apps.1 h.1)),
      )

  names-All : (names_too_long ≡ false) ↔ (
      All (IsName text) r.blocklist
      × All (λ e. IsName text e.0) r.app_limits
      × All (λ g. IsName text g.name × All (IsName text) g.apps) r.app_groups)
  names-All =
      let blocked = any-All (too_long chrono text) (IsName text) too_long-IsName r.blocklist in
      let limits =
        any-All (λ e. too_long chrono text e.0) (λ (e : String × ℕ). IsName text e.0)
          (λ e. too_long-IsName e.0) r.app_limits in
      let groups =
        any-All _ (λ (g : AppGroup). IsName text g.name × All (IsName text) g.apps) group_name
          r.app_groups in
      (
        (λ h. (blocked.0 (ground arith), limits.0 (ground arith), groups.0 (ground arith))),
        (λ h. ground (arith, blocked.1 h.0, limits.1 h.1, groups.1 h.2)),
      )

-- `validate` accepts the rules exactly when every budget and limit is at most a week of minutes, the
-- warning at most 600 seconds, the blocked programs, the limits, the groups and the words of each
-- group at most 200 each, each name at most 64 characters, and no word of a group is refused. How
-- many programs a group names is not bounded.
pub validate-IsBounded :
    (chrono : Chrono) (text : Text) (r : Rules) → (validate chrono text r ≡ none) ↔ IsBounded text r
validate-IsBounded chrono text r =
    let tests = validate-tests chrono text r in
    let days = days_too_big-All chrono text r r.budget_by_weekday refl in
    let limits = limits_too_big-All chrono text r in
    let names = names-All chrono text r in
    let words = check_groups-none text r.app_groups in
    (
      (λ h.
          let (w, b, d, l, e, n, c) = tests.0 h in
          record {
            warning = w;
            daily = b;
            weekdays = days.0 d;
            limits = (limits.0 l).0;
            pools = (limits.0 l).1;
            few_blocked = ground arith;
            few_limits = ground arith;
            few_groups = ground arith;
            blocked_names = (names.0 n).0;
            limit_names = (names.0 n).1;
            group_names = (names.0 n).2;
            words = words.0 c;
          }),
      (λ h. tests.1 (
        h.warning,
        h.daily,
        days.1 h.weekdays,
        limits.1 (h.limits, h.pools),
        ground (arith, h.few_blocked, h.few_limits, h.few_groups),
        names.1 (h.blocked_names, h.limit_names, h.group_names),
        words.1 h.words,
      )),
    )
