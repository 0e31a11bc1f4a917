-- ===== src/Api/Settings/Parts.antt =====
-- What settings are checked for, part by part (`Policy::validate` of src/config.rs), and the changes
-- of the handlers of src/api.rs on each part.
use nestwatch.Common.{
  ◌≤◌, ◌≡◌, ◌↔◌, refl, sym, ◌∙◌, String, Bool, true, not, ◌||◌, Option, none, some, List, [], ◌∷◌,
  ◌++◌, length, length-append, All, leb, ltb, is_some, arith, inl, inr, Bool-cases, Option-cases,
  some_injective,
}
use mathlib.Core.Path.{subst}
use nestwatch.Common.Keyed.{◌=?◌, string_keys}
use nestwatch.Chrono.{Chrono, DateTime}
use nestwatch.Text.{Text}
use nestwatch.Curfew.{Curfew, Window, validate_windows, undo_extension}
use nestwatch.Curfew
use nestwatch.Rules.{Rules, days_too_big, limits_too_big}
use nestwatch.Rules
use nestwatch.Policy.{
  Routine, Language, Policy, Household, policy, apply_policy, max_routines, max_routine_name,
  validate_routines,
}
use nestwatch.Policy
use nestwatch.Api.{Answer, try_update_config}
use nestwatch.Api.Settings.{replace_routine, routine_named, put_routine}

-- What holds of a configuration and of what a change makes of it holds after the update.
pub update-keeps :
    {C : Type 0} (P : C → Type 0) (unchanged : C → C → Bool) (saved : Bool)
    (mutate : C → C × Option Answer) (c : C)
    → P c
    → P (mutate c).0
    → P (try_update_config unchanged saved mutate c).0
unfolding try_update_config
update-keeps P unchanged saved mutate c before after = elim (Option-cases (mutate c).1) [
  | inr (e, rejected) ↦ rw (try_update_config, rejected) after
  | inl accepted ↦ elim (Bool-cases (unchanged c (mutate c).0)) [
    | inl same ↦ rw (try_update_config, accepted, same) after
    | inr changed ↦ elim (Bool-cases saved) [
      | inl is_saved ↦ rw (try_update_config, accepted, changed, is_saved) after
      | inr failed ↦ rw (try_update_config, accepted, changed, failed) before
    ]
  ]
]

module _ (chrono : Chrono) (text : Text) where
  abbrev pub good_name : String → Bool
  good_name name =
      not (text.is_empty (text.trim name) || ltb max_routine_name (text.chars (text.trim name)))

  abbrev pub RoutineFits : Routine → Type 0
  RoutineFits r = (good_name r.name ≡ true) × (Rules.validate chrono text r.rules ≡ none)

  pub routines-All :
      (rs : List Routine) → (validate_routines chrono text rs ≡ none) ↔ All RoutineFits rs
  unfolding validate_routines
  routines-All [] = (λ h. tt, λ h. refl)
  routines-All (r ∷ rs) =
      let ih = routines-All rs in
      (
        (λ h. elim (Bool-cases (good_name r.name)) [
          | inl good ↦ elim (Option-cases (Rules.validate chrono text r.rules)) [
            | inl valid ↦ ((good, valid), ih.0 (ground arith))
            | inr (e, invalid) ↦ absurd ground arith
          ]
          | inr bad ↦ absurd ground arith
        ]),
        (λ h. ground (arith, ih.1 h.1)),
      )

  -- The parts of what a policy is checked for.
  pub record Fits (curfew : Curfew) (rules : Rules) (routines : List Routine) : Type 0 where
    pub good_curfew : Curfew.validate chrono curfew ≡ none
    pub good_rules : Rules.validate chrono text rules ≡ none
    pub few : length routines ≤ max_routines
    pub good_routines : All RoutineFits routines

  pub validate-Fits :
      (p : Policy) → (Policy.validate chrono text p ≡ none) ↔ Fits p.curfew p.rules p.routines
  unfolding Policy.validate
  validate-Fits p =
      let each = routines-All p.routines in
      (
        (λ h. elim (Option-cases (Curfew.validate chrono p.curfew)) [
          | inr (e, bad) ↦ absurd ground arith
          | inl curfew ↦ elim (Option-cases (Rules.validate chrono text p.rules)) [
            | inr (e, bad) ↦ absurd ground arith
            | inl rules ↦ elim (Bool-cases (ltb max_routines (length p.routines))) [
              | inl many ↦ absurd ground arith
              | inr few ↦ record {
                good_curfew = curfew;
                good_rules = rules;
                few = ground arith;
                good_routines = each.0 (ground arith);
              }
            ]
          ]
        ]),
        (λ h. ground (arith, h.good_curfew, h.good_rules, h.few, each.1 h.good_routines)),
      )

  -- What an export of the household holds passes the check of an import.
  abbrev pub IsValid : Household → Type 0
  IsValid c = Policy.validate chrono text (policy c) ≡ none

  pub curfew-extension :
      (c : Curfew) (o : Option DateTime)
      → Curfew.validate chrono (record c { extra_until = o }) ≡ Curfew.validate chrono c
  unfolding Curfew.validate
  curfew-extension c o = refl

  pub rules-enabled :
      (r : Rules) (b : Bool)
      → Rules.validate chrono text (record r { enabled = b }) ≡ Rules.validate chrono text r
  unfolding Rules.validate days_too_big limits_too_big
  rules-enabled r b = refl

  pub IsValid-Fits : (c : Household) → IsValid c ↔ Fits c.curfew c.rules c.routines
  unfolding policy
  IsValid-Fits c =
      let both = validate-Fits (policy c) in
      let same = curfew-extension c.curfew none in
      (
        (λ h.
            let f = both.0 h in
            record {
              good_curfew = sym same ∙ f.good_curfew;
              good_rules = f.good_rules;
              few = f.few;
              good_routines = f.good_routines;
            }),
        (λ f. both.1 (record {
          good_curfew = same ∙ f.good_curfew;
          good_rules = f.good_rules;
          few = f.few;
          good_routines = f.good_routines;
        })),
      )

  abbrev pub FitsOf : Household → Type 0
  FitsOf c = Fits c.curfew c.rules c.routines

  All-replace :
      (name : String) (rules : Rules) (schedule : List Window) (rs : List Routine)
      → Rules.validate chrono text rules ≡ none
      → All RoutineFits rs
      → All RoutineFits (replace_routine name rules schedule rs)
  unfolding replace_routine
  All-replace name rules schedule [] v h = h
  All-replace name rules schedule (r ∷ rs) v h = elim (Bool-cases (r.name =? name)) [
    | inl same ↦ rw same ((h.0.0, v), h.1)
    | inr other ↦ rw other (h.0, All-replace name rules schedule rs v h.1)
  ]

  length-replace :
      (name : String) (rules : Rules) (schedule : List Window) (rs : List Routine)
      → length (replace_routine name rules schedule rs) ≡ length rs
  unfolding replace_routine
  length-replace name rules schedule [] = refl
  length-replace name rules schedule (r ∷ rs) =
      ground (arith, length-replace name rules schedule rs)

  All-snoc :
      (r : Routine) (rs : List Routine)
      → All RoutineFits rs
      → RoutineFits r
      → All RoutineFits (rs ++ r ∷ [])
  All-snoc r [] h f = (f, tt)
  All-snoc r (x ∷ rs) h f = (h.0, All-snoc r rs h.1 f)

  pub put_routine-Fits :
      (name : String) (rules : Rules) (schedule : List Window) (c : Household)
      → good_name name ≡ true
      → Rules.validate chrono text rules ≡ none
      → FitsOf c
      → FitsOf (put_routine name rules schedule c).0
  unfolding put_routine
  put_routine-Fits name rules schedule c n v h =
      elim (Bool-cases (is_some (routine_named name c.routines))) [
        | inl known ↦
            rw (put_routine, known)
              (record {
                good_curfew = h.good_curfew;
                good_rules = h.good_rules;
                few = omega (arith, length-replace name rules schedule c.routines, h.few);
                good_routines = All-replace name rules schedule c.routines v h.good_routines;
              })
        | inr new ↦ elim (Bool-cases (leb max_routines (length c.routines))) [
          | inl full ↦ rw (put_routine, new, full) h
          | inr room ↦
              let r : Routine = record { name = name; rules = rules; schedule = schedule } in
              rw (put_routine, new, room)
                (record {
                  good_curfew = h.good_curfew;
                  good_rules = h.good_rules;
                  few = ground (arith, length-append c.routines (r ∷ []));
                  good_routines = All-snoc r c.routines h.good_routines (n, v);
                })
        ]
      ]

  pub named-Fits :
      (name : String) (rs : List Routine) (r : Routine)
      → All RoutineFits rs
      → routine_named name rs ≡ some r
      → RoutineFits r
  named-Fits name [] r h e = absurd cc
  named-Fits name (x ∷ rs) r h e = elim (Bool-cases (x.name =? name)) [
    | inl same ↦ subst RoutineFits (some_injective (rw same at e)) h.0
    | inr other ↦ named-Fits name rs r h.1 (rw other at e)
  ]
