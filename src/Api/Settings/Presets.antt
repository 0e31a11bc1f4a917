-- ===== src/Api/Settings/Presets.antt =====
-- A routine that was saved, applied (`save_routine` and `apply_routine` of src/api.rs).
use nestwatch.Common.{
  ◌≡◌, ◌≢◌, refl, ap, ◌∙◌, String, Bool, true, false, ◌||◌, Option, none, some, List, [], ◌∷◌, ◌++◌,
  length, leb, ltb, is_some, arith, inl, inr, Bool-cases, Option-cases,
}
use nestwatch.Common.Keyed.{◌=?◌, string_keys, beq_self}
use nestwatch.Chrono.{Chrono}
use nestwatch.Text.{Text}
use nestwatch.Curfew.{Window, validate_windows}
use nestwatch.Rules.{Rules}
use nestwatch.Rules
use nestwatch.Policy.{Routine, Household, max_routines, max_routine_name}
use nestwatch.Api.{Answer, done, try_update_config, update_config}
use nestwatch.Api.Settings.{
  Io, SaveRoutineBody, replace_routine, routine_named, put_routine, presets_of, handle_save_routine,
  handle_apply_routine, max_schedule_windows,
}

-- The routine of that name has these rules.
abbrev HasRules : Rules → Option Routine → Type 0
HasRules rules none = ⊥
HasRules rules (some r) = r.rules ≡ rules

named-replace :
    (name : String) (rules : Rules) (schedule : List Window) (rs : List Routine)
    → is_some (routine_named name rs) ≡ true
    → HasRules rules (routine_named name (replace_routine name rules schedule rs))
unfolding replace_routine
named-replace name rules schedule [] h = absurd cc
named-replace name rules schedule (r ∷ rs) h = elim (Bool-cases (r.name =? name)) [
  | inl same ↦ rw (same, replace_routine, same) refl
  | inr other ↦
      rw (other, replace_routine, other) (named-replace name rules schedule rs (rw other at h))
]

named-snoc :
    (name : String) (r : Routine) (rs : List Routine)
    → is_some (routine_named name rs) ≡ false
    → r.name ≡ name
    → HasRules r.rules (routine_named name (rs ++ r ∷ []))
named-snoc name r [] h e = rw (e, beq_self name) refl
named-snoc name r (x ∷ rs) h e = elim (Bool-cases (x.name =? name)) [
  | inl same ↦ absurd ground arith
  | inr other ↦ rw other (named-snoc name r rs (rw other at h) e)
]

-- Where a routine is put, it is found under its name, and nothing but the routines is changed.
abbrev Put : String → Rules → Household → Household × Option Answer → Type 0
Put name rules c (d, rejected) =
    rejected ≡ none
    → HasRules rules (routine_named name d.routines) × (d.rules ≡ c.rules) × (d.curfew ≡ c.curfew)

put_routine-Put :
    (name : String) (rules : Rules) (schedule : List Window) (c : Household)
    → Put name rules c (put_routine name rules schedule c)
unfolding put_routine
put_routine-Put name rules schedule c =
    elim (Bool-cases (is_some (routine_named name c.routines))) [
      | inl known ↦
          rw (put_routine, known)
            (λ ok. (named-replace name rules schedule c.routines known, refl, refl))
      | inr new ↦ elim (Bool-cases (leb max_routines (length c.routines))) [
        | inl full ↦ rw (put_routine, new, full) (λ ok. absurd cc)
        | inr room ↦
            let r : Routine = record { name = name; rules = rules; schedule = schedule } in
            rw (put_routine, new, room) (λ ok. (named-snoc name r c.routines new refl, refl, refl))
      ]
    ]

put_routine-answer :
    (name : String) (rules : Rules) (schedule : List Window) (c : Household)
    → (put_routine name rules schedule c).1 ≢ some done
unfolding put_routine
put_routine-answer name rules schedule c e = ground arith

-- A change that is answered with `done` has been made.
update-done :
    {C : Type 0} (unchanged : C → C → Bool) (saved : Bool) (mutate : C → C × Option Answer) (c : C)
    → (mutate c).1 ≢ some done
    → (try_update_config unchanged saved mutate c).1 ≡ done
    → ((mutate c).1 ≡ none) × ((try_update_config unchanged saved mutate c).0 ≡ (mutate c).0)
unfolding try_update_config
update-done unchanged saved mutate c never ok = elim (Option-cases (mutate c).1) [
  | inr (e, rejected) ↦ absurd (never (rejected ∙ ap some (rw (try_update_config, rejected) at ok)))
  | inl accepted ↦ elim (Bool-cases (unchanged c (mutate c).0)) [
    | inl same ↦ (accepted, rw (try_update_config, accepted, same) refl)
    | inr changed ↦ elim (Bool-cases saved) [
      | inl is_saved ↦ (accepted, rw (try_update_config, accepted, changed, is_saved) refl)
      | inr failed ↦ absurd ground arith
    ]
  ]
]

module _ (chrono : Chrono) (text : Text) (unchanged : Household → Household → Bool) where
  save-put :
      (io : Io) (body : SaveRoutineBody) (c : Household)
      → (handle_save_routine chrono text unchanged io body c).1 ≡ done
      → let put =
          put_routine
            (text.trim body.name)
            (record body.rules { enabled = true })
            body.schedule
            c in
        (put.1 ≡ none) × ((handle_save_routine chrono text unchanged io body c).0 ≡ put.0)
  unfolding handle_save_routine
  save-put io body c ok =
      let name = text.trim body.name in
      let mutate = put_routine name (record body.rules { enabled = true }) body.schedule in
      let never = put_routine-answer name (record body.rules { enabled = true }) body.schedule c in
      elim (Bool-cases (text.is_empty name || ltb max_routine_name (text.chars name))) [
        | inl bad ↦ absurd ground arith
        | inr good ↦ elim (Bool-cases (is_some (Rules.validate chrono text body.rules))) [
          | inl bad ↦ absurd ground arith
          | inr rules ↦ elim (Bool-cases (ltb max_schedule_windows (length body.schedule))) [
            | inl bad ↦ absurd ground arith
            | inr short ↦ elim (Bool-cases (is_some (validate_windows chrono 0 body.schedule))) [
              | inl bad ↦ absurd ground arith
              | inr windows ↦
                  rw (handle_save_routine, good, rules, short, windows)
                    (update-done unchanged io.saved mutate c never
                      (rw (handle_save_routine, good, rules, short, windows) at ok))
            ]
          ]
        ]
      ]

  -- What applying the routine gives.
  abbrev Applies : Rules → Household → Household × Answer → Type 0
  Applies rules c (d, answer) =
      (answer ≡ done)
      × (d.rules ≡ record rules { enabled = c.rules.enabled })
      × (d.curfew ≡ c.curfew)

  apply-found :
      (io : Io) (rules : Rules) (name : String) (c : Household)
      → io.saved ≡ true
      → HasRules rules (routine_named name c.routines)
      → Applies rules c (handle_apply_routine chrono text unchanged io name c)
  unfolding handle_apply_routine update_config try_update_config
  apply-found io rules name c s h = elim (Option-cases (routine_named name c.routines)) [
    | inl unknown ↦ absurd (rw unknown at h)
    | inr (r, known) ↦
        let same : r.rules ≡ rules = rw known at h in
        let on = ap (λ (x : Rules). record x { enabled = c.rules.enabled }) same in
        elim (Bool-cases (unchanged c (presets_of r.rules c))) [
          | inl as_before ↦ rw (handle_apply_routine, known, as_before) (refl, on, refl)
          | inr changed ↦ rw (handle_apply_routine, known, changed, s) (refl, on, refl)
        ]
  ]

-- A routine that was saved with `done` can be applied at once, under its name without the spaces
-- around it: the household's own rules are then those that were saved, turned off exactly if they
-- were before, and bedtime is as it was. The configuration can be saved at the second request.
pub apply-save :
    (chrono : Chrono) (text : Text) (unchanged : Household → Household → Bool) (first then_io : Io)
    (body : SaveRoutineBody) (c : Household)
    → (handle_save_routine chrono text unchanged first body c).1 ≡ done
    → then_io.saved ≡ true
    → let (d, answer) =
        handle_apply_routine chrono text unchanged then_io
          (text.trim body.name)
          (handle_save_routine chrono text unchanged first body c).0 in
      (answer ≡ done)
      × (d.rules ≡ record body.rules { enabled = c.rules.enabled })
      × (d.curfew ≡ c.curfew)
apply-save chrono text unchanged first then_io body c ok saved =
    let name = text.trim body.name in
    let rules = record body.rules { enabled = true } in
    let (accepted, result) = save-put chrono text unchanged first body c ok in
    let (found, same_rules, same_curfew) = put_routine-Put name rules body.schedule c accepted in
    let (answer, in_force, bedtime) =
      apply-found chrono text unchanged then_io rules name
        (put_routine name rules body.schedule c).0 saved found in
    rw result (
      answer,
      in_force ∙ ap (λ (r : Rules). record body.rules { enabled = r.enabled }) same_rules,
      bedtime ∙ same_curfew,
    )
