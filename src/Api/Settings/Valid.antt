-- ===== src/Api/Settings/Valid.antt =====
-- What the parent's requests keep of the settings (src/api.rs, with `Policy::validate` of
-- src/config.rs).
use nestwatch.Common.{
  ℕ, ◌≡◌, refl, sym, ◌∙◌, String, Bool, true, not, ◌||◌, Option, none, some, List, [], ◌∷◌, length,
  length-retain-le, All-retain, ltb, is_some, arith, inl, inr, Bool-cases, Option-cases,
  is_some-none,
}
use nestwatch.Common.Keyed.{◌=?◌, string_keys}
use nestwatch.Chrono.{Chrono, DateTime}
use nestwatch.Text.{Text}
use nestwatch.Curfew.{Curfew, Window, validate_windows, undo_extension}
use nestwatch.Curfew
use nestwatch.Rules.{Rules, days_too_big, limits_too_big}
use nestwatch.Rules
use nestwatch.Policy.{
  Routine, Language, Policy, Household, policy, apply_policy, max_routines, max_routine_name,
  validate_routines,
}
use nestwatch.Policy
use nestwatch.Api.{Answer, update_config, require_minutes, max_request_minutes}
use nestwatch.Api.Settings.{
  Request, Io, SaveRoutineBody, set_curfew, extend_curfew, undo_curfew_extension, set_rules,
  set_policy, save_routine, apply_routine, delete_routine, set_language, routine_named, handle,
  handle_set_curfew, handle_extend_curfew, handle_undo_extension, handle_set_rules,
  handle_set_policy, handle_save_routine, handle_apply_routine, handle_delete_routine,
  handle_set_language, run, max_schedule_windows,
}
use nestwatch.Api.Settings.Parts.{
  update-keeps, IsValid-Fits, FitsOf, RoutineFits, validate-Fits, curfew-extension, rules-enabled,
  put_routine-Fits, named-Fits,
}

module _ (chrono : Chrono) (text : Text) where
  abbrev Keeps : Household → Household × Answer → Type 0
  Keeps c r = FitsOf chrono text c → FitsOf chrono text r.0

  module _ (unchanged : Household → Household → Bool) (io : Io) where
    set_curfew-Fits :
        (next : Curfew) (c : Household)
        → Keeps c (handle_set_curfew chrono text unchanged io next c)
    unfolding handle_set_curfew update_config
    set_curfew-Fits next c h = elim (Bool-cases (is_some (Curfew.validate chrono next))) [
      | inl bad ↦ rw bad h
      | inr good ↦
          let until = c.curfew.extra_until in
          rw good (
            update-keeps (FitsOf chrono text) unchanged io.saved _ c h (record {
              good_curfew = curfew-extension chrono text next until ∙ is_some-none _ good;
              good_rules = h.good_rules;
              few = h.few;
              good_routines = h.good_routines;
            }))
    ]

    extend-Fits :
        (minutes : ℕ) (c : Household)
        → Keeps c (handle_extend_curfew chrono text unchanged io minutes c)
    unfolding handle_extend_curfew update_config
    extend-Fits minutes c h = elim (Bool-cases (require_minutes minutes max_request_minutes)) [
      | inr bad ↦ rw bad h
      | inl good ↦ rw good (
          update-keeps (FitsOf chrono text) unchanged io.saved _ c h (record {
            good_curfew = curfew-extension chrono text c.curfew _ ∙ h.good_curfew;
            good_rules = h.good_rules;
            few = h.few;
            good_routines = h.good_routines;
          }))
    ]

    undo-keeps :
        (c : Curfew) (now : DateTime)
        → Curfew.validate chrono (undo_extension chrono c now).0 ≡ Curfew.validate chrono c
    unfolding undo_extension
    undo-keeps c now = elim (Option-cases c.extra_until) [
      | inl none_set ↦ rw (undo_extension, none_set) (sym (curfew-extension chrono text c none))
      | inr (until, is_set) ↦ elim (Bool-cases (ltb now.utc until.utc)) [
        | inl runs ↦
            rw (undo_extension, is_set, runs)
              (curfew-extension chrono text c _ ∙ sym (curfew-extension chrono text c (some until)))
        | inr over ↦
            rw (undo_extension, is_set, over) (sym (curfew-extension chrono text c (some until)))
      ]
    ]

    undo-Fits : (c : Household) → Keeps c (handle_undo_extension chrono text unchanged io c)
    unfolding handle_undo_extension update_config
    undo-Fits c h = update-keeps (FitsOf chrono text) unchanged io.saved _ c h (record {
      good_curfew = undo-keeps c.curfew io.now ∙ h.good_curfew;
      good_rules = h.good_rules;
      few = h.few;
      good_routines = h.good_routines;
    })

    set_rules-Fits :
        (rules : Rules) (c : Household)
        → Keeps c (handle_set_rules chrono text unchanged io rules c)
    unfolding handle_set_rules update_config
    set_rules-Fits rules c h = elim (Bool-cases (is_some (Rules.validate chrono text rules))) [
      | inl bad ↦ rw bad h
      | inr good ↦ rw good (
          update-keeps (FitsOf chrono text) unchanged io.saved _ c h (record {
            good_curfew = h.good_curfew;
            good_rules = is_some-none _ good;
            few = h.few;
            good_routines = h.good_routines;
          }))
    ]

    set_policy-Fits :
        (p : Policy) (c : Household) → Keeps c (handle_set_policy chrono text unchanged io p c)
    unfolding handle_set_policy update_config apply_policy
    set_policy-Fits p c h = elim (Bool-cases (is_some (Policy.validate chrono text p))) [
      | inl bad ↦ rw bad h
      | inr good ↦
          let f = (validate-Fits chrono text p).0 (is_some-none _ good) in
          rw good (
            update-keeps (FitsOf chrono text) unchanged io.saved _ c h (record {
              good_curfew = curfew-extension chrono text p.curfew _ ∙ f.good_curfew;
              good_rules = rules-enabled chrono text p.rules c.rules.enabled ∙ f.good_rules;
              few = f.few;
              good_routines = f.good_routines;
            }))
    ]

    apply-Fits :
        (name : String) (c : Household)
        → Keeps c (handle_apply_routine chrono text unchanged io name c)
    unfolding handle_apply_routine update_config
    apply-Fits name c h = elim (Option-cases (routine_named name c.routines)) [
      | inl unknown ↦ rw (handle_apply_routine, unknown) h
      | inr (r, known) ↦
          rw (handle_apply_routine, known)
            (update-keeps (FitsOf chrono text) unchanged io.saved _ c h (record {
              good_curfew = h.good_curfew;
              good_rules =
                  rules-enabled chrono text r.rules c.rules.enabled
                  ∙ (named-Fits chrono text name c.routines r h.good_routines known).1;
              few = h.few;
              good_routines = h.good_routines;
            }))
    ]

    delete-Fits :
        (name : String) (c : Household)
        → Keeps c (handle_delete_routine chrono text unchanged io name c)
    unfolding handle_delete_routine update_config
    delete-Fits name c h =
        let other = λ (r : Routine). not (r.name =? name) in
        update-keeps (FitsOf chrono text) unchanged io.saved _ c h (record {
          good_curfew = h.good_curfew;
          good_rules = h.good_rules;
          few = omega (arith, length-retain-le other c.routines, h.few);
          good_routines = All-retain (RoutineFits chrono text) other c.routines h.good_routines;
        })

    language-Fits :
        (o : Option Language) (c : Household)
        → Keeps c (handle_set_language chrono text unchanged io o c)
    unfolding handle_set_language update_config
    language-Fits none c h = h
    language-Fits (some language) c h = update-keeps (FitsOf chrono text) unchanged io.saved _ c h h

    save-Fits :
        (body : SaveRoutineBody) (c : Household)
        → text.trim (text.trim body.name) ≡ text.trim body.name
        → Keeps c (handle_save_routine chrono text unchanged io body c)
    unfolding handle_save_routine
    save-Fits body c idem h =
        let name = text.trim body.name in
        let bad_name = text.is_empty name || ltb max_routine_name (text.chars name) in
        elim (Bool-cases bad_name) [
          | inl bad ↦ rw bad h
          | inr good ↦ elim (Bool-cases (is_some (Rules.validate chrono text body.rules))) [
            | inl bad ↦ rw (good, bad) h
            | inr rules ↦ elim (Bool-cases (ltb max_schedule_windows (length body.schedule))) [
              | inl bad ↦ rw (good, rules, bad) h
              | inr short ↦ elim (Bool-cases (is_some (validate_windows chrono 0 body.schedule))) [
                | inl bad ↦ rw (good, rules, short, bad) h
                | inr windows ↦
                    rw (good, rules, short, windows)
                      (update-keeps (FitsOf chrono text) unchanged io.saved _ c h (
                        put_routine-Fits chrono text name (record body.rules { enabled = true })
                          body.schedule c (rw (idem, good) refl)
                          (rules-enabled chrono text body.rules true ∙ is_some-none _ rules) h))
              ]
            ]
          ]
        ]

    handle-Fits :
        ((s : String) → text.trim (text.trim s) ≡ text.trim s)
        → (request : Request) (c : Household) → Keeps c (handle chrono text unchanged io request c)
    unfolding handle
    handle-Fits idem (set_curfew next) c h = set_curfew-Fits next c h
    handle-Fits idem (extend_curfew minutes) c h = extend-Fits minutes c h
    handle-Fits idem undo_curfew_extension c h = undo-Fits c h
    handle-Fits idem (set_rules rules) c h = set_rules-Fits rules c h
    handle-Fits idem (set_policy p) c h = set_policy-Fits p c h
    handle-Fits idem (save_routine body) c h = save-Fits body c (idem body.name) h
    handle-Fits idem (apply_routine name) c h = apply-Fits name c h
    handle-Fits idem (delete_routine name) c h = delete-Fits name c h
    handle-Fits idem (set_language language) c h = language-Fits language c h

  run-Fits :
      (unchanged : Household → Household → Bool)
      → ((s : String) → text.trim (text.trim s) ≡ text.trim s)
      → (rs : List (Io × Request)) (c : Household) → FitsOf chrono text c
      → FitsOf chrono text (run chrono text unchanged c rs)
  unfolding run
  run-Fits unchanged idem [] c h = h
  run-Fits unchanged idem ((io, request) ∷ rs) c h =
      run-Fits unchanged idem rs (handle chrono text unchanged io request c).0
        (handle-Fits unchanged io idem request c h)

-- Every backup can be restored: from settings whose export passes the check of an import, any
-- requests of the parent, refused or not and saved or not, lead to settings of which that holds
-- too. Trimming a text twice is trimming it once.
pub run-IsValid :
    (chrono : Chrono) (text : Text) (unchanged : Household → Household → Bool) (c : Household)
    (rs : List (Io × Request))
    → ((s : String) → text.trim (text.trim s) ≡ text.trim s)
    → Policy.validate chrono text (policy c) ≡ none
    → Policy.validate chrono text (policy (run chrono text unchanged c rs)) ≡ none
run-IsValid chrono text unchanged c rs idem valid =
    let d = run chrono text unchanged c rs in
    (IsValid-Fits chrono text d).1
      (run-Fits chrono text unchanged idem rs c ((IsValid-Fits chrono text c).0 valid))
