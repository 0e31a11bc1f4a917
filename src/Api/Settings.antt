-- ===== src/Api/Settings.antt =====
-- The handlers of the parent's settings: bedtime, rules, routines and the import of a policy
-- (src/api.rs).
pub mod Parts
pub mod Valid
pub mod Presets
use nestwatch.Common.{
  ℕ, ◌+◌, String, Bool, true, false, not, ◌||◌, Option, none, some, List, [], ◌∷◌, ◌++◌, length,
  find, retain, leb, ltb, if◌then◌else◌, is_some,
}
use nestwatch.Common.Keyed.{◌=?◌, string_keys}
use nestwatch.Chrono.{Chrono, DateTime, plus_minutes}
use nestwatch.Text.{Text}
use nestwatch.Curfew.{Curfew, Window, before, undo_extension, validate_windows}
use nestwatch.Curfew
use nestwatch.Rules.{Rules}
use nestwatch.Rules
use nestwatch.Policy.{
  Routine, Language, Policy, Household, policy, apply_policy, max_routines, max_routine_name,
}
use nestwatch.Policy
use nestwatch.Api.{
  Answer, done, bad_request, refused, require_minutes, max_request_minutes, try_update_config,
  update_config,
}

abbrev pub max_schedule_windows : ℕ
max_schedule_windows = 8

pub record SaveRoutineBody : Type 0 where
  pub name : String
  pub rules : Rules
  pub schedule : List Window

-- The requests, each with its body.
pub data Request : Type 0 where
  set_curfew : Curfew → Request
  extend_curfew : (minutes : ℕ) → Request
  undo_curfew_extension : Request
  set_rules : Rules → Request
  set_policy : Policy → Request
  save_routine : SaveRoutineBody → Request
  apply_routine : String → Request
  delete_routine : String → Request
  set_language : Option Language → Request

-- The reading of the clock, and whether the configuration could be saved.
pub record Io : Type 0 where
  pub now : DateTime
  pub saved : Bool

-- `routines.iter_mut().find(..)`: the first of that name, changed.
unfoldable pub replace_routine : String → Rules → List Window → List Routine → List Routine
replace_routine name rules schedule [] = []
replace_routine name rules schedule (r ∷ rs) =
    let rest = replace_routine name rules schedule rs in
    if r.name =? name then record r { rules = rules; schedule = schedule } ∷ rs else r ∷ rest

abbrev pub routine_named : String → List Routine → Option Routine
routine_named name rs = find (λ (r : Routine). r.name =? name) rs

-- The change that `save_routine` makes, for a name that is trimmed and rules that are turned on.
unfoldable pub put_routine : String → Rules → List Window → Household → Household × Option Answer
put_routine name rules schedule c =
    if is_some (routine_named name c.routines)
    then (record c { routines = replace_routine name rules schedule c.routines }, none)
    else if leb max_routines (length c.routines)
    then (c, some bad_request)
    else (
      record c {
        routines = c.routines ++ record { name = name; rules = rules; schedule = schedule } ∷ [];
      },
      none,
    )

abbrev pub extended : DateTime → ℕ → Household → Household
extended now minutes c =
    let base : DateTime = elim c.curfew.extra_until [
      | none ↦ now
      | some t ↦ if ltb now.utc t.utc then t else now
    ] in
    record c { curfew = record c.curfew { extra_until = some (plus_minutes base minutes) } }

-- The answer where there is no extension to undo, once the configuration is saved.
abbrev pub refused_or : Answer → Answer
refused_or done = refused
refused_or e = e

abbrev pub presets_of : Rules → Household → Household
presets_of rules c = record c { rules = record rules { enabled = c.rules.enabled } }

module _ (chrono : Chrono) (text : Text) (unchanged : Household → Household → Bool) where
  unfoldable pub handle_set_curfew : Io → Curfew → Household → Household × Answer
  handle_set_curfew io next c =
      if is_some (Curfew.validate chrono next)
      then (c, bad_request)
      else update_config unchanged io.saved
          (λ c. record c { curfew = record next { extra_until = c.curfew.extra_until } }) c

  unfoldable pub handle_extend_curfew : Io → ℕ → Household → Household × Answer
  handle_extend_curfew io minutes c =
      if require_minutes minutes max_request_minutes
      then update_config unchanged io.saved (extended io.now minutes) c
      else (c, bad_request)

  unfoldable pub handle_undo_extension : Io → Household → Household × Answer
  handle_undo_extension io c =
      let (next, answer) =
        update_config unchanged io.saved
          (λ c. record c { curfew = (undo_extension chrono c.curfew io.now).0 }) c in
      (
        next,
        if is_some (undo_extension chrono c.curfew io.now).1 then answer else refused_or answer,
      )

  unfoldable pub handle_set_rules : Io → Rules → Household → Household × Answer
  handle_set_rules io rules c =
      if is_some (Rules.validate chrono text rules)
      then (c, bad_request)
      else update_config unchanged io.saved (λ c. record c { rules = rules }) c

  unfoldable pub handle_set_policy : Io → Policy → Household → Household × Answer
  handle_set_policy io p c =
      if is_some (Policy.validate chrono text p)
      then (c, bad_request)
      else update_config unchanged io.saved (apply_policy p) c

  unfoldable pub handle_save_routine : Io → SaveRoutineBody → Household → Household × Answer
  handle_save_routine io body c =
      let name = text.trim body.name in
      if text.is_empty name || ltb max_routine_name (text.chars name)
      then (c, bad_request)
      else if is_some (Rules.validate chrono text body.rules)
      then (c, bad_request)
      else if ltb max_schedule_windows (length body.schedule)
      then (c, bad_request)
      else if is_some (validate_windows chrono 0 body.schedule)
      then (c, bad_request)
      else try_update_config unchanged io.saved
          (put_routine name (record body.rules { enabled = true }) body.schedule) c

  unfoldable pub handle_apply_routine : Io → String → Household → Household × Answer
  handle_apply_routine io name c = elim (routine_named name c.routines) [
    | none ↦ (c, bad_request)
    | some r ↦ update_config unchanged io.saved (presets_of r.rules) c
  ]

  unfoldable pub handle_delete_routine : Io → String → Household → Household × Answer
  handle_delete_routine io name c =
      update_config unchanged io.saved
        (λ c. record c { routines = retain (λ r. not (r.name =? name)) c.routines }) c

  unfoldable pub handle_set_language : Io → Option Language → Household → Household × Answer
  handle_set_language io none c = (c, bad_request)
  handle_set_language io (some language) c =
      update_config unchanged io.saved (λ c. record c { language = language }) c

  unfoldable pub handle : Io → Request → Household → Household × Answer
  handle io (set_curfew next) c = handle_set_curfew io next c
  handle io (extend_curfew minutes) c = handle_extend_curfew io minutes c
  handle io undo_curfew_extension c = handle_undo_extension io c
  handle io (set_rules rules) c = handle_set_rules io rules c
  handle io (set_policy p) c = handle_set_policy io p c
  handle io (save_routine body) c = handle_save_routine io body c
  handle io (apply_routine name) c = handle_apply_routine io name c
  handle io (delete_routine name) c = handle_delete_routine io name c
  handle io (set_language language) c = handle_set_language io language c

  unfoldable pub run : Household → List (Io × Request) → Household
  run c [] = c
  run c ((io, request) ∷ rest) = run (handle io request c).0 rest
