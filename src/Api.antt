-- ===== src/Api.antt =====
-- The handlers of the API that change what is configured and granted (src/api.rs). A handler is a
-- step on the part of the state it works on, with the answer it gives. Its request has been read
-- from JSON; the locks make a change and its save one step.
pub mod Settings
pub mod Grants
use nestwatch.Common.{ℕ, Bool, true, false, Option, none, some, ◌||◌, ltb, ◌==◌, if◌then◌else◌}

-- `Ok` with `ok` true or false, or the error of the handler.
pub data Answer : Type 0 where
  done refused bad_request not_saved unauthorized not_found too_many : Answer

-- The two tests of `require_minutes`: `true` is `Ok(())`.
unfoldable pub require_minutes : (minutes most : ℕ) → Bool
require_minutes minutes most = if (minutes == 0) || ltb most minutes then false else true

abbrev pub max_request_minutes : ℕ
max_request_minutes = 240

-- `mutate` gives the changed configuration, and an error where it rejects the request: what it has
-- changed by then stays. `unchanged` is the comparison of the two as JSON, and `saved` says whether
-- the file could be written; where it could not, the change is taken back.
unfoldable pub try_update_config :
    {C : Type 0}
    → (unchanged : C → C → Bool) → (saved : Bool) → (C → C × Option Answer)
    → C
    → C × Answer
try_update_config unchanged saved mutate c =
    let (next, rejected) = mutate c in
    elim rejected [
      | some e ↦ (next, e)
      | none ↦
          if unchanged c next then (next, done) else if saved then (next, done) else (c, not_saved)
    ]

-- A change that rejects nothing.
unfoldable pub update_config :
    {C : Type 0} → (unchanged : C → C → Bool) → (saved : Bool) → (C → C) → C → C × Answer
update_config unchanged saved mutate c = try_update_config unchanged saved (λ c. (mutate c, none)) c
