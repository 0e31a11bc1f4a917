-- ===== src/TimeRequest.antt =====
-- The child's requests for more time (src/timereq.rs): submitted, then approved or denied by the
-- parent. The events of the log are those that the code writes. The identifier is formatted from the
-- clock's milliseconds and a counter by `format!`, which is a parameter, as `trim` is. The mutex
-- makes each operation one step.
pub mod Decisions
pub mod Shown
use Prim.Native.Nat.{◌^◌}
use nestwatch.Common.{
  ℕ, ◌+◌, ◌%◌, ◌≡◌, Bool, true, false, Option, none, some, List, [], ◌∷◌, map, take, length, find,
  leb, if◌then◌else◌, is_some_and,
}
use nestwatch.Common.Keyed.{Eq, ◌=?◌}
use nestwatch.Jsonl.{JsonlLog, Io, record_event, recent, open_events}

abbrev pub max_pending : ℕ
max_pending = 5

abbrev pub max_reason_chars : ℕ
max_reason_chars = 200

-- A line of the log: the events of this module, and the marker of a rotation. A reason is the list
-- of its characters.
pub data Event (Key : Type 0) : Type 0 where
  requested : (id : Key) (minutes ts : ℕ) (reason : List ℕ) → Event Key
  approved : (id : Key) → Event Key
  denied : (id : Key) → Event Key
  rotated : Event Key

pub record PendingRequest (Key : Type 0) : Type 0 where
  pub id : Key
  pub ts : ℕ
  pub minutes : ℕ
  pub reason : List ℕ

pub data State : Type 0 where
  approved_state : State
  denied_state : State
  pending_state : State

pub record LatestRequest : Type 0 where
  pub state : State
  pub minutes : ℕ

pub record TimeRequests (Key : Type 0) : Type 0 where
  pub log : JsonlLog (Event Key)
  pub counter : ℕ

module _ {Key : Type 0} where
  abbrev pub id_of : Event Key → Option Key
  id_of (requested id minutes ts reason) = some id
  id_of (approved id) = some id
  id_of (denied id) = some id
  id_of rotated = none

  abbrev pub is_requested : Event Key → Bool
  is_requested (requested id minutes ts reason) = true
  is_requested (approved id) = false
  is_requested (denied id) = false
  is_requested rotated = false

  -- The request of a submission; other events have none.
  abbrev pub request_of : Event Key → Option (PendingRequest Key)
  request_of (requested id minutes ts reason) =
      some (record { id = id; ts = ts; minutes = minutes; reason = reason })
  request_of (approved id) = none
  request_of (denied id) = none
  request_of rotated = none

  -- `out.push` of each event found.
  abbrev pub requests : List (Event Key) → List (PendingRequest Key)
  requests [] = []
  requests (x ∷ xs) =
      let rest = requests xs in elim (request_of x) [ none ↦ rest | some r ↦ r ∷ rest ]

  abbrev pub state_of : Event Key → State
  state_of (approved id) = approved_state
  state_of (denied id) = denied_state
  state_of (requested id minutes ts reason) = pending_state
  state_of rotated = pending_state

module _ {Key : Type 0} ⦃e : Eq Key⦄ where
  unfoldable pub pending : TimeRequests Key → List (PendingRequest Key)
  pending q = requests (open_events id_of is_requested [] (recent q.log))

  abbrev pub with_id : Key → Event Key → Bool
  with_id id x = is_some_and (λ j. j =? id) (id_of x)

  unfoldable pub latest : TimeRequests Key → Option LatestRequest
  latest q =
      let events = recent q.log in
      elim (find is_requested events) [
        | some (requested id minutes ts reason) ↦ elim (find (with_id id) events) [
          | none ↦ none
          | some status ↦ some (record { state = state_of status; minutes = minutes })
        ]
        | _ ↦ none
      ]

  unfoldable pub resolve :
      Key → Bool → Io → TimeRequests Key → Option (PendingRequest Key) × TimeRequests Key
  resolve id approve io q = elim (find (λ (r : PendingRequest Key). r.id =? id) (pending q)) [
    | none ↦ (none, q)
    | some r ↦ (
      some r,
      record q { log = record_event rotated io (if approve then approved id else denied id) q.log },
    )
  ]

  module _ (format_id : ℕ → ℕ → Key) (trim : List ℕ → List ℕ) where
    unfoldable pub submit :
        (minutes : ℕ) (reason : List ℕ) (millis ts : ℕ)
        → Io
        → TimeRequests Key
        → Option Key × TimeRequests Key
    submit minutes reason millis ts io q =
        if leb max_pending (length (pending q))
        then (none, q)
        else (let id = format_id millis q.counter in
            (
              some id,
              record q {
                log =
                    record_event rotated io
                      (requested id minutes ts (take max_reason_chars (trim reason))) q.log;
                counter = (q.counter + 1) % 2 ^ 64;
              },
            ))
