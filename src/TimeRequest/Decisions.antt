-- ===== src/TimeRequest/Decisions.antt =====
-- A request is decided once, few wait at a time, and the child sees the decision (src/timereq.rs).
use nestwatch.Common.{
  ℕ, suc, ◌+◌, ◌≤◌, ◌≡◌, refl, sym, ap, ◌∙◌, ◌⊎◌, inl, inr, Bool, true, false, Option, none, some,
  List, [], ◌∷◌, length, take, find, All, if◌then◌else◌, arith, Bool-cases, Option-cases,
  is_some_and, is_some,
}
use nestwatch.Common.Keyed.{Eq, ◌=?◌, beq_self, mem?}
use nestwatch.Jsonl.{Io, record_event, recent, open_events}
use nestwatch.Jsonl.Latest.{
  has, newest, is_open, open_at, find-open_events, open_events-All, record-open, record-closed,
  length-record_event,
}
use nestwatch.TimeRequest.{
  Event, requested, approved, denied, rotated, PendingRequest, TimeRequests, id_of, is_requested,
  requests, pending, resolve, submit, max_pending, max_reason_chars,
}

module _ {Key : Type 0} ⦃e : Eq Key⦄ where
  abbrev pub outstanding : Key → TimeRequests Key → Bool
  outstanding id q = is_open id_of is_requested id (recent q.log)

  find-requests :
      (id : Key) (xs : List (Event Key))
      → All (λ x. is_requested x ≡ true) xs
      → is_some (find (λ (r : PendingRequest Key). r.id =? id) (requests xs))
        ≡ is_some (find (has id_of is_requested id) xs)
  find-requests id [] h = refl
  find-requests id (requested j m t r ∷ xs) h = ground (arith, find-requests id xs h.1)
  find-requests id (approved j ∷ xs) h = absurd cc
  find-requests id (denied j ∷ xs) h = absurd cc
  find-requests id (rotated ∷ xs) h = absurd cc

  -- A request waits for an answer exactly if its newest event is its submission.
  find-pending :
      (id : Key) (q : TimeRequests Key)
      → is_some (find (λ (r : PendingRequest Key). r.id =? id) (pending q)) ≡ outstanding id q
  unfolding pending mem?
  find-pending id q =
      let events = recent q.log in
      find-requests id (open_events id_of is_requested [] events)
        (open_events-All id_of is_requested [] events)
      ∙ ap is_some (find-open_events id_of is_requested id [] events)
      ∙ open_at-is_some (newest id_of is_requested id events)
    where
      open_at-is_some :
          (o : Option (Event Key))
          → is_some (open_at id_of is_requested false o) ≡ is_some_and is_requested o
      open_at-is_some none = refl
      open_at-is_some (some x) = ground arith

  length-requests :
      (xs : List (Event Key))
      → All (λ x. is_requested x ≡ true) xs
      → length (requests xs) ≡ length xs
  length-requests [] h = refl
  length-requests (requested j m t r ∷ xs) h = omega (arith, length-requests xs h.1)
  length-requests (approved j ∷ xs) h = absurd cc
  length-requests (denied j ∷ xs) h = absurd cc
  length-requests (rotated ∷ xs) h = absurd cc

  length-record_pending :
      (io : Io) (x : Event Key) (q q' : TimeRequests Key)
      → q'.log ≡ record_event rotated io x q.log
      → length (pending q')
        ≤ (if is_requested x then suc (length (pending q)) else length (pending q))
  unfolding pending
  length-record_pending io x q q' e =
      let before = open_events-All id_of is_requested [] (recent q.log) in
      let after = open_events-All id_of is_requested [] (recent q'.log) in
      ground (
        arith,
        length-requests (open_events id_of is_requested [] (recent q.log)) before,
        length-requests (open_events id_of is_requested [] (recent q'.log)) after,
        ap (λ l. length (open_events id_of is_requested [] (recent l))) e,
        length-record_event id_of is_requested rotated io x q.log refl,
      )

  abbrev pub decision : Key → Bool → Event Key
  decision id approve = if approve then approved id else denied id

  decision-closes : (id : Key) (approve : Bool) → is_requested (decision id approve) ≡ false
  decision-closes id approve = ground arith

  decision-has :
      (id : Key) (approve : Bool) → has id_of is_requested id (decision id approve) ≡ true
  decision-has id approve = ground (arith, beq_self id)

  abbrev pub decided : Key → Bool → Io → TimeRequests Key → TimeRequests Key
  decided id approve io q = record q { log = record_event rotated io (decision id approve) q.log }

  -- A waiting request is answered, by one line; any other changes nothing.
  pub resolve-cases :
      (id : Key) (approve : Bool) (io : Io) (q : TimeRequests Key)
      → ((outstanding id q ≡ false) × (resolve id approve io q ≡ (none, q)))
        ⊎ ((outstanding id q ≡ true)
            × ((r : PendingRequest Key) × (resolve id approve io q
                  ≡ (some r, decided id approve io q))))
  unfolding resolve
  resolve-cases id approve io q =
      elim (Option-cases (find (λ (r : PendingRequest Key). r.id =? id) (pending q))) [
        | inl missing ↦
            inl (sym (find-pending id q) ∙ ap is_some missing, rw (resolve, missing) refl)
        | inr (r, found) ↦
            inr (sym (find-pending id q) ∙ ap is_some found, (r, rw (resolve, found) refl))
      ]

pub data Op (Key : Type 0) : Type 0 where
  submits : (minutes : ℕ) (reason : List ℕ) (millis ts : ℕ) → Io → Op Key
  resolves : Key → Bool → Io → Op Key

module _ {Key : Type 0} ⦃e : Eq Key⦄ (format_id : ℕ → ℕ → Key) (trim : List ℕ → List ℕ) where
  unfoldable pub step : TimeRequests Key → Op Key → TimeRequests Key
  step q (submits minutes reason millis ts io) =
      (submit format_id trim minutes reason millis ts io q).1
  step q (resolves id approve io) = (resolve id approve io q).1

  unfoldable pub run : TimeRequests Key → List (Op Key) → TimeRequests Key
  run q [] = q
  run q (x ∷ xs) = run (step q x) xs

  abbrev pub submissions_of : Key → TimeRequests Key → Op Key → ℕ
  submissions_of id q (submits minutes reason millis ts io) =
      if is_some_and (λ j. j =? id) (submit format_id trim minutes reason millis ts io q).0
      then 1
      else 0
  submissions_of id q (resolves j approve io) = 0

  abbrev pub decisions_of : Key → TimeRequests Key → Op Key → ℕ
  decisions_of id q (submits minutes reason millis ts io) = 0
  decisions_of id q (resolves j approve io) =
      if j =? id then (if is_some (resolve j approve io q).0 then 1 else 0) else 0

  unfoldable pub submitted_times : Key → TimeRequests Key → List (Op Key) → ℕ
  submitted_times id q [] = 0
  submitted_times id q (x ∷ xs) = submissions_of id q x + submitted_times id (step q x) xs

  unfoldable pub decided_times : Key → TimeRequests Key → List (Op Key) → ℕ
  decided_times id q [] = 0
  decided_times id q (x ∷ xs) = decisions_of id q x + decided_times id (step q x) xs

  -- The log took the line of each decision.
  abbrev pub Written : Op Key → Type 0
  Written (submits minutes reason millis ts io) = Unit
  Written (resolves j approve io) = io.written ≡ true

  abbrev owed : Key → TimeRequests Key → ℕ
  owed id q = if outstanding id q then 1 else 0

  step-bounded :
      (q : TimeRequests Key) (x : Op Key)
      → length (pending q) ≤ max_pending
      → length (pending (step q x)) ≤ max_pending
  unfolding step submit resolve
  step-bounded q (submits minutes reason millis ts io) le = ground (
    arith,
    length-record_pending io
        (requested (format_id millis q.counter) minutes ts (take max_reason_chars (trim reason))) q
        (submit format_id trim minutes reason millis ts io q).1,
  )
  step-bounded q (resolves j approve io) le = elim (resolve-cases j approve io q) [
    | inl (closed, same) ↦ rw (step, same) le
    | inr (waits, (r, same)) ↦
        rw (step, same)
          (ground (
            arith,
            decision-closes j approve,
            length-record_pending io (decision j approve) q (decided j approve io q) refl,
          ))
  ]

  -- If no more than five requests wait, there never do.
  pub length-pending-run :
      (q : TimeRequests Key) (xs : List (Op Key))
      → length (pending q) ≤ max_pending
      → length (pending (run q xs)) ≤ max_pending
  unfolding run
  length-pending-run q [] le = le
  length-pending-run q (x ∷ xs) le = length-pending-run (step q x) xs (step-bounded q x le)

  step-owed :
      (id : Key) (q : TimeRequests Key) (x : Op Key)
      → Written x
      → decisions_of id q x + owed id (step q x) ≤ submissions_of id q x + owed id q
  unfolding step submit resolve
  step-owed id q (submits minutes reason millis ts io) w = ground (
    arith,
    record-open id_of is_requested id rotated io
        (requested (format_id millis q.counter) minutes ts (take max_reason_chars (trim reason)))
        q.log refl,
  )
  step-owed id q (resolves j approve io) w = elim (resolve-cases j approve io q) [
    | inl (closed, same) ↦ rw (step, same) (ground arith)
    | inr (waits, (r, same)) ↦
        rw (step, same)
          (elim (Bool-cases (j =? id)) [
            | inl here ↦
                let there : j ≡ id = (e.beq_iff j id).0 here in
                let open_now : outstanding id q ≡ true =
                  ap (λ z. outstanding z q) (sym there) ∙ waits in
                let has_it : has id_of is_requested id (decision j approve) ≡ true =
                  ap (λ z. has id_of is_requested z (decision j approve)) (sym there)
                  ∙ decision-has j approve in
                ground (
                  arith,
                  here,
                  open_now,
                  record-closed id_of is_requested id rotated io (decision j approve) q.log w has_it
                      (decision-closes j approve),
                )
            | inr other ↦ ground (
              arith,
              other,
              decision-closes j approve,
              record-open id_of is_requested id rotated io (decision j approve) q.log refl,
            )
          ])
  ]

  -- Whatever is submitted, decided, rotated or lost, a request is decided at most as often as it was
  -- submitted (once more if it was waiting at the start), when the line of each decision is written.
  pub decided_times-le :
      (id : Key) (q : TimeRequests Key) (xs : List (Op Key))
      → All Written xs
      → decided_times id q xs ≤ submitted_times id q xs + owed id q
  unfolding decided_times submitted_times
  decided_times-le id q [] w = omega arith
  decided_times-le id q (x ∷ xs) w =
      omega (arith, step-owed id q x w.0, decided_times-le id (step q x) xs w.1)
