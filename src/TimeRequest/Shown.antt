-- ===== src/TimeRequest/Shown.antt =====
-- What the child's page shows of the newest request (src/timereq.rs, `latest`).
use nestwatch.Common.{
  ℕ, ◌<◌, ◌≡◌, ap, ◌∙◌, inl, inr, Bool, true, false, ◌&&◌, some, List, [], ◌∷◌, length, take,
  if◌then◌else◌, arith, Bool-cases,
}
use nestwatch.Common.Keyed.{Eq, beq_self}
use nestwatch.Jsonl.{JsonlLog, Io, record_event, rotate_if_over_size, recent}
use nestwatch.Jsonl.Latest.{record_event-enabled}
use nestwatch.TimeRequest.{
  Event, requested, rotated, approved_state, denied_state, pending_state, TimeRequests, pending,
  latest, resolve, submit, max_pending, max_reason_chars,
}
use nestwatch.TimeRequest.Decisions.{decision, decided, resolve-cases}

module _ {Key : Type 0} ⦃e : Eq Key⦄ (format_id : ℕ → ℕ → Key) (trim : List ℕ → List ℕ) where
  latest-submission :
      (q : TimeRequests Key) (id : Key) (minutes ts : ℕ) (reason : List ℕ) (xs : List (Event Key))
      → recent q.log ≡ requested id minutes ts reason ∷ xs
      → latest q ≡ some (record { state = pending_state; minutes = minutes })
  unfolding latest
  latest-submission q id minutes ts reason xs h = ground (arith, h, beq_self id)

  latest-decision :
      (q : TimeRequests Key) (id : Key) (approve : Bool) (minutes ts : ℕ) (reason : List ℕ)
      (xs : List (Event Key))
      → recent q.log ≡ decision id approve ∷ requested id minutes ts reason ∷ xs
      → latest q
        ≡ some
            (record { state = if approve then approved_state else denied_state; minutes = minutes })
  unfolding latest
  latest-decision q id true minutes ts reason xs h = ground (arith, h, beq_self id)
  latest-decision q id false minutes ts reason xs h = ground (arith, h, beq_self id)

  recent-record :
      (io : Io) (x : Event Key) (l : JsonlLog (Event Key))
      → l.enabled ≡ true
      → io.written ≡ true
      → (xs : List (Event Key)) × (recent (record_event rotated io x l) ≡ x ∷ xs)
  unfolding recent record_event rotate_if_over_size
  recent-record io x l enabled w = elim (Bool-cases (io.over_size && io.renamed)) [
    | inl rotates ↦ (if io.discarded && io.marker_written then rotated ∷ [] else [], ground arith)
    | inr stays ↦ (l.events, ground arith)
  ]

  recent-unrotated :
      (io : Io) (x : Event Key) (l : JsonlLog (Event Key))
      → l.enabled ≡ true
      → io.written ≡ true
      → (io.over_size && io.renamed) ≡ false
      → recent (record_event rotated io x l) ≡ x ∷ recent l
  unfolding recent record_event rotate_if_over_size
  recent-unrotated io x l enabled w stays = ground arith

  -- A submission that has room and is written is shown as pending; and once its answer is written,
  -- with no rotation of the file, the answer is shown, with the minutes asked for.
  pub latest-resolve :
      (minutes : ℕ) (reason : List ℕ) (millis ts : ℕ) (io answering : Io) (approve : Bool)
      (q : TimeRequests Key)
      → q.log.enabled ≡ true
      → length (pending q) < max_pending
      → io.written ≡ true
      → answering.written ≡ true
      → (answering.over_size && answering.renamed) ≡ false
      → (let asked = (submit format_id trim minutes reason millis ts io q).1 in
          (latest asked ≡ some (record { state = pending_state; minutes = minutes }))
          × (latest (resolve (format_id millis q.counter) approve answering asked).1
              ≡ some (record {
                state = if approve then approved_state else denied_state;
                minutes = minutes;
              })))
  unfolding submit
  latest-resolve minutes reason millis ts io answering approve q enabled room w w' stays =
      let id = format_id millis q.counter in
      let kept = take max_reason_chars (trim reason) in
      let asked = (submit format_id trim minutes reason millis ts io q).1 in
      let log_after : asked.log ≡ record_event rotated io (requested id minutes ts kept) q.log =
        ground arith in
      let written = recent-record io (requested id minutes ts kept) q.log enabled w in
      let front = ap recent log_after ∙ written.1 in
      let enabled_still : asked.log.enabled ≡ true =
        ap (λ l. l.enabled) log_after
        ∙ record_event-enabled rotated io (requested id minutes ts kept) q.log
        ∙ enabled in
      (
        latest-submission asked id minutes ts kept written.0 front,
        elim (resolve-cases id approve answering asked) [
          | inl (closed, same) ↦ absurd (ground (arith, closed, front, beq_self id))
          | inr (waits, (r, same)) ↦ rw same (
              latest-decision (decided id approve answering asked) id approve minutes ts kept
                written.0
                (recent-unrotated answering (decision id approve) asked.log enabled_still w' stays
                  ∙ ap (λ xs. decision id approve ∷ xs) front))
        ],
      )
