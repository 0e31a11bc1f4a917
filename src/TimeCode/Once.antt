-- ===== src/TimeCode/Once.antt =====
-- Each code is redeemed once, and the outstanding codes are bounded (src/timecode.rs).
use nestwatch.Common.{
  ℕ, suc, ◌+◌, ◌≤◌, ◌<◌, ◌≡◌, refl, sym, ap, ◌∙◌, inl, inr, Bool, true, false, Option, none, some,
  List, [], ◌∷◌, length, length-map, All, if◌then◌else◌, arith, Bool-cases, is_some_and,
}
use nestwatch.Common.Keyed.{bytes_keys, bytes_eq, bytes_eq_iff, beq_self}
use nestwatch.Jsonl.{JsonlLog, Io, record_event, recent}
use nestwatch.Jsonl.Latest.{
  is_open, record-open, record-closed, record-newest, length-record_event, record_event-enabled,
}
use nestwatch.Token.{normalize, random}
use nestwatch.Token.Compare.{normalize-random, length-random}
use nestwatch.TimeCode.{
  Event, issued, redeemed, rotated, Redemption, granted, not_a_code, no_such_code, code_of,
  is_issued, active, issue, redeem, code_len, max_active_codes,
}
use nestwatch.TimeCode.Scan.{newest_of, Contains, answer, redeem-answer}

pub data Op : Type 0 where
  issues : (bytes : List ℕ) (minutes ts : ℕ) → Io → Op
  redeems : (input : List ℕ) → Io → Op

abbrev is_granted : Redemption → Bool
is_granted (granted minutes) = true
is_granted not_a_code = false
is_granted no_such_code = false

abbrev outstanding : List ℕ → JsonlLog Event → Bool
outstanding code l = is_open code_of is_issued code (recent l)

-- A recorded event adds an active code if it issues one, else none.
length-record_active :
    (io : Io) (x : Event) (l : JsonlLog Event)
    → length (active (record_event rotated io x l))
      ≤ (if is_issued x then suc (length (active l)) else length (active l))
unfolding active
length-record_active io x l =
    simp length-map (length-record_event code_of is_issued rotated io x l refl)

issue-room :
    (bytes : List ℕ) (minutes ts : ℕ) (io : Io) (l : JsonlLog Event)
    → length (active l) < max_active_codes
    → issue bytes minutes ts io l
      ≡ (some (random bytes), record_event rotated io (issued (random bytes) minutes ts) l)
unfolding issue
issue-room bytes minutes ts io l room = ground arith

module _ (file_contains : List ℕ → List Event → Bool) where
  unfoldable pub step : JsonlLog Event → Op → JsonlLog Event
  step l (issues bytes minutes ts io) = (issue bytes minutes ts io l).1
  step l (redeems input io) = (redeem file_contains input io l).1

  unfoldable pub run : JsonlLog Event → List Op → JsonlLog Event
  run l [] = l
  run l (x ∷ xs) = run (step l x) xs

  -- How often the code was issued, and how often it granted minutes.
  abbrev pub issues_of : List ℕ → JsonlLog Event → Op → ℕ
  issues_of code l (issues bytes minutes ts io) =
      if is_some_and (λ c. bytes_eq c code) (issue bytes minutes ts io l).0 then 1 else 0
  issues_of code l (redeems input io) = 0

  abbrev pub grants_of : List ℕ → JsonlLog Event → Op → ℕ
  grants_of code l (issues bytes minutes ts io) = 0
  grants_of code l (redeems input io) =
      if bytes_eq (normalize input) code
      then (if is_granted (redeem file_contains input io l).0 then 1 else 0)
      else 0

  unfoldable pub issued_times : List ℕ → JsonlLog Event → List Op → ℕ
  issued_times code l [] = 0
  issued_times code l (x ∷ xs) = issues_of code l x + issued_times code (step l x) xs

  unfoldable pub granted_times : List ℕ → JsonlLog Event → List Op → ℕ
  granted_times code l [] = 0
  granted_times code l (x ∷ xs) = grants_of code l x + granted_times code (step l x) xs

  -- The log took the line of each redemption.
  abbrev pub Written : Op → Type 0
  Written (issues bytes minutes ts io) = Unit
  Written (redeems input io) = io.written ≡ true

  abbrev owed : List ℕ → JsonlLog Event → ℕ
  owed code l = if outstanding code l then 1 else 0

  answer-owed :
      (code c : List ℕ) (io : Io) (l : JsonlLog Event) (newest : Option Event)
      → newest_of c l ≡ newest
      → io.written ≡ true
      → (if bytes_eq c code
            then (if is_granted (answer file_contains c io l newest).0 then 1 else 0)
            else 0)
          + owed code (answer file_contains c io l newest).1
        ≤ owed code l
  answer-owed code c io l none e w = ground arith
  answer-owed code c io l (some (redeemed d)) e w = ground arith
  answer-owed code c io l (some rotated) e w = ground arith
  answer-owed code c io l (some (issued d m t)) e w = elim (Bool-cases (bytes_eq c code)) [
    | inl same ↦
        let open_now : outstanding code l ≡ true =
          ap (λ z. outstanding z l) (sym ((bytes_eq_iff c code).0 same))
          ∙ ap (is_some_and is_issued) e in
        ground (
          arith,
          same,
          open_now,
          record-closed code_of is_issued code rotated io (redeemed c) l w same refl,
        )
    | inr other ↦
        ground (arith, other, record-open code_of is_issued code rotated io (redeemed c) l refl)
  ]

  step-owed :
      (code : List ℕ) (l : JsonlLog Event) (x : Op)
      → Contains file_contains
      → Written x
      → grants_of code l x + owed code (step l x) ≤ issues_of code l x + owed code l
  unfolding step issue
  step-owed code l (issues bytes minutes ts io) contains w = ground (
    arith,
    record-open code_of is_issued code rotated io (issued (random bytes) minutes ts) l refl,
  )
  step-owed code l (redeems input io) contains w =
      rw (step, redeem-answer file_contains input io l contains)
        (ground
          (arith, answer-owed code (normalize input) io l (newest_of (normalize input) l) refl w))

  -- Whatever is issued, redeemed, rotated or lost, a code grants minutes at most as often as it was
  -- issued (one more if it was outstanding at the start), when every redemption is written to the
  -- log and the file holds the text of each code it records.
  pub granted_times-le :
      (code : List ℕ) (l : JsonlLog Event) (xs : List Op)
      → Contains file_contains
      → All Written xs
      → granted_times code l xs ≤ issued_times code l xs + owed code l
  unfolding granted_times issued_times
  granted_times-le code l [] contains w = omega arith
  granted_times-le code l (x ∷ xs) contains w =
      omega
        (arith, step-owed code l x contains w.0, granted_times-le code (step l x) xs contains w.1)

  answer-bounded :
      (c : List ℕ) (io : Io) (l : JsonlLog Event) (newest : Option Event)
      → length (active (answer file_contains c io l newest).1) ≤ length (active l)
  answer-bounded c io l none = omega arith
  answer-bounded c io l (some (redeemed d)) = omega arith
  answer-bounded c io l (some rotated) = omega arith
  answer-bounded c io l (some (issued d m t)) = length-record_active io (redeemed c) l

  step-bounded :
      (l : JsonlLog Event) (x : Op)
      → Contains file_contains
      → length (active l) ≤ max_active_codes
      → length (active (step l x)) ≤ max_active_codes
  unfolding step issue
  step-bounded l (issues bytes minutes ts io) contains le =
      ground (arith, length-record_active io (issued (random bytes) minutes ts) l)
  step-bounded l (redeems input io) contains le =
      rw (step, redeem-answer file_contains input io l contains)
        (ground (arith, answer-bounded (normalize input) io l (newest_of (normalize input) l)))

  -- If no more than fifty codes are active, there never are.
  pub length-active-run :
      (l : JsonlLog Event) (xs : List Op)
      → Contains file_contains
      → length (active l) ≤ max_active_codes
      → length (active (run l xs)) ≤ max_active_codes
  unfolding run
  length-active-run l [] contains le = le
  length-active-run l (x ∷ xs) contains le =
      length-active-run (step l x) xs contains (step-bounded l x contains le)

  -- In a log that is enabled and has fewer than fifty active codes, a code that is issued is then
  -- redeemed for its minutes by any text that normalizes to it (another case, separators), and by a
  -- second redemption no more, when both lines are written and the file holds the text of each code
  -- it records.
  pub redeem-issue :
      (bytes input : List ℕ) (minutes ts : ℕ) (io redeeming : Io) (l : JsonlLog Event)
      → Contains file_contains
      → length bytes ≡ code_len
      → l.enabled ≡ true
      → io.written ≡ true
      → redeeming.written ≡ true
      → length (active l) < max_active_codes
      → normalize input ≡ normalize (random bytes)
      → (let issued_log = (issue bytes minutes ts io l).1 in
          let first = redeem file_contains input redeeming issued_log in
          (first.0 ≡ granted minutes)
          × (redeem file_contains input redeeming first.1 ≡ (no_such_code, first.1)))
  redeem-issue bytes input minutes ts io redeeming l contains len enabled w w' room same =
      let c = random bytes in
      let printed : normalize input ≡ c = same ∙ normalize-random bytes in
      let after = record_event rotated io (issued c minutes ts) l in
      let here : bytes_eq c c ≡ true = beq_self c in
      let once =
        record-newest code_of is_issued c rotated io (issued c minutes ts) l enabled w here in
      let twice =
        record-newest code_of is_issued c rotated redeeming (redeemed c) after
          (record_event-enabled rotated io (issued c minutes ts) l ∙ enabled) w' here in
      rw
        (
          issue-room bytes minutes ts io l room,
          redeem-answer file_contains input redeeming after contains,
          printed,
          length-random bytes,
          len,
          once,
          redeem-answer file_contains input redeeming
              (record_event rotated redeeming (redeemed c) after) contains,
          printed,
          length-random bytes,
          len,
          twice,
        )
        (refl, refl)
