-- ===== src/TimeCode/Scan.antt =====
-- A redemption is decided by the newest event of the code, and the search for the code's text in the
-- file changes nothing (src/timecode.rs, `redeem`).
use nestwatch.Common.{
  ℕ, ◌≡◌, refl, sym, ap, ◌∙◌, inl, inr, Bool, true, false, Option, none, some, List, [], ◌∷◌, map,
  any, find, find-any, length, All, if◌then◌else◌, arith, Bool-cases, ◌==◌,
}
use nestwatch.Common.Keyed.{bytes_keys, bytes_eq, bytes_eq_iff, mem?}
use nestwatch.Jsonl.{JsonlLog, Io, record_event, recent, open_events}
use nestwatch.Jsonl.Latest.{has, newest, open_at, find-open_events, open_events-All}
use nestwatch.Token.{eq_ct, normalize}
use nestwatch.Token.Compare.{eq_ct_iff}
use nestwatch.TimeCode.{
  Event, issued, redeemed, rotated, Redemption, granted, not_a_code, no_such_code, ActiveCode,
  code_of, is_issued, active_code, active, any_line_contains, redeem, code_len,
}

abbrev pub newest_of : List ℕ → JsonlLog Event → Option Event
newest_of code l = newest code_of is_issued code (recent l)

abbrev matching : List ℕ → List ActiveCode → Option ActiveCode
matching code cs = find (λ c. eq_ct c.code code) cs

eq_ct-bytes_eq : (a b : List ℕ) → eq_ct a b ≡ bytes_eq a b
eq_ct-bytes_eq a b = ground (arith, eq_ct_iff a b, bytes_eq_iff a b)

-- What `find` says of the active codes, by the newest event of the code.
abbrev found_by : Option Event → Option ActiveCode
found_by none = none
found_by (some x) = some (active_code x)

find-map :
    (code : List ℕ) (xs : List Event)
    → All (λ x. is_issued x ≡ true) xs
    → matching code (map active_code xs) ≡ found_by (find (has code_of is_issued code) xs)
find-map code [] h = refl
find-map code (issued c m t ∷ xs) h = ground (arith, eq_ct-bytes_eq c code, find-map code xs h.1)
find-map code (redeemed c ∷ xs) h = absurd cc
find-map code (rotated ∷ xs) h = absurd cc

pub find-active :
    (code : List ℕ) (l : JsonlLog Event)
    → matching code (active l) ≡ found_by (open_at code_of is_issued false (newest_of code l))
unfolding active mem?
find-active code l =
    find-map code (open_events code_of is_issued [] (recent l))
      (open_events-All code_of is_issued [] (recent l))
    ∙ ap found_by (find-open_events code_of is_issued code [] (recent l))

-- The file holds the text of each code that one of its events has.
unfoldable pub Contains : (List ℕ → List Event → Bool) → Type 0
Contains file_contains =
    (code : List ℕ) (xs : List Event)
    → any (has code_of is_issued code) xs ≡ true
    → file_contains code xs ≡ true

module _ (file_contains : List ℕ → List Event → Bool) where
  -- The answer to a code, by the newest event that has it.
  abbrev pub answer : List ℕ → Io → JsonlLog Event → Option Event → Redemption × JsonlLog Event
  answer code io l (some (issued c minutes ts)) =
      (granted minutes, record_event rotated io (redeemed code) l)
  answer code io l _ = (no_such_code, l)

  newest_of-missing :
      (code : List ℕ) (l : JsonlLog Event)
      → Contains file_contains
      → any_line_contains file_contains l code ≡ false
      → newest_of code l ≡ none
  unfolding recent Contains
  newest_of-missing code l contains h =
      ground (arith, contains code l.events, find-any (has code_of is_issued code) l.events)

  answer-found :
      (code : List ℕ) (io : Io) (l : JsonlLog Event) (newest : Option Event)
      → newest ≡ newest_of code l
      → (elim (matching code (active l)) [
        | none ↦ (no_such_code, l)
        | some found ↦ (granted found.minutes, record_event rotated io (redeemed code) l)
      ])
        ≡ answer code io l newest
  answer-found code io l none e = rw (find-active code l, sym e) refl
  answer-found code io l (some (issued c m t)) e = rw (find-active code l, sym e) refl
  answer-found code io l (some (redeemed c)) e = rw (find-active code l, sym e) refl
  answer-found code io l (some rotated) e = rw (find-active code l, sym e) refl

  -- Where the file holds the text of every code it records, a redemption is decided by the newest
  -- event of the normalized code: an issue grants its minutes and records the redemption; anything
  -- else, and any other length, is refused and records nothing. The search for the text first, which
  -- spares the parsing, changes no answer.
  pub redeem-answer :
      (input : List ℕ) (io : Io) (l : JsonlLog Event)
      → Contains file_contains
      → redeem file_contains input io l ≡ (
          let code = normalize input in
          if length code == code_len then answer code io l (newest_of code l) else (not_a_code, l))
  unfolding redeem
  redeem-answer input io l contains =
      let code = normalize input in
      elim (Bool-cases (any_line_contains file_contains l code)) [
        | inl present ↦
            rw (redeem, present) (ground (arith, answer-found code io l (newest_of code l) refl))
        | inr missing ↦
            rw (redeem, missing, newest_of-missing code l contains missing) (ground arith)
      ]
