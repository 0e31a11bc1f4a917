-- ===== src/Tests/Codes.antt =====
-- Codes, requests and pairing tokens, on a few uses.
use nestwatch.Common.{
  ℕ, ◌+◌, ◌≤◌, ◌≡◌, refl, true, false, List, [], ◌∷◌, any, length, if◌then◌else◌, ◌==◌, Bool,
}
use nestwatch.Common.Keyed.{nat_keys, bytes_keys}
use nestwatch.Jsonl.{JsonlLog, Io, empty_log, recent}
use nestwatch.Jsonl.Latest.{has}
use nestwatch.Token.{normalize, random}
use nestwatch.TimeCode.{Event, issued, code_of, is_issued, redeem, not_a_code, code_len}
use nestwatch.TimeCode.Scan.{Contains, redeem-answer, answer, newest_of}
use nestwatch.TimeCode.Once.{issues, redeems, granted_times, issued_times, granted_times-le}
use nestwatch.TimeRequest.{TimeRequests}
use nestwatch.TimeRequest.Decisions.{
  submits, resolves, decided_times, submitted_times, decided_times-le,
}
use nestwatch.Pairing.{dashboard, absent}
use nestwatch.Pairing.OneTime.{mints, redeems as tries, paired_times, minted_times, paired_times-le}

-- Writes succeed, and the file is small.
abbrev fine : Io
fine = record {
  over_size = false;
  renamed = false;
  discarded = false;
  marker_written = false;
  written = true;
}

abbrev drawn : List ℕ
drawn = 1 ∷ 2 ∷ 3 ∷ 4 ∷ 5 ∷ 42 ∷ []

-- "12-345a", as the child types the code "12345A".
abbrev typed : List ℕ
typed = 49 ∷ 50 ∷ 45 ∷ 51 ∷ 52 ∷ 53 ∷ 97 ∷ []

abbrev scan : List ℕ → List Event → Bool
scan code xs = any (has code_of is_issued code) xs

scan-Contains : Contains scan
unfolding Contains
scan-Contains code xs h = h

abbrev outstanding : JsonlLog Event
outstanding = record { enabled = true; events = issued (random drawn) 30 0 ∷ []; rotated = [] }

redeem-answer_example : redeem scan typed fine outstanding ≡ (
    let code = normalize typed in
    if length code == code_len
    then answer scan code fine outstanding (newest_of code outstanding)
    else (not_a_code, outstanding))
redeem-answer_example = redeem-answer scan typed fine outstanding scan-Contains

granted_times-le_example :
    granted_times scan
      (normalize typed)
      empty_log
      (issues drawn 30 0 fine ∷ redeems typed fine ∷ redeems typed fine ∷ [])
    ≤ issued_times scan
        (normalize typed)
        empty_log
        (issues drawn 30 0 fine ∷ redeems typed fine ∷ redeems typed fine ∷ [])
      + 0
unfolding recent
granted_times-le_example =
    granted_times-le scan (normalize typed) empty_log
      (issues drawn 30 0 fine ∷ redeems typed fine ∷ redeems typed fine ∷ []) scan-Contains
      (tt, (refl, (refl, tt)))

-- An identifier is the counter, and no space is trimmed.
abbrev no_requests : TimeRequests ℕ
no_requests = record { log = empty_log; counter = 0 }

decided_times-le_example :
    decided_times
      (λ millis n. n)
      (λ s. s)
      0
      no_requests
      (submits 20 [] 5 5 fine ∷ resolves 0 true fine ∷ resolves 0 false fine ∷ [])
    ≤ submitted_times
        (λ millis n. n)
        (λ s. s)
        0
        no_requests
        (submits 20 [] 5 5 fine ∷ resolves 0 true fine ∷ resolves 0 false fine ∷ [])
      + 0
unfolding recent
decided_times-le_example =
    decided_times-le (λ millis n. n) (λ s. s) 0 no_requests
      (submits 20 [] 5 5 fine ∷ resolves 0 true fine ∷ resolves 0 false fine ∷ [])
      (tt, (refl, (refl, tt)))

abbrev token : List ℕ
token = 1 ∷ 2 ∷ 3 ∷ 4 ∷ 5 ∷ 6 ∷ 7 ∷ 8 ∷ 9 ∷ 10 ∷ 11 ∷ 12 ∷ 13 ∷ 14 ∷ 15 ∷ 16 ∷ []

paired_times-le_example :
    paired_times
      (λ t. t)
      absent
      (mints token 100 dashboard true
        ∷ tries (random token) 200 false
        ∷ tries (random token) 300 true
        ∷ [])
    ≤ minted_times
        (λ t. t)
        absent
        (mints token 100 dashboard true
          ∷ tries (random token) 200 false
          ∷ tries (random token) 300 true
          ∷ [])
      + 0
paired_times-le_example =
    paired_times-le (λ t. t) absent
      (mints token 100 dashboard true
        ∷ tries (random token) 200 false
        ∷ tries (random token) 300 true
        ∷ [])
