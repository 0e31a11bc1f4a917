-- ===== src/TimeCode.antt =====
-- The offline time codes (src/timecode.rs): issued by the parent, redeemed once by the child. The
-- events of the log are those that the code writes; `as_u64` and `as u32` of the minutes of such an
-- event give them back. The mutex makes each operation one step.
pub mod Once
pub mod Scan
use nestwatch.Common.{
  ℕ, ◌≡◌, Bool, true, false, not, Option, none, some, List, [], ◌∷◌, map, length, find, leb, ◌==◌,
  if◌then◌else◌,
}
use nestwatch.Common.Keyed.{bytes_keys}
use nestwatch.Jsonl.{JsonlLog, Io, record_event, recent, open_events}
use nestwatch.Token.{random, eq_ct, normalize}

abbrev pub max_active_codes : ℕ
max_active_codes = 50

abbrev pub code_len : ℕ
code_len = 6

-- A line of the log: the two events of this module, and the marker of a rotation.
pub data Event : Type 0 where
  issued : (code : List ℕ) (minutes ts : ℕ) → Event
  redeemed : (code : List ℕ) → Event
  rotated : Event

pub data Redemption : Type 0 where
  granted : ℕ → Redemption
  not_a_code : Redemption
  no_such_code : Redemption

pub record ActiveCode : Type 0 where
  pub code : List ℕ
  pub ts : ℕ
  pub minutes : ℕ

abbrev pub code_of : Event → Option (List ℕ)
code_of (issued code minutes ts) = some code
code_of (redeemed code) = some code
code_of rotated = none

abbrev pub is_issued : Event → Bool
is_issued (issued code minutes ts) = true
is_issued (redeemed code) = false
is_issued rotated = false

-- The fields of an event that `active` found; missing ones are empty.
abbrev pub active_code : Event → ActiveCode
active_code (issued code minutes ts) = record { code = code; ts = ts; minutes = minutes }
active_code (redeemed code) = record { code = code; ts = 0; minutes = 0 }
active_code rotated = record { code = []; ts = 0; minutes = 0 }

unfoldable pub active : JsonlLog Event → List ActiveCode
active l = map active_code (open_events code_of is_issued [] (recent l))

unfoldable pub issue :
    (bytes : List ℕ) (minutes ts : ℕ) → Io → JsonlLog Event → Option (List ℕ) × JsonlLog Event
issue bytes minutes ts io l =
    if leb max_active_codes (length (active l))
    then (none, l)
    else (let code = random bytes in
        (some code, record_event rotated io (issued code minutes ts) l))

-- `file_contains` is the search for a text in the file.
module _ (file_contains : List ℕ → List Event → Bool) where
  abbrev pub any_line_contains : JsonlLog Event → List ℕ → Bool
  any_line_contains l needle = if l.enabled then file_contains needle l.events else false

  unfoldable pub redeem : List ℕ → Io → JsonlLog Event → Redemption × JsonlLog Event
  redeem input io l =
      let code = normalize input in
      if not (length code == code_len)
      then (not_a_code, l)
      else if not (any_line_contains l code)
      then (no_such_code, l)
      else elim (find (λ (c : ActiveCode). eq_ct c.code code) (active l)) [
        | none ↦ (no_such_code, l)
        | some found ↦ (granted found.minutes, record_event rotated io (redeemed code) l)
      ]
