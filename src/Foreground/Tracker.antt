-- ===== src/Foreground/Tracker.antt =====
-- The time that each window held the foreground (`Tracker` of src/foreground.rs).
pub mod Banking
pub mod Credit
use nestwatch.Common.{
  ℕ, ◌+◌, ◌-◌, ◌/◌, ◌%◌, String, Bool, true, false, Option, none, some, List, [], ◌∷◌, retain, leb,
  ltb, max, if◌then◌else◌, sat64,
}
use nestwatch.Common.Keyed.{string_keys, lookup, insert, map_values}
use nestwatch.Foreground.{retain_top}

pub record Tracker : Type 0 where
  pub current : Option (String × ℕ)
  pub idle : Bool
  pub millis : List (String × ℕ)
  pub cap : Option ℕ

abbrev pub new : Tracker
new = record { current = none; idle = false; millis = []; cap = none }

abbrev pub capped : ℕ → Tracker
capped cap = record new { cap = some cap }

-- The slot of a name, or a new one.
unfoldable pub bank_app : String → ℕ → List (String × ℕ) → List (String × ℕ)
bank_app app delta m = elim (lookup app m) [
  | some slot ↦ insert app (sat64 slot delta) m
  | none ↦ insert app delta m
]

unfoldable pub bank : ℕ → Tracker → Tracker
bank now_ms t = elim t.current [
  | none ↦ t
  | some (app, since) ↦
      (let delta = if t.idle then 0 else now_ms - since in
        record t {
          current = some (app, if ltb since now_ms then now_ms else since);
          millis = if ltb 0 delta then bank_app app delta t.millis else t.millis;
        })
]

abbrev pub focused : Option String → ℕ → Option (String × ℕ)
focused none now_ms = none
focused (some app) now_ms = some (app, now_ms)

unfoldable pub focus : Option String → ℕ → Tracker → Tracker
focus app now_ms t = record (bank now_ms t) { current = focused app now_ms }

unfoldable pub set_idle : Bool → ℕ → Tracker → Tracker
set_idle idle now_ms t = record (bank now_ms t) { idle = idle }

abbrev pub at_cap : Option ℕ → List (String × ℕ) → List (String × ℕ)
at_cap none m = m
at_cap (some cap) m = retain_top m cap

-- The whole seconds of each name, and what is left of its milliseconds.
unfoldable pub whole_secs : List (String × ℕ) → List (String × ℕ)
whole_secs m = map_values (λ remaining. remaining / 1000) (retain (λ x. leb 1000 x.1) m)

unfoldable pub left_over : List (String × ℕ) → List (String × ℕ)
left_over m =
    retain (λ x. ltb 0 x.1)
      (map_values (λ remaining. if leb 1000 remaining then remaining % 1000 else remaining) m)

unfoldable pub drain : ℕ → Tracker → List (String × ℕ) × Tracker
drain now_ms t =
    let t = bank now_ms t in
    (whole_secs t.millis, record t { millis = at_cap t.cap (left_over t.millis) })
