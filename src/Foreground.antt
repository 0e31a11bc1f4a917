-- ===== src/Foreground.antt =====
-- What was in the foreground (src/foreground.rs): the samples that the session's process sends, and
-- how the service bounds them. Widening to `u128` and collecting a `BTreeMap` change no number.
pub mod Heaviest
pub mod Bounds
pub mod Tracker
pub mod Feed
use Prim.Native.Nat.{compare as compare_ℕ, Ordering}
use Prim.Native.String.{compare, then as then_with, count, [] as empty_text, ◌∷◌ as ◌⊳◌}
use nestwatch.Common.{
  ℕ, zero, suc, ◌+◌, ◌-◌, ◌*◌, ◌/◌, ◌≤◌, min, max, String, Bool, true, false, not, ◌&&◌, Option,
  none, some, List, [], ◌∷◌, all, length, take, retain, leb, ltb, ◌==◌, if◌then◌else◌, sat64,
  unwrap_or, u64_max,
}
use nestwatch.Common.Keyed.{string_keys, lookup, insert, map_values}
use nestwatch.Tally.{charge}

abbrev pub max_pages : ℕ
max_pages = 40

abbrev pub max_apps : ℕ
max_apps = 200

abbrev pub max_key_chars : ℕ
max_key_chars = 512

pub record Sample : Type 0 where
  pub apps : List (String × ℕ)
  pub pages : List (String × ℕ)
  pub web : List (String × ℕ)

-- The text before the n-th character, or the whole.
unfoldable pub cut : ℕ → String → String
cut zero s = empty_text
cut (suc n) empty_text = empty_text
cut (suc n) (c ⊳ s) = c ⊳ cut n s

unfoldable pub accrue : List (String × ℕ) → List (String × ℕ) → List (String × ℕ)
accrue running [] = running
accrue running ((name, secs) ∷ bounded) = accrue (charge name secs running) bounded

abbrev pub cut_keys : List (String × ℕ) → List (String × ℕ)
cut_keys [] = []
cut_keys ((name, secs) ∷ m) = (cut max_key_chars name, secs) ∷ cut_keys m

-- The names that are cut to one text add up.
unfoldable pub truncate_keys : List (String × ℕ) → List (String × ℕ)
truncate_keys m = if all (λ x. leb (count x.0) max_key_chars) m then m else accrue [] (cut_keys m)

-- `b.1.cmp(&a.1).then_with(|| a.0.cmp(&b.0))` says `Less` or `Equal`.
abbrev pub before : String × ℕ → String × ℕ → Bool
before a b = elim (then_with (compare_ℕ b.1 a.1) (compare a.0 b.0)) [
  | Ordering.gt ↦ false
  | _ ↦ true
]

-- `sort_by`.
unfoldable pub insert_sorted : String × ℕ → List (String × ℕ) → List (String × ℕ)
insert_sorted x [] = x ∷ []
insert_sorted x (y ∷ ys) =
    let rest = insert_sorted x ys in if before x y then x ∷ y ∷ ys else y ∷ rest

unfoldable pub sort_heaviest : List (String × ℕ) → List (String × ℕ)
sort_heaviest [] = []
sort_heaviest (x ∷ xs) = insert_sorted x (sort_heaviest xs)

unfoldable pub retain_top : List (String × ℕ) → ℕ → List (String × ℕ)
retain_top m n = if leb (length m) n then m else take n (sort_heaviest m)

unfoldable pub accrue_capped : List (String × ℕ) → List (String × ℕ) → ℕ → List (String × ℕ)
accrue_capped running bounded cap = retain_top (accrue running bounded) cap

-- `values().sum()`.
unfoldable pub claimed_secs : List (String × ℕ) → ℕ
claimed_secs [] = 0
claimed_secs ((name, secs) ∷ m) = secs + claimed_secs m

-- `u64::try_from(scaled).unwrap_or(elapsed_secs)`.
abbrev pub scaled_secs : ℕ → ℕ → ℕ → ℕ
scaled_secs elapsed claimed secs =
    let scaled = secs * elapsed / max claimed 1 in if leb scaled u64_max then scaled else elapsed

unfoldable pub bound : List (String × ℕ) → ℕ → List (String × ℕ)
bound m elapsed =
    if elapsed == 0
    then []
    else (let claimed = claimed_secs m in
        retain (λ x. ltb 0 x.1)
          (if ltb elapsed claimed then map_values (scaled_secs elapsed claimed) m else m))

unfoldable pub clamp : Sample → ℕ → Sample
clamp sample elapsed = record {
  apps = bound (truncate_keys sample.apps) elapsed;
  pages = retain_top (bound (truncate_keys sample.pages) elapsed) max_pages;
  web = retain_top (bound (truncate_keys sample.web) elapsed) max_pages;
}

-- Whether the session is idle, and until when its time counts.
unfoldable pub idle_state : (now_ms idle_ms idle_after_ms : ℕ) → Bool × ℕ
idle_state now_ms idle_ms idle_after_ms =
    if ltb idle_ms idle_after_ms
    then (false, now_ms)
    else (true, min (sat64 (now_ms - idle_ms) idle_after_ms) now_ms)
