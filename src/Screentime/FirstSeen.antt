-- ===== src/Screentime/FirstSeen.antt =====
-- What was in the foreground for the first time (`first_seen_in` of src/screentime.rs). A set of
-- names is a list without repetition.
pub mod New
use nestwatch.Common.{
  ℕ, suc, ◌≡◌, refl, sym, ap, ◌∙◌, String, Bool, true, false, not, ◌||◌, Option, none, some, List,
  [], ◌∷◌, length, retain, any, take, ltb, ◌==◌, if◌then◌else◌, arith, inl, inr, Bool-cases,
  Option-cases, ◌⊎◌, All, some_injective,
}
use nestwatch.Common.Keyed.{◌=?◌, string_keys, mem?}
use nestwatch.Foreground.{sort_heaviest, insert_sorted, before}
use nestwatch.Screentime.{ParsedRow, AppMinutes, is_empty, sort_heaviest_first}

abbrev pub max_baseline_apps : ℕ
max_baseline_apps = 2000

abbrev pub top_first_seen : ℕ
top_first_seen = 8

pub record FirstSeen : Type 0 where
  pub date : ℕ
  pub apps : List AppMinutes
  pub count : ℕ
  pub baseline_days : ℕ
  pub baseline_overflow : Bool

-- `iter().rev().find(..)`: the last day on which anything was in the foreground.
unfoldable pub last_focused : List (ℕ × ParsedRow) → Option (ℕ × ParsedRow)
last_focused [] = none
last_focused ((date, row) ∷ history) = elim (last_focused history) [
  | some later ↦ some later
  | none ↦ if is_empty row.focused then none else some (date, row)
]

abbrev pub added : String → List String → List String
added name names = if mem? name names then names else name ∷ names

-- The names of a day put to the baseline; `none` once it is too large.
unfoldable pub add_day : List AppMinutes → List String → Option (List String)
add_day [] baseline = some baseline
add_day ((name, minutes) ∷ focused) baseline =
    let larger = added name baseline in
    let rest = add_day focused larger in
    if ltb max_baseline_apps (length larger) then none else rest

-- The loop over the earlier days: their names and how many of them count. Where the baseline is too
-- large, the days counted so far, with the one it happens on.
unfoldable pub baseline_of : List (ℕ × ParsedRow) → List String → ℕ → Option (List String) × ℕ
baseline_of [] baseline days = (some baseline, days)
baseline_of ((date, row) ∷ history) baseline days = elim (is_empty row.focused) [
  | true ↦ baseline_of history baseline days
  | false ↦ elim (add_day row.focused baseline) [
    | none ↦ (none, suc days)
    | some larger ↦ baseline_of history larger (suc days)
  ]
]

abbrev pub unseen : List String → List AppMinutes → List AppMinutes
unseen baseline focused = retain (λ a. not (mem? a.0 baseline)) focused

abbrev pub found_on : ℕ → List AppMinutes → Option (List String) × ℕ → Option FirstSeen
found_on date focused (none, days) =
    some
      (record { date = date; apps = []; count = 0; baseline_days = days; baseline_overflow = true })
found_on date focused (some baseline, days) =
    let fresh = sort_heaviest_first (unseen baseline focused) in
    if days == 0
    then none
    else some (record {
      date = date;
      apps = take top_first_seen fresh;
      count = length fresh;
      baseline_days = days;
      baseline_overflow = false;
    })

-- `history.range(..target)`.
abbrev pub earlier_than : ℕ → List (ℕ × ParsedRow) → List (ℕ × ParsedRow)
earlier_than target history = retain (λ x. ltb x.0 target) history

unfoldable pub first_seen_in : List (ℕ × ParsedRow) → Option FirstSeen
first_seen_in history = elim (last_focused history) [
  | none ↦ none
  | some (target, row) ↦
      found_on target row.focused (baseline_of (earlier_than target history) [] 0)
]
