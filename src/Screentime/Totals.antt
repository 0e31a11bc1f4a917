-- ===== src/Screentime/Totals.antt =====
-- The totals of a name over the measured days of a window (src/screentime.rs, `totals_across`).
use nestwatch.Common.{
  ℕ, ◌+◌, ◌≤◌, ◌≡◌, String, true, false, not, none, some, List, [], ◌∷◌, length, length-take-le,
  if◌then◌else◌, arith, Option-cases, inl, inr, unwrap_or,
}
use nestwatch.Common.Keyed.{string_keys, ◌=?◌, lookup, insert, lookup-insert, IsMap, insert-IsMap}
use nestwatch.Foreground.{sort_heaviest}
use nestwatch.Foreground.Heaviest.{lookup-sort, lookup-take, take-heavier, sort-Descending}
use nestwatch.Screentime.{
  AppMinutes, DayRow, add_entries, add_days, totals_across, sort_heaviest_first, top_over_window,
}

-- The minutes of a name in a list, and over the measured days.
abbrev pub minutes_in : String → List AppMinutes → ℕ
minutes_in name [] = 0
minutes_in name ((j, minutes) ∷ entries) =
    (if j =? name then minutes else 0) + minutes_in name entries

abbrev pub minutes_over : (DayRow → List AppMinutes) → String → List DayRow → ℕ
minutes_over pick name [] = 0
minutes_over pick name (day ∷ days) =
    (if day.measured then minutes_in name (pick day) else 0) + minutes_over pick name days

abbrev value : String → List AppMinutes → ℕ
value name m = unwrap_or (lookup name m) 0

value-add_entries :
    (name : String) (entries sums : List AppMinutes)
    → value name (add_entries entries sums) ≡ value name sums + minutes_in name entries
unfolding add_entries
value-add_entries name [] sums = omega arith
value-add_entries name ((j, minutes) ∷ entries) sums =
    let sums' = insert j (unwrap_or (lookup j sums) 0 + minutes) sums in
    ground (
      arith,
      value-add_entries name entries sums',
      lookup-insert j name (unwrap_or (lookup j sums) 0 + minutes) sums,
      string_keys.beq_iff j name,
    )

add_entries-IsMap : (entries sums : List AppMinutes) → IsMap sums → IsMap (add_entries entries sums)
unfolding add_entries
add_entries-IsMap [] sums h = h
add_entries-IsMap ((j, minutes) ∷ entries) sums h =
    add_entries-IsMap entries (insert j (unwrap_or (lookup j sums) 0 + minutes) sums)
      (insert-IsMap j (unwrap_or (lookup j sums) 0 + minutes) sums h)

module _ (pick : DayRow → List AppMinutes) where
  value-add_days :
      (name : String) (days : List DayRow) (sums : List AppMinutes)
      → value name (add_days pick days sums) ≡ value name sums + minutes_over pick name days
  unfolding add_days
  value-add_days name [] sums = omega arith
  value-add_days name (day ∷ days) sums =
      let next = if not day.measured then sums else add_entries (pick day) sums in
      ground (arith, value-add_days name days next, value-add_entries name (pick day) sums)

  add_days-IsMap :
      (days : List DayRow) (sums : List AppMinutes) → IsMap sums → IsMap (add_days pick days sums)
  unfolding add_days
  add_days-IsMap [] sums h = h
  add_days-IsMap (day ∷ days) sums h =
      add_days-IsMap days (if not day.measured then sums else add_entries (pick day) sums)
        (elim day.measured as (λ b. IsMap (if not b then sums else add_entries (pick day) sums)) [
          | true ↦ add_entries-IsMap (pick day) sums h
          | false ↦ h
        ])

  -- A listed name has its minutes of all the measured days, at most 25 names are listed, and a name
  -- that is not listed has no more minutes than one that is.
  pub totals_across-Heaviest :
      (days : List DayRow) (name other : String) (minutes : ℕ)
      → lookup name (totals_across days pick) ≡ some minutes
      → lookup other (totals_across days pick) ≡ none
      → (minutes ≡ minutes_over pick name days)
        × (minutes_over pick other days ≤ minutes)
        × (length (totals_across days pick) ≤ top_over_window)
  unfolding totals_across sort_heaviest_first lookup
  totals_across-Heaviest days name other minutes listed left =
      let sums = add_days pick days [] in
      let is_map = add_days-IsMap days [] tt in
      (
        ground (
          arith,
          value-add_days name days [],
          lookup-sort name sums is_map,
          lookup-take name minutes top_over_window (sort_heaviest sums),
        ),
        elim (Option-cases (lookup other sums)) [
          | inl absent ↦ ground (arith, value-add_days other days [], absent)
          | inr (w, found) ↦ ground (
            arith,
            value-add_days other days [],
            found,
            lookup-sort other sums is_map,
            take-heavier name other minutes w top_over_window (sort_heaviest sums)
                (sort-Descending sums),
          )
        ],
        length-take-le top_over_window (sort_heaviest sums),
      )
