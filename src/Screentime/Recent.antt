-- ===== src/Screentime/Recent.antt =====
-- The short list of daily totals (src/screentime.rs, `recent_totals`): of the rows of a date, the
-- largest count. A row is its date and minutes, if the line has both.
use nestwatch.Common.{
  ℕ, ◌<◌, ◌≡◌, refl, Option, none, some, List, [], ◌∷◌, map, max, leb, if◌then◌else◌, arith,
  Option-cases, inl, inr, ◌∙◌, ap, ==_iff, ◌==◌,
}
use nestwatch.Common.Keyed.{nat_keys, lookup, insert, lookup-insert}
use nestwatch.Screentime.{window_ending_yesterday, clamp_days}

pub record DayTotal : Type 0 where
  pub date : ℕ
  pub minutes : Option ℕ

-- `entry(date).and_modify(|m| *m = (*m).max(minutes)).or_insert(minutes)`.
unfoldable pub raise : ℕ → ℕ → List (ℕ × ℕ) → List (ℕ × ℕ)
raise date minutes m = elim (lookup date m) [
  | none ↦ insert date minutes m
  | some old ↦ insert date (max old minutes) m
]

unfoldable pub totals_by_date : (today : ℕ) → List (Option (ℕ × ℕ)) → List (ℕ × ℕ) → List (ℕ × ℕ)
totals_by_date today [] m = m
totals_by_date today (none ∷ rows) m = totals_by_date today rows m
totals_by_date today (some (date, minutes) ∷ rows) m =
    totals_by_date today rows (if leb today date then m else raise date minutes m)

unfoldable pub recent_totals : List (Option (ℕ × ℕ)) → (today days : ℕ) → List DayTotal
recent_totals rows today days =
    let by_date = totals_by_date today rows [] in
    map (λ date. record { date = date; minutes = lookup date by_date })
      (window_ending_yesterday today (clamp_days 31 days))

-- The largest count of a date, read off the rows.
abbrev pub more : Option ℕ → ℕ → Option ℕ
more none minutes = some minutes
more (some old) minutes = some (max old minutes)

unfoldable pub largest : ℕ → List (Option (ℕ × ℕ)) → Option ℕ → Option ℕ
largest date [] best = best
largest date (none ∷ rows) best = largest date rows best
largest date (some (d, minutes) ∷ rows) best =
    largest date rows (if d == date then more best minutes else best)

lookup-raise :
    (k date minutes : ℕ) (m : List (ℕ × ℕ))
    → lookup k (raise date minutes m)
      ≡ (if date == k then more (lookup k m) minutes else lookup k m)
unfolding raise
lookup-raise k date minutes m = elim (Option-cases (lookup date m)) [
  | inl new ↦ rw (raise, new) (ground (arith, new, lookup-insert date k minutes m, ==_iff date k))
  | inr (old, known) ↦
      rw (raise, known)
        (ground (arith, known, lookup-insert date k (max old minutes) m, ==_iff date k))
]

-- A past date has the largest count of its rows, whatever their order, and no count if it has no row.
pub lookup-totals_by_date :
    (today date : ℕ) (rows : List (Option (ℕ × ℕ))) (m : List (ℕ × ℕ))
    → date < today
    → lookup date (totals_by_date today rows m) ≡ largest date rows (lookup date m)
unfolding totals_by_date largest
lookup-totals_by_date today date [] m past = refl
lookup-totals_by_date today date (none ∷ rows) m past = lookup-totals_by_date today date rows m past
lookup-totals_by_date today date (some (d, minutes) ∷ rows) m past =
    lookup-totals_by_date today date rows (if leb today d then m else raise d minutes m) past
    ∙ ap (largest date rows) (ground (arith, lookup-raise date d minutes m))
