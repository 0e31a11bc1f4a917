-- ===== src/Screentime/Window.antt =====
-- The window of a report: its dates, and its total as the sum over its days (src/screentime.rs).
use nestwatch.Common.{
  ℕ, zero, suc, ◌+◌, ◌-◌, ◌*◌, ◌≤◌, ◌<◌, ◌≡◌, refl, sym, ◌∙◌, Bool, ◌&&◌, Option, none, some, List,
  [], ◌∷◌, map, length, count, leb, ◌==◌, ==_iff, if◌then◌else◌, arith, Bool-cases, inl, inr,
  unwrap_or,
}
use nestwatch.Common.Keyed.{nat_keys, lookup, IsMap, Fresh, lookup-Fresh}
use nestwatch.Screentime.{
  ParsedRow, DayRow, measured_row, unmeasured_row, day_row, dates_from, window_ending_yesterday,
  range, sum_minutes, window_total, rows_by_date, build_report, clamp_days,
}
use nestwatch.Screentime.Best.{rows_by_date-Ascending, Ascending-IsMap}

-- How often a date stands in a list.
abbrev pub times : ℕ → List ℕ → ℕ
times d ds = count (λ x. x == d) ds

abbrev within : ℕ → ℕ → ℕ → Bool
within lo hi d = leb lo d && leb d hi

times-dates_from :
    (d start last n : ℕ)
    → start ≤ last
    → last < start + n
    → times d (dates_from start last n) ≡ (if within start last d then 1 else 0)
unfolding dates_from
times-dates_from d start last zero le enough = absurd (omega arith)
times-dates_from d start last (suc n) le enough = elim (Bool-cases (leb (suc start) last)) [
  | inl more ↦
      ground (arith, more, times-dates_from d (suc start) last n (ground arith) (omega arith))
  | inr done ↦ ground (arith, done)
]

-- A window of `days` days that ends yesterday has each of its dates once, and no other.
pub times-window_ending_yesterday :
    (d yesterday days : ℕ)
    → 1 ≤ days
    → times d (window_ending_yesterday (suc yesterday) days)
      ≡ (if within (yesterday - (days - 1)) yesterday d then 1 else 0)
unfolding window_ending_yesterday
times-window_ending_yesterday d yesterday days le =
    times-dates_from d (yesterday - (days - 1)) yesterday days (omega arith) (omega arith)

module _ (weight : ParsedRow → ℕ) where
  unfoldable weight_at : List (ℕ × ParsedRow) → ℕ → ℕ
  weight_at m d = elim (lookup d m) [ none ↦ 0 | some row ↦ weight row ]

  abbrev sum_at : List (ℕ × ParsedRow) → List ℕ → ℕ
  sum_at m [] = 0
  sum_at m (d ∷ ds) = weight_at m d + sum_at m ds

  abbrev sum_by : List (ℕ × ParsedRow) → ℕ
  sum_by [] = 0
  sum_by ((d, r) ∷ m) = weight r + sum_by m

  weight_at-cons :
      (d e : ℕ) (r : ParsedRow) (m : List (ℕ × ParsedRow))
      → Fresh e m
      → weight_at ((e, r) ∷ m) d ≡ (if d == e then weight r else 0) + weight_at m d
  unfolding lookup weight_at
  weight_at-cons d e r m fresh = ground (arith, ==_iff e d, lookup-Fresh e m fresh)

  sum_at-cons :
      (e : ℕ) (r : ParsedRow) (m : List (ℕ × ParsedRow)) (ds : List ℕ)
      → Fresh e m
      → sum_at ((e, r) ∷ m) ds ≡ times e ds * weight r + sum_at m ds
  sum_at-cons e r m [] fresh = omega arith
  sum_at-cons e r m (d ∷ ds) fresh = elim (Bool-cases (d == e)) [
    | inl same ↦
        rw same (grind (arith, same, weight_at-cons d e r m fresh, sum_at-cons e r m ds fresh))
    | inr other ↦ ground (arith, other, weight_at-cons d e r m fresh, sum_at-cons e r m ds fresh)
  ]

  sum_at-range :
      (lo hi : ℕ) (ds : List ℕ) (m : List (ℕ × ParsedRow))
      → ((d : ℕ) → times d ds ≡ (if within lo hi d then 1 else 0))
      → IsMap m
      → sum_at m ds ≡ sum_by (range lo hi m)
  unfolding lookup weight_at
  sum_at-range lo hi ds [] once h = nothing ds
    where
      nothing : (es : List ℕ) → sum_at [] es ≡ 0
      nothing [] = refl
      nothing (d ∷ es) = omega (arith, nothing es)
  sum_at-range lo hi ds ((e, r) ∷ m) once h =
      ground (arith, once e, sum_at-cons e r m ds h.0, sum_at-range lo hi ds m once h.1)

  sum_by-window :
      (rows : List (Option (ℕ × ParsedRow))) (yesterday days : ℕ)
      → 1 ≤ days
      → sum_by (range (yesterday - (days - 1)) yesterday (rows_by_date (suc yesterday) rows []))
        ≡ sum_at
            (rows_by_date (suc yesterday) rows [])
            (window_ending_yesterday (suc yesterday) days)
  sum_by-window rows yesterday days le =
      let m = rows_by_date (suc yesterday) rows [] in
      sym (
        sum_at-range (yesterday - (days - 1)) yesterday
          (window_ending_yesterday (suc yesterday) days) m
          (λ d. times-window_ending_yesterday d yesterday days le)
          (Ascending-IsMap m (rows_by_date-Ascending (suc yesterday) rows [] tt)))

sum_by-minutes : (m : List (ℕ × ParsedRow)) → sum_by (λ r. r.minutes_used) m ≡ sum_minutes m
sum_by-minutes [] = refl
sum_by-minutes ((d, r) ∷ m) = omega (arith, sum_by-minutes m)

sum_by-length : (m : List (ℕ × ParsedRow)) → sum_by (λ r. 1) m ≡ length m
sum_by-length [] = refl
sum_by-length ((d, r) ∷ m) = omega (arith, sum_by-length m)

-- The minutes that the days of a report show, and how many of them are measured.
abbrev pub shown_mins : List DayRow → ℕ
shown_mins [] = 0
shown_mins (day ∷ days) = unwrap_or day.minutes_used 0 + shown_mins days

abbrev pub shown_measured : List DayRow → ℕ
shown_measured days = count (λ day. day.measured) days

shown_mins-days :
    (m : List (ℕ × ParsedRow)) (ds : List ℕ)
    → shown_mins (map (day_row m) ds) ≡ sum_at (λ r. r.minutes_used) m ds
unfolding weight_at measured_row unmeasured_row
shown_mins-days m [] = refl
shown_mins-days m (d ∷ ds) = ground (arith, shown_mins-days m ds)

shown_measured-days :
    (m : List (ℕ × ParsedRow)) (ds : List ℕ)
    → shown_measured (map (day_row m) ds) ≡ sum_at (λ r. 1) m ds
unfolding weight_at measured_row unmeasured_row
shown_measured-days m [] = refl
shown_measured-days m (d ∷ ds) = ground (arith, shown_measured-days m ds)

times-day_rows :
    (d : ℕ) (m : List (ℕ × ParsedRow)) (ds : List ℕ)
    → count (λ (day : DayRow). day.date == d) (map (day_row m) ds) ≡ times d ds
unfolding measured_row unmeasured_row
times-day_rows d m [] = refl
times-day_rows d m (e ∷ ds) = ground (arith, times-day_rows d m ds)

-- The headline of a report and its chart agree: the total is the sum of the minutes that its days
-- show, the count is that of its measured days, and each date of the window is shown once.
pub build_report-days :
    (rows : List (Option (ℕ × ParsedRow))) (yesterday days d : ℕ)
    → (let report = build_report rows (suc yesterday) days in
        let first = yesterday - (clamp_days 365 days - 1) in
        (report.total_mins ≡ shown_mins report.days)
        × (report.measured_days ≡ shown_measured report.days)
        × (count (λ (day : DayRow). day.date == d) report.days
            ≡ (if leb first d && leb d yesterday then 1 else 0)))
unfolding build_report window_total
build_report-days rows yesterday days d =
    let n = clamp_days 365 days in
    let m = rows_by_date (suc yesterday) rows [] in
    let ds = window_ending_yesterday (suc yesterday) n in
    let in_range = range (yesterday - (n - 1)) yesterday m in
    (
      sym (sum_by-minutes in_range)
          ∙ sum_by-window (λ r. r.minutes_used) rows yesterday n (omega arith)
          ∙ sym (shown_mins-days m ds),
      sym (sum_by-length in_range)
          ∙ sum_by-window (λ r. 1) rows yesterday n (omega arith)
          ∙ sym (shown_measured-days m ds),
      times-day_rows d m ds ∙ times-window_ending_yesterday d yesterday n (omega arith),
    )
