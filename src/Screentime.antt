-- ===== src/Screentime.antt =====
-- The daily report of screen time (src/screentime.rs): the roll-ups of the log, one row a date, and the
-- totals of a window that ends yesterday. A date is the number of its day, from the first date of the
-- calendar; the rows are what `parse_row` made of each line. Sums of minutes are unbounded here. The
-- change in percent is not modelled.
pub mod Window
pub mod Best
pub mod Totals
pub mod Recent
pub mod FirstSeen
use nestwatch.Common.{
  ℕ, zero, suc, ◌+◌, ◌-◌, ◌/◌, ◌≤◌, min, max, String, Bool, true, false, not, ◌&&◌, ◌||◌, Option,
  none, some, List, [], ◌∷◌, map, length, take, retain, count, leb, ltb, ◌==◌, if◌then◌else◌,
  unwrap_or, is_some_and,
}
use nestwatch.Common.Keyed.{nat_keys, string_keys, lookup, insert, mem?}
use nestwatch.Foreground.{sort_heaviest}

-- The minutes of a name.
abbrev pub AppMinutes : Type 0
AppMinutes = String × ℕ

unfoldable pub sort_heaviest_first : List AppMinutes → List AppMinutes
sort_heaviest_first apps = sort_heaviest apps

pub record ParsedRow : Type 0 where
  pub minutes_used : ℕ
  pub budget : Option ℕ
  pub apps : List AppMinutes
  pub focused : List AppMinutes
  pub pages : List AppMinutes
  pub groups : List AppMinutes

pub record DayRow : Type 0 where
  pub date : ℕ
  pub measured : Bool
  pub minutes_used : Option ℕ
  pub budget : Option ℕ
  pub over_budget : Bool
  pub apps : List AppMinutes
  pub focused : List AppMinutes
  pub pages : List AppMinutes
  pub groups : List AppMinutes

unfoldable pub measured_row : ℕ → ParsedRow → DayRow
measured_row date row = record {
  date = date;
  measured = true;
  minutes_used = some row.minutes_used;
  budget = row.budget;
  over_budget = is_some_and (λ b. ltb 0 b && ltb b row.minutes_used) row.budget;
  apps = row.apps;
  focused = row.focused;
  pages = row.pages;
  groups = row.groups;
}

unfoldable pub unmeasured_row : ℕ → DayRow
unmeasured_row date = record {
  date = date;
  measured = false;
  minutes_used = none;
  budget = none;
  over_budget = false;
  apps = [];
  focused = [];
  pages = [];
  groups = [];
}

abbrev pub is_empty : List AppMinutes → Bool
is_empty [] = true
is_empty (x ∷ xs) = false

-- `detail`, a tuple that is compared from the left; `false` is below `true`.
unfoldable pub detail : ParsedRow → Bool × Bool × ℕ
detail row = (
  not (is_empty row.groups),
  not (is_empty row.focused) || not (is_empty row.pages),
  length row.apps + length row.focused + length row.pages + length row.groups,
)

abbrev pub same_bool : Bool → Bool → Bool
same_bool true b = b
same_bool false b = not b

-- `existing.detail() >= parsed.detail()`.
unfoldable pub at_least : Bool × Bool × ℕ → Bool × Bool × ℕ → Bool
at_least (a, b, n) (c, d, m) = if same_bool a c then (if same_bool b d then leb m n else b) else a

-- `insert` into the `BTreeMap`, which is kept in the order of its dates.
unfoldable pub put : ℕ → ParsedRow → List (ℕ × ParsedRow) → List (ℕ × ParsedRow)
put date row [] = (date, row) ∷ []
put date row ((d, r) ∷ m) =
    let rest = put date row m in
    if date == d
    then (date, row) ∷ m
    else if ltb date d
    then (date, row) ∷ (d, r) ∷ m
    else (d, r) ∷ rest

-- A row of a date takes the place of one with less detail.
unfoldable pub keep_best : ℕ → ParsedRow → List (ℕ × ParsedRow) → List (ℕ × ParsedRow)
keep_best date row m = elim (lookup date m) [
  | none ↦ put date row m
  | some existing ↦ if at_least (detail existing) (detail row) then m else put date row m
]

unfoldable pub rows_by_date :
    (today : ℕ) → List (Option (ℕ × ParsedRow)) → List (ℕ × ParsedRow) → List (ℕ × ParsedRow)
rows_by_date today [] m = m
rows_by_date today (none ∷ rows) m = rows_by_date today rows m
rows_by_date today (some (date, row) ∷ rows) m =
    rows_by_date today rows (if leb today date then m else keep_best date row m)

-- `successors(start, ..).take(days)`, each date at most `last`.
unfoldable pub dates_from : ℕ → ℕ → ℕ → List ℕ
dates_from start last zero = []
dates_from start last (suc n) =
    let rest = dates_from (suc start) last n in start ∷ (if leb (suc start) last then rest else [])

unfoldable pub window_ending_yesterday : ℕ → ℕ → List ℕ
window_ending_yesterday zero days = []
window_ending_yesterday (suc yesterday) days = dates_from (yesterday - (days - 1)) yesterday days

-- `by_date.range(from..=to)`.
abbrev pub range : ℕ → ℕ → List (ℕ × ParsedRow) → List (ℕ × ParsedRow)
range lo hi m = retain (λ x. leb lo x.0 && leb x.0 hi) m

abbrev pub sum_minutes : List (ℕ × ParsedRow) → ℕ
sum_minutes [] = 0
sum_minutes ((d, r) ∷ m) = r.minutes_used + sum_minutes m

unfoldable pub window_total : List (ℕ × ParsedRow) → ℕ → ℕ → ℕ × ℕ
window_total by_date lo hi = (sum_minutes (range lo hi by_date), length (range lo hi by_date))

abbrev pub clamp_days : ℕ → ℕ → ℕ
clamp_days most days = min (max days 1) most

abbrev pub day_row : List (ℕ × ParsedRow) → ℕ → DayRow
day_row by_date date = elim (lookup date by_date) [
  | some row ↦ measured_row date row
  | none ↦ unmeasured_row date
]

abbrev pub top_over_window : ℕ
top_over_window = 25

-- `*sums.entry(name).or_insert(0) += minutes`.
unfoldable pub add_entries : List AppMinutes → List AppMinutes → List AppMinutes
add_entries [] sums = sums
add_entries ((name, minutes) ∷ entries) sums =
    add_entries entries (insert name (unwrap_or (lookup name sums) 0 + minutes) sums)

unfoldable pub add_days :
    (DayRow → List AppMinutes) → List DayRow → List AppMinutes → List AppMinutes
add_days pick [] sums = sums
add_days pick (day ∷ days) sums =
    add_days pick days (if not day.measured then sums else add_entries (pick day) sums)

unfoldable pub totals_across : List DayRow → (DayRow → List AppMinutes) → List AppMinutes
totals_across days pick = take top_over_window (sort_heaviest_first (add_days pick days []))

-- The report, but for the change in percent and what was seen for the first time.
pub record Report : Type 0 where
  pub days : List DayRow
  pub total_mins : ℕ
  pub measured_days : ℕ
  pub daily_avg_mins : Option ℕ
  pub prev_total_mins : Option ℕ
  pub app_totals : List AppMinutes
  pub focus_totals : List AppMinutes
  pub page_totals : List AppMinutes
  pub group_totals : List AppMinutes
  pub history_from : Option ℕ

-- The total of the window before, where it has a measured day; there is none before the first date.
abbrev pub previous_total : List (ℕ × ParsedRow) → (start span : ℕ) → Option ℕ
previous_total by_date zero span = none
previous_total by_date (suc prev_end) span =
    let previous = window_total by_date (prev_end - span) prev_end in
    if ltb 0 previous.1 then some previous.0 else none

abbrev pub first_date : List (ℕ × ParsedRow) → Option ℕ
first_date [] = none
first_date ((d, r) ∷ m) = some d

unfoldable pub build_report : List (Option (ℕ × ParsedRow)) → (today days : ℕ) → Report
build_report rows zero days = record {
  days = [];
  total_mins = 0;
  measured_days = 0;
  daily_avg_mins = none;
  prev_total_mins = none;
  app_totals = [];
  focus_totals = [];
  page_totals = [];
  group_totals = [];
  history_from = none;
}
build_report rows (suc yesterday) days =
    let span = clamp_days 365 days - 1 in
    let by_date = rows_by_date (suc yesterday) rows [] in
    let start = yesterday - span in
    let day_rows =
      map (day_row by_date) (window_ending_yesterday (suc yesterday) (clamp_days 365 days)) in
    let total = window_total by_date start yesterday in
    record {
      days = day_rows;
      total_mins = total.0;
      measured_days = total.1;
      daily_avg_mins = if ltb 0 total.1 then some (total.0 / total.1) else none;
      prev_total_mins = previous_total by_date start span;
      app_totals = totals_across day_rows (λ d. d.apps);
      focus_totals = totals_across day_rows (λ d. d.focused);
      page_totals = totals_across day_rows (λ d. d.pages);
      group_totals = totals_across day_rows (λ d. d.groups);
      history_from = first_date by_date;
    }
