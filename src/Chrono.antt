-- ===== src/Chrono.antt =====
-- What the program uses of the chrono crate, which is not part of the repository: moments in
-- local time, days of the week and the reading of a time of day. The operations are parameters,
-- with the documented facts that the theorems use as laws. Times are numbers of nanoseconds.
use nestwatch.Common.{ℕ, suc, ◌+◌, ◌*◌, ◌/◌, ◌%◌, ◌<◌, ◌≡◌, String, Option, some}

pub data Weekday : Type 0 where
  mon tue wed thu fri sat sun : Weekday

abbrev pub second : ℕ
second = 1_000_000_000

abbrev pub minute : ℕ
minute = 60_000_000_000

abbrev pub day_length : ℕ
day_length = 86_400_000_000_000

-- `DateTime<FixedOffset>`: the instant in UTC, by which two of them compare, and the reading of
-- the local clock, which gives the date and the time. An addition moves both.
pub record DateTime : Type 0 where
  pub utc : ℕ
  pub local : ℕ

abbrev pub plus_minutes : DateTime → ℕ → DateTime
plus_minutes at m = record { utc = at.utc + m * minute; local = at.local + m * minute }

-- The date is the number of the local day, and the time is counted from its midnight.
abbrev pub date : DateTime → ℕ
date at = at.local / day_length

abbrev pub time : DateTime → ℕ
time at = at.local % day_length

pub record Chrono : Type 0 where
  pub weekday : ℕ → Weekday
  pub pred : Weekday → Weekday
  pub num_days_from_monday : Weekday → ℕ
  pub trim : String → String
  pub parse_from_str : String → Option ℕ
  pub pred-weekday : (d : ℕ) → pred (weekday (suc d)) ≡ weekday d
  pub parse_range : (s : String) (t : ℕ) → parse_from_str s ≡ some t → t < day_length
