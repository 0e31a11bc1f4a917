-- ===== src/Usage.antt =====
-- The day's tally (`Usage` and `PreRollover` of src/rules.rs), without what is stored of it on disk.
-- A date is the number of the day. Seconds are `u64`, minutes `u32`.
use nestwatch.Common.{
  ℕ, ◌-◌, ◌/◌, String, Bool, false, Option, none, some, List, [], min, ltb, if◌then◌else◌, same_day,
  u32_max,
}
use nestwatch.Refusals
use nestwatch.Refusals.{Refused}

pub record Usage : Type 0 where
  pub day : Option ℕ
  pub total_secs : ℕ
  pub per_app_secs : List (String × ℕ)
  pub per_group_secs : List (String × ℕ)
  pub per_group_web_secs : List (String × ℕ)
  pub foreground_secs : List (String × ℕ)
  pub page_secs : List (String × ℕ)
  pub refused : Refused
  pub unmeasured : Bool

-- `Default::default()` with the given day.
abbrev pub fresh : Option ℕ → Usage
fresh day = record {
  day = day;
  total_secs = 0;
  per_app_secs = [];
  per_group_secs = [];
  per_group_web_secs = [];
  foreground_secs = [];
  page_secs = [];
  refused = Refusals.default;
  unmeasured = false;
}

unfoldable pub read_on : Usage → ℕ → Usage
read_on u today = if same_day u.day today then u else fresh (some today)

-- `u32::try_from(total_secs / 60).unwrap_or(u32::MAX)`.
unfoldable pub used_mins : Usage → ℕ
used_mins u = min (u.total_secs / 60) u32_max

-- A budget of 0 is no limit.
unfoldable pub remaining_mins : Usage → ℕ → Option ℕ
unfolding used_mins
remaining_mins u budget = if ltb 0 budget then some (budget - used_mins u) else none
