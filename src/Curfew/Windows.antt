-- ===== src/Curfew/Windows.antt =====
-- A window belongs to the day on which it opens (`window_active` of src/curfew.rs).
use nestwatch.Common.{ℕ, ◌+◌, ◌-◌, ◌*◌, ◌≤◌, ◌<◌, ◌≡◌, ◌≢◌, true, some, ltb, if◌then◌else◌}
use nestwatch.Chrono.{day_length, Chrono}
use nestwatch.Curfew.{Window, includes, parse_hm}

-- How long after the midnight of its opening day a window closes.
abbrev pub closing : ℕ → ℕ → ℕ
closing start end = if ltb start end then end else end + day_length

module _ (chrono : Chrono) (w : Window) where
  -- On a selected day `day` the window opened at or before `local`, and has not yet closed.
  pub record Covers (local : ℕ) : Type 0 where
    pub start : ℕ
    pub end : ℕ
    pub day : ℕ
    pub starts : parse_hm chrono w.start ≡ some start
    pub ends : parse_hm chrono w.end ≡ some end
    pub selected : includes w.days (chrono.weekday day) ≡ true
    pub nonempty : start ≢ end
    pub opened : day * day_length + start ≤ local
    pub not_closed : local < day * day_length + closing start end

  -- The day to which an open window belongs: today, or yesterday before its closing time.
  opening_day : ℕ → ℕ → ℕ → ℕ → ℕ
  opening_day start end now n = if ltb start end then n else if ltb now start then n - 1 else n
