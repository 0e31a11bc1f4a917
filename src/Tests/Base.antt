-- ===== src/Tests/Base.antt =====
-- The data of the examples: a calendar, operations on text, a day's rules and its processes.
use nestwatch.Common.{
  ℕ, zero, suc, ◌+◌, ◌<◌, ◌*◌, ◌≡◌, refl, String, true, false, Option, none, some, List, [], ◌∷◌,
  if◌then◌else◌, arith,
}
use nestwatch.Common.Keyed.{◌=?◌, string_keys}
use nestwatch.Chrono.{
  Weekday, mon, tue, wed, thu, fri, sat, sun, Chrono, DateTime, day_length, second, minute,
}
use nestwatch.Text.{Text}
use nestwatch.Curfew.{Curfew, no_days}
use nestwatch.Usage.{Usage, fresh}
use nestwatch.Rules.{lock, Rules}
use nestwatch.Enforce.{RunningProcess, Tick, RulesEnforcer}
use nestwatch.Enforce.Notices.{Round}

abbrev next_day : Weekday → Weekday
next_day mon = tue
next_day tue = wed
next_day wed = thu
next_day thu = fri
next_day fri = sat
next_day sat = sun
next_day sun = mon

abbrev day_before : Weekday → Weekday
day_before mon = sun
day_before tue = mon
day_before wed = tue
day_before thu = wed
day_before fri = thu
day_before sat = fri
day_before sun = sat

abbrev day_of : ℕ → Weekday
day_of zero = mon
day_of (suc d) = next_day (day_of d)

pub before-next : (w : Weekday) → day_before (next_day w) ≡ w
before-next mon = refl
before-next tue = refl
before-next wed = refl
before-next thu = refl
before-next fri = refl
before-next sat = refl
before-next sun = refl

abbrev from_monday : Weekday → ℕ
from_monday mon = 0
from_monday tue = 1
from_monday wed = 2
from_monday thu = 3
from_monday fri = 4
from_monday sat = 5
from_monday sun = 6

abbrev reading : String → Option ℕ
reading s =
    if s =? "21:00"
    then some (21 * 60 * minute)
    else if s =? "07:00"
    then some (7 * 60 * minute)
    else none

pub reading-range : (s : String) (t : ℕ) → reading s ≡ some t → t < day_length
reading-range s t h = ground arith

abbrev pub calendar : Chrono
calendar = record {
  weekday = day_of;
  pred = day_before;
  num_days_from_monday = from_monday;
  trim = λ s. s;
  parse_from_str = reading;
  pred-weekday = λ d. before-next (day_of d);
  parse_range = reading-range;
}

abbrev pub ascii : Text
ascii = record {
  trim = λ s. s;
  to_lowercase = λ s. s;
  replace = λ s from to. s;
  strip_suffix = λ s suffix. none;
  contains = λ s part. s =? part;
  split_line = λ s. none;
  trim_percent = λ s. s;
  has_odd = λ s. false;
  chars = λ s. 4;
  is_empty = λ s. s =? "";
}

abbrev pub bedtime : Curfew
bedtime = record {
  enabled = true;
  start = "21:00";
  end = "07:00";
  warn_secs = 60;
  windows = record { start = "21:00"; end = "07:00"; days = no_days } ∷ [];
  extra_until = none;
}

-- A moment of the tenth day, in minutes of the day, with a clock that is set to UTC.
abbrev pub at_minute : ℕ → DateTime
at_minute m = record { utc = 10 * day_length + m * minute; local = 10 * day_length + m * minute }

abbrev pub schoolday : Rules
schoolday = record {
  enabled = true;
  daily_budget_mins = 60;
  budget_by_weekday = none;
  blocklist = "game" ∷ [];
  app_limits = ("chess", 30) ∷ [];
  app_groups =
      record { name = "Video"; apps = "tube" ∷ []; words = "film" ∷ []; limit_mins = 20 } ∷ [];
  warn_secs = 60;
  budget_action = lock;
}

abbrev pub running : List RunningProcess
running = record { pid = 7; name = "game" } ∷ record { pid = 8; name = "tube" } ∷ []

-- The tally after an hour of a day.
abbrev pub after_hour : Usage
after_hour = record (fresh (some 10)) { total_secs = 3600 }

abbrev pub on_day : ℕ → RulesEnforcer
on_day d = record {
  usage = record (fresh (some d)) { total_secs = 3600 };
  budget_deadline = none;
  last_reset = none;
  episode_warned = false;
  countdown = record { last = none };
  announced = [];
}

abbrev pub tick_at : ℕ → Tick
tick_at secs = record {
  now = secs * second;
  today = 10;
  interval = 30 * second;
  warn_for = 60 * second;
  slack = 30 * second;
  adjustments = record { extra = 0; gate_cap = none };
  active = true;
  web = [];
  child_processes = none;
  check_programs = [];
}

abbrev pub round_at : ℕ → Round
round_at secs = record { rules = schoolday; procs = running; tick = tick_at secs }
