-- ===== src/Tests/Hours.antt =====
-- The countdown, the counters and the clock on concrete readings.
use nestwatch.Common.{some, List, [], ◌∷◌}
use nestwatch.Common.Int.{pos}
use nestwatch.Refusals.{Refused, default, clock_change, day_reset}
use nestwatch.Refusals.Counting.{Event, refuse, tick}
use nestwatch.Clock.{Statics, Mark, EastOpt}
use nestwatch.Clock.HighWater.{Reading}

abbrev some_refused : Refused
some_refused = record default { clock_changes = 4294967295; wrong_passwords = 2 }

abbrev events : List Event
events = refuse clock_change ∷ tick ∷ refuse day_reset ∷ refuse day_reset ∷ []

-- A clock recorded at UTC+1 in one zone, at summer time, and a move of the zone to UTC.
abbrev any_offset : EastOpt
any_offset z = some z

abbrev installed : Statics
installed = record {
  anchor_mins = pos 60;
  anchor_zone = some "Europe/Amsterdam";
  high_water_mins = pos 60;
  last_logged = pos 60;
  clock_changes = 0;
}

abbrev summer : Reading
summer = record { observed = pos 120; zone = some "Europe/Amsterdam" }

abbrev moved : Reading
moved = record { observed = pos 0; zone = some "UTC" }

abbrev summer_mark : Mark
summer_mark = record { anchor = pos 60; high_water = pos 120 }

abbrev highest : Statics
highest = record installed { high_water_mins = pos 120 }
