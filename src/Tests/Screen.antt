-- ===== src/Tests/Screen.antt =====
-- Samples of the foreground and a report of three days.
use nestwatch.Common.{
  length, ltb, String, ℕ, ◌+◌, ◌-◌, ◌*◌, ◌≡◌, refl, true, false, Option, none, some, List, [], ◌∷◌,
  count as count_list, arith, leb, ◌&&◌, ◌==◌, if◌then◌else◌,
}
use nestwatch.Common.Keyed.{string_keys, nat_keys, mem?}
use nestwatch.Foreground.{Sample, clamp, sort_heaviest, insert_sorted}
use nestwatch.Foreground.Bounds.{IsClamped, clamp-IsClamped}
use nestwatch.Foreground.Tracker.{new}
use nestwatch.Foreground.Tracker.Banking.{
  Event, focuses, idles, drains, run, drained_secs, held, millis_of,
}
use nestwatch.Foreground.Tracker.Credit.{drained_secs-held, new-Tracks}
use nestwatch.Screentime.FirstSeen.{
  max_baseline_apps, FirstSeen, first_seen_in, last_focused, baseline_of, add_day,
}
use nestwatch.Screentime.FirstSeen.New.{LastFocused, NamesBefore, Lists, new_on, first_seen_in-new}
use nestwatch.Screentime.{
  ParsedRow, DayRow, build_report, sort_heaviest_first, measured_row, unmeasured_row, clamp_days,
}
use nestwatch.Screentime.Window.{shown_mins, shown_measured, build_report-days}

abbrev sample : Sample
sample = record { apps = ("a.exe", 90) ∷ ("b.exe", 30) ∷ []; pages = ("News", 70) ∷ []; web = [] }

clamp-IsClamped_example : IsClamped 60 (clamp sample 60)
clamp-IsClamped_example = clamp-IsClamped sample 60 (omega arith)

-- The editor has the foreground from 0 to 2500 and, idle from 3000, again until 9000.
abbrev events : List (ℕ × Event)
events =
    (0, focuses (some "editor.exe")) ∷ (2500, drains) ∷ (3000, idles true) ∷ (9000, drains) ∷ []

drained_secs-held_example :
    1000 * drained_secs "editor.exe" new events + millis_of "editor.exe" (run new events).millis
    ≡ millis_of "editor.exe" [] + held "editor.exe" none false 0 events
drained_secs-held_example =
    drained_secs-held "editor.exe" new none false 0 events (new-Tracks 0 none) (omega arith) refl

abbrev coarse : ParsedRow
coarse = record {
  minutes_used = 40;
  budget = some 60;
  apps = [];
  focused = [];
  pages = [];
  groups = [];
}

abbrev fine : ParsedRow
fine = record coarse { apps = ("a.exe", 40) ∷ []; groups = ("games", 25) ∷ [] }

abbrev lines : List (Option (ℕ × ParsedRow))
lines = some (8, fine) ∷ none ∷ some (8, coarse) ∷ some (6, coarse) ∷ some (10, fine) ∷ []

build_report-days_example :
    ((build_report lines 10 3).total_mins ≡ shown_mins (build_report lines 10 3).days)
    × ((build_report lines 10 3).measured_days ≡ shown_measured (build_report lines 10 3).days)
    × (count_list (λ (day : DayRow). day.date == 8) (build_report lines 10 3).days
        ≡ (if leb (9 - (clamp_days 365 3 - 1)) 8 && leb 8 9 then 1 else 0))
build_report-days_example = build_report-days lines 9 3 8

abbrev shown : List DayRow
shown = measured_row 8 fine ∷ unmeasured_row 9 ∷ []

-- A second program on the tenth day.
abbrev days : List (ℕ × ParsedRow)
days =
    (8, record coarse { focused = ("a.exe", 40) ∷ [] })
    ∷ (9, coarse)
    ∷ (10, record coarse { focused = ("a.exe", 30) ∷ ("b.exe", 12) ∷ [] })
    ∷ []

abbrev second_program : FirstSeen
second_program = record {
  date = 10;
  apps = ("b.exe", 12) ∷ [];
  count = 1;
  baseline_days = 1;
  baseline_overflow = false;
}

first_seen_in-new_example :
    (day : ℕ × ParsedRow) × ((LastFocused days day)
      × (second_program.date ≡ day.0)
      × ((names : List String) × (NamesBefore day.0 days names
            × (second_program.baseline_overflow ≡ ltb max_baseline_apps (length names))))
      × Lists second_program (new_on day.0 days day.1.focused))
unfolding first_seen_in last_focused baseline_of add_day mem? sort_heaviest_first sort_heaviest
    insert_sorted
first_seen_in-new_example = first_seen_in-new days second_program refl
