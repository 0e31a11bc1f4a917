-- ===== src/Enforce/Loop/History.antt =====
-- Which days reach the history (`run_rules_enforcer` and `rollover_row` of src/rules.rs).
use nestwatch.Common.{
  ℕ, ◌/◌, ◌≡◌, Bool, Option, none, some, List, [], ◌∷◌, ◌++◌, if◌then◌else◌, same_day,
}
use nestwatch.Chrono.{Chrono}
use nestwatch.Text.{Text}
use nestwatch.Usage.{Usage}
use nestwatch.Refusals.{any_refused}
use nestwatch.Rules
use nestwatch.Enforce.Rollup.{Row, daily, paused, per_app_minutes}
use nestwatch.Enforce.Steps.{State, Seen, Round}
use nestwatch.Enforce.Loop.{run_round}

-- What the history should hold of a tally that ended on a day: its figures, if it was measured;
-- otherwise a paused day, if something was refused on it.
abbrev pub day_of : Usage → Option ℕ → ℕ → List Row
day_of u budget d =
    if u.unmeasured
    then (if any_refused u.refused then paused d u.refused ∷ [] else [])
    else daily d (u.total_secs / 60) budget (per_app_minutes u.per_app_secs)
        (per_app_minutes u.foreground_secs) (per_app_minutes u.page_secs)
        (per_app_minutes u.per_group_secs) (if any_refused u.refused then some u.refused else none)
      ∷ []

-- Where the tally moves from a day to another, that day; with the budget of the last decision.
abbrev pub left_from : Usage → Option ℕ → State → List Row
left_from u budget t = elim u.day [
  | none ↦ []
  | some d ↦ if same_day t.enforcer.usage.day d then [] else day_of u budget d
]

abbrev pub left_behind : State → State → List Row
left_behind s t = left_from s.enforcer.usage s.prev_budget t

module _ (chrono : Chrono) (text : Text) (same_tally : Usage → Usage → Bool) where
  -- What a round adds to the history is what it leaves behind.
  abbrev Leaves : State → Round → Type 0
  Leaves s r = r.rows ≡ left_behind s r.state

-- What a run leaves behind, from each state to the next.
unfoldable pub all_left_behind :
    Chrono → Text → (Usage → Usage → Bool) → State → List Seen → List Row
all_left_behind chrono text same_tally s [] = []
all_left_behind chrono text same_tally s (i ∷ is) =
    let t = (run_round chrono text same_tally s i).state in
    left_behind s t ++ all_left_behind chrono text same_tally t is
