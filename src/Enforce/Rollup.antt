-- ===== src/Enforce/Rollup.antt =====
-- What a day leaves in the history, and what is in the foreground (`snapshot`, `record_foreground`,
-- `rollup_row`, `rollover_row` and the helpers beside them, of src/rules.rs). The row is a record in
-- place of JSON.
use nestwatch.Common.{
  ℕ, ◌/◌, String, Bool, Option, none, some, List, [], ◌∷◌, take, ltb, ◌==◌, if◌then◌else◌,
}
use nestwatch.Common.Keyed.{string_keys}
use nestwatch.Chrono.{second}
use nestwatch.Text.{Text, norm}
use nestwatch.Usage.{Usage}
use nestwatch.Refusals.{Refused, any_refused}
use nestwatch.Tally.{charge}
use nestwatch.Foreground.{Sample, clamp, accrue_capped, sort_heaviest, max_apps, max_pages}
use nestwatch.Enforce.{RulesEnforcer}

pub record PreRollover : Type 0 where
  pub day : Option ℕ
  pub total_secs : ℕ
  pub per_app_secs : List (String × ℕ)
  pub foreground_secs : List (String × ℕ)
  pub page_secs : List (String × ℕ)
  pub per_group_secs : List (String × ℕ)
  pub refused : Refused
  pub unmeasured : Bool

unfoldable pub snapshot : Usage → PreRollover
snapshot u = record {
  day = u.day;
  total_secs = u.total_secs;
  per_app_secs = u.per_app_secs;
  foreground_secs = u.foreground_secs;
  page_secs = u.page_secs;
  per_group_secs = u.per_group_secs;
  refused = u.refused;
  unmeasured = u.unmeasured;
}

-- A row of the history. The object of a paused day holds its date and what was refused.
pub data Row : Type 0 where
  daily :
      (date minutes_used : ℕ)
      → (budget : Option ℕ) → (apps focused pages groups : List (String × ℕ))
      → (refused : Option Refused) → Row
  paused : (date : ℕ) → Refused → Row

unfoldable pub per_app_minutes : List (String × ℕ) → List (String × ℕ)
per_app_minutes [] = []
per_app_minutes ((name, secs) ∷ m) =
    let rest = per_app_minutes m in
    let mins = secs / 60 in if ltb 0 mins then (name, mins) ∷ rest else rest

abbrev pub top_today : ℕ
top_today = 10

unfoldable pub top_by_minutes : List (String × ℕ) → ℕ → List (String × ℕ)
top_by_minutes secs n = take n (sort_heaviest (per_app_minutes secs))

unfoldable pub rollup_row : PreRollover → ℕ → Option ℕ → Row
rollup_row prev date budget =
    daily date (prev.total_secs / 60) budget (per_app_minutes prev.per_app_secs)
      (per_app_minutes prev.foreground_secs) (per_app_minutes prev.page_secs)
      (per_app_minutes prev.per_group_secs)
      (if any_refused prev.refused then some prev.refused else none)

unfoldable pub paused_row : PreRollover → ℕ → Option Row
paused_row prev date = if any_refused prev.refused then some (paused date prev.refused) else none

-- `prev.day.filter(|d| *d != today)?` comes first.
unfoldable pub rollover_row : PreRollover → ℕ → Option ℕ → Option Row
rollover_row prev today budget = elim prev.day [
  | none ↦ none
  | some ended ↦
      if ended == today
      then none
      else if prev.unmeasured
      then paused_row prev ended
      else some (rollup_row prev ended budget)
]

module _ (text : Text) where
  -- `filter_map` with `norm`, and the fold that adds up the names that become one.
  unfoldable pub normed : List (String × ℕ) → List (String × ℕ) → List (String × ℕ)
  normed [] acc = acc
  normed ((name, secs) ∷ apps) acc =
      let key = norm text name in
      normed apps (if text.is_empty key then acc else charge key secs acc)

  unfoldable pub record_foreground : Sample → ℕ → RulesEnforcer → RulesEnforcer
  record_foreground sample elapsed s =
      let bounded = clamp sample (elapsed / second) in
      record s {
        usage = record s.usage {
          foreground_secs = accrue_capped s.usage.foreground_secs (normed bounded.apps []) max_apps;
          page_secs = accrue_capped s.usage.page_secs bounded.pages max_pages;
        };
      }
