-- ===== src/Enforce/Steps.antt =====
-- The steps of one round of the loop of the rules (`run_rules_enforcer` of src/rules.rs and its
-- helpers): what it reads, what it logs, what it does with the actions, and the save of the tally.
-- Saving what is stored of a tally, and reading it back, keep its value. An `Instant` is a number of
-- nanoseconds.
use nestwatch.Common.{
  ℕ, ◌*◌, min, String, Bool, true, false, not, ◌&&◌, ◌||◌, Option, none, some, List, [], ◌∷◌, ◌++◌,
  if◌then◌else◌, ◌⊎◌, inl, inr, is_some_and,
}
use nestwatch.Chrono.{second}
use nestwatch.Usage.{Usage}
use nestwatch.Refusals.{Refused, bump, shutdown_cancel}
use nestwatch.Foreground.{Sample}
use nestwatch.Rules.{Rules, Adjustments, EnforceAction, shutdown}
use nestwatch.Enforce.{
  RulesEnforcer, RunningProcess, RuleAction, kill, app_stopped, lock_screen, shut_down,
  shut_down_now, warn_spent, lock_warning, time_warning, StopReason,
}
use nestwatch.Enforce.Rollup.{snapshot, Row}

abbrev pub check_interval : ℕ
check_interval = 30 * second

unfoldable pub chargeable : ℕ → ℕ
chargeable since_last_tick = min since_last_tick (check_interval * 2)

-- A line of the usage log.
pub data Event : Type 0 where
  screentime_daily : Row → Event
  session_start : Event
  session_stop : (used_mins : ℕ) → (budget : Option ℕ) → Event
  app_stopped_line : String → StopReason → (notified : Bool) → Event
  budget_countdown : (remaining used_mins budget : ℕ) → Event
  budget_lock budget_shutdown budget_warn : (used_mins budget : ℕ) → Event
  budget_shutdown_aborted : Event

pub record State : Type 0 where
  pub enforcer : RulesEnforcer
  pub locking : Bool
  pub shutting : Bool
  pub warning : Bool
  pub prev_active : Option Bool
  pub prev_shutdown_wanted : Bool
  pub prev_budget : Option ℕ
  pub last_tick : ℕ
  pub owner_lookup_failing : Bool
  pub last_saved_tally : Option Usage
  pub tally_file : Option Usage
  -- The counters of src/refusals.rs.
  pub cells : Refused

-- What one round reads. `elsewhere` is what other parts counted since the last round, `adjustments`
-- what the configuration gives on a day, `session_state` whether the session is active (`none`
-- where the call fails), and `succeeds` whether the system carries an action out.
pub record Seen : Type 0 where
  pub now : ℕ
  pub decided_at : ℕ
  pub calendar : ℕ
  pub reported : Option Sample
  pub rules : Rules
  pub adjustments : ℕ → Adjustments
  pub check_programs : List String
  pub elsewhere : Refused
  pub session_state : Option Bool
  pub running_processes : Option (List RunningProcess)
  pub owners : String ⊎ List (ℕ × String)
  pub succeeds : RuleAction → Bool
  pub curfew_active : Bool
  pub written : Bool

pub record Round : Type 0 where
  pub state : State
  pub events : List Event
  pub rows : List Row
  pub actions : List RuleAction
  pub aborted : Bool

-- The snapshot, what to log, and whether the lookup is failing now.
unfoldable pub owner_snapshot :
    String ⊎ List (ℕ × String) → Bool → Option (List (ℕ × String)) × Option String × Bool
owner_snapshot (inr snapshot) failing = (some snapshot, none, false)
owner_snapshot (inl e) failing = (none, (if failing then none else some e), true)

unfoldable pub should_abort_budget_shutdown : Bool → Bool → Bool → Bool
should_abort_budget_shutdown prev_wanted now_wanted curfew_active =
    prev_wanted && not now_wanted && not curfew_active

-- The bedtime is looked up only where the shutdown is no longer wanted.
unfoldable pub maybe_abort : Bool → Bool → Bool → Bool
maybe_abort prev_wanted now_wanted curfew =
    should_abort_budget_shutdown prev_wanted now_wanted
      (if prev_wanted && not now_wanted then curfew else false)

module _ (same_tally : Usage → Usage → Bool) where
  -- The last saved tally and the file. `same_tally` compares what two tallies are stored as.
  unfoldable pub save_tally_if_changed :
      Usage → Bool → Option Usage → Option Usage → Option Usage × Option Usage
  save_tally_if_changed usage written last_saved file =
      if is_some_and (λ u. same_tally u usage) last_saved
      then (last_saved, file)
      else if written
      then (some usage, some usage)
      else (last_saved, file)

abbrev pub is_shutdown : EnforceAction → Bool
is_shutdown shutdown = true
is_shutdown _ = false

-- What the loop over the actions finds: the three flags, the lines, and the refusals counted.
pub record Performed : Type 0 where
  pub has_lock : Bool
  pub has_shutdown : Bool
  pub has_warn : Bool
  pub lines : List Event
  pub cells : Refused

unfoldable pub perform_one :
    (RuleAction → Bool) → (used budget : ℕ) → RuleAction → Performed → Performed
perform_one succeeds used budget (kill pid) f = f
perform_one succeeds used budget (app_stopped app reason) f = record f {
  lines = f.lines ++ app_stopped_line app reason (succeeds (app_stopped app reason)) ∷ [];
}
perform_one succeeds used budget lock_screen f = record f {
  has_lock = f.has_lock || succeeds lock_screen;
}
perform_one succeeds used budget shut_down f = record f {
  has_shutdown = f.has_shutdown || succeeds shut_down;
}
perform_one succeeds used budget shut_down_now f = record f {
  has_shutdown = f.has_shutdown || succeeds shut_down_now;
  cells = bump shutdown_cancel f.cells;
}
perform_one succeeds used budget warn_spent f = record f { has_warn = true }
perform_one succeeds used budget lock_warning f = f
perform_one succeeds used budget (time_warning mins) f =
    if succeeds (time_warning mins)
    then record f { lines = f.lines ++ budget_countdown mins used budget ∷ [] }
    else f

unfoldable pub perform_all :
    (RuleAction → Bool) → (used budget : ℕ) → List RuleAction → Performed → Performed
unfolding perform_one
perform_all succeeds used budget [] f = f
perform_all succeeds used budget (a ∷ actions) f =
    perform_all succeeds used budget actions (perform_one succeeds used budget a f)

-- The line, if any, as a flag comes on; the flag itself is the new state.
unfoldable pub log_transition : Event → Bool → Bool → List Event
log_transition event active state = if active && not state then event ∷ [] else []

abbrev pub row_list : Option Row → List Row
row_list none = []
row_list (some row) = row ∷ []

abbrev pub row_lines : Option Row → List Event
row_lines none = []
row_lines (some row) = screentime_daily row ∷ []

unfoldable pub session_lines : Option Bool → Bool → (used budget : ℕ) → List Event
session_lines (some true) true used budget = []
session_lines (some false) true used budget = session_start ∷ []
session_lines none true used budget = session_start ∷ []
session_lines (some true) false used budget = session_stop used (some budget) ∷ []
session_lines (some false) false used budget = []
session_lines none false used budget = []
