-- ===== src/Enforce/Loop.antt =====
-- One round of the loop of the rules (`run_rules_enforcer` of src/rules.rs). What the system and the
-- other parts answer in a round is an input, and what is passed to the logs and done is returned: a
-- line that cannot be appended is lost in the log, with a warning. Saving what is stored of a tally,
-- and reading it back, keep its value. An `Instant` is a number of nanoseconds. The texts shown to
-- the child and the mark of the clock are left out.
pub mod Log
pub mod Charge
pub mod History
pub mod Saved
use nestwatch.Common.{
  ℕ, ◌-◌, ◌*◌, ◌/◌, min, String, Bool, true, false, not, ◌&&◌, ◌||◌, Option, none, some, List, [],
  ◌∷◌, ◌++◌, ltb, if◌then◌else◌, ◌⊎◌, inl, inr, unwrap_or, is_some_and,
}
use nestwatch.Chrono.{Chrono, second}
use nestwatch.Text.{Text}
use nestwatch.Usage.{Usage, used_mins}
use nestwatch.Refusals.{Refused, merge, bump, day_reset, shutdown_cancel}
use nestwatch.Refusals
use nestwatch.Foreground.{Sample, clamp}
use nestwatch.Rules.{
  Rules, Adjustments, EnforceAction, shutdown, TickMode, enforce, measure, tick_mode, has_words,
  effective_budget_mins, spent_today,
}
use nestwatch.Rules
use nestwatch.Enforce.{
  RulesEnforcer, RunningProcess, RuleAction, kill, app_stopped, lock_screen, shut_down,
  shut_down_now, warn_spent, lock_warning, time_warning, StopReason, Tick, accounting_day, decide,
  stand_down,
}
use nestwatch.Enforce.Rollup.{PreRollover, snapshot, Row, rollover_row, record_foreground}
use nestwatch.Enforce.Steps.{
  check_interval, chargeable, Event, State, Seen, Round, owner_snapshot,
  should_abort_budget_shutdown, maybe_abort, is_shutdown, Performed, perform_one, perform_all,
  log_transition, row_list, row_lines, session_lines, save_tally_if_changed, screentime_daily,
  session_start, session_stop, app_stopped_line, budget_countdown, budget_lock, budget_shutdown,
  budget_warn, budget_shutdown_aborted,
}

-- `reported` bounded to what the round charges, and its `web` taken out.
unfoldable pub bounded_report : ℕ → Option Sample → Option Sample × List (String × ℕ)
bounded_report elapsed none = (none, [])
bounded_report elapsed (some sample) =
    let bounded = clamp sample (elapsed / second) in
    (some (record bounded { web = [] }), bounded.web)

unfoldable pub with_foreground : Text → ℕ → Option Sample → RulesEnforcer → RulesEnforcer
with_foreground text elapsed none e = e
with_foreground text elapsed (some sample) e = record_foreground text sample elapsed e

module _ (chrono : Chrono) (text : Text) (same_tally : Usage → Usage → Bool) where
  -- The loop's body before the mode is looked at: the state, the day, and what the round charges.
  unfoldable pub begin_round : State → Seen → State × ℕ × ℕ
  begin_round s i =
      let elapsed = chargeable (i.now - s.last_tick) in
      let (e, today, refused) = accounting_day s.enforcer i.calendar i.now in
      let cells = merge s.cells i.elsewhere in
      (
        record s {
          last_tick = i.now;
          enforcer = e;
          cells = if refused then bump day_reset cells else cells;
        },
        today,
        elapsed,
      )

  unfoldable pub paused_round : State → Seen → (today : ℕ) → Round
  paused_round s i today =
      let aborted =
        should_abort_budget_shutdown s.prev_shutdown_wanted false
          (if s.prev_shutdown_wanted then i.curfew_active else false) in
      let (cells, drained) = Refusals.drain s.cells in
      let (e, prev) = stand_down s.enforcer today drained in
      let row = rollover_row (snapshot prev) today s.prev_budget in
      let (saved, file) =
        save_tally_if_changed same_tally e.usage i.written s.last_saved_tally s.tally_file in
      record {
        state = record s {
          enforcer = e;
          cells = cells;
          prev_active = none;
          prev_shutdown_wanted = false;
          last_saved_tally = saved;
          tally_file = file;
        };
        events =
            (if is_some_and (λ b. b) s.prev_active
              then session_stop (used_mins s.enforcer.usage) none ∷ []
              else [])
            ++ ((if aborted then budget_shutdown_aborted ∷ [] else []) ++ row_lines row);
        rows = row_list row;
        actions = [];
        aborted = aborted;
      }

  -- From the reading of the processes on; the processes are those that were read.
  unfoldable pub decided_round : State → Seen → (today elapsed : ℕ) → List RunningProcess → Round
  decided_round s i today elapsed procs =
      let active = unwrap_or i.session_state true in
      let adjustments = i.adjustments today in
      let (reported, web) = bounded_report elapsed i.reported in
      let (owners, log, failing) =
        if has_words chrono text i.rules
        then owner_snapshot i.owners s.owner_lookup_failing
        else (none, none, s.owner_lookup_failing) in
      let (e, actions) = decide chrono text s.enforcer i.rules procs (record {
        now = i.decided_at;
        today = today;
        interval = elapsed;
        warn_for = i.rules.warn_secs * second;
        slack = check_interval;
        adjustments = adjustments;
        active = active;
        web = web;
        child_processes = owners;
        check_programs = i.check_programs;
      }) in
      let (cells, drained) = Refusals.drain s.cells in
      let counted = record e {
        usage = record e.usage { refused = merge e.usage.refused drained };
      } in
      let enforcer = with_foreground text elapsed reported counted in
      let (saved, file) =
        save_tally_if_changed same_tally enforcer.usage i.written s.last_saved_tally s.tally_file in
      let budget = effective_budget_mins chrono text i.rules today adjustments in
      let row = rollover_row (snapshot s.enforcer.usage) today s.prev_budget in
      let used = used_mins enforcer.usage in
      let performed = perform_all i.succeeds used budget actions (record {
        has_lock = false;
        has_shutdown = false;
        has_warn = false;
        lines = [];
        cells = cells;
      }) in
      let wanted =
        spent_today chrono text i.rules today adjustments enforcer.usage
        && is_shutdown i.rules.budget_action in
      let aborted = maybe_abort s.prev_shutdown_wanted wanted i.curfew_active in
      record {
        state = record s {
          enforcer = enforcer;
          locking = performed.has_lock;
          shutting = performed.has_shutdown;
          warning = performed.has_warn;
          prev_active = some active;
          prev_shutdown_wanted = wanted;
          prev_budget = some budget;
          owner_lookup_failing = failing;
          last_saved_tally = saved;
          tally_file = file;
          cells = performed.cells;
        };
        events =
            row_lines row
            ++ (session_lines s.prev_active active used budget
                ++ (performed.lines
                    ++ (log_transition (budget_lock used budget) performed.has_lock s.locking
                        ++ (log_transition (budget_shutdown used budget) performed.has_shutdown
                              s.shutting
                            ++ (log_transition (budget_warn used budget) performed.has_warn
                                  s.warning
                                ++ (if aborted then budget_shutdown_aborted ∷ [] else []))))));
        rows = row_list row;
        actions = actions;
        aborted = aborted;
      }

  -- A failure to list the processes ends the round.
  unfoldable pub enforced_round :
      State → Seen → (today elapsed : ℕ) → Option (List RunningProcess) → Round
  enforced_round s i today elapsed none = record {
    state = s;
    events = [];
    rows = [];
    actions = [];
    aborted = false;
  }
  enforced_round s i today elapsed (some procs) = decided_round s i today elapsed procs

  unfoldable pub round_in : TickMode → State → Seen → (today elapsed : ℕ) → Round
  round_in Rules.stand_down s i today elapsed = paused_round s i today
  round_in measure s i today elapsed = decided_round s i today elapsed []
  round_in enforce s i today elapsed = enforced_round s i today elapsed i.running_processes

  unfoldable pub run_round : State → Seen → Round
  run_round s i =
      let (t, today, elapsed) = begin_round s i in
      round_in (tick_mode chrono text i.rules) t i today elapsed

  -- A run of the loop: its state at the end, and what it logged and recorded.
  unfoldable pub run_rounds : State → List Seen → State × List Event × List Row
  run_rounds s [] = (s, [], [])
  run_rounds s (i ∷ is) =
      let r = run_round s i in
      let (t, events, rows) = run_rounds r.state is in (t, r.events ++ events, r.rows ++ rows)
