-- ===== src/Enforce.antt =====
-- The enforcer of the rules (`RulesEnforcer` of src/rules.rs). `Instant` and `Duration` are numbers of
-- nanoseconds. The counter of refused resets, a static of src/refusals.rs, is returned as a flag.
pub mod Rollover
pub mod Rollup
pub mod Steps
pub mod Loop
pub mod Stops
pub mod Notices
pub mod Episode
use nestwatch.Common.{
  ℕ, ◌+◌, ◌-◌, ◌*◌, ◌/◌, String, Bool, true, false, not, ◌&&◌, ◌||◌, Option, none, some, List, [],
  ◌∷◌, ◌++◌, map, find, retain, any, ltb, leb, ◌==◌, if◌then◌else◌, is_some, is_some_and, same_day,
  unwrap_or,
}
use nestwatch.Common.Keyed.{◌=?◌, string_keys, nat_keys, mem?, lookup}
use nestwatch.Chrono.{Chrono, second}
use nestwatch.Text.{Text, norm}
use nestwatch.Countdown.{Countdown, observe, reset}
use nestwatch.Countdown
use nestwatch.Refusals.{Refused, merge}
use nestwatch.Words.{GroupMatch, match_groups}
use nestwatch.Usage.{Usage, read_on}
use nestwatch.Rules.{
  EnforceAction, lock, shutdown, warn, Rules, Adjustments, GroupTarget, Targets, from_rules,
  effective_budget_mins,
}
use nestwatch.Tally.{accrue}

pub record RunningProcess : Type 0 where
  pub pid : ℕ
  pub name : String

pub record Tick : Type 0 where
  pub now : ℕ
  pub today : ℕ
  pub interval : ℕ
  pub warn_for : ℕ
  pub slack : ℕ
  pub adjustments : Adjustments
  pub active : Bool
  pub web : List (String × ℕ)
  pub child_processes : Option (List (ℕ × String))
  pub check_programs : List String

pub data StopReason : Type 0 where
  blocked : StopReason
  app_limit : ℕ → StopReason
  group_pool : String → ℕ → StopReason

pub data RuleAction : Type 0 where
  kill : ℕ → RuleAction
  app_stopped : String → StopReason → RuleAction
  lock_screen shut_down shut_down_now warn_spent lock_warning : RuleAction
  time_warning : ℕ → RuleAction

pub record RulesEnforcer : Type 0 where
  pub usage : Usage
  pub budget_deadline : Option ℕ
  pub last_reset : Option ℕ
  pub episode_warned : Bool
  pub countdown : Countdown
  pub announced : List String

abbrev pub min_reset_gap : ℕ
min_reset_gap = 12 * 3600 * second

unfoldable pub new : Usage → RulesEnforcer
new usage = record {
  usage = usage;
  budget_deadline = none;
  last_reset = none;
  episode_warned = false;
  countdown = Countdown.default;
  announced = [];
}

-- The new state, the day to account on, and whether a reset was refused.
unfoldable pub accounting_day : RulesEnforcer → ℕ → ℕ → RulesEnforcer × ℕ × Bool
accounting_day s today now = elim s.usage.day [
  | none ↦ (s, today, false)
  | some current ↦
      if current == today
      then (s, today, false)
      else if is_some_and (λ last. ltb (now - last) min_reset_gap) s.last_reset
      then (s, current, true)
      else (record s { last_reset = some now }, today, false)
]

-- A tick while the rules are paused; what it returns beside the state is the tally before it.
unfoldable pub stand_down : RulesEnforcer → ℕ → Refused → RulesEnforcer × Usage
stand_down s today refused =
    let t = if same_day s.usage.day today then s else record s {
      announced = [];
      usage = record (read_on s.usage today) { unmeasured = true };
    } in
    (record t { usage = record t.usage { refused = merge t.usage.refused refused } }, s.usage)

-- What a tick compares each process against.
pub record Sweep : Type 0 where
  pub targets : Targets
  pub usage : Usage
  pub child_processes : Option (List (ℕ × String))

abbrev pub put_matches : List GroupTarget → List GroupMatch → List GroupTarget
put_matches (g ∷ gs) (m ∷ ms) = record g { matched = m } ∷ put_matches gs ms
put_matches gs _ = gs

unfoldable pub pool_spent : Usage → GroupTarget → Bool
pool_spent usage g = leb (g.limit_mins * 60) (unwrap_or (lookup g.name usage.per_group_secs) 0)

module _ (text : Text) where
  -- Whether the process is one of the child's, under that name in the same snapshot.
  unfoldable pub is_childs : Option (List (ℕ × String)) → ℕ → String → Bool
  is_childs none pid name = false
  is_childs (some owned) pid name = is_some_and (λ own. norm text own =? name) (lookup pid owned)

  unfoldable pub is_member : Sweep → RunningProcess → GroupTarget → Bool
  is_member w p g =
      let n = norm text p.name in
      mem? n g.members
      || ((mem? p.pid g.matched.programs || mem? n g.matched.browsers)
          && is_childs w.child_processes p.pid n)

  unfoldable pub over_limit : Sweep → String → ℕ → Bool
  over_limit w n limit = leb (limit * 60) (unwrap_or (lookup n w.usage.per_app_secs) 0)

  -- The three tests on one process in their order: the reason to stop it, if any.
  unfoldable pub group_reason : Sweep → RunningProcess → Option StopReason
  group_reason w p = elim (find (is_member w p) (retain (pool_spent w.usage) w.targets.groups)) [
    | none ↦ none
    | some g ↦ some (group_pool g.name g.limit_mins)
  ]

  unfoldable pub stop_reason : Sweep → RunningProcess → Option StopReason
  stop_reason w p =
      let n = norm text p.name in
      if mem? n w.targets.blocked then some blocked else elim (lookup n w.targets.app_limits) [
        | none ↦ group_reason w p
        | some limit ↦ if over_limit w n limit then some (app_limit limit) else group_reason w p
      ]

  -- The loop over the processes: the names announced so far, and the actions in order.
  unfoldable pub sweep : Sweep → List RunningProcess → List String → List String × List RuleAction
  sweep w [] announced = (announced, [])
  sweep w (p ∷ ps) announced =
      let n = norm text p.name in
      elim (stop_reason w p) [
        | none ↦ sweep w ps announced
        | some reason ↦
            if mem? n announced
            then (let (seen, actions) = sweep w ps announced in (seen, kill p.pid ∷ actions))
            else (let (seen, actions) = sweep w ps (n ∷ announced) in
                (seen, kill p.pid ∷ app_stopped p.name reason ∷ actions))
      ]

-- The budget is spent: what its action does. The countdown is reset before.
unfoldable pub on_spent : EnforceAction → RulesEnforcer → Tick → RulesEnforcer × List RuleAction
on_spent warn s t = (record s { budget_deadline = none }, warn_spent ∷ [])
on_spent lock s t = elim s.budget_deadline [
  | none ↦ if s.episode_warned then (s, lock_screen ∷ []) else (
    record s { episode_warned = true; budget_deadline = some (t.now + t.warn_for) },
    lock_warning ∷ [],
  )
  | some deadline ↦ if leb deadline t.now then (s, lock_screen ∷ []) else (s, [])
]
on_spent shutdown s t = elim s.budget_deadline [
  | none ↦ (record s { budget_deadline = some (t.now + t.warn_for) }, shut_down ∷ [])
  | some deadline ↦
      if leb (deadline + t.slack) t.now
      then (record s { budget_deadline = some (t.now + t.warn_for) }, shut_down_now ∷ [])
      else (s, [])
]

abbrev pub time_warnings : Option ℕ → List RuleAction
time_warnings none = []
time_warnings (some mins) = time_warning mins ∷ []

-- The part of `decide` on the budget, for a budget of `budget` minutes.
unfoldable pub budget_step :
    EnforceAction → ℕ → RulesEnforcer → Tick → RulesEnforcer × List RuleAction
unfolding on_spent
budget_step action budget s t =
    if ltb 0 budget && t.active
    then (if leb (budget * 60) s.usage.total_secs
        then on_spent action (record s { countdown = reset s.countdown }) t
        else (let (counted, mins) = observe s.countdown ((budget * 60 - s.usage.total_secs) / 60) in
            (
              record s { countdown = counted; budget_deadline = none; episode_warned = false },
              time_warnings mins,
            )))
    else (
      record s {
        budget_deadline = none;
        countdown = if budget == 0 then reset s.countdown else s.countdown;
      },
      [],
    )

-- `running` is a set in the source: no name twice.
abbrev pub names : Text → List RunningProcess → List String
names text [] = []
names text (p ∷ ps) =
    let rest = names text ps in let n = norm text p.name in if mem? n rest then rest else n ∷ rest

module _ (chrono : Chrono) (text : Text) where
  -- The targets with what the words found in this check.
  unfoldable pub targets_at : Rules → Tick → Targets
  targets_at r t =
      let targets = from_rules chrono text r in
      record targets {
        groups = put_matches targets.groups (
            match_groups text (map (λ g. g.words) targets.groups) t.web t.child_processes
              t.check_programs);
      }

  -- The state once the tick is charged and a new day has cleared the announcements.
  unfoldable pub charged : RulesEnforcer → Rules → List RunningProcess → Tick → RulesEnforcer
  charged s r procs t = record s {
    announced = if same_day s.usage.day t.today then s.announced else [];
    usage =
        accrue s.usage t.today (if t.active then t.interval / second else 0) (names text procs)
          (targets_at r t);
  }

  unfoldable pub decide :
      RulesEnforcer → Rules → List RunningProcess → Tick → RulesEnforcer × List RuleAction
  decide s r procs t =
      let c = charged s r procs t in
      let w : Sweep = record {
        targets = targets_at r t;
        usage = c.usage;
        child_processes = t.child_processes;
      } in
      let (announced, stops) = sweep text w procs c.announced in
      let (u, budget_actions) =
        budget_step r.budget_action (effective_budget_mins chrono text r t.today t.adjustments)
          (record c { announced = announced }) t in
      (u, stops ++ budget_actions)
