-- ===== src/Curfew/Enforcer.antt =====
-- The state machine of bedtime (`Enforcer` and one round of the loop `run_enforcer`, src/curfew.rs).
-- `Instant` and `Duration` are numbers of nanoseconds. What a call of the operating system answers
-- is an input of the round, and what the round asks of it is a list of effects.
pub mod Episodes
use nestwatch.Common.{
  ℕ, ◌+◌, ◌*◌, Bool, true, false, not, ◌&&◌, ◌||◌, Option, none, some, List, [], ◌∷◌, ◌++◌, ltb,
  leb, is_some, if◌then◌else◌,
}
use nestwatch.Chrono.{DateTime, Chrono, second}
use nestwatch.Countdown.{Countdown, default, observe_upcoming, reset}
use nestwatch.Curfew.{Curfew, is_active_at, mins_until_active}

abbrev pub check_interval : ℕ
check_interval = 30 * second

pub data Action : Type 0 where
  shutdown shutdown_now abort nothing : Action

pub data Upcoming : Type 0 where
  no_curfew : Upcoming
  within : Option ℕ → Upcoming

pub record Enforcer : Type 0 where
  pub deadline : Option ℕ
  pub countdown : Countdown

unfoldable pub new : Enforcer
new = record { deadline = none; countdown = default }

unfoldable pub decide : Enforcer → Bool → ℕ → ℕ → ℕ → Enforcer × Action
decide s active now warn slack =
    if active
    then elim s.deadline [
      | none ↦ (record s { deadline = some (now + warn) }, shutdown)
      | some deadline ↦
          if leb (deadline + slack) now
          then (record s { deadline = some (now + warn) }, shutdown_now)
          else (s, nothing)
    ]
    else elim s.deadline [ none ↦ (s, nothing) | some _ ↦ (record s { deadline = none }, abort) ]

abbrev pub is_abort : Action → Bool
is_abort abort = true
is_abort _ = false

-- The countdown is read on every path.
unfoldable pub watch : Countdown → Upcoming → Countdown × Option ℕ
watch c no_curfew = (reset c, none)
watch c (within mins) = observe_upcoming c mins

unfoldable pub tick : Enforcer → Bool → Upcoming → ℕ → ℕ → ℕ → Enforcer × Action × Option ℕ
unfolding decide watch
tick s active upcoming now warn slack =
    let (t, action) = decide s active now warn slack in
    let (counted, warning) = watch t.countdown upcoming in
    if is_some t.deadline || is_abort action
    then (record t { countdown = if is_abort action then reset counted else counted }, action, none)
    else (record t { countdown = counted }, action, warning)

unfoldable pub disarm : Enforcer → Enforcer
disarm s = record s { deadline = none }

-- What a round asks of the system, in order.
pub data Effect : Type 0 where
  notify : ℕ → Effect
  log_countdown : ℕ → Effect
  count_cancel : Effect
  power_off : ℕ → Effect
  abort_power_off : Effect

-- What the round reads: the curfew, the two clocks, and the answers of the system.
pub record Round : Type 0 where
  pub curfew : Curfew
  pub now : DateTime
  pub instant : ℕ
  pub notified : Bool
  pub power_off_ok : Bool

unfoldable pub upcoming_at : Chrono → Curfew → DateTime → Upcoming
upcoming_at chrono c now =
    if not c.enabled || is_active_at chrono c now
    then no_curfew
    else within (mins_until_active chrono c now)

unfoldable pub announce : Option ℕ → Bool → List Effect
announce none notified = []
announce (some mins) notified = notify mins ∷ (if notified then log_countdown mins ∷ [] else [])

-- A shutdown that fails leaves nothing pending, so the next round tries again.
unfoldable pub perform : Enforcer → Action → ℕ → Bool → Enforcer × List Effect
unfolding disarm
perform s shutdown warn_secs ok = (if ok then s else disarm s, power_off warn_secs ∷ [])
perform s shutdown_now warn_secs ok = (if ok then s else disarm s, count_cancel ∷ power_off 0 ∷ [])
perform s abort warn_secs ok = (s, abort_power_off ∷ [])
perform s nothing warn_secs ok = (s, [])

unfoldable pub run_round : Chrono → Enforcer → Round → Enforcer × List Effect
unfolding tick upcoming_at announce perform
run_round chrono s r =
    let active = is_active_at chrono r.curfew r.now in
    let (t, action, warning) =
      tick s active (upcoming_at chrono r.curfew r.now) r.instant (r.curfew.warn_secs * second)
        check_interval in
    let (u, effects) = perform t action r.curfew.warn_secs r.power_off_ok in
    (u, announce warning r.notified ++ effects)
