-- ===== src/Heartbeat.antt =====
-- When each loop last ran (src/heartbeat.rs): the three cells and their ages. The clock's seconds are
-- natural numbers, and the timers are not modelled.
use nestwatch.Common.{ℕ, ◌-◌, max, Option, none, some, ltb, if◌then◌else◌}

pub data Enforcer : Type 0 where
  rules : Enforcer
  curfew : Enforcer
  probe : Enforcer

-- `RULES_TICK`, `CURFEW_TICK` and `PROBE_TICK`; 0 before the first tick.
pub record Ticks : Type 0 where
  pub rules_tick : ℕ
  pub curfew_tick : ℕ
  pub probe_tick : ℕ

abbrev pub cell : Enforcer → Ticks → ℕ
cell rules t = t.rules_tick
cell curfew t = t.curfew_tick
cell probe t = t.probe_tick

unfoldable pub beat : Enforcer → (now_secs : ℕ) → Ticks → Ticks
beat rules now t = record t { rules_tick = now }
beat curfew now t = record t { curfew_tick = now }
beat probe now t = record t { probe_tick = now }

unfoldable pub age_secs : Enforcer → (now_secs : ℕ) → Ticks → Option ℕ
age_secs which now t = let last = cell which t in if ltb 0 last then some (now - last) else none

abbrev pub worse : Option ℕ → Option ℕ → Option ℕ
worse (some a) (some b) = some (max a b)
worse (some a) none = some a
worse none b = b

unfoldable pub worst_age_secs : (now_secs : ℕ) → Ticks → Option ℕ
worst_age_secs now t = worse (age_secs rules now t) (age_secs curfew now t)
