-- ===== src/Throttle.antt =====
-- The limits on attempts per device: `throttle_key` of src/security.rs, `SubmitLimiter` of
-- src/timereq.rs and `LoginLimiter` of src/auth.rs. Addresses are a type of their own with the
-- operations that the standard library has on them; an `Instant` is a number of nanoseconds.
pub mod Submissions
pub mod Lockout
use nestwatch.Common.{
  ℕ, ◌+◌, ◌-◌, ◌*◌, ◌%◌, Bool, true, false, not, ◌||◌, Option, none, some, List, [], ◌∷◌, ◌++◌,
  length, retain, ltb, leb, if◌then◌else◌, unwrap_or, is_some_and,
}
use nestwatch.Common.Keyed.{Eq, lookup, insert, remove, map_values}
use nestwatch.Chrono.{second}

pub record Net (Ip : Type 0) : Type 0 where
  pub to_canonical : Ip → Ip
  pub is_loopback : Ip → Bool
  pub localhost : Ip

unfoldable pub throttle_key : {Ip : Type 0} → Net Ip → Ip → Ip
throttle_key net ip = let c = net.to_canonical ip in if net.is_loopback c then net.localhost else c

pub record SubmitLimiter (Ip : Type 0) : Type 0 where
  pub inner : List (Ip × List ℕ)
  pub max_per_window : ℕ
  pub window : ℕ

pub record Attempts : Type 0 where
  pub consecutive_failures : ℕ
  pub locked_until : Option ℕ

pub record LoginLimiter (Ip : Type 0) : Type 0 where
  pub inner : List (Ip × Attempts)
  pub max_failures : ℕ
  pub lockout : ℕ

abbrev pub login_max_fails : ℕ
login_max_fails = 5

abbrev pub login_lockout : ℕ
login_lockout = 60 * second

-- Of the last window before `now`.
abbrev pub recent : ℕ → ℕ → ℕ → Bool
recent window now t = ltb (now - t) window

abbrev pub is_empty : List ℕ → Bool
is_empty [] = true
is_empty _ = false

abbrev pub running : ℕ → Attempts → Bool
running now a = is_some_and (λ until. ltb now until) a.locked_until

abbrev pub no_attempts : Attempts
no_attempts = record { consecutive_failures = 0; locked_until = none }

-- One failure more at the entry of a device. The count of failures is a `u32`.
unfoldable pub after_failure : ℕ → ℕ → ℕ → Attempts → Attempts × Bool
after_failure max_failures lockout now a =
    let failures = (a.consecutive_failures + 1) % 4294967296 in
    if leb max_failures failures
    then (record { consecutive_failures = 0; locked_until = some (now + lockout) }, true)
    else (record a { consecutive_failures = failures }, false)

module _ {Ip : Type 0} ⦃e : Eq Ip⦄ where
  abbrev pub kept_times : SubmitLimiter Ip → ℕ → List (Ip × List ℕ)
  kept_times l now =
      retain (λ x. not (is_empty x.1)) (map_values (retain (recent l.window now)) l.inner)

  -- The flag tells whether the submission is accepted. A new key gets an empty entry at once.
  unfoldable pub count_and_check : Net Ip → SubmitLimiter Ip → Ip → ℕ → SubmitLimiter Ip × Bool
  count_and_check net l ip now =
      let key = throttle_key net ip in
      let kept = kept_times l now in
      let times = unwrap_or (lookup key kept) [] in
      if leb l.max_per_window (length times)
      then (record l { inner = insert key times kept }, false)
      else (record l { inner = insert key (times ++ now ∷ []) kept }, true)

  -- Whether the device may try now.
  unfoldable pub check : Net Ip → LoginLimiter Ip → Ip → ℕ → Bool
  check net l ip now = not (is_some_and (running now) (lookup (throttle_key net ip) l.inner))

  unfoldable pub prune : List (Ip × Attempts) → ℕ → List (Ip × Attempts)
  prune m now = retain (λ x. ltb 0 x.1.consecutive_failures || running now x.1) m

  -- The flag tells whether this failure starts the lockout.
  unfoldable pub record_failure : Net Ip → LoginLimiter Ip → Ip → ℕ → LoginLimiter Ip × Bool
  unfolding prune
  record_failure net l ip now =
      let key = throttle_key net ip in
      let kept = prune l.inner now in
      let (a, locked) =
        after_failure l.max_failures l.lockout now (unwrap_or (lookup key kept) no_attempts) in
      (record l { inner = insert key a kept }, locked)

  unfoldable pub record_success : Net Ip → LoginLimiter Ip → Ip → LoginLimiter Ip
  record_success net l ip = record l { inner = remove (throttle_key net ip) l.inner }
