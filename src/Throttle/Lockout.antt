-- ===== src/Throttle/Lockout.antt =====
-- How many wrong passwords of one device are looked at (`LoginLimiter` of src/auth.rs).
use nestwatch.Common.{
  ℕ, ◌+◌, ◌-◌, ◌≤◌, ◌<◌, ◌≡◌, refl, sym, ap, ◌∙◌, ◌⊎◌, inl, inr, Bool, true, false, not, ◌&&◌, ◌||◌,
  Option, none, some, List, [], ◌∷◌, All, ltb, if◌then◌else◌, unwrap_or, is_some_and, u32_max,
  arith, Bool-cases,
}
use nestwatch.Common.Keyed.{
  Eq, ◌=?◌, filtered, lookup, lookup-insert, IsMap, insert-IsMap, lookup-retain, retain-IsMap,
}
use nestwatch.Throttle.{
  Net, throttle_key, LoginLimiter, Attempts, no_attempts, running, prune, check, record_failure,
  after_failure,
}

-- What a device has left before `horizon`: nothing once it is locked until then.
abbrev pub left : ℕ → ℕ → Option Attempts → ℕ
left horizon most none = most
left horizon most (some a) = elim a.locked_until [
  | none ↦ most - a.consecutive_failures
  | some until ↦ if ltb until horizon then most - a.consecutive_failures else 0
]

abbrev running_option : ℕ → Option Attempts → Bool
running_option now o = is_some_and (running now) o

-- A device in the map has failed less often than it may.
abbrev pub Below : ℕ → Option Attempts → Type 0
Below most none = Unit
Below most (some a) = a.consecutive_failures < most

abbrev counts : ℕ → Attempts → Bool
counts now a = ltb 0 a.consecutive_failures || running now a

failure-left :
    (horizon most lockout now : ℕ) (o : Option Attempts)
    → Below most o
    → 0 < most
    → most ≤ u32_max
    → now < horizon
    → horizon ≤ now + lockout
    → not (running_option now o) ≡ true
    → let a =
        (after_failure most lockout now (unwrap_or (filtered (counts now) o) no_attempts)).0 in
      (left horizon most (some a) + 1 ≤ left horizon most o) × Below most (some a)
unfolding after_failure
failure-left horizon most lockout now none b p m lt le free = ground arith
failure-left horizon most lockout now (some a) b p m lt le free = ground arith

prune-left :
    (horizon most now : ℕ) (o : Option Attempts)
    → Below most o
    → now < horizon
    → (left horizon most (filtered (counts now) o) ≤ left horizon most o)
      × Below most (filtered (counts now) o)
prune-left horizon most now none b lt = ground arith
prune-left horizon most now (some a) b lt = ground arith

module _ {Ip : Type 0} ⦃e : Eq Ip⦄ (net : Net Ip) where
  -- A try with a wrong password: whether the device may try is asked first.
  pub record Try : Type 0 where
    pub ip : Ip
    pub now : ℕ

  unfoldable pub attempt : LoginLimiter Ip → Try → LoginLimiter Ip × Bool
  attempt l t =
      if check net l t.ip t.now then ((record_failure net l t.ip t.now).0, true) else (l, false)

  -- How many tries of the device `key` get as far as the password.
  unfoldable pub looked_at : Ip → LoginLimiter Ip → List Try → ℕ
  looked_at key l [] = 0
  looked_at key l (t ∷ ts) =
      let (m, looked) = attempt l t in
      let rest = looked_at key m ts in
      if looked && (throttle_key net t.ip =? key) then rest + 1 else rest

  pruned-lookup :
      (k : Ip) (m : List (Ip × Attempts)) (now : ℕ)
      → IsMap m
      → lookup k (prune m now)
        ≡ filtered (λ a. ltb 0 a.consecutive_failures || running now a) (lookup k m)
  unfolding prune
  pruned-lookup k m now h =
      lookup-retain k (λ (a : Attempts). ltb 0 a.consecutive_failures || running now a) m h

  -- One try keeps the limits, and takes at most one off what a device has left.
  record Steps (key : Ip) (horizon : ℕ) (l m : LoginLimiter Ip) (looked : Bool) : Type 0 where
    is_map : IsMap m.inner
    same_most : m.max_failures ≡ l.max_failures
    same_lockout : m.lockout ≡ l.lockout
    below : Below l.max_failures (lookup key m.inner)
    taken :
        left horizon l.max_failures (lookup key m.inner) + (if looked then 1 else 0)
        ≤ left horizon l.max_failures (lookup key l.inner)

  failure-Steps :
      (key : Ip) (horizon : ℕ) (l : LoginLimiter Ip) (t : Try)
      → IsMap l.inner
      → Below l.max_failures (lookup key l.inner)
      → 0 < l.max_failures
      → l.max_failures ≤ u32_max
      → t.now < horizon
      → horizon ≤ t.now + l.lockout
      → check net l t.ip t.now ≡ true
      → Steps key horizon l (record_failure net l t.ip t.now).0 (throttle_key net t.ip =? key)
  unfolding record_failure check
  failure-Steps key horizon l t h b p most lt le free =
      let k = throttle_key net t.ip in
      let kept = prune l.inner t.now in
      let a =
        (after_failure l.max_failures l.lockout t.now (unwrap_or (lookup k kept) no_attempts)).0 in
      let k_map : IsMap kept =
        unfold prune in retain-IsMap (λ (x : Ip × Attempts). counts t.now x.1) l.inner h in
      let own = pruned-lookup k l.inner t.now h in
      let of_key = pruned-lookup key l.inner t.now h in
      let found = lookup-insert k key a kept in
      elim (Bool-cases (k =? key)) [
        | inl same ↦
            let here : k ≡ key = (e.beq_iff k key).0 same in
            let at_key = own ∙ ap (λ x. filtered (counts t.now) (lookup x l.inner)) here in
            let taken =
              failure-left horizon l.max_failures l.lockout t.now (lookup key l.inner) b p most lt
                le (ap (λ x. not (running_option t.now (lookup x l.inner))) (sym here) ∙ free) in
            record {
              is_map = insert-IsMap k a kept k_map;
              same_most = refl;
              same_lockout = refl;
              below = rw (found, same, at_key) taken.1;
              taken = rw (found, same, at_key) taken.0;
            }
        | inr other ↦
            let gone = prune-left horizon l.max_failures t.now (lookup key l.inner) b lt in
            record {
              is_map = insert-IsMap k a kept k_map;
              same_most = refl;
              same_lockout = refl;
              below = rw (found, other, of_key) gone.1;
              taken = rw (found, other, of_key) (omega (arith, gone.0));
            }
      ]

  attempt-Steps :
      (key : Ip) (horizon : ℕ) (l : LoginLimiter Ip) (t : Try)
      → IsMap l.inner
      → Below l.max_failures (lookup key l.inner)
      → 0 < l.max_failures
      → l.max_failures ≤ u32_max
      → t.now < horizon
      → horizon ≤ t.now + l.lockout
      → Steps key horizon l (attempt l t).0 ((attempt l t).1 && (throttle_key net t.ip =? key))
  unfolding attempt
  attempt-Steps key horizon l t h b p most lt le = elim (Bool-cases (check net l t.ip t.now)) [
    | inl free ↦ rw (attempt, free) (failure-Steps key horizon l t h b p most lt le free)
    | inr shut ↦
        rw (attempt, shut)
          (record {
            is_map = h;
            same_most = refl;
            same_lockout = refl;
            below = b;
            taken = omega arith;
          })
  ]

  looked-left :
      (key : Ip) (horizon start : ℕ) (l : LoginLimiter Ip) (ts : List Try)
      → IsMap l.inner
      → Below l.max_failures (lookup key l.inner)
      → 0 < l.max_failures
      → l.max_failures ≤ u32_max
      → horizon ≤ start + l.lockout
      → All (λ t. (start ≤ t.now) × (t.now < horizon)) ts
      → looked_at key l ts ≤ left horizon l.max_failures (lookup key l.inner)
  unfolding looked_at
  looked-left key horizon start l [] h b p most le times = omega arith
  looked-left key horizon start l (t ∷ ts) h b p most le ((from, lt), times) =
      let m = (attempt l t).0 in
      let s = attempt-Steps key horizon l t h b p most lt (omega arith) in
      let rest =
        looked-left key horizon start m ts s.is_map (rw s.same_most s.below) (rw s.same_most p)
          (rw s.same_most most) (rw s.same_lockout le) times in
      ground (arith, s.taken, s.same_most, rest)

  -- The state after some tries.
  unfoldable pub after_tries : LoginLimiter Ip → List Try → LoginLimiter Ip
  after_tries l [] = l
  after_tries l (t ∷ ts) = after_tries (attempt l t).0 ts

  attempt-other :
      (key : Ip) (l : LoginLimiter Ip) (t : Try)
      → IsMap l.inner
      → (throttle_key net t.ip =? key) ≡ false
      → IsMap (attempt l t).0.inner
        × ((lookup key (attempt l t).0.inner ≡ lookup key l.inner)
            ⊎ (lookup key (attempt l t).0.inner ≡ filtered (counts t.now) (lookup key l.inner)))
  unfolding attempt record_failure
  attempt-other key l t h other =
      let k = throttle_key net t.ip in
      let kept = prune l.inner t.now in
      let a =
        (after_failure l.max_failures l.lockout t.now (unwrap_or (lookup k kept) no_attempts)).0 in
      let k_map : IsMap kept =
        unfold prune in retain-IsMap (λ (x : Ip × Attempts). counts t.now x.1) l.inner h in
      elim (Bool-cases (check net l t.ip t.now)) [
        | inl free ↦
            rw (attempt, free)
              (
                insert-IsMap k a kept k_map,
                inr (lookup-insert k key a kept ∙ rw other (pruned-lookup key l.inner t.now h)),
              )
        | inr shut ↦ rw (attempt, shut) (h, inl refl)
      ]

running-filtered :
    (later now : ℕ) (o : Option Attempts)
    → now ≤ later
    → running_option later (filtered (counts now) o) ≡ running_option later o
running-filtered later now none le = refl
running-filtered later now (some a) le = ground arith

-- The tries of other devices never lock a device out nor let it in: whether it may try at a later
-- moment is the same with them and without them. The map has one entry a device.
pub after_tries-check :
    {Ip : Type 0} ⦃e : Eq Ip⦄ (net : Net Ip) (ip : Ip) (later : ℕ) (l : LoginLimiter Ip)
    (ts : List (Try net))
    → IsMap l.inner
    → All (λ t. ((throttle_key net t.ip =? throttle_key net ip) ≡ false) × (t.now ≤ later)) ts
    → check net (after_tries net l ts) ip later ≡ check net l ip later
unfolding check after_tries
after_tries-check net ip later l [] h others = refl
after_tries-check net ip later l (t ∷ ts) h ((other, before), others) =
    let key = throttle_key net ip in
    let (m, how) = attempt-other net key l t h other in
    after_tries-check net ip later (attempt net l t).0 ts m others
    ∙ ap not (elim how [
      | inl same ↦ ap (running_option later) same
      | inr gone ↦
          ap (running_option later) gone ∙ running-filtered later t.now (lookup key l.inner) before
    ])

left-le : (horizon most : ℕ) (o : Option Attempts) → left horizon most o ≤ most
left-le horizon most none = omega arith
left-le horizon most (some a) = ground arith

-- Of any tries with wrong passwords within one lockout's time, by any devices and in any order, no
-- more of one device's get as far as the password than a device may fail. The map has one entry a
-- device, and at the start the device has not failed as often as it may.
pub looked_at-bounded :
    {Ip : Type 0} ⦃e : Eq Ip⦄ (net : Net Ip) (key : Ip) (start : ℕ) (l : LoginLimiter Ip)
    (ts : List (Try net))
    → IsMap l.inner
    → Below l.max_failures (lookup key l.inner)
    → 0 < l.max_failures
    → l.max_failures ≤ u32_max
    → All (λ t. (start ≤ t.now) × (t.now < start + l.lockout)) ts
    → looked_at net key l ts ≤ l.max_failures
looked_at-bounded net key start l ts h b p most times = omega (
  arith,
  looked-left net key (start + l.lockout) start l ts h b p most (omega arith) times,
  left-le (start + l.lockout) l.max_failures (lookup key l.inner),
)
