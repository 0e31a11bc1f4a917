-- ===== src/Idempotency.antt =====
-- The cache of answers by idempotency key (src/idempotency.rs). A JSON value is a type of its own with
-- its equality; an `Instant` is a number of nanoseconds. Which of several oldest entries is evicted
-- is the map's order in the source and the first of the list here; no theorem rests on it.
pub mod Replays
use nestwatch.Common.{
  ℕ, ◌-◌, ◌*◌, String, Bool, true, false, Option, none, some, List, [], ◌∷◌, length, retain, ltb,
  leb, if◌then◌else◌,
}
use nestwatch.Common.Keyed.{Eq, ◌=?◌, string_keys, lookup, insert, remove}
use nestwatch.Chrono.{second}

abbrev pub retention : ℕ
retention = 48 * 60 * 60 * second

abbrev pub max_entries : ℕ
max_entries = 256

pub record Entry (Value : Type 0) : Type 0 where
  pub at : ℕ
  pub fingerprint : Value
  pub response : Value

pub data Replay (Value : Type 0) : Type 0 where
  fresh : Replay Value
  stored : Value → Replay Value
  mismatch : Replay Value

abbrev pub IdempotencyCache : Type 0 → Type 0
IdempotencyCache Value = List (String × Entry Value)

module _ {Value : Type 0} where
  unfoldable pub prune : IdempotencyCache Value → ℕ → IdempotencyCache Value
  prune c now = retain (λ x. ltb (now - x.1.at) retention) c

  -- `min_by_key` on the time of the entries.
  abbrev pub oldest : IdempotencyCache Value → Option (String × Entry Value)
  oldest [] = none
  oldest (x ∷ c) = elim (oldest c) [
    | none ↦ some x
    | some y ↦ if leb x.1.at y.1.at then some x else some y
  ]

  abbrev pub evicted : IdempotencyCache Value → IdempotencyCache Value
  evicted c = elim (oldest c) [ none ↦ c | some x ↦ remove x.0 c ]

  unfoldable pub record_response :
      IdempotencyCache Value → String → Value → Value → ℕ → IdempotencyCache Value
  unfolding prune
  record_response c key fingerprint response now =
      let kept = prune c now in
      let room = if leb max_entries (length kept) then evicted kept else kept in
      insert key (record { at = now; fingerprint = fingerprint; response = response }) room

  unfoldable pub replay :
      ⦃e : Eq Value⦄
      → IdempotencyCache Value
      → String
      → Value
      → ℕ
      → IdempotencyCache Value × Replay Value
  unfolding prune
  replay c key fingerprint now =
      let kept = prune c now in
      elim (lookup key kept) [
        | none ↦ (kept, fresh)
        | some e ↦
            if e.fingerprint =? fingerprint then (kept, stored e.response) else (kept, mismatch)
      ]
