-- ===== src/Idempotency/Replays.antt =====
-- What a replay answers, and the bound on the cache (src/idempotency.rs).
use nestwatch.Common.{
  ℕ, ◌-◌, ◌≤◌, ◌<◌, ◌≡◌, refl, sym, ap, ◌∙◌, inl, inr, String, true, false, Option, none, some,
  List, [], ◌∷◌, length, length-retain-le, ltb, leb, if◌then◌else◌, is_some, arith, Bool-cases,
  Option-cases, ltb→lt,
}
use nestwatch.Common.Keyed.{
  Eq, ◌=?◌, string_keys, filtered-some, length-remove-lt, remove-IsMap, lookup, remove,
  lookup-insert, lookup-remove_self, lookup-remove_ne, length-insert, IsMap, insert-IsMap,
  lookup-retain, retain-IsMap,
}
use nestwatch.Idempotency.{
  Entry, Replay, fresh, stored, mismatch, IdempotencyCache, prune, oldest, evicted, record_response,
  replay, retention, max_entries,
}

pub data Call (Value : Type 0) : Type 0 where
  asks : String → Value → ℕ → Call Value
  records : String → Value → Value → ℕ → Call Value

module _ {Value : Type 0} ⦃e : Eq Value⦄ where
  unfoldable pub call : IdempotencyCache Value → Call Value → IdempotencyCache Value
  call c (asks key fingerprint now) = (replay c key fingerprint now).0
  call c (records key fingerprint response now) = record_response c key fingerprint response now

  unfoldable pub run : IdempotencyCache Value → List (Call Value) → IdempotencyCache Value
  run c [] = c
  run c (x ∷ xs) = run (call c x) xs

  -- The last answer recorded for each key.
  abbrev pub last_of : (String → Option (Entry Value)) → Call Value → String → Option (Entry Value)
  last_of f (asks key fingerprint now) j = f j
  last_of f (records key fingerprint response now) j =
      if key =? j
      then some (record { at = now; fingerprint = fingerprint; response = response })
      else f j

  unfoldable pub latest :
      (String → Option (Entry Value)) → List (Call Value) → String → Option (Entry Value)
  latest f [] = f
  latest f (x ∷ xs) = latest (last_of f x) xs

  -- The cache holds nothing but last answers.
  pub record Agrees (c : IdempotencyCache Value) (f : String → Option (Entry Value)) : Type 0 where
    pub is_map : IsMap c
    pub same : (j : String) (x : Entry Value) → lookup j c ≡ some x → f j ≡ some x

  prune-Agrees :
      (c : IdempotencyCache Value) (f : String → Option (Entry Value)) (now : ℕ)
      → Agrees c f
      → Agrees (prune c now) f
  unfolding prune
  prune-Agrees c f now a = record {
    is_map = retain-IsMap (λ x. ltb (now - x.1.at) retention) c a.is_map;
    same = λ j x h.
        a.same j x
          (filtered-some (λ (y : Entry Value). ltb (now - y.at) retention) (lookup j c) x
            (sym (lookup-retain j (λ (y : Entry Value). ltb (now - y.at) retention) c a.is_map)
              ∙ h)).0;
  }

  evicted-Agrees :
      (c : IdempotencyCache Value) (f : String → Option (Entry Value))
      → Agrees c f
      → Agrees (evicted c) f
  evicted-Agrees c f a = elim (Option-cases (oldest c)) [
    | inl empty ↦ rw (evicted, empty) a
    | inr (x, first) ↦
        rw (evicted, first)
          (record {
            is_map = remove-IsMap x.0 c a.is_map;
            same = λ j y h. elim (Bool-cases (x.0 =? j)) [
              | inl here ↦ absurd (gone x.0 j y here h)
              | inr other ↦ a.same j y (sym (lookup-remove_ne x.0 j c other) ∙ h)
            ];
          })
  ]
    where
      gone : (k j : String) (y : Entry Value) → (k =? j) ≡ true → lookup j (remove k c) ≡ some y → ⊥
      gone k j y here h =
          let same : k ≡ j = (string_keys.beq_iff k j).0 here in
          cc (lookup-remove_self k c, ap (λ x. lookup x (remove k c)) same)

  pub record_response-Agrees :
      (c : IdempotencyCache Value) (f : String → Option (Entry Value)) (key : String)
      (fingerprint response : Value) (now : ℕ)
      → Agrees c f
      → Agrees
          (record_response c key fingerprint response now)
          (last_of f (records key fingerprint response now))
  unfolding record_response
  record_response-Agrees c f key fingerprint response now a =
      let x : Entry Value = record { at = now; fingerprint = fingerprint; response = response } in
      let kept = prune c now in
      let room = if leb max_entries (length kept) then evicted kept else kept in
      let b : Agrees room f = elim (Bool-cases (leb max_entries (length kept))) [
        | inl full ↦ rw full (evicted-Agrees kept f (prune-Agrees c f now a))
        | inr free ↦ rw free (prune-Agrees c f now a)
      ] in
      record {
        is_map = insert-IsMap key x room b.is_map;
        same = λ j y h. elim (Bool-cases (key =? j)) [
          | inl here ↦ rw here (sym (lookup-insert key j x room ∙ rw here refl) ∙ h)
          | inr other ↦ rw other (b.same j y (sym (lookup-insert key j x room ∙ rw other refl) ∙ h))
        ];
      }

  call-Agrees :
      (c : IdempotencyCache Value) (f : String → Option (Entry Value)) (x : Call Value)
      → Agrees c f
      → Agrees (call c x) (last_of f x)
  unfolding call replay
  call-Agrees c f (records key fingerprint response now) a =
      record_response-Agrees c f key fingerprint response now a
  call-Agrees c f (asks key fingerprint now) a = elim (Option-cases (lookup key (prune c now))) [
    | inl new ↦ rw (call, new) (prune-Agrees c f now a)
    | inr (x, known) ↦ elim (Bool-cases (x.fingerprint =? fingerprint)) [
      | inl same ↦ rw (call, known, same) (prune-Agrees c f now a)
      | inr other ↦ rw (call, known, other) (prune-Agrees c f now a)
    ]
  ]

  run-Agrees :
      (c : IdempotencyCache Value) (f : String → Option (Entry Value)) (xs : List (Call Value))
      → Agrees c f
      → Agrees (run c xs) (latest f xs)
  unfolding run latest
  run-Agrees c f [] a = a
  run-Agrees c f (x ∷ xs) a = run-Agrees (call c x) (last_of f x) xs (call-Agrees c f x a)

  -- What an answer of `replay` says of the last answer recorded for the key.
  abbrev pub Says : ℕ → Value → Option (Entry Value) → Replay Value → Type 0
  Says now fingerprint o fresh = Unit
  Says now fingerprint o (stored response) =
      (x : Entry Value) × (o ≡ some x)
      × ((x.response ≡ response) × (x.fingerprint ≡ fingerprint) × (now - x.at < retention))
  Says now fingerprint o mismatch =
      (x : Entry Value) × (o ≡ some x)
      × ((x.fingerprint =? fingerprint) ≡ false)
      × (now - x.at < retention)

-- Whatever was recorded, asked, forgotten and evicted before, a stored answer that is replayed is
-- the one recorded last for that very key, less than 48 hours ago and for the same request; and a
-- mismatch is reported only if the last one, as recent, was for another request.
pub replay-Says :
    {Value : Type 0} ⦃e : Eq Value⦄ (xs : List (Call Value)) (key : String) (fingerprint : Value)
    (now : ℕ)
    → Says now fingerprint (latest (λ j. none) xs key) (replay (run [] xs) key fingerprint now).1
unfolding replay lookup prune
replay-Says {Value = Value} ⦃e⦄ xs key fingerprint now =
    let c = run [] xs in
    let a = run-Agrees [] (λ j. none) xs (record { is_map = tt; same = λ j x h. cc }) in
    let young = λ (y : Entry Value). ltb (now - y.at) retention in
    elim (Option-cases (lookup key (prune c now))) [
      | inl new ↦ rw (replay, new) tt
      | inr (x, known) ↦
          let (held, recent) =
            filtered-some young (lookup key c) x
              (sym (lookup-retain key young c a.is_map) ∙ known) in
          let last = a.same key x held in
          let in_time = ltb→lt (now - x.at) retention recent in
          elim (Bool-cases (x.fingerprint =? fingerprint)) [
            | inl same ↦
                rw (replay, known, same)
                  (x, last, (refl, (e.beq_iff x.fingerprint fingerprint).0 same, in_time))
            | inr other ↦ rw (replay, known, other) (x, last, other, in_time)
          ]
    ]

oldest-lookup :
    {Value : Type 0} (c : IdempotencyCache Value) (x : String × Entry Value)
    → oldest c ≡ some x
    → is_some (lookup x.0 c) ≡ true
unfolding lookup
oldest-lookup [] x h = cc
oldest-lookup (y ∷ c) x h = elim (Option-cases (oldest c)) [
  | inl alone ↦ ground (arith, string_keys.beq_iff y.0 x.0)
  | inr (z, first) ↦ ground (arith, string_keys.beq_iff y.0 x.0, oldest-lookup c z first)
]

oldest-none : {Value : Type 0} (c : IdempotencyCache Value) → oldest c ≡ none → length c ≡ 0
oldest-none [] h = refl
oldest-none (y ∷ c) h = elim (Option-cases (oldest c)) [
  | inl alone ↦ ground arith
  | inr (z, first) ↦ ground arith
]

evicted-length :
    {Value : Type 0} (c : IdempotencyCache Value)
    → length c ≤ max_entries
    → length (evicted c) < max_entries
evicted-length c h = elim (Option-cases (oldest c)) [
  | inl empty ↦ rw (evicted, empty) (omega (arith, oldest-none c empty))
  | inr (x, first) ↦
      rw (evicted, first) (omega (arith, length-remove-lt x.0 c (oldest-lookup c x first)))
]

prune-length :
    {Value : Type 0} (c : IdempotencyCache Value) (now : ℕ) → length (prune c now) ≤ length c
unfolding prune
prune-length c now = length-retain-le (λ x. ltb (now - x.1.at) retention) c

record_response-length :
    {Value : Type 0} (c : IdempotencyCache Value) (key : String) (fingerprint response : Value)
    (now : ℕ)
    → length c ≤ max_entries
    → length (record_response c key fingerprint response now) ≤ max_entries
unfolding record_response
record_response-length c key fingerprint response now h =
    let kept = prune c now in
    elim (Bool-cases (leb max_entries (length kept))) [
      | inl full ↦
          rw (record_response, full)
            (ground (
              arith,
              length-insert key
                  (record { at = now; fingerprint = fingerprint; response = response })
                  (evicted kept),
              evicted-length kept,
              prune-length c now,
            ))
      | inr room ↦
          rw (record_response, room)
            (ground (
              arith,
              length-insert key
                  (record { at = now; fingerprint = fingerprint; response = response }) kept,
            ))
    ]

replay-cache :
    {Value : Type 0} ⦃e : Eq Value⦄ (c : IdempotencyCache Value) (key : String)
    (fingerprint : Value) (now : ℕ)
    → (replay c key fingerprint now).0 ≡ prune c now
unfolding replay
replay-cache c key fingerprint now = elim (Option-cases (lookup key (prune c now))) [
  | inl new ↦ rw (replay, new) refl
  | inr (x, known) ↦ elim (Bool-cases (x.fingerprint =? fingerprint)) [
    | inl same ↦ rw (replay, known, same) refl
    | inr other ↦ rw (replay, known, other) refl
  ]
]

call-length :
    {Value : Type 0} ⦃e : Eq Value⦄ (c : IdempotencyCache Value) (x : Call Value)
    → length c ≤ max_entries
    → length (call c x) ≤ max_entries
unfolding call
call-length c (records key fingerprint response now) h =
    record_response-length c key fingerprint response now h
call-length c (asks key fingerprint now) h =
    omega (arith, ap length (replay-cache c key fingerprint now), prune-length c now)

-- The cache never holds more than 256 answers, whatever is recorded and asked.
pub run-bounded :
    {Value : Type 0} ⦃e : Eq Value⦄ (c : IdempotencyCache Value) (xs : List (Call Value))
    → length c ≤ max_entries
    → length (run c xs) ≤ max_entries
unfolding run
run-bounded c [] h = h
run-bounded c (x ∷ xs) h = run-bounded (call c x) xs (call-length c x h)
