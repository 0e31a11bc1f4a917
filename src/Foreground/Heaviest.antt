-- ===== src/Foreground/Heaviest.antt =====
-- The heaviest entries are kept (src/foreground.rs, `retain_top`).
use nestwatch.Common.{
  ℕ, zero, suc, ◌+◌, ◌≤◌, ◌≡◌, refl, String, true, false, none, some, List, [], ◌∷◌, length, take,
  All, leb, if◌then◌else◌, arith, Bool-cases, inl, inr, length-take-le,
}
use nestwatch.Common.Keyed.{string_keys, lookup, IsMap, Fresh, ◌=?◌}
use nestwatch.Foreground.{before, insert_sorted, sort_heaviest, retain_top, claimed_secs}

claimed_secs-insert_sorted :
    (x : String × ℕ) (ys : List (String × ℕ))
    → claimed_secs (insert_sorted x ys) ≡ x.1 + claimed_secs ys
unfolding claimed_secs insert_sorted
claimed_secs-insert_sorted x [] = refl
claimed_secs-insert_sorted x (y ∷ ys) = ground (arith, claimed_secs-insert_sorted x ys)

claimed_secs-sort : (xs : List (String × ℕ)) → claimed_secs (sort_heaviest xs) ≡ claimed_secs xs
unfolding claimed_secs sort_heaviest
claimed_secs-sort [] = refl
claimed_secs-sort (x ∷ xs) =
    ground (arith, claimed_secs-insert_sorted x (sort_heaviest xs), claimed_secs-sort xs)

claimed_secs-take : (n : ℕ) (xs : List (String × ℕ)) → claimed_secs (take n xs) ≤ claimed_secs xs
unfolding claimed_secs
claimed_secs-take zero xs = omega arith
claimed_secs-take (suc n) [] = omega arith
claimed_secs-take (suc n) (x ∷ xs) = omega (arith, claimed_secs-take n xs)

pub claimed_secs-retain_top :
    (m : List (String × ℕ)) (n : ℕ) → claimed_secs (retain_top m n) ≤ claimed_secs m
unfolding retain_top
claimed_secs-retain_top m n =
    ground (arith, claimed_secs-take n (sort_heaviest m), claimed_secs-sort m)

pub length-retain_top : (m : List (String × ℕ)) (n : ℕ) → length (retain_top m n) ≤ n
unfolding retain_top
length-retain_top m n = ground (arith, length-take-le n (sort_heaviest m))

-- What holds of every entry holds of those kept.
module _ (P : String × ℕ → Type 0) where
  All-insert_sorted :
      (x : String × ℕ) (ys : List (String × ℕ)) → P x → All P ys → All P (insert_sorted x ys)
  unfolding insert_sorted
  All-insert_sorted x [] p h = (p, tt)
  All-insert_sorted x (y ∷ ys) p h = elim (Bool-cases (before x y)) [
    | inl first ↦ rw (insert_sorted, first) (p, h)
    | inr later ↦ rw (insert_sorted, later) (h.0, All-insert_sorted x ys p h.1)
  ]

  All-sort : (xs : List (String × ℕ)) → All P xs → All P (sort_heaviest xs)
  unfolding sort_heaviest
  All-sort [] h = tt
  All-sort (x ∷ xs) h = All-insert_sorted x (sort_heaviest xs) h.0 (All-sort xs h.1)

  All-take : (n : ℕ) (xs : List (String × ℕ)) → All P xs → All P (take n xs)
  All-take zero xs h = tt
  All-take (suc n) [] h = tt
  All-take (suc n) (x ∷ xs) h = (h.0, All-take n xs h.1)

  pub All-retain_top : (m : List (String × ℕ)) (n : ℕ) → All P m → All P (retain_top m n)
  unfolding retain_top
  All-retain_top m n h = elim (Bool-cases (leb (length m) n)) [
    | inl small ↦ rw (retain_top, small) h
    | inr large ↦ rw (retain_top, large) (All-take n (sort_heaviest m) (All-sort m h))
  ]

lookup-insert_sorted :
    (k j : String) (v : ℕ) (ys : List (String × ℕ))
    → Fresh j ys
    → lookup k (insert_sorted (j, v) ys) ≡ (if j =? k then some v else lookup k ys)
unfolding lookup insert_sorted
lookup-insert_sorted k j v [] h = refl
lookup-insert_sorted k j v ((i, w) ∷ ys) h = ground (
  arith,
  string_keys.beq_iff i j,
  string_keys.beq_iff j k,
  string_keys.beq_iff i k,
  lookup-insert_sorted k j v ys h.1,
)

Fresh-All : (k : String) (m : List (String × ℕ)) → Fresh k m → All (λ x. (x.0 =? k) ≡ false) m
Fresh-All k [] h = tt
Fresh-All k (x ∷ m) h = (h.0, Fresh-All k m h.1)

All-Fresh : (k : String) (m : List (String × ℕ)) → All (λ x. (x.0 =? k) ≡ false) m → Fresh k m
All-Fresh k [] h = tt
All-Fresh k (x ∷ m) h = (h.0, All-Fresh k m h.1)

Fresh-sort : (k : String) (m : List (String × ℕ)) → Fresh k m → Fresh k (sort_heaviest m)
Fresh-sort k m h =
    All-Fresh k (sort_heaviest m) (All-sort (λ x. (x.0 =? k) ≡ false) m (Fresh-All k m h))

pub lookup-sort :
    (k : String) (m : List (String × ℕ)) → IsMap m → lookup k (sort_heaviest m) ≡ lookup k m
unfolding lookup sort_heaviest
lookup-sort k [] h = refl
lookup-sort k ((j, v) ∷ m) h =
    ground (
      arith,
      lookup-insert_sorted k j v (sort_heaviest m) (Fresh-sort j m h.0),
      lookup-sort k m h.1,
    )

abbrev pub Descending : List (String × ℕ) → Type 0
Descending [] = Unit
Descending (x ∷ xs) = All (λ (y : String × ℕ). y.1 ≤ x.1) xs × Descending xs

before-heavier : (x y : String × ℕ) → before x y ≡ true → y.1 ≤ x.1
before-heavier x y h = ground arith

after-lighter : (x y : String × ℕ) → before x y ≡ false → x.1 ≤ y.1
after-lighter x y h = ground arith

at_most :
    (a b : ℕ) (ys : List (String × ℕ))
    → a ≤ b
    → All (λ (y : String × ℕ). y.1 ≤ a) ys
    → All (λ (y : String × ℕ). y.1 ≤ b) ys
at_most a b [] le h = tt
at_most a b (y ∷ ys) le h = (omega arith, at_most a b ys le h.1)

Descending-insert_sorted :
    (x : String × ℕ) (ys : List (String × ℕ)) → Descending ys → Descending (insert_sorted x ys)
unfolding insert_sorted
Descending-insert_sorted x [] h = (tt, tt)
Descending-insert_sorted x (y ∷ ys) h = elim (Bool-cases (before x y)) [
  | inl first ↦
      rw (insert_sorted, first)
        ((before-heavier x y first, at_most y.1 x.1 ys (before-heavier x y first) h.0), h)
  | inr later ↦
      rw (insert_sorted, later)
        (
          All-insert_sorted (λ (z : String × ℕ). z.1 ≤ y.1) x ys (after-lighter x y later) h.0,
          Descending-insert_sorted x ys h.1,
        )
]

pub sort-Descending : (xs : List (String × ℕ)) → Descending (sort_heaviest xs)
unfolding sort_heaviest
sort-Descending [] = tt
sort-Descending (x ∷ xs) = Descending-insert_sorted x (sort_heaviest xs) (sort-Descending xs)

lookup-All :
    (k : String) (v b : ℕ) (ys : List (String × ℕ))
    → All (λ (y : String × ℕ). y.1 ≤ b) ys
    → lookup k ys ≡ some v
    → v ≤ b
unfolding lookup
lookup-All k v b [] h found = absurd cc
lookup-All k v b ((i, w) ∷ ys) h found = ground (arith, lookup-All k v b ys h.1)

pub lookup-take :
    (k : String) (v n : ℕ) (xs : List (String × ℕ))
    → lookup k (take n xs) ≡ some v
    → lookup k xs ≡ some v
unfolding lookup
lookup-take k v zero xs found = absurd cc
lookup-take k v (suc n) [] found = found
lookup-take k v (suc n) ((i, w) ∷ xs) found = ground (arith, lookup-take k v n xs)

pub take-heavier :
    (k j : String) (v w n : ℕ) (xs : List (String × ℕ))
    → Descending xs
    → lookup k (take n xs) ≡ some v
    → lookup j xs ≡ some w
    → lookup j (take n xs) ≡ none
    → w ≤ v
unfolding lookup
take-heavier k j v w zero xs h kept found dropped = absurd cc
take-heavier k j v w (suc n) [] h kept found dropped = absurd cc
take-heavier k j v w (suc n) ((i, u) ∷ xs) h kept found dropped =
    ground (arith, take-heavier k j v w n xs h.1, lookup-All j w u xs h.0)

-- What is kept is as it was.
pub lookup-retain_top :
    (k : String) (v n : ℕ) (m : List (String × ℕ))
    → IsMap m
    → lookup k (retain_top m n) ≡ some v
    → lookup k m ≡ some v
unfolding retain_top
lookup-retain_top k v n m is_map kept =
    ground (arith, lookup-sort k m is_map, lookup-take k v n (sort_heaviest m))

-- A cap keeps the heaviest: an entry that is dropped is no heavier than one that is kept.
pub retain_top-heavier :
    (k j : String) (v w n : ℕ) (m : List (String × ℕ))
    → IsMap m
    → lookup k (retain_top m n) ≡ some v
    → lookup j m ≡ some w
    → lookup j (retain_top m n) ≡ none
    → w ≤ v
unfolding retain_top
retain_top-heavier k j v w n m is_map kept found dropped =
    ground
      (arith, lookup-sort j m is_map, take-heavier k j v w n (sort_heaviest m) (sort-Descending m))

pub sort-IsMap : (m : List (String × ℕ)) → IsMap m → IsMap (sort_heaviest m)
unfolding sort_heaviest insert_sorted
sort-IsMap [] h = tt
sort-IsMap ((j, v) ∷ m) h =
    insert_sorted-IsMap (j, v) (sort_heaviest m) (Fresh-sort j m h.0) (sort-IsMap m h.1)
  where
    insert_sorted-IsMap :
        (x : String × ℕ) (ys : List (String × ℕ))
        → Fresh x.0 ys
        → IsMap ys
        → IsMap (insert_sorted x ys)
    insert_sorted-IsMap x [] f h = (tt, tt)
    insert_sorted-IsMap x (y ∷ ys) f h = elim (Bool-cases (before x y)) [
      | inl first ↦ rw (insert_sorted, first) (f, h)
      | inr later ↦
          rw (insert_sorted, later)
            (
              All-Fresh y.0 (insert_sorted x ys) (
                  All-insert_sorted (λ z. (z.0 =? y.0) ≡ false) x ys
                    (ground (arith, string_keys.beq_iff x.0 y.0, string_keys.beq_iff y.0 x.0))
                    (Fresh-All y.0 ys h.0)),
              insert_sorted-IsMap x ys f.1 h.1,
            )
    ]

take-IsMap : (n : ℕ) (m : List (String × ℕ)) → IsMap m → IsMap (take n m)
take-IsMap zero m h = tt
take-IsMap (suc n) [] h = tt
take-IsMap (suc n) (x ∷ m) h = (
  All-Fresh x.0 (take n m) (All-take (λ z. (z.0 =? x.0) ≡ false) n m (Fresh-All x.0 m h.0)),
  take-IsMap n m h.1,
)

pub retain_top-IsMap : (m : List (String × ℕ)) (n : ℕ) → IsMap m → IsMap (retain_top m n)
unfolding retain_top
retain_top-IsMap m n h = elim (Bool-cases (leb (length m) n)) [
  | inl small ↦ rw (retain_top, small) h
  | inr large ↦ rw (retain_top, large) (take-IsMap n (sort_heaviest m) (sort-IsMap m h))
]
