-- ===== src/Auth/Reach.antt =====
-- What a paired integration may reach (`integration_may_reach` of src/auth.rs).
use nestwatch.Common.{
  ℕ, ◌≡◌, ◌↔◌, ◌⊎◌, inl, inr, refl, ap, ◌∙◌, Bool, true, false, none, some, List, [], ◌∷◌, ◌++◌,
  length, length-append, if◌then◌else◌, arith, Bool-cases, Option-cases, ==_iff,
}
use nestwatch.Common.Keyed.{◌=?◌, bytes_keys, bytes_eq_iff, beq_self}
use nestwatch.Auth.{
  Method, get, post, head, other, chars, strip_prefix, strip_suffix, under_api, names_secret_of,
  integration_may_reach,
}

strip_prefix-some : (p s r : List ℕ) → strip_prefix p s ≡ some r → s ≡ p ++ r
strip_prefix-some [] s r h = cc
strip_prefix-some (x ∷ p) [] r h = cc
strip_prefix-some (x ∷ p) (y ∷ s) r h = ground (arith, strip_prefix-some p s r, ==_iff x y)

longer : (x : ℕ) (r p : List ℕ) → (p =? (x ∷ (r ++ p))) ≡ false
longer x r p = elim (Bool-cases (p =? (x ∷ (r ++ p)))) [
  | inl same ↦
      absurd omega (arith, ap length ((bytes_eq_iff p (x ∷ (r ++ p))).0 same), length-append r p)
  | inr differs ↦ differs
]

strip_suffix-append : (p r : List ℕ) → strip_suffix p (r ++ p) ≡ some r
unfolding strip_suffix
strip_suffix-append [] [] = refl
strip_suffix-append (y ∷ p) [] = ground (arith, beq_self (y ∷ p))
strip_suffix-append p (x ∷ r) = ground (arith, strip_suffix-append p r, longer x r p)

strip_suffix-some : (p s r : List ℕ) → strip_suffix p s ≡ some r → s ≡ r ++ p
unfolding strip_suffix
strip_suffix-some p [] r h = ground (arith, bytes_eq_iff p [])
strip_suffix-some p (x ∷ s) r h = elim (Bool-cases (p =? (x ∷ s))) [
  | inl whole ↦ ground (arith, bytes_eq_iff p (x ∷ s))
  | inr differs ↦ elim (Option-cases (strip_suffix p s)) [
    | inl miss ↦ absurd ground arith
    | inr (rest, hit) ↦ ground (arith, strip_suffix-some p s rest)
  ]
]

names_secret_of_iff :
    (path source : List ℕ)
    → (names_secret_of path source ≡ true)
      ↔ (path ≡ chars "/providers/" ++ (source ++ chars "/secret"))
names_secret_of_iff path source = (
  (λ h. elim (Option-cases (strip_prefix (chars "/providers/") path)) [
    | inl miss ↦ absurd ground arith
    | inr (rest, hit) ↦ elim (Option-cases (strip_suffix (chars "/secret") rest)) [
      | inl miss ↦ absurd ground arith
      | inr (name, cut) ↦
          strip_prefix-some (chars "/providers/") path rest hit
          ∙ ap (λ r. chars "/providers/" ++ r)
              (strip_suffix-some (chars "/secret") rest name cut
                ∙ ap (λ n. n ++ chars "/secret") ((bytes_eq_iff name source).0 (ground arith)))
    ]
  ]),
  (λ h. rw (h, strip_suffix-append (chars "/secret") source) (beq_self source)),
)

-- The path is this one, by itself or below `/api`.
abbrev pub Names : List ℕ → List ℕ → Type 0
Names path place = (path ≡ place) ⊎ (path ≡ chars "/api" ++ place)

-- The place stands on its own: it is not itself below `/api`.
under_api-Names :
    (path place : List ℕ)
    → strip_prefix (chars "/api") place ≡ none
    → (under_api path ≡ place) ↔ Names path place
under_api-Names path place alone = (
  (λ h. elim (Option-cases (strip_prefix (chars "/api") path)) [
    | inl miss ↦ inl (ground arith)
    | inr (rest, hit) ↦ inr (ground (arith, strip_prefix-some (chars "/api") path rest hit))
  ]),
  (λ h. elim h [ inl same ↦ rw (same, alone) refl | inr below ↦ rw below refl ]),
)

-- An integration may push earned time, read the day's total, and deposit its own secret.
abbrev pub MayReach : Method → List ℕ → List ℕ → Type 0
MayReach method path source =
    ((method ≡ post) × Names path (chars "/extra-time"))
    ⊎ (((method ≡ get) × Names path (chars "/usage/today"))
        ⊎ ((method ≡ post) × Names path (chars "/providers/" ++ (source ++ chars "/secret"))))

either_true : (a : Bool) {b : Bool} → b ≡ true → (if a then true else b) ≡ true
either_true true h = refl
either_true false h = h

pub integration_may_reach-MayReach :
    (method : Method) (path source : List ℕ)
    → (integration_may_reach method path source ≡ true) ↔ MayReach method path source
unfolding integration_may_reach
integration_may_reach-MayReach get path source =
    let total = under_api-Names path (chars "/usage/today") refl in
    (
      (λ h. inr (inl (refl, total.0 ((bytes_eq_iff _ _).0 h)))),
      (λ h. elim h [
        | inl (m, n) ↦ absurd cc
        | inr (inl (m, n)) ↦ (bytes_eq_iff _ _).1 (total.1 n)
        | inr (inr (m, n)) ↦ absurd cc
      ]),
    )
integration_may_reach-MayReach post path source =
    let earned = under_api-Names path (chars "/extra-time") refl in
    let place = chars "/providers/" ++ (source ++ chars "/secret") in
    let own = under_api-Names path place refl in
    let secret = names_secret_of_iff (under_api path) source in
    (
      (λ h. elim (Bool-cases (under_api path =? chars "/extra-time")) [
        | inl yes_time ↦ inl (refl, earned.0 ((bytes_eq_iff _ _).0 yes_time))
        | inr no_time ↦ inr (inr (refl, own.0 (secret.0 (rw no_time at h))))
      ]),
      (λ h. elim h [
        | inl (m, n) ↦ rw ((bytes_eq_iff _ _).1 (earned.1 n)) refl
        | inr (inl (m, n)) ↦ absurd cc
        | inr (inr (m, n)) ↦
            either_true (under_api path =? chars "/extra-time") (secret.1 (own.1 n))
      ]),
    )
integration_may_reach-MayReach head path source = (λ h. absurd cc, λ h. ground arith)
integration_may_reach-MayReach other path source = (λ h. absurd cc, λ h. ground arith)
