-- ===== src/Config/Tightest.antt =====
-- The cap that the shut gates put on the day (`Config::gate_cap_mins` of src/config.rs).
use nestwatch.Common.{
  ℕ, ◌≤◌, ◌≡◌, refl, sym, ◌∙◌, ap, ◌⊎◌, inl, inr, String, true, Option, none, some, List, [], ◌∷◌,
  min, unwrap_or, arith, Option-cases,
}
use mathlib.Core.Path.{subst}
use mathlib.Core.List.{Memᴰ}
use nestwatch.Common.Keyed.{string_keys, lookup}
use nestwatch.Config.{
  Config, Provider, min_of, allowance, allowances, gate_cap_mins, gate_read_back, lifted,
}

module _ (c : Config) (d : ℕ) (not_checking : List String) where
  abbrev capped : String × Provider → Option ℕ
  capped x = allowance c d not_checking x

  -- The smallest of the allowances of some providers, if one of them has one.
  abbrev pub IsTightest : List (String × Provider) → Option ℕ → Type 0
  IsTightest ps none = (x : String × Provider) → Memᴰ x ps → capped x ≡ none
  IsTightest ps (some m) =
      ((x : String × Provider) (n : ℕ) → Memᴰ x ps → capped x ≡ some n → m ≤ n)
      × ((x : String × Provider) × Memᴰ x ps × (capped x ≡ some m))

  apart : (z : String × Provider) (k : ℕ) → capped z ≡ none → capped z ≡ some k → ⊥
  apart z k a b = cc

  le_total : (a b : ℕ) → (a ≤ b) ⊎ (b ≤ a)
  le_total a b = omega arith

  some-inj : {a b : ℕ} → some a ≡ some b → a ≡ b
  some-inj h = cc

  in_cons :
      (P : String × Provider → Type 0) (x y : String × Provider) (ps : List (String × Provider))
      → P x
      → ((z : String × Provider) → Memᴰ z ps → P z)
      → Memᴰ y (x ∷ ps)
      → P y
  in_cons P x y ps here there (Memᴰ.head e) = subst P (sym e) here
  in_cons P x y ps here there (Memᴰ.tail m) = there y m

  none-cons :
      (x : String × Provider) (ps : List (String × Provider)) (o : Option ℕ)
      → capped x ≡ none
      → IsTightest ps o
      → IsTightest (x ∷ ps) o
  none-cons x ps none h t = λ y m. in_cons (λ z. capped z ≡ none) x y ps h t m
  none-cons x ps (some k) h t = (
    λ y n m. in_cons (λ z. capped z ≡ some n → k ≤ n) x y ps (λ e. cc) (λ z. t.0 z n) m,
    let (y, m, e) = t.1 in (y, Memᴰ.tail m, e),
  )

  some-cons :
      (x : String × Provider) (ps : List (String × Provider)) (n : ℕ) (o : Option ℕ)
      → capped x ≡ some n
      → IsTightest ps o
      → IsTightest (x ∷ ps) (some (min n (unwrap_or o n)))
  some-cons x ps n none h t = (
    λ y k m.
        in_cons (λ z. capped z ≡ some k → min n n ≤ k) x y ps
          (λ e. omega (arith, some-inj (sym h ∙ e))) (λ z w e. absurd (apart z k (t z w) e)) m,
    (x, Memᴰ.head refl, h ∙ ap some (omega arith)),
  )
  some-cons x ps n (some k) h t = elim (le_total n k) [
    | inl le ↦ (
      λ y j m.
          in_cons (λ z. capped z ≡ some j → min n k ≤ j) x y ps
            (λ e. omega (arith, some-inj (sym h ∙ e))) (λ z w e. omega (arith, t.0 z j w e)) m,
      (x, Memᴰ.head refl, h ∙ ap some (omega arith)),
    )
    | inr ge ↦ (
      λ y j m.
          in_cons (λ z. capped z ≡ some j → min n k ≤ j) x y ps
            (λ e. omega (arith, some-inj (sym h ∙ e))) (λ z w e. omega (arith, t.0 z j w e)) m,
      let (y, m, e) = t.1 in (y, Memᴰ.tail m, e ∙ ap some (omega arith)),
    )
  ]

  min_of-IsTightest :
      (ps : List (String × Provider)) → IsTightest ps (min_of (allowances c d not_checking ps))
  min_of-IsTightest [] = λ x m. elim m [ ]
  min_of-IsTightest (x ∷ ps) =
      let rest = min_of (allowances c d not_checking ps) in
      elim (Option-cases (capped x)) [
        | inl free ↦ rw (allowances, free) (none-cons x ps rest free (min_of-IsTightest ps))
        | inr (n, held) ↦ rw (allowances, held) (some-cons x ps n rest held (min_of-IsTightest ps))
      ]

-- The cap of a day is the smallest allowance of a provider that has one, and there is none if no
-- provider has one; a provider whose gate is open has none, so an open gate never limits the day.
pub gate_cap-IsTightest :
    (c : Config) (d : ℕ) (not_checking : List String)
    → IsTightest c d not_checking c.providers (gate_cap_mins c d not_checking)
      × ((s : String) (p : Provider)
          → lookup s c.providers ≡ some p
          → lifted c s d ≡ true
          → allowance c d not_checking (s, p) ≡ none)
unfolding gate_cap_mins gate_read_back allowance
gate_cap-IsTightest c d not_checking =
    (min_of-IsTightest c d not_checking c.providers, λ s p found open_now. ground arith)
