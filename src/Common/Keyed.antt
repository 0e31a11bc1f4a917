-- ===== src/Common/Keyed.antt =====
-- Maps and sets by key (`HashMap`, `BTreeMap`, `BTreeSet`) as association lists, and the interface
-- of a key's equality. No code of the program is modelled here: an entry keeps its place in the
-- list, and no theorem rests on the order of a map's entries.
use Prim.Native.String.{String}
use text.Mathlib.Text.{◌==◌ as str_eq}
use text.Mathlib.TextEquality.{eq_iff}
use Prim.Native.Nat.{ℕ, suc, ◌≤◌, ◌<◌}
use mathlib.Core.Path.{◌≡◌, refl}
use mathlib.Core.Logic.{◌↔◌, inl, inr}
use mathlib.Core.Bool.{Bool, true, false, ◌&&◌}
use mathlib.Core.Option.{Option, none, some}
use mathlib.Core.List.{List, [], ◌∷◌}
use native.Mathlib.Omega.{arith}
use nestwatch.Common.Tests.{◌==◌ as nat_eq, ==_iff, if◌then◌else◌, Bool-cases, is_some}
use nestwatch.Common.Lists.{length, any, retain}

pub record Eq {ℓ} (A : Type ℓ) : Type ℓ where
  pub beq : A → A → Bool
  pub beq_iff : (a b : A) → (beq a b ≡ true) ↔ (a ≡ b)

infix 50 ◌=?◌
abbrev pub ◌=?◌ {ℓ} : {A : Type ℓ} ⦃e : Eq A⦄ → A → A → Bool
◌=?◌ ⦃e⦄ = e.beq

instance abbrev pub nat_keys : Eq ℕ
nat_keys = record { beq = nat_eq; beq_iff = ==_iff }

instance abbrev pub string_keys : Eq String
string_keys = record { beq = str_eq; beq_iff = eq_iff }

abbrev pub bytes_eq : List ℕ → List ℕ → Bool
bytes_eq [] [] = true
bytes_eq [] (y ∷ b) = false
bytes_eq (x ∷ a) [] = false
bytes_eq (x ∷ a) (y ∷ b) = nat_eq x y && bytes_eq a b

pub bytes_eq_iff : (a b : List ℕ) → (bytes_eq a b ≡ true) ↔ (a ≡ b)
bytes_eq_iff [] [] = (λ _. refl, λ _. refl)
bytes_eq_iff [] (y ∷ b) = (λ h. absurd cc, λ h. absurd cc)
bytes_eq_iff (x ∷ a) [] = (λ h. absurd cc, λ h. absurd cc)
bytes_eq_iff (x ∷ a) (y ∷ b) = ground (arith, bytes_eq_iff a b)

instance abbrev pub bytes_keys : Eq (List ℕ)
bytes_keys = record { beq = bytes_eq; beq_iff = bytes_eq_iff }

module _ {ℓ} {A : Type ℓ} ⦃e : Eq A⦄ where
  pub beq_self : (a : A) → (a =? a) ≡ true
  beq_self a = (e.beq_iff a a).1 refl

  unfoldable pub mem? : A → List A → Bool
  mem? a xs = any (λ x. x =? a) xs

-- `filter` of an option.
abbrev pub filtered {κ} : {V : Type κ} → (V → Bool) → Option V → Option V
filtered p none = none
filtered p (some v) = if p v then some v else none

pub filtered-some {κ} :
    {V : Type κ} (p : V → Bool) (o : Option V) (v : V)
    → filtered p o ≡ some v
    → (o ≡ some v) × (p v ≡ true)
filtered-some p none v h = cc
filtered-some p (some w) v h = ground arith

abbrev pub applied {κ} : {V : Type κ} → (V → V) → Option V → Option V
applied f none = none
applied f (some v) = some (f v)

module _ {ℓ κ} {K : Type ℓ} {V : Type κ} ⦃e : Eq K⦄ where
  unfoldable pub lookup : K → List (K × V) → Option V
  lookup k [] = none
  lookup k ((j, v) ∷ m) = if j =? k then some v else lookup k m

  unfoldable pub insert : K → V → List (K × V) → List (K × V)
  insert k v [] = (k, v) ∷ []
  insert k v ((j, w) ∷ m) = if j =? k then (j, v) ∷ m else (j, w) ∷ insert k v m

  unfoldable pub remove : K → List (K × V) → List (K × V)
  remove k [] = []
  remove k ((j, w) ∷ m) = let rest = remove k m in if j =? k then rest else (j, w) ∷ rest

  pub lookup-insert :
      (k j : K) (v : V) (m : List (K × V))
      → lookup j (insert k v m) ≡ (if k =? j then some v else lookup j m)
  unfolding lookup insert
  lookup-insert k j v [] = refl
  lookup-insert k j v ((i, w) ∷ m) =
      ground (arith, e.beq_iff k j, e.beq_iff i k, e.beq_iff i j, lookup-insert k j v m)

  pub lookup-insert_self : (k : K) (v : V) (m : List (K × V)) → lookup k (insert k v m) ≡ some v
  lookup-insert_self k v m = rw (lookup-insert, beq_self k)

  pub lookup-remove_self : (k : K) (m : List (K × V)) → lookup k (remove k m) ≡ none
  unfolding lookup remove
  lookup-remove_self k [] = refl
  lookup-remove_self k ((i, w) ∷ m) = ground (arith, lookup-remove_self k m)

  pub lookup-remove_ne :
      (k j : K) (m : List (K × V)) → (k =? j) ≡ false → lookup j (remove k m) ≡ lookup j m
  unfolding lookup remove
  lookup-remove_ne k j [] h = refl
  lookup-remove_ne k j ((i, w) ∷ m) h =
      ground (arith, e.beq_iff k j, e.beq_iff i k, e.beq_iff i j, lookup-remove_ne k j m h)

  pub length-insert :
      (k : K) (v : V) (m : List (K × V))
      → length (insert k v m) ≡ (if is_some (lookup k m) then length m else suc (length m))
  unfolding insert lookup
  length-insert k v [] = refl
  length-insert k v ((i, w) ∷ m) = ground (arith, length-insert k v m)

  -- No entry has the key; and the keys of a map are distinct.
  abbrev pub Fresh : K → List (K × V) → Type 0
  Fresh k [] = Unit
  Fresh k ((j, v) ∷ m) = ((j =? k) ≡ false) × Fresh k m

  abbrev pub IsMap : List (K × V) → Type 0
  IsMap [] = Unit
  IsMap ((k, v) ∷ m) = Fresh k m × IsMap m

  pub lookup-Fresh : (k : K) (m : List (K × V)) → Fresh k m → lookup k m ≡ none
  unfolding lookup
  lookup-Fresh k [] h = refl
  lookup-Fresh k ((j, v) ∷ m) h = ground (arith, lookup-Fresh k m h.1)

  Fresh-insert :
      (k j : K) (v : V) (m : List (K × V)) → (j =? k) ≡ false → Fresh k m → Fresh k (insert j v m)
  unfolding insert
  Fresh-insert k j v [] h f = (h, tt)
  Fresh-insert k j v ((i, w) ∷ m) h f = elim (Bool-cases (i =? j)) [
    | inl same ↦ rw (same, insert) f
    | inr other ↦ rw (other, insert) (f.0, Fresh-insert k j v m h f.1)
  ]

  pub insert-IsMap : (k : K) (v : V) (m : List (K × V)) → IsMap m → IsMap (insert k v m)
  unfolding insert
  insert-IsMap k v [] h = (tt, tt)
  insert-IsMap k v ((i, w) ∷ m) h = elim (Bool-cases (i =? k)) [
    | inl same ↦ rw (same, insert) h
    | inr other ↦
        rw (other, insert)
          (
            Fresh-insert i k v m (ground (arith, e.beq_iff i k, e.beq_iff k i)) h.0,
            insert-IsMap k v m h.1,
          )
  ]

  Fresh-retain : (k : K) (p : K × V → Bool) (m : List (K × V)) → Fresh k m → Fresh k (retain p m)
  Fresh-retain k p [] h = h
  Fresh-retain k p ((i, w) ∷ m) h = elim (Bool-cases (p (i, w))) [
    | inl keep ↦ rw keep (h.0, Fresh-retain k p m h.1)
    | inr drop ↦ rw drop (Fresh-retain k p m h.1)
  ]

  pub retain-IsMap : (p : K × V → Bool) (m : List (K × V)) → IsMap m → IsMap (retain p m)
  retain-IsMap p [] h = h
  retain-IsMap p ((i, w) ∷ m) h = elim (Bool-cases (p (i, w))) [
    | inl keep ↦ rw keep (Fresh-retain i p m h.0, retain-IsMap p m h.1)
    | inr drop ↦ rw drop (retain-IsMap p m h.1)
  ]

  -- After `retain` by a test of the value, a key's entry is there if it passes the test.
  pub lookup-retain :
      (k : K) (p : V → Bool) (m : List (K × V))
      → IsMap m
      → lookup k (retain (λ x. p x.1) m) ≡ filtered p (lookup k m)
  unfolding lookup
  lookup-retain k p [] h = refl
  lookup-retain k p ((i, w) ∷ m) h =
      ground (arith, e.beq_iff i k, lookup-retain k p m h.1, lookup-Fresh i m h.0)

  -- `retain` with a change of each value that is kept, as in `retain(|_, v| …)` on a map.
  unfoldable pub map_values : (V → V) → List (K × V) → List (K × V)
  map_values f [] = []
  map_values f ((j, v) ∷ m) = (j, f v) ∷ map_values f m

  Fresh-map_values : (k : K) (f : V → V) (m : List (K × V)) → Fresh k m → Fresh k (map_values f m)
  unfolding map_values
  Fresh-map_values k f [] h = h
  Fresh-map_values k f ((i, w) ∷ m) h = (h.0, Fresh-map_values k f m h.1)

  pub map_values-IsMap : (f : V → V) (m : List (K × V)) → IsMap m → IsMap (map_values f m)
  unfolding map_values
  map_values-IsMap f [] h = h
  map_values-IsMap f ((i, w) ∷ m) h = (Fresh-map_values i f m h.0, map_values-IsMap f m h.1)

  pub lookup-map_values :
      (k : K) (f : V → V) (m : List (K × V)) → lookup k (map_values f m) ≡ applied f (lookup k m)
  unfolding lookup map_values
  lookup-map_values k f [] = refl
  lookup-map_values k f ((i, w) ∷ m) = elim (Bool-cases (i =? k)) [
    | inl same ↦ rw same refl
    | inr other ↦ rw other (lookup-map_values k f m)
  ]

  Fresh-remove : (k j : K) (m : List (K × V)) → Fresh k m → Fresh k (remove j m)
  unfolding remove
  Fresh-remove k j [] h = h
  Fresh-remove k j ((i, w) ∷ m) h = elim (Bool-cases (i =? j)) [
    | inl same ↦ rw same (Fresh-remove k j m h.1)
    | inr other ↦ rw other (h.0, Fresh-remove k j m h.1)
  ]

  pub remove-IsMap : (k : K) (m : List (K × V)) → IsMap m → IsMap (remove k m)
  unfolding remove
  remove-IsMap k [] h = h
  remove-IsMap k ((i, w) ∷ m) h = elim (Bool-cases (i =? k)) [
    | inl same ↦ rw same (remove-IsMap k m h.1)
    | inr other ↦ rw other (Fresh-remove i k m h.0, remove-IsMap k m h.1)
  ]

  pub length-remove-le : (k : K) (m : List (K × V)) → length (remove k m) ≤ length m
  unfolding remove
  length-remove-le k [] = omega arith
  length-remove-le k ((i, w) ∷ m) = ground (arith, length-remove-le k m)

  pub length-remove-lt :
      (k : K) (m : List (K × V)) → is_some (lookup k m) ≡ true → length (remove k m) < length m
  unfolding remove lookup
  length-remove-lt k [] h = cc
  length-remove-lt k ((i, w) ∷ m) h = ground (arith, length-remove-lt k m, length-remove-le k m)
