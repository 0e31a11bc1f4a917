-- ===== src/Token/Compare.antt =====
-- The comparison in constant time is equality, and a code is what a reader of it types (src/token.rs).
use Prim.Native.Nat.{bit_or, bit_xor, digits, differ, bit_or-bitwise, bit_xor-bitwise}
use native.Mathlib.Nat.{le_refl}
use mathlib.Core.Path.{subst}
use nestwatch.Common.{
  ℕ, zero, suc, ◌/◌, ◌%◌, ◌≤◌, ◌<◌, max, ◌≡◌, refl, sym, ◌∙◌, ap, ◌↔◌, Bool, true, ◌&&◌, List, [],
  ◌∷◌, length, all, get_elem?, unwrap_or, ◌==◌, arith,
}
use nestwatch.Token.{
  symbol, is_ascii_alphanumeric, to_ascii_uppercase, random, differences, eq_ct, normalize,
  alphabet,
}

-- Where the digits of a bitwise operation are zero.
digits-zero :
    (z : ℕ → ℕ) (f : ℕ → ℕ → ℕ)
    → (R : ℕ → ℕ → Type 0) → ((b : ℕ) → z b ≡ 0 → R 0 b)
    → ((a b : ℕ) → R (a / 2) (b / 2) → f (a % 2) (b % 2) ≡ 0 → R a b)
    → (n a b : ℕ) → a ≤ n
    → digits z f n a b ≡ 0
    → R a b
digits-zero z f R base step zero zero b le h = base b h
digits-zero z f R base step (suc n) zero b le h = base b h
digits-zero z f R base step zero (suc a) b le h = absurd (omega arith)
digits-zero z f R base step (suc n) (suc a) b le h =
    step (suc a) b (digits-zero z f R base step n (suc a / 2) (b / 2) (omega arith) (omega arith))
      (omega arith)

bit_xor-digits : (a b : ℕ) → bit_xor a b ≡ digits (λ y. y) differ a a b
bit_xor-digits a b = simp bit_xor-bitwise refl

bit_or-digits : (a b : ℕ) → bit_or a b ≡ digits (λ y. y) max a a b
bit_or-digits a b = simp bit_or-bitwise refl

bit_xor-zero : (a b : ℕ) → bit_xor a b ≡ 0 → a ≡ b
bit_xor-zero a b h =
    digits-zero (λ y. y) differ (λ x y. x ≡ y) (λ y e. omega arith)
      (λ x y halves digit. omega (arith, differ-zero (x % 2) (y % 2) digit)) a a b (le_refl a)
      (sym (bit_xor-digits a b) ∙ h)
  where
    differ-zero : (x y : ℕ) → differ x y ≡ 0 → x ≡ y
    differ-zero zero y e = omega arith
    differ-zero (suc x) zero e = absurd (omega arith)
    differ-zero (suc x) (suc y) e = omega (arith, differ-zero x y e)

bit_or-zero : (a b : ℕ) → bit_or a b ≡ 0 → (a ≡ 0) × (b ≡ 0)
bit_or-zero a b h =
    digits-zero (λ y. y) max (λ x y. (x ≡ 0) × (y ≡ 0)) (λ y e. (refl, e))
      (λ x y halves digit. omega arith) a a b (le_refl a) (sym (bit_or-digits a b) ∙ h)

bit_xor_self : (a : ℕ) → bit_xor a a ≡ 0
bit_xor_self a = bit_xor-digits a a ∙ go a a (le_refl a)
  where
    differ_self : (x : ℕ) → differ x x ≡ 0
    differ_self zero = refl
    differ_self (suc x) = differ_self x

    go : (n x : ℕ) → x ≤ n → digits (λ y. y) differ n x x ≡ 0
    go zero zero le = refl
    go (suc n) zero le = refl
    go zero (suc x) le = absurd (omega arith)
    go (suc n) (suc x) le = omega (arith, go n (suc x / 2) (omega arith), differ_self (suc x % 2))

differences-zero :
    (acc : ℕ) (a b : List ℕ) → length a ≡ length b → differences acc a b ≡ 0 → (acc ≡ 0) × (a ≡ b)
differences-zero acc [] [] len h = (h, refl)
differences-zero acc [] (y ∷ b) len h = absurd (omega arith)
differences-zero acc (x ∷ a) [] len h = absurd (omega arith)
differences-zero acc (x ∷ a) (y ∷ b) len h =
    let rest = differences-zero (bit_or acc (bit_xor x y)) a b (omega arith) h in
    let both = bit_or-zero acc (bit_xor x y) rest.0 in
    (both.0, cc (bit_xor-zero x y both.1, rest.1))

differences_self : (a : List ℕ) → differences 0 a a ≡ 0
differences_self [] = refl
differences_self (x ∷ a) = rw (bit_xor_self x) (differences_self a)

-- The comparison in constant time, which looks at every byte whatever it finds, says yes exactly on
-- equal texts.
pub eq_ct_iff : (a b : List ℕ) → (eq_ct a b ≡ true) ↔ (a ≡ b)
unfolding eq_ct
eq_ct_iff a b = (forth, λ h. subst (λ z. eq_ct a z ≡ true) h (ground (arith, differences_self a)))
  where
    forth : eq_ct a b ≡ true → a ≡ b
    forth h = (differences-zero 0 a b (ground arith) (ground arith)).1

all-get_elem? :
    (p : ℕ → Bool) (xs : List ℕ) (i : ℕ)
    → all p xs ≡ true
    → i < length xs
    → p (unwrap_or (get_elem? xs i) 0) ≡ true
all-get_elem? p [] i h lt = absurd (omega arith)
all-get_elem? p (x ∷ xs) zero h lt = ground arith
all-get_elem? p (x ∷ xs) (suc i) h lt = all-get_elem? p xs i (ground arith) (omega arith)

abbrev is_typed : ℕ → Bool
is_typed c = is_ascii_alphanumeric c && (to_ascii_uppercase c == c)

symbol-Typed : (b : ℕ) → is_typed (symbol b) ≡ true
symbol-Typed b = all-get_elem? is_typed alphabet (b % length alphabet) refl (omega arith)

-- A code typed as it was printed normalizes to itself.
pub normalize-random : (bytes : List ℕ) → normalize (random bytes) ≡ random bytes
unfolding normalize random
normalize-random [] = refl
normalize-random (b ∷ bytes) = ground (arith, symbol-Typed b, normalize-random bytes)

pub length-random : (bytes : List ℕ) → length (random bytes) ≡ length bytes
unfolding random
length-random [] = refl
length-random (b ∷ bytes) = ap suc (length-random bytes)
