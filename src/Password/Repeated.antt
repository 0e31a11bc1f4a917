-- ===== src/Password/Repeated.antt =====
-- That a password which repeats a shorter text, or dresses up a common one, is refused
-- (`check_password` of src/auth.rs).
use native.Mathlib.Nat.{add-mod_left, zero-mod}
use nestwatch.Common.{
  and_left, and_right, ℕ, zero, suc, ◌+◌, ◌/◌, ◌%◌, ◌≤◌, ◌≡◌, ◌⊎◌, refl, sym, ap, ◌∙◌, Bool, true,
  false, ◌||◌, List, [], ◌∷◌, ◌++◌, length, length-append, take, all, leb, ◌==◌, is_some, arith,
  Bool-cases, inl, inr, All, map, ==_iff,
}
use nestwatch.Common.Keyed.{◌=?◌, bytes_keys, bytes_eq_iff, beq_self, mem?}
use nestwatch.Password.{
  drop, all_chunks, is_block, some_block, guessable, check_password, trim_digits, is_common,
  is_ascii_digit, byte_len, chars, common,
}

-- The text some number of times.
abbrev pub repeat : ℕ → List ℕ → List ℕ
repeat zero w = []
repeat (suc k) w = w ++ repeat k w

take-append : (w r : List ℕ) → take (length w) (w ++ r) ≡ w
take-append [] [] = refl
take-append [] (x ∷ r) = refl
take-append (x ∷ w) r = ap (λ s. x ∷ s) (take-append w r)

drop-append : (w r : List ℕ) → drop (length w) (w ++ r) ≡ r
drop-append [] r = refl
drop-append (x ∷ w) r = drop-append w r

length-repeat-mod : (k : ℕ) (w : List ℕ) → length (repeat k w) % length w ≡ 0
length-repeat-mod zero w = zero-mod (length w)
length-repeat-mod (suc k) w =
    ap (λ n. n % length w) (length-append w (repeat k w))
    ∙ add-mod_left (length w) (length (repeat k w))
    ∙ length-repeat-mod k w

all_chunks-repeat :
    (fuel k : ℕ) (w : List ℕ) → k ≤ fuel → all_chunks fuel (length w) w (repeat k w) ≡ true
unfolding all_chunks
all_chunks-repeat zero zero w le = refl
all_chunks-repeat (suc fuel) zero w le = refl
all_chunks-repeat zero (suc k) w le = absurd omega arith
all_chunks-repeat (suc fuel) (suc k) w le =
    rw (take-append w (repeat k w), drop-append w (repeat k w))
      (ground (arith, all_chunks-repeat fuel k w, beq_self w))

length-repeat-le : (k x : ℕ) (w : List ℕ) → k ≤ length (repeat k (x ∷ w))
length-repeat-le zero x w = omega arith
length-repeat-le (suc k) x w =
    omega (arith, length-repeat-le k x w, length-append w (repeat k (x ∷ w)))

repeat-is_block : (k x : ℕ) (w : List ℕ) → is_block (repeat (suc k) (x ∷ w)) (length (x ∷ w)) ≡ true
repeat-is_block k x w =
    rw (length-repeat-mod (suc k) (x ∷ w), take-append (x ∷ w) (repeat k (x ∷ w)))
      (all_chunks-repeat (length (repeat (suc k) (x ∷ w))) (suc k) (x ∷ w)
        (length-repeat-le (suc k) x w))

or_true_right : (a : Bool) {b : Bool} → b ≡ true → (a || b) ≡ true
or_true_right true h = refl
or_true_right false h = h

or_true_left : {a : Bool} (b : Bool) → a ≡ true → (a || b) ≡ true
or_true_left b h = rw h refl

some_block-at :
    (most b : ℕ) (s : List ℕ) → is_block s (suc b) ≡ true → suc b ≤ most → some_block most s ≡ true
unfolding some_block
some_block-at zero b s h le = absurd omega arith
some_block-at (suc most) b s h le = elim (Bool-cases (b == most)) [
  | inl last ↦
      or_true_right (some_block most s)
        (ap (λ n. is_block s (suc n)) (sym ((==_iff b most).0 last)) ∙ h)
  | inr before ↦ or_true_left (is_block s (suc most)) (some_block-at most b s h (ground arith))
]

half-le : (n : ℕ) → n ≤ (n + n) / 2
half-le n = omega arith

repeat-some_block :
    (k x : ℕ) (w : List ℕ)
    → let s = repeat (suc (suc k)) (x ∷ w) in some_block (length s / 2) s ≡ true
repeat-some_block k x w =
    let s = repeat (suc (suc k)) (x ∷ w) in
    some_block-at (length s / 2) (length w) s (repeat-is_block (suc k) x w) (
      omega (
        arith,
        length-append (x ∷ w) (repeat (suc k) (x ∷ w)),
        length-append (x ∷ w) (repeat k (x ∷ w)),
      ))

-- A text made of some text, not empty, twice or more.
abbrev pub IsRepeated : List ℕ → Type 0
IsRepeated s = (k x : ℕ) × ((w : List ℕ) × (s ≡ repeat (suc (suc k)) (x ∷ w)))

-- A common password that does not itself end in a digit, with digits after it.
abbrev pub IsDressed : List ℕ → Type 0
IsDressed s =
    (stem digits : List ℕ) × ((is_common stem ≡ true)
      × (trim_digits stem ≡ stem)
      × All (λ c. is_ascii_digit c ≡ true) digits
      × (s ≡ stem ++ digits))

trim-digits :
    (digits : List ℕ) → All (λ c. is_ascii_digit c ≡ true) digits → trim_digits digits ≡ []
unfolding trim_digits
trim-digits [] h = refl
trim-digits (c ∷ digits) h = rw (trim-digits digits h.1, h.0) refl

trim-append :
    (stem digits : List ℕ)
    → All (λ c. is_ascii_digit c ≡ true) digits
    → trim_digits (stem ++ digits) ≡ trim_digits stem
unfolding trim_digits
trim-append [] digits h = trim-digits digits h
trim-append (c ∷ stem) digits h = rw (trim-append stem digits h) refl

member-long :
    (s : List ℕ) (xs : List (List ℕ))
    → all (λ x. leb 4 (byte_len x)) xs ≡ true
    → mem? s xs ≡ true
    → leb 4 (byte_len s) ≡ true
unfolding mem?
member-long s [] long m = absurd cc
member-long s (x ∷ xs) long m = elim (Bool-cases (x =? s)) [
  | inl same ↦
      ap (λ y. leb 4 (byte_len y)) (sym ((bytes_eq_iff x s).0 same))
      ∙ and_left _ (all (λ y. leb 4 (byte_len y)) xs) long
  | inr differs ↦ member-long s xs (and_right (leb 4 (byte_len x)) _ long) (rw differs at m)
]

common-long : (s : List ℕ) → is_common s ≡ true → leb 4 (byte_len s) ≡ true
unfolding is_common
common-long s h = member-long s (map chars common) refl h

-- A password that is, in lower case, some text repeated, or a common password that does not end in
-- a digit with any digits after it, is refused, however long it is.
pub check_password-refuses :
    (to_lowercase : List ℕ → List ℕ) (pw : List ℕ)
    → IsRepeated (to_lowercase pw) ⊎ IsDressed (to_lowercase pw)
    → is_some (check_password to_lowercase pw) ≡ true
unfolding check_password guessable
check_password-refuses to_lowercase pw (inl (k, x, (w, e))) =
    let found : some_block (length (to_lowercase pw) / 2) (to_lowercase pw) ≡ true =
      rw e (repeat-some_block k x w) in
    ground arith
check_password-refuses to_lowercase pw (inr (stem, digits, (c, t, d, e))) =
    let trimmed : trim_digits (to_lowercase pw) ≡ stem =
      ap trim_digits e ∙ trim-append stem digits d ∙ t in
    let long = common-long stem c in rw trimmed (ground arith)
