-- ===== src/Token.antt =====
-- Random codes and how they are compared (src/token.rs). A text is the list of its bytes; the random
-- bytes are an input.
pub mod Compare
use Prim.Native.Nat.{bit_or, bit_xor}
use nestwatch.Common.{
  ℕ, ◌+◌, ◌-◌, ◌%◌, Bool, true, false, not, ◌&&◌, ◌||◌, List, [], ◌∷◌, length, map, get_elem?,
  unwrap_or, ◌==◌, leb, if◌then◌else◌,
}

-- 0-9, then the capital letters without I, L, O and U.
abbrev pub alphabet : List ℕ
alphabet =
    48 ∷ 49 ∷ 50 ∷ 51 ∷ 52 ∷ 53 ∷ 54 ∷ 55 ∷ 56 ∷ 57 ∷ 65 ∷ 66 ∷ 67 ∷ 68 ∷ 69 ∷ 70 ∷ 71 ∷ 72 ∷ 74
    ∷ 75 ∷ 77 ∷ 78 ∷ 80 ∷ 81 ∷ 82 ∷ 83 ∷ 84 ∷ 86 ∷ 87 ∷ 88 ∷ 89 ∷ 90 ∷ []

-- The index is below the length of the alphabet, so the default is never taken.
abbrev pub symbol : ℕ → ℕ
symbol b = unwrap_or (get_elem? alphabet (b % length alphabet)) 0

unfoldable pub random : List ℕ → List ℕ
random bytes = map symbol bytes

-- `a.iter().zip(b).fold(acc, ..)`.
abbrev pub differences : ℕ → List ℕ → List ℕ → ℕ
differences acc [] b = acc
differences acc (x ∷ a) [] = acc
differences acc (x ∷ a) (y ∷ b) = differences (bit_or acc (bit_xor x y)) a b

unfoldable pub eq_ct : List ℕ → List ℕ → Bool
eq_ct a b = (length a == length b) && (differences 0 a b == 0)

abbrev pub in_range : ℕ → ℕ → ℕ → Bool
in_range lo hi c = leb lo c && leb c hi

abbrev pub is_ascii_alphanumeric : ℕ → Bool
is_ascii_alphanumeric c = in_range 48 57 c || in_range 65 90 c || in_range 97 122 c

abbrev pub to_ascii_uppercase : ℕ → ℕ
to_ascii_uppercase c = if in_range 97 122 c then c - 32 else c

unfoldable pub normalize : List ℕ → List ℕ
normalize [] = []
normalize (c ∷ s) =
    let rest = normalize s in if is_ascii_alphanumeric c then to_ascii_uppercase c ∷ rest else rest
