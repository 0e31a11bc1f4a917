-- ===== src/Password.antt =====
-- Which passwords are refused (`check_password` and `guessable` of src/auth.rs). A password is the
-- list of its characters' codes. `to_lowercase` is a parameter, and the loop over the sizes of a
-- block is a recursion on the size.
pub mod Repeated
use Prim.Native.String.{[] as empty_text, ◌∷◌ as ◌⊳◌}
use Prim.Native.Char.{code}
use nestwatch.Common.{
  ℕ, zero, suc, ◌+◌, ◌-◌, ◌*◌, ◌/◌, ◌%◌, String, Bool, true, false, not, ◌&&◌, ◌||◌, Option, none,
  some, List, [], ◌∷◌, map, length, take, all, any, ltb, leb, ◌==◌, if◌then◌else◌,
}
use nestwatch.Common.Int.{ℤ, pos, negsuc, ◌-ℤ◌, eq_ℤ}
use nestwatch.Common.Keyed.{◌=?◌, bytes_keys, mem?}

abbrev pub min_password_len : ℕ
min_password_len = 8

pub data PasswordProblem : Type 0 where
  empty : PasswordProblem
  too_short : (got : ℕ) → PasswordProblem
  -- Why: it is common, common with digits added, one character, a run, or a repeated block.
  tried_first digits_added same_character consecutive repeated : PasswordProblem

abbrev pub chars : String → List ℕ
chars empty_text = []
chars (c ⊳ s) = code c ∷ chars s

abbrev pub common : List String
common =
    "password" ∷ "passw0rd" ∷ "p@ssword" ∷ "p@ssw0rd" ∷ "letmein" ∷ "welcome" ∷ "iloveyou"
    ∷ "sunshine" ∷ "princess" ∷ "football" ∷ "baseball" ∷ "superman" ∷ "batman" ∷ "dragon"
    ∷ "monkey" ∷ "trustno1" ∷ "qwerty" ∷ "qwertyuiop" ∷ "azerty" ∷ "asdfgh" ∷ "asdfghjkl"
    ∷ "zxcvbnm" ∷ "1q2w3e4r" ∷ "qazwsx" ∷ "abc123" ∷ "123abc" ∷ "admin" ∷ "administrator"
    ∷ "changeme" ∷ "default" ∷ "secret" ∷ "master" ∷ "computer" ∷ "internet" ∷ "whatever"
    ∷ "freedom" ∷ "starwars" ∷ "pokemon" ∷ "minecraft" ∷ "roblox" ∷ "nestwatch" ∷ "hosthealth"
    ∷ "parent" ∷ "family" ∷ "screentime" ∷ []

unfoldable pub is_common : List ℕ → Bool
is_common s = mem? s (map chars common)

abbrev pub is_ascii_digit : ℕ → Bool
is_ascii_digit c = leb 48 c && leb c 57

-- `trim_end_matches` of the digits.
unfoldable pub trim_digits : List ℕ → List ℕ
trim_digits [] = []
trim_digits (c ∷ s) =
    let rest = trim_digits s in if (rest =? []) && is_ascii_digit c then [] else c ∷ rest

-- The bytes of a text in UTF-8.
abbrev pub byte_len : List ℕ → ℕ
byte_len [] = 0
byte_len (c ∷ s) =
    (if ltb c 128 then 1 else if ltb c 2048 then 2 else if ltb c 65536 then 3 else 4) + byte_len s

-- `windows(2).all(..)`.
abbrev pub all_pairs : (ℕ → ℕ → Bool) → List ℕ → Bool
all_pairs p [] = true
all_pairs p (x ∷ []) = true
all_pairs p (x ∷ y ∷ s) = p x y && all_pairs p (y ∷ s)

abbrev pub run : ℤ → List ℕ → Bool
run step s = all_pairs (λ x y. eq_ℤ (pos y -ℤ pos x) step) s

abbrev pub drop : ℕ → List ℕ → List ℕ
drop zero s = s
drop (suc n) [] = []
drop (suc n) (c ∷ s) = drop n s

-- `chunks(block).all(|c| c == &chars[..block])`, for at most `fuel` chunks.
unfoldable pub all_chunks : (fuel block : ℕ) → (first s : List ℕ) → Bool
all_chunks zero block first s = s =? []
all_chunks (suc fuel) block first s =
    let rest = all_chunks fuel block first (drop block s) in
    if s =? [] then true else (take block s =? first) && rest

abbrev pub is_block : List ℕ → ℕ → Bool
is_block s block = (length s % block == 0) && all_chunks (length s) block (take block s) s

-- Some size from 1 to `most`.
unfoldable pub some_block : ℕ → List ℕ → Bool
some_block zero s = false
some_block (suc most) s = some_block most s || is_block s (suc most)

module _ (to_lowercase : List ℕ → List ℕ) where
  unfoldable pub guessable : List ℕ → Option PasswordProblem
  guessable pw =
      let lower = to_lowercase pw in
      let stem = trim_digits lower in
      if is_common lower
      then some tried_first
      else if leb 4 (byte_len stem) && is_common stem
      then some digits_added
      else if all_pairs (λ x y. x == y) lower
      then some same_character
      else if run (pos 1) lower || run (negsuc 0) lower
      then some consecutive
      else if some_block (length lower / 2) lower
      then some repeated
      else none

  unfoldable pub check_password : List ℕ → Option PasswordProblem
  check_password pw =
      let got = length pw in
      if got == 0
      then some empty
      else if ltb got min_password_len
      then some (too_short got)
      else guessable pw
