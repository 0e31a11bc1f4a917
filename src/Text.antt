-- ===== src/Text.antt =====
-- What the program uses of the operations on text of the standard library, as parameters.
use nestwatch.Common.{ℕ, String, Bool, Option}

pub record Text : Type 0 where
  pub trim : String → String
  pub to_lowercase : String → String
  pub replace : String → String → String → String
  pub strip_suffix : String → String → Option String
  pub contains : String → String → Bool
  -- `split_once('\n')`, `trim_matches('%')`, and whether some character is `%`, white space or a
  -- control character.
  pub split_line : String → Option (String × String)
  pub trim_percent : String → String
  pub has_odd : String → Bool
  pub chars : String → ℕ
  pub is_empty : String → Bool

-- `rules::norm`.
abbrev pub norm : Text → String → String
norm text name = text.to_lowercase (text.trim name)
