-- ===== src/Pairing.antt =====
-- The one-time pairing token (src/pairing.rs): one file, that `mint` writes, and `redeem` and `clear`
-- remove. The digest is that of a library and a parameter; what the file system answers is an input,
-- and the mutex makes a redemption one step.
pub mod OneTime
use Prim.Native.Nat.{◌^◌}
use nestwatch.Common.{
  ℕ, ◌+◌, ◌*◌, ◌%◌, Bool, true, false, not, Option, none, some, List, [], ◌∷◌, leb, if◌then◌else◌,
}
use nestwatch.Token.{random, eq_ct, normalize}

abbrev pub token_len : ℕ
token_len = 16

abbrev pub ttl_secs : ℕ
ttl_secs = 15 * 60

-- The source of an integration is the list of its characters.
pub data Scope : Type 0 where
  dashboard : Scope
  integration : (source : List ℕ) → Scope

pub record Pending : Type 0 where
  pub hash : List ℕ
  pub expires_at : ℕ
  pub scope : Scope

-- The file: absent or unreadable, not of the right form, or a pending token.
pub data File : Type 0 where
  absent : File
  damaged : File
  holds : Pending → File

abbrev pub is_empty : List ℕ → Bool
is_empty [] = true
is_empty (x ∷ xs) = false

-- `remove_file`, whose failure leaves the file.
abbrev pub remove_file : Bool → File → File
remove_file removed file = if removed then absent else file

unfoldable pub clear : Bool → File → File
clear removed file = remove_file removed file

module _ (digest : List ℕ → List ℕ) where
  unfoldable pub mint :
      (bytes : List ℕ) (now_secs : ℕ) → Scope → (written : Bool) → File → Option (List ℕ) × File
  mint bytes now_secs scope written file =
      let plaintext = random bytes in
      let pending : Pending = record {
        hash = digest plaintext;
        expires_at = (now_secs + ttl_secs) % 2 ^ 64;
        scope = scope;
      } in
      if written then (some plaintext, holds pending) else (none, file)

  unfoldable pub redeem :
      (supplied : List ℕ) (now_secs : ℕ) → (removed : Bool) → File → Option Scope × File
  redeem supplied now_secs removed file =
      let supplied = normalize supplied in
      if is_empty supplied then (none, file) else elim file [
        | absent ↦ (none, absent)
        | damaged ↦ (none, remove_file removed damaged)
        | holds pending ↦
            if leb pending.expires_at now_secs
            then (none, remove_file removed (holds pending))
            else if not (eq_ct (digest supplied) pending.hash)
            then (none, holds pending)
            else (
              (if removed then some pending.scope else none),
              remove_file removed (holds pending),
            )
      ]
