-- ===== src/Pairing/OneTime.antt =====
-- A pairing token is good once, for a quarter of an hour (src/pairing.rs).
use Prim.Native.Nat.{◌^◌}
use nestwatch.Common.{
  ℕ, suc, ◌+◌, ◌≤◌, ◌<◌, ◌≡◌, refl, ◌∙◌, Bool, true, false, none, some, List, [], ◌∷◌, length,
  if◌then◌else◌, arith, is_some,
}
use nestwatch.Token.{random, normalize}
use nestwatch.Token.Compare.{eq_ct_iff, normalize-random, length-random}
use nestwatch.Pairing.{
  Scope, Pending, File, absent, damaged, holds, is_empty, clear, mint, redeem, token_len, ttl_secs,
}

-- One use of the file: by the command line, the network, or the removal at an uninstall.
pub data Op : Type 0 where
  mints : (bytes : List ℕ) (now_secs : ℕ) → Scope → (written : Bool) → Op
  redeems : (supplied : List ℕ) (now_secs : ℕ) → (removed : Bool) → Op
  clears : (removed : Bool) → Op

module _ (digest : List ℕ → List ℕ) where
  unfoldable pub step : File → Op → File
  step file (mints bytes now scope written) = (mint digest bytes now scope written file).1
  step file (redeems supplied now removed) = (redeem digest supplied now removed file).1
  step file (clears removed) = clear removed file

  abbrev pub minted_by : File → Op → ℕ
  minted_by file (mints bytes now scope written) =
      if is_some (mint digest bytes now scope written file).0 then 1 else 0
  minted_by file (redeems supplied now removed) = 0
  minted_by file (clears removed) = 0

  abbrev pub paired_by : File → Op → ℕ
  paired_by file (mints bytes now scope written) = 0
  paired_by file (redeems supplied now removed) =
      if is_some (redeem digest supplied now removed file).0 then 1 else 0
  paired_by file (clears removed) = 0

  unfoldable pub minted_times : File → List Op → ℕ
  minted_times file [] = 0
  minted_times file (x ∷ xs) = minted_by file x + minted_times (step file x) xs

  unfoldable pub paired_times : File → List Op → ℕ
  paired_times file [] = 0
  paired_times file (x ∷ xs) = paired_by file x + paired_times (step file x) xs

  abbrev pub held : File → ℕ
  held absent = 0
  held damaged = 0
  held (holds pending) = 1

  step-held :
      (file : File) (x : Op) → paired_by file x + held (step file x) ≤ minted_by file x + held file
  unfolding step mint redeem clear
  step-held file (mints bytes now scope written) = ground arith
  step-held file (redeems supplied now removed) = ground arith
  step-held file (clears removed) = ground arith

  -- However the tokens are minted, tried and removed, and whichever writes and removals fail, no more
  -- devices are paired than tokens were written (and one if a token was pending at the start).
  pub paired_times-le :
      (file : File) (xs : List Op) → paired_times file xs ≤ minted_times file xs + held file
  unfolding paired_times minted_times
  paired_times-le file [] = omega arith
  paired_times-le file (x ∷ xs) = omega (arith, step-held file x, paired_times-le (step file x) xs)

  -- Who is paired gave the text whose digest the file holds, before the token expired, and the token
  -- is gone.
  pub redeem-some :
      (supplied : List ℕ) (now : ℕ) (removed : Bool) (file : File) (scope : Scope)
      → (redeem digest supplied now removed file).0 ≡ some scope
      → ((p : Pending) × (file ≡ holds p)
          × (digest (normalize supplied) ≡ p.hash)
          × (now < p.expires_at)
          × (p.scope ≡ scope))
        × ((redeem digest supplied now removed file).1 ≡ absent)
  unfolding redeem
  redeem-some supplied now removed absent scope h = absurd (ground arith)
  redeem-some supplied now removed damaged scope h = absurd (ground arith)
  redeem-some supplied now removed (holds p) scope h = (
    (
      p,
      refl,
      ground (arith, eq_ct_iff (digest (normalize supplied)) p.hash),
      ground arith,
      ground arith,
    ),
    ground arith,
  )

  is_empty-length : (s : List ℕ) (n : ℕ) → length s ≡ suc n → is_empty s ≡ false
  is_empty-length [] n h = absurd (omega arith)
  is_empty-length (x ∷ s) n h = refl

  -- A token just minted pairs a device that types it, in any case and with any separators, within
  -- fifteen minutes; and the next device that tries it is refused.
  pub redeem-mint :
      (bytes supplied : List ℕ) (minted now later : ℕ) (scope : Scope) (removed : Bool)
      (file : File)
      → length bytes ≡ token_len
      → normalize supplied ≡ normalize (random bytes)
      → minted + ttl_secs < 2 ^ 64
      → now < minted + ttl_secs
      → (let file' = (mint digest bytes minted scope true file).1 in
          let first = redeem digest supplied now true file' in
          (first.0 ≡ some scope) × ((redeem digest supplied later removed first.1).0 ≡ none))
  unfolding mint redeem
  redeem-mint bytes supplied minted now later scope removed file len same fits early =
      let typed = same ∙ normalize-random bytes in
      let some_text = is_empty-length (random bytes) 15 (length-random bytes ∙ len) in
      ground (arith, typed, some_text, eq_ct_iff (digest (random bytes)) (digest (random bytes)))
