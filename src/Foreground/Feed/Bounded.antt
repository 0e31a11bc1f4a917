-- ===== src/Foreground/Feed/Bounded.antt =====
-- What the mailbox can hold, whatever is sent (src/foreground.rs).
use Prim.Native.String.{count, [] as empty_text, ◌∷◌ as ◌⊳◌}
use Prim.Native.String.count as Count
use nestwatch.Common.{
  ℕ, zero, suc, ◌+◌, ◌≤◌, ◌≡◌, refl, u64_max, String, true, none, List, [], ◌∷◌, length, all, All,
  leb, arith, Bool-cases, inl, inr, sat64, unwrap_or,
}
use nestwatch.Common.Keyed.{string_keys, lookup, insert, ◌=?◌}
use nestwatch.Tally.{charge}
use nestwatch.Foreground.{
  Sample, cut, cut_keys, accrue, accrue_capped, truncate_keys, max_apps, max_pages, max_key_chars,
  claimed_secs,
}
use nestwatch.Foreground.Heaviest.{length-retain_top, All-retain_top}
use nestwatch.Foreground.Feed.{Feed, pending_sample, submit, drain}

abbrev pub Short : List (String × ℕ) → Type 0
Short m = All (λ (x : String × ℕ). count x.0 ≤ max_key_chars) m

count-cut : (n : ℕ) (s : String) → count (cut n s) ≤ n
unfolding cut
count-cut zero s = omega arith
count-cut (suc n) empty_text = omega arith
count-cut (suc n) (c ⊳ s) = omega (arith, Count.cons c (cut n s), count-cut n s)

insert-Short :
    (name : String) (v : ℕ) (m : List (String × ℕ))
    → count name ≤ max_key_chars
    → Short m
    → Short (insert name v m)
unfolding insert
insert-Short name v [] short h = (short, tt)
insert-Short name v ((j, w) ∷ m) short h = elim (Bool-cases (j =? name)) [
  | inl same ↦ rw (insert, same) h
  | inr other ↦ rw (insert, other) (h.0, insert-Short name v m short h.1)
]

accrue-Short : (m k : List (String × ℕ)) → Short m → Short k → Short (accrue m k)
unfolding accrue charge
accrue-Short m [] h short = h
accrue-Short m ((name, secs) ∷ k) h short =
    accrue-Short (charge name secs m) k
      (insert-Short name (sat64 (unwrap_or (lookup name m) 0) secs) m short.0 h) short.1

truncate_keys-Short : (m : List (String × ℕ)) → Short (truncate_keys m)
unfolding truncate_keys
truncate_keys-Short m = elim (Bool-cases (all (λ x. leb (count x.0) max_key_chars) m)) [
  | inl short ↦ rw (truncate_keys, short) (all-Short m short)
  | inr long ↦ rw (truncate_keys, long) (accrue-Short [] (cut_keys m) tt (cut_keys-Short m))
]
  where
    all-Short :
        (k : List (String × ℕ)) → all (λ x. leb (count x.0) max_key_chars) k ≡ true → Short k
    all-Short [] h = tt
    all-Short (x ∷ k) h = ground (arith, all-Short k)

    cut_keys-Short : (k : List (String × ℕ)) → Short (cut_keys k)
    cut_keys-Short [] = tt
    cut_keys-Short ((name, secs) ∷ k) = (count-cut max_key_chars name, cut_keys-Short k)

-- The mailbox holds few names, and short ones.
pub record IsSmall (s : Sample) : Type 0 where
  pub few : (length s.apps ≤ max_apps) × (length s.pages ≤ max_pages) × (length s.web ≤ max_pages)
  pub short : Short s.apps × Short s.pages × Short s.web

accrue_capped-Short :
    (m k : List (String × ℕ)) (n : ℕ) → Short m → Short (accrue_capped m (truncate_keys k) n)
unfolding accrue_capped
accrue_capped-Short m k n h =
    All-retain_top (λ (x : String × ℕ). count x.0 ≤ max_key_chars) (accrue m (truncate_keys k)) n
      (accrue-Short m (truncate_keys k) h (truncate_keys-Short k))

unfoldable pub submits : Feed → List Sample → Feed
submits feed [] = feed
submits feed (s ∷ xs) = submits (submit s feed) xs

submit-IsSmall :
    (s : Sample) (feed : Feed)
    → IsSmall (pending_sample feed)
    → IsSmall (pending_sample (submit s feed))
unfolding submit accrue_capped
submit-IsSmall s feed h = record {
  few =
      (length-retain_top _ max_apps, length-retain_top _ max_pages, length-retain_top _ max_pages);
  short = (
    accrue_capped-Short (pending_sample feed).apps s.apps max_apps h.short.0,
    accrue_capped-Short (pending_sample feed).pages s.pages max_pages h.short.1,
    accrue_capped-Short (pending_sample feed).web s.web max_pages h.short.2,
  );
}

submits-IsSmall :
    (feed : Feed) (xs : List Sample)
    → IsSmall (pending_sample feed)
    → IsSmall (pending_sample (submits feed xs))
unfolding submits
submits-IsSmall feed [] h = h
submits-IsSmall feed (s ∷ xs) h = submits-IsSmall (submit s feed) xs (submit-IsSmall s feed h)

-- However much is sent between two drains, what is drained has at most 200 programs, 40 pages and 40
-- addresses, none longer than 512 characters; and the next drain, with nothing sent since, is empty.
pub drain-submits :
    (xs : List Sample)
    → (let drained = drain (submits none xs) in
        IsSmall (pending_sample drained.0) × (drain drained.1 ≡ (none, none)))
unfolding drain
drain-submits xs =
    (submits-IsSmall none xs (record { few = omega arith; short = (tt, tt, tt) }), refl)

claimed_secs-insert :
    (name : String) (v : ℕ) (m : List (String × ℕ))
    → claimed_secs (insert name v m) + unwrap_or (lookup name m) 0 ≡ claimed_secs m + v
unfolding claimed_secs insert lookup
claimed_secs-insert name v [] = omega arith
claimed_secs-insert name v ((j, w) ∷ m) = ground (arith, claimed_secs-insert name v m)

claimed_secs-accrue :
    (m k : List (String × ℕ))
    → claimed_secs m + claimed_secs k ≤ u64_max
    → claimed_secs (accrue m k) ≡ claimed_secs m + claimed_secs k
unfolding accrue claimed_secs charge lookup
claimed_secs-accrue m [] fits = omega arith
claimed_secs-accrue m ((name, secs) ∷ k) fits =
    let adds = claimed_secs-insert name (sat64 (unwrap_or (lookup name m) 0) secs) m in
    let part = secs_of-le name m in
    omega
      (arith, adds, part, claimed_secs-accrue (charge name secs m) k (omega (arith, adds, part)))
  where
    secs_of-le : (n : String) (r : List (String × ℕ)) → unwrap_or (lookup n r) 0 ≤ claimed_secs r
    secs_of-le n [] = omega arith
    secs_of-le n ((j, w) ∷ r) = ground (arith, secs_of-le n r)

claimed_secs-cut_keys : (m : List (String × ℕ)) → claimed_secs (cut_keys m) ≡ claimed_secs m
unfolding claimed_secs
claimed_secs-cut_keys [] = refl
claimed_secs-cut_keys ((name, secs) ∷ m) = omega (arith, claimed_secs-cut_keys m)

-- Cutting the names loses no seconds: names that are cut to one text add up.
pub claimed_secs-truncate_keys :
    (m : List (String × ℕ))
    → claimed_secs m ≤ u64_max
    → (claimed_secs (truncate_keys m) ≡ claimed_secs m) × Short (truncate_keys m)
unfolding truncate_keys claimed_secs
claimed_secs-truncate_keys m fits = (
  ground (arith, claimed_secs-accrue [] (cut_keys m), claimed_secs-cut_keys m),
  truncate_keys-Short m,
)
