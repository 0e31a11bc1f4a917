-- ===== src/Foreground/Bounds.antt =====
-- A sample accounts for no more than the time that passed (src/foreground.rs, `clamp`).
use native.Mathlib.Nat.{div-mul-le_self, mul-le-mul_right, le_of_mul-le-mul_right}
use nestwatch.Common.{
  ℕ, ◌*◌, ◌/◌, ◌≤◌, ◌<◌, max, ◌≡◌, refl, String, Bool, List, [], ◌∷◌, length, All, retain, ltb,
  u64_max, arith,
}
use nestwatch.Common.Keyed.{map_values, string_keys}
use nestwatch.Foreground.{Sample, truncate_keys, claimed_secs, scaled_secs, bound, clamp, max_pages}
use nestwatch.Foreground.Heaviest.{claimed_secs-retain_top, length-retain_top, All-retain_top}

scaled_secs-le :
    (elapsed claimed secs : ℕ)
    → elapsed ≤ u64_max
    → secs ≤ claimed
    → elapsed < claimed
    → scaled_secs elapsed claimed secs * claimed ≤ secs * elapsed
scaled_secs-le elapsed claimed secs fits part over =
    let c : max claimed 1 ≡ claimed = omega arith in
    let q = secs * elapsed / claimed in
    let down : q * claimed ≤ secs * elapsed = div-mul-le_self (secs * elapsed) claimed in
    let small : q ≤ elapsed =
      le_of_mul-le-mul_right {k = claimed} (grind (arith, down, mul-le-mul_right elapsed part))
        (omega arith) in
    rw c (ground (arith, small, down))

claimed_secs-scaled :
    (elapsed claimed : ℕ) (m : List (String × ℕ))
    → elapsed ≤ u64_max
    → elapsed < claimed
    → claimed_secs m ≤ claimed
    → claimed_secs (map_values (scaled_secs elapsed claimed) m) * claimed ≤ claimed_secs m * elapsed
unfolding claimed_secs map_values
claimed_secs-scaled elapsed claimed [] fits over part = omega arith
claimed_secs-scaled elapsed claimed ((name, secs) ∷ m) fits over part = grind (
  arith,
  scaled_secs-le elapsed claimed secs fits (omega arith) over,
  claimed_secs-scaled elapsed claimed m fits over (omega arith),
)

claimed_secs-retain :
    (p : String × ℕ → Bool) (m : List (String × ℕ)) → claimed_secs (retain p m) ≤ claimed_secs m
unfolding claimed_secs
claimed_secs-retain p [] = omega arith
claimed_secs-retain p (x ∷ m) = ground (arith, claimed_secs-retain p m)

claimed_secs-bound :
    (m : List (String × ℕ)) (elapsed : ℕ)
    → elapsed ≤ u64_max
    → claimed_secs (bound m elapsed) ≤ elapsed
unfolding bound claimed_secs
claimed_secs-bound m elapsed fits =
    let claimed = claimed_secs m in
    let scaled = map_values (scaled_secs elapsed claimed) m in
    ground (
      arith,
      within claimed refl,
      claimed_secs-retain (λ x. ltb 0 x.1) scaled,
      claimed_secs-retain (λ x. ltb 0 x.1) m,
    )
  where
    within :
        (claimed : ℕ)
        → claimed ≡ claimed_secs m
        → elapsed < claimed
        → claimed_secs (map_values (scaled_secs elapsed claimed) m) ≤ elapsed
    within claimed e over =
        le_of_mul-le-mul_right {k = claimed}
          (grind (arith, claimed_secs-scaled elapsed claimed m fits over (omega arith)))
          (omega arith)

abbrev Counted : List (String × ℕ) → Type 0
Counted m = All (λ (x : String × ℕ). 0 < x.1) m

retain-Counted : (m : List (String × ℕ)) → Counted (retain (λ x. ltb 0 x.1) m)
retain-Counted [] = tt
retain-Counted (x ∷ m) = ground (arith, retain-Counted m)

bound-Counted : (m : List (String × ℕ)) (elapsed : ℕ) → Counted (bound m elapsed)
unfolding bound
bound-Counted m elapsed =
    ground (
      arith,
      retain-Counted m,
      retain-Counted (map_values (scaled_secs elapsed (claimed_secs m)) m),
    )

-- What a clamped sample holds.
pub record IsClamped (elapsed : ℕ) (s : Sample) : Type 0 where
  pub apps_secs : claimed_secs s.apps ≤ elapsed
  pub pages_secs : claimed_secs s.pages ≤ elapsed
  pub web_secs : claimed_secs s.web ≤ elapsed
  pub counted : Counted s.apps × Counted s.pages × Counted s.web
  pub few_pages : length s.pages ≤ max_pages
  pub few_web : length s.web ≤ max_pages

-- Whatever a session claims, after `clamp` no map accounts for more seconds than passed (a `u64`), no
-- entry is without any, and at most 40 pages and 40 addresses are kept.
pub clamp-IsClamped :
    (s : Sample) (elapsed : ℕ) → elapsed ≤ u64_max → IsClamped elapsed (clamp s elapsed)
unfolding clamp
clamp-IsClamped s elapsed fits =
    let pages = bound (truncate_keys s.pages) elapsed in
    let web = bound (truncate_keys s.web) elapsed in
    record {
      apps_secs = claimed_secs-bound (truncate_keys s.apps) elapsed fits;
      pages_secs = omega (
        arith,
        claimed_secs-retain_top pages max_pages,
        claimed_secs-bound (truncate_keys s.pages) elapsed fits,
      );
      web_secs = omega (
        arith,
        claimed_secs-retain_top web max_pages,
        claimed_secs-bound (truncate_keys s.web) elapsed fits,
      );
      counted = (
        bound-Counted (truncate_keys s.apps) elapsed,
        All-retain_top (λ (x : String × ℕ). 0 < x.1) pages max_pages
            (bound-Counted (truncate_keys s.pages) elapsed),
        All-retain_top (λ (x : String × ℕ). 0 < x.1) web max_pages
            (bound-Counted (truncate_keys s.web) elapsed),
      );
      few_pages = length-retain_top pages max_pages;
      few_web = length-retain_top web max_pages;
    }
