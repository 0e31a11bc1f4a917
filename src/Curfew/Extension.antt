-- ===== src/Curfew/Extension.antt =====
-- Looking ahead for bedtime, and taking an extension back (`mins_until_active`,
-- `cuts_grant_short_in`, `undo_extension` and `validate` of src/curfew.rs).
use nestwatch.Common.{
  ℕ, zero, suc, ◌+◌, ◌*◌, ◌≤◌, ◌<◌, ◌≡◌, ◌↔◌, inl, inr, refl, Bool, true, false, Option, none, some,
  List, [], ◌∷◌, All, arith, Bool-cases, Option-cases, is_some,
}
use native.Mathlib.Decide.{ℕ_discrete}
use nestwatch.Chrono.{DateTime, plus_minutes, Chrono, minute}
use nestwatch.Countdown.{lookahead_mins}
use nestwatch.Curfew.{
  Window, Curfew, no_days, max_warn_secs, is_active_at, first_active, mins_until_active,
  cuts_grant_short_in, undo_extension, parse_hm, before, sooner, validate_windows, validate,
}

module _ (chrono : Chrono) (c : Curfew) (now : DateTime) where
  abbrev active_in : ℕ → Bool
  active_in m = is_active_at chrono c (plus_minutes now m)

  -- `k` is the first of the minutes from `lo` on, below `lo + n`, at which the curfew is in force.
  pub record IsFirst (lo n k : ℕ) : Type 0 where
    pub from : lo ≤ k
    pub below : k < lo + n
    pub active : active_in k ≡ true
    pub quiet : (j : ℕ) → lo ≤ j → j < k → active_in j ≡ false

  quiet_from : (m j : ℕ) (P : ℕ → Type 0) → P m → ((i : ℕ) → suc m ≤ i → P i) → m ≤ j → P j
  quiet_from m j P here later h = elim (ℕ_discrete m j) [
    | yes e ↦ rw (← e) here
    | no ne ↦ later j (omega arith)
  ]

  first_active-IsFirst : (n m k : ℕ) → first_active chrono c now n m ≡ some k → IsFirst m n k
  unfolding first_active
  first_active-IsFirst zero m k h = cc
  first_active-IsFirst (suc n) m k h = elim (Bool-cases (active_in m)) [
    | inl hit ↦
        let e : m ≡ k = ground arith in
        record {
          from = omega arith;
          below = omega arith;
          active = rw (← e) hit;
          quiet = λ j lo hi. absurd (omega arith);
        }
    | inr miss ↦
        let ih : IsFirst (suc m) n k = first_active-IsFirst n (suc m) k (ground arith) in
        record {
          from = omega (arith, ih.from);
          below = omega (arith, ih.below);
          active = ih.active;
          quiet = λ j lo hi.
              quiet_from m j (λ i. i < k → active_in i ≡ false) (λ _. miss) ih.quiet lo hi;
        }
  ]

  first_active-none :
      (n m : ℕ)
      → first_active chrono c now n m ≡ none
      → (j : ℕ) → m ≤ j
      → j < m + n
      → active_in j ≡ false
  unfolding first_active
  first_active-none zero m h j lo hi = absurd (omega arith)
  first_active-none (suc n) m h j lo hi = elim (Bool-cases (active_in m)) [
    | inl hit ↦ absurd (ground arith)
    | inr miss ↦
        quiet_from m j (λ i. i < m + suc n → active_in i ≡ false) (λ _. miss)
          (λ i le lt. first_active-none n (suc m) (ground arith) i le (omega arith)) lo hi
  ]

  -- What the search for the next bedtime answers, by its result.
  abbrev pub Foretells : ℕ → Option ℕ → Type 0
  Foretells n (some k) = IsFirst 1 n k
  Foretells n none = (j : ℕ) → 1 ≤ j → j < 1 + n → active_in j ≡ false

  first_active-Foretells : (n : ℕ) → Foretells n (first_active chrono c now n 1)
  first_active-Foretells n = elim (Option-cases (first_active chrono c now n 1)) [
    | inl e ↦ rw e (first_active-none n 1 e)
    | inr (k, e) ↦ rw e (first_active-IsFirst n 1 k e)
  ]

-- While the curfew is not in force, the answer of `mins_until_active` is the first of the next 15
-- minutes at which it is, or `none` if it is in force at none of them; and `cuts_grant_short_in`
-- answers in the same way for the minutes of the grant.
pub mins_until_active-Foretells :
    (chrono : Chrono) (c : Curfew) (now : DateTime) (minutes : ℕ)
    → is_active_at chrono c now ≡ false
    → Foretells chrono c now lookahead_mins (mins_until_active chrono c now)
      × Foretells chrono c now minutes (cuts_grant_short_in chrono c now minutes)
unfolding mins_until_active cuts_grant_short_in
mins_until_active-Foretells chrono c now minutes h = rw h (
  first_active-Foretells chrono c now lookahead_mins,
  first_active-Foretells chrono c now minutes,
)

undone :
    (chrono : Chrono) (c : Curfew) (now s : DateTime)
    → (undo_extension chrono c now).1 ≡ some s
    → (until : DateTime) × (c.extra_until ≡ some until)
      × (before chrono now until ≡ true)
      × (s ≡ sooner chrono until (plus_minutes now lookahead_mins))
      × ((undo_extension chrono c now).0 ≡ record c { extra_until = some s })
unfolding undo_extension
undone chrono c now s h = elim (Option-cases c.extra_until) [
  | inl unset ↦ absurd (ground arith)
  | inr (until, is_set) ↦ (until, is_set, ground arith, ground arith, ground arith)
]

-- Undoing an extension that still runs leaves one that ends after `now`, at most 15 minutes later
-- and no later than before; the curfew is not in force until it ends, and from then on is what it
-- would be with no extension.
pub undo_extension-shortens :
    (chrono : Chrono) (c : Curfew) (now s : DateTime)
    → (undo_extension chrono c now).1 ≡ some s
    → (now.utc < s.utc)
      × (s.utc ≤ now.utc + lookahead_mins * minute)
      × ((until : DateTime) → c.extra_until ≡ some until → s.utc ≤ until.utc)
      × ((at : DateTime)
          → at.utc < s.utc
          → is_active_at chrono (undo_extension chrono c now).0 at ≡ false)
      × ((at : DateTime)
          → s.utc ≤ at.utc
          → is_active_at chrono (undo_extension chrono c now).0 at
            ≡ is_active_at chrono (record c { extra_until = none }) at)
unfolding is_active_at
undo_extension-shortens chrono c now s h =
    let (until, is_set, runs, e, shorter) = undone chrono c now s h in
    (
      ground arith,
      ground arith,
      λ u h'. ground arith,
      λ at lt. rw shorter (ground arith),
      λ at le. rw shorter (ground arith),
    )

-- With no extension running there is nothing to undo, and the curfew is left as it was.
pub undo_extension-none :
    (chrono : Chrono) (c : Curfew) (now : DateTime)
    → ((until : DateTime) → c.extra_until ≡ some until → until.utc ≤ now.utc)
    → undo_extension chrono c now ≡ (c, none)
unfolding undo_extension
undo_extension-none chrono c now h = elim (Option-cases c.extra_until) [
  | inl unset ↦ ground arith
  | inr (until, is_set) ↦ ground (arith, h until is_set)
]

abbrev pub Parses : Chrono → Window → Type 0
Parses chrono w =
    (is_some (parse_hm chrono w.start) ≡ true) × (is_some (parse_hm chrono w.end) ≡ true)

validate_windows-Parses :
    (chrono : Chrono) (i : ℕ) (ws : List Window)
    → (validate_windows chrono i ws ≡ none) ↔ All (Parses chrono) ws
unfolding validate_windows
validate_windows-Parses chrono i [] = (λ _. tt, λ _. refl)
validate_windows-Parses chrono i (w ∷ ws) =
    let ih = validate_windows-Parses chrono (suc i) ws in
    ((λ h. ground (arith, ih.0)), (λ h. ground (arith, ih.1 h.1)))

validate_list :
    (chrono : Chrono) (c : Curfew) (ws : List Window)
    → c.windows ≡ ws
    → (validate chrono c ≡ none) ↔ (
        (c.warn_secs ≤ max_warn_secs)
        × (ws ≡ [] → Parses chrono (record { start = c.start; end = c.end; days = no_days }))
        × All (Parses chrono) ws)
unfolding validate
validate_list chrono c [] e = ((λ h. ground arith), (λ h. ground (arith, h.1 refl)))
validate_list chrono c (w ∷ ws) e =
    let ih = validate_windows-Parses chrono 0 (w ∷ ws) in
    ((λ h. ground (arith, ih.0)), (λ h. ground (arith, ih.1 h.2)))

-- `validate` accepts a curfew exactly when its warning is at most 600 seconds, every window has two
-- readable times, and, if there is no window, the curfew's own two times are readable.
pub validate-Parses :
    (chrono : Chrono) (c : Curfew)
    → (validate chrono c ≡ none) ↔ (
        (c.warn_secs ≤ max_warn_secs)
        × (c.windows ≡ [] → Parses chrono (record { start = c.start; end = c.end; days = no_days }))
        × All (Parses chrono) c.windows)
validate-Parses chrono c = validate_list chrono c c.windows refl
