-- ===== src/Words/Matching.antt =====
-- Which programs the words of a group reach (`match_groups` of src/words.rs).
use mathlib.Core.List.{Memᴰ}
use nestwatch.Common.{
  ℕ, String, ◌≡◌, refl, ap, Bool, true, false, ◌||◌, List, [], ◌∷◌, if◌then◌else◌, inl, inr, All,
  arith, Bool-cases,
}
use nestwatch.Common.Keyed.{mem?, string_keys}
use nestwatch.Text.{Text, norm}
use nestwatch.Words.{
  own_programs, windows_programs, fold, stem, stem_matches, stems, match_programs,
}

module _ (text : Text) (spared words : List String) where
  -- Nestwatch's own programs, Windows' and the configured checks are out of the reach of words.
  abbrev pub is_protected : String → Bool
  is_protected name =
      mem? (norm text name) own_programs
      || mem? (norm text name) windows_programs
      || mem? (norm text name) spared

  abbrev pub spells : String → Bool
  spells name = stem_matches text words (stem text (fold text (text.trim name)))

  -- A program of the child's that a word reaches: its name is not protected, and a word of the
  -- group is in the name without `.exe`.
  pub record Reached (child : List (ℕ × String)) (pid : ℕ) : Type 0 where
    pub name : String
    pub listed : Memᴰ (pid, name) child
    pub allowed : is_protected name ≡ false
    pub spelled : spells name ≡ true

  reach_more :
      (p : ℕ × String) (child : List (ℕ × String)) (pids : List ℕ)
      → All (Reached child) pids
      → All (Reached (p ∷ child)) pids
  reach_more p child [] h = tt
  reach_more p child (i ∷ is) h = (
    record {
      name = h.0.name;
      listed = Memᴰ.tail h.0.listed;
      allowed = h.0.allowed;
      spelled = h.0.spelled;
    },
    reach_more p child is h.1,
  )

  -- The pids that the words match among the child's processes.
  abbrev pub matched : List (ℕ × String) → List ℕ
  matched child = match_programs text words (stems text child spared)

  matched-cons :
      (pid : ℕ) (name : String) (child : List (ℕ × String))
      → matched ((pid, name) ∷ child) ≡ (
          if is_protected name
          then matched child
          else if spells name
          then pid ∷ matched child
          else matched child)
  unfolding match_programs stems
  matched-cons pid name child = ground arith

  matched-Reached : (child : List (ℕ × String)) → All (Reached child) (matched child)
  matched-Reached [] = unfold match_programs stems in tt
  matched-Reached ((pid, name) ∷ child) =
      let rest = reach_more (pid, name) child _ (matched-Reached child) in
      rw (matched-cons pid name child) (elim (Bool-cases (is_protected name)) [
        | inl safe ↦ rw safe rest
        | inr exposed ↦ elim (Bool-cases (spells name)) [
          | inl hit ↦
              rw (exposed, hit)
                (
                  record { name = name; listed = Memᴰ.head refl; allowed = exposed; spelled = hit },
                  rest,
                )
          | inr miss ↦ rw (exposed, miss) rest
        ]
      ])

  Reached-matched :
      (child : List (ℕ × String)) (pid : ℕ) (name : String)
      → Memᴰ (pid, name) child
      → is_protected name ≡ false
      → spells name ≡ true
      → Memᴰ pid (matched child)
  Reached-matched [] pid name m a h = elim m [ ]
  Reached-matched ((i, n) ∷ child) pid name (Memᴰ.head e) a h =
      let same : name ≡ n = ap (λ (p : ℕ × String). p.1) e in
      let a' : is_protected n ≡ false = rw (← same) a in
      let h' : spells n ≡ true = rw (← same) h in
      rw (matched-cons i n child, a', h') (Memᴰ.head (ap (λ (p : ℕ × String). p.0) e))
  Reached-matched ((i, n) ∷ child) pid name (Memᴰ.tail m) a h =
      let rest = Reached-matched child pid name m a h in
      rw (matched-cons i n child) (elim (Bool-cases (is_protected n)) [
        | inl safe ↦ rw safe rest
        | inr exposed ↦ elim (Bool-cases (spells n)) [
          | inl hit ↦ rw (exposed, hit) (Memᴰ.tail rest)
          | inr miss ↦ rw (exposed, miss) rest
        ]
      ])

-- The words of a group match exactly the child's processes that they may reach: each pid matched
-- belongs to a listed process whose name is not protected and has one of the words in it, and each
-- such process is matched. With the owners unknown, no process is.
pub match_programs-Reached :
    (text : Text) (spared words : List String) (child : List (ℕ × String))
    → All (Reached text spared words child) (match_programs text words (stems text child spared))
      × ((pid : ℕ) (name : String)
          → Memᴰ (pid, name) child
          → is_protected text spared words name ≡ false
          → spells text spared words name ≡ true
          → Memᴰ pid (match_programs text words (stems text child spared)))
      × (match_programs text words (stems text [] spared) ≡ [])
unfolding match_programs stems
match_programs-Reached text spared words child =
    (matched-Reached text spared words child, Reached-matched text spared words child, refl)
