-- ===== src/Countdown/Crossing.antt =====
-- What a countdown announces, one reading at a time and over a descent (src/countdown.rs).
use nestwatch.Common.{
  ℕ, ◌+◌, ◌≤◌, ◌<◌, ◌≡◌, ◌↔◌, ◌⊎◌, inl, inr, Option, none, some, List, [], ◌∷◌, arith, Option-cases,
  refl,
}
use mathlib.Core.List.{Memᴰ}
use mathlib.Core.Path.{subst, sym}
use native.Mathlib.Decide.{dec_lt}
use nestwatch.Countdown.{Countdown, observe, crossing}

abbrev pub IsThreshold : ℕ → Type 0
IsThreshold t = (t ≡ 1) ⊎ ((t ≡ 5) ⊎ (t ≡ 15))

-- A fall from `previous` to `remaining` passes `t`, and no threshold below `t` is still ahead.
pub record Crosses (previous remaining t : ℕ) : Type 0 where
  pub threshold : IsThreshold t
  pub from_above : t < previous
  pub reached : remaining ≤ t
  pub after_one : remaining ≤ 1 → t ≡ 1
  pub after_five : remaining ≤ 5 → t ≤ 5

crossing-Crosses : (p r t : ℕ) → crossing (some p) r ≡ some t → Crosses p r t
crossing-Crosses p r t h = ground arith

Crosses-crossing : (p r t : ℕ) → Crosses p r t → crossing (some p) r ≡ some t
Crosses-crossing p r t h = ground arith

some-inj : {a b : ℕ} → some a ≡ some b → a ≡ b
some-inj h = cc

crossing_iff :
    (o : Option ℕ) (r t : ℕ) → (crossing o r ≡ some t) ↔ ((p : ℕ) × (o ≡ some p) × Crosses p r t)
crossing_iff none r t = (λ h. cc, λ h. absurd (ground (arith, h.1)))
crossing_iff (some p) r t = (
  λ h. (p, refl, crossing-Crosses p r t h),
  λ h. Crosses-crossing p r t (subst (λ q. Crosses q r t) (sym (some-inj h.1)) h.2),
)

-- A reading announces `t` exactly when an earlier reading exists, it was above the threshold `t`,
-- this one is at `t` or below, and `t` is the lowest threshold that is not below this reading.
pub observe-Crosses :
    (c : Countdown) (r t : ℕ)
    → ((observe c r).1 ≡ some t) ↔ ((p : ℕ) × (c.last ≡ some p) × Crosses p r t)
unfolding observe
observe-Crosses c r t = crossing_iff c.last r t

abbrev pub prepend : Option ℕ → List ℕ → List ℕ
prepend none ts = ts
prepend (some t) ts = t ∷ ts

-- What a countdown announces over a list of readings, in order.
unfoldable pub announced : Countdown → List ℕ → List ℕ
unfolding observe
announced c [] = []
announced c (r ∷ rs) = prepend (observe c r).1 (announced (observe c r).0 rs)

abbrev pub primed : ℕ → Countdown
primed p = record { last = some p }

-- The readings never rise, starting from `p`; and each number is smaller than the one before it.
abbrev pub Falls : ℕ → List ℕ → Type 0
Falls p [] = Unit
Falls p (r ∷ rs) = (r ≤ p) × Falls r rs

abbrev pub Decreases : ℕ → List ℕ → Type 0
Decreases p [] = Unit
Decreases p (t ∷ ts) = (t < p) × Decreases t ts

Decreases-mono : (p q : ℕ) (ts : List ℕ) → p ≤ q → Decreases p ts → Decreases q ts
Decreases-mono p q [] h d = d
Decreases-mono p q (t ∷ ts) h d = (omega arith, d.1)

Decreases-prepend :
    (p r : ℕ) (ts : List ℕ)
    → r ≤ p
    → Decreases r ts
    → Decreases p (prepend (crossing (some p) r) ts)
Decreases-prepend p r ts h d = elim (Option-cases (crossing (some p) r)) [
  | inl silent ↦ rw (silent, prepend) (Decreases-mono r p ts h d)
  | inr (t, spoken) ↦
      let x : Crosses p r t = crossing-Crosses p r t spoken in
      rw (spoken, prepend) (x.from_above, Decreases-mono r t ts x.reached d)
]

-- While the readings do not rise, what is announced strictly decreases: no threshold is announced
-- twice, and none out of order.
pub announced-Decreases : (p : ℕ) (rs : List ℕ) → Falls p rs → Decreases p (announced (primed p) rs)
unfolding announced
announced-Decreases p [] h = tt
announced-Decreases p (r ∷ rs) h =
    Decreases-prepend p r (announced (primed r) rs) h.0 (announced-Decreases r rs h.1)

-- The readings fall by at most one at a time, and the last of them.
abbrev pub IsGradual : ℕ → List ℕ → Type 0
IsGradual p [] = Unit
IsGradual p (r ∷ rs) = (p ≤ r + 1) × IsGradual r rs

abbrev pub final : ℕ → List ℕ → ℕ
final p [] = p
final p (r ∷ rs) = final r rs

mem-prepend : (o : Option ℕ) (t : ℕ) (ts : List ℕ) → Memᴰ t ts → Memᴰ t (prepend o ts)
mem-prepend none t ts m = m
mem-prepend (some u) t ts m = Memᴰ.tail m

crossing-at : (p t : ℕ) → IsThreshold t → t < p → crossing (some p) t ≡ some t
crossing-at p t h lt = ground arith

-- From above a threshold, readings that fall by at most one minute at a time and end at or below
-- it make the countdown announce that threshold: none is stepped over.
pub announced-complete :
    (p t : ℕ) (rs : List ℕ)
    → IsThreshold t
    → t < p
    → IsGradual p rs
    → final p rs ≤ t
    → Memᴰ t (announced (primed p) rs)
unfolding announced
announced-complete p t [] ht lt g f = absurd (omega arith)
announced-complete p t (r ∷ rs) ht lt g f = elim (dec_lt t r) [
  | yes above ↦ mem-prepend _ t _ (announced-complete r t rs ht above g.1 f)
  | no below ↦ let here : t ≡ r = omega arith in rw (← here, crossing-at p t ht lt) (Memᴰ.head refl)
]
