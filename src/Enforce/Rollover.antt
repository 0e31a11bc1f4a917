-- ===== src/Enforce/Rollover.antt =====
-- The day turns at most once in twelve hours, and nothing else clears the tally (`accounting_day` of
-- src/rules.rs with the `read_on` that follows it in the same tick).
use nestwatch.Common.{
  ℕ, ◌+◌, ◌≤◌, ◌≡◌, ◌≢◌, ◌⊎◌, inl, inr, Option, none, some, List, [], ◌∷◌, arith, Option-cases,
  ==_iff, if◌then◌else◌, same_day,
}
use mathlib.Core.Path.{subst}
use nestwatch.Usage.{read_on}
use nestwatch.Enforce.{RulesEnforcer, accounting_day, min_reset_gap}

-- What one tick does to the day: the day to account on, and the tally read on that day. With it,
-- the time of the reset if the tick honoured one.
unfoldable pub settle : RulesEnforcer → ℕ → ℕ → RulesEnforcer
settle s today now =
    let (t, day, refused) = accounting_day s today now in record t { usage = read_on t.usage day }

-- The times at which a list of ticks, each a date and a moment, moves the day of the tally.
unfoldable pub resets : RulesEnforcer → List (ℕ × ℕ) → List ℕ
resets s [] = []
resets s ((today, now) ∷ ticks) =
    let later = resets (settle s today now) ticks in
    elim s.usage.day [
      | none ↦ later
      | some current ↦
          if same_day (settle s today now).usage.day current then later else now ∷ later
    ]

-- Each time is at least the gap after the one before it, the first after `last`.
abbrev pub Spaced : Option ℕ → List ℕ → Type 0
Spaced last [] = Unit
Spaced last (t ∷ ts) = ((l : ℕ) → last ≡ some l → l + min_reset_gap ≤ t) × Spaced (some t) ts

-- A tick leaves the tally whole, with the day and the time of the last reset, or it honours a
-- reset: then the last one is at least the gap ago, and this one is noted.
abbrev pub Keeps : RulesEnforcer → RulesEnforcer → Type 0
Keeps s t = (t.usage ≡ s.usage) × (t.last_reset ≡ s.last_reset)

settle-day :
    (s : RulesEnforcer) (current today now : ℕ)
    → s.usage.day ≡ some current
    → Keeps s (settle s today now)
      ⊎ (((settle s today now).last_reset ≡ some now)
          × ((settle s today now).usage.day ≡ some today)
          × (current ≢ today)
          × ((l : ℕ) → s.last_reset ≡ some l → l + min_reset_gap ≤ now))
unfolding settle accounting_day read_on
settle-day s current today now h = ground arith

settle-first :
    (s : RulesEnforcer) (today now : ℕ)
    → s.usage.day ≡ none
    → (settle s today now).last_reset ≡ s.last_reset
unfolding settle accounting_day
settle-first s today now h = ground arith

resets-step :
    (s : RulesEnforcer) (today now : ℕ) (ticks : List (ℕ × ℕ))
    → ((resets s ((today, now) ∷ ticks) ≡ resets (settle s today now) ticks)
        × ((settle s today now).last_reset ≡ s.last_reset))
      ⊎ ((resets s ((today, now) ∷ ticks) ≡ now ∷ resets (settle s today now) ticks)
          × ((settle s today now).last_reset ≡ some now)
          × ((l : ℕ) → s.last_reset ≡ some l → l + min_reset_gap ≤ now))
unfolding resets
resets-step s today now ticks = elim (Option-cases s.usage.day) [
  | inl unset ↦ inl (ground arith, settle-first s today now unset)
  | inr (current, is_set) ↦ elim (settle-day s current today now is_set) [
    | inl kept ↦ inl (ground (arith, ==_iff current current), kept.1)
    | inr (noted, day, moved, gap) ↦ inr (ground arith, noted, gap)
  ]
]

-- However the clock jumps and whatever dates the ticks see, the tally is moved to another day at
-- moments that are at least twelve hours apart, and at least that after the last reset before them.
pub resets-Spaced :
    (s : RulesEnforcer) (ticks : List (ℕ × ℕ)) → Spaced s.last_reset (resets s ticks)
resets-Spaced s [] = unfold resets in tt
resets-Spaced s ((today, now) ∷ ticks) =
    let ih = resets-Spaced (settle s today now) ticks in
    elim (resets-step s today now ticks) [
      | inl (same, kept) ↦
          rw same (subst (λ o. Spaced o (resets (settle s today now) ticks)) kept ih)
      | inr (more, noted, gap) ↦
          rw more (gap, subst (λ o. Spaced o (resets (settle s today now) ticks)) noted ih)
    ]

-- Once the tally stands for a day, a tick leaves it exactly as it was, or honours a reset: it notes
-- the moment, and its date is another day.
pub settle-keeps :
    (s : RulesEnforcer) (current today now : ℕ)
    → s.usage.day ≡ some current
    → ((settle s today now).usage ≡ s.usage)
      ⊎ (((settle s today now).last_reset ≡ some now) × (current ≢ today))
settle-keeps s current today now h = elim (settle-day s current today now h) [
  | inl kept ↦ inl kept.0
  | inr (noted, day, moved, gap) ↦ inr (noted, moved)
]
