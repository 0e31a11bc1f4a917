-- ===== src/Countdown.antt =====
-- The advance warnings (src/countdown.rs): the thresholds, `Countdown` and its three methods. A
-- method that mutates `self` returns the new value.
pub mod Crossing
use nestwatch.Common.{
  ℕ, ◌+◌, Bool, ◌&&◌, Option, none, some, List, [], ◌∷◌, ltb, leb, find, unwrap_or,
}

abbrev pub warn_at_mins : List ℕ
warn_at_mins = 15 ∷ 5 ∷ 1 ∷ []

abbrev pub lookahead_mins : ℕ
lookahead_mins = 15

pub record Countdown : Type 0 where
  pub last : Option ℕ

abbrev pub default : Countdown
default = record { last = none }

-- `WARN_AT_MINS` in reverse order, the most urgent first.
abbrev pub rising : List ℕ
rising = 1 ∷ 5 ∷ 15 ∷ []

abbrev crossing : Option ℕ → ℕ → Option ℕ
crossing none remaining = none
crossing (some previous) remaining = find (λ t. ltb t previous && leb remaining t) rising

unfoldable pub observe : Countdown → ℕ → Countdown × Option ℕ
observe c remaining = (record { last = some remaining }, crossing c.last remaining)

unfoldable pub observe_upcoming : Countdown → Option ℕ → Countdown × Option ℕ
unfolding observe
observe_upcoming c mins_until = observe c (unwrap_or mins_until (lookahead_mins + 1))

unfoldable pub reset : Countdown → Countdown
reset c = record { last = none }
