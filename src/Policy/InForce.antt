-- ===== src/Policy/InForce.antt =====
-- Which rules are in force (src/config.rs, `rules_at`).
use nestwatch.Common.{ℕ, ◌≡◌, String, false, Option, none, some, List, take, get_elem?, All}
use nestwatch.Chrono.{Chrono, DateTime}
use nestwatch.Curfew.{Window}
use nestwatch.Curfew.Windows.{Covers}
use nestwatch.Rules.{Rules}
use nestwatch.Policy.{Routine, Household, scheduled, rules_at, active_routine_at}

abbrev pub rules_of : Household → Option Routine → Rules
rules_of c none = c.rules
rules_of c (some r) = r.rules

abbrev pub name_of : Option Routine → Option String
name_of none = none
name_of (some r) = some r.name

module _ (chrono : Chrono) (at : DateTime) where
  -- A window of the routine covers the moment.
  pub IsScheduled : Routine → Type 0
  IsScheduled r =
      (j : ℕ) × (w : Window) × (get_elem? r.schedule j ≡ some w) × Covers chrono w at.local

  -- The first scheduled routine, if there is one.
  pub data First (rs : List Routine) : Option Routine → Type 0 where
    unscheduled : All (λ r. scheduled chrono at r ≡ false) rs → First rs none
    first :
        (i : ℕ) (r : Routine)
        → get_elem? rs i ≡ some r
        → IsScheduled r
        → All (λ q. scheduled chrono at q ≡ false) (take i rs)
        → First rs (some r)

  -- What the rules in force are, and the name of the routine they come from, if any.
  pub record InForce (c : Household) (found : Option Routine) : Type 0 where
    pub is_first : First c.routines found
    pub same_rules : rules_at chrono c at ≡ rules_of c found
    pub same_name : active_routine_at chrono c at ≡ name_of found
