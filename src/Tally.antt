-- ===== src/Tally.antt =====
-- Charging a tick to the day's tally (`Usage::accrue` of src/rules.rs).
pub mod Charging
use nestwatch.Common.{
  ℕ, String, Bool, true, false, not, ◌&&◌, ◌||◌, Option, none, some, List, [], ◌∷◌, any, ltb,
  if◌then◌else◌, is_some, same_day, unwrap_or, sat64, min,
}
use nestwatch.Common.Keyed.{string_keys, mem?, lookup, insert}
use nestwatch.Words.{GroupMatch}
use nestwatch.Usage.{Usage, read_on}
use nestwatch.Rules.{Targets, GroupTarget, is_none_of}

-- `*slot = slot.saturating_add(secs)` at the entry of a name, new entries from 0.
unfoldable pub charge : String → ℕ → List (String × ℕ) → List (String × ℕ)
charge name secs m = insert name (sat64 (unwrap_or (lookup name m) 0) secs) m

-- The loop over the running programs that have a limit of their own.
unfoldable pub charge_apps :
    List (String × ℕ) → ℕ → List String → List (String × ℕ) → List (String × ℕ)
charge_apps limits delta [] m = m
charge_apps limits delta (name ∷ names) m =
    charge_apps limits delta names (if is_some (lookup name limits) then charge name delta m else m)

-- A member of the group is running, or a program that its words matched.
abbrev pub in_use : List String → GroupTarget → Bool
in_use running g = any (λ r. mem? r g.members) running || not (is_none_of g.matched.programs)

-- One turn of the loop over the groups: the pools, and the part of them that pages took.
unfoldable pub charge_group :
    ℕ
    → List String
    → GroupTarget
    → List (String × ℕ) × List (String × ℕ)
    → List (String × ℕ) × List (String × ℕ)
charge_group delta running g (pools, web) =
    let pages = min g.matched.page_secs delta in
    if in_use running g
    then (charge g.name delta pools, web)
    else if ltb 0 pages
    then (charge g.name pages pools, charge g.name pages web)
    else (pools, web)

unfoldable pub charge_groups :
    ℕ
    → List String
    → List GroupTarget
    → List (String × ℕ) × List (String × ℕ)
    → List (String × ℕ) × List (String × ℕ)
charge_groups delta running [] m = m
charge_groups delta running (g ∷ gs) m =
    charge_groups delta running gs (charge_group delta running g m)

unfoldable pub accrue : Usage → ℕ → ℕ → List String → Targets → Usage
unfolding charge_apps charge_groups
accrue usage today delta running targets =
    let u = if same_day usage.day today then usage else read_on usage today in
    let (pools, web) =
      charge_groups delta running targets.groups (u.per_group_secs, u.per_group_web_secs) in
    record u {
      unmeasured = false;
      total_secs = sat64 u.total_secs delta;
      per_app_secs = charge_apps targets.app_limits delta running u.per_app_secs;
      per_group_secs = pools;
      per_group_web_secs = web;
    }
