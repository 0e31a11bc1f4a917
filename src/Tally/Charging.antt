-- ===== src/Tally/Charging.antt =====
-- What a tick adds to the tallies of the programs and of the groups (`Usage::accrue` of
-- src/rules.rs).
use nestwatch.Common.{
  ℕ, ◌≤◌, ◌≡◌, refl, ◌∙◌, String, false, List, [], ◌∷◌, if◌then◌else◌, min, unwrap_or, sat64,
  u64_max, same_day, arith, Bool-cases, inl, inr, ap,
}
use nestwatch.Common.Keyed.{◌=?◌, string_keys, lookup, lookup-insert}
use mathlib.Core.Path.{subst}
use nestwatch.Usage.{Usage, read_on}
use nestwatch.Rules.{Targets, GroupTarget}
use nestwatch.Tally.{charge, in_use, charge_groups, charge_group, accrue}

abbrev pub secs_of : String → List (String × ℕ) → ℕ
secs_of name m = unwrap_or (lookup name m) 0

secs_of-charge :
    (n name : String) (secs : ℕ) (m : List (String × ℕ))
    → secs_of n (charge name secs m) ≡ (if name =? n then sat64 (secs_of n m) secs else secs_of n m)
unfolding charge
secs_of-charge n name secs m =
    ground (arith, string_keys.beq_iff name n, lookup-insert name n (sat64 (secs_of name m) secs) m)

sat64-le : (a b : ℕ) → sat64 a b ≤ u64_max
sat64-le a b = omega arith

-- No group of the list has the name; and no name stands twice.
abbrev pub Unnamed : String → List GroupTarget → Type 0
Unnamed n [] = Unit
Unnamed n (g ∷ gs) = ((g.name =? n) ≡ false) × Unnamed n gs

abbrev pub NamedOnce : List GroupTarget → Type 0
NamedOnce [] = Unit
NamedOnce (g ∷ gs) = Unnamed g.name gs × NamedOnce gs

-- The seconds on pages are some of the pool's seconds, which are a `u64`.
abbrev pub IsPart : List (String × ℕ) → List (String × ℕ) → String → Type 0
IsPart web pools n = (secs_of n web ≤ secs_of n pools) × (secs_of n pools ≤ u64_max)

-- What one tick of `delta` seconds charges to the pool of a name.
unfoldable pub share : ℕ → List String → List GroupTarget → String → ℕ
share delta running [] n = 0
share delta running (g ∷ gs) n =
    if g.name =? n
    then (if in_use running g then delta else min g.matched.page_secs delta)
    else share delta running gs n

charge_group-secs :
    (delta : ℕ) (running : List String) (g : GroupTarget) (pools web : List (String × ℕ))
    (n : String)
    → let (p, w) = charge_group delta running g (pools, web) in
      let secs = if in_use running g then delta else min g.matched.page_secs delta in
      (IsPart web pools n → IsPart w p n)
      × (secs_of n pools ≤ u64_max
          → secs_of n p ≡ (if g.name =? n then sat64 (secs_of n pools) secs else secs_of n pools))
unfolding charge_group
charge_group-secs delta running g pools web n =
    let pages = min g.matched.page_secs delta in
    let a = secs_of-charge n g.name delta pools in
    let b = secs_of-charge n g.name pages pools in
    let c = secs_of-charge n g.name pages web in
    elim (Bool-cases (in_use running g)) [
      | inl used ↦ rw used (ground (arith, a), ground (arith, a))
      | inr idle ↦ rw idle (ground (arith, b, c), ground (arith, b, c))
    ]

charge_groups-Unnamed :
    (delta : ℕ) (running : List String) (gs : List GroupTarget) (pools web : List (String × ℕ))
    (n : String)
    → Unnamed n gs
    → secs_of n pools ≤ u64_max
    → secs_of n (charge_groups delta running gs (pools, web)).0 ≡ secs_of n pools
unfolding charge_groups
charge_groups-Unnamed delta running [] pools web n h b = refl
charge_groups-Unnamed delta running (g ∷ gs) pools web n h b =
    let (p, w) = charge_group delta running g (pools, web) in
    let step : secs_of n p ≡ secs_of n pools =
      (charge_group-secs delta running g pools web n).1 b ∙ rw h.0 refl in
    charge_groups-Unnamed delta running gs p w n h.1 (rw step b) ∙ step

charge_groups-web :
    (delta : ℕ) (running : List String) (gs : List GroupTarget) (pools web : List (String × ℕ))
    (n : String)
    → IsPart web pools n
    → let (p, w) = charge_groups delta running gs (pools, web) in IsPart w p n
unfolding charge_groups
charge_groups-web delta running [] pools web n h = h
charge_groups-web delta running (g ∷ gs) pools web n h =
    let (p, w) = charge_group delta running g (pools, web) in
    charge_groups-web delta running gs p w n ((charge_group-secs delta running g pools web n).0 h)

charge_groups-share :
    (delta : ℕ) (running : List String) (gs : List GroupTarget) (pools web : List (String × ℕ))
    (n : String)
    → NamedOnce gs
    → secs_of n pools ≤ u64_max
    → secs_of n (charge_groups delta running gs (pools, web)).0
      ≡ sat64 (secs_of n pools) (share delta running gs n)
unfolding charge_groups share
charge_groups-share delta running [] pools web n h b = ground arith
charge_groups-share delta running (g ∷ gs) pools web n h b =
    let (p, w) = charge_group delta running g (pools, web) in
    let step = (charge_group-secs delta running g pools web n).1 b in
    elim (Bool-cases (g.name =? n)) [
      | inl same ↦
          let named : g.name ≡ n = (string_keys.beq_iff g.name n).0 same in
          let charged = step ∙ rw same refl in
          rw same (
            charge_groups-Unnamed delta running gs p w n (subst (λ m. Unnamed m gs) named h.0)
              (rw charged (sat64-le _ _))
            ∙ charged)
      | inr other ↦
          let kept : secs_of n p ≡ secs_of n pools = step ∙ rw other refl in
          rw other (
            charge_groups-share delta running gs p w n h.1 (rw kept b)
            ∙ ap (λ x. sat64 x (share delta running gs n)) kept)
    ]

share-le :
    (delta : ℕ) (running : List String) (gs : List GroupTarget) (n : String)
    → share delta running gs n ≤ delta
unfolding share
share-le delta running [] n = omega arith
share-le delta running (g ∷ gs) n = elim (Bool-cases (in_use running g)) [
  | inl used ↦ rw used (ground (arith, share-le delta running gs n))
  | inr idle ↦ rw idle (ground (arith, share-le delta running gs n))
]

-- A tick of `delta` seconds charges the pool of a group once, on top of what the day has: all of
-- them if a member of the group is running, otherwise those of the pages its words matched, and in
-- no case more than `delta`. The groups have distinct names and the pool holds a `u64`.
pub accrue-share :
    (usage : Usage) (today delta : ℕ) (running : List String) (targets : Targets) (n : String)
    → NamedOnce targets.groups
    → secs_of n (read_on usage today).per_group_secs ≤ u64_max
    → (secs_of n (accrue usage today delta running targets).per_group_secs
        ≡ sat64
            (secs_of n (read_on usage today).per_group_secs)
            (share delta running targets.groups n))
      × (share delta running targets.groups n ≤ delta)
unfolding accrue read_on lookup
accrue-share usage today delta running targets n h b =
    elim (Bool-cases (same_day usage.day today)) [
      | inl same ↦ rw same (
        charge_groups-share delta running targets.groups _ usage.per_group_web_secs n h
            (rw same at b),
        share-le delta running targets.groups n,
      )
      | inr other ↦ rw other (
        charge_groups-share delta running targets.groups [] [] n h (omega arith),
        share-le delta running targets.groups n,
      )
    ]

-- In no pool do the seconds on pages exceed the seconds of the pool, if they did not before the
-- tick, and the pool stays a `u64`.
pub accrue-IsPart :
    (usage : Usage) (today delta : ℕ) (running : List String) (targets : Targets)
    → ((n : String) → IsPart usage.per_group_web_secs usage.per_group_secs n)
    → (n : String)
    → let after = accrue usage today delta running targets in
      IsPart after.per_group_web_secs after.per_group_secs n
unfolding accrue read_on lookup
accrue-IsPart usage today delta running targets h n = elim (Bool-cases (same_day usage.day today)) [
  | inl same ↦ rw same (charge_groups-web delta running targets.groups _ _ n (h n))
  | inr other ↦
      rw other (charge_groups-web delta running targets.groups [] [] n ((omega arith, omega arith)))
]
