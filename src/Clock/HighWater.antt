-- ===== src/Clock/HighWater.antt =====
-- The high-water mark only rises, survives a restart, and bounds the trusted offset from below
-- (src/clock.rs).
use Prim.Native.String.{String}
use nestwatch.Common.{◌≤◌, ◌≡◌, refl, Option, none, some, List, [], ◌∷◌, arith}
use nestwatch.Common.Int.{ℤ, ◌≤ℤ◌, max_ℤ, abs}
use nestwatch.Common.Keyed.{string_keys}
use nestwatch.Clock.{
  max_offset_mins, Statics, set_anchor, set_anchor_zone, Mark, mark, restore, decide, EastOpt, now,
  Trust, os, anchored_at, believe,
}

-- A time-zone reading: the system's offset, and the name of its zone if there is one.
pub record Reading : Type 0 where
  pub observed : ℤ
  pub zone : Option String

unfoldable pub run : EastOpt → Statics → List Reading → Statics
run east_opt s [] = s
run east_opt s (r ∷ rs) = run east_opt (now east_opt s r.observed r.zone).0 rs

-- One state is later than another: the recorded offset and zone are the same, and the high-water
-- mark has not fallen.
pub record Later (s t : Statics) : Type 0 where
  pub same_anchor : t.anchor_mins ≡ s.anchor_mins
  pub same_zone : t.anchor_zone ≡ s.anchor_zone
  pub risen : s.high_water_mins ≤ℤ t.high_water_mins

now-Later :
    (east_opt : EastOpt) (s : Statics) (r : Reading) → Later s (now east_opt s r.observed r.zone).0
unfolding now believe decide
now-Later east_opt s r = ground arith

Later-trans : (s t u : Statics) → Later s t → Later t u → Later s u
Later-trans s t u a b = ground (arith, a, b)

-- No list of readings moves the recorded offset or zone, and none lowers the high-water mark.
pub run-Later : (east_opt : EastOpt) (s : Statics) (rs : List Reading) → Later s (run east_opt s rs)
unfolding run
run-Later east_opt s [] = ground arith
run-Later east_opt s (r ∷ rs) =
    let t = (now east_opt s r.observed r.zone).0 in
    Later-trans s t (run east_opt t rs) (now-Later east_opt s r) (run-Later east_opt t rs)

-- Offsets that a time zone can have.
abbrev pub InRange : Statics → Type 0
InRange s = (abs s.anchor_mins ≤ max_offset_mins) × (abs s.high_water_mins ≤ max_offset_mins)

abbrev pub IsOffset : Reading → Type 0
IsOffset r = abs r.observed ≤ max_offset_mins

restarted :
    (s boot : Statics) (m : Mark)
    → mark s ≡ some m
    → abs m.high_water ≤ max_offset_mins
    → let t = restore (set_anchor_zone (set_anchor boot s.anchor_mins) s.anchor_zone) m in
      (t.anchor_mins ≡ s.anchor_mins)
      × (t.anchor_zone ≡ s.anchor_zone)
      × (max_ℤ t.high_water_mins t.anchor_mins ≡ max_ℤ s.high_water_mins s.anchor_mins)
unfolding restore mark set_anchor set_anchor_zone
restarted s boot m h ok = ground arith

-- The offset in use depends on the state by its anchor, its zone and the larger of its two offsets.
decide-max :
    (anchor observed : ℤ) (recorded current : Option String) (high other : ℤ)
    → max_ℤ high anchor ≡ max_ℤ other anchor
    → decide anchor observed recorded current high ≡ decide anchor observed recorded current other
unfolding decide
decide-max anchor observed none current high other e = refl
decide-max anchor observed (some recorded) none high other e = refl
decide-max anchor observed (some recorded) (some current) high other e = rw e

believe-offset :
    (east_opt : EastOpt) (s t : Statics) (observed : ℤ) (trust : Trust)
    → (believe east_opt s observed trust).1 ≡ (believe east_opt t observed trust).1
unfolding believe
believe-offset east_opt s t observed (os record_it) = refl
believe-offset east_opt s t observed (anchored_at offset) = refl

now-same :
    (east_opt : EastOpt) (s t : Statics) (observed : ℤ) (zone : Option String)
    → t.anchor_mins ≡ s.anchor_mins
    → t.anchor_zone ≡ s.anchor_zone
    → max_ℤ t.high_water_mins t.anchor_mins ≡ max_ℤ s.high_water_mins s.anchor_mins
    → (now east_opt t observed zone).1 ≡ (now east_opt s observed zone).1
unfolding now
now-same east_opt s t observed zone a z e = ground (
  arith,
  decide-max s.anchor_mins observed s.anchor_zone zone t.high_water_mins s.high_water_mins,
  believe-offset east_opt t s observed
      (decide s.anchor_mins observed s.anchor_zone zone s.high_water_mins),
)

-- The mark survives a restart: with the recorded offset and zone set anew and the saved mark
-- restored, every reading gives the offset that it would have given before the restart. The mark is
-- within 14 hours, as `restore` demands.
pub now-restore :
    (east_opt : EastOpt) (s boot : Statics) (m : Mark) (r : Reading)
    → mark s ≡ some m
    → abs m.high_water ≤ max_offset_mins
    → let t = restore (set_anchor_zone (set_anchor boot s.anchor_mins) s.anchor_zone) m in
      (now east_opt t r.observed r.zone).1 ≡ (now east_opt s r.observed r.zone).1
now-restore east_opt s boot m r h ok =
    let (a, z, e) = restarted s boot m h ok in
    now-same east_opt s (restore (set_anchor_zone (set_anchor boot s.anchor_mins) s.anchor_zone) m)
      r.observed r.zone a z e
