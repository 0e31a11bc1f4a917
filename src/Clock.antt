-- ===== src/Clock.antt =====
-- The trusted clock (src/clock.rs): the offset recorded at install, the high-water mark and what is
-- believed of the system's time zone. The statics of the module are one record; offsets are `i32`
-- minutes, far inside the range of that type, so no operation on them wraps. The two readings of the
-- system, its offset and its zone, are arguments. What is left out is the text of the log, the
-- file of the mark and the Windows call that names the zone.
pub mod HighWater
use Prim.Native.String.{String}
use nestwatch.Common.{
  ℕ, ◌+◌, ◌*◌, Bool, true, false, not, ◌&&◌, ◌||◌, Option, none, some, ltb, leb, if◌then◌else◌,
  unwrap_or, sat32,
}
use nestwatch.Common.Int.{ℤ, pos, negsuc, ◌-ℤ◌, eq_ℤ, max_ℤ, abs}
use nestwatch.Common.Keyed.{◌=?◌, string_keys}

-- `i32::MIN`.
abbrev pub unset : ℤ
unset = negsuc 2147483647

abbrev pub max_drift_mins : ℕ
max_drift_mins = 60

abbrev pub max_offset_mins : ℕ
max_offset_mins = 14 * 60

-- The statics, with the counter of refused clock changes that `log_tamper` raises.
pub record Statics : Type 0 where
  pub anchor_mins : ℤ
  pub anchor_zone : Option String
  pub high_water_mins : ℤ
  pub last_logged : ℤ
  pub clock_changes : ℕ

unfoldable pub initial : Statics
initial = record {
  anchor_mins = unset;
  anchor_zone = none;
  high_water_mins = unset;
  last_logged = unset;
  clock_changes = 0;
}

unfoldable pub set_anchor : Statics → ℤ → Statics
set_anchor s offset = record s { anchor_mins = offset; high_water_mins = offset }

unfoldable pub set_anchor_zone : Statics → Option String → Statics
set_anchor_zone s zone = record s { anchor_zone = zone }

pub record Mark : Type 0 where
  pub anchor : ℤ
  pub high_water : ℤ

unfoldable pub anchored : Statics → Bool
anchored s = not (eq_ℤ s.anchor_mins unset)

unfoldable pub mark : Statics → Option Mark
mark s =
    if not (eq_ℤ s.anchor_mins unset)
    then some
        (record { anchor = s.anchor_mins; high_water = max_ℤ s.high_water_mins s.anchor_mins })
    else none

unfoldable pub restore : Statics → Mark → Statics
restore s m =
    if eq_ℤ s.anchor_mins unset
      || not (eq_ℤ m.anchor s.anchor_mins)
      || ltb max_offset_mins (abs m.high_water)
    then s
    else record s { high_water_mins = max_ℤ s.high_water_mins m.high_water }

pub data Trust : Type 0 where
  os : Bool → Trust
  anchored_at : ℤ → Trust

-- The last clause of the `match`: no two identities to compare.
unfoldable pub by_drift : ℤ → ℤ → Trust
by_drift anchor observed =
    if leb (abs (observed -ℤ anchor)) max_drift_mins then os false else anchored_at anchor

unfoldable pub decide : ℤ → ℤ → Option String → Option String → ℤ → Trust
unfolding by_drift
decide anchor observed (some recorded) (some current) high_water =
    if recorded =? current then os true else anchored_at (max_ℤ high_water anchor)
decide anchor observed _ _ high_water = by_drift anchor observed

unfoldable pub log_tamper : Statics → ℤ → Statics
log_tamper s observed =
    if not (eq_ℤ s.last_logged observed)
    then record s { last_logged = observed; clock_changes = sat32 s.clock_changes 1 }
    else s

-- chrono's `FixedOffset::east_opt`, on minutes.
abbrev pub EastOpt : Type 0
EastOpt = ℤ → Option ℤ

unfoldable pub believe : EastOpt → Statics → ℤ → Trust → Statics × ℤ
unfolding log_tamper
believe east_opt s observed (os record_it) = (
  if record_it then record s { high_water_mins = max_ℤ s.high_water_mins observed } else s,
  observed,
)
believe east_opt s observed (anchored_at offset) =
    (log_tamper s observed, unwrap_or (east_opt offset) (pos 0))

-- The moment is that of the system's clock; what `now` decides is the offset at which it is read.
unfoldable pub now : EastOpt → Statics → ℤ → Option String → Statics × ℤ
now east_opt s observed current =
    if eq_ℤ s.anchor_mins unset
    then (s, observed)
    else believe east_opt s observed
        (decide s.anchor_mins observed s.anchor_zone current s.high_water_mins)
