-- ===== src/Curfew.antt =====
-- The bedtime curfew (src/curfew.rs): its windows, the question whether it is in force at a moment,
-- and the parent's extension. What is written to the log is left out.
pub mod Windows
pub mod Extension
pub mod Enforcer
use nestwatch.Common.{
  ℕ, zero, suc, ◌+◌, String, Bool, true, false, not, ◌&&◌, ◌||◌, Option, none, some, List, [], ◌∷◌,
  ltb, leb, any, is_some, is_some_and, if◌then◌else◌, min,
}
use nestwatch.Chrono.{
  Weekday, mon, tue, wed, thu, fri, sat, sun, DateTime, plus_minutes, date, time, Chrono, minute,
}
use nestwatch.Countdown.{lookahead_mins}

abbrev pub max_warn_secs : ℕ
max_warn_secs = 600

pub record Days : Type 0 where
  pub on_mon : Bool
  pub on_tue : Bool
  pub on_wed : Bool
  pub on_thu : Bool
  pub on_fri : Bool
  pub on_sat : Bool
  pub on_sun : Bool

-- No day selected, which stands for every day.
abbrev pub no_days : Days
no_days = record {
  on_mon = false;
  on_tue = false;
  on_wed = false;
  on_thu = false;
  on_fri = false;
  on_sat = false;
  on_sun = false;
}

abbrev any_day : Days → Bool
any_day d = d.on_mon || d.on_tue || d.on_wed || d.on_thu || d.on_fri || d.on_sat || d.on_sun

abbrev selected : Days → Weekday → Bool
selected d mon = d.on_mon
selected d tue = d.on_tue
selected d wed = d.on_wed
selected d thu = d.on_thu
selected d fri = d.on_fri
selected d sat = d.on_sat
selected d sun = d.on_sun

unfoldable pub includes : Days → Weekday → Bool
includes d wd = if not (any_day d) then true else selected d wd

pub record Window : Type 0 where
  pub start : String
  pub end : String
  pub days : Days

pub record Curfew : Type 0 where
  pub enabled : Bool
  pub start : String
  pub end : String
  pub warn_secs : ℕ
  pub windows : List Window
  pub extra_until : Option DateTime

-- `start.cmp(&end)`: the empty window of equal ends is never open.
unfoldable pub is_within : ℕ → ℕ → ℕ → Bool
is_within now start end =
    if ltb start end
    then leb start now && ltb now end
    else if ltb end start
    then leb start now || ltb now end
    else false

-- The two ends once both are parsed.
unfoldable pub open_between : Days → (Weekday → Weekday) → ℕ → ℕ → ℕ → Weekday → Bool
open_between days pred start end now today =
    if ltb start end
    then includes days today && is_within now start end
    else if ltb end start
    then (leb start now && includes days today) || (ltb now end && includes days (pred today))
    else false

abbrev pub both : Option ℕ → Option ℕ → (ℕ → ℕ → Bool) → Bool
both (some a) (some b) f = f a b
both _ _ f = false

pub data CurfewError : Type 0 where
  warning_too_long invalid_start invalid_end : CurfewError
  window_start window_end : ℕ → CurfewError

module _ (chrono : Chrono) where
  abbrev pub parse_hm : String → Option ℕ
  parse_hm s = chrono.parse_from_str (chrono.trim s)

  unfoldable pub window_active : Window → ℕ → Weekday → Bool
  unfolding open_between
  window_active w now today =
      both (parse_hm w.start) (parse_hm w.end)
        (λ start end. open_between w.days chrono.pred start end now today)

  unfoldable pub any_window_active : List Window → ℕ → Weekday → Bool
  unfolding window_active
  any_window_active windows now today = any (λ w. window_active w now today) windows

  abbrev pub before : DateTime → DateTime → Bool
  before a b = ltb a.utc b.utc

  unfoldable pub is_active_at : Curfew → DateTime → Bool
  unfolding any_window_active is_within
  is_active_at c at =
      if not c.enabled
      then false
      else if is_some_and (λ until. before at until) c.extra_until
      then false
      else elim c.windows [
        | [] ↦ both (parse_hm c.start) (parse_hm c.end) (λ start end. is_within (time at) start end)
        | _ ∷ _ ↦ any_window_active c.windows (time at) (chrono.weekday (date at))
      ]

  -- `(m..=last).find(..)`, with `left` values to try.
  unfoldable pub first_active : Curfew → DateTime → ℕ → ℕ → Option ℕ
  first_active c now zero m = none
  first_active c now (suc left) m =
      let later = first_active c now left (suc m) in
      if is_active_at c (plus_minutes now m) then some m else later

  unfoldable pub mins_until_active : Curfew → DateTime → Option ℕ
  unfolding first_active
  mins_until_active c now = if is_active_at c now then none else first_active c now lookahead_mins 1

  unfoldable pub cuts_grant_short_in : Curfew → DateTime → ℕ → Option ℕ
  unfolding first_active
  cuts_grant_short_in c now minutes =
      if is_active_at c now then some 0 else first_active c now minutes 1

  -- The two moments may have different offsets, so the smaller of them is kept whole.
  abbrev pub sooner : DateTime → DateTime → DateTime
  sooner a b = if before b a then b else a

  unfoldable pub undo_extension : Curfew → DateTime → Curfew × Option DateTime
  undo_extension c now = elim c.extra_until [
    | none ↦ (c, none)
    | some until ↦
        if before now until
        then (let shortened = sooner until (plus_minutes now lookahead_mins) in
            (record c { extra_until = some shortened }, some shortened))
        else (c, none)
  ]

  -- The number that a message gives counts from 1.
  unfoldable pub validate_windows : ℕ → List Window → Option CurfewError
  validate_windows i [] = none
  validate_windows i (w ∷ ws) =
      let rest = validate_windows (suc i) ws in
      if not (is_some (parse_hm w.start))
      then some (window_start (i + 1))
      else if not (is_some (parse_hm w.end))
      then some (window_end (i + 1))
      else rest

  -- `none` is `Ok(())`.
  unfoldable pub validate : Curfew → Option CurfewError
  unfolding validate_windows
  validate c = if ltb max_warn_secs c.warn_secs then some warning_too_long else elim c.windows [
    | [] ↦
        if not (is_some (parse_hm c.start))
        then some invalid_start
        else if not (is_some (parse_hm c.end))
        then some invalid_end
        else none
    | _ ∷ _ ↦ validate_windows 0 c.windows
  ]
