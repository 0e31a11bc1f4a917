-- ===== src/Foreground/Tracker/Banking.antt =====
-- What one event does to the tracker: what banking adds to a name, and what a drain takes and leaves
-- (src/foreground.rs).
use native.Mathlib.Nat.{le_refl}
use nestwatch.Common.{
  ℕ, ◌+◌, ◌-◌, ◌*◌, ◌/◌, ◌%◌, ◌≤◌, ◌≡◌, refl, String, Bool, false, not, ◌&&◌, Option, none, some,
  List, [], ◌∷◌, retain, leb, ltb, if◌then◌else◌, sat64, u64_max, unwrap_or, arith, Bool-cases,
  Option-cases, inl, inr,
}
use nestwatch.Common.Keyed.{
  string_keys, ◌=?◌, lookup, lookup-insert, IsMap, insert-IsMap, map_values, lookup-map_values,
  map_values-IsMap, lookup-retain, retain-IsMap,
}
use nestwatch.Foreground.{retain_top}
use nestwatch.Foreground.Heaviest.{retain_top-IsMap, lookup-retain_top}
use nestwatch.Foreground.Tracker.{
  Tracker, bank_app, bank, focused, focus, set_idle, at_cap, whole_secs, left_over, drain,
}

abbrev pub millis_of : String → List (String × ℕ) → ℕ
millis_of name m = unwrap_or (lookup name m) 0

-- What the session reports, at a time.
pub data Event : Type 0 where
  focuses : Option String → Event
  idles : Bool → Event
  drains : Event

unfoldable pub step : Tracker → ℕ × Event → List (String × ℕ) × Tracker
step t (now, focuses app) = ([], focus app now t)
step t (now, idles idle) = ([], set_idle idle now t)
step t (now, drains) = drain now t

unfoldable pub run : Tracker → List (ℕ × Event) → Tracker
run t [] = t
run t (x ∷ xs) = run (step t x).1 xs

-- The seconds of a name that were drained, over a run.
unfoldable pub drained_secs : String → Tracker → List (ℕ × Event) → ℕ
drained_secs name t [] = 0
drained_secs name t (x ∷ xs) = millis_of name (step t x).0 + drained_secs name (step t x).1 xs

-- The time that a name held the foreground while the session was not idle, read off the events.
abbrev pub focus_after : Option String → Event → Option String
focus_after app (focuses next) = next
focus_after app (idles idle) = app
focus_after app drains = app

abbrev pub idle_after : Bool → Event → Bool
idle_after idle (focuses next) = idle
idle_after idle (idles next) = next
idle_after idle drains = idle

abbrev pub is_focused : String → Option String → Bool
is_focused name none = false
is_focused name (some app) = app =? name

abbrev pub span : String → Option String → Bool → ℕ → ℕ → ℕ
span name app idle since now = if is_focused name app && not idle then now - since else 0

unfoldable pub held : String → Option String → Bool → ℕ → List (ℕ × Event) → ℕ
held name app idle since [] = 0
held name app idle since ((now, x) ∷ xs) =
    span name app idle since now + held name (focus_after app x) (idle_after idle x) now xs

-- Times do not go back, and are numbers of a `u64`.
abbrev pub Ordered : ℕ → List (ℕ × Event) → Type 0
Ordered since [] = Unit
Ordered since ((now, x) ∷ xs) = (since ≤ now) × (now ≤ u64_max) × Ordered now xs

-- The tracker at a time: what holds the foreground since then, and no entry above the clock.
pub record Tracks (t : Tracker) (app : Option String) (idle : Bool) (since : ℕ) : Type 0 where
  pub current : t.current ≡ focused app since
  pub same_idle : t.idle ≡ idle
  pub is_map : IsMap t.millis
  pub below : (name : String) → millis_of name t.millis ≤ since

millis_of-bank_app :
    (name app : String) (delta : ℕ) (m : List (String × ℕ))
    → millis_of app m + delta ≤ u64_max
    → millis_of name (bank_app app delta m)
      ≡ (if app =? name then millis_of name m + delta else millis_of name m)
unfolding bank_app
millis_of-bank_app name app delta m fits = elim (Option-cases (lookup app m)) [
  | inl new ↦
      rw (bank_app, new)
        (ground (arith, lookup-insert app name delta m, string_keys.beq_iff app name))
  | inr (slot, old) ↦
      rw (bank_app, old)
        (ground (arith, lookup-insert app name (sat64 slot delta) m, string_keys.beq_iff app name))
]

bank_app-IsMap :
    (app : String) (delta : ℕ) (m : List (String × ℕ)) → IsMap m → IsMap (bank_app app delta m)
unfolding bank_app
bank_app-IsMap app delta m h = elim (Option-cases (lookup app m)) [
  | inl new ↦ rw (bank_app, new) (insert-IsMap app delta m h)
  | inr (slot, old) ↦ rw (bank_app, old) (insert-IsMap app (sat64 slot delta) m h)
]

-- What the banking adds to a name.
pub millis_of-bank :
    (name : String) (t : Tracker) (app : Option String) (idle : Bool) (since now : ℕ)
    → Tracks t app idle since
    → since ≤ now
    → now ≤ u64_max
    → millis_of name (bank now t).millis ≡ millis_of name t.millis + span name app idle since now
unfolding bank
millis_of-bank name t none idle since now h le fits = rw (bank, h.current) (omega arith)
millis_of-bank name t (some a) idle since now h le fits =
    rw (bank, h.current)
      (ground (arith, h.same_idle, h.below a, millis_of-bank_app name a (now - since) t.millis))

span-le :
    (name : String) (app : Option String) (idle : Bool) (since now : ℕ)
    → span name app idle since now ≤ now - since
span-le name app idle since now = ground arith

pub bank-current :
    (t : Tracker) (app : Option String) (idle : Bool) (since now : ℕ)
    → Tracks t app idle since
    → since ≤ now
    → ((bank now t).current ≡ focused app now)
      × ((bank now t).idle ≡ idle)
      × ((bank now t).cap ≡ t.cap)
      × IsMap (bank now t).millis
unfolding bank
bank-current t none idle since now h le =
    rw (bank, h.current) (h.current, h.same_idle, refl, h.is_map)
bank-current t (some a) idle since now h le =
    rw (bank, h.current)
      (
        ground arith,
        h.same_idle,
        refl,
        elim (Bool-cases (ltb 0 (if t.idle then 0 else now - since))) [
          | inl some_time ↦
              rw some_time (bank_app-IsMap a (if t.idle then 0 else now - since) t.millis h.is_map)
          | inr no_time ↦ rw no_time h.is_map
        ],
      )

pub bank-Tracks :
    (t : Tracker) (app : Option String) (idle : Bool) (since now : ℕ)
    → Tracks t app idle since
    → since ≤ now
    → now ≤ u64_max
    → Tracks (bank now t) app idle now
bank-Tracks t app idle since now h le fits =
    let banked = bank-current t app idle since now h le in
    record {
      current = banked.0;
      same_idle = banked.1;
      is_map = banked.3;
      below = λ name. omega (
        arith,
        millis_of-bank name t app idle since now h le fits,
        h.below name,
        span-le name app idle since now,
      );
    }

lookup-whole_secs :
    (name : String) (m : List (String × ℕ))
    → IsMap m
    → millis_of name (whole_secs m) ≡ millis_of name m / 1000
unfolding whole_secs
lookup-whole_secs name m h = ground (
  arith,
  lookup-map_values name (λ v. v / 1000) (retain (λ x. leb 1000 x.1) m),
  lookup-retain name (leb 1000) m h,
)

abbrev rest_of : ℕ → ℕ
rest_of remaining = if leb 1000 remaining then remaining % 1000 else remaining

lookup-left_over :
    (name : String) (m : List (String × ℕ))
    → IsMap m
    → millis_of name (left_over m) ≡ millis_of name m % 1000
unfolding left_over
lookup-left_over name m h = ground (
  arith,
  lookup-map_values name rest_of m,
  lookup-retain name (ltb 0) (map_values rest_of m) (map_values-IsMap rest_of m h),
)

-- A drain moves whole seconds and keeps the rest.
pub millis_of-drain :
    (name : String) (m : List (String × ℕ))
    → IsMap m
    → 1000 * millis_of name (whole_secs m) + millis_of name (left_over m) ≡ millis_of name m
millis_of-drain name m h = omega (arith, lookup-whole_secs name m h, lookup-left_over name m h)

pub left_over-IsMap : (m : List (String × ℕ)) → IsMap m → IsMap (left_over m)
unfolding left_over
left_over-IsMap m h =
    retain-IsMap (λ x. ltb 0 x.1) (map_values rest_of m) (map_values-IsMap rest_of m h)

pub at_cap-IsMap : (cap : Option ℕ) (m : List (String × ℕ)) → IsMap m → IsMap (at_cap cap m)
at_cap-IsMap none m h = h
at_cap-IsMap (some n) m h = retain_top-IsMap m n h

pub millis_of-at_cap :
    (name : String) (cap : Option ℕ) (m : List (String × ℕ))
    → IsMap m
    → millis_of name (at_cap cap m) ≤ millis_of name m
millis_of-at_cap name none m h = le_refl (millis_of name m)
millis_of-at_cap name (some n) m h = elim (Option-cases (lookup name (retain_top m n))) [
  | inl gone ↦ rw gone (omega arith)
  | inr (v, kept) ↦ rw (kept, lookup-retain_top name v n m h kept) (omega arith)
]
