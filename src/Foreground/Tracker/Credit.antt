-- ===== src/Foreground/Tracker/Credit.antt =====
-- A window is credited with the time it held the foreground while the session was not idle, to the
-- millisecond (src/foreground.rs).
use nestwatch.Common.{
  ℕ, ◌+◌, ◌*◌, ◌≤◌, ◌≡◌, refl, ◌∙◌, String, Bool, false, Option, none, List, [], ◌∷◌, u64_max,
  arith,
}
use nestwatch.Common.Keyed.{string_keys, lookup}
use nestwatch.Foreground.Tracker.{Tracker, bank, focus, set_idle, left_over, drain}
use nestwatch.Foreground.Tracker.Banking.{
  millis_of, Event, focuses, idles, drains, step, run, drained_secs, focus_after, idle_after, span,
  held, Ordered, Tracks, millis_of-bank, bank-current, bank-Tracks, millis_of-drain,
  left_over-IsMap, at_cap-IsMap, millis_of-at_cap,
}

-- After an event: the tracker is as the session reported, and what was drained and what is left of a
-- name come to no more than before plus the time held, and to exactly that where there is no cap.
pub record Stepped (t t' : Tracker) (name : String) (drained span : ℕ) (app : Option String)
    (idle : Bool) (now : ℕ) : Type 0 where
  pub tracks : Tracks t' app idle now
  pub same_cap : t'.cap ≡ t.cap
  pub credited : 1000 * drained + millis_of name t'.millis ≤ millis_of name t.millis + span
  pub exact :
      t.cap ≡ none → 1000 * drained + millis_of name t'.millis ≡ millis_of name t.millis + span

step-Stepped :
    (name : String) (t : Tracker) (app : Option String) (idle : Bool) (since now : ℕ) (x : Event)
    → Tracks t app idle since
    → since ≤ now
    → now ≤ u64_max
    → Stepped t
        (step t (now, x)).1
        name
        (millis_of name (step t (now, x)).0)
        (span name app idle since now)
        (focus_after app x)
        (idle_after idle x)
        now
unfolding step focus set_idle drain lookup
step-Stepped name t app idle since now (focuses next) h le fits =
    let banked = bank-Tracks t app idle since now h le fits in
    let adds = millis_of-bank name t app idle since now h le fits in
    record {
      tracks = record {
        current = refl;
        same_idle = banked.same_idle;
        is_map = banked.is_map;
        below = banked.below;
      };
      same_cap = (bank-current t app idle since now h le).2;
      credited = omega (arith, adds);
      exact = λ uncapped. omega (arith, adds);
    }
step-Stepped name t app idle since now (idles next) h le fits =
    let banked = bank-Tracks t app idle since now h le fits in
    let adds = millis_of-bank name t app idle since now h le fits in
    record {
      tracks = record {
        current = banked.current;
        same_idle = refl;
        is_map = banked.is_map;
        below = banked.below;
      };
      same_cap = (bank-current t app idle since now h le).2;
      credited = omega (arith, adds);
      exact = λ uncapped. omega (arith, adds);
    }
step-Stepped name t app idle since now drains h le fits =
    let b = bank now t in
    let banked = bank-Tracks t app idle since now h le fits in
    let adds = millis_of-bank name t app idle since now h le fits in
    let rest = left_over-IsMap b.millis banked.is_map in
    let cap = (bank-current t app idle since now h le).2 in
    record {
      tracks = record {
        current = banked.current;
        same_idle = banked.same_idle;
        is_map = at_cap-IsMap b.cap (left_over b.millis) rest;
        below = λ n. omega (
          arith,
          millis_of-drain n b.millis banked.is_map,
          millis_of-at_cap n b.cap (left_over b.millis) rest,
          banked.below n,
        );
      };
      same_cap = cap;
      credited = omega (
        arith,
        adds,
        millis_of-drain name b.millis banked.is_map,
        millis_of-at_cap name b.cap (left_over b.millis) rest,
      );
      exact = λ uncapped.
          rw (cap ∙ uncapped) (omega (arith, adds, millis_of-drain name b.millis banked.is_map));
    }

-- Whatever the session reports, at times that do not go back, what is drained and what is left of a
-- name come to no more than the time it held the foreground while the session was not idle.
pub drained_secs-le :
    (name : String) (t : Tracker) (app : Option String) (idle : Bool) (since : ℕ)
    (xs : List (ℕ × Event))
    → Tracks t app idle since
    → Ordered since xs
    → 1000 * drained_secs name t xs + millis_of name (run t xs).millis
      ≤ millis_of name t.millis + held name app idle since xs
unfolding drained_secs run held
drained_secs-le name t app idle since [] h order = omega arith
drained_secs-le name t app idle since ((now, x) ∷ xs) h (le, fits, order) =
    let stepped = step-Stepped name t app idle since now x h le fits in
    omega (
      arith,
      stepped.credited,
      drained_secs-le name (step t (now, x)).1 (focus_after app x) (idle_after idle x) now xs
          stepped.tracks order,
    )

-- Of a tracker with no cap on the names, whatever the session reports, at times that do not go back:
-- what is drained of a name, in milliseconds, and what is left of it come to exactly what was there
-- and the time the name held the foreground while the session was not idle. No millisecond is lost
-- between drains.
pub drained_secs-held :
    (name : String) (t : Tracker) (app : Option String) (idle : Bool) (since : ℕ)
    (xs : List (ℕ × Event))
    → Tracks t app idle since
    → Ordered since xs
    → t.cap ≡ none
    → 1000 * drained_secs name t xs + millis_of name (run t xs).millis
      ≡ millis_of name t.millis + held name app idle since xs
unfolding drained_secs run held
drained_secs-held name t app idle since [] h order uncapped = omega arith
drained_secs-held name t app idle since ((now, x) ∷ xs) h (le, fits, order) uncapped =
    let stepped = step-Stepped name t app idle since now x h le fits in
    omega (
      arith,
      stepped.exact uncapped,
      drained_secs-held name (step t (now, x)).1 (focus_after app x) (idle_after idle x) now xs
          stepped.tracks order (stepped.same_cap ∙ uncapped),
    )

pub new-Tracks :
    (since : ℕ) (cap : Option ℕ)
    → Tracks (record { current = none; idle = false; millis = []; cap = cap }) none false since
unfolding lookup
new-Tracks since cap = record {
  current = refl;
  same_idle = refl;
  is_map = tt;
  below = λ name. omega arith;
}
