-- ===== src/Tests/Loop.antt =====
-- The loop of the rules over a few rounds, with a pause and a new day.
use nestwatch.Common.{
  ℕ, ◌+◌, ◌*◌, ◌≤◌, ◌≡◌, refl, ap, String, Bool, true, false, ◌&&◌, Option, none, some, List, [],
  ◌∷◌, is_some_and, inr, arith, ◌==◌, ==_iff, and_left, and_right,
}
use nestwatch.Common.Keyed.{◌=?◌, string_keys}
use nestwatch.Chrono.{second}
use nestwatch.Usage.{Usage}
use nestwatch.Refusals.{Refused, default}
use nestwatch.Enforce.Steps.{State, Seen}
use nestwatch.Enforce.Loop.{run_round, run_rounds}
use nestwatch.Enforce.Loop.Charge.{run_rounds-Fits}
use nestwatch.Enforce.Loop.Log.{after_lines, run_rounds-alternate}
use nestwatch.Enforce.Loop.Saved.{run_round-saved}
use nestwatch.Tests.Base.{calendar, ascii, schoolday, running, on_day}

abbrev entries_eq : List (String × ℕ) → List (String × ℕ) → Bool
entries_eq [] [] = true
entries_eq [] (y ∷ ys) = false
entries_eq (x ∷ xs) [] = false
entries_eq ((a, m) ∷ xs) ((b, n) ∷ ys) = (a =? b) && ((m == n) && entries_eq xs ys)

entries_eq-same : (xs ys : List (String × ℕ)) → entries_eq xs ys ≡ true → xs ≡ ys
entries_eq-same [] [] h = refl
entries_eq-same [] (y ∷ ys) h = absurd cc
entries_eq-same (x ∷ xs) [] h = absurd cc
entries_eq-same ((a, m) ∷ xs) ((b, n) ∷ ys) h =
    let name = (string_keys.beq_iff a b).0 (and_left (a =? b) _ h) in
    let rest = and_right (a =? b) ((m == n) && entries_eq xs ys) h in
    let minutes = (==_iff m n).0 (and_left (m == n) _ rest) in
    let tail = entries_eq-same xs ys (and_right (m == n) (entries_eq xs ys) rest) in cc

abbrev refused_eq : Refused → Refused → Bool
refused_eq r q =
    (r.clock_changes == q.clock_changes)
    && ((r.day_resets == q.day_resets)
        && ((r.shutdown_cancels == q.shutdown_cancels)
            && ((r.time_codes_refused == q.time_codes_refused)
                && (r.wrong_passwords == q.wrong_passwords))))

refused_eq-same : (r q : Refused) → refused_eq r q ≡ true → r ≡ q
refused_eq-same r q h =
    let a : r.clock_changes ≡ q.clock_changes = ground arith in
    let b : r.day_resets ≡ q.day_resets = ground arith in
    let c : r.shutdown_cancels ≡ q.shutdown_cancels = ground arith in
    let d : r.time_codes_refused ≡ q.time_codes_refused = ground arith in
    let e : r.wrong_passwords ≡ q.wrong_passwords = ground arith in cc

abbrev flag_eq : Bool → Bool → Bool
flag_eq true b = b
flag_eq false true = false
flag_eq false false = true

flag_eq-same : (a b : Bool) → flag_eq a b ≡ true → a ≡ b
flag_eq-same true b h = cc
flag_eq-same false true h = absurd cc
flag_eq-same false false h = refl

abbrev date_eq : Option ℕ → Option ℕ → Bool
date_eq none none = true
date_eq none (some d) = false
date_eq (some d) none = false
date_eq (some d) (some e) = d == e

date_eq-same : (a b : Option ℕ) → date_eq a b ≡ true → a ≡ b
date_eq-same none none h = refl
date_eq-same none (some d) h = absurd cc
date_eq-same (some d) none h = absurd cc
date_eq-same (some d) (some e) h = ap some ((==_iff d e).0 h)

-- Two tallies are stored alike where every figure is the same.
abbrev tally_eq : Usage → Usage → Bool
tally_eq u v =
    date_eq u.day v.day
    && ((u.total_secs == v.total_secs)
        && (entries_eq u.per_app_secs v.per_app_secs
            && (entries_eq u.per_group_secs v.per_group_secs
                && (entries_eq u.per_group_web_secs v.per_group_web_secs
                    && (entries_eq u.foreground_secs v.foreground_secs
                        && (entries_eq u.page_secs v.page_secs
                            && (refused_eq u.refused v.refused
                                && flag_eq u.unmeasured v.unmeasured)))))))

tally_eq-same : (u v : Usage) → tally_eq u v ≡ true → u ≡ v
tally_eq-same u v h =
    let h1 = and_right (date_eq u.day v.day) _ h in
    let h2 = and_right (u.total_secs == v.total_secs) _ h1 in
    let h3 = and_right (entries_eq u.per_app_secs v.per_app_secs) _ h2 in
    let h4 = and_right (entries_eq u.per_group_secs v.per_group_secs) _ h3 in
    let h5 = and_right (entries_eq u.per_group_web_secs v.per_group_web_secs) _ h4 in
    let h6 = and_right (entries_eq u.foreground_secs v.foreground_secs) _ h5 in
    let h7 = and_right (entries_eq u.page_secs v.page_secs) _ h6 in
    let day = date_eq-same u.day v.day (and_left _ _ h) in
    let total = (==_iff u.total_secs v.total_secs).0 (and_left _ _ h1) in
    let apps = entries_eq-same u.per_app_secs v.per_app_secs (and_left _ _ h2) in
    let groups = entries_eq-same u.per_group_secs v.per_group_secs (and_left _ _ h3) in
    let web = entries_eq-same u.per_group_web_secs v.per_group_web_secs (and_left _ _ h4) in
    let focus = entries_eq-same u.foreground_secs v.foreground_secs (and_left _ _ h5) in
    let pages = entries_eq-same u.page_secs v.page_secs (and_left _ _ h6) in
    let refused = refused_eq-same u.refused v.refused (and_left _ _ h7) in
    let flag =
      flag_eq-same u.unmeasured v.unmeasured (and_right (refused_eq u.refused v.refused) _ h7) in
    cc

abbrev start : State
start = record {
  enforcer = on_day 10;
  locking = false;
  shutting = false;
  warning = false;
  prev_active = none;
  prev_shutdown_wanted = false;
  prev_budget = some 60;
  last_tick = 0;
  owner_lookup_failing = false;
  last_saved_tally = none;
  tally_file = none;
  cells = default;
}

abbrev seen_at : (secs day : ℕ) → Seen
seen_at secs day = record {
  now = secs * second;
  decided_at = secs * second;
  calendar = day;
  reported = none;
  rules = schoolday;
  adjustments = λ d. record { extra = 0; gate_cap = none };
  check_programs = [];
  elsewhere = default;
  session_state = some true;
  running_processes = some running;
  owners = inr [];
  succeeds = λ a. true;
  curfew_active = false;
  written = true;
}

-- The second round is paused; at the third the date is the next day's.
abbrev evening : List Seen
evening =
    seen_at 30 10
    ∷ record (seen_at 60 10) { rules = record schoolday { enabled = false } }
    ∷ seen_at 90 11
    ∷ []

run_rounds-Fits_example :
    let t = (run_rounds calendar ascii tally_eq start evening).0 in
    (start.last_tick ≤ t.last_tick)
    × (t.enforcer.usage.total_secs * second + start.last_tick
        ≤ start.enforcer.usage.total_secs * second + t.last_tick)
run_rounds-Fits_example =
    run_rounds-Fits calendar ascii tally_eq start evening
      ((omega arith, (omega arith, (omega arith, tt))))

run_rounds-alternate_example :
    let r = run_rounds calendar ascii tally_eq start evening in
    after_lines (some (is_some_and (λ b. b) start.prev_active)) r.1
    ≡ some (is_some_and (λ b. b) r.0.prev_active)
run_rounds-alternate_example = run_rounds-alternate calendar ascii tally_eq start evening

-- The first write fails, the one of the last round does not.
run_round-saved_example :
    let t =
      (run_round calendar ascii tally_eq
        (run_rounds calendar ascii tally_eq start
          (record (seen_at 30 10) { written = false } ∷ [])).0
        (seen_at 60 10)).state in
    t.tally_file ≡ some t.enforcer.usage
run_round-saved_example =
    run_round-saved calendar ascii tally_eq tally_eq-same start
      (record (seen_at 30 10) { written = false } ∷ []) (seen_at 60 10) (λ u h. absurd cc) refl refl
