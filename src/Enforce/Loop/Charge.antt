-- ===== src/Enforce/Loop/Charge.antt =====
-- What a round of the loop does to the tally (`run_rules_enforcer` of src/rules.rs).
use nestwatch.Common.{
  ℕ, ◌+◌, ◌-◌, ◌*◌, ◌/◌, ◌≤◌, ◌≡◌, refl, ap, ◌∙◌, String, Bool, true, Option, none, some, List, [],
  ◌∷◌, arith, if◌then◌else◌, unwrap_or,
}
use nestwatch.Chrono.{Chrono, second}
use nestwatch.Text.{Text}
use nestwatch.Usage.{Usage, read_on}
use nestwatch.Tally.{accrue}
use nestwatch.Foreground.{Sample}
use nestwatch.Rules.{tick_mode, TickMode, measure, enforce, has_words}
use nestwatch.Rules
use nestwatch.Enforce.{RulesEnforcer, RunningProcess, Tick, charged, accounting_day, stand_down}
use nestwatch.Enforce.Notices.{decide-usage, decide-day}
use nestwatch.Enforce.Rollup.{record_foreground}
use nestwatch.Enforce.Steps.{State, Seen, chargeable, owner_snapshot, check_interval}
use nestwatch.Enforce.Loop.{
  begin_round, paused_round, decided_round, run_round, run_rounds, enforced_round, round_in,
  with_foreground, bounded_report,
}

foreground-keeps :
    (text : Text) (elapsed : ℕ) (o : Option Sample) (e : RulesEnforcer)
    → let f = with_foreground text elapsed o e in
      (f.usage.day ≡ e.usage.day)
      × (f.usage.total_secs ≡ e.usage.total_secs)
      × (f.usage.unmeasured ≡ e.usage.unmeasured)
unfolding with_foreground record_foreground
foreground-keeps text elapsed none e = (refl, refl, refl)
foreground-keeps text elapsed (some sample) e = (refl, refl, refl)

module _ (chrono : Chrono) (text : Text) (same_tally : Usage → Usage → Bool) where
  abbrev pub owners_of : State → Seen → Option (List (ℕ × String))
  owners_of s i =
      (if has_words chrono text i.rules
        then owner_snapshot i.owners s.owner_lookup_failing
        else (none, none, s.owner_lookup_failing)).0

  abbrev pub tick_of : State → Seen → (today elapsed : ℕ) → Tick
  tick_of s i today elapsed = record {
    now = i.decided_at;
    today = today;
    interval = elapsed;
    warn_for = i.rules.warn_secs * second;
    slack = check_interval;
    adjustments = i.adjustments today;
    active = unwrap_or i.session_state true;
    web = (bounded_report elapsed i.reported).1;
    child_processes = owners_of s i;
    check_programs = i.check_programs;
  }

  -- The tally of a round that decides is the one charged, on the round's day.
  abbrev pub IsCharged : State → Seen → (today elapsed : ℕ) → List RunningProcess → Type 0
  IsCharged s i today elapsed procs =
      let after = (decided_round chrono text same_tally s i today elapsed procs).state in
      let tick = tick_of s i today elapsed in
      (after.enforcer.usage.day ≡ some today)
      × (after.enforcer.usage.total_secs
          ≡ (charged chrono text s.enforcer i.rules procs tick).usage.total_secs)

  pub decided-IsCharged :
      (s : State) (i : Seen) (today elapsed : ℕ) (procs : List RunningProcess)
      → IsCharged s i today elapsed procs
  unfolding decided_round
  decided-IsCharged s i today elapsed procs =
      let tick = tick_of s i today elapsed in
      let usage =
        decide-usage chrono text s.enforcer
          (record { rules = i.rules; procs = procs; tick = tick }) in
      let keeps = foreground-keeps text elapsed (bounded_report elapsed i.reported).0 _ in
      (
        keeps.0
            ∙ decide-day chrono text s.enforcer
                (record { rules = i.rules; procs = procs; tick = tick }),
        keeps.1 ∙ ap (λ (u : Usage). u.total_secs) usage,
      )

  charged-total-le :
      (e : RulesEnforcer) (i : Seen) (procs : List RunningProcess) (t : Tick)
      → (charged chrono text e i.rules procs t).usage.total_secs
        ≤ e.usage.total_secs + t.interval / second
  unfolding charged accrue read_on
  charged-total-le e i procs t = ground arith

  -- A round charges at most the time since the last one, in nanoseconds.
  abbrev Fits : State → ℕ → State → Type 0
  Fits s now t =
      (t.last_tick ≡ now)
      × (t.enforcer.usage.total_secs * second + s.last_tick
          ≤ s.enforcer.usage.total_secs * second + now)

  pub begin-keeps :
      (s : State) (i : Seen)
      → let b = begin_round chrono text same_tally s i in
        (b.0.enforcer.usage ≡ s.enforcer.usage)
        × (b.0.last_tick ≡ i.now)
        × (b.2 ≡ chargeable (i.now - s.last_tick))
  unfolding begin_round accounting_day
  begin-keeps s i = ground arith

  paused-keeps :
      (s : State) (i : Seen) (today : ℕ)
      → let t = (paused_round chrono text same_tally s i today).state in
        (t.enforcer.usage.total_secs ≤ s.enforcer.usage.total_secs) × (t.last_tick ≡ s.last_tick)
  unfolding paused_round stand_down read_on
  paused-keeps s i today = ground arith

  decided-Fits :
      (s b : State) (i : Seen) (today : ℕ) (procs : List RunningProcess)
      → s.last_tick ≤ i.now
      → b.enforcer.usage ≡ s.enforcer.usage
      → b.last_tick ≡ i.now
      → let elapsed = chargeable (i.now - s.last_tick) in
        Fits s i.now (decided_round chrono text same_tally b i today elapsed procs).state
  unfolding chargeable
  decided-Fits s b i today procs le same last =
      let elapsed = chargeable (i.now - s.last_tick) in
      let (day, total) = decided-IsCharged b i today elapsed procs in
      let most = charged-total-le b.enforcer i procs (tick_of b i today elapsed) in
      (
        unfold decided_round in last,
        omega (arith, total, most, ap (λ (u : Usage). u.total_secs) same),
      )

  enforced-Fits :
      (s b : State) (i : Seen) (today : ℕ) (procs : Option (List RunningProcess))
      → s.last_tick ≤ i.now
      → b.enforcer.usage ≡ s.enforcer.usage
      → b.last_tick ≡ i.now
      → let elapsed = chargeable (i.now - s.last_tick) in
        Fits s i.now (enforced_round chrono text same_tally b i today elapsed procs).state
  unfolding enforced_round
  enforced-Fits s b i today none le same last =
      (last, omega (arith, ap (λ (u : Usage). u.total_secs) same))
  enforced-Fits s b i today (some procs) le same last = decided-Fits s b i today procs le same last

  mode-Fits :
      (mode : TickMode) (s b : State) (i : Seen) (today : ℕ)
      → s.last_tick ≤ i.now
      → b.enforcer.usage ≡ s.enforcer.usage
      → b.last_tick ≡ i.now
      → let elapsed = chargeable (i.now - s.last_tick) in
        Fits s i.now (round_in chrono text same_tally mode b i today elapsed).state
  unfolding round_in
  mode-Fits Rules.stand_down s b i today le same last =
      let (total, kept) = paused-keeps b i today in
      (kept ∙ last, omega (arith, total, ap (λ (u : Usage). u.total_secs) same))
  mode-Fits measure s b i today le same last = decided-Fits s b i today [] le same last
  mode-Fits enforce s b i today le same last =
      enforced-Fits s b i today i.running_processes le same last

  round-Fits :
      (s : State) (i : Seen)
      → s.last_tick ≤ i.now
      → Fits s i.now (run_round chrono text same_tally s i).state
  unfolding run_round
  round-Fits s i le =
      let b = begin_round chrono text same_tally s i in
      let (same, last, elapsed) = begin-keeps s i in
      rw elapsed (mode-Fits (tick_mode chrono text i.rules) s b.0 i b.1 le same last)

-- The readings of the monotonic clock do not go back.
abbrev pub Ordered : ℕ → List Seen → Type 0
Ordered last [] = Unit
Ordered last (i ∷ is) = (last ≤ i.now) × Ordered i.now is

-- The child is never charged for more time than passes: over any run of the loop, with pauses,
-- failures, new days and suspended hours in it, the seconds on the tally grow by no more than the
-- monotonic clock does from the first reading to the last.
pub run_rounds-Fits :
    (chrono : Chrono) (text : Text) (same_tally : Usage → Usage → Bool) (s : State) (is : List Seen)
    → Ordered s.last_tick is
    → let t = (run_rounds chrono text same_tally s is).0 in
      (s.last_tick ≤ t.last_tick)
      × (t.enforcer.usage.total_secs * second + s.last_tick
          ≤ s.enforcer.usage.total_secs * second + t.last_tick)
unfolding run_rounds
run_rounds-Fits chrono text same_tally s [] h = (omega arith, omega arith)
run_rounds-Fits chrono text same_tally s (i ∷ is) h =
    let r = run_round chrono text same_tally s i in
    let (last, fits) = round-Fits chrono text same_tally s i h.0 in
    let (from, rest) = run_rounds-Fits chrono text same_tally r.state is (rw last h.1) in
    (omega (arith, last, from, h.0), omega (arith, last, fits, rest))
