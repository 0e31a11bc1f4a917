-- ===== src/Probe/Schedule.antt =====
-- Which checks a turn of the scheduler runs, and how far apart (src/probe.rs, `run_once`).
use nestwatch.Common.{
  All, retain, ℕ, ◌+◌, ◌*◌, ◌/◌, ◌≤◌, ◌<◌, ◌≡◌, refl, ◌∙◌, ap, String, Bool, true, false, Option,
  none, some, List, [], ◌∷◌, leb, is_some, arith, Bool-cases, Option-cases, inl, inr,
}
use nestwatch.Common.Keyed.{string_keys, ◌=?◌, lookup, insert, lookup-insert}
use nestwatch.Chrono.{DateTime, minute}
use nestwatch.Config.{Config, Provider, Progress}
use nestwatch.Probe.{
  Probe, ProbeOutcome, ProbeStatus, due, last_at, due_probe, due_now, chosen, run_all, run_once,
}

abbrev reached : ℕ → Probe → Bool
reached secs p = leb p.first_check_after_mins (secs / 60)

-- A filter and a choice put no name back.
lookup-absent :
    (name : String) (test : String × Probe → Bool) (m : List (String × Probe))
    → lookup name m ≡ none
    → lookup name (retain test m) ≡ none
unfolding lookup
lookup-absent name test [] h = refl
lookup-absent name test ((j, q) ∷ m) h = ground (arith, lookup-absent name test m)

chosen-absent :
    (name : String) (active : Bool) (secs : Option ℕ) (m : List (String × Probe))
    → lookup name m ≡ none
    → lookup name (chosen active secs m) ≡ none
unfolding chosen lookup
chosen-absent name active none m h = ground arith
chosen-absent name active (some secs) m h =
    ground (arith, lookup-absent name (λ x. reached secs x.1) m h)

due-spaced :
    (now later : DateTime) (every_mins : ℕ)
    → now.utc ≤ later.utc
    → later.utc < now.utc + every_mins * minute
    → due later (some now) every_mins ≡ false
unfolding due
due-spaced now later every_mins le early = ground arith

not_due :
    (name : String) (p : Probe) (probes : List (String × Probe))
    (status : List (String × ProbeStatus)) (now later : DateTime) (c : Config) (provider : Provider)
    → lookup name probes ≡ some p
    → last_at (lookup name status) ≡ some now
    → now.utc ≤ later.utc
    → later.utc < now.utc + p.every_mins * minute
    → due_probe c probes status later name provider ≡ none
not_due name p probes status now later c provider found last le early =
    rw (due_probe, found) (ground (arith, last, due-spaced now later p.every_mins le early))

-- A check made at `now` is not due at any provider's turn in the window.
due_now-absent :
    (name : String) (p : Probe) (probes : List (String × Probe))
    (status : List (String × ProbeStatus)) (now later : DateTime) (c : Config)
    (providers : List (String × Provider))
    → lookup name probes ≡ some p
    → last_at (lookup name status) ≡ some now
    → now.utc ≤ later.utc
    → later.utc < now.utc + p.every_mins * minute
    → lookup name (due_now c probes status later providers) ≡ none
unfolding due_now lookup
due_now-absent name p probes status now later c [] found last le early = refl
due_now-absent name p probes status now later c ((j, q) ∷ providers) found last le early =
    let rest = due_now-absent name p probes status now later c providers found last le early in
    elim (Bool-cases (j =? name)) [
      | inl same ↦
          let here : j ≡ name = (string_keys.beq_iff j name).0 same in
          let skipped : due_probe c probes status later j q ≡ none =
            ap (λ z. due_probe c probes status later z q) here
            ∙ not_due name p probes status now later c q found last le early in
          rw (due_now, skipped) rest
      | inr other ↦ elim (Option-cases (due_probe c probes status later j q)) [
        | inl skipped ↦ rw (due_now, skipped) rest
        | inr (taken, wanted) ↦ rw (due_now, wanted) (ground (arith, other, rest))
      ]
    ]

-- A turn of the scheduler, with what its checks answer, its time, and what it reads.
pub record Turn : Type 0 where
  pub run_one : String → Probe → Config → Config × Option Progress × ProbeOutcome
  pub at : DateTime
  pub config : Config
  pub session_active : Bool
  pub used_secs : Option ℕ

lookup-run_all :
    (run_one : String → Probe → Config → Config × Option Progress × ProbeOutcome) (name : String)
    (xs : List (String × Probe)) (now : DateTime) (s : Config × List (String × ProbeStatus))
    → (is_some (lookup name xs) ≡ true
        → last_at (lookup name (run_all run_one xs now s).1) ≡ some now)
      × (lookup name xs ≡ none → lookup name (run_all run_one xs now s).1 ≡ lookup name s.1)
      × (last_at (lookup name s.1) ≡ some now
          → last_at (lookup name (run_all run_one xs now s).1) ≡ some now)
unfolding run_all lookup
lookup-run_all run_one name [] now s = ((λ h. absurd cc), (λ h. refl), (λ h. h))
lookup-run_all run_one name ((j, p) ∷ xs) now (c, status) =
    let (d, reported, outcome) = run_one j p c in
    let entry : ProbeStatus = record { at = now; reported = reported; outcome = outcome } in
    let (ran, kept, stays) = lookup-run_all run_one name xs now (d, insert j entry status) in
    let put = lookup-insert j name entry status in
    elim (Bool-cases (j =? name)) [
      | inl same ↦
          let here : last_at (lookup name (insert j entry status)) ≡ some now =
            ground (arith, put, same, string_keys.beq_iff j name) in
          ((λ h. stays here), (λ h. absurd ground arith), (λ h. stays here))
      | inr other ↦
          let before : lookup name (insert j entry status) ≡ lookup name status =
            ground (arith, put, other, string_keys.beq_iff j name) in
          (
            (λ h. ran (ground (arith, other, h))),
            (λ h. kept (ground (arith, other, h)) ∙ before),
            (λ h. stays (ap last_at before ∙ h)),
          )
    ]

-- The status map after a turn, and after several.
abbrev pub turned :
    List (String × Probe) → List (String × ProbeStatus) → Turn → List (String × ProbeStatus)
turned probes status t =
    (run_once t.run_one probes t.at t.session_active t.used_secs (t.config, status)).1

unfoldable pub turns :
    List (String × Probe) → List (String × ProbeStatus) → List Turn → List (String × ProbeStatus)
turns probes status [] = status
turns probes status (t ∷ ts) = turns probes (turned probes status t) ts

-- The checks that a turn makes.
abbrev pub checks_of :
    List (String × Probe) → List (String × ProbeStatus) → Turn → List (String × Probe)
checks_of probes status t =
    chosen t.session_active t.used_secs (due_now t.config probes status t.at t.config.providers)

turns-keep :
    (name : String) (p : Probe) (probes : List (String × Probe)) (now : DateTime)
    (status : List (String × ProbeStatus)) (ts : List Turn)
    → lookup name probes ≡ some p
    → last_at (lookup name status) ≡ some now
    → All (λ t. (now.utc ≤ t.at.utc) × (t.at.utc < now.utc + p.every_mins * minute)) ts
    → lookup name (turns probes status ts) ≡ lookup name status
unfolding turns run_once
turns-keep name p probes now status [] found last h = refl
turns-keep name p probes now status (t ∷ ts) found last h =
    let absent =
      due_now-absent name p probes status now t.at t.config t.config.providers found last h.0.0
        h.0.1 in
    let unchosen =
      chosen-absent name t.session_active t.used_secs
        (due_now t.config probes status t.at t.config.providers) absent in
    let kept : lookup name (turned probes status t) ≡ lookup name status =
      (lookup-run_all t.run_one name (checks_of probes status t) t.at (t.config, status)).1
        unchosen in
    turns-keep name p probes now (turned probes status t) ts found (ap last_at kept ∙ last) h.1
    ∙ kept

-- A turn that checks a provider records the time; and after it no number of turns that come before
-- `every_mins` have passed, none of them earlier than it, checks the provider again: whatever they
-- read and whatever a check would answer, what stands of the provider is as the first turn left it.
pub run_once-Spaced :
    (name : String) (p : Probe) (probes : List (String × Probe))
    (status : List (String × ProbeStatus)) (first : Turn) (ts : List Turn)
    → lookup name probes ≡ some p
    → is_some (lookup name (checks_of probes status first)) ≡ true
    → All (λ t. (first.at.utc ≤ t.at.utc) × (t.at.utc < first.at.utc + p.every_mins * minute)) ts
    → (last_at (lookup name (turned probes status first)) ≡ some first.at)
      × (lookup name (turns probes (turned probes status first) ts)
          ≡ lookup name (turned probes status first))
unfolding run_once
run_once-Spaced name p probes status first ts found checked h =
    let recorded : last_at (lookup name (turned probes status first)) ≡ some first.at =
      (lookup-run_all first.run_one name (checks_of probes status first) first.at
          (first.config, status)).0
        checked in
    (recorded, turns-keep name p probes first.at (turned probes status first) ts found recorded h)
