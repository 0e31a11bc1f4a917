-- ===== src/Probe.antt =====
-- The checks of practice that this PC runs itself (src/probe.rs): which are due, one turn of the
-- scheduler, and the gates that an outage lifts. What a check itself does to the configuration is an
-- input, and so are the state of the session and the day's tally. The probe of each provider is a map
-- beside the configuration.
pub mod Schedule
pub mod Outage
use nestwatch.Common.{
  ℕ, ◌-◌, ◌*◌, ◌/◌, String, Bool, true, false, not, ◌&&◌, ◌||◌, Option, none, some, List, [], ◌∷◌,
  any, retain, ltb, leb, if◌then◌else◌, is_some, is_some_and,
}
use nestwatch.Common.Keyed.{string_keys, lookup, insert}
use nestwatch.Chrono.{DateTime, date, minute}
use nestwatch.Config.{Config, Provider, Progress, exhausted_for, gate_cap_mins}
use nestwatch.Heartbeat.{Ticks, probe, age_secs}

pub record Probe : Type 0 where
  pub every_mins : ℕ
  pub first_check_after_mins : ℕ

-- The reason of a refusal and the text of an error are left out.
pub data ProbeOutcome : Type 0 where
  granted : ℕ → ProbeOutcome
  refused : ProbeOutcome
  failed : ProbeOutcome

pub record ProbeStatus : Type 0 where
  pub at : DateTime
  pub reported : Option Progress
  pub outcome : ProbeOutcome

-- A clock that went back makes a check due.
unfoldable pub due : DateTime → Option DateTime → ℕ → Bool
due now none every_mins = true
due now (some last) every_mins =
    ltb now.utc last.utc || leb (every_mins * minute) (now.utc - last.utc)

abbrev pub last_at : Option ProbeStatus → Option DateTime
last_at none = none
last_at (some entry) = some entry.at

module _ (c : Config) (probes : List (String × Probe)) (status : List (String × ProbeStatus))
    (now : DateTime) where
  -- The closure of `filter_map`.
  abbrev pub due_probe : String → Provider → Option Probe
  due_probe name provider = elim (lookup name probes) [
    | none ↦ none
    | some p ↦
        if not provider.enabled || exhausted_for provider (date now) (lookup name c.earned)
        then none
        else if due now (last_at (lookup name status)) p.every_mins
        then some p
        else none
  ]

  unfoldable pub due_now : List (String × Provider) → List (String × Probe)
  due_now [] = []
  due_now ((name, provider) ∷ providers) =
      let rest = due_now providers in
      elim (due_probe name provider) [ none ↦ rest | some p ↦ (name, p) ∷ rest ]

abbrev pub is_empty : List (String × Probe) → Bool
is_empty [] = true
is_empty _ = false

-- Those that run: none outside an active session; and where one waits for some use of the day, only
-- those that waited long enough, or none if the tally could not be read.
unfoldable pub chosen :
    (session_active : Bool) → (used_secs : Option ℕ) → List (String × Probe) → List (String × Probe)
chosen session_active used_secs due_list =
    if is_empty due_list || not session_active
    then []
    else if any (λ x. ltb 0 x.1.first_check_after_mins) due_list
    then elim used_secs [
      | none ↦ []
      | some secs ↦ retain (λ x. leb x.1.first_check_after_mins (secs / 60)) due_list
    ]
    else due_list

module _ (run_one : String → Probe → Config → Config × Option Progress × ProbeOutcome) where
  -- The loop over the probes: each result is recorded with the time of the turn.
  unfoldable pub run_all :
      List (String × Probe)
      → DateTime
      → Config × List (String × ProbeStatus)
      → Config × List (String × ProbeStatus)
  run_all [] now s = s
  run_all ((name, p) ∷ rest) now (c, status) =
      let (d, reported, outcome) = run_one name p c in
      run_all rest now
        (d, insert name (record { at = now; reported = reported; outcome = outcome }) status)

  unfoldable pub run_once :
      List (String × Probe)
      → DateTime
      → (session_active : Bool) → (used_secs : Option ℕ) → Config × List (String × ProbeStatus)
      → Config × List (String × ProbeStatus)
  run_once probes now session_active used_secs (c, status) =
      run_all (chosen session_active used_secs (due_now c probes status now c.providers)) now
        (c, status)

abbrev pub scheduler_stale_secs : ℕ
scheduler_stale_secs = 180

unfoldable pub scheduler_age_is_stale : ℕ → Bool
scheduler_age_is_stale age_secs = ltb scheduler_stale_secs age_secs

unfoldable pub scheduler_stale : (now_secs : ℕ) → Ticks → Bool
scheduler_stale now_secs ticks = is_some_and scheduler_age_is_stale (age_secs probe now_secs ticks)

abbrev pub is_failed : ProbeStatus → Bool
is_failed entry = elim entry.outcome [ failed ↦ true | _ ↦ false ]

module _ (probes : List (String × Probe)) (status : List (String × ProbeStatus))
    (stale : Bool) where
  abbrev pub not_checking : String → Provider → Bool
  not_checking name provider =
      is_some provider.gate
      && is_some (lookup name probes)
      && (stale || is_some_and is_failed (lookup name status))

  abbrev pub names_not_checking : List (String × Provider) → List String
  names_not_checking [] = []
  names_not_checking ((name, provider) ∷ providers) =
      let rest = names_not_checking providers in
      if not_checking name provider then name ∷ rest else rest

  unfoldable pub providers_not_checking : Config → List String
  providers_not_checking c = names_not_checking c.providers

unfoldable pub live_gate_cap :
    Config
    → List (String × Probe)
    → List (String × ProbeStatus)
    → (today now_secs : ℕ) → Ticks
    → Option ℕ
live_gate_cap c probes status today now_secs ticks =
    gate_cap_mins c today (providers_not_checking probes status (scheduler_stale now_secs ticks) c)
