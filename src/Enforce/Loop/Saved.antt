-- ===== src/Enforce/Loop/Saved.antt =====
-- The tally on disk (`save_tally_if_changed` in the loop of src/rules.rs).
use nestwatch.Common.{
  ℕ, ◌≡◌, refl, ap, ◌∙◌, Bool, true, false, Option, none, some, List, [], ◌∷◌, inl, inr, Bool-cases,
  is_some,
}
use nestwatch.Chrono.{Chrono}
use nestwatch.Text.{Text}
use nestwatch.Usage.{Usage}
use nestwatch.Rules.{tick_mode, TickMode, measure, enforce}
use nestwatch.Rules
use nestwatch.Enforce.{RunningProcess}
use nestwatch.Enforce.Steps.{State, Seen, save_tally_if_changed}
use nestwatch.Enforce.Loop.{
  begin_round, paused_round, decided_round, enforced_round, round_in, run_round, run_rounds,
}

-- What the loop remembers to have saved is what the file holds.
abbrev pub Remembers : State → Type 0
Remembers s = (u : Usage) → s.last_saved_tally ≡ some u → s.tally_file ≡ some u

module _ (chrono : Chrono) (text : Text) (same_tally : Usage → Usage → Bool)
    (alike : (u v : Usage) → same_tally u v ≡ true → u ≡ v) where
  -- A save leaves the two alike, and one that is written leaves the tally in the file.
  save_lem :
      (usage : Usage) (written : Bool) (last file : Option Usage)
      → ((u : Usage) → last ≡ some u → file ≡ some u)
      → let (l, f) = save_tally_if_changed same_tally usage written last file in
        ((u : Usage) → l ≡ some u → f ≡ some u) × (written ≡ true → f ≡ some usage)
  unfolding save_tally_if_changed
  save_lem usage true none file h = (λ u e. e, λ w. refl)
  save_lem usage false none file h = (h, λ w. absurd cc)
  save_lem usage true (some u) file h = elim (Bool-cases (same_tally u usage)) [
    | inl same ↦ rw same ((λ v e. h v e), (λ w. h u refl ∙ ap some (alike u usage same)))
    | inr changed ↦ rw changed ((λ v e. e), (λ w. refl))
  ]
  save_lem usage false (some u) file h = elim (Bool-cases (same_tally u usage)) [
    | inl same ↦ rw same ((λ v e. h v e), (λ w. absurd cc))
    | inr changed ↦ rw changed ((λ v e. h v e), (λ w. absurd cc))
  ]

  -- After a round that reaches the save, the two are alike, and the file is up to date if written.
  abbrev Saves : Seen → State → Type 0
  Saves i t = Remembers t × (i.written ≡ true → t.tally_file ≡ some t.enforcer.usage)

  decided-Saves :
      (s : State) (i : Seen) (today elapsed : ℕ) (procs : List RunningProcess)
      → Remembers s
      → Saves i (decided_round chrono text same_tally s i today elapsed procs).state
  unfolding decided_round
  decided-Saves s i today elapsed procs h = save_lem _ i.written s.last_saved_tally s.tally_file h

  paused-Saves :
      (s : State) (i : Seen) (today : ℕ)
      → Remembers s
      → Saves i (paused_round chrono text same_tally s i today).state
  unfolding paused_round
  paused-Saves s i today h = save_lem _ i.written s.last_saved_tally s.tally_file h

  -- The same of any round, if the processes are listed.
  abbrev SavesIf : Seen → State → Type 0
  SavesIf i t =
      Remembers t
      × (is_some i.running_processes ≡ true
          → i.written ≡ true
          → t.tally_file ≡ some t.enforcer.usage)

  enforced-Saves :
      (s : State) (i : Seen) (today elapsed : ℕ) (procs : Option (List RunningProcess))
      → Remembers s
      → i.running_processes ≡ procs
      → SavesIf i (enforced_round chrono text same_tally s i today elapsed procs).state
  unfolding enforced_round
  enforced-Saves s i today elapsed none h e = (h, λ listed w. absurd cc)
  enforced-Saves s i today elapsed (some procs) h e =
      let (kept, saved) = decided-Saves s i today elapsed procs h in (kept, λ listed w. saved w)

  mode-Saves :
      (mode : TickMode) (s : State) (i : Seen) (today elapsed : ℕ)
      → Remembers s
      → SavesIf i (round_in chrono text same_tally mode s i today elapsed).state
  unfolding round_in
  mode-Saves Rules.stand_down s i today elapsed h =
      let (kept, saved) = paused-Saves s i today h in (kept, λ listed w. saved w)
  mode-Saves measure s i today elapsed h =
      let (kept, saved) = decided-Saves s i today elapsed [] h in (kept, λ listed w. saved w)
  mode-Saves enforce s i today elapsed h =
      enforced-Saves s i today elapsed i.running_processes h refl

  round-Saves :
      (s : State) (i : Seen) → Remembers s → SavesIf i (run_round chrono text same_tally s i).state
  unfolding run_round begin_round
  round-Saves s i h =
      let (b, today, elapsed) = begin_round chrono text same_tally s i in
      mode-Saves (tick_mode chrono text i.rules) b i today elapsed h

  run-Remembers :
      (s : State) (is : List Seen)
      → Remembers s
      → Remembers (run_rounds chrono text same_tally s is).0
  unfolding run_rounds
  run-Remembers s [] h = h
  run-Remembers s (i ∷ is) h =
      run-Remembers (run_round chrono text same_tally s i).state is (round-Saves s i h).0

-- Let two tallies that are stored alike be equal, and let the loop start remembering no other tally
-- than the file holds. Then after any run of it, in which writes may have failed, a round whose
-- write succeeds leaves exactly the tally in the file: a restart goes on from it. The round is one
-- in which the processes can be listed.
pub run_round-saved :
    (chrono : Chrono) (text : Text) (same_tally : Usage → Usage → Bool)
    (alike : (u v : Usage) → same_tally u v ≡ true → u ≡ v) (s : State) (is : List Seen) (i : Seen)
    → Remembers s
    → is_some i.running_processes ≡ true
    → i.written ≡ true
    → let t =
        (run_round chrono text same_tally (run_rounds chrono text same_tally s is).0 i).state in
      t.tally_file ≡ some t.enforcer.usage
run_round-saved chrono text same_tally alike s is i h listed w =
    (round-Saves chrono text same_tally alike (run_rounds chrono text same_tally s is).0 i
        (run-Remembers chrono text same_tally alike s is h)).1
      listed w
