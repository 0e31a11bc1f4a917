-- ===== src/Enforce/Notices.antt =====
-- The child is told of a stopped program once a day (`announce_once` and the announced names of
-- src/rules.rs).
use nestwatch.Common.{
  ℕ, ◌≡◌, refl, sym, ap, ◌∙◌, String, true, false, ◌||◌, some, List, [], ◌∷◌, ◌++◌, inl, inr, All,
  arith, Option-cases, Bool-cases, ==_iff,
}
use nestwatch.Common.Keyed.{◌=?◌, string_keys, mem?, beq_self}
use nestwatch.Chrono.{Chrono}
use nestwatch.Text.{Text, norm}
use mathlib.Core.Path.{subst}
use mathlib.Core.List.{append-nil}
use nestwatch.Usage.{Usage, read_on}
use nestwatch.Tally.{accrue}
use nestwatch.Rules.{EnforceAction, lock, Rules, effective_budget_mins}
use nestwatch.Enforce.{
  RunningProcess, Tick, RuleAction, kill, app_stopped, Sweep, stop_reason, sweep, RulesEnforcer,
  budget_step, charged, targets_at, decide,
}
use nestwatch.Enforce.Stops.{told}

-- None of the names is in the list; and no name stands twice.
abbrev pub Unseen : List String → List String → Type 0
Unseen seen ns = All (λ n. mem? n seen ≡ false) ns

abbrev pub Distinct : List String → Type 0
Distinct [] = Unit
Distinct (n ∷ ns) = (mem? n ns ≡ false) × Distinct ns

Unseen-cons :
    (n : String) (seen ns : List String)
    → Unseen (n ∷ seen) ns
    → (mem? n ns ≡ false) × Unseen seen ns
unfolding mem?
Unseen-cons n seen [] h = (refl, tt)
Unseen-cons n seen (m ∷ ns) h =
    let ih = Unseen-cons n seen ns h.1 in
    (ground (arith, string_keys.beq_iff n m, string_keys.beq_iff m n), (ground arith, ih.1))

-- What a pass over the processes tells, and the names it has seen afterwards.
pub record Tells (text : Text) (before after : List String) (ns : List String) : Type 0 where
  pub unseen : Unseen before ns
  pub distinct : Distinct ns
  pub seen : (n : String) → mem? n after ≡ mem? n before || mem? n ns

Tells-cons :
    (text : Text) (n : String) (before after ns : List String)
    → mem? n before ≡ false
    → Tells text (n ∷ before) after ns
    → Tells text before after (n ∷ ns)
unfolding mem?
Tells-cons text n before after ns new t =
    let (first, rest) = Unseen-cons n before ns t.unseen in
    record {
      unseen = (new, rest);
      distinct = (first, t.distinct);
      seen = λ m. ground (arith, t.seen m);
    }

or_none : (m : String) (seen : List String) → mem? m seen ≡ mem? m seen || mem? m []
unfolding mem?
or_none m seen = ground arith

sweep-Tells :
    (text : Text) (w : Sweep) (ps : List RunningProcess) (announced : List String)
    → Tells text announced (sweep text w ps announced).0 (told text (sweep text w ps announced).1)
unfolding sweep
sweep-Tells text w [] announced = record {
  unseen = tt;
  distinct = tt;
  seen = λ m. or_none m announced;
}
sweep-Tells text w (p ∷ ps) announced = elim (Option-cases (stop_reason text w p)) [
  | inl stays ↦ rw (stays, sweep) (sweep-Tells text w ps announced)
  | inr (reason, goes) ↦ elim (Bool-cases (mem? (norm text p.name) announced)) [
    | inl old ↦ rw (goes, old, sweep) (sweep-Tells text w ps announced)
    | inr new ↦
        rw (goes, new, sweep)
          (Tells-cons text (norm text p.name) announced _ _ new
            (sweep-Tells text w ps (norm text p.name ∷ announced)))
  ]
]

told-append :
    (text : Text) (xs ys : List RuleAction) → told text (xs ++ ys) ≡ told text xs ++ told text ys
told-append text [] ys = refl
told-append text (kill pid ∷ rest) ys = told-append text rest ys
told-append text (app_stopped app reason ∷ rest) ys =
    ap (◌∷◌ (norm text app)) (told-append text rest ys)
told-append text (_ ∷ rest) ys = told-append text rest ys

mem?-append : (n : String) (xs ys : List String) → mem? n (xs ++ ys) ≡ mem? n xs || mem? n ys
unfolding mem?
mem?-append n [] ys = refl
mem?-append n (x ∷ xs) ys = ground (arith, mem?-append n xs ys)

apart : (z : String) (mid zs : List String) → mem? z mid ≡ true → Unseen mid zs → mem? z zs ≡ false
unfolding mem?
apart z mid [] h u = refl
apart z mid (y ∷ zs) h u = elim (Bool-cases (y =? z)) [
  | inl same ↦ absurd (ground (arith, string_keys.beq_iff y z))
  | inr other ↦ ground (arith, apart z mid zs h u.1)
]

Unseen-append :
    (before xs ys : List String) → Unseen before xs → Unseen before ys → Unseen before (xs ++ ys)
Unseen-append before [] ys a b = b
Unseen-append before (x ∷ xs) ys a b = (a.0, Unseen-append before xs ys a.1 b)

Distinct-append :
    (mid xs ys : List String)
    → Distinct xs
    → Distinct ys
    → Unseen mid ys
    → ((n : String) → mem? n xs ≡ true → mem? n mid ≡ true)
    → Distinct (xs ++ ys)
Distinct-append mid [] ys a b u h = b
Distinct-append mid (x ∷ xs) ys a b u h = (
  rw (mem?-append x xs ys, a.0, apart x mid ys (h x (unfold mem? in ground (arith, beq_self x))) u)
      refl,
  Distinct-append mid xs ys a.1 b u (λ n m. h n (unfold mem? in ground (arith, m))),
)

Unseen-earlier :
    (before mid ys : List String)
    → ((n : String) → mem? n before ≡ true → mem? n mid ≡ true)
    → Unseen mid ys
    → Unseen before ys
Unseen-earlier before mid [] h u = tt
Unseen-earlier before mid (y ∷ ys) h u = (ground (arith, h y), Unseen-earlier before mid ys h u.1)

Tells-append :
    (text : Text) (before mid after xs ys : List String)
    → Tells text before mid xs
    → Tells text mid after ys
    → Tells text before after (xs ++ ys)
Tells-append text before mid after xs ys a b = record {
  unseen =
      Unseen-append before xs ys a.unseen
        (Unseen-earlier before mid ys (λ n h. ground (arith, a.seen n)) b.unseen);
  distinct =
      Distinct-append mid xs ys a.distinct b.distinct b.unseen (λ n h. ground (arith, a.seen n));
  seen = λ n. ground (arith, a.seen n, b.seen n, mem?-append n xs ys);
}

budget_step-told :
    (text : Text) (action : EnforceAction) (budget : ℕ) (s : RulesEnforcer) (t : Tick)
    → (told text (budget_step action budget s t).1 ≡ [])
      × ((budget_step action budget s t).0.announced ≡ s.announced)
      × ((budget_step action budget s t).0.usage ≡ s.usage)
unfolding budget_step
budget_step-told text lock budget s t = ground arith
budget_step-told text _ budget s t = ground arith

-- One tick of the loop: its rules, its processes and its readings.
pub record Round : Type 0 where
  pub rules : Rules
  pub procs : List RunningProcess
  pub tick : Tick

module _ (chrono : Chrono) (text : Text) where
  unfoldable pub run : RulesEnforcer → List Round → RulesEnforcer × List RuleAction
  run s [] = (s, [])
  run s (r ∷ rs) =
      let (t, actions) = decide chrono text s r.rules r.procs r.tick in
      let (u, rest) = run t rs in (u, actions ++ rest)

  charged-day :
      (s : RulesEnforcer) (r : Round)
      → (charged chrono text s r.rules r.procs r.tick).usage.day ≡ some r.tick.today
  unfolding charged accrue read_on
  charged-day s r = ground (arith, ==_iff r.tick.today r.tick.today)

  charged-announced :
      (s : RulesEnforcer) (r : Round)
      → s.usage.day ≡ some r.tick.today
      → (charged chrono text s r.rules r.procs r.tick).announced ≡ s.announced
  unfolding charged
  charged-announced s r h = ground arith

  abbrev after_charge : RulesEnforcer → Round → RulesEnforcer
  after_charge s r = charged chrono text s r.rules r.procs r.tick

  abbrev swept : RulesEnforcer → Round → List String × List RuleAction
  swept s r =
      sweep text
        (record {
          targets = targets_at chrono text r.rules r.tick;
          usage = (after_charge s r).usage;
          child_processes = r.tick.child_processes;
        })
        r.procs (after_charge s r).announced

  abbrev stepped : RulesEnforcer → Round → RulesEnforcer × List RuleAction
  stepped s r =
      budget_step r.rules.budget_action
        (effective_budget_mins chrono text r.rules r.tick.today r.tick.adjustments)
        (record (after_charge s r) { announced = (swept s r).0 }) r.tick

  stepped-told :
      (s : RulesEnforcer) (r : Round)
      → (told text (stepped s r).1 ≡ [])
        × ((stepped s r).0.announced ≡ (swept s r).0)
        × ((stepped s r).0.usage ≡ (after_charge s r).usage)
  stepped-told s r = budget_step-told text _ _ _ r.tick

  -- The tally after a decision is the tally that was charged.
  pub decide-usage :
      (s : RulesEnforcer) (r : Round)
      → (decide chrono text s r.rules r.procs r.tick).0.usage
        ≡ (charged chrono text s r.rules r.procs r.tick).usage
  unfolding decide
  decide-usage s r = (stepped-told s r).2

  pub decide-day :
      (s : RulesEnforcer) (r : Round)
      → (decide chrono text s r.rules r.procs r.tick).0.usage.day ≡ some r.tick.today
  unfolding decide
  decide-day s r = ap (λ (u : Usage). u.day) (stepped-told s r).2 ∙ charged-day s r

  decide-Tells :
      (s : RulesEnforcer) (r : Round)
      → s.usage.day ≡ some r.tick.today
      → Tells text s.announced
          (decide chrono text s r.rules r.procs r.tick).0.announced
          (told text (decide chrono text s r.rules r.procs r.tick).1)
  unfolding decide
  decide-Tells s r h =
      let (silent, kept, _) = stepped-told s r in
      rw (told-append text (swept s r).1 (stepped s r).1, silent, kept, append-nil)
        (subst (λ a. Tells text a (swept s r).0 (told text (swept s r).1)) (charged-announced s r h)
          (sweep-Tells text _ r.procs (after_charge s r).announced))

-- Over any ticks of one day, the child is told of a program at most once, and of none announced
-- before: the notices carry distinct names, all of them new, and each is then remembered.
pub run-Tells :
    (chrono : Chrono) (text : Text) (s : RulesEnforcer) (d : ℕ) (rs : List Round)
    → s.usage.day ≡ some d
    → All (λ r. r.tick.today ≡ d) rs
    → Tells text s.announced (run chrono text s rs).0.announced (told text (run chrono text s rs).1)
unfolding run
run-Tells chrono text s d [] h days = record {
  unseen = tt;
  distinct = tt;
  seen = λ m. or_none m s.announced;
}
run-Tells chrono text s d (r ∷ rs) h days =
    let t = (decide chrono text s r.rules r.procs r.tick).0 in
    rw (told-append text (decide chrono text s r.rules r.procs r.tick).1 (run chrono text t rs).1) (
      Tells-append text s.announced t.announced _ _ _
        (decide-Tells chrono text s r (h ∙ sym (ap some days.0)))
        (run-Tells chrono text t d rs (decide-day chrono text s r ∙ ap some days.0) days.1))
