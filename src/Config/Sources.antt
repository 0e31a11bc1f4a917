-- ===== src/Config/Sources.antt =====
-- The bound on the sources of a day (`MAX_EARNED_SOURCES` of src/config.rs).
use nestwatch.Common.{
  ℕ, suc, ◌≤◌, ◌<◌, ◌≡◌, refl, ◌∙◌, ap, inl, inr, String, true, false, Option, none, some, List, [],
  ◌∷◌, ◌==◌, length, length-retain, count, count-le-length, ltb, is_some, min, arith, Bool-cases,
  Option-cases,
}
use nestwatch.Common.Keyed.{string_keys, lookup, insert, length-insert, IsMap}
use nestwatch.Config.{
  Config, Provider, Progress, EarnedDay, entry_today, spent_of, pruned, note_bar_met, payable, pay,
  too_many_sources, crowded, paid_entry, earn_from, earn, provider_authority, ceiling_mins,
  reward_for, bar_met_by, max_earned_sources,
}
use nestwatch.Config.Entries.{sum-cases, noted_in, noted_in-Keeps, earn-Keeps, lookup-pruned}
use nestwatch.Config.Latch.{noted_in-entered}
use nestwatch.Config.Ceiling.{Report, run}

-- How many sources have an entry of the day.
abbrev pub sources : ℕ → Config → ℕ
sources d c = count (λ x. x.1.date == d) c.earned

insert-few :
    (d : ℕ) (c : Config) (r : String) (e : EarnedDay)
    → (is_some (lookup r (pruned d c.earned)) ≡ false → sources d c < max_earned_sources)
    → sources d c ≤ max_earned_sources
    → count (λ x. x.1.date == d) (insert r e (pruned d c.earned)) ≤ max_earned_sources
insert-few d c r e new few = ground (
  arith,
  count-le-length (λ x. x.1.date == d) (insert r e (pruned d c.earned)),
  length-insert r e (pruned d c.earned),
  length-retain (λ x. x.1.date == d) c.earned,
)

note-few :
    (c : Config) (r : String) (d : ℕ)
    → sources d c ≤ max_earned_sources
    → sources d (note_bar_met c r d) ≤ max_earned_sources
unfolding note_bar_met
note-few c r d few =
    let kept = pruned d c.earned in
    let size = length-retain (λ x. x.1.date == d) c.earned in
    elim (Option-cases (lookup r kept)) [
      | inl unset ↦
          rw (note_bar_met, unset)
            (elim (Bool-cases (ltb (length kept) max_earned_sources)) [
              | inl room ↦ rw room (insert-few d c r _ (λ _. ground arith) few)
              | inr full ↦ rw full (omega (arith, count-le-length (λ x. x.1.date == d) kept, size))
            ])
      | inr (e, is_set) ↦ rw (note_bar_met, is_set) (insert-few d c r _ (λ h. ground arith) few)
    ]

pay-few :
    (c : Config) (r : String) (p : Provider) (d : ℕ) (spent : Option (Option ℕ)) (n : ℕ)
    → (is_some spent ≡ true → is_some (lookup r (pruned d c.earned)) ≡ true)
    → sources d c ≤ max_earned_sources
    → sources d (pay c r p d spent n).0 ≤ max_earned_sources
unfolding pay
pay-few c r p d spent n known few = elim (Bool-cases (crowded c d spent)) [
  | inl full ↦ rw (pay, full) few
  | inr room ↦
      rw (pay, room) (insert-few d c r (paid_entry c r p d spent n) (λ h. ground arith) few)
]

noted_in-few :
    (c : Config) (r : String) (p : Provider) (d : ℕ) (reported : Option Progress)
    → sources d c ≤ max_earned_sources
    → sources d (noted_in c r p d reported) ≤ max_earned_sources
noted_in-few c r p d reported few = elim (Bool-cases (bar_met_by p reported)) [
  | inl met ↦ rw met (note-few c r d few)
  | inr unmet ↦ rw unmet few
]

is_some-spent : (o : Option EarnedDay) → is_some (spent_of o) ≡ true → is_some o ≡ true
is_some-spent none h = h
is_some-spent (some e) h = refl

earn-few :
    (c : Config) (r : String) (d : ℕ) (reported : Option Progress)
    → IsMap c.earned
    → sources d c ≤ max_earned_sources
    → sources d (earn c r d reported).0 ≤ max_earned_sources
unfolding earn earn_from
earn-few c r d reported h few = elim (sum-cases (provider_authority c r)) [
  | inl (why, rejected) ↦ rw (earn, rejected) few
  | inr (p, allowed) ↦
      let t = noted_in c r p d reported in
      let noted = noted_in-few c r p d reported few in
      let spent = spent_of (entry_today c r d) in
      elim (Option-cases (reward_for p reported)) [
        | inl low ↦ rw (earn, allowed, earn_from, low) noted
        | inr (reward, met) ↦ elim (sum-cases (payable (ceiling_mins p) spent reward)) [
          | inl (why, denied) ↦ rw (earn, allowed, earn_from, met, denied) noted
          | inr (n, paid) ↦
              rw (earn, allowed, earn_from, met, paid)
                (pay-few t r p d spent n
                  (λ s.
                    ap is_some (lookup-pruned t r d (noted_in-Keeps c r p d reported h).is_map)
                    ∙ noted_in-entered c r p d reported h (is_some-spent (entry_today c r d) s))
                  noted)
        ]
      ]
]

-- Over the reports of a day, of any sources and in any order, at most sixteen sources have an entry
-- of that day, if no more had one at their start; and the map keeps one entry for each name, as it had.
pub run-few :
    (c : Config) (s : String) (d : ℕ) (rs : List Report)
    → IsMap c.earned
    → sources d c ≤ max_earned_sources
    → (sources d (run c s d rs).0 ≤ max_earned_sources) × IsMap (run c s d rs).0.earned
unfolding run
run-few c s d [] h few = (few, h)
run-few c s d (r ∷ rs) h few =
    run-few (earn c r.source d r.reported).0 s d rs (earn-Keeps c r.source d r.reported h).is_map
      (earn-few c r.source d r.reported h few)

count-retain :
    (d : ℕ) (m : List (String × EarnedDay))
    → count (λ x. x.1.date == d) (pruned d m) ≡ count (λ x. x.1.date == d) m
count-retain d [] = refl
count-retain d (x ∷ m) = ground (arith, count-retain d m)

count-insert :
    (d : ℕ) (r : String) (e : EarnedDay) (m : List (String × EarnedDay))
    → lookup r m ≡ none
    → (e.date == d) ≡ true
    → count (λ x. x.1.date == d) (insert r e m) ≡ suc (count (λ x. x.1.date == d) m)
unfolding lookup insert
count-insert d r e [] h t = ground arith
count-insert d r e ((s, x) ∷ m) h t = ground (arith, count-insert d r e m)

payable-first : (limit : Option ℕ) (reward : ℕ) → (n : ℕ) × (payable limit none reward ≡ inr n)
unfolding payable
payable-first none reward = (reward, refl)
payable-first (some l) reward = (min reward l, refl)

note-crowds :
    (c : Config) (r : String) (d : ℕ)
    → IsMap c.earned
    → entry_today c r d ≡ none
    → sources d c ≡ 15
    → sources d (note_bar_met c r d) ≡ 16
unfolding note_bar_met
note-crowds c r d h new n =
    let kept = pruned d c.earned in
    let unset = lookup-pruned c r d h ∙ new in
    let size : length kept ≡ 15 = length-retain (λ x. x.1.date == d) c.earned ∙ n in
    let room : ltb (length kept) max_earned_sources ≡ true = ground arith in
    rw (note_bar_met, unset, room)
      (count-insert d r _ kept unset (ground arith) ∙ ap suc (count-retain d c.earned ∙ n))

-- With fifteen sources of the day, a further source with a gate that earns a reward and meets the
-- gate's bar in its first report is rejected as one source too many, although it is the sixteenth:
-- noting the bar has already made its entry, which then counts against it. The source is installed
-- and on, has no entry of the day, and the map has one entry for each name.
pub earn-crowds :
    (c : Config) (r : String) (p : Provider) (d reward : ℕ) (reported : Option Progress)
    → IsMap c.earned
    → provider_authority c r ≡ inr p
    → entry_today c r d ≡ none
    → sources d c ≡ 15
    → bar_met_by p reported ≡ true
    → reward_for p reported ≡ some reward
    → ((earn c r d reported).1 ≡ too_many_sources) × (sources d (earn c r d reported).0 ≡ 16)
unfolding earn earn_from pay
earn-crowds c r p d reward reported h allowed new n met pays =
    let (m, paid) = payable-first (ceiling_mins p) reward in
    let full = note-crowds c r d h new n in
    let shut : crowded (note_bar_met c r d) d none ≡ true = ground arith in
    rw (earn, allowed, earn_from, pays, new, paid, met, pay, new, shut) (refl, full)
