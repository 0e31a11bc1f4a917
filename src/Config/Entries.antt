-- ===== src/Config/Entries.antt =====
-- The entries of the day in the map of what was earned, and what a report leaves of them
-- (`Config::earn` and `Config::note_bar_met` of src/config.rs).
use nestwatch.Common.{
  ℕ, ◌≡◌, refl, ◌∙◌, ◌⊎◌, inl, inr, String, Bool, true, false, Option, none, some, List, length,
  ltb, ◌==◌, if◌then◌else◌, arith, Bool-cases, Option-cases,
}
use nestwatch.Common.Keyed.{
  ◌=?◌, string_keys, lookup, insert, lookup-insert, lookup-retain, IsMap, insert-IsMap,
  retain-IsMap,
}
use nestwatch.Config.{
  Config, Provider, Progress, EarnedDay, of_today, entry_today, spent_of, pruned, note_bar_met,
  payable, pay, crowded, paid_entry, earn_from, earn, provider_authority, ceiling_mins, reward_for,
  bar_met_by, max_earned_sources,
}

pub lookup-pruned :
    (c : Config) (s : String) (d : ℕ)
    → IsMap c.earned
    → lookup s (pruned d c.earned) ≡ entry_today c s d
lookup-pruned c s d h = lookup-retain s (λ e. e.date == d) c.earned h

pub of_today-twice : (d : ℕ) (o : Option EarnedDay) → of_today d (of_today d o) ≡ of_today d o
of_today-twice d none = refl
of_today-twice d (some e) = ground arith

-- What the entry of a source becomes when its bar is noted.
abbrev pub noted : ℕ → Bool → Option EarnedDay → Option EarnedDay
noted d room none =
    if room then some (record { date = d; minutes = some 0; bar_met = true }) else none
noted d room (some e) = some (record e { bar_met = true })

pub insert-entry :
    (m : List (String × EarnedDay)) (r s : String) (d : ℕ) (e : EarnedDay)
    → of_today d (lookup s (insert r e m))
      ≡ (if r =? s then of_today d (some e) else of_today d (lookup s m))
insert-entry m r s d e =
    rw (lookup-insert r s e m)
      (elim (Bool-cases (r =? s)) [ inl same ↦ rw same refl | inr other ↦ rw other refl ])

pub pruned-entry :
    (c : Config) (s : String) (d : ℕ)
    → IsMap c.earned
    → of_today d (lookup s (pruned d c.earned)) ≡ entry_today c s d
pruned-entry c s d h = rw (lookup-pruned c s d h) (of_today-twice d (lookup s c.earned))

pub dated :
    (d : ℕ) (o : Option EarnedDay) (e : EarnedDay) → of_today d o ≡ some e → (e.date == d) ≡ true
dated d none e h = cc
dated d (some x) e h = ground arith

pub note-entry :
    (c : Config) (r s : String) (d : ℕ)
    → IsMap c.earned
    → let e = entry_today c s d in
      entry_today (note_bar_met c r d) s d
      ≡ (if r =? s then noted d (ltb (length (pruned d c.earned)) max_earned_sources) e else e)
unfolding note_bar_met
note-entry c r s d h =
    let kept = pruned d c.earned in
    let at_r = lookup-pruned c r d h in
    elim (Option-cases (lookup r kept)) [
      | inl unset ↦
          rw (note_bar_met, unset)
            (ground (
              arith,
              at_r,
              pruned-entry c s d h,
              string_keys.beq_iff r s,
              insert-entry kept r s d (record { date = d; minutes = some 0; bar_met = true }),
            ))
      | inr (e, is_set) ↦
          rw (note_bar_met, is_set)
            (ground (
              arith,
              at_r,
              pruned-entry c s d h,
              string_keys.beq_iff r s,
              dated d (lookup r c.earned) e,
              insert-entry kept r s d (record e { bar_met = true }),
            ))
    ]

-- Nothing but the entry of one source has changed.
pub record Keeps (c t : Config) (r : String) (d : ℕ) : Type 0 where
  pub same_providers : t.providers ≡ c.providers
  pub is_map : IsMap t.earned
  pub others : (s : String) → (r =? s) ≡ false → entry_today t s d ≡ entry_today c s d

pub note-Keeps :
    (c : Config) (r : String) (d : ℕ) → IsMap c.earned → Keeps c (note_bar_met c r d) r d
unfolding note_bar_met
note-Keeps c r d h =
    let kept = pruned d c.earned in
    let k : IsMap kept = retain-IsMap (λ x. x.1.date == d) c.earned h in
    record {
      same_providers = elim (Option-cases (lookup r kept)) [
        | inl unset ↦ rw (note_bar_met, unset) (ground arith)
        | inr (e, is_set) ↦ rw (note_bar_met, is_set) refl
      ];
      is_map = elim (Option-cases (lookup r kept)) [
        | inl unset ↦
            rw (note_bar_met, unset)
              (elim (Bool-cases (ltb (length kept) max_earned_sources)) [
                | inl room ↦
                    rw room (
                      insert-IsMap r (record { date = d; minutes = some 0; bar_met = true }) kept k)
                | inr crowded ↦ rw crowded k
              ])
        | inr (e, is_set) ↦
            rw (note_bar_met, is_set) (insert-IsMap r (record e { bar_met = true }) kept k)
      ];
      others = λ s ne. note-entry c r s d h ∙ rw ne refl;
    }

pub pay-Keeps :
    (c : Config) (r : String) (p : Provider) (d : ℕ) (spent : Option (Option ℕ)) (n : ℕ)
    → IsMap c.earned
    → Keeps c (pay c r p d spent n).0 r d
unfolding pay
pay-Keeps c r p d spent n h =
    let kept = pruned d c.earned in
    let e = paid_entry c r p d spent n in
    elim (Bool-cases (crowded c d spent)) [
      | inl full ↦
          rw (pay, full) (record { same_providers = refl; is_map = h; others = λ s ne. refl })
      | inr room ↦
          rw (pay, room)
            (record {
              same_providers = refl;
              is_map = insert-IsMap r e kept (retain-IsMap (λ x. x.1.date == d) c.earned h);
              others = λ s ne. insert-entry kept r s d e ∙ rw ne (pruned-entry c s d h);
            })
    ]

pub sum-cases : {A B : Type 0} (q : A ⊎ B) → ((a : A) × (q ≡ inl a)) ⊎ ((b : B) × (q ≡ inr b))
sum-cases (inl a) = inl (a, refl)
sum-cases (inr b) = inr (b, refl)

pub Keeps-trans :
    (c t u : Config) (r : String) (d : ℕ) → Keeps c t r d → Keeps t u r d → Keeps c u r d
Keeps-trans c t u r d a b = record {
  same_providers = b.same_providers ∙ a.same_providers;
  is_map = b.is_map;
  others = λ s ne. b.others s ne ∙ a.others s ne;
}

-- The configuration once the bar is noted.
abbrev pub noted_in : Config → String → Provider → ℕ → Option Progress → Config
noted_in c r p d reported = if bar_met_by p reported then note_bar_met c r d else c

pub noted_in-Keeps :
    (c : Config) (r : String) (p : Provider) (d : ℕ) (reported : Option Progress)
    → IsMap c.earned
    → Keeps c (noted_in c r p d reported) r d
noted_in-Keeps c r p d reported h = elim (Bool-cases (bar_met_by p reported)) [
  | inl met ↦ rw met (note-Keeps c r d h)
  | inr unmet ↦ rw unmet (record { same_providers = refl; is_map = h; others = λ s ne. refl })
]

pub earn_from-Keeps :
    (c : Config) (r : String) (p : Provider) (d : ℕ) (reported : Option Progress)
    → IsMap c.earned
    → Keeps c (earn_from c r p d reported).0 r d
unfolding earn_from
earn_from-Keeps c r p d reported h =
    let t = noted_in c r p d reported in
    let k = noted_in-Keeps c r p d reported h in
    let spent = spent_of (entry_today c r d) in
    elim (Option-cases (reward_for p reported)) [
      | inl low ↦ rw (earn_from, low) k
      | inr (reward, met) ↦ elim (sum-cases (payable (ceiling_mins p) spent reward)) [
        | inl (why, denied) ↦ rw (earn_from, met, denied) k
        | inr (n, paid) ↦
            rw (earn_from, met, paid)
              (Keeps-trans c t (pay t r p d spent n).0 r d k (pay-Keeps t r p d spent n k.is_map))
      ]
    ]

pub earn-Keeps :
    (c : Config) (r : String) (d : ℕ) (reported : Option Progress)
    → IsMap c.earned
    → Keeps c (earn c r d reported).0 r d
unfolding earn
earn-Keeps c r d reported h = elim (sum-cases (provider_authority c r)) [
  | inl (why, rejected) ↦
      rw (earn, rejected) (record { same_providers = refl; is_map = h; others = λ s ne. refl })
  | inr (p, found) ↦ rw (earn, found) (earn_from-Keeps c r p d reported h)
]
