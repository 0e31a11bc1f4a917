-- ===== src/Config/Grants.antt =====
-- What one report pays (`Config::earn` of src/config.rs).
use nestwatch.Common.{
  ℕ, ◌≤◌, ◌≡◌, refl, ap, ◌∙◌, inl, inr, String, Bool, Option, none, some, if◌then◌else◌, is_some,
  arith, Bool-cases, Option-cases,
}
use mathlib.Core.Path.{subst}
use nestwatch.Common.Keyed.{string_keys, lookup}
use nestwatch.Config.{
  Config, DailyGrant, add, Provider, Progress, Earn, granted, entry_today, spent_of, pruned,
  note_bar_met, payable, pay, crowded, earn_from, earn, turned_off, provider_authority,
  ceiling_mins, reward_for, bar_met_by,
}
use nestwatch.Config.Entries.{sum-cases, noted_in}
use nestwatch.Config.Ceiling.{minutes_of, authority-lookup}

-- The parent's extra minutes after an answer: a grant adds to them, unless the source has a gate.
abbrev pub credited : Bool → ℕ → Earn → DailyGrant → DailyGrant
credited gated d (granted n) extra = if gated then extra else add extra d n
credited gated d _ extra = extra

-- No grant is of more than the reward for what was reported.
abbrev pub Within : Option ℕ → Earn → Type 0
Within none (granted n) = ⊥
Within (some reward) (granted n) = n ≤ reward
Within _ _ = Unit

noted-extra : (c : Config) (r : String) (d : ℕ) → (note_bar_met c r d).extra ≡ c.extra
unfolding note_bar_met
noted-extra c r d = elim (Option-cases (lookup r (pruned d c.earned))) [
  | inl unset ↦ rw (note_bar_met, unset) (ground arith)
  | inr (e, is_set) ↦ rw (note_bar_met, is_set) refl
]

noted_in-extra :
    (c : Config) (r : String) (p : Provider) (d : ℕ) (reported : Option Progress)
    → (noted_in c r p d reported).extra ≡ c.extra
noted_in-extra c r p d reported = elim (Bool-cases (bar_met_by p reported)) [
  | inl met ↦ rw met (noted-extra c r d)
  | inr unmet ↦ rw unmet refl
]

pay-credited :
    (c : Config) (r : String) (p : Provider) (d : ℕ) (spent : Option (Option ℕ)) (n : ℕ)
    → let (t, a) = pay c r p d spent n in
      (t.extra ≡ credited (is_some p.gate) d a c.extra) × (minutes_of a ≤ n)
unfolding pay
pay-credited c r p d spent n = elim (Bool-cases (crowded c d spent)) [
  | inl full ↦ rw (pay, full) (refl, omega arith)
  | inr room ↦ rw (pay, room) (refl, omega arith)
]

payable-le :
    (limit : Option ℕ) (spent : Option (Option ℕ)) (reward n : ℕ)
    → payable limit spent reward ≡ inr n
    → n ≤ reward
unfolding payable
payable-le none none reward n h = ground arith
payable-le none (some u) reward n h = cc
payable-le (some l) none reward n h = ground arith
payable-le (some l) (some none) reward n h = cc
payable-le (some l) (some (some u)) reward n h = ground arith

Within-le : (reward n : ℕ) (a : Earn) → minutes_of a ≤ n → n ≤ reward → Within (some reward) a
Within-le reward n (granted m) h le = omega arith
Within-le reward n _ h le = tt

earn_from-credited :
    (c : Config) (r : String) (p : Provider) (d : ℕ) (reported : Option Progress)
    → let (t, a) = earn_from c r p d reported in
      (t.extra ≡ credited (is_some p.gate) d a c.extra) × Within (reward_for p reported) a
unfolding earn_from
earn_from-credited c r p d reported =
    let t = noted_in c r p d reported in
    let same = noted_in-extra c r p d reported in
    let spent = spent_of (entry_today c r d) in
    elim (Option-cases (reward_for p reported)) [
      | inl low ↦ rw (earn_from, low) (same, tt)
      | inr (reward, met) ↦ elim (sum-cases (payable (ceiling_mins p) spent reward)) [
        | inl (why, denied) ↦ rw (earn_from, met, denied) (same, tt)
        | inr (n, paid) ↦
            let (extra, little) = pay-credited t r p d spent n in
            rw (earn_from, met, paid)
              (
                extra ∙ ap (credited (is_some p.gate) d (pay t r p d spent n).1) same,
                Within-le reward n (pay t r p d spent n).1 little
                    (payable-le (ceiling_mins p) spent reward n paid),
              )
      ]
    ]

off-Within : (o : Option ℕ) → Within o turned_off
off-Within none = tt
off-Within (some reward) = tt

rejected-off :
    (c : Config) (r : String) (p : Provider) (why : Earn)
    → lookup r c.providers ≡ some p
    → provider_authority c r ≡ inl why
    → why ≡ turned_off
unfolding provider_authority
rejected-off c r p why found h = ground arith

-- For an installed source, the parent's extra minutes move only with a grant to a source without a gate, and then by exactly
-- the minutes granted; a refusal and a rejected request leave them. A grant is never more than the
-- reward for what was reported, and none is made where that reward is nothing.
pub earn-credited :
    (c : Config) (r : String) (p : Provider) (d : ℕ) (reported : Option Progress)
    → lookup r c.providers ≡ some p
    → let (t, a) = earn c r d reported in
      (t.extra ≡ credited (is_some p.gate) d a c.extra) × Within (reward_for p reported) a
unfolding earn
earn-credited c r p d reported found = elim (sum-cases (provider_authority c r)) [
  | inl (why, rejected) ↦
      rw (earn, rejected, rejected-off c r p why found rejected)
        (refl, off-Within (reward_for p reported))
  | inr (q, allowed) ↦
      rw (earn, allowed)
        (subst
          (λ x.
            let (t, a) = earn_from c r q d reported in
            (t.extra ≡ credited (is_some x.gate) d a c.extra) × Within (reward_for x reported) a)
          (authority-lookup c r p q found allowed) (earn_from-credited c r q d reported))
]
