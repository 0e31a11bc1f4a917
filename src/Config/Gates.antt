-- ===== src/Config/Gates.antt =====
-- When the gate of a source opens (`Config::judge` and `Config::gate_read_back` of src/config.rs).
use nestwatch.Common.{
  ℕ, ◌+◌, ◌≤◌, ◌≡◌, refl, sym, ap, ◌∙◌, inl, inr, String, Bool, true, false, ◌&&◌, Option, some,
  List, [], ◌∷◌, if◌then◌else◌, is_some, is_some_and, arith, Bool-cases, Option-cases, ==_iff,
}
use nestwatch.Common.Keyed.{◌=?◌, string_keys, beq_self, lookup, IsMap}
use nestwatch.Config.{
  Config, Provider, Progress, EarnedDay, entry_today, spent_of, pruned, payable, pay, crowded,
  paid_entry, earn_from, earn, provider_authority, ceiling_mins, reward_for, bar_met_by,
  gate_read_back, lifted, judge,
}
use nestwatch.Config.Entries.{
  sum-cases, noted_in, noted_in-Keeps, earn-Keeps, insert-entry, note-entry, lookup-pruned,
}
use nestwatch.Config.Ceiling.{authority-lookup, Report}

abbrev bar_of : Option EarnedDay → Bool
bar_of o = is_some_and (λ e. e.bar_met) o

abbrev bar : Config → String → ℕ → Bool
bar c s d = bar_of (entry_today c s d)

pay-bar :
    (c : Config) (r : String) (p : Provider) (d : ℕ) (spent : Option (Option ℕ)) (n : ℕ)
    → IsMap c.earned
    → bar (pay c r p d spent n).0 r d ≡ bar c r d
unfolding pay
pay-bar c r p d spent n h = elim (Bool-cases (crowded c d spent)) [
  | inl full ↦ rw (pay, full) refl
  | inr room ↦
      rw
        (
          pay,
          room,
          insert-entry (pruned d c.earned) r r d (paid_entry c r p d spent n),
          beq_self r,
          lookup-pruned c r d h,
        )
        (ground (arith, ==_iff d d))
]

noted_in-bar :
    (c : Config) (r : String) (p : Provider) (d : ℕ) (reported : Option Progress)
    → IsMap c.earned
    → (bar c r d ≡ true → bar (noted_in c r p d reported) r d ≡ true)
      × (bar c r d ≡ false
          → bar (noted_in c r p d reported) r d ≡ true
          → bar_met_by p reported ≡ true)
noted_in-bar c r p d reported h = elim (Bool-cases (bar_met_by p reported)) [
  | inl met ↦ rw (met, note-entry c r r d h, beq_self r) (ground arith, λ _ _. refl)
  | inr unmet ↦ rw unmet (λ b. b, λ a b. cc)
]

-- What a report does to the bar of its source.
abbrev Raises : Config → Config → String → ℕ → Provider → Option Progress → Type 0
Raises c t r d p reported =
    (bar c r d ≡ true → bar t r d ≡ true)
    × (bar c r d ≡ false → bar t r d ≡ true → bar_met_by p reported ≡ true)

earn_from-Raises :
    (c : Config) (r : String) (p : Provider) (d : ℕ) (reported : Option Progress)
    → IsMap c.earned
    → Raises c (earn_from c r p d reported).0 r d p reported
unfolding earn_from
earn_from-Raises c r p d reported h =
    let t = noted_in c r p d reported in
    let noted = noted_in-bar c r p d reported h in
    let spent = spent_of (entry_today c r d) in
    elim (Option-cases (reward_for p reported)) [
      | inl low ↦ rw (earn_from, low) noted
      | inr (reward, met) ↦ elim (sum-cases (payable (ceiling_mins p) spent reward)) [
        | inl (why, denied) ↦ rw (earn_from, met, denied) noted
        | inr (n, paid) ↦
            rw (earn_from, met, paid)
              (let same = pay-bar t r p d spent n (noted_in-Keeps c r p d reported h).is_map in
                (λ b. same ∙ noted.0 b, λ b a. noted.1 b (sym same ∙ a)))
      ]
    ]

earn-bar :
    (c : Config) (r : String) (d : ℕ) (reported : Option Progress)
    → IsMap c.earned
    → bar c r d ≡ true
    → bar (earn c r d reported).0 r d ≡ true
unfolding earn
earn-bar c r d reported h b = elim (sum-cases (provider_authority c r)) [
  | inl (why, rejected) ↦ rw (earn, rejected) b
  | inr (p, allowed) ↦ rw (earn, allowed) ((earn_from-Raises c r p d reported h).0 b)
]

earn-cause :
    (c : Config) (r : String) (p : Provider) (d : ℕ) (reported : Option Progress)
    → IsMap c.earned
    → lookup r c.providers ≡ some p
    → bar c r d ≡ false
    → bar (earn c r d reported).0 r d ≡ true
    → bar_met_by p reported ≡ true
unfolding earn
earn-cause c r p d reported h found b = elim (sum-cases (provider_authority c r)) [
  | inl (why, rejected) ↦ rw (earn, rejected) (λ a. cc)
  | inr (q, allowed) ↦
      rw (earn, allowed)
        (λ a.
          ap (λ x. bar_met_by x reported) (sym (authority-lookup c r p q found allowed))
          ∙ (earn_from-Raises c r q d reported h).1 b a)
]

abbrev gated : Option Provider → Bool
gated o = is_some_and (λ p. is_some p.gate) o

lifted-bar :
    (c : Config) (s : String) (d : ℕ) → lifted c s d ≡ gated (lookup s c.providers) && bar c s d
unfolding gate_read_back
lifted-bar c s d = ground arith

earn-lifted :
    (c : Config) (r s : String) (d : ℕ) (reported : Option Progress)
    → IsMap c.earned
    → lifted c s d ≡ true
    → lifted (earn c r d reported).0 s d ≡ true
earn-lifted c r s d reported h l =
    let t = (earn c r d reported).0 in
    let k = earn-Keeps c r d reported h in
    let before = sym (lifted-bar c s d) ∙ l in
    let same = ap (λ ps. gated (lookup s ps)) k.same_providers in
    elim (Bool-cases (r =? s)) [
      | inl here ↦
          let is : r ≡ s = (string_keys.beq_iff r s).0 here in
          let raised : bar c s d ≡ true → bar t s d ≡ true = λ b.
            sym (ap (λ x. bar t x d) is) ∙ earn-bar c r d reported h (ap (λ x. bar c x d) is ∙ b) in
          lifted-bar t s d ∙ ground (arith, raised)
      | inr other ↦ lifted-bar t s d ∙ ground (arith, ap bar_of (k.others s other))
    ]

-- When a report is told that it opened the gate of its source, the gate was shut before it and is
-- open after it, and the work in that very report meets the gate's bar: neither minutes already
-- paid nor the report of another source opens it. The source is installed, and the map has one entry
-- for each name.
pub judge-opens :
    (c : Config) (s : String) (p : Provider) (d : ℕ) (reported : Option Progress)
    → IsMap c.earned
    → lookup s c.providers ≡ some p
    → let (t, a, opened) = judge c s d reported in
      opened ≡ true
      → (lifted c s d ≡ false) × (lifted t s d ≡ true) × (bar_met_by p reported ≡ true)
unfolding judge
judge-opens c s p d reported h found o =
    let t = (earn c s d reported).0 in
    let k = earn-Keeps c s d reported h in
    let shut : lifted c s d ≡ false = ground arith in
    let opened : lifted t s d ≡ true = ground arith in
    let before = sym (lifted-bar c s d) ∙ shut in
    let later = sym (lifted-bar t s d) ∙ opened in
    let same = ap (λ ps. gated (lookup s ps)) k.same_providers in
    (shut, opened, earn-cause c s p d reported h found (ground arith) (ground arith))

-- How often the reports of a day are told that they opened the gate of one source.
unfoldable pub openings : Config → String → ℕ → List Report → ℕ
openings c s d [] = 0
openings c s d (r ∷ rs) =
    let (t, a, opened) = judge c r.source d r.reported in
    let rest = openings t s d rs in (if (r.source =? s) && opened then 1 else 0) + rest

abbrev pub is_open : Config → String → ℕ → ℕ
is_open c s d = if lifted c s d then 1 else 0

-- Over all the reports of a day, of any sources and in any order, the gate of a source is told to
-- open at most once, and not at all if it was open at their start. The map has one entry for each
-- name.
pub openings-once :
    (c : Config) (s : String) (d : ℕ) (rs : List Report)
    → IsMap c.earned
    → openings c s d rs + is_open c s d ≤ 1
unfolding openings judge
openings-once c s d [] h = ground arith
openings-once c s d (r ∷ rs) h =
    let t = (earn c r.source d r.reported).0 in
    let k = earn-Keeps c r.source d r.reported h in
    let rest = openings-once t s d rs k.is_map in
    let stays = earn-lifted c r.source s d r.reported h in
    elim (Bool-cases (r.source =? s)) [
      | inl same ↦
          let is : r.source ≡ s = (string_keys.beq_iff r.source s).0 same in
          rw same
            (ground (arith, rest, stays, ap (λ x. lifted c x d) is, ap (λ x. lifted t x d) is))
      | inr other ↦ rw other (ground (arith, rest, stays))
    ]
