-- ===== src/Config/Ceiling.antt =====
-- What a source can earn on one day (`Config::earn` of src/config.rs).
use nestwatch.Common.{
  ℕ, ◌+◌, ◌-◌, ◌%◌, ◌≤◌, ◌≡◌, ap, ◌∙◌, inl, inr, String, Bool, true, false, Option, none, some,
  List, [], ◌∷◌, length, ltb, if◌then◌else◌, unwrap_or, u32_max, arith, Bool-cases, Option-cases,
  ==_iff,
}
use nestwatch.Common.Keyed.{◌=?◌, string_keys, beq_self, lookup, IsMap}
use nestwatch.Config.{
  Config, Provider, Progress, EarnedDay, Earn, granted, entry_today, spent_of, pruned, payable, pay,
  crowded, paid_entry, earn_from, earn, provider_authority, ceiling_mins, reward_for, bar_met_by,
  max_earned_sources, flatten,
}
use nestwatch.Config.Entries.{noted, insert-entry, note-entry, sum-cases, noted_in, earn-Keeps}

abbrev pub minutes_of : Earn → ℕ
minutes_of (granted n) = n
minutes_of _ = 0

-- What a source can still get on a day under the ceiling `cap`.
abbrev pub left : ℕ → Option EarnedDay → ℕ
left cap none = cap
left cap (some e) = elim e.minutes [ none ↦ 0 | some used ↦ cap - used ]

noted-left :
    (d limit : ℕ) (room : Bool) (o : Option EarnedDay) → left limit (noted d room o) ≤ left limit o
noted-left d limit true none = omega arith
noted-left d limit false none = omega arith
noted-left d limit room (some e) = omega arith

paid-left :
    (limit reward n : ℕ) (before : Option EarnedDay)
    → limit ≤ u32_max
    → payable (some limit) (spent_of before) reward ≡ inr n
    → n + (limit - (unwrap_or (flatten (spent_of before)) 0 + n) % 4294967296) ≤ left limit before
unfolding payable
paid-left limit reward n none hb h = ground arith
paid-left limit reward n (some e) hb h = ground arith

-- What a payment leaves of the ceiling.
pay-left :
    (c : Config) (r : String) (p : Provider) (d reward n limit : ℕ) (before : Option EarnedDay)
    → ceiling_mins p ≡ some limit
    → limit ≤ u32_max
    → payable (some limit) (spent_of before) reward ≡ inr n
    → left limit (entry_today c r d) ≤ left limit before
    → let (t, a) = pay c r p d (spent_of before) n in
      minutes_of a + left limit (entry_today t r d) ≤ left limit before
unfolding pay
pay-left c r p d reward n limit before hc hb hn hl =
    let kept = pruned d c.earned in
    let e = paid_entry c r p d (spent_of before) n in
    elim (Bool-cases (crowded c d (spent_of before))) [
      | inl full ↦ rw (pay, full) (omega (arith, hl))
      | inr room ↦
          rw (pay, room)
            (rw (insert-entry kept r r d e, beq_self r, hc)
              (ground (arith, ==_iff d d, paid-left limit reward n before hb hn)))
    ]

noted_in-left :
    (c : Config) (r : String) (p : Provider) (d limit : ℕ) (reported : Option Progress)
    → IsMap c.earned
    → left limit (entry_today (noted_in c r p d reported) r d) ≤ left limit (entry_today c r d)
noted_in-left c r p d limit reported h = elim (Bool-cases (bar_met_by p reported)) [
  | inl met ↦
      rw (met, note-entry c r r d h, beq_self r)
        (noted-left d limit (ltb (length (pruned d c.earned)) max_earned_sources)
          (entry_today c r d))
  | inr unmet ↦ rw unmet (omega arith)
]

earn_from-left :
    (c : Config) (r : String) (p : Provider) (d limit : ℕ) (reported : Option Progress)
    → IsMap c.earned
    → ceiling_mins p ≡ some limit
    → limit ≤ u32_max
    → let (t, a) = earn_from c r p d reported in
      minutes_of a + left limit (entry_today t r d) ≤ left limit (entry_today c r d)
unfolding earn_from
earn_from-left c r p d limit reported h hc hb =
    let t = noted_in c r p d reported in
    let before = entry_today c r d in
    let same = noted_in-left c r p d limit reported h in
    elim (Option-cases (reward_for p reported)) [
      | inl low ↦ rw (earn_from, low) (omega (arith, same))
      | inr (reward, met) ↦ elim (sum-cases (payable (ceiling_mins p) (spent_of before) reward)) [
        | inl (why, denied) ↦ rw (earn_from, met, denied) (omega (arith, same))
        | inr (n, paid) ↦
            rw (earn_from, met, paid)
              (pay-left t r p d reward n limit before hc hb (rw hc at paid) same)
      ]
    ]

pub authority-lookup :
    (c : Config) (r : String) (p q : Provider)
    → lookup r c.providers ≡ some p
    → provider_authority c r ≡ inr q
    → q ≡ p
unfolding provider_authority
authority-lookup c r p q found h = ground arith

pub rejected-minutes :
    (c : Config) (r : String) (why : Earn) → provider_authority c r ≡ inl why → minutes_of why ≡ 0
unfolding provider_authority
rejected-minutes c r why h = ground arith

earn-left :
    (c : Config) (r : String) (p : Provider) (d limit : ℕ) (reported : Option Progress)
    → IsMap c.earned
    → lookup r c.providers ≡ some p
    → ceiling_mins p ≡ some limit
    → limit ≤ u32_max
    → let (t, a) = earn c r d reported in
      minutes_of a + left limit (entry_today t r d) ≤ left limit (entry_today c r d)
unfolding earn
earn-left c r p d limit reported h found hc hb = elim (sum-cases (provider_authority c r)) [
  | inl (why, rejected) ↦ rw (earn, rejected) (omega (arith, rejected-minutes c r why rejected))
  | inr (q, allowed) ↦
      rw (earn, allowed)
        (earn_from-left c r q d limit reported h
          (ap ceiling_mins (authority-lookup c r p q found allowed) ∙ hc) hb)
]

-- A report of a source.
pub record Report : Type 0 where
  pub source : String
  pub reported : Option Progress

-- The configuration after the reports of a day, and the minutes that one source was granted.
unfoldable pub run : Config → String → ℕ → List Report → Config × ℕ
run c s d [] = (c, 0)
run c s d (r ∷ rs) =
    let (t, a) = earn c r.source d r.reported in
    let (u, n) = run t s d rs in (u, (if r.source =? s then minutes_of a else 0) + n)

-- However many reports a day sees, of whatever sources and in whatever order, the minutes granted to
-- one source come to no more than what its entry had left of its ceiling at their start: the whole
-- ceiling if there was none for that day, and nothing if the entry has no measured amount. The
-- source is installed, its ceiling is a `u32`, and the map has one entry for each name.
pub run-left :
    (c : Config) (s : String) (p : Provider) (d limit : ℕ) (rs : List Report)
    → IsMap c.earned
    → lookup s c.providers ≡ some p
    → ceiling_mins p ≡ some limit
    → limit ≤ u32_max
    → (run c s d rs).1 ≤ left limit (entry_today c s d)
unfolding run
run-left c s p d limit [] h found hc hb = omega arith
run-left c s p d limit (r ∷ rs) h found hc hb =
    let t = (earn c r.source d r.reported).0 in
    let k = earn-Keeps c r.source d r.reported h in
    let rest = run-left t s p d limit rs k.is_map (rw k.same_providers found) hc hb in
    elim (Bool-cases (r.source =? s)) [
      | inl same ↦
          let here : r.source ≡ s = (string_keys.beq_iff r.source s).0 same in
          let step = earn-left c r.source p d limit r.reported h (rw here found) hc hb in
          rw same (
            omega (
              arith,
              rest,
              step,
              ap (λ x. left limit (entry_today t x d)) here,
              ap (λ x. left limit (entry_today c x d)) here,
            ))
      | inr other ↦ rw other (omega (arith, rest, ap (left limit) (k.others s other)))
    ]
