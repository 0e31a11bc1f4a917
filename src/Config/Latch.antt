-- ===== src/Config/Latch.antt =====
-- The latch of a source without a ceiling, and when a source is exhausted (`Config::earn` and
-- `Provider::exhausted_for` of src/config.rs).
use nestwatch.Common.{
  ℕ, ◌≡◌, refl, sym, ap, ◌∙◌, inl, inr, String, true, Option, none, some, List, [], ◌∷◌, is_some,
  arith, Bool-cases, Option-cases, ==_iff,
}
use mathlib.Core.Path.{subst}
use nestwatch.Common.Keyed.{◌=?◌, string_keys, beq_self, lookup, IsMap}
use nestwatch.Config.{
  Config, Provider, Progress, Earn, granted, entry_today, spent_of, pruned, payable, pay, crowded,
  paid_entry, earn_from, earn, provider_authority, EarnedDay, ceiling_mins, exhausted_for, of_today,
  reward_for, bar_met_by,
}
use nestwatch.Config.Entries.{sum-cases, noted_in, earn-Keeps, insert-entry, note-entry}
use nestwatch.Config.Ceiling.{minutes_of, authority-lookup, rejected-minutes, Report, run}

rejected-granted :
    (c : Config) (r : String) (why : Earn) (m : ℕ)
    → provider_authority c r ≡ inl why
    → why ≡ granted m
    → ⊥
unfolding provider_authority
rejected-granted c r why m h g = ground arith

pay-entered :
    (c : Config) (r : String) (p : Provider) (d : ℕ) (spent : Option (Option ℕ)) (n m : ℕ)
    → let (t, a) = pay c r p d spent n in a ≡ granted m → is_some (entry_today t r d) ≡ true
unfolding pay
pay-entered c r p d spent n m = elim (Bool-cases (crowded c d spent)) [
  | inl full ↦ rw (pay, full) (λ h. cc)
  | inr room ↦
      rw
        (pay, room, insert-entry (pruned d c.earned) r r d (paid_entry c r p d spent n), beq_self r)
        (λ h. ground (arith, ==_iff d d))
]

earn-entered :
    (c : Config) (r : String) (d m : ℕ) (reported : Option Progress)
    → let (t, a) = earn c r d reported in a ≡ granted m → is_some (entry_today t r d) ≡ true
unfolding earn earn_from
earn-entered c r d m reported = elim (sum-cases (provider_authority c r)) [
  | inl (why, rejected) ↦ rw (earn, rejected) (λ h. absurd (rejected-granted c r why m rejected h))
  | inr (p, allowed) ↦
      let spent = spent_of (entry_today c r d) in
      elim (Option-cases (reward_for p reported)) [
        | inl low ↦ rw (earn, allowed, earn_from, low) (λ h. cc)
        | inr (reward, met) ↦ elim (sum-cases (payable (ceiling_mins p) spent reward)) [
          | inl (why, denied) ↦ rw (earn, allowed, earn_from, met, denied) (λ h. cc)
          | inr (n, paid) ↦
              rw (earn, allowed, earn_from, met, paid)
                (pay-entered (noted_in c r p d reported) r p d spent n m)
        ]
      ]
]

pub noted_in-entered :
    (c : Config) (r : String) (p : Provider) (d : ℕ) (reported : Option Progress)
    → IsMap c.earned
    → is_some (entry_today c r d) ≡ true
    → is_some (entry_today (noted_in c r p d reported) r d) ≡ true
noted_in-entered c r p d reported h e = elim (Bool-cases (bar_met_by p reported)) [
  | inl met ↦ rw (met, note-entry c r r d h, beq_self r) (ground arith)
  | inr unmet ↦ rw unmet e
]

payable-latched :
    (spent : Option (Option ℕ)) (reward n : ℕ)
    → is_some spent ≡ true
    → payable none spent reward ≡ inr n
    → ⊥
unfolding payable
payable-latched none reward n s h = cc
payable-latched (some u) reward n s h = cc

earn-latched :
    (c : Config) (r : String) (p : Provider) (d : ℕ) (reported : Option Progress)
    → IsMap c.earned
    → lookup r c.providers ≡ some p
    → ceiling_mins p ≡ none
    → is_some (entry_today c r d) ≡ true
    → let (t, a) = earn c r d reported in (minutes_of a ≡ 0) × (is_some (entry_today t r d) ≡ true)
unfolding earn earn_from
earn-latched c r p d reported h found hc e = elim (sum-cases (provider_authority c r)) [
  | inl (why, rejected) ↦ rw (earn, rejected) (rejected-minutes c r why rejected, e)
  | inr (q, allowed) ↦
      let kept = noted_in-entered c r q d reported h e in
      let spent = spent_of (entry_today c r d) in
      let free : ceiling_mins q ≡ none =
        ap ceiling_mins (authority-lookup c r p q found allowed) ∙ hc in
      elim (Option-cases (reward_for q reported)) [
        | inl low ↦ rw (earn, allowed, earn_from, low) (refl, kept)
        | inr (reward, met) ↦ elim (sum-cases (payable (ceiling_mins q) spent reward)) [
          | inl (why, denied) ↦ rw (earn, allowed, earn_from, met, denied) (refl, kept)
          | inr (n, paid) ↦ absurd (payable-latched spent reward n (ground arith) (rw free at paid))
        ]
      ]
]

entered-run :
    (c : Config) (s : String) (p : Provider) (d : ℕ) (rs : List Report)
    → IsMap c.earned
    → lookup s c.providers ≡ some p
    → ceiling_mins p ≡ none
    → is_some (entry_today c s d) ≡ true
    → (run c s d rs).1 ≡ 0
unfolding run
entered-run c s p d [] h found hc e = refl
entered-run c s p d (r ∷ rs) h found hc e =
    let t = (earn c r.source d r.reported).0 in
    let k = earn-Keeps c r.source d r.reported h in
    elim (Bool-cases (r.source =? s)) [
      | inl same ↦
          let here : r.source ≡ s = (string_keys.beq_iff r.source s).0 same in
          let (nothing, kept) =
            earn-latched c r.source p d r.reported h (rw here found) hc
              (ap (λ x. is_some (entry_today c x d)) here ∙ e) in
          let rest =
            entered-run t s p d rs k.is_map (rw k.same_providers found) hc
              (ap (λ x. is_some (entry_today t x d)) (sym here) ∙ kept) in
          rw same (omega (arith, rest, nothing))
      | inr other ↦ rw other (
          omega (
            arith,
            entered-run t s p d rs k.is_map (rw k.same_providers found) hc
                (ap is_some (k.others s other) ∙ e),
          ))
    ]

-- A source without a ceiling is paid once a day: after a grant on a day, no report of any source on
-- that day brings it more. The source is installed, and the map has one entry for each name.
pub run-latched :
    (c : Config) (s : String) (p : Provider) (d n : ℕ) (reported : Option Progress)
    (rs : List Report)
    → IsMap c.earned
    → lookup s c.providers ≡ some p
    → ceiling_mins p ≡ none
    → (earn c s d reported).1 ≡ granted n
    → (run (earn c s d reported).0 s d rs).1 ≡ 0
run-latched c s p d n reported rs h found hc paid =
    let t = (earn c s d reported).0 in
    let k = earn-Keeps c s d reported h in
    entered-run t s p d rs k.is_map (rw k.same_providers found) hc
      (earn-entered c s d n reported paid)

exhausted-payable :
    (p : Provider) (d reward n : ℕ) (o : Option EarnedDay)
    → exhausted_for p d o ≡ true
    → p.gate ≡ none
    → payable (ceiling_mins p) (spent_of (of_today d o)) reward ≡ inr n
    → ⊥
unfolding exhausted_for payable
exhausted-payable p d reward n o full free paid = elim (Option-cases (of_today d o)) [
  | inl unset ↦ ground arith
  | inr (e, is_set) ↦ elim (Option-cases (ceiling_mins p)) [
    | inl once ↦ ground arith
    | inr (limit, under) ↦ ground arith
  ]
]

-- A source without a gate that counts as exhausted is granted nothing, whatever it reports: to stop
-- checking it for the day loses the child no minute. The source is installed.
pub earn-exhausted :
    (c : Config) (r : String) (p : Provider) (d : ℕ) (reported : Option Progress)
    → lookup r c.providers ≡ some p
    → p.gate ≡ none
    → exhausted_for p d (lookup r c.earned) ≡ true
    → minutes_of (earn c r d reported).1 ≡ 0
unfolding earn earn_from
earn-exhausted c r p d reported found free full = elim (sum-cases (provider_authority c r)) [
  | inl (why, rejected) ↦ rw (earn, rejected) (rejected-minutes c r why rejected)
  | inr (q, allowed) ↦
      let same = authority-lookup c r p q found allowed in
      let spent = spent_of (entry_today c r d) in
      elim (Option-cases (reward_for q reported)) [
        | inl low ↦ rw (earn, allowed, earn_from, low) refl
        | inr (reward, met) ↦ elim (sum-cases (payable (ceiling_mins q) spent reward)) [
          | inl (why, denied) ↦ rw (earn, allowed, earn_from, met, denied) refl
          | inr (n, paid) ↦ absurd (
              exhausted-payable p d reward n (lookup r c.earned) full free
                (subst (λ x. payable (ceiling_mins x) spent reward ≡ inr n) same paid))
        ]
      ]
]
