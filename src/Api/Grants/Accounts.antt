-- ===== src/Api/Grants/Accounts.antt =====
-- What one grant does to the bonus of a day and to the usage log (src/api.rs).
use nestwatch.Common.{
  ℕ, ◌+◌, ◌≤◌, ◌≡◌, ◌⊎◌, inl, inr, refl, ap, ◌∙◌, String, Bool, true, false, Option, none, List, [],
  ◌∷◌, ◌++◌, unwrap_or, arith, Bool-cases, Option-cases, u32_max, ==_iff,
}
use nestwatch.Common.Keyed.{Eq, string_keys}
use nestwatch.Config.{
  Config, DailyGrant, Progress, for_day, add, judge, earn, earn_from, pay, note_bar_met,
  provider_authority,
}
use nestwatch.Api.{
  Answer, done, refused, bad_request, not_saved, unauthorized, not_found, too_many,
  try_update_config,
}
use nestwatch.Api.Grants.{Grants, Seen, Line, verdict, judged, noted}

-- The minutes of the lines.
unfoldable pub total : List Line → ℕ
total [] = 0
total (l ∷ lines) = l.minutes + total lines

total-one : (l : Line) → total (l ∷ []) ≡ l.minutes
unfolding total
total-one l = omega arith

total-append : (xs ys : List Line) → total (xs ++ ys) ≡ total xs + total ys
unfolding total
total-append [] ys = omega arith
total-append (l ∷ xs) ys = omega (arith, total-append xs ys)

add-for_day :
    (g : DailyGrant) (today minutes : ℕ)
    → for_day g today ≤ u32_max
    → (for_day g today ≤ for_day (add g today minutes) today)
      × (for_day (add g today minutes) today ≤ for_day g today + minutes)
      × (for_day (add g today minutes) today ≤ u32_max)
unfolding for_day add
add-for_day g today minutes h = ground (arith, ==_iff today today)

-- An update leaves the configuration, or makes the change and answers with what it found.
pub update-cases :
    {C : Type 0} (unchanged : C → C → Bool) (saved : Bool) (mutate : C → C × Option Answer) (c : C)
    → let r = try_update_config unchanged saved mutate c in
      ((r.0 ≡ c) × (r.1 ≡ not_saved)) ⊎ ((r.0 ≡ (mutate c).0) × (r.1 ≡ unwrap_or (mutate c).1 done))
unfolding try_update_config
update-cases unchanged saved mutate c = elim (Option-cases (mutate c).1) [
  | inr (e, rejected) ↦ inr (ground arith)
  | inl accepted ↦ elim (Bool-cases (unchanged c (mutate c).0)) [
    | inl same ↦ inr (ground arith)
    | inr changed ↦ elim (Bool-cases saved) [
      | inl is_saved ↦ inr (ground arith)
      | inr failed ↦ inl (ground arith)
    ]
  ]
]

-- A report changes the bonus only where it is granted, and then by the minutes of the answer.
judge-extra :
    (c : Config) (source : String) (today : ℕ) (reported : Option Progress)
    → let (d, e, opened) = judge c source today reported in
      (d.extra ≡ c.extra)
      ⊎ ((verdict e ≡ (none, (none, (verdict e).1.1)))
          × (d.extra ≡ add c.extra today (verdict e).1.1))
unfolding judge earn earn_from pay note_bar_met provider_authority
judge-extra c source today reported = ground arith

judged-extra :
    (robot : Bool) (source : String) (i : Seen) (asked : ℕ) (reported : Option Progress)
    (c : Config)
    → let ((d, rejected), (why, minutes)) = judged robot source i asked reported c in
      (d.extra ≡ c.extra)
      ⊎ ((rejected ≡ none) × (why ≡ none) × (d.extra ≡ add c.extra i.today minutes))
unfolding judged
judged-extra true source i asked reported c = elim (judge-extra c source i.today reported) [
  | inl same ↦ inl same
  | inr (clear, more) ↦ inr (ap (λ v. v.0) clear, ap (λ v. v.1.0) clear, more)
]
judged-extra false source i asked reported c = inr (refl, refl, refl)

pub judged-cases :
    (unchanged : Config → Config → Bool) (i : Seen) (day : ℕ) (robot : Bool) (source : String)
    (asked : ℕ) (reported : Option Progress) (c : Config)
    → i.today ≡ day
    → let (d, answer) =
        try_update_config unchanged i.saved
          (λ (c : Config). (judged robot source i asked reported c).0)
          c in
      let (why, minutes) = (judged robot source i asked reported c).1 in
      (d.extra ≡ c.extra) ⊎ ((why ≡ none) × (d.extra ≡ add c.extra day minutes) × (answer ≡ done))
judged-cases unchanged i day robot source asked reported c on_day =
    elim (update-cases unchanged i.saved
      (λ (c : Config). (judged robot source i asked reported c).0) c) [
        | inl (same, failed) ↦ inl (ap (λ (c : Config). c.extra) same)
        | inr (next, ok) ↦ elim (judged-extra robot source i asked reported c) [
          | inl same ↦ inl (ap (λ (c : Config). c.extra) next ∙ same)
          | inr (accepted, clear, more) ↦ inr (
            clear,
            ap (λ (c : Config). c.extra) next
                ∙ more
                ∙ ap (λ d. add c.extra d (judged robot source i asked reported c).1.1) on_day,
            ok ∙ ap (λ o. unwrap_or o done) accepted,
          )
        ]
      ]

module _ {Ip Key Value : Type 0} ⦃ips : Eq Ip⦄ ⦃keys : Eq Key⦄ ⦃values : Eq Value⦄ (day : ℕ) where
  -- From the one state to the other the bonus of the day does not fall, and rises by no more than
  -- the lines that the log gains.
  abbrev pub Accounts : Grants Ip Key Value → Grants Ip Key Value → Type 0
  Accounts g t =
      (for_day g.config.extra day ≤ for_day t.config.extra day)
      × (for_day t.config.extra day + total g.lines ≤ for_day g.config.extra day + total t.lines)
      × (for_day t.config.extra day ≤ u32_max)

  abbrev pub IsBounded : Grants Ip Key Value → Type 0
  IsBounded g = for_day g.config.extra day ≤ u32_max

  pub same-Accounts :
      (g t : Grants Ip Key Value)
      → IsBounded g
      → t.config.extra ≡ g.config.extra
      → t.lines ≡ g.lines
      → Accounts g t
  same-Accounts g t b e l = rw (e, l) (omega arith, omega arith, b)

  -- A grant that is saved and noted.
  added-Accounts :
      (g t : Grants Ip Key Value) (minutes : ℕ) (source : String)
      → IsBounded g
      → t.config.extra ≡ add g.config.extra day minutes
      → t.lines ≡ g.lines ++ record { minutes = minutes; source = source } ∷ []
      → Accounts g t
  added-Accounts g t minutes source b e l =
      let line : Line = record { minutes = minutes; source = source } in
      let (up, most, small) = add-for_day g.config.extra day minutes b in
      rw (e, l) (up, omega (arith, most, total-append g.lines (line ∷ []), total-one line), small)

  -- The bonus is as before, or it is more and the answer is `done`, by which it is noted.
  abbrev pub Granted : Grants Ip Key Value → Grants Ip Key Value → Answer → ℕ → Type 0
  Granted g t answer minutes =
      (t.config.extra ≡ g.config.extra)
      ⊎ ((t.config.extra ≡ add g.config.extra day minutes) × (answer ≡ done))

  noted-done :
      (g t : Grants Ip Key Value) (minutes : ℕ) (source : String)
      → IsBounded g
      → t.lines ≡ g.lines
      → Granted g t done minutes
      → Accounts g (noted true minutes source (t, done)).0
  noted-done g t minutes source b l (inr (more, ok)) =
      added-Accounts g (noted true minutes source (t, done)).0 minutes source b more
        (ap (λ xs. xs ++ record { minutes = minutes; source = source } ∷ []) l)
  noted-done g t minutes source b l (inl same) =
      let line : Line = record { minutes = minutes; source = source } in
      rw (same, l) (omega arith, omega (arith, total-append g.lines (line ∷ [])), b)

  written-Accounts :
      (g t : Grants Ip Key Value) (answer : Answer) (minutes : ℕ) (source : String)
      → IsBounded g
      → t.lines ≡ g.lines
      → Granted g t answer minutes
      → Accounts g (noted true minutes source (t, answer)).0
  written-Accounts g t done minutes source b l h = noted-done g t minutes source b l h
  written-Accounts g t refused minutes source b l (inl same) = same-Accounts g t b same l
  written-Accounts g t bad_request minutes source b l (inl same) = same-Accounts g t b same l
  written-Accounts g t not_saved minutes source b l (inl same) = same-Accounts g t b same l
  written-Accounts g t unauthorized minutes source b l (inl same) = same-Accounts g t b same l
  written-Accounts g t not_found minutes source b l (inl same) = same-Accounts g t b same l
  written-Accounts g t too_many minutes source b l (inl same) = same-Accounts g t b same l
  written-Accounts g t _ minutes source b l (inr (more, ok)) = absurd cc

  pub noted-Accounts :
      (g t : Grants Ip Key Value) (written : Bool) (answer : Answer) (minutes : ℕ) (source : String)
      → written ≡ true
      → IsBounded g
      → t.lines ≡ g.lines
      → Granted g t answer minutes
      → Accounts g (noted written minutes source (t, answer)).0
  noted-Accounts g t true answer minutes source w b l h =
      written-Accounts g t answer minutes source b l h
  noted-Accounts g t false answer minutes source w b l h = absurd cc
