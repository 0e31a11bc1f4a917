-- ===== src/Config.antt =====
-- What an integration earns for the child (`Provider`, `Gate`, `EarnedDay` and the part of `Config`
-- on them, src/config.rs), without a provider's probe and reminder. Dates are the numbers of days and minutes are `u32`.
pub mod Entries
pub mod Ceiling
pub mod Grants
pub mod Latch
pub mod Gates
pub mod Tightest
pub mod Sources
use nestwatch.Common.{
  ℕ, ◌+◌, ◌-◌, ◌%◌, String, Bool, true, false, not, ◌&&◌, ◌||◌, ◌⊎◌, inl, inr, Option, none, some,
  List, [], ◌∷◌, map, length, retain, count, min, max, ltb, leb, ◌==◌, if◌then◌else◌, sat32,
  unwrap_or, is_some, is_some_and, same_day,
}
use nestwatch.Common.Keyed.{string_keys, lookup, insert, filtered, mem?}

abbrev pub max_earned_sources : ℕ
max_earned_sources = 16

pub record DailyGrant : Type 0 where
  pub date : Option ℕ
  pub minutes : ℕ

unfoldable pub for_day : DailyGrant → ℕ → ℕ
for_day g today = if same_day g.date today then g.minutes else 0

unfoldable pub add : DailyGrant → ℕ → ℕ → DailyGrant
add g today minutes =
    if same_day g.date today
    then record g { minutes = sat32 g.minutes minutes }
    else record { date = some today; minutes = sat32 0 minutes }

pub record Tier : Type 0 where
  pub questions : ℕ
  pub minutes_practised : ℕ
  pub reward_mins : ℕ

-- What a check reports: questions answered and minutes practised.
pub record Progress : Type 0 where
  pub questions : ℕ
  pub minutes : ℕ

pub record Gate : Type 0 where
  pub allowance_mins : ℕ
  pub questions : ℕ
  pub minutes_practised : ℕ

unfoldable pub tier_met : Tier → ℕ → ℕ → Bool
tier_met t questions minutes =
    (ltb 0 t.questions && leb t.questions questions)
    || (ltb 0 t.minutes_practised && leb t.minutes_practised minutes)

unfoldable pub gate_met : Gate → Progress → Bool
gate_met g done =
    tier_met
      (record { questions = g.questions; minutes_practised = g.minutes_practised; reward_mins = 0 })
      done.questions done.minutes

pub record Provider : Type 0 where
  pub enabled : Bool
  pub minutes : ℕ
  pub daily_cap_mins : Option ℕ
  pub tiers : List Tier
  pub gate : Option Gate

-- `Iterator::max` and `Iterator::min` of numbers.
abbrev pub max_of : List ℕ → Option ℕ
max_of [] = none
max_of (n ∷ ns) = some (max n (unwrap_or (max_of ns) n))

abbrev pub min_of : List ℕ → Option ℕ
min_of [] = none
min_of (n ∷ ns) = some (min n (unwrap_or (min_of ns) n))

abbrev pub rewards : List Tier → List ℕ
rewards ts = map (λ t. t.reward_mins) ts

unfoldable pub reward_for : Provider → Option Progress → Option ℕ
reward_for p none = some p.minutes
reward_for p (some done) = elim p.tiers [
  | [] ↦
      if elim p.gate [
        | none ↦ ltb 0 done.questions || ltb 0 done.minutes
        | some gate ↦ gate_met gate done
      ]
      then some p.minutes
      else none
  | _ ↦ max_of (rewards (retain (λ t. tier_met t done.questions done.minutes) p.tiers))
]

unfoldable pub ceiling_mins : Provider → Option ℕ
ceiling_mins p = elim p.daily_cap_mins [
  | some cap ↦ some cap
  | none ↦ if is_some p.gate then max_of (rewards p.tiers) else none
]

pub record EarnedDay : Type 0 where
  pub date : ℕ
  pub minutes : Option ℕ
  pub bar_met : Bool

-- The entry of the map, if it is of that day.
abbrev pub of_today : ℕ → Option EarnedDay → Option EarnedDay
of_today today e = filtered (λ d. d.date == today) e

unfoldable pub exhausted_for : Provider → ℕ → Option EarnedDay → Bool
exhausted_for p today earned = elim (of_today today earned) [
  | none ↦ false
  | some entry ↦ if is_some p.gate then entry.bar_met else elim (ceiling_mins p) [
    | none ↦ true
    | some cap ↦ elim entry.minutes [ none ↦ true | some used ↦ leb cap used ]
  ]
]

pub data Refused : Type 0 where
  below_threshold already_granted_today daily_cap_reached : Refused

-- The answers of `earn`, with the three requests that it rejects.
pub data Earn : Type 0 where
  granted : ℕ → Earn
  refused : Refused → Earn
  turned_off not_installed too_many_sources : Earn

-- The part of the configuration that earning reads and writes.
pub record Config : Type 0 where
  pub providers : List (String × Provider)
  pub earned : List (String × EarnedDay)
  pub extra : DailyGrant

abbrev pub entry_today : Config → String → ℕ → Option EarnedDay
entry_today c source today = of_today today (lookup source c.earned)

-- Outer `none`: nothing recorded today; inner `none`: an amount that was never measured.
abbrev pub spent_of : Option EarnedDay → Option (Option ℕ)
spent_of none = none
spent_of (some e) = some e.minutes

abbrev pub pruned : ℕ → List (String × EarnedDay) → List (String × EarnedDay)
pruned today m = retain (λ x. x.1.date == today) m

unfoldable pub note_bar_met : Config → String → ℕ → Config
note_bar_met c source today =
    let kept = pruned today c.earned in
    elim (lookup source kept) [
      | some entry ↦ record c { earned = insert source (record entry { bar_met = true }) kept }
      | none ↦
          if ltb (length kept) max_earned_sources
          then record c {
            earned = insert source (record { date = today; minutes = some 0; bar_met = true }) kept;
          }
          else record c { earned = kept }
    ]

-- The match on the ceiling and on what the source had today: a refusal, or the minutes to grant.
unfoldable pub payable : Option ℕ → Option (Option ℕ) → ℕ → Refused ⊎ ℕ
payable none none minutes = inr minutes
payable none (some _) minutes = inl already_granted_today
payable (some cap) none minutes = inr (min minutes cap)
payable (some cap) (some none) minutes = inl daily_cap_reached
payable (some cap) (some (some used)) minutes =
    if cap - used == 0 then inl daily_cap_reached else inr (min minutes (cap - used))

abbrev pub flatten : Option (Option ℕ) → Option ℕ
flatten none = none
flatten (some o) = o

-- The sum on `u32` wraps.
abbrev pub tracked : Provider → Option (Option ℕ) → ℕ → Option ℕ
tracked p spent minutes =
    if is_some (ceiling_mins p) || is_some p.gate
    then some ((unwrap_or (flatten spent) 0 + minutes) % 4294967296)
    else none

-- A source that has nothing today yet is one too many.
abbrev pub crowded : Config → ℕ → Option (Option ℕ) → Bool
crowded c today spent =
    not (is_some spent) && leb max_earned_sources (count (λ x. x.1.date == today) c.earned)

abbrev pub paid_entry : Config → String → Provider → ℕ → Option (Option ℕ) → ℕ → EarnedDay
paid_entry c source p today spent minutes = record {
  date = today;
  minutes = tracked p spent minutes;
  bar_met =
      is_some_and (λ e. (e.date == today) && e.bar_met) (lookup source (pruned today c.earned));
}

-- From the test of the number of sources on.
unfoldable pub pay : Config → String → Provider → ℕ → Option (Option ℕ) → ℕ → Config × Earn
pay c source p today spent minutes = if crowded c today spent then (c, too_many_sources) else (
  record c {
    earned = insert source (paid_entry c source p today spent minutes) (pruned today c.earned);
    extra = if is_some p.gate then c.extra else add c.extra today minutes;
  },
  granted minutes,
)

abbrev pub bar_met_by : Provider → Option Progress → Bool
bar_met_by p (some done) = is_some_and (λ g. gate_met g done) p.gate
bar_met_by p none = false

-- `earn` once the provider is known to be on.
unfoldable pub earn_from : Config → String → Provider → ℕ → Option Progress → Config × Earn
earn_from c source p today reported =
    let spent = spent_of (entry_today c source today) in
    let noted = if bar_met_by p reported then note_bar_met c source today else c in
    elim (reward_for p reported) [
      | none ↦ (noted, refused below_threshold)
      | some reward ↦ elim (payable (ceiling_mins p) spent reward) [
        | inl why ↦ (noted, refused why)
        | inr minutes ↦ pay noted source p today spent minutes
      ]
    ]

-- The provider of a source, or why the request is rejected.
unfoldable pub provider_authority : Config → String → Earn ⊎ Provider
provider_authority c source = elim (lookup source c.providers) [
  | none ↦ inl not_installed
  | some p ↦ if p.enabled then inr p else inl turned_off
]

unfoldable pub earn : Config → String → ℕ → Option Progress → Config × Earn
earn c source today reported = elim (provider_authority c source) [
  | inl why ↦ (c, why)
  | inr p ↦ earn_from c source p today reported
]

-- Whether the gate of the source is open; `none` for a source without one.
unfoldable pub gate_read_back : Config → String → ℕ → Option (Bool × ℕ)
gate_read_back c source today = elim (lookup source c.providers) [
  | none ↦ none
  | some p ↦
      let entry = entry_today c source today in
      if is_some p.gate
      then some (
        is_some_and (λ e. e.bar_met) entry,
        elim entry [ none ↦ 0 | some e ↦ unwrap_or e.minutes 0 ],
      )
      else none
]

abbrev pub lifted : Config → String → ℕ → Bool
lifted c source today = is_some_and (λ g. g.0) (gate_read_back c source today)

abbrev pub is_error : Earn → Bool
is_error (granted n) = false
is_error (refused r) = false
is_error _ = true

-- The flag is `gate_opened`; a rejected request has none.
unfoldable pub judge : Config → String → ℕ → Option Progress → Config × Earn × Bool
judge c source today reported =
    let (d, answer) = earn c source today reported in
    (d, answer, not (is_error answer) && not (lifted c source today) && lifted d source today)

-- The allowance of a provider's gate on that day, while it is shut and checked.
unfoldable pub allowance : Config → ℕ → List String → String × Provider → Option ℕ
allowance c today not_checking (name, p) =
    if mem? name not_checking || not p.enabled then none else elim p.gate [
      | none ↦ none
      | some gate ↦ elim (entry_today c name today) [
        | none ↦ some (sat32 gate.allowance_mins 0)
        | some e ↦
            if e.bar_met then none else some (sat32 gate.allowance_mins (unwrap_or e.minutes 0))
      ]
    ]

abbrev pub allowances : Config → ℕ → List String → List (String × Provider) → List ℕ
allowances c today not_checking [] = []
allowances c today not_checking (x ∷ xs) =
    let rest = allowances c today not_checking xs in
    elim (allowance c today not_checking x) [ none ↦ rest | some n ↦ n ∷ rest ]

unfoldable pub gate_cap_mins : Config → ℕ → List String → Option ℕ
gate_cap_mins c today not_checking = min_of (allowances c today not_checking c.providers)
