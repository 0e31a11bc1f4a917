-- ===== src/Api/Grants/Ledger.antt =====
-- That the usage log accounts for the bonus time of a day (the handlers of src/api.rs that grant).
use nestwatch.Common.{
  true, ℕ, ◌≤◌, ◌≡◌, inl, inr, refl, String, Bool, Option, List, [], ◌∷◌, All, arith, Bool-cases,
  Option-cases, u32_max,
}
use nestwatch.Common.Keyed.{Eq, string_keys}
use nestwatch.Config.{
  Config, DailyGrant, Earn, granted, turned_off, not_installed, too_many_sources, Progress, for_day,
  add, judge, earn, earn_from, pay, note_bar_met, provider_authority, payable, crowded,
}
use nestwatch.Config
use nestwatch.Pairing.{Scope}
use nestwatch.Throttle.{Net}
use nestwatch.TimeCode
use nestwatch.Api.{require_minutes}
use nestwatch.Api.Grants.{
  Grants, Seen, ExtraTimeBody, KeyHeader, extra_time, approve_time_request, deny_time_request,
  redeem_code, issue_time_code, max_code_minutes,
}
use nestwatch.Api.Grants.Accounts.{Accounts, IsBounded, same-Accounts}
use nestwatch.Api.Grants.Handled.{extra_time-Accounts, approve-Accounts, redeem-Accounts}

-- A request that grants, or refuses, or asks for a code.
pub data Step (Ip Key : Type 0) : Type 0 where
  extra : Scope → ExtraTimeBody → KeyHeader → Step Ip Key
  approving : Key → Step Ip Key
  denying : Key → Step Ip Key
  redeeming : Ip → (input : List ℕ) → Step Ip Key
  issuing : (bytes : List ℕ) (minutes ts : ℕ) → Step Ip Key

-- What the handlers take from elsewhere.
pub record World (Ip Value : Type 0) : Type 0 where
  pub net : Net Ip
  pub unchanged : Config → Config → Bool
  pub name : List ℕ → String
  pub render : Option Config.Refused → ℕ → Value
  pub fingerprint : Bool → ℕ → Value
  pub file_contains : List ℕ → List TimeCode.Event → Bool

module _ {Ip Key Value : Type 0} ⦃ips : Eq Ip⦄ ⦃keys : Eq Key⦄ ⦃values : Eq Value⦄
    (w : World Ip Value) where
  unfoldable pub step : Grants Ip Key Value → Seen × Step Ip Key → Grants Ip Key Value
  step g (i, extra scope body header) =
      (extra_time w.unchanged w.name w.render w.fingerprint scope body header i g).0
  step g (i, approving id) = (approve_time_request w.unchanged id i g).0
  step g (i, denying id) = (deny_time_request w.unchanged id i g).0
  step g (i, redeeming ip input) = (redeem_code w.unchanged w.net w.file_contains ip input i g).0
  step g (i, issuing bytes minutes ts) = (issue_time_code bytes minutes ts i g).0

  unfoldable pub run : Grants Ip Key Value → List (Seen × Step Ip Key) → Grants Ip Key Value
  run g [] = g
  run g (x ∷ xs) = run (step g x) xs

  issue-Accounts :
      (day : ℕ) (g : Grants Ip Key Value) (i : Seen) (bytes : List ℕ) (minutes ts : ℕ)
      → IsBounded day g
      → Accounts day g (issue_time_code bytes minutes ts i g).0
  unfolding issue_time_code
  issue-Accounts day g i bytes minutes ts b =
      elim (Bool-cases (require_minutes minutes max_code_minutes)) [
        | inr bad ↦ rw bad (same-Accounts day g g b refl refl)
        | inl good ↦ elim (Option-cases (TimeCode.issue bytes minutes ts i.log g.codes).0) [
          | inl full ↦ rw (issue_time_code, good, full) (same-Accounts day g g b refl refl)
          | inr (code, made) ↦ rw (issue_time_code, good, made) (same-Accounts day g g b refl refl)
        ]
      ]

  step-Accounts :
      (day : ℕ) (g : Grants Ip Key Value) (i : Seen) (x : Step Ip Key)
      → i.today ≡ day
      → i.line_written ≡ true
      → IsBounded day g
      → Accounts day g (step g (i, x))
  unfolding step deny_time_request
  step-Accounts day g i (extra scope body header) d l b =
      extra_time-Accounts day w.unchanged i d l w.name w.render w.fingerprint scope body header g b
  step-Accounts day g i (approving id) d l b = approve-Accounts day w.unchanged i d l id g b
  step-Accounts day g i (denying id) d l b = same-Accounts day g g b refl refl
  step-Accounts day g i (redeeming ip input) d l b =
      redeem-Accounts day w.unchanged i d l w.net w.file_contains ip input g b
  step-Accounts day g i (issuing bytes minutes ts) d l b = issue-Accounts day g i bytes minutes ts b

-- The usage log accounts for the bonus time, where its lines are written. Over any of the requests
-- that grant or refuse time on one day, by the parent, by integrations, by requests and by codes,
-- with repeats by the same key and with saves of the configuration that fail, and with each line for
-- the usage log written, the bonus of the day never falls, and it rises by no more than the minutes
-- of the lines that the log gains. At the start the bonus is a `u32`.
pub run-Accounts :
    {Ip Key Value : Type 0} ⦃ips : Eq Ip⦄ ⦃keys : Eq Key⦄ ⦃values : Eq Value⦄ (w : World Ip Value)
    (day : ℕ) (g : Grants Ip Key Value) (xs : List (Seen × Step Ip Key))
    → All (λ x. (x.0.today ≡ day) × (x.0.line_written ≡ true)) xs
    → for_day g.config.extra day ≤ u32_max
    → Accounts day g (run w g xs)
unfolding run
run-Accounts w day g [] h b = (omega arith, omega arith, b)
run-Accounts w day g ((i, x) ∷ xs) h b =
    let (up, most, small) = step-Accounts w day g i x h.0.0 h.0.1 b in
    let (up', most', small') = run-Accounts w day (step w g (i, x)) xs h.1 small in
    (omega (arith, up, up'), omega (arith, most, most'), small')
