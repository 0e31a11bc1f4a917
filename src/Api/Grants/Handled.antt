-- ===== src/Api/Grants/Handled.antt =====
-- What each of the handlers that grant does to the bonus of a day and to the usage log (src/api.rs).
use nestwatch.Common.{
  ℕ, ◌≡◌, inl, inr, refl, ap, ◌∙◌, String, Bool, true, not, Option, none, some, List, arith,
  Bool-cases, Option-cases,
}
use nestwatch.Common.Keyed.{Eq, ◌=?◌, string_keys}
use nestwatch.Config.{
  Config, DailyGrant, Earn, granted, turned_off, not_installed, too_many_sources, Progress, for_day,
  add, judge, earn, earn_from, pay, note_bar_met, provider_authority, payable, crowded,
}
use nestwatch.Config
use nestwatch.Pairing.{Scope}
use nestwatch.Idempotency.{stored, mismatch, fresh, replay}
use nestwatch.Throttle.{Net, count_and_check}
use nestwatch.TimeCode
use nestwatch.TimeRequest.{resolve}
use nestwatch.Api.{
  done, refused, bad_request, not_saved, unauthorized, not_found, too_many, try_update_config,
  update_config,
}
use nestwatch.Api.Grants.{
  Grants, Seen, ExtraTimeBody, KeyHeader, judged, grant_extra, noted, settle, kept_answer,
  granted_for, replayed_or, extra_time, approve_time_request, redeem_code, source_of, asked_of,
  replay_key, valid_source,
}
use nestwatch.Api.Grants.Accounts.{
  update-cases, judged-cases, Accounts, IsBounded, Granted, same-Accounts, noted-Accounts,
}

module _ {Ip Key Value : Type 0} ⦃ips : Eq Ip⦄ ⦃keys : Eq Key⦄ ⦃values : Eq Value⦄ (day : ℕ) where
  module _ (unchanged : Config → Config → Bool) (i : Seen) (on_day : i.today ≡ day)
      (written : i.line_written ≡ true) where
    grant_extra-Granted :
        (minutes : ℕ) (g : Grants Ip Key Value)
        → let (t, answer) = grant_extra unchanged i minutes g in Granted day g t answer minutes
    unfolding grant_extra update_config
    grant_extra-Granted minutes g =
        elim (update-cases unchanged i.saved
          (λ (c : Config). (record c { extra = add c.extra i.today minutes }, none)) g.config) [
            | inl (same, failed) ↦ inl (ap (λ (c : Config). c.extra) same)
            | inr (next, ok) ↦ inr (
              ap (λ (c : Config). c.extra) next ∙ ap (λ d. add g.config.extra d minutes) on_day,
              ok,
            )
          ]

    settle-Accounts :
        (source : String) (asked : ℕ) (reported : Option Progress) (g : Grants Ip Key Value)
        → IsBounded day g
        → Accounts day g (settle unchanged source i asked reported g).0
    unfolding settle
    settle-Accounts source asked reported g b =
        let robot = not (source =? "parent") in
        let how = judged-cases unchanged i day robot source asked reported g.config on_day in
        let c =
          (try_update_config unchanged i.saved
            (λ (c : Config). (judged robot source i asked reported c).0) g.config).0 in
        elim (Option-cases (judged robot source i asked reported g.config).1.0) [
          | inl clear ↦
              rw (settle, clear)
                (noted-Accounts day g (record g { config = c }) i.line_written _ _ source written b
                  refl (elim how [ inl same ↦ inl same | inr (_, more, ok) ↦ inr (more, ok) ]))
          | inr (reason, unclear) ↦
              rw (settle, unclear)
                (same-Accounts day g (record g { config = c }) b
                  (elim how [ inl same ↦ same | inr (clear, more, ok) ↦ absurd ground arith ]) refl)
        ]

    grant_extra-lines :
        (minutes : ℕ) (g : Grants Ip Key Value)
        → (grant_extra unchanged i minutes g).0.lines ≡ g.lines
    unfolding grant_extra
    grant_extra-lines minutes g = refl

    grant_noted-Accounts :
        (minutes : ℕ) (source : String) (g : Grants Ip Key Value)
        → IsBounded day g
        → Accounts day g (noted i.line_written minutes source (grant_extra unchanged i minutes g)).0
    grant_noted-Accounts minutes source g b =
        let (t, answer) = grant_extra unchanged i minutes g in
        noted-Accounts day g t i.line_written answer minutes source written b
          (grant_extra-lines minutes g) (grant_extra-Granted minutes g)

    module _ (name : List ℕ → String) (render : Option Config.Refused → ℕ → Value)
        (fingerprint : Bool → ℕ → Value) where
      kept-Accounts :
          (g t : Grants Ip Key Value) (key : Option String) (print response : Value)
          → Accounts day g t
          → Accounts day g
              (kept_answer unchanged name render fingerprint key print response i.instant t)
      kept-Accounts g t none print response a = a
      kept-Accounts g t (some key) print response a = a

      granted_for-Accounts :
          (source : String) (asked : ℕ) (reported : Option Progress) (key : Option String)
          (g : Grants Ip Key Value)
          → IsBounded day g
          → Accounts day g
              (granted_for unchanged name render fingerprint source i asked reported key g).0
      unfolding granted_for
      granted_for-Accounts source asked reported key g b =
          let (t, answer) = settle unchanged source i asked reported g in
          let a = settle-Accounts source asked reported g b in
          (elim answer
              as (λ x.
                (settle unchanged source i asked reported g).1 ≡ x
                → Accounts day g
                    (granted_for unchanged name render fingerprint source i asked reported key
                      g).0) [
                        | done ↦ λ e. rw (granted_for, e) (kept-Accounts g t key _ _ a)
                        | refused ↦ λ e. rw (granted_for, e) a
                        | bad_request ↦ λ e. rw (granted_for, e) a
                        | not_saved ↦ λ e. rw (granted_for, e) a
                        | unauthorized ↦ λ e. rw (granted_for, e) a
                        | not_found ↦ λ e. rw (granted_for, e) a
                        | too_many ↦ λ e. rw (granted_for, e) a
                      ])
            refl

      replayed_or-Accounts :
          (source : String) (asked : ℕ) (reported : Option Progress) (key : Option String)
          (g : Grants Ip Key Value)
          → IsBounded day g
          → Accounts day g
              (replayed_or unchanged name render fingerprint source i asked reported key g).0
      unfolding replayed_or
      replayed_or-Accounts source asked reported none g b =
          granted_for-Accounts source asked reported none g b
      replayed_or-Accounts source asked reported (some key) g b =
          let print = fingerprint (not (source =? "parent")) asked in
          let kept = record g { replays = (replay g.replays key print i.instant).0 } in
          (elim (replay g.replays key print i.instant).1
              as (λ x.
                (replay g.replays key print i.instant).1 ≡ x
                → Accounts day g
                    (replayed_or unchanged name render fingerprint source i asked reported
                      (some key) g).0) [
                        | stored response ↦
                            λ e. rw (replayed_or, e) (same-Accounts day g kept b refl refl)
                        | mismatch ↦ λ e. rw (replayed_or, e) (same-Accounts day g kept b refl refl)
                        | fresh ↦ λ e.
                            rw (replayed_or, e)
                              (granted_for-Accounts source asked reported (some key) kept b)
                      ])
            refl

      pub extra_time-Accounts :
          (scope : Scope) (body : ExtraTimeBody) (header : KeyHeader) (g : Grants Ip Key Value)
          → IsBounded day g
          → Accounts day g (extra_time unchanged name render fingerprint scope body header i g).0
      unfolding extra_time
      extra_time-Accounts scope body header g b =
          let source = source_of name scope body in
          elim (Bool-cases (valid_source source)) [
            | inr bad ↦ rw bad (same-Accounts day g g b refl refl)
            | inl good ↦ elim (Option-cases (asked_of source body)) [
              | inl no_minutes ↦
                  rw (extra_time, good, no_minutes) (same-Accounts day g g b refl refl)
              | inr (asked, right) ↦
                  (elim (replay_key source header)
                      as (λ x.
                        replay_key source header ≡ x
                        → Accounts day g
                            (extra_time unchanged name render fingerprint scope body header i
                              g).0) [
                                | inl bad ↦ λ e.
                                    rw (extra_time, good, right, e)
                                      (same-Accounts day g g b refl refl)
                                | inr key ↦ λ e.
                                    rw (extra_time, good, right, e)
                                      (replayed_or-Accounts source asked body.progress key g b)
                              ])
                    refl
            ]
          ]

    pub approve-Accounts :
        (id : Key) (g : Grants Ip Key Value)
        → IsBounded day g
        → Accounts day g (approve_time_request unchanged id i g).0
    unfolding approve_time_request
    approve-Accounts id g b =
        let asked = record g { requests = (resolve id true i.log g.requests).1 } in
        elim (Option-cases (resolve id true i.log g.requests).0) [
          | inl unknown ↦ rw (approve_time_request, unknown) (same-Accounts day g asked b refl refl)
          | inr (r, known) ↦
              rw (approve_time_request, known) (grant_noted-Accounts r.minutes "request" asked b)
        ]

    pub redeem-Accounts :
        (net : Net Ip) (file_contains : List ℕ → List TimeCode.Event → Bool) (ip : Ip)
        (input : List ℕ) (g : Grants Ip Key Value)
        → IsBounded day g
        → Accounts day g (redeem_code unchanged net file_contains ip input i g).0
    unfolding redeem_code
    redeem-Accounts net file_contains ip input g b =
        let (limiter, admitted) = count_and_check net g.code_limiter ip i.instant in
        let limited = record g { code_limiter = limiter } in
        let (outcome, codes) = TimeCode.redeem file_contains input i.log g.codes in
        let r = record limited { codes = codes } in
        elim (Bool-cases admitted) [
          | inr held ↦ rw held (same-Accounts day g limited b refl refl)
          | inl free ↦
              (elim outcome
                  as (λ x.
                    (TimeCode.redeem file_contains input i.log g.codes).0 ≡ x
                    → Accounts day g (redeem_code unchanged net file_contains ip input i g).0) [
                      | TimeCode.granted minutes ↦
                          λ e. rw (redeem_code, free, e) (grant_noted-Accounts minutes "code" r b)
                      | TimeCode.not_a_code ↦
                          λ e. rw (redeem_code, free, e) (same-Accounts day g r b refl refl)
                      | TimeCode.no_such_code ↦
                          λ e. rw (redeem_code, free, e) (same-Accounts day g r b refl refl)
                    ])
                refl
        ]
