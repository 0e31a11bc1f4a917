-- ===== src/Api/Grants/Retry.antt =====
-- A grant that is asked for again with its key (`extra_time` of src/api.rs).
use nestwatch.Common.{
  ℕ, ◌-◌, ◌<◌, ◌≡◌, refl, sym, ap, ◌∙◌, String, Bool, true, false, not, Option, none, some, List,
  arith, inl, inr, Bool-cases, Option-cases, ltb, lt→ltb,
}
use nestwatch.Common.Keyed.{
  Eq, ◌=?◌, string_keys, filtered, lookup, lookup-insert_self, lookup-retain, IsMap, retain-IsMap,
  beq_self,
}
use nestwatch.Config.{Config, Progress}
use nestwatch.Config
use nestwatch.Pairing.{Scope, dashboard, integration}
use nestwatch.Idempotency.{
  IdempotencyCache, Entry, stored, fresh, replay, prune, record_response, retention,
}
use nestwatch.Api.{Answer, done, refused, bad_request, not_saved, unauthorized, not_found, too_many}
use nestwatch.Api.Grants.{
  Grants, Seen, ExtraTimeBody, KeyHeader, key_text, noted, judged, settle, granted_for, replayed_or,
  extra_time, source_of, asked_of, replay_key, valid_source,
}

replay-held :
    {Value : Type 0} ⦃e : Eq Value⦄ (c d : IdempotencyCache Value) (key : String)
    (print response : Value) (now later : ℕ)
    → IsMap d
    → lookup key d ≡ lookup key (record_response c key print response now)
    → later - now < retention
    → (replay d key print later).1 ≡ stored response
unfolding replay prune
replay-held {Value = Value} ⦃e⦄ c d key print response now later is_map held soon =
    let x : Entry Value = record { at = now; fingerprint = print; response = response } in
    let young = λ (y : Entry Value). ltb (later - y.at) retention in
    let there : lookup key (record_response c key print response now) ≡ some x =
      unfold record_response in lookup-insert_self key x _ in
    let found : lookup key (prune d later) ≡ some x =
      lookup-retain key young d is_map
      ∙ ap (filtered young) (held ∙ there)
      ∙ rw (lt→ltb (later - now) retention soon) refl in
    rw (replay, found, beq_self print) refl

replay-unused :
    {Value : Type 0} ⦃e : Eq Value⦄ (c : IdempotencyCache Value) (key : String) (print : Value)
    (now : ℕ)
    → IsMap c
    → lookup key c ≡ none
    → ((replay c key print now).1 ≡ fresh) × IsMap (replay c key print now).0
unfolding replay prune
replay-unused {Value = Value} c key print now m unused =
    let young = λ (y : Entry Value). ltb (now - y.at) retention in
    let found : lookup key (prune c now) ≡ none =
      lookup-retain key young c m ∙ ap (filtered young) unused in
    rw (replay, found) (refl, retain-IsMap (λ (x : String × Entry Value). young x.1) c m)

module _ {Ip Key Value : Type 0} ⦃ips : Eq Ip⦄ ⦃keys : Eq Key⦄ ⦃values : Eq Value⦄ where
  noted-replays :
      (written : Bool) (minutes : ℕ) (source : String) (g : Grants Ip Key Value) (answer : Answer)
      → (noted written minutes source (g, answer)).0.replays ≡ g.replays
  noted-replays true minutes source g done = refl
  noted-replays true minutes source g refused = refl
  noted-replays true minutes source g bad_request = refl
  noted-replays true minutes source g not_saved = refl
  noted-replays true minutes source g unauthorized = refl
  noted-replays true minutes source g not_found = refl
  noted-replays true minutes source g too_many = refl
  noted-replays false minutes source g answer = refl

  module _ (unchanged : Config → Config → Bool) where
    settle-replays :
        (source : String) (i : Seen) (asked : ℕ) (reported : Option Progress)
        (g : Grants Ip Key Value)
        → (settle unchanged source i asked reported g).0.replays ≡ g.replays
    unfolding settle
    settle-replays source i asked reported g =
        let robot = not (source =? "parent") in
        elim (Option-cases (judged robot source i asked reported g.config).1.0) [
          | inl clear ↦
              rw (settle, clear) (noted-replays i.line_written _ source (record g { config = _ }) _)
          | inr (reason, unclear) ↦ rw (settle, unclear) refl
        ]

    module _ (name : List ℕ → String) (render : Option Config.Refused → ℕ → Value)
        (fingerprint : Bool → ℕ → Value) where
      -- The answer is kept under the key.
      abbrev Kept :
          String
          → Value
          → ℕ
          → Grants Ip Key Value
          → Grants Ip Key Value × Answer × Option Value
          → Type 0
      Kept key print now g (t, answer, response) =
          answer ≡ done
          → (v : Value) × (response ≡ some v)
            × (t.replays ≡ record_response g.replays key print v now)

      granted_for-Kept :
          (source : String) (i : Seen) (asked : ℕ) (reported : Option Progress) (key : String)
          (g : Grants Ip Key Value)
          → Kept key
              (fingerprint (not (source =? "parent")) asked)
              i.instant
              g
              (granted_for unchanged name render fingerprint source i asked reported (some key) g)
      unfolding granted_for
      granted_for-Kept source i asked reported key g =
          let print = fingerprint (not (source =? "parent")) asked in
          let (why, minutes) =
            (judged (not (source =? "parent")) source i asked reported g.config).1 in
          let response = render why minutes in
          let r =
            granted_for unchanged name render fingerprint source i asked reported (some key) g in
          (elim (settle unchanged source i asked reported g).1
              as (λ x.
                (settle unchanged source i asked reported g).1 ≡ x → Kept key print i.instant g r) [
                  | done ↦ λ e.
                      rw (granted_for, e)
                        (λ ok. (
                          response,
                          refl,
                          ap (λ c. record_response c key print response i.instant)
                              (settle-replays source i asked reported g),
                        ))
                  | refused ↦ λ e. rw (granted_for, e) (λ ok. absurd cc)
                  | bad_request ↦ λ e. rw (granted_for, e) (λ ok. absurd cc)
                  | not_saved ↦ λ e. rw (granted_for, e) (λ ok. absurd cc)
                  | unauthorized ↦ λ e. rw (granted_for, e) (λ ok. absurd cc)
                  | not_found ↦ λ e. rw (granted_for, e) (λ ok. absurd cc)
                  | too_many ↦ λ e. rw (granted_for, e) (λ ok. absurd cc)
                ])
            refl

      -- A first answer, and what the second request finds in a later state.
      abbrev Repeats :
          Grants Ip Key Value × Answer × Option Value
          → Grants Ip Key Value
          → Grants Ip Key Value × Answer × Option Value
          → Type 0
      Repeats (t, answer, response) h (u, again, repeated) =
          (again ≡ done) × (repeated ≡ response) × (u.config ≡ h.config) × (u.lines ≡ h.lines)

      replayed_or-stored :
          (source key : String) (asked : ℕ) (reported : Option Progress) (j : Seen)
          (h : Grants Ip Key Value) (v : Value)
          → let print = fingerprint (not (source =? "parent")) asked in
            (replay h.replays key print j.instant).1 ≡ stored v
            → replayed_or unchanged name render fingerprint source j asked reported (some key) h
              ≡ (record h { replays = (replay h.replays key print j.instant).0 }, done, some v)
      unfolding replayed_or
      replayed_or-stored source key asked reported j h v e = rw (replayed_or, e) refl

      replayed_or-Repeats :
          (source key : String) (asked : ℕ) (reported changed : Option Progress) (i j : Seen)
          (g h : Grants Ip Key Value)
          → IsMap g.replays
          → IsMap h.replays
          → lookup key g.replays ≡ none
          → j.instant - i.instant < retention
          → let first =
              replayed_or unchanged name render fingerprint source i asked reported (some key) g in
            first.1 ≡ done
            → lookup key h.replays ≡ lookup key first.0.replays
            → Repeats first h
                (replayed_or unchanged name render fingerprint source j asked changed (some key) h)
      replayed_or-Repeats source key asked reported changed i j g h m m' unused soon ok kept_still =
          let print = fingerprint (not (source =? "parent")) asked in
          let (is_fresh, kept_map) = replay-unused g.replays key print i.instant m unused in
          let kept = record g { replays = (replay g.replays key print i.instant).0 } in
          let once =
            granted_for unchanged name render fingerprint source i asked reported (some key) kept in
          let first =
            replayed_or unchanged name render fingerprint source i asked reported (some key) g in
          let same : first ≡ once = unfold replayed_or in rw (replayed_or, is_fresh) refl in
          let (v, answered, held) =
            granted_for-Kept source i asked reported key kept (ap (λ x. x.1) (sym same) ∙ ok) in
          let again : (replay h.replays key print j.instant).1 ≡ stored v =
            replay-held kept.replays h.replays key print v i.instant j.instant m'
              (kept_still
                ∙ ap (λ (x : Grants Ip Key Value × Answer × Option Value). lookup key x.0.replays)
                    same
                ∙ ap (λ c. lookup key c) held)
              soon in
          let found = replayed_or-stored source key asked changed j h v again in
          (
            ap (λ x. x.1) found,
            ap (λ x. x.2) found ∙ sym (ap (λ x. x.2) same ∙ answered),
            ap (λ x. x.0.config) found,
            ap (λ x. x.0.lines) found,
          )

      -- A request that passes the checks comes to its key; the progress plays no part in them.
      extra_time-replayed :
          (scope : Scope) (body : ExtraTimeBody) (p : Option Progress) (header : KeyHeader)
          (whole : String) (asked : ℕ) (k : Seen) (h : Grants Ip Key Value)
          → valid_source (source_of name scope body) ≡ true
          → asked_of (source_of name scope body) body ≡ some asked
          → replay_key (source_of name scope body) header ≡ inr (some whole)
          → extra_time unchanged name render fingerprint scope
              (record body { progress = p })
              header
              k
              h
            ≡ replayed_or unchanged name render fingerprint
                (source_of name scope body)
                k
                asked
                p
                (some whole)
                h
      unfolding extra_time
      extra_time-replayed dashboard body p header whole asked k h good right e =
          rw (extra_time, good, right, e) refl
      extra_time-replayed (integration s) body p header whole asked k h good right e =
          rw (extra_time, good, right, e) refl

-- A request that is sent again is not granted again while its answer is kept. Let a request for
-- extra time be answered with `done`, under a key that the cache did not hold, and let it be sent
-- again with that key and the same minutes less than 48 hours later, with any progress, in any state
-- whose cache still holds under the key what it held after the first (a full cache evicts, and a
-- restart empties it). It gets the very answer of the first, and changes neither the configuration
-- nor the lines of the grants. A cache has one entry a key.
pub extra_time-Repeats :
    {Ip Key Value : Type 0} ⦃ips : Eq Ip⦄ ⦃keys : Eq Key⦄ ⦃values : Eq Value⦄
    (unchanged : Config → Config → Bool) (name : List ℕ → String)
    (render : Option Config.Refused → ℕ → Value) (fingerprint : Bool → ℕ → Value) (scope : Scope)
    (body : ExtraTimeBody) (changed : Option Progress) (key whole : String) (i j : Seen)
    (g h : Grants Ip Key Value)
    → IsMap g.replays
    → IsMap h.replays
    → replay_key (source_of name scope body) (key_text key) ≡ inr (some whole)
    → lookup whole g.replays ≡ none
    → j.instant - i.instant < retention
    → (extra_time unchanged name render fingerprint scope body (key_text key) i g).1 ≡ done
    → lookup whole h.replays
      ≡ lookup whole
          (extra_time unchanged name render fingerprint scope body (key_text key) i g).0.replays
    → let first = extra_time unchanged name render fingerprint scope body (key_text key) i g in
      let second =
        extra_time unchanged name render fingerprint scope
          (record body { progress = changed })
          (key_text key)
          j
          h in
      (second.1 ≡ done)
      × (second.2 ≡ first.2)
      × (second.0.config ≡ h.config)
      × (second.0.lines ≡ h.lines)
unfolding extra_time
extra_time-Repeats {Ip} {Key} {Value} unchanged name render fingerprint scope body changed key whole
      i j g h m m' e unused soon ok kept_still =
    let source = source_of name scope body in
    elim (Bool-cases (valid_source source)) [
      | inr bad ↦ absurd ground arith
      | inl good ↦ elim (Option-cases (asked_of source body)) [
        | inl no_minutes ↦ absurd ground arith
        | inr (asked, right) ↦
            let is = λ (p : Option Progress) (k : Seen) (h : Grants Ip Key Value).
              extra_time-replayed unchanged name render fingerprint scope body p (key_text key)
                whole asked k h good right e in
            let same = is body.progress i g in
            rw (is changed j h, same)
              (replayed_or-Repeats unchanged name render fingerprint source whole asked
                body.progress changed i j g h m m' unused soon (ap (λ x. x.1) (sym same) ∙ ok)
                (kept_still
                  ∙ ap
                      (λ (x : Grants Ip Key Value × Answer × Option Value).
                        lookup whole x.0.replays)
                      same))
      ]
    ]
