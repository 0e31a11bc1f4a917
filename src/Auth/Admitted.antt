-- ===== src/Auth/Admitted.antt =====
-- Who is let in (`require_auth` of src/auth.rs, with the handlers that sign in and out).
use nestwatch.Common.{
  ℕ, ◌+◌, ◌*◌, ◌<◌, ◌≡◌, ◌⊎◌, inl, inr, refl, String, true, false, Option, none, some, List, [],
  ◌∷◌, unwrap_or, arith, Bool-cases, Option-cases,
}
use nestwatch.Common.Keyed.{Eq, string_keys, lookup}
use nestwatch.Throttle.{Net, LoginLimiter, check, record_failure}
use nestwatch.Config.{Config, Earn, Provider, provider_authority}
use nestwatch.Pairing.{Scope, dashboard, integration, File}
use nestwatch.Pairing
use nestwatch.Auth.{
  Method, Session, Device, SignIn, Attempt, AuditEvent, auth_success, auth_failure, logged_out,
  pair_failed, paired, login, logout, pair, refusal, require_auth, remember_device, too_old,
  session_max_days, flushed, integration_may_reach,
}
use nestwatch.Auth.Reach.{MayReach, integration_may_reach-MayReach}

-- What one browser does, and that other devices may change what is shared between them.
pub data Step (Ip : Type 0) : Type 0 where
  logging_in : Attempt Ip → Step Ip
  logging_out : Step Ip
  pairing : Attempt Ip → Step Ip
  requesting : Config → (now : ℕ) → Method → (path : List ℕ) → Step Ip
  elsewhere : LoginLimiter Ip → File → Step Ip

-- The sign-in that stands by the audit log: its time and its scope.
abbrev pub Standing : Type 0
Standing = Option (ℕ × Scope)

abbrev pub standing : ℕ → Standing → List AuditEvent → Standing
standing unix st [] = st
standing unix st (auth_success ∷ es) = standing unix (some (unix, dashboard)) es
standing unix st (auth_failure b ∷ es) = standing unix st es
standing unix st (logged_out ∷ es) = standing unix none es
standing unix st (pair_failed ∷ es) = standing unix st es
standing unix st (paired scope ∷ es) = standing unix (some (unix, scope)) es

abbrev first_seen_of : Option Device → Option ℕ
first_seen_of none = none
first_seen_of (some d) = d.first_seen

-- The session is not signed in, or as the sign-in left it.
abbrev Backed : Standing → Session → Type 0
Backed none s = unwrap_or s.authenticated false ≡ false
Backed (some (unix, scope)) s =
    (unwrap_or s.authenticated false ≡ false)
    ⊎ ((s.scope ≡ some scope) × (first_seen_of s.device ≡ some unix))

too_old-lt :
    (now unix : ℕ) (d : Option Device)
    → first_seen_of d ≡ some unix
    → too_old now d ≡ false
    → now < unix + session_max_days * 86400
too_old-lt now unix none h young = absurd cc
too_old-lt now unix (some d) h young = ground arith

module _ (name : List ℕ → String) where
  -- What the scope of a sign-in allows.
  abbrev pub Allows : Config → Method → List ℕ → Scope → Type 0
  Allows c method path dashboard = Unit
  Allows c method path (integration source) =
      MayReach method path source
      × ((p : Provider) × (lookup (name source) c.providers ≡ some p) × (p.enabled ≡ true))

  -- The sign-in lets this request in.
  abbrev pub Entitles : Config → ℕ → Method → List ℕ → Standing → Type 0
  Entitles c now method path none = ⊥
  Entitles c now method path (some (unix, scope)) =
      (now < unix + session_max_days * 86400) × Allows c method path scope

  authority-enabled :
      (c : Config) (source : String) (p : Provider)
      → provider_authority c source ≡ inr p
      → (lookup source c.providers ≡ some p) × (p.enabled ≡ true)
  unfolding provider_authority
  authority-enabled c source p h = ground arith

  authority_cases :
      (c : Config) (source : String)
      → ((why : Earn) × (provider_authority c source ≡ inl why))
        ⊎ ((p : Provider) × (provider_authority c source ≡ inr p))
  authority_cases c source =
      elim (provider_authority c source)
        as (λ x. ((why : Earn) × (x ≡ inl why)) ⊎ ((p : Provider) × (x ≡ inr p))) [
          | inl why ↦ inl (why, refl)
          | inr p ↦ inr (p, refl)
        ]

  refusal-Allows :
      (c : Config) (s : Session) (method : Method) (path : List ℕ) (scope : Scope)
      → refusal name c s method path ≡ none
      → s.scope ≡ some scope
      → Allows c method path scope
  unfolding refusal
  refusal-Allows c s method path dashboard h e = tt
  refusal-Allows c s method path (integration source) h e =
      elim (Bool-cases (integration_may_reach method path source)) [
        | inl reach ↦ elim (authority_cases c (name source)) [
          | inl (why, no_entry) ↦ absurd ground arith
          | inr (p, entry) ↦ (
            (integration_may_reach-MayReach method path source).0 reach,
            (
              p,
              (authority-enabled c (name source) p entry).0,
              (authority-enabled c (name source) p entry).1,
            ),
          )
        ]
        | inr no_reach ↦ absurd ground arith
      ]

  refusal-authenticated :
      (c : Config) (s : Session) (method : Method) (path : List ℕ)
      → refusal name c s method path ≡ none
      → unwrap_or s.authenticated false ≡ true
  unfolding refusal
  refusal-authenticated c s method path h = ground arith

  require-Entitles :
      (c : Config) (now : ℕ) (method : Method) (path : List ℕ) (st : Standing) (s : Session)
      → Backed st s
      → (require_auth name c now method path s).1 ≡ none
      → Entitles c now method path st
  unfolding require_auth
  require-Entitles c now method path none s b h =
      ground (arith, refusal-authenticated c s method path)
  require-Entitles c now method path (some (unix, scope)) s b h =
      elim (Option-cases (refusal name c s method path)) [
        | inl free ↦ elim b [
          | inl out ↦ absurd ground (arith, refusal-authenticated c s method path free)
          | inr (granted, begun) ↦ elim (Bool-cases (too_old now s.device)) [
            | inl old ↦ absurd ground arith
            | inr young ↦ (
              too_old-lt now unix s.device begun young,
              refusal-Allows c s method path scope free granted,
            )
          ]
        ]
        | inr (why, no_entry) ↦ absurd ground arith
      ]

  require-Backed :
      (c : Config) (now : ℕ) (method : Method) (path : List ℕ) (st : Standing) (s : Session)
      → Backed st s
      → Backed st (require_auth name c now method path s).0
  unfolding require_auth
  require-Backed c now method path none s b = ground arith
  require-Backed c now method path (some (unix, scope)) s b = ground arith

module _ {Ip : Type 0} ⦃e : Eq Ip⦄ (net : Net Ip) (digest : List ℕ → List ℕ)
    (name : List ℕ → String) where
  -- The state after a step, and what is audited with the time at which it is.
  unfoldable pub step : SignIn Ip → Step Ip → SignIn Ip × ℕ × List AuditEvent
  step s (logging_in a) = let (t, answer, events, wrong) = login net a s in (t, a.unix, events)
  step s logging_out = let (t, answer, events, wrong) = logout net s in (t, 0, events)
  step s (pairing a) = let (t, answer, events, wrong) = pair net digest a s in (t, a.unix, events)
  step s (requesting c now method path) =
      (record s { session = (require_auth name c now method path s.session).0 }, 0, [])
  step s (elsewhere limiter file) = (record s { limiter = limiter; file = file }, 0, [])

  -- Where the step is a request that is let in, the sign-in that stands entitles it.
  abbrev pub Justified : Standing → SignIn Ip → Step Ip → Type 0
  Justified st s (requesting c now method path) =
      (require_auth name c now method path s.session).1 ≡ none → Entitles name c now method path st
  Justified st s _ = Unit

  -- Every step of a run is, by what was audited before it.
  abbrev pub AllJustified : Standing → SignIn Ip → List (Step Ip) → Type 0
  AllJustified st s [] = Unit
  AllJustified st s (x ∷ xs) =
      Justified st s x × AllJustified (standing (step s x).1 st (step s x).2) (step s x).0 xs

  flushed-Backed : (st : Standing) → Backed st flushed
  flushed-Backed none = refl
  flushed-Backed (some x) = inl refl

  login-Backed :
      (st : Standing) (s : SignIn Ip) (a : Attempt Ip)
      → Backed st s.session
      → Backed (standing a.unix st (step s (logging_in a)).2) (step s (logging_in a)).0.session
  unfolding step login remember_device
  login-Backed st s a b = elim (Bool-cases (check net s.limiter a.ip a.instant)) [
    | inl free ↦ elim (Option-cases a.verified) [
      | inl failed ↦ rw (free, login, failed) b
      | inr (verdict, told) ↦ elim (Bool-cases verdict) [
        | inl right ↦ rw (free, login, told, right) (inr (refl, refl))
        | inr wrong ↦ rw (free, login, told, wrong) b
      ]
    ]
    | inr locked ↦ rw (locked, login) b
  ]

  pair-Backed :
      (st : Standing) (s : SignIn Ip) (a : Attempt Ip)
      → Backed st s.session
      → Backed (standing a.unix st (step s (pairing a)).2) (step s (pairing a)).0.session
  unfolding step pair remember_device
  pair-Backed st s a b = elim (Bool-cases (check net s.limiter a.ip a.instant)) [
    | inl free ↦ elim (Bool-cases a.redeemed) [
      | inl ran ↦ elim (Option-cases (Pairing.redeem digest a.token a.unix a.removed s.file).0) [
        | inl no_token ↦ elim (Bool-cases (record_failure net s.limiter a.ip a.instant).1) [
          | inl locked ↦ rw (free, pair, ran, no_token, locked) b
          | inr more ↦ rw (free, pair, ran, no_token, more) b
        ]
        | inr (scope, is_token) ↦ rw (free, pair, ran, is_token) (inr (refl, refl))
      ]
      | inr failed ↦ rw (free, pair, failed) b
    ]
    | inr locked ↦ rw (locked, pair) b
  ]

  step-Backed :
      (st : Standing) (s : SignIn Ip) (x : Step Ip)
      → Backed st s.session
      → Backed (standing (step s x).1 st (step s x).2) (step s x).0.session
  unfolding step
  step-Backed st s (logging_in a) b = login-Backed st s a b
  step-Backed st s logging_out b = unfold logout in flushed-Backed _
  step-Backed st s (pairing a) b = pair-Backed st s a b
  step-Backed st s (requesting c now method path) b =
      require-Backed name c now method path st s.session b
  step-Backed st s (elsewhere limiter file) b = b

  step-Justified :
      (st : Standing) (s : SignIn Ip) (x : Step Ip) → Backed st s.session → Justified st s x
  step-Justified st s (logging_in a) b = tt
  step-Justified st s logging_out b = tt
  step-Justified st s (pairing a) b = tt
  step-Justified st s (requesting c now method path) b =
      require-Entitles name c now method path st s.session b
  step-Justified st s (elsewhere limiter file) b = tt

  run-AllJustified :
      (xs : List (Step Ip)) (st : Standing) (s : SignIn Ip)
      → Backed st s.session
      → AllJustified st s xs
  run-AllJustified [] st s b = tt
  run-AllJustified (x ∷ xs) st s b = (
    step-Justified st s x b,
    run-AllJustified xs (standing (step s x).1 st (step s x).2) (step s x).0 (step-Backed st s x b),
  )

-- Take a browser that is not signed in, and let it and the other devices do anything in any order:
-- sign in with a password or with a token, sign out, and make requests, whatever the limiter, the
-- token's file and the configuration are at each. Every request that is let in is entitled by the
-- sign-in that stands by the audit log: one was audited less than thirty days before and not
-- followed by a sign-out. If its scope is an integration, the request is one of the three that
-- such a scope may reach, and the integration is installed and turned on at that moment.
pub run-Justified :
    {Ip : Type 0} ⦃e : Eq Ip⦄ (net : Net Ip) (digest : List ℕ → List ℕ) (name : List ℕ → String)
    (xs : List (Step Ip)) (s : SignIn Ip)
    → s.session.authenticated ≡ none
    → AllJustified net digest name none s xs
run-Justified net digest name xs s out = run-AllJustified net digest name xs none s (rw out refl)
