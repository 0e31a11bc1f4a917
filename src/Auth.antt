-- ===== src/Auth.antt =====
-- Signing in, the scopes of a session, and the check in front of the API (src/auth.rs). A session is
-- what this code keeps under its keys, and the identifier that the library gave it. The verdict on a
-- password, the digest of a token and the clocks are inputs; an `Instant` is a number of
-- nanoseconds, a `unix_timestamp` a number of seconds since 1970. What is passed to the audit log is
-- returned, and a text is the list of its characters.
pub mod Reach
pub mod Admitted
use Prim.Native.String.{[] as empty_text, ◌∷◌ as ◌⊳◌}
use Prim.Native.Char.{code}
use nestwatch.Common.{
  ℕ, ◌-◌, ◌*◌, String, Bool, true, false, not, Option, none, some, List, [], ◌∷◌, ◌⊎◌, inl, inr,
  leb, ◌==◌, if◌then◌else◌, unwrap_or, take,
}
use nestwatch.Common.Keyed.{Eq, ◌=?◌, bytes_keys}
use nestwatch.Throttle.{Net, LoginLimiter, check, record_failure, record_success}
use nestwatch.Config.{Config, provider_authority}
use nestwatch.Pairing.{Scope, dashboard, integration, File}
use nestwatch.Pairing

abbrev pub session_max_days : ℕ
session_max_days = 30

abbrev pub sliding_refresh_secs : ℕ
sliding_refresh_secs = 5 * 86400

abbrev pub max_user_agent : ℕ
max_user_agent = 256

pub record Device : Type 0 where
  pub first_seen : Option ℕ
  pub user_agent : List ℕ

pub record Session : Type 0 where
  pub id : Option ℕ
  pub authenticated : Option Bool
  pub scope : Option Scope
  pub device : Option Device
  pub seen : Option ℕ

-- `cycle_id` drops the identifier and keeps the values, `flush` drops both.
abbrev pub cycle_id : Session → Session
cycle_id s = record s { id = none }

abbrev pub flushed : Session
flushed = record { id = none; authenticated = none; scope = none; device = none; seen = none }

pub data AuditEvent : Type 0 where
  auth_success : AuditEvent
  auth_failure : (locked_out : Bool) → AuditEvent
  logged_out : AuditEvent
  pair_failed : AuditEvent
  paired : Scope → AuditEvent

-- The text as the list of its characters.
abbrev pub chars : String → List ℕ
chars empty_text = []
chars (c ⊳ s) = code c ∷ chars s

abbrev pub strip_prefix : List ℕ → List ℕ → Option (List ℕ)
strip_prefix [] s = some s
strip_prefix (x ∷ p) [] = none
strip_prefix (x ∷ p) (y ∷ s) = if x == y then strip_prefix p s else none

abbrev pub prepended : ℕ → Option (List ℕ) → Option (List ℕ)
prepended x none = none
prepended x (some s) = some (x ∷ s)

unfoldable pub strip_suffix : List ℕ → List ℕ → Option (List ℕ)
strip_suffix p [] = if p =? [] then some [] else none
strip_suffix p (x ∷ s) =
    let rest = strip_suffix p s in if p =? (x ∷ s) then some [] else prepended x rest

pub data Method : Type 0 where
  get head post other : Method

-- `path.strip_prefix("/api").unwrap_or(path)`.
abbrev pub under_api : List ℕ → List ℕ
under_api path = unwrap_or (strip_prefix (chars "/api") path) path

abbrev pub names_secret_of : List ℕ → List ℕ → Bool
names_secret_of path source = elim (strip_prefix (chars "/providers/") path) [
  | none ↦ false
  | some rest ↦ elim (strip_suffix (chars "/secret") rest) [
    | none ↦ false
    | some name ↦ name =? source
  ]
]

unfoldable pub integration_may_reach : Method → List ℕ → List ℕ → Bool
integration_may_reach get path source = under_api path =? chars "/usage/today"
integration_may_reach post path source =
    if under_api path =? chars "/extra-time" then true else names_secret_of (under_api path) source
integration_may_reach head path source = false
integration_may_reach other path source = false

-- `user_agent` is the header as text, where it is there and is text.
unfoldable pub remember_device : Session → ℕ → Option (List ℕ) → Session
remember_device s now user_agent = record s {
  device = some (record {
    first_seen = some now;
    user_agent = take max_user_agent (unwrap_or user_agent (chars "unknown"));
  });
}

abbrev pub signed_in : Session → Scope → ℕ → Option (List ℕ) → Session
signed_in s scope now user_agent =
    remember_device (record (cycle_id s) { authenticated = some true; scope = some scope }) now
      user_agent

pub data Answer : Type 0 where
  ok redirect too_many_requests unauthorized forbidden bad_request internal_error : Answer

pub record SignIn (Ip : Type 0) : Type 0 where
  pub limiter : LoginLimiter Ip
  pub file : File
  pub session : Session

-- What arrives with a request to sign in. `verified` is the verdict on the password, `none` where
-- the task that checks it fails; `redeemed` says whether the task that redeems a token ran, and
-- `removed` whether the token's file could be removed.
pub record Attempt (Ip : Type 0) : Type 0 where
  pub ip : Ip
  pub instant : ℕ
  pub unix : ℕ
  pub user_agent : Option (List ℕ)
  pub verified : Option Bool
  pub token : List ℕ
  pub redeemed : Bool
  pub removed : Bool

-- The state, the answer, what is audited, and whether a wrong password is counted.
abbrev pub Outcome : Type 0 → Type 0
Outcome Ip = SignIn Ip × Answer × List AuditEvent × Bool

module _ {Ip : Type 0} ⦃e : Eq Ip⦄ (net : Net Ip) where
  unfoldable pub login : Attempt Ip → SignIn Ip → Outcome Ip
  login a s =
      if not (check net s.limiter a.ip a.instant)
      then (s, too_many_requests, [], false)
      else elim a.verified [
        | none ↦ (s, internal_error, [], false)
        | some true ↦ (
          record s {
            limiter = record_success net s.limiter a.ip;
            session = signed_in s.session dashboard a.unix a.user_agent;
          },
          ok,
          auth_success ∷ [],
          false,
        )
        | some false ↦
            (let (limiter, locked_out) = record_failure net s.limiter a.ip a.instant in
              (record s { limiter = limiter }, unauthorized, auth_failure locked_out ∷ [], true))
      ]

  unfoldable pub logout : SignIn Ip → Outcome Ip
  logout s =
      let was_authenticated = unwrap_or s.session.authenticated false in
      (
        record s { session = flushed },
        ok,
        (if was_authenticated then logged_out ∷ [] else []),
        false,
      )

  module _ (digest : List ℕ → List ℕ) where
    unfoldable pub pair : Attempt Ip → SignIn Ip → Outcome Ip
    pair a s =
        if not (check net s.limiter a.ip a.instant)
        then (s, redirect, [], false)
        else if not a.redeemed
        then (s, internal_error, [], false)
        else (let (scope, file) = Pairing.redeem digest a.token a.unix a.removed s.file in
            elim scope [
              | none ↦
                  (let (limiter, locked_out) = record_failure net s.limiter a.ip a.instant in
                    (
                      record s { limiter = limiter; file = file },
                      redirect,
                      (if locked_out then pair_failed ∷ [] else []),
                      false,
                    ))
              | some granted ↦ (
                record s {
                  limiter = record_success net s.limiter a.ip;
                  file = file;
                  session = signed_in s.session granted a.unix a.user_agent;
                },
                redirect,
                paired granted ∷ [],
                false,
              )
            ])

abbrev pub too_old : ℕ → Option Device → Bool
too_old now none = false
too_old now (some d) = elim d.first_seen [
  | none ↦ false
  | some started ↦ leb (session_max_days * 86400) (now - started)
]

-- `name` is the text of a list of characters.
module _ (name : List ℕ → String) where
  -- The first half of `require_auth`: whether the session's scope lets the request in.
  unfoldable pub refusal : Config → Session → Method → List ℕ → Option Answer
  refusal c s method path =
      if not (unwrap_or s.authenticated false) then some unauthorized else elim s.scope [
        | none ↦ some unauthorized
        | some dashboard ↦ none
        | some (integration source) ↦
            if not (integration_may_reach method path source)
            then some forbidden
            else elim (provider_authority c (name source)) [
              | inl why ↦ some bad_request
              | inr provider ↦ none
            ]
      ]

  -- The session and, for a request that is let in, `none`.
  unfoldable pub require_auth : Config → ℕ → Method → List ℕ → Session → Session × Option Answer
  require_auth c now method path s = elim (refusal c s method path) [
    | some answer ↦ (s, some answer)
    | none ↦ if too_old now s.device then (flushed, some unauthorized) else (
      (if leb sliding_refresh_secs (now - unwrap_or s.seen 0)
          then record s { seen = some now }
          else s),
      none,
    )
  ]
