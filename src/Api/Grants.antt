-- ===== src/Api/Grants.antt =====
-- The handlers that grant time: by the parent, by an integration, by a request and by a code
-- (src/api.rs). The answer in JSON is a type of its own, with its texts as parameters; `name` is the
-- text of a list of characters. What is told to the child and to an open page is left out.
pub mod Accounts
pub mod Handled
pub mod Ledger
pub mod Retry
use Prim.Native.String.{len, ◌++◌ as text_append, [] as empty_text, ◌∷◌ as ◌⊳◌}
use Prim.Native.Char.{code}
use nestwatch.Common.{
  ℕ, ◌+◌, String, Bool, true, false, not, ◌&&◌, ◌||◌, Option, none, some, List, [], ◌∷◌, ◌++◌, leb,
  ltb, ◌==◌, if◌then◌else◌, unwrap_or, ◌⊎◌, inl, inr,
}
use nestwatch.Common.Keyed.{Eq, ◌=?◌, string_keys}
use nestwatch.Config.{
  Config, Earn, granted, refused, turned_off, not_installed, too_many_sources, Progress, judge, add,
}
use nestwatch.Config
use nestwatch.Pairing.{Scope, dashboard, integration}
use nestwatch.Idempotency.{IdempotencyCache, stored, mismatch, fresh, replay, record_response}
use nestwatch.Throttle.{Net, SubmitLimiter, count_and_check}
use nestwatch.TimeCode.{Redemption, not_a_code, no_such_code}
use nestwatch.TimeCode
use nestwatch.TimeRequest.{TimeRequests, PendingRequest, resolve, submit}
use nestwatch.TimeRequest
use nestwatch.Jsonl.{JsonlLog, Io}
use nestwatch.Refusals.{Refused, bump, time_code}
use nestwatch.Api.{
  Answer, done, bad_request, not_saved, too_many, require_minutes, max_request_minutes,
  try_update_config, update_config,
}
use nestwatch.Api

abbrev pub max_source_len : ℕ
max_source_len = 32

abbrev pub max_code_minutes : ℕ
max_code_minutes = 240

abbrev pub max_key_len : ℕ
max_key_len = 128

abbrev pub in_range : ℕ → ℕ → ℕ → Bool
in_range lo hi c = leb lo c && leb c hi

-- `a-z`, `0-9`, `_` and `-`.
abbrev pub source_char : ℕ → Bool
source_char c = in_range 97 122 c || in_range 48 57 c || (c == 95) || (c == 45)

abbrev pub all_source_chars : String → Bool
all_source_chars empty_text = true
all_source_chars (c ⊳ s) = source_char (code c) && all_source_chars s

unfoldable pub valid_source : String → Bool
valid_source source =
    not (source =? "") && leb (len source) max_source_len && all_source_chars source

-- The idempotency key of a request: none, a header that is no text, or a text.
pub data KeyHeader : Type 0 where
  no_key not_text : KeyHeader
  key_text : String → KeyHeader

pub record ExtraTimeBody : Type 0 where
  pub minutes : Option ℕ
  pub source : Option String
  pub progress : Option Progress

-- A line `extra_time_granted` of the usage log.
pub record Line : Type 0 where
  pub minutes : ℕ
  pub source : String

pub record Grants (Ip Key Value : Type 0) : Type 0 where
  pub config : Config
  pub replays : IdempotencyCache Value
  pub codes : JsonlLog TimeCode.Event
  pub requests : TimeRequests Key
  pub code_limiter : SubmitLimiter Ip
  pub request_limiter : SubmitLimiter Ip
  pub lines : List Line
  pub cells : Refused

-- The clocks, and what the file systems answer: to the save of the configuration, to the log of the
-- codes or of the requests, and to a line of the usage log, which is lost where it is not written.
pub record Seen : Type 0 where
  pub today : ℕ
  pub instant : ℕ
  pub saved : Bool
  pub log : Io
  pub line_written : Bool

abbrev pub source_of : (List ℕ → String) → Scope → ExtraTimeBody → String
source_of name (integration source) body = name source
source_of name dashboard body = unwrap_or body.source "parent"

-- The minutes the parent asks for; an integration asks for none. `none` is a bad request.
abbrev pub asked_of : String → ExtraTimeBody → Option ℕ
asked_of source body =
    if source =? "parent"
    then elim body.minutes [
      | none ↦ none
      | some asked ↦ if require_minutes asked max_request_minutes then some asked else none
    ]
    else some 0

-- The key under which the answer is kept, if any; `inl` is a bad request.
abbrev pub replay_key : String → KeyHeader → Unit {0} ⊎ Option String
replay_key source no_key = inr none
replay_key source not_text = inl tt
replay_key source (key_text key) =
    if (key =? "") || ltb max_key_len (len key)
    then inl tt
    else inr (some (text_append source (text_append ":" key)))

-- What the change of the configuration found out.
abbrev pub verdict : Earn → Option Answer × (Option Config.Refused × ℕ)
verdict (granted minutes) = (none, (none, minutes))
verdict (refused why) = (none, (some why, 0))
verdict turned_off = (some bad_request, (none, 0))
verdict not_installed = (some bad_request, (none, 0))
verdict too_many_sources = (some bad_request, (none, 0))

-- The change of an integration's report, or of the parent's grant; and what was found out.
unfoldable pub judged :
    (robot : Bool)
    → String
    → Seen
    → (asked : ℕ) → Option Progress
    → Config
    → (Config × Option Answer) × (Option Config.Refused × ℕ)
judged true source i asked reported c =
    let (d, earned, opened) = judge c source i.today reported in
    ((d, (verdict earned).0), ((verdict earned).1.0, (verdict earned).1.1))
judged false source i asked reported c =
    ((record c { extra = add c.extra i.today asked }, none), (none, asked))

module _ {Ip Key Value : Type 0} ⦃ips : Eq Ip⦄ ⦃keys : Eq Key⦄ ⦃values : Eq Value⦄ where
  -- The bonus of the day, as `update_config` changes it.
  unfoldable pub grant_extra :
      (Config → Config → Bool) → Seen → ℕ → Grants Ip Key Value → Grants Ip Key Value × Answer
  grant_extra unchanged i minutes g =
      let (c, answer) =
        update_config unchanged i.saved
          (λ (c : Config). record c { extra = add c.extra i.today minutes }) g.config in
      (record g { config = c }, answer)

  -- The line in the log, once a grant has been saved. `JsonlLog::record` drops a line that it cannot
  -- append, with a warning.
  abbrev pub noted :
      (written : Bool) → ℕ → String → Grants Ip Key Value × Answer → Grants Ip Key Value × Answer
  noted true minutes source (g, done) =
      (record g { lines = g.lines ++ record { minutes = minutes; source = source } ∷ [] }, done)
  noted _ minutes source (g, e) = (g, e)

  module _ (unchanged : Config → Config → Bool) where
    unfoldable pub settle :
        String
        → Seen
        → (asked : ℕ) → Option Progress
        → Grants Ip Key Value
        → Grants Ip Key Value × Answer
    settle source i asked reported g =
        let robot = not (source =? "parent") in
        let (c, answer) =
          try_update_config unchanged i.saved
            (λ (c : Config). (judged robot source i asked reported c).0) g.config in
        let (why, minutes) = (judged robot source i asked reported g.config).1 in
        elim why [
          | none ↦ noted i.line_written minutes source (record g { config = c }, answer)
          | some reason ↦ (record g { config = c }, answer)
        ]

    -- `render` is the answer for the source, the refusal and the minutes; `fingerprint` that of the
    -- source and the minutes asked.
    module _ (name : List ℕ → String) (render : Option Config.Refused → ℕ → Value)
        (fingerprint : (robot : Bool) → ℕ → Value) where
      -- What is kept of an answer that was given.
      abbrev pub kept_answer :
          Option String → Value → Value → ℕ → Grants Ip Key Value → Grants Ip Key Value
      kept_answer none print response now g = g
      kept_answer (some key) print response now g = record g {
        replays = record_response g.replays key print response now;
      }

      -- From the reading of the key on.
      unfoldable pub granted_for :
          String
          → Seen
          → (asked : ℕ) → Option Progress
          → Option String
          → Grants Ip Key Value
          → Grants Ip Key Value × Answer × Option Value
      granted_for source i asked reported key g =
          let robot = not (source =? "parent") in
          let (why, minutes) = (judged robot source i asked reported g.config).1 in
          let response = render why minutes in
          let (t, answer) = settle source i asked reported g in
          elim answer [
            | done ↦ (
              kept_answer key (fingerprint robot asked) response i.instant t,
              done,
              some response,
            )
            | e ↦ (t, e, none)
          ]

      -- The answer that a key has, if it has one.
      unfoldable pub replayed_or :
          String
          → Seen
          → (asked : ℕ) → Option Progress
          → Option String
          → Grants Ip Key Value
          → Grants Ip Key Value × Answer × Option Value
      replayed_or source i asked reported none g = granted_for source i asked reported none g
      replayed_or source i asked reported (some key) g =
          let print = fingerprint (not (source =? "parent")) asked in
          let (replays, outcome) = replay g.replays key print i.instant in
          let t = record g { replays = replays } in
          elim outcome [
            | stored response ↦ (t, done, some response)
            | mismatch ↦ (t, bad_request, none)
            | fresh ↦ granted_for source i asked reported (some key) t
          ]

      unfoldable pub extra_time :
          Scope
          → ExtraTimeBody
          → KeyHeader
          → Seen
          → Grants Ip Key Value
          → Grants Ip Key Value × Answer × Option Value
      extra_time scope body header i g =
          let source = source_of name scope body in
          if not (valid_source source)
          then (g, bad_request, none)
          else elim (asked_of source body) [
            | none ↦ (g, bad_request, none)
            | some asked ↦ elim (replay_key source header) [
              | inl bad ↦ (g, bad_request, none)
              | inr key ↦ replayed_or source i asked body.progress key g
            ]
          ]

    unfoldable pub approve_time_request :
        Key → Seen → Grants Ip Key Value → Grants Ip Key Value × Answer
    approve_time_request id i g =
        let (resolved, requests) = resolve id true i.log g.requests in
        let t = record g { requests = requests } in
        elim resolved [
          | none ↦ (t, bad_request)
          | some r ↦ noted i.line_written r.minutes "request" (grant_extra unchanged i r.minutes t)
        ]

    unfoldable pub deny_time_request :
        Key → Seen → Grants Ip Key Value → Grants Ip Key Value × Answer
    deny_time_request id i g =
        let (resolved, requests) = resolve id false i.log g.requests in
        (record g { requests = requests }, elim resolved [ none ↦ bad_request | some r ↦ done ])

    unfoldable pub redeem_code :
        Net Ip
        → (List ℕ → List TimeCode.Event → Bool)
        → Ip
        → List ℕ
        → Seen
        → Grants Ip Key Value
        → Grants Ip Key Value × Answer
    redeem_code net file_contains ip input i g =
        let (limiter, admitted) = count_and_check net g.code_limiter ip i.instant in
        let t = record g { code_limiter = limiter } in
        let (outcome, codes) = TimeCode.redeem file_contains input i.log g.codes in
        let r = record t { codes = codes } in
        if not admitted then (t, too_many) else elim outcome [
          | TimeCode.granted minutes ↦
              noted i.line_written minutes "code" (grant_extra unchanged i minutes r)
          | _ ↦ (record r { cells = bump time_code r.cells }, Api.refused)
        ]

  unfoldable pub issue_time_code :
      (bytes : List ℕ) (minutes ts : ℕ)
      → Seen
      → Grants Ip Key Value
      → Grants Ip Key Value × Answer × Option (List ℕ)
  issue_time_code bytes minutes ts i g =
      if not (require_minutes minutes max_code_minutes)
      then (g, bad_request, none)
      else (let (code, codes) = TimeCode.issue bytes minutes ts i.log g.codes in
          elim code [
            | none ↦ (record g { codes = codes }, bad_request, none)
            | some c ↦ (record g { codes = codes }, done, some c)
          ])
