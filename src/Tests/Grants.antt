-- ===== src/Tests/Grants.antt =====
-- Requests of the parent, an integration and the child to the API.
use nestwatch.Common.{
  ℕ, ◌≡◌, refl, String, Bool, true, false, Option, none, some, List, [], ◌∷◌, arith,
}
use nestwatch.Common.Keyed.{nat_keys, string_keys, lookup, IsMap, insert}
use nestwatch.Curfew.{no_days}
use nestwatch.Curfew
use nestwatch.Rules
use nestwatch.Words
use nestwatch.Rules.{Rules}
use nestwatch.TimeCode
use nestwatch.Policy
use nestwatch.Policy.{Household, Routine, en, policy}
use nestwatch.Config.{Config, Provider}
use nestwatch.Config
use nestwatch.Pairing.{dashboard, integration}
use nestwatch.Jsonl.{empty_log, open_events, recent}
use nestwatch.Refusals
use nestwatch.Api.{done, try_update_config, require_minutes}
use nestwatch.Api.Settings
use nestwatch.Api.Settings.{
  SaveRoutineBody, Request, save_routine, apply_routine, extend_curfew, set_curfew,
  undo_curfew_extension, handle_save_routine, handle_apply_routine, put_routine,
}
use nestwatch.Api.Settings.Valid.{run-IsValid}
use nestwatch.Api.Settings.Presets.{apply-save}
use nestwatch.Idempotency.{replay, prune, record_response}
use nestwatch.Api.Grants.{
  valid_source, replayed_or, granted_for, settle, judged, Grants, Seen, ExtraTimeBody, key_text,
  no_key, extra_time, issue_time_code,
}
use nestwatch.Api.Grants.Accounts.{Accounts}
use nestwatch.Api.Grants.Ledger.{World, Step, extra, issuing, redeeming, run, run-Accounts}
use nestwatch.Api.Grants.Retry.{extra_time-Repeats}
use nestwatch.Tests.Base.{calendar, ascii, schoolday, bedtime, at_minute}

abbrev family : Household
family = record { curfew = bedtime; rules = schoolday; routines = []; language = en }

abbrev at : ℕ → Settings.Io
at m = record { now = at_minute m; saved = true }

abbrev homework : SaveRoutineBody
homework = record {
  name = "Homework";
  rules = record schoolday { daily_budget_mins = 30 };
  schedule = record { start = "21:00"; end = "07:00"; days = no_days } ∷ [];
}

abbrev asked : List (Settings.Io × Request)
asked =
    (at 600, save_routine homework)
    ∷ (at 610, extend_curfew 30)
    ∷ (at 620, extend_curfew 0)
    ∷ (record { now = at_minute 630; saved = false }, apply_routine "Homework")
    ∷ (at 640, undo_curfew_extension)
    ∷ []

abbrev changes : Household → Household → Bool
changes c d = false

family-valid : Policy.validate calendar ascii (policy family) ≡ none
unfolding Policy.validate policy Curfew.validate Curfew.validate_windows Rules.validate
    Rules.days_too_big Rules.limits_too_big Rules.too_long Rules.check_groups Rules.check
    Rules.check_each Words.normalise Policy.validate_routines
family-valid = refl

homework-saved : (handle_save_routine calendar ascii changes (at 600) homework family).1 ≡ done
unfolding handle_save_routine Curfew.validate_windows Rules.validate Rules.days_too_big
    Rules.limits_too_big Rules.too_long Rules.check_groups Rules.check Rules.check_each
    Words.normalise put_routine try_update_config
homework-saved = refl

run-IsValid_example :
    Policy.validate calendar ascii (policy (Settings.run calendar ascii changes family asked))
    ≡ none
run-IsValid_example = run-IsValid calendar ascii changes family asked (λ s. refl) family-valid

apply-save_example :
    let (d, answer) =
      handle_apply_routine calendar ascii changes
        (at 700)
        "Homework"
        (handle_save_routine calendar ascii changes (at 600) homework family).0 in
    (answer ≡ done) × (d.rules ≡ record homework.rules { enabled = true }) × (d.curfew ≡ bedtime)
apply-save_example =
    apply-save calendar ascii changes (at 600) (at 700) homework family homework-saved refl

abbrev home : Config
home = record {
  providers =
      (
        "maths",
        record { enabled = true; minutes = 20; daily_cap_mins = none; tiers = []; gate = none },
      )
      ∷ [];
  earned = [];
  extra = record { date = none; minutes = 0 };
}

abbrev start : Grants ℕ ℕ ℕ
start = record {
  config = home;
  replays = [];
  codes = empty_log;
  requests = record { log = empty_log; counter = 0 };
  code_limiter = record { inner = []; max_per_window = 5; window = 60 };
  request_limiter = record { inner = []; max_per_window = 5; window = 60 };
  lines = [];
  cells = Refusals.default;
}

abbrev seen : ℕ → Seen
seen t = record {
  line_written = true;
  today = 10;
  instant = t;
  saved = true;
  log = record {
    over_size = false;
    renamed = false;
    discarded = false;
    marker_written = false;
    written = true;
  };
}

abbrev name : List ℕ → String
name s = "maths"

abbrev render : Option Config.Refused → ℕ → ℕ
render none minutes = minutes
render (some why) minutes = 1000

abbrev fingerprint : Bool → ℕ → ℕ
fingerprint robot minutes = minutes

abbrev world : World ℕ ℕ
world = record {
  net = record { to_canonical = λ ip. ip; is_loopback = λ ip. false; localhost = 0 };
  unchanged = λ c d. false;
  name = name;
  render = render;
  fingerprint = fingerprint;
  file_contains = λ code events. true;
}

abbrev thirty : ExtraTimeBody
thirty = record { minutes = some 30; source = none; progress = none }

-- The parent grants with a key, twice; the maths provider reports; a code is issued and tried.
abbrev day : List (Seen × Step ℕ ℕ)
day =
    (seen 1, extra dashboard thirty (key_text "a"))
    ∷ (seen 2, extra dashboard thirty (key_text "a"))
    ∷ (seen 3, extra (integration []) thirty no_key)
    ∷ (seen 4, issuing (1 ∷ 2 ∷ 3 ∷ 4 ∷ 5 ∷ 6 ∷ []) 20 0)
    ∷ (seen 5, redeeming 7 (50 ∷ 51 ∷ []))
    ∷ []

run-Accounts_example : Accounts 10 start (run world start day)
run-Accounts_example =
    run-Accounts world 10 start day
      ((refl, refl), ((refl, refl), ((refl, refl), ((refl, refl), ((refl, refl), tt)))))
      (unfold Config.for_day in omega arith)

first-done :
    (extra_time
      (λ c d. false)
      name
      render
      fingerprint
      dashboard
      thirty
      (key_text "a")
      (seen 1)
      start).1
    ≡ done
unfolding extra_time valid_source replayed_or granted_for settle judged replay prune lookup
    require_minutes try_update_config
first-done = refl

-- In between a code was issued.
abbrev later : Grants ℕ ℕ ℕ
later =
    (issue_time_code (1 ∷ 2 ∷ 3 ∷ 4 ∷ 5 ∷ 6 ∷ []) 20 0 (seen 4)
      (extra_time (λ c d. false) name render fingerprint dashboard thirty (key_text "a") (seen 1)
        start).0).0

later-IsMap : IsMap later.replays
unfolding extra_time valid_source replayed_or granted_for settle judged replay prune lookup
    require_minutes try_update_config record_response issue_time_code insert TimeCode.issue
    TimeCode.active open_events recent
later-IsMap = (tt, tt)

later-held :
    lookup "parent:a" later.replays
    ≡ lookup "parent:a"
        (extra_time
          (λ c d. false)
          name
          render
          fingerprint
          dashboard
          thirty
          (key_text "a")
          (seen 1)
          start).0.replays
unfolding issue_time_code extra_time require_minutes valid_source TimeCode.issue replayed_or
    TimeCode.active replay open_events lookup recent granted_for settle judged try_update_config
later-held = refl

extra_time-Repeats_example :
    let first =
      extra_time
        (λ c d. false)
        name
        render
        fingerprint
        dashboard
        thirty
        (key_text "a")
        (seen 1)
        start in
    let second =
      extra_time
        (λ c d. false)
        name
        render
        fingerprint
        dashboard
        thirty
        (key_text "a")
        (seen 9)
        later in
    (second.1 ≡ done)
    × (second.2 ≡ first.2)
    × (second.0.config ≡ later.config)
    × (second.0.lines ≡ later.lines)
extra_time-Repeats_example =
    extra_time-Repeats (λ c d. false) name render fingerprint dashboard thirty none "a" "parent:a"
      (seen 1) (seen 9) start later tt later-IsMap refl (unfold lookup in refl) (omega arith)
      first-done later-held
