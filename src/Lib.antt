-- ===== src/Lib.antt =====
-- Nestwatch keeps a child's Windows PC within the limits that a parent sets from a phone: a bedtime
-- curfew, a daily budget of screen time, limits on programs and groups of programs, and blocked
-- programs. A service reads the running programs and the clock in two loops, decides in pure
-- functions what to do, and carries it out. This library models those decisions.
--
-- The parts and their files, with paths from the root of the repository:
--   Common, Common/*  names shared by all modules; maps as association lists, machine words, ℤ.
--   Chrono, Text      what the program uses of the chrono crate and of the strings of the standard
--                     library, as records of operations. Only laws that they document are assumed.
--   Countdown         src/countdown.rs: `Countdown` with `observe`, `observe_upcoming`, `reset`.
--   Refusals          src/refusals.rs: the five counters, `merge`, `bump` and `drain`.
--   Words             src/words.rs: the words of a group, and what they match; the known browsers
--                     (`is_browser`) of src/foreground.rs.
--   Usage, Tally      src/rules.rs: `Usage`, the day's tally, with `read_on` and `accrue`.
--   Rules             src/rules.rs: `Rules` with its budget, its targets and `validate`.
--   Enforce           src/rules.rs: `RulesEnforcer` with `accounting_day`, `stand_down`, `decide`;
--                     Enforce/Rollup is the row of a day in the history (`rollover_row`), and
--                     Enforce/Steps and Enforce/Loop one round of the loop `run_rules_enforcer`.
--   Curfew            src/curfew.rs: `Curfew` with `is_active_at`, `mins_until_active`,
--                     `undo_extension`, `validate`; Curfew/Enforcer is the state machine of bedtime
--                     and one round of the loop `run_enforcer`.
--   Clock             src/clock.rs: the recorded offset, the high-water mark and `now`.
--   Config            src/config.rs: `Provider`, `Tier`, `Gate` and `EarnedDay`, and the operations
--                     `earn`, `judge`, `note_bar_met` and `gate_cap_mins` of `Config`.
--   Throttle          `throttle_key` of src/security.rs, `SubmitLimiter` of src/timereq.rs and
--                     `LoginLimiter` of src/auth.rs.
--   Idempotency       src/idempotency.rs: the cache of answers to repeated requests.
--   Jsonl             src/jsonl.rs: `record` with the rotation, `recent`; and the loop over the newest
--                     event of each key that the next two share.
--   Token             src/token.rs: `random`, `eq_ct` and `normalize`.
--   TimeCode          src/timecode.rs: `TimeCodes` with `issue`, `active` and `redeem`.
--   TimeRequest       src/timereq.rs: `TimeRequests` with `submit`, `pending`, `latest` and `resolve`.
--   Pairing           src/pairing.rs: `mint`, `redeem` and `clear` of the one-time pairing token.
--   Foreground        src/foreground.rs: `clamp` with its helpers, and in child modules `Tracker`, which
--                     measures in the child's session, and `Feed`, the mailbox in between.
--   Screentime        src/screentime.rs: `build_report`, `recent_totals` and `first_seen_in` over the
--                     log's roll-ups.
--   Policy            src/config.rs: `Routine` and `Policy`, and `rules_at`, `policy`, `apply_policy`
--                     of `Config`.
--   Heartbeat         src/heartbeat.rs: when each loop last ran.
--   Sessions          src/sessionstore.rs: `FileSessionStore` with all its operations.
--   Auth              src/auth.rs: `login`, `logout` and `pair`, the scopes of a session
--                     (`integration_may_reach`), and `require_auth` in front of each request.
--   Password          src/auth.rs: `check_password` and `guessable`.
--   Api               src/api.rs: `try_update_config`; Api/Settings has the requests that change
--                     bedtime, rules, routines and the policy, Api/Grants those that grant time.
--   Probe             src/probe.rs: `due`, `run_once`, `providers_not_checking`, `live_gate_cap`.
-- The modules below a file hold its proofs, and are named for what they prove. Tests holds a concrete
-- run for each result below.
--
-- How they interact: a round of the curfew's loop asks Curfew for the state of bedtime at the
-- trusted time of Clock, and Countdown for the minutes to announce. A tick of the rules' loop first
-- settles the day (`accounting_day`), then `decide` builds the targets of Rules, matches the words
-- of Words, charges Tally, and answers with actions; the cap of the gates of Config and the day's
-- extra minutes adjust its budget. The round of Enforce/Loop puts these together: it charges the
-- time that passed, writes the row of a day that ended, saves the tally and asks the system for
-- what was decided. Policy says which rules those are, and Probe lifts the gates of the providers
-- that this PC cannot check. Refused changes of the clock and of the day are counted in Refusals.
-- What the tracker of Foreground measured goes through its mailbox and is clamped before the tally
-- sees it. The codes and the requests, whose minutes add to the day, are read back from the logs of
-- Jsonl.
--
-- A request reaches its handler through Auth, whose sessions Sessions keeps; the handlers of Api change
-- the configuration that both loops read, as one step with its save, and use Throttle, Idempotency,
-- TimeCode, TimeRequest and Config.
--
-- State is passed explicitly: a function that changes `&mut self` returns the new record. Statics and
-- atomics are one record, each operation on them a single step. `Instant`, `Duration` and moments are
-- numbers of nanoseconds, dates the numbers of days, `u32` and `u64` natural numbers with saturation
-- written out where the source has it, offsets integers. What the operating system answers is an input
-- of a round. Loops over slices are recursion on lists; the search for the next bedtime counts down the
-- minutes it looks ahead, as the source's range does. Only
-- `all_chunks` of Password has fuel, the length of the text: a text has no more chunks than characters.
--
-- Not modelled: the text of files and serialisation (what a write or a rename answers is an input), the
-- timers of the loops, diagnostics and the texts shown to the child, the web server, its pages and the
-- handlers that only read, the hashing of passwords, certificates, installation, the process that a
-- check of practice runs, and the calls of Windows. The digest of a pairing token, the search for a
-- text in a file and the formatting of an identifier are parameters.
pub mod Common
pub mod Chrono
pub mod Text
pub mod Countdown
pub mod Refusals
pub mod Words
pub mod Usage
pub mod Rules
pub mod Tally
pub mod Enforce
pub mod Curfew
pub mod Clock
pub mod Config
pub mod Throttle
pub mod Idempotency
pub mod Jsonl
pub mod Token
pub mod TimeCode
pub mod TimeRequest
pub mod Foreground
pub mod Pairing
pub mod Screentime
pub mod Heartbeat
pub mod Probe
pub mod Policy
pub mod Sessions
pub mod Auth
pub mod Password
pub mod Api
mod Tests
