-- ===== src/Refusals.antt =====
-- The counters of what the program refused (src/refusals.rs). The five atomic cells are one record
-- of `u32` counters, each read and written in one step.
pub mod Counting
use nestwatch.Common.{ℕ, ◌+◌, ◌<◌, Bool, sat32, ltb}

pub record Refused : Type 0 where
  pub clock_changes : ℕ
  pub day_resets : ℕ
  pub shutdown_cancels : ℕ
  pub time_codes_refused : ℕ
  pub wrong_passwords : ℕ

abbrev pub default : Refused
default = record {
  clock_changes = 0;
  day_resets = 0;
  shutdown_cancels = 0;
  time_codes_refused = 0;
  wrong_passwords = 0;
}

unfoldable pub total : Refused → ℕ
total r =
    sat32
      (sat32 (sat32 (sat32 r.clock_changes r.day_resets) r.shutdown_cancels) r.time_codes_refused)
      r.wrong_passwords

unfoldable pub any_refused : Refused → Bool
unfolding total
any_refused r = ltb 0 (total r)

unfoldable pub merge : Refused → Refused → Refused
merge r other = record {
  clock_changes = sat32 r.clock_changes other.clock_changes;
  day_resets = sat32 r.day_resets other.day_resets;
  shutdown_cancels = sat32 r.shutdown_cancels other.shutdown_cancels;
  time_codes_refused = sat32 r.time_codes_refused other.time_codes_refused;
  wrong_passwords = sat32 r.wrong_passwords other.wrong_passwords;
}

pub data Cell : Type 0 where
  clock_change day_reset shutdown_cancel time_code wrong_password : Cell

-- `bump` of a cell, by the function that counts it.
unfoldable pub bump : Cell → Refused → Refused
bump clock_change r = record r { clock_changes = sat32 r.clock_changes 1 }
bump day_reset r = record r { day_resets = sat32 r.day_resets 1 }
bump shutdown_cancel r = record r { shutdown_cancels = sat32 r.shutdown_cancels 1 }
bump time_code r = record r { time_codes_refused = sat32 r.time_codes_refused 1 }
bump wrong_password r = record r { wrong_passwords = sat32 r.wrong_passwords 1 }

-- The cells afterwards, and what was in them.
unfoldable pub drain : Refused → Refused × Refused
drain cells = (default, cells)
