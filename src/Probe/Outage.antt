-- ===== src/Probe/Outage.antt =====
-- An outage of the checks only loosens the day (src/probe.rs, `live_gate_cap`).
use nestwatch.Common.{ℕ, ◌≤◌, Option, none, some}
use nestwatch.Common.Keyed.{string_keys}
use nestwatch.Config.{Config}
use nestwatch.Probe.{Probe}

-- A cap is no tighter than another; no cap is the loosest.
abbrev pub NoTighter : Option ℕ → Option ℕ → Type 0
NoTighter none base = Unit
NoTighter (some m) none = ⊥
NoTighter (some m) (some n) = n ≤ m
