-- ===== src/Tests.antt =====
-- Tests and worked examples.
mod Base
mod Evening
mod Day
mod Budget
mod Hours
mod Earning
mod Limits
mod Codes
mod Screen
mod Access
mod Loop
mod Grants
