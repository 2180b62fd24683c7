-- ===== src/Tests.antt =====
-- Tests at concrete inputs.
mod Values
mod Domain
mod Flows
mod Callers
mod Rows
mod Providers
mod Entry
mod Reach
mod Wiring
