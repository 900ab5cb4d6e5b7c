-- ===== src/Tests.antt =====
-- The theorems at concrete inputs.
mod Data
mod Limits
mod Enrollment
mod Overlay
mod Tokens
mod Endpoints
mod Runs
mod Series
mod Commands
mod Migration
mod Heartbeats
mod Races
mod Deliveries
mod Lifetimes
mod Startup
