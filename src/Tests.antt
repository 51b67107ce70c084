-- ===== src/Tests.antt =====
-- The theorems at work on concrete inputs, component by component; `Fixtures` has the inputs.
mod Fixtures
mod Hashes
mod Breakers
mod Sessions
mod Limits
mod Payments
mod Decisions
mod Streams
mod Facilitation
mod Clients
mod Stores
mod Starts
mod Demos
