-- ===== src/Examples.antt =====
-- Sample data, tests of the definitions on it, and the theorems at concrete inputs.
mod Sample
mod Ledger
mod Scheduler
mod Handler
mod Conditions
mod Control
mod Specs
mod Registry
mod Drain
mod Running
mod Serving
mod Files
