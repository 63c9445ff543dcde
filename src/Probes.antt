-- ===== src/Probes.antt =====
-- src/picket/conditions/probes.py: condition scripts.
pub mod Types
pub mod Verdict
pub mod Run
pub mod Verdicts
pub mod Evidence
pub mod Registry
pub mod Registration
