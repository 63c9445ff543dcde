-- ===== src/Condition.antt =====
-- src/picket/conditions/condition.py: extraction, the predicate and its baseline.
pub mod Extract
pub mod Fetch
pub mod Predicate
pub mod Trial
