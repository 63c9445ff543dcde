-- ===== src/Daemon.antt =====
-- src/picket/runtime/daemon.py: the scheduler of one watch.
pub mod Decimal
pub mod Window
pub mod Hours
pub mod Poll
pub mod System
pub mod Work
pub mod DryRun
pub mod Enqueue
pub mod Episodes
pub mod Gates
pub mod Keys
pub mod Overwrite
pub mod Loop
pub mod Obedience
pub mod Limits
pub mod Run
pub mod Upkeep
pub mod Endings
pub mod Rounds
