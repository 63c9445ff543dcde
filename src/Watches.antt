-- ===== src/Watches.antt =====
-- src/picket/runtime/watches.py and supervisor.py: the control plane.
pub mod Liveness
pub mod Control
pub mod Request
pub mod Arm
pub mod Arming
pub mod Stopping
pub mod Pausing
pub mod Reconcile
pub mod Sweeps
pub mod Spawning
pub mod Orphans
pub mod Listing
pub mod Overtaking
