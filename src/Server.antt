-- ===== src/Server.antt =====
-- src/picket/server.py and persistence/audit.py: the tools.
pub mod Audit
pub mod Calls
pub mod Replies
pub mod Tools
pub mod Changes
pub mod Serving
pub mod Resting
pub mod Sequences
pub mod Failures
