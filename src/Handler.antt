-- ===== src/Handler.antt =====
-- src/picket/execution/handler.py: the execution of one fire.
pub mod Types
pub mod Runbooks
pub mod Attempts
pub mod Retries
pub mod Payload
pub mod Deliver
pub mod Run
pub mod Worker
pub mod Ends
pub mod Standalone
pub mod Drain
pub mod Draining
pub mod Completion
pub mod Registry
pub mod Registration
