-- ===== src/Watches/Orphans.antt =====
-- src/picket/runtime/watches.py and supervisor.py: what becomes of a watch whose daemon could not be
-- spawned.
use picket_mcp.Watches.Request.{Request}
