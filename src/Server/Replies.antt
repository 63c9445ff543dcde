-- ===== src/Server/Replies.antt =====
-- src/picket/server.py: what a tool returns and leaves behind, by the kind of its effect.
use picket_mcp.Prelude.{Text, Bool, true, false, Option, none, some, List, []}
use picket_mcp.Core.Errors.{Reply, failure, success, Tried, passed, refused, raised, ◌>>=◌}
use picket_mcp.Handler.Registry.{Disk}
use picket_mcp.Watches.Control.{Effect, Bulk}
use picket_mcp.Watches.Reconcile.{Sweep}
use picket_mcp.Server.Calls.{Answer, ServerState, Served}

module _ {N : Type 0} where
  -- A tool that sends no signal, spawns no daemon and leaves the tables alone.
  abbrev pub replied : ServerState N → Tried (Answer N × Disk) → Served N
  replied state (passed (answer, disk)) = record {
    reply = some (success answer);
    state = record state { disk = disk };
    signals = [];
    spawned = [];
  }
  replied state (refused code message) = record {
    reply = some (failure code message);
    state = state;
    signals = [];
    spawned = [];
  }
  replied state raised = record { reply = none; state = state; signals = []; spawned = [] }

  -- One that only reads.
  abbrev pub reads : ServerState N → Tried (Answer N) → Served N
  reads state tried = replied state (tried >>= λ answer. passed (answer, state.disk))

  abbrev pub answered : {A : Type 0} → (A → Answer N) → Option (Reply A) → Option (Reply (Answer N))
  answered answer none = none
  answered answer (some (success a)) = some (success (answer a))
  answered answer (some (failure code message)) = some (failure code message)

  abbrev pub effected :
      {A : Type 0} → (A → Answer N) → ServerState N → List Text → Effect N A → Served N
  effected answer state spawned effect = record {
    reply = answered answer effect.reply;
    state = record state { tables = effect.tables };
    signals = effect.signals;
    spawned = spawned;
  }

  abbrev pub bulk_reply : Bulk N → Bool → Option (Reply (Answer N))
  bulk_reply bulk true = none
  bulk_reply bulk false = some (success (Answer.stopped_all bulk.stopped bulk.failures))

  abbrev pub bulk_served : ServerState N → Reply (Bulk N) → Served N
  bulk_served state (failure code message) = replied state (refused code message)
  bulk_served state (success bulk) = record {
    reply = bulk_reply bulk bulk.raised;
    state = record state { tables = bulk.tables };
    signals = bulk.signals;
    spawned = [];
  }

  -- What was spawned stays, be the sweep left by an exception or not.
  abbrev pub swept_by : ServerState N → List Text × Option (Sweep N) → Served N
  swept_by state (spawned, none) = record {
    reply = none;
    state = state;
    signals = [];
    spawned = spawned;
  }
  swept_by state (spawned, some sweep) = record {
    reply = some (success (Answer.swept sweep.restarted sweep.recovered sweep.pruned));
    state = record state { tables = record state.tables { db = sweep.db } };
    signals = [];
    spawned = spawned;
  }

  -- A tool that has left these files, also where it raises.
  abbrev pub installed : ServerState N → Disk × Tried (Answer N × Disk) → Served N
  installed state (disk, tried) = replied (record state { disk = disk }) tried
