-- ===== src/Program.antt =====
-- src/picket/server.py, runtime/daemon.py and execution/handler.py together: the server's tools, the
-- daemons and their workers at work on one database, one step at a time. At most one process runs the
-- daemon of a watch. A worker's steps are its transactions on the ledger.
pub mod Healthy
pub mod Invariant
use picket_mcp.Prelude.{ℕ, Text, text_eq, ◌≡◌, Bool, true, false, Option, none, some, if◌then◌else◌}
use picket_mcp.Core.Json.{Json, Numbers}
use picket_mcp.Core.Models.{WatchState}
use picket_mcp.Store.Trace.{Transaction, apply}
use picket_mcp.Store.Watches.{read_watch}
use picket_mcp.Daemon.Window.{LocalTime}
use picket_mcp.Daemon.Poll.{Sources, Db}
use picket_mcp.Daemon.System.{IsWork}
use picket_mcp.Daemon.Loop.{LoopState, iteration, mark_stopped}
use picket_mcp.Daemon.Run.{Identity, start}
use picket_mcp.Watches.Control.{Tables}
use picket_mcp.Server.Calls.{Call, ServerState, Outside}
use picket_mcp.Server.Tools.{serve}

-- The server's state, and what each daemon that runs its loop has in memory.
pub record Program (N : Type 0) : Type 0 where
  pub server : ServerState N
  pub daemons : Text → Option (WatchState N)

module _ {N : Type 0} where
  abbrev pub set_daemon :
      Text → Option (WatchState N) → (Text → Option (WatchState N)) → Text → Option (WatchState N)
  set_daemon w daemon daemons v = if text_eq w v then daemon else daemons v

  abbrev pub with_tables : Tables N → ServerState N → ServerState N
  with_tables tables server = record server { tables = tables }

  -- A daemon that leaves its loop has no state any more.
  abbrev pub kept_if : Bool → WatchState N → Option (WatchState N)
  kept_if true state = none
  kept_if false state = some state

  -- The program after a part of a daemon's run.
  abbrev pub ran : Text → LoopState N → Program N → Program N
  ran w loop p = record {
    server = with_tables (record { db = loop.db; commands = loop.commands }) p.server;
    daemons = set_daemon w (kept_if loop.stopped loop.state) p.daemons;
  }

  -- One step: a call of a tool; a daemon that starts; a round of its loop; the end of its `_shutdown`;
  -- its end by a signal or a crash; and a transaction of a worker.
  pub data Step (num : Numbers N) (p : Program N) : Program N → Type 0 where
    call :
        (outside : Outside N) (tool : Call N)
        → Step num p (record p { server = (serve num outside tool p.server).state })
    begin :
        (self : Identity) (clock : ℕ → ℕ) (w : Text) (state : WatchState N)
        → p.daemons w ≡ none
        → read_watch w p.server.tables.db.watches ≡ some state
        → Step num p
            (ran w (start self clock w state p.server.tables.db p.server.tables.commands) p)
    round :
        (world : Sources N) (clock : ℕ → ℕ) (local : LocalTime) (fire_id w : Text)
        (state : WatchState N)
        → p.daemons w ≡ some state
        → Step num p (
            ran w
              (iteration num world clock local fire_id state p.server.tables.db
                p.server.tables.commands)
              p)
    leave :
        (now : ℕ) (w : Text)
        → p.daemons w ≡ none
        → Step num p (record p {
          server =
              with_tables
                (record p.server.tables { db = mark_stopped now w true p.server.tables.db })
                p.server;
        })
    crash : (w : Text) → Step num p (record p { daemons = set_daemon w none p.daemons })
    work :
        (t : Transaction (Json N))
        → IsWork t
        → Step num p (record p {
          server =
              with_tables
                (record p.server.tables {
                  db = record p.server.tables.db { fires = apply t p.server.tables.db.fires };
                })
                p.server;
        })

  pub data Reach (num : Numbers N) (p : Program N) : Program N → Type 0 where
    here : Reach num p p
    more : {q r : Program N} → Reach num p q → Step num q r → Reach num p r
