-- ===== src/Examples/Registry.antt =====
-- The theorems of the registration of a runbook and of the control channel at concrete inputs.
use picket_mcp.Prelude.{Text, codes, text_eq, ◌≡◌, refl, true, none, some, List, [], ◌∷◌}
use picket_mcp.Core.Validate.{starts_with}
use picket_mcp.Store.Ids.{is_id, id_tail, safe_id, runbook_dir}
use picket_mcp.Store.Commands.{pause, stop}
use picket_mcp.Store.Mailbox.{Event, sent, polled, acked, channel_run, mailbox_run, mailbox_step}
use picket_mcp.Store.Delivery.{channel_run-mailbox_run}
use picket_mcp.Handler.Types.{exec, Runbook}
use picket_mcp.Handler.Runbooks.{content_hash, digest_input}
use picket_mcp.Handler.Registry.{
  Disk, write_file, Library, is_relative_to, entry_hash, register_runbook,
}
use picket_mcp.Handler.Registration.{IsRegistered, register_runbook-IsRegistered}
use picket_mcp.Examples.Handler.{world}
use picket_mcp.Examples.Sample.{watch_id}

abbrev script : Text
script = codes "run.sh"

-- The hash is the text that is hashed.
abbrev registered : Runbook
registered = record {
  id = codes "rb";
  type = exec;
  entry = script;
  description = [];
  allowed_tools = [];
  content_hash = codes "run.shecho";
  version = 2;
}

abbrev pub library : Library Runbook
library = record {
  resolve = λ path. path;
  is_file = λ disk path. true;
  hashed = λ disk dir entry. some ((entry, codes "echo") ∷ []);
  names = λ disk dir. [];
  dumps = λ rb. rb.content_hash;
  loads = λ s. some registered;
}

abbrev disk : Disk
disk = (codes "/h/runbooks/rb/runbook.toml", codes "run.shecho") ∷ []

register_runbook-IsRegistered_example :
    IsRegistered world library (codes "rb") script [] disk registered
unfolding register_runbook entry_hash is_relative_to starts_with text_eq runbook_dir safe_id is_id
    id_tail content_hash digest_input write_file
register_runbook-IsRegistered_example =
    register_runbook-IsRegistered world library [] disk (codes "rb") exec script [] none 2
      registered refl (λ dir. refl) refl

-- A pause that was polled is replaced before it is acknowledged: the daemon sees the stop at its next
-- poll, and then nothing.
abbrev traffic : List Event
traffic =
    sent 1 watch_id pause ∷ polled ∷ sent 2 watch_id stop ∷ acked 3 ∷ polled ∷ acked 4 ∷ polled ∷ []

channel_run-mailbox_run_example :
    channel_run watch_id traffic (record { table = record { rows = []; last_id = 0 }; held = none })
    ≡ some pause ∷ some stop ∷ none ∷ []
unfolding mailbox_run mailbox_step text_eq
channel_run-mailbox_run_example = channel_run-mailbox_run watch_id traffic
