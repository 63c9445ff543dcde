-- ===== src/Core/Errors.antt =====
-- src/picket/core/errors.py: the error codes and the failure envelope.
use picket_mcp.Prelude.{Text, Bool, true, false, Option, none, some}

pub data ErrorCode : Type 0 where
  not_found invalid_spec runbook_not_found runbook_drift daemon_spawn_failed permission_required
        endpoint_unreachable already_stopped probe_not_found probe_failed probe_drift :
      ErrorCode

-- What a tool returns: the failure envelope, or the fields beside "ok": true.
pub data Reply {ℓ} (A : Type ℓ) : Type ℓ where
  failure : ErrorCode → Text → Reply A
  success : A → Reply A

-- A step of the tool: a value, a failure that it returns, or an exception that leaves it.
pub data Tried {ℓ} (A : Type ℓ) : Type ℓ where
  passed : A → Tried A
  refused : ErrorCode → Text → Tried A
  raised : Tried A

infixl 5 ◌>>=◌
abbrev pub ◌>>=◌ {ℓ κ} : {A : Type ℓ} {B : Type κ} → Tried A → (A → Tried B) → Tried B
passed a >>= f = f a
refused code message >>= f = refused code message
raised >>= f = raised

abbrev pub or_refused {ℓ} : {A : Type ℓ} → ErrorCode → Text → Option A → Tried A
or_refused code message none = refused code message
or_refused code message (some a) = passed a

abbrev pub refuse_if {ℓ} : {A : Type ℓ} → Bool → ErrorCode → Text → Tried A → Tried A
refuse_if true code message rest = refused code message
refuse_if false code message rest = rest
