-- ===== src/Store/Trace.antt =====
-- src/picket/persistence/store.py: the transactions that change the table `fires`, as data, so that
-- the statements about every history of the ledger range over lists of them.
use picket_mcp.Prelude.{ℕ, Text, text_eq, Bool, false, ◌≡◌, ◌⊎◌, Option, none, some, List, [], ◌∷◌}
use picket_mcp.Store.Fire.{
  Fire, FireStatus, DeliveryStatus, pending, running, skipped_overlap, is_active,
}
use picket_mcp.Store.Ledger.{
  Finish, create_fire, claim_next_fire, finish_fire, set_delivery, set_running_pid,
}
use picket_mcp.Store.History.{recover_abandoned, prune_results}

pub data Transaction (V : Type 0) : Type 0 where
  create :
      (ℕ → ℕ) → Text → Text → FireStatus → Option Text → Option Text → V → Option V → Transaction V
  claim : (ℕ → ℕ) → Text → ℕ → ℕ → Transaction V
  finish : ℕ → Text → FireStatus → Finish → Transaction V
  deliver : ℕ → Text → DeliveryStatus → Transaction V
  set_pid : Text → ℕ → Transaction V
  recover : ℕ → Option Text → Transaction V
  prune : ℕ → Transaction V

module _ {V : Type 0} where
  unfoldable pub apply : Transaction V → List (Fire V) → List (Fire V)
  unfolding create_fire claim_next_fire finish_fire set_delivery set_running_pid recover_abandoned
      prune_results
  apply (create clock id w st rb key v p) fires = (create_fire clock id w st rb key v p fires).0
  apply (claim clock w pid lease) fires = (claim_next_fire clock w pid lease fires).0
  apply (finish now id st args) fires = finish_fire now id st args fires
  apply (deliver now id st) fires = set_delivery now id st fires
  apply (set_pid id pid) fires = set_running_pid id pid fires
  apply (recover now w) fires = (recover_abandoned now w fires).0
  apply (prune keep) fires = (prune_results keep fires).0

  unfoldable pub history : List (Transaction V) → List (Fire V) → List (Fire V)
  history [] fires = fires
  history (t ∷ ts) fires = history ts (apply t fires)

  -- The statuses that the program passes: a fire is created pending, running or as a dropped
  -- overlap, and is finished with a terminal status.
  abbrev pub IsCall : Transaction V → Type 0
  IsCall (create _ _ _ st _ _ _ _) = (st ≡ pending) ⊎ (st ≡ running) ⊎ (st ≡ skipped_overlap)
  IsCall (finish _ _ st _) = is_active st ≡ false
  IsCall _ = Unit

  -- The id of a claimed row.
  abbrev pub id_is : Text → Option (Fire V) → Bool
  id_is x none = false
  id_is x (some row) = text_eq row.fire_id x

  -- Whether the transaction leases the fire `x` to a worker.
  unfoldable pub leases : Text → Transaction V → List (Fire V) → Bool
  unfolding text_eq
  leases x (claim clock w pid lease) fires = id_is x (claim_next_fire clock w pid lease fires).1
  leases x _ fires = false

  -- Whether the transaction asks for a row with the id `x`.
  unfoldable pub creates : Text → Transaction V → Bool
  unfolding text_eq
  creates x (create _ id _ _ _ _ _ _) = text_eq id x
  creates x _ = false
