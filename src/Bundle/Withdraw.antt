-- ===== src/Bundle/Withdraw.antt =====
-- `Abort` and `Purge` (bundle_manager.go), and the codes of `writeError` (control_api.go).
pub mod Laws
use mihomo_extension_sidecar.Common.{ℕ, [], Bytes, codes, none, bytes_eq, if◌then◌else◌, set_remove}
use mihomo_extension_sidecar.Bundle.Types.{
  is_active, BundleRecord, Error, not_found, wrong_state, conflict, corrupt, unsupported_schema,
  invalid_document, unclassified, Result, ok, err,
}
use mihomo_extension_sidecar.Bundle.Platform.{Platform}
use mihomo_extension_sidecar.Bundle.Store.{get, delete, purge_store}
use mihomo_extension_sidecar.Bundle.Manager.{Manager, purged, publish, Outcome}

module _ (pf : Platform) where
  open pf use {World, Config}

  abort_record : Manager Config → Bytes → Result BundleRecord → World → Outcome pf (Unit {0})
  abort_record m id (err e) w = (err e, m, w)
  abort_record m id (ok r) w =
      let done = delete pf id w in
      if is_active r.state
      then (err wrong_state, m, w)
      else (done.0, record m { staged_ids = set_remove id m.staged_ids }, done.1)

  unfoldable pub abort : Manager Config → Bytes → World → Outcome pf (Unit {0})
  unfolding abort_record
  abort m id w =
      if bytes_eq m.active_id id then (err wrong_state, m, w) else abort_record m id (get pf id w) w

  unfoldable pub withdrawn : Manager Config → Manager Config
  withdrawn m = publish purged (record m {
    live = none;
    generation = 0;
    active_id = [];
    active_digest = [];
    staged_ids = [];
  })

  -- `Purge`: the live state goes first, whatever the disk then does.
  unfoldable pub purge : Manager Config → World → Outcome pf (Unit {0})
  purge m w = let done = purge_store pf w in (done.0, withdrawn m, done.1)

-- The code and the HTTP status of an error.
unfoldable pub control_error : Error → Bytes × ℕ
control_error not_found = (codes "not_found", 404)
control_error conflict = (codes "cas_conflict", 409)
control_error wrong_state = (codes "wrong_state", 409)
control_error unsupported_schema = (codes "unsupported_schema", 400)
control_error invalid_document = (codes "invalid_document", 400)
control_error corrupt = (codes "store_corrupt", 500)
control_error unclassified = (codes "internal", 500)
