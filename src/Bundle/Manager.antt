-- ===== src/Bundle/Manager.antt =====
-- `bundleManager` (bundle_manager.go). Each method holds the manager's mutex, so one call is one
-- step from a manager and a world to a manager and a world. `Notice` records the calls of `publish`.
pub mod Stage
use mihomo_extension_sidecar.Common.{
  ℕ, ◌==◌, ltb, Bool, true, false, not, List, [], ◌∷◌, ◌++◌, Option, none, some, Bytes, bytes_eq,
  if◌then◌else◌, set_add, bytes_lt,
}
use mihomo_extension_sidecar.Bundle.Types.{
  staged, is_staged, BundleRecord, BundlePointer, not_found, wrong_state, invalid_document,
  unclassified, Result, ok, err,
}
use mihomo_extension_sidecar.Bundle.Id.{validate_bundle_id}
use mihomo_extension_sidecar.Bundle.Platform.{Platform}
use mihomo_extension_sidecar.Bundle.Store.{put, get, pointer}

pub data Notice : Type 0 where
  recovered : Bytes → Notice
  staged_bundle : Bytes → ℕ → Notice
  committed : Bytes → ℕ → Notice
  not_marked : Bytes → Notice
  not_listed : Notice
  not_pruned : Bytes → Notice
  pruned : Bytes → Notice
  purged : Notice

pub record Manager (Config : Type 0) : Type 0 where
  pub live : Option Config
  pub active_id : Bytes
  pub active_digest : Bytes
  pub migrated : Bool
  pub generation : ℕ
  pub staged_ids : List Bytes
  pub notices : List Notice

-- `newBundleManager`
unfoldable pub new_manager : (Config : Type 0) → Manager Config
new_manager Config = record {
  live = none;
  active_id = [];
  active_digest = [];
  migrated = false;
  generation = 0;
  staged_ids = [];
  notices = [];
}

module _ {Config : Type 0} where
  abbrev pub publish : Notice → Manager Config → Manager Config
  publish n m = record m { notices = m.notices ++ n ∷ [] }

  unfoldable pub set_active : Bytes → Bytes → Config → Manager Config → Manager Config
  set_active id digest cfg m = record m {
    live = some cfg;
    active_id = id;
    active_digest = digest;
    migrated = true;
  }

abbrev pub bundle_retained_generations : ℕ
bundle_retained_generations = 3

-- The order of the sweep: later activations first, then greater ids.
unfoldable pub newer : Bytes × ℕ → Bytes × ℕ → Bool
newer (i, a) (j, b) = if not (a == b) then ltb b a else bytes_lt j i

module _ (pf : Platform) where
  open pf use {World, Config, decode_config, module_count, sha256_hex, now}

  -- What a method returns, the manager after it, and the world after it.
  abbrev pub Outcome : Type 0 → Type 0
  Outcome A = Result A × Manager Config × World

  -- `Recover`; it writes nothing to the disk.
  recover_decoded :
      Manager Config → BundleRecord → Option Config → Result (Unit {0}) × Manager Config
  recover_decoded m r none = (err unclassified, m)
  recover_decoded m r (some cfg) =
      (ok tt, publish (recovered r.id) (set_active r.id r.digest cfg (record m { generation = 1 })))

  recover_record : Manager Config → Result BundleRecord → Result (Unit {0}) × Manager Config
  unfolding recover_decoded
  recover_record m (err e) = (err e, m)
  recover_record m (ok r) = recover_decoded m r (decode_config r.document)

  recover_pointer :
      Manager Config → Result BundlePointer → World → Result (Unit {0}) × Manager Config
  unfolding recover_record
  recover_pointer m (err e) w = (err e, m)
  recover_pointer m (ok p) w =
      if bytes_eq p.active [] then (ok tt, m) else recover_record m (get pf p.active w)

  unfoldable pub recover : Manager Config → World → Result (Unit {0}) × Manager Config
  unfolding recover_pointer set_active
  recover m w = recover_pointer m (pointer pf w) w

  -- `&bundleRecord{ID: id, State: bundleStaged, ...}`
  unfoldable pub fresh_record : Bytes → Bytes → World → BundleRecord
  fresh_record id document w = record {
    schema = 0;
    id = id;
    state = staged;
    digest = sha256_hex document;
    document = document;
    staged_at = now w;
    activated_at = 0;
    record_digest = [];
  }

  -- `Stage` when no record of that id is stored.
  stage_new : Manager Config → Bytes → Bytes → Config → World → Outcome Bytes
  stage_new m id document cfg w =
      let digest = sha256_hex document in
      let done = put pf (fresh_record id document w) w in
      elim done.0 [
        | err e ↦ (err e, m, done.1)
        | ok _ ↦ (
          ok digest,
          publish (staged_bundle id (module_count cfg))
              (record m { staged_ids = set_add id m.staged_ids }),
          done.1,
        )
      ]

  stage_found :
      Manager Config → Bytes → Bytes → Config → Result BundleRecord → World → Outcome Bytes
  unfolding stage_new
  stage_found m id document cfg (ok existing) w =
      if not (bytes_eq existing.digest (sha256_hex document))
      then (err wrong_state, m, w)
      else if is_staged existing.state
      then (ok (sha256_hex document), record m { staged_ids = set_add id m.staged_ids }, w)
      else (ok (sha256_hex document), m, w)
  stage_found m id document cfg (err not_found) w = stage_new m id document cfg w
  stage_found m id document cfg (err e) w = (err e, m, w)

  stage_decoded : Manager Config → Bytes → Bytes → Option Config → World → Outcome Bytes
  unfolding stage_found
  stage_decoded m id document none w = (err invalid_document, m, w)
  stage_decoded m id document (some cfg) w = stage_found m id document cfg (get pf id w) w

  unfoldable pub stage : Manager Config → Bytes → Bytes → World → Outcome Bytes
  unfolding stage_decoded
  stage m id document w = elim (validate_bundle_id id) [
    | err e ↦ (err e, m, w)
    | ok _ ↦ stage_decoded m id document (decode_config document) w
  ]
