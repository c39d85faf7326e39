-- ===== src/Tests/BundleRuns.antt =====
-- Runs of the bundle lifecycle on the concrete disk, and its theorems at those runs.
use mihomo_extension_sidecar.Common.{
  true, false, [], some, none, Bytes, codes, bytes_eq, ◌≡◌, ◌≢◌, refl, sort, insert_sorted,
  bytes_lt, set_add, set_mem, set_remove, ne_of_bytes_eq, ◌+◌, ◌%◌, ◌^◌, ◌⊎◌,
}
use mihomo_extension_sidecar.Bundle.Types.{
  Result, ok, err, conflict, state_text, BundleRecord, BundlePointer, not_found,
}
use mihomo_extension_sidecar.Bundle.Id.{validate_bundle_id}
use mihomo_extension_sidecar.Bundle.Platform.{temp, Platform}
use mihomo_extension_sidecar.Bundle.Commit.Live.{state_of}
use mihomo_extension_sidecar.Bundle.Commit.Durable.{commit_live, commit_recovers}
use mihomo_extension_sidecar.Bundle.Commit.Crash.{
  StaysStored, commit_keeps_replaced, commit_error_keeps,
}
use mihomo_extension_sidecar.Bundle.Store.{
  bundle_file, pointer_file, write_json, bundle_path, compute_record_digest, compute_pointer_digest,
  sealed, put, check_record, get, delete, check_pointer, pointer_of, pointer, sealed_pointer,
  set_pointer, purge_store, list, bundle_names, strip_suffix,
}
use mihomo_extension_sidecar.Bundle.Manager.{
  Manager, new_manager, set_active, newer, recover, fresh_record, stage,
}
use mihomo_extension_sidecar.Bundle.Commit.{
  candidates, prune_each, doomed, prune_superseded, prepare_commit, supersede, go_live,
  finish_commit, commit,
}
use mihomo_extension_sidecar.Tests.Disk.{Disk, read, erase, path_eq, disk_platform, disk_laws}

abbrev pub a1 : Bytes
a1 = codes "a1"

abbrev pub b2 : Bytes
b2 = codes "b2"

abbrev pub nobody : Manager Bytes
nobody = record {
  live = none;
  active_id = [];
  active_digest = [];
  migrated = false;
  generation = 0;
  staged_ids = [];
  notices = [];
}

-- Its `unfolding` line opens the whole lifecycle: a run names only this.
unfoldable pub opened : Bytes
unfolding stage get put delete bundle_path validate_bundle_id write_json temp bundle_file path_eq
    read erase bytes_eq fresh_record sealed compute_record_digest state_text set_add set_mem
    set_remove pointer pointer_of check_pointer check_record sealed_pointer compute_pointer_digest
    set_pointer pointer_file purge_store list bundle_names strip_suffix set_active newer recover
    candidates prune_each doomed prune_superseded prepare_commit supersede go_live finish_commit
    commit sort insert_sorted bytes_lt
opened = []

abbrev pub staged_a1 : Result Bytes × Manager Bytes × Disk
staged_a1 = stage disk_platform nobody a1 (codes "doc") []

abbrev pub live_a1 : Result Bytes × Manager Bytes × Disk
live_a1 = commit disk_platform staged_a1.1 a1 [] staged_a1.2

abbrev pub staged_b2 : Result Bytes × Manager Bytes × Disk
staged_b2 = stage disk_platform live_a1.1 b2 (codes "newer") live_a1.2

abbrev pub live_b2 : Result Bytes × Manager Bytes × Disk
live_b2 = commit disk_platform staged_b2.1 b2 a1 staged_b2.2

pub staged_a1_ok : staged_a1.0 ≡ ok (codes "doc")
unfolding opened
staged_a1_ok = refl

live_a1_ok : live_a1.0 ≡ ok (codes "doc")
unfolding opened
live_a1_ok = refl

live_b2_ok : live_b2.0 ≡ ok (codes "newer")
unfolding opened
live_b2_ok = refl

b2-ne-live : staged_b2.1.active_id ≢ b2
unfolding opened
b2-ne-live = ne_of_bytes_eq (codes "a1") (codes "b2") refl

commit_recovers_example :
    ((recover disk_platform (new_manager Bytes) live_b2.2).0 ≡ ok tt)
    × ((recover disk_platform (new_manager Bytes) live_b2.2).1.live ≡ live_b2.1.live)
    × ((recover disk_platform (new_manager Bytes) live_b2.2).1.active_id ≡ live_b2.1.active_id)
    × ((recover disk_platform (new_manager Bytes) live_b2.2).1.active_digest
        ≡ live_b2.1.active_digest)
commit_recovers_example =
    commit_recovers disk_platform disk_laws staged_b2.1 b2 a1 staged_b2.2 b2-ne-live live_b2_ok

commit_live_example :
    (r : BundleRecord) × (cfg : Bytes) × (get disk_platform b2 staged_b2.2 ≡ ok r)
    × (Platform.decode_config disk_platform r.document ≡ some cfg)
    × (codes "newer" ≡ r.digest)
    × (state_of live_b2.1 ≡ record {
      live = some cfg;
      active_id = b2;
      active_digest = r.digest;
      migrated = true;
      generation = (staged_b2.1.generation + 1) % 2 ^ 64;
      staged_ids = set_remove b2 staged_b2.1.staged_ids;
      notices = [];
    })
commit_live_example = commit_live disk_platform staged_b2.1 b2 a1 staged_b2.2 b2-ne-live live_b2_ok

-- A commit that expects nothing to be live, where `a1` is.
conflicting : (commit disk_platform staged_b2.1 b2 [] staged_b2.2).0 ≡ err conflict
unfolding opened
conflicting = refl

-- A commit of a bundle that was never staged.
missing : (commit disk_platform live_a1.1 b2 a1 live_a1.2).0 ≡ err not_found
unfolding opened
missing = refl

missing-ne-live : live_a1.1.active_id ≢ b2
unfolding opened
missing-ne-live = ne_of_bytes_eq (codes "a1") (codes "b2") refl

commit_error_keeps_example :
    let w' = (commit disk_platform live_a1.1 b2 a1 live_a1.2).2 in
    (get disk_platform live_a1.1.active_id w' ≡ get disk_platform live_a1.1.active_id live_a1.2)
    × ((pointer disk_platform w' ≡ pointer disk_platform live_a1.2)
        ⊎ ((q : BundlePointer) × (pointer disk_platform w' ≡ ok q) × (q.active ≡ b2)))
commit_error_keeps_example =
    commit_error_keeps disk_platform disk_laws live_a1.1 b2 live_a1.2 missing-ne-live a1 missing

stored_a1 : (r : BundleRecord) × (get disk_platform staged_b2.1.active_id staged_b2.2 ≡ ok r)
unfolding opened
stored_a1 = (_, refl)

commit_keeps_replaced_example :
    StaysStored disk_platform staged_b2.1.active_id stored_a1.0 live_b2.2
commit_keeps_replaced_example =
    commit_keeps_replaced disk_platform disk_laws staged_b2.1 b2 staged_b2.2 b2-ne-live a1
      stored_a1.0 live_b2_ok stored_a1.1
