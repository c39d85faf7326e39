-- ===== src/Tests/BundleStages.antt =====
-- The theorems on staging, aborting, purging and sweeping at concrete runs.
use mihomo_extension_sidecar.Common.{
  [], none, Bytes, codes, ◌≡◌, ◌≢◌, refl, ◌⊎◌, ne_of_bytes_eq, arith,
}
use mihomo_extension_sidecar.Bundle.Types.{BundleRecord, ok, err, not_found}
use mihomo_extension_sidecar.Bundle.Id.{validate_bundle_id}
use mihomo_extension_sidecar.Bundle.Platform.{Platform, found}
use mihomo_extension_sidecar.Bundle.Store.{bundle_file, write_json, get}
use mihomo_extension_sidecar.Bundle.Store.Atomic.{write_json_atomic}
use mihomo_extension_sidecar.Bundle.Manager.{new_manager, recover}
use mihomo_extension_sidecar.Bundle.Withdraw.{abort, purge}
use mihomo_extension_sidecar.Bundle.Withdraw.Laws.{purge_withdraws}
use mihomo_extension_sidecar.Tests.Disk.{read, disk_platform, disk_laws}
use mihomo_extension_sidecar.Tests.BundleRuns.{opened, a1, b2, staged_a1, live_a1, staged_b2}

staged_a1_stored : (r : BundleRecord) × (get disk_platform a1 staged_a1.2 ≡ ok r)
unfolding opened
staged_a1_stored = (_, refl)

a1_valid : validate_bundle_id a1 ≡ ok tt
unfolding opened
a1_valid = refl

write_json_atomic_example :
    (read (bundle_file a1) (write_json disk_platform (bundle_file a1) (codes "x") live_a1.2).1
      ≡ read (bundle_file a1) live_a1.2)
    ⊎ (read (bundle_file a1) (write_json disk_platform (bundle_file a1) (codes "x") live_a1.2).1
        ≡ found (codes "x"))
write_json_atomic_example =
    write_json_atomic disk_platform disk_laws (bundle_file a1) (codes "x") live_a1.2

aborted : (abort disk_platform staged_b2.1 b2 staged_b2.2).0 ≡ ok tt
unfolding opened abort
aborted = refl

a1-ne-b2 : a1 ≢ b2
unfolding opened
a1-ne-b2 = ne_of_bytes_eq a1 b2 refl

purge_done : (purge disk_platform live_a1.1 live_a1.2).0 ≡ ok tt
unfolding opened purge
purge_done = refl

purge_withdraws_example :
    let (_, m', w') = purge disk_platform live_a1.1 live_a1.2 in
    (m'.live ≡ none)
    × (m'.active_id ≡ [])
    × (get disk_platform a1 w' ≡ err not_found)
    × (recover disk_platform (new_manager Bytes) w' ≡ (ok tt, new_manager Bytes))
purge_withdraws_example =
    purge_withdraws disk_platform disk_laws live_a1.1 a1 live_a1.2 a1_valid purge_done

a1_changed : staged_a1_stored.0.digest ≢ codes "other"
unfolding opened staged_a1_stored
a1_changed = ne_of_bytes_eq _ _ refl

other_decodes : Platform.decode_config disk_platform (codes "other") ≢ none
other_decodes e = ground arith
