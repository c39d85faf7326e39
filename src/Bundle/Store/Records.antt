-- ===== src/Bundle/Store/Records.antt =====
-- What `Get` and `Pointer` read after `Put`, `Delete`, `SetPointer` and `Purge`.
use mihomo_extension_sidecar.Common.{
  ◌⊎◌, inl, inr, ap, ◌∙◌, ◌≡◌, ◌≢◌, sym, arith, Option, Bytes, bytes_eq_refl,
}
use mihomo_extension_sidecar.Bundle.Types.{
  BundleRecord, BundlePointer, ok, err, not_found, empty_pointer,
}
use mihomo_extension_sidecar.Bundle.Id.{validate_bundle_id}
use mihomo_extension_sidecar.Bundle.Platform.{root, bundles, FilePath, temp, found, Platform, Laws}
use mihomo_extension_sidecar.Bundle.Store.{
  bundle_file, pointer_file, bundle_path, put, get, delete, pointer, set_pointer, sealed,
  sealed_pointer, check_record, check_pointer, compute_record_digest, compute_pointer_digest,
  pointer_of, write_json, purge_store,
}
use mihomo_extension_sidecar.Bundle.Store.Paths.{
  bundle_file_injective, bundle_file-ne-temp, bundle_file-ne-pointer_file,
  bundle_file-ne-temp-pointer_file, pointer_file-ne-temp,
}
use mihomo_extension_sidecar.Bundle.Store.Atomic.{
  write_json-found, write_json_frame, write_json_atomic,
}

module _ (pf : Platform) where
  open pf use {World, read_file, encode_record, decode_record}

  -- `Get` looks at one file.
  pub get_congr :
      (id : Bytes) (v w : World)
      → read_file (bundle_file id) v ≡ read_file (bundle_file id) w
      → get pf id v ≡ get pf id w
  unfolding get bundle_path
  get_congr id v w e = ground arith

  pub pointer_congr :
      (v w : World)
      → read_file pointer_file v ≡ read_file pointer_file w
      → pointer pf v ≡ pointer pf w
  unfolding pointer
  pointer_congr v w e = rw e

  pub check_record-sealed :
      (r : BundleRecord) → check_record pf r.id (sealed pf r) ≡ ok (sealed pf r)
  unfolding check_record sealed compute_record_digest
  check_record-sealed r =
      ground (arith, bytes_eq_refl (sealed pf r).record_digest, bytes_eq_refl r.id)

  put_of_valid :
      (r : BundleRecord) (w : World)
      → validate_bundle_id r.id ≡ ok tt
      → put pf r w ≡ write_json pf (bundle_file r.id) (encode_record (sealed pf r)) w
  unfolding put bundle_path
  put_of_valid r w v = ground arith

  pub put_valid :
      (r : BundleRecord) (w : World) → (put pf r w).0 ≡ ok tt → validate_bundle_id r.id ≡ ok tt
  unfolding put bundle_path
  put_valid r w h = ground arith

  get_of_found :
      (r : BundleRecord) (w : World)
      → validate_bundle_id r.id ≡ ok tt
      → read_file (bundle_file r.id) w ≡ found (encode_record (sealed pf r))
      → decode_record (encode_record (sealed pf r)) ≡ Option.some (sealed pf r)
      → get pf r.id w ≡ ok (sealed pf r)
  unfolding get bundle_path
  get_of_found r w v f d = ground (arith, check_record-sealed r)

module _ (pf : Platform) (l : Laws pf) where
  open pf use {
    World, read_file, encode_record, encode_pointer, remove, remove_bundles, make_bundles,
  }

  -- A bundle that was put is read back, sealed, and passes every integrity check.
  pub put-get :
      (r : BundleRecord) (w : World)
      → (put pf r w).0 ≡ ok tt
      → get pf r.id (put pf r w).1 ≡ ok (sealed pf r)
  put-get r w h =
      let v = put_valid pf r w h in
      let e = put_of_valid pf r w v in
      get_of_found pf r (put pf r w).1 v
        (rw e
          (write_json-found pf l (bundle_file r.id) (encode_record (sealed pf r)) w (rw e at h)))
        (l.record_round_trip (sealed pf r) (unfold sealed in v))

  pub put-get_at :
      (r : BundleRecord) (w : World) (id : Bytes)
      → r.id ≡ id
      → (put pf r w).0 ≡ ok tt
      → get pf id (put pf r w).1 ≡ ok (sealed pf r)
  put-get_at r w id e h = ap (λ i. get pf i (put pf r w).1) (sym e) ∙ put-get r w h

  put_frame :
      (q : FilePath) (r : BundleRecord) (w : World)
      → q ≢ bundle_file r.id
      → q ≢ temp (bundle_file r.id)
      → read_file q (put pf r w).1 ≡ read_file q w
  unfolding put bundle_path
  put_frame q r w np nt =
      ground
        (arith, write_json_frame pf l (bundle_file r.id) (encode_record (sealed pf r)) q w np nt)

  -- `Put` of one bundle leaves every other as it was, also when it fails halfway.
  pub get-put_ne :
      (id : Bytes) (r : BundleRecord) (w : World)
      → id ≢ r.id
      → get pf id (put pf r w).1 ≡ get pf id w
  get-put_ne id r w ne = get_congr pf id _ _ (
      put_frame (bundle_file id) r w (λ e. ne (bundle_file_injective id r.id e))
        (bundle_file-ne-temp id r.id))

  pub pointer-put : (r : BundleRecord) (w : World) → pointer pf (put pf r w).1 ≡ pointer pf w
  pointer-put r w = pointer_congr pf _ _ (
      put_frame pointer_file r w (λ e. bundle_file-ne-pointer_file r.id (sym e))
        (pointer_file-ne-temp r.id))

  pub pointer-set_pointer :
      (p : BundlePointer) (w : World)
      → (set_pointer pf p w).0 ≡ ok tt
      → pointer pf (set_pointer pf p w).1 ≡ ok (sealed_pointer pf p w)
  unfolding set_pointer pointer pointer_of check_pointer sealed_pointer compute_pointer_digest
  pointer-set_pointer p w h =
      let q = sealed_pointer pf p w in
      ground (
        arith,
        write_json-found pf l pointer_file (encode_pointer q) w h,
        l.pointer_round_trip q,
        bytes_eq_refl q.digest,
      )

  pub get-set_pointer :
      (id : Bytes) (p : BundlePointer) (w : World) → get pf id (set_pointer pf p w).1 ≡ get pf id w
  unfolding set_pointer
  get-set_pointer id p w = get_congr pf id _ _ (
      write_json_frame pf l pointer_file (encode_pointer (sealed_pointer pf p w)) (bundle_file id) w
        (bundle_file-ne-pointer_file id) (bundle_file-ne-temp-pointer_file id))

  delete_frame :
      (q : FilePath) (id : Bytes) (w : World)
      → q ≢ bundle_file id
      → read_file q (delete pf id w).1 ≡ read_file q w
  unfolding delete bundle_path
  delete_frame q id w ne = ground (
    arith,
    l.remove_frame (bundle_file id) q w ne,
    l.sync_folder_keeps bundles q (remove (bundle_file id) w).1,
  )

  pub get-delete_ne :
      (id other : Bytes) (w : World) → id ≢ other → get pf id (delete pf other w).1 ≡ get pf id w
  get-delete_ne id other w ne =
      get_congr pf id _ _
        (delete_frame (bundle_file id) other w (λ e. ne (bundle_file_injective id other e)))

  pub pointer-delete : (id : Bytes) (w : World) → pointer pf (delete pf id w).1 ≡ pointer pf w
  pointer-delete id w =
      pointer_congr pf _ _
        (delete_frame pointer_file id w (λ e. bundle_file-ne-pointer_file id (sym e)))

  -- A bundle that was deleted is not found.
  pub get-delete :
      (id : Bytes) (w : World)
      → (delete pf id w).0 ≡ ok tt
      → get pf id (delete pf id w).1 ≡ err not_found
  unfolding delete get bundle_path
  get-delete id w h = ground (
    arith,
    l.remove_gone (bundle_file id) w,
    l.sync_folder_keeps bundles (bundle_file id) (remove (bundle_file id) w).1,
  )

  -- After a purge no bundle is found.
  pub get-purge_store :
      (id : Bytes) (w : World)
      → validate_bundle_id id ≡ ok tt
      → (purge_store pf w).0 ≡ ok tt
      → get pf id (purge_store pf w).1 ≡ err not_found
  unfolding purge_store get bundle_path bundle_file
  get-purge_store id w v h =
      let f = bundle_file id in
      let w1 = (remove_bundles w).1 in
      let w2 = (remove pointer_file w1).1 in
      let w3 = (make_bundles w2).1 in
      ground (
        arith,
        l.remove_bundles_gone f.name w,
        l.remove_frame pointer_file f w1 (bundle_file-ne-pointer_file id),
        l.make_bundles_keeps f w2,
        l.sync_folder_keeps root f w3,
      )

  -- After a purge the pointer is the empty one.
  pub pointer-purge_store :
      (w : World)
      → (purge_store pf w).0 ≡ ok tt
      → pointer pf (purge_store pf w).1 ≡ ok empty_pointer
  unfolding purge_store pointer pointer_of
  pointer-purge_store w h =
      let w1 = (remove_bundles w).1 in
      let w2 = (remove pointer_file w1).1 in
      let w3 = (make_bundles w2).1 in
      ground (
        arith,
        l.remove_gone pointer_file w1,
        l.make_bundles_keeps pointer_file w2,
        l.sync_folder_keeps root pointer_file w3,
      )

  -- `Put` of a stored bundle leaves the old record or the new one, whichever step fails.
  pub put_atomic :
      (r : BundleRecord) (w : World) (id : Bytes)
      → r.id ≡ id
      → validate_bundle_id id ≡ ok tt
      → (get pf id (put pf r w).1 ≡ get pf id w) ⊎ (get pf id (put pf r w).1 ≡ ok (sealed pf r))
  put_atomic r w id same v =
      let v' : validate_bundle_id r.id ≡ ok tt = rw same v in
      let raw = encode_record (sealed pf r) in
      let e = put_of_valid pf r w v' in
      elim (write_json_atomic pf l (bundle_file r.id) raw w) [
        | inl old ↦ inl (get_congr pf id _ _ (rw (← same) (rw e old)))
        | inr new ↦ inr (
            rw (← same) (
              get_of_found pf r (put pf r w).1 v' (rw e new)
                (l.record_round_trip (sealed pf r) (unfold sealed in v'))))
      ]

  -- `SetPointer` leaves the old pointer or the new one, whichever step fails.
  pub set_pointer_atomic :
      (p : BundlePointer) (w : World)
      → (pointer pf (set_pointer pf p w).1 ≡ pointer pf w)
        ⊎ (pointer pf (set_pointer pf p w).1 ≡ ok (sealed_pointer pf p w))
  unfolding set_pointer pointer pointer_of check_pointer sealed_pointer compute_pointer_digest
  set_pointer_atomic p w =
      let q = sealed_pointer pf p w in
      ground (
        arith,
        write_json_atomic pf l pointer_file (encode_pointer q) w,
        l.pointer_round_trip q,
        bytes_eq_refl q.digest,
      )
