-- ===== src/Bundle/Withdraw/Laws.antt =====
-- `Abort` never withdraws what is live, and `Purge` withdraws everything.
use mihomo_extension_sidecar.Common.{
  [], none, Bytes, bytes_eq_iff, bytes_eq_refl, arith, ◌≡◌, ◌≢◌, ◌⊎◌, inl, inr, refl, false, true,
  set_mem, set_mem-set_remove,
}
use mihomo_extension_sidecar.Bundle.Types.{
  is_active, BundleRecord, empty_pointer, not_found, wrong_state, ok, err, Result-cases,
}
use mihomo_extension_sidecar.Bundle.Id.{validate_bundle_id}
use mihomo_extension_sidecar.Bundle.Platform.{Platform, Laws}
use mihomo_extension_sidecar.Bundle.Store.{get, pointer}
use mihomo_extension_sidecar.Bundle.Store.Records.{
  get-delete, get-delete_ne, pointer-delete, get-purge_store, pointer-purge_store,
}
use mihomo_extension_sidecar.Bundle.Manager.{Manager, recover, new_manager}
use mihomo_extension_sidecar.Bundle.Withdraw.{abort, purge, withdrawn}

module _ (pf : Platform) (m : Manager (Platform.Config pf)) (id : Bytes)
    (w : Platform.World pf) where
  open pf use {World, Config}

  -- An abort of the live bundle, or of one recorded active, is refused and changes nothing.
  pub abort_live :
      (m.active_id ≡ id) ⊎ ((r : BundleRecord) × (get pf id w ≡ ok r) × (is_active r.state ≡ true))
      → abort pf m id w ≡ (err wrong_state, m, w)
  unfolding abort
  abort_live (inl e) = ground (arith, bytes_eq_iff m.active_id id)
  abort_live (inr (r, g, a)) = ground arith

recover_nothing :
    (pf : Platform) (w : Platform.World pf)
    → pointer pf w ≡ ok empty_pointer
    → recover pf (new_manager (Platform.Config pf)) w ≡ (ok tt, new_manager (Platform.Config pf))
unfolding recover
recover_nothing pf w h = ground (arith, bytes_eq_refl [])

module _ (pf : Platform) (l : Laws pf) (m : Manager (Platform.Config pf)) (id : Bytes)
    (w : Platform.World pf) where
  open pf use {World, Config}

  -- An abort that goes through was of a stored bundle that is not live. It takes that bundle out of
  -- the store and off the staged set, and leaves every other bundle, the pointer and the live state.
  pub abort_ok :
      (other : Bytes)
      → other ≢ id
      → (abort pf m id w).0 ≡ ok tt
      → let (_, m', w') = abort pf m id w in
        (m.active_id ≢ id)
        × (get pf id w' ≡ err not_found)
        × (set_mem id m'.staged_ids ≡ false)
        × (m'.active_id ≡ m.active_id)
        × (m'.live ≡ m.live)
        × (pointer pf w' ≡ pointer pf w)
        × (get pf other w' ≡ get pf other w)
  unfolding abort
  abort_ok other ne h = elim (Result-cases (get pf id w)) [
    | inr (e, q) ↦ absurd (ground arith)
    | inl (r, q) ↦ (
      λ e. ground (arith, bytes_eq_iff m.active_id id),
      ground (arith, get-delete pf l id w),
      ground (arith, set_mem-set_remove id m.staged_ids),
      ground arith,
      ground arith,
      ground (arith, pointer-delete pf l id w),
      ground (arith, get-delete_ne pf l other id w ne),
    )
  ]

  -- After a purge that goes through nothing is live in memory, no bundle is stored under any valid
  -- id, and a restart recovers nothing to serve.
  pub purge_withdraws :
      validate_bundle_id id ≡ ok tt
      → (purge pf m w).0 ≡ ok tt
      → let (_, m', w') = purge pf m w in
        (m'.live ≡ none)
        × (m'.active_id ≡ [])
        × (get pf id w' ≡ err not_found)
        × (recover pf (new_manager Config) w' ≡ (ok tt, new_manager Config))
  unfolding purge withdrawn
  purge_withdraws v h = (
    refl,
    refl,
    get-purge_store pf l id w v h,
    recover_nothing pf _ (pointer-purge_store pf l w h),
  )
