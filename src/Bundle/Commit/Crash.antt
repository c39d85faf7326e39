-- ===== src/Bundle/Commit/Crash.antt =====
-- What a commit keeps: the bundle that it replaces, and, where it fails, the bundle being served.
use mihomo_extension_sidecar.Common.{
  [], Bytes, bytes_eq_iff, bytes_eq_ne, arith, ◌≡◌, ◌≢◌, ◌⊎◌, inl, inr, ◌∙◌, refl, Option-cases,
}
use mihomo_extension_sidecar.Bundle.Types.{
  superseded, BundleRecord, BundlePointer, Error, ok, err, Result-cases,
}
use mihomo_extension_sidecar.Bundle.Platform.{Platform, Laws}
use mihomo_extension_sidecar.Bundle.Store.{get, put, pointer, sealed, sealed_pointer}
use mihomo_extension_sidecar.Bundle.Store.Records.{
  get-put_ne, pointer-put, get-set_pointer, put_atomic, set_pointer_atomic,
}
use mihomo_extension_sidecar.Bundle.Manager.{Manager}
use mihomo_extension_sidecar.Bundle.Commit.{
  live_record, next_pointer, prepare_commit, finish_commit, commit, supersede, go_live,
}
use mihomo_extension_sidecar.Bundle.Commit.Prune.{prune_superseded-get}
use mihomo_extension_sidecar.Bundle.Commit.Steps.{Prepared}
use mihomo_extension_sidecar.Bundle.Commit.Durable.{get-id, get-valid, valid-ne-nil, commit-finish}

-- A record of this id with the same document and digest is stored.
abbrev pub StaysStored : (pf : Platform) → Bytes → BundleRecord → Platform.World pf → Type 0
StaysStored pf id r w =
    (r' : BundleRecord) × (get pf id w ≡ ok r')
    × (r'.document ≡ r.document)
    × (r'.digest ≡ r.digest)

module _ (pf : Platform) (l : Laws pf) where
  open pf use {World, Config, decode_config}

  supersede-StaysStored :
      (m : Manager Config) (id : Bytes) (w : World) (prev : BundleRecord)
      → get pf id w ≡ ok prev
      → StaysStored pf id prev (supersede pf m id w).1
  unfolding supersede sealed
  supersede-StaysStored m id w prev g =
      let r = record prev { state = superseded } in
      let named = bytes_eq_ne id [] (valid-ne-nil pf id (get-valid pf id w g)) in
      elim (put_atomic pf l r w id (get-id pf id w g) (get-valid pf id w g)) [
        | inl old ↦ (prev, ground arith, refl, refl)
        | inr new ↦ (sealed pf r, ground arith, refl, refl)
      ]

  module _ (m : Manager Config) (id : Bytes) (w : World) (ne : m.active_id ≢ id) where
    Prepared-get_ne :
        (p : Prepared pf id m.active_id w) → get pf m.active_id p.world ≡ get pf m.active_id w
    Prepared-get_ne p =
        let r = live_record pf p.stored w in
        let next = next_pointer id m.active_id in
        rw p.world_is (
          get-set_pointer pf l m.active_id next (put pf r w).1
          ∙ get-put_ne pf l m.active_id r w (λ e. ne (e ∙ get-id pf id w p.stored_is)))

    -- A commit of a bundle other than the live one, if it goes through, keeps the stored bundle that
    -- it replaces: the same document under the same digest stays stored for a rollback.
    pub commit_keeps_replaced :
        (expected : Bytes) {d : Bytes} (prev : BundleRecord)
        → (commit pf m id expected w).0 ≡ ok d
        → get pf m.active_id w ≡ ok prev
        → StaysStored pf m.active_id prev (commit pf m id expected w).2
    unfolding finish_commit
    commit_keeps_replaced expected prev h g =
        let (p, e) = commit-finish pf m id expected w ne h in
        let marked = supersede pf m m.active_id p.world in
        let live = go_live pf marked.0 id (live_record pf p.stored w) p.config in
        let (r, is, document, digest) =
          supersede-StaysStored m m.active_id p.world prev (Prepared-get_ne p ∙ g) in
        (
          r,
          rw e (prune_superseded-get pf l live m.active_id m.active_id marked.1 (inl refl) ∙ is),
          document,
          digest,
        )

    prepare_commit-get_ne :
        get pf m.active_id (prepare_commit pf id m.active_id w).1 ≡ get pf m.active_id w
    unfolding prepare_commit
    prepare_commit-get_ne = elim (Result-cases (get pf id w)) [
      | inr (e, q) ↦ ground arith
      | inl (r, q) ↦
          let r' = live_record pf r w in
          let kept = get-put_ne pf l m.active_id r' w (λ e. ne (e ∙ get-id pf id w q)) in
          let next = next_pointer id m.active_id in
          ground (arith, kept, get-set_pointer pf l m.active_id next (put pf r' w).1)
    ]

    prepare_commit-pointer :
        (pointer pf (prepare_commit pf id m.active_id w).1 ≡ pointer pf w)
        ⊎ ((q : BundlePointer) × (pointer pf (prepare_commit pf id m.active_id w).1 ≡ ok q)
            × (q.active ≡ id))
    unfolding prepare_commit sealed_pointer
    prepare_commit-pointer = elim (Result-cases (get pf id w)) [
      | inr (e, q) ↦ inl (ground arith)
      | inl (r, q) ↦
          let r' = live_record pf r w in
          let next = next_pointer id m.active_id in
          let w1 = (put pf r' w).1 in
          elim (set_pointer_atomic pf l next w1) [
            | inl old ↦ inl (ground (arith, pointer-put pf l r' w))
            | inr new ↦ elim (Option-cases (decode_config r.document)) [
              | inl none_is ↦ inl (ground arith)
              | inr (cfg, c) ↦ elim (Result-cases (put pf r' w).0) [
                | inr (e, failed) ↦ inl (ground (arith, pointer-put pf l r' w))
                | inl (_, done) ↦ inr (sealed_pointer pf next w1, ground arith, refl)
              ]
            ]
          ]
    ]

    -- A commit of a bundle other than the live one that fails, at whichever step, loses neither the
    -- bundle being served, which reads as before, nor the pointer, which reads as before or already
    -- names the new bundle.
    pub commit_error_keeps :
        (expected : Bytes) {e : Error}
        → (commit pf m id expected w).0 ≡ err e
        → let w' = (commit pf m id expected w).2 in
          (get pf m.active_id w' ≡ get pf m.active_id w)
          × ((pointer pf w' ≡ pointer pf w)
              ⊎ ((q : BundlePointer) × (pointer pf w' ≡ ok q) × (q.active ≡ id)))
    unfolding commit finish_commit
    commit_error_keeps expected h =
        ground (arith, prepare_commit-get_ne, prepare_commit-pointer, bytes_eq_iff m.active_id id)
