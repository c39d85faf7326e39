-- ===== src/Bundle/Commit/Durable.antt =====
-- What a commit leaves on the disk: a restart serves the committed bundle, and the one replaced is
-- kept for a rollback.
use mihomo_extension_sidecar.Common.{
  ◌+◌, ◌%◌, ◌^◌, true, [], some, Bytes, bytes_eq_iff, bytes_eq_ne, arith, ◌≡◌, ◌≢◌, inl, inr, ◌∙◌,
  refl, ap, sym, set_remove,
}
use mihomo_extension_sidecar.Bundle.Types.{
  superseded, BundleRecord, BundlePointer, ok, Result-cases,
}
use mihomo_extension_sidecar.Bundle.Id.{validate_bundle_id}
use mihomo_extension_sidecar.Bundle.Platform.{Platform, Laws}
use mihomo_extension_sidecar.Bundle.Store.{
  get, put, pointer, sealed, sealed_pointer, check_record, bundle_path,
}
use mihomo_extension_sidecar.Bundle.Store.Records.{
  put-get_at, get-put_ne, pointer-put, pointer-set_pointer, get-set_pointer,
}
use mihomo_extension_sidecar.Bundle.Manager.{Manager, new_manager, recover}
use mihomo_extension_sidecar.Bundle.Commit.{
  live_record, next_pointer, prepare_commit, finish_commit, commit, supersede, go_live,
}
use mihomo_extension_sidecar.Bundle.Commit.Live.{
  state_of, prune_superseded-state_of, supersede-state_of,
}
use mihomo_extension_sidecar.Bundle.Commit.Prune.{prune_superseded-get, prune_superseded-pointer}
use mihomo_extension_sidecar.Bundle.Commit.Steps.{Prepared, prepare_commit-Prepared}

module _ (pf : Platform) where
  open pf use {World, Config, decode_config}

  -- `Get` checks that a record carries the id it is stored under.
  pub get-id : (id : Bytes) (w : World) {r : BundleRecord} → get pf id w ≡ ok r → r.id ≡ id
  unfolding get check_record
  get-id id w {r} h = ground (arith, bytes_eq_iff r.id id)

  pub get-valid :
      (id : Bytes) (w : World) {r : BundleRecord}
      → get pf id w ≡ ok r
      → validate_bundle_id id ≡ ok tt
  unfolding get bundle_path
  get-valid id w h = ground arith

  pub valid-ne-nil : (id : Bytes) → validate_bundle_id id ≡ ok tt → id ≢ []
  unfolding validate_bundle_id
  valid-ne-nil id v e = cc (rw e at v)

  -- A commit that goes through, of a bundle that is not the live one, runs every step in order.
  pub commit-finish :
      (m : Manager Config) (id expected : Bytes) (w : World) {d : Bytes}
      → m.active_id ≢ id
      → (commit pf m id expected w).0 ≡ ok d
      → (p : Prepared pf id m.active_id w) × (commit pf m id expected w
          ≡ finish_commit pf m id m.active_id (live_record pf p.stored w) p.config p.world)
  unfolding commit
  commit-finish m id expected w ne h = elim (Result-cases (prepare_commit pf id m.active_id w).0) [
    | inr (e, q) ↦ absurd (ground (arith, bytes_eq_iff m.active_id id))
    | inl (x, q) ↦
        let p = prepare_commit-Prepared pf id m.active_id w q in
        (p, ground (arith, bytes_eq_iff m.active_id id, p.result_is))
  ]

  finish_commit_state :
      (m : Manager Config) (id : Bytes) (r : BundleRecord) (cfg : Config) (w : World)
      → let m' = (finish_commit pf m id m.active_id r cfg w).1 in
        (m'.live ≡ some cfg) × (m'.active_id ≡ id) × (m'.active_digest ≡ r.digest)
  unfolding finish_commit go_live
  finish_commit_state m id r cfg w =
      let marked = supersede pf m m.active_id w in
      let same = prune_superseded-state_of pf (go_live pf marked.0 id r cfg) m.active_id marked.1 in
      (ap Manager.live same, ap Manager.active_id same, ap Manager.active_digest same)

  -- A commit of a bundle other than the live one, if it goes through, makes the stored document live,
  -- decoded, under its digest, advances the generation by one, and takes the id off the staged set.
  pub commit_live :
      (m : Manager Config) (id expected : Bytes) (w : World) {d : Bytes}
      → m.active_id ≢ id
      → (commit pf m id expected w).0 ≡ ok d
      → (r : BundleRecord) × (cfg : Config) × (get pf id w ≡ ok r)
        × (decode_config r.document ≡ some cfg)
        × (d ≡ r.digest)
        × (state_of (commit pf m id expected w).1 ≡ record {
          live = some cfg;
          active_id = id;
          active_digest = r.digest;
          migrated = true;
          generation = (m.generation + 1) % 2 ^ 64;
          staged_ids = set_remove id m.staged_ids;
          notices = [];
        })
  unfolding finish_commit go_live
  commit_live m id expected w ne h =
      let (p, e) = commit-finish m id expected w ne h in
      let r = live_record pf p.stored w in
      let marked = supersede pf m m.active_id p.world in
      (
        p.stored,
        p.config,
        p.stored_is,
        p.config_is,
        ground (arith, e),
        rw e (
            prune_superseded-state_of pf (go_live pf marked.0 id r p.config) m.active_id marked.1
            ∙ ground (arith, supersede-state_of pf m m.active_id p.world)),
      )

module _ (pf : Platform) (l : Laws pf) where
  open pf use {World, Config, decode_config}

  supersede-get_ne :
      (m : Manager Config) (current id : Bytes) (w : World)
      → id ≢ current
      → get pf id (supersede pf m current w).1 ≡ get pf id w
  unfolding supersede
  supersede-get_ne m current id w ne = elim (Result-cases (get pf current w)) [
    | inr (e, q) ↦ ground arith
    | inl (prev, q) ↦ ground (
      arith,
      get-id pf current w q,
      get-put_ne pf l id (record prev { state = superseded }) w
          (λ e. ne (e ∙ get-id pf current w q)),
    )
  ]

  supersede-pointer :
      (m : Manager Config) (current : Bytes) (w : World)
      → pointer pf (supersede pf m current w).1 ≡ pointer pf w
  unfolding supersede
  supersede-pointer m current w = elim (Result-cases (get pf current w)) [
    | inr (e, q) ↦ ground arith
    | inl (prev, q) ↦ ground (arith, pointer-put pf l (record prev { state = superseded }) w)
  ]

  module _ (m : Manager Config) (id : Bytes) (w : World) (p : Prepared pf id m.active_id w) where
    Prepared-get : get pf id p.world ≡ ok (sealed pf (live_record pf p.stored w))
    Prepared-get =
        let r = live_record pf p.stored w in
        let same = get-id pf id w p.stored_is in
        rw p.world_is (
          get-set_pointer pf l id (next_pointer id m.active_id) (put pf r w).1
          ∙ put-get_at pf l r w id same p.put_ok)

    Prepared-pointer :
        pointer pf p.world
        ≡ ok (
            sealed_pointer pf
              (next_pointer id m.active_id)
              (put pf (live_record pf p.stored w) w).1)
    Prepared-pointer = rw p.world_is (
        pointer-set_pointer pf l (next_pointer id m.active_id)
          (put pf (live_record pf p.stored w) w).1 p.pointer_ok)

    finish_commit-get :
        m.active_id ≢ id
        → get pf id
            (finish_commit pf m id m.active_id (live_record pf p.stored w) p.config p.world).2
          ≡ ok (sealed pf (live_record pf p.stored w))
    unfolding finish_commit
    finish_commit-get ne =
        let r = live_record pf p.stored w in
        let marked = supersede pf m m.active_id p.world in
        let kept = supersede-get_ne m m.active_id id p.world (λ e. ne (sym e)) ∙ Prepared-get in
        prune_superseded-get pf l (go_live pf marked.0 id r p.config) m.active_id id marked.1
          (inr (λ s q. unfold sealed in ground (arith, kept)))
        ∙ kept

    finish_commit-pointer :
        pointer pf
          (finish_commit pf m id m.active_id (live_record pf p.stored w) p.config p.world).2
        ≡ ok (
            sealed_pointer pf
              (next_pointer id m.active_id)
              (put pf (live_record pf p.stored w) w).1)
    unfolding finish_commit
    finish_commit-pointer =
        let r = live_record pf p.stored w in
        let marked = supersede pf m m.active_id p.world in
        prune_superseded-pointer pf l (go_live pf marked.0 id r p.config) m.active_id marked.1
        ∙ supersede-pointer m m.active_id p.world
        ∙ Prepared-pointer

  recovers :
      (id : Bytes) (w : World) {p : BundlePointer} {r : BundleRecord} {cfg : Config}
      → pointer pf w ≡ ok p
      → p.active ≡ id
      → get pf id w ≡ ok r
      → decode_config r.document ≡ some cfg
      → ((recover pf (new_manager Config) w).0 ≡ ok tt)
        × ((recover pf (new_manager Config) w).1.live ≡ some cfg)
        × ((recover pf (new_manager Config) w).1.active_id ≡ id)
        × ((recover pf (new_manager Config) w).1.active_digest ≡ r.digest)
  unfolding recover
  recovers id w {p} {r} pe ae ge ce =
      let ne = bytes_eq_ne id [] (valid-ne-nil pf id (get-valid pf id w ge)) in
      let same = get-id pf id w ge in ground (arith, ne, same)

  -- After a commit of a bundle other than the live one that goes through, a fresh process on the
  -- same disk recovers exactly what the commit made live: configuration, id and digest.
  pub commit_recovers :
      (m : Manager Config) (id expected : Bytes) (w : World) {d : Bytes}
      → m.active_id ≢ id
      → (commit pf m id expected w).0 ≡ ok d
      → let (_, m', w') = commit pf m id expected w in
        let (r, fresh) = recover pf (new_manager Config) w' in
        (r ≡ ok tt)
        × (fresh.live ≡ m'.live)
        × (fresh.active_id ≡ m'.active_id)
        × (fresh.active_digest ≡ m'.active_digest)
  unfolding sealed sealed_pointer
  commit_recovers m id expected w ne h =
      let (p, e) = commit-finish pf m id expected w ne h in
      let done = finish_commit pf m id m.active_id (live_record pf p.stored w) p.config p.world in
      let found =
        recovers id done.2 (finish_commit-pointer m id w p) refl (finish_commit-get m id w p ne)
          p.config_is in
      let now = finish_commit_state pf m id (live_record pf p.stored w) p.config p.world in
      rw e (ground (arith, found, now))
