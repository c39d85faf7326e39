-- ===== src/Bundle/Manager/Stage.antt =====
-- `Stage`: it stores without serving, never replaces a stored bundle, and may be repeated.
use mihomo_extension_sidecar.Common.{
  some, none, Bytes, bytes_eq_iff, bytes_eq_ne, bytes_eq_refl, arith, ◌≡◌, ◌≢◌, inl, inr,
  Option-cases, set_add_idem,
}
use mihomo_extension_sidecar.Bundle.Types.{BundleRecord, wrong_state, ok, err, Result-cases}
use mihomo_extension_sidecar.Bundle.Id.{validate_bundle_id}
use mihomo_extension_sidecar.Bundle.Platform.{Platform, Laws}
use mihomo_extension_sidecar.Bundle.Store.{get, sealed}
use mihomo_extension_sidecar.Bundle.Store.Records.{put-get, get-put_ne}
use mihomo_extension_sidecar.Bundle.Manager.{Manager, fresh_record, stage}

module _ (pf : Platform) (l : Laws pf) (m : Manager (Platform.Config pf)) (id document : Bytes)
    (w : Platform.World pf) where
  open pf use {World, Config, decode_config, sha256_hex}

  -- Whatever `Stage` answers, a record that was stored is stored unchanged, under any id.
  pub stage_keeps :
      (other : Bytes) (r : BundleRecord)
      → get pf other w ≡ ok r
      → get pf other (stage pf m id document w).2 ≡ ok r
  unfolding stage fresh_record
  stage_keeps other r g = elim (Result-cases (get pf id w)) [
    | inl (s, q) ↦ ground arith
    | inr (e, q) ↦
        let kept =
          get-put_ne pf l other (fresh_record pf id document w) w (λ same. cc (rw same at g)) in
        ground (arith, kept)
  ]

  -- After a stage that goes through, a record is stored under the id with the digest of the document
  -- that was sent, and that document decodes; the answer is the digest.
  pub stage_ok :
      {d : Bytes}
      → (stage pf m id document w).0 ≡ ok d
      → (d ≡ sha256_hex document)
        × ((cfg : Config) × (decode_config document ≡ some cfg))
        × ((r : BundleRecord) × (get pf id (stage pf m id document w).2 ≡ ok r) × (r.digest ≡ d))
  unfolding stage fresh_record sealed
  stage_ok h = elim (Option-cases (decode_config document)) [
    | inl n ↦ absurd (ground arith)
    | inr (cfg, c) ↦ elim (Result-cases (get pf id w)) [
      | inl (r, q) ↦ (
        ground arith,
        (cfg, c),
        (r, ground arith, ground (arith, bytes_eq_iff r.digest (sha256_hex document))),
      )
      | inr (e, q) ↦ (
        ground arith,
        (cfg, c),
        (
          sealed pf (fresh_record pf id document w),
          ground (arith, put-get pf l (fresh_record pf id document w) w),
          ground arith,
        ),
      )
    ]
  ]

  -- Repeating a stage that went through gives the same answer and changes nothing.
  pub stage_idem :
      {d : Bytes}
      → (stage pf m id document w).0 ≡ ok d
      → let (_, m', w') = stage pf m id document w in stage pf m' id document w' ≡ (ok d, m', w')
  unfolding stage fresh_record sealed
  stage_idem h = elim (Option-cases (decode_config document)) [
    | inl n ↦ absurd (ground arith)
    | inr (cfg, c) ↦ elim (Result-cases (get pf id w)) [
      | inl (r, q) ↦ ground (arith, set_add_idem id m.staged_ids)
      | inr (e, q) ↦
          let r = fresh_record pf id document w in
          ground (
            arith,
            put-get pf l r w,
            set_add_idem id m.staged_ids,
            bytes_eq_refl (sha256_hex document),
          )
    ]
  ]

  -- A document that decodes, sent under a valid id that is stored with another digest, is refused,
  -- and nothing changes.
  pub stage_other_document :
      (r : BundleRecord)
      → validate_bundle_id id ≡ ok tt
      → decode_config document ≢ none
      → get pf id w ≡ ok r
      → r.digest ≢ sha256_hex document
      → stage pf m id document w ≡ (err wrong_state, m, w)
  unfolding stage
  stage_other_document r v dec g ne = ground (arith, bytes_eq_ne r.digest (sha256_hex document) ne)
