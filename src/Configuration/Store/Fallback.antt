-- ===== src/Configuration/Store/Fallback.antt =====
-- What `configStore.Current` (config.go) serves when the file cannot be used, and after a bundle was
-- withdrawn.
use mihomo_extension_sidecar.Common.{
  ℕ, Bool, true, false, [], ◌∷◌, Option, some, none, Bytes, bytes_eq, ◌≡◌, ◌⊎◌, inl, inr, refl,
  arith, Option-cases, Bool-cases,
}
use mathlib.Core.Path.{subst}
use mihomo_extension_sidecar.Configuration.Store.{
  FileInfo, ConfigStore, Observed, Outcome, next_generation, read_failure, is_known, consider,
  current_file, current, remembered, matches_file, replacement_rejected, reloaded,
}

module _ {C : Type 0} (same_file : FileInfo → FileInfo → Bool) (sha256 : Bytes → Bytes)
    (decode : Bytes → Option C) (contents : ℕ → C) where
  abbrev call : ConfigStore C → Observed → Outcome C
  call = current same_file sha256 decode contents

  -- The old snapshot, or the document that was just read under the next generation.
  abbrev pub KeepsOrLoads : ConfigStore C → Option (Bytes × Option FileInfo) → Outcome C → Type 0
  KeepsOrLoads s read r =
      ((r.snapshot ≡ some s.cfg) × (r.store.cfg ≡ s.cfg) × (r.store.generation ≡ s.generation))
      ⊎ ((body : Bytes) × (info : Option FileInfo) × (d : C) × (read ≡ some (body, info))
          × (decode body ≡ some d)
          × (bytes_eq (sha256 body) s.content_digest ≡ false)
          × (r.snapshot ≡ some (record { generation = next_generation s.generation; document = d }))
          × (r.store.content_digest ≡ sha256 body))

  current_file_keeps :
      (s : ConfigStore C) (stat : Option FileInfo) (read : Option (Bytes × Option FileInfo))
      → KeepsOrLoads s read (current_file same_file sha256 decode s stat read)
  unfolding current_file read_failure consider
  current_file_keeps s none none = inl (ground arith)
  current_file_keeps s (some i) none = inl (ground arith)
  current_file_keeps s stat (some (body, info)) = elim (Bool-cases (is_known same_file s stat)) [
    | inl known ↦ inl (ground (arith, known))
    | inr unknown ↦ elim (Bool-cases (bytes_eq (sha256 body) s.content_digest)) [
      | inl same ↦ inl (ground (arith, unknown, same))
      | inr other ↦ elim (Option-cases (decode body)) [
        | inl bad ↦ inl (ground (arith, unknown, other, bad))
        | inr (d, good) ↦ inr (
          body,
          info,
          d,
          refl,
          good,
          other,
          ground (arith, unknown, other, good),
          ground (arith, unknown, other, good),
        )
      ]
    ]
  ]

  -- Without a bundle that is or was live, `Current` always answers: the snapshot it had, whose generation
  -- stays, or else the document that the bytes just read decode to, under the next generation, and that
  -- only where the digest of those bytes is another than that of the last valid document.
  pub current_keeps_last_valid :
      (s : ConfigStore C) (stat : Option FileInfo) (read : Option (Bytes × Option FileInfo))
      → (source : Option (Option ℕ × Bool)) → (source ≡ none) ⊎ (source ≡ some (none, false))
      → KeepsOrLoads s read (call s (record { source = source; stat = stat; read = read }))
  unfolding current
  current_keeps_last_valid s stat read source (inl e) =
      let same : current_file same_file sha256 decode s stat read
          ≡ call s (record { source = source; stat = stat; read = read }) =
        ground (arith, e) in
      subst (KeepsOrLoads s read) same (current_file_keeps s stat read)
  current_keeps_last_valid s stat read source (inr e) =
      let same : current_file same_file sha256 decode s stat read
          ≡ call s (record { source = source; stat = stat; read = read }) =
        ground (arith, e) in
      subst (KeepsOrLoads s read) same (current_file_keeps s stat read)

  -- A document that was read and does not decode is reported and not read again while the stat shows the
  -- same file: the next call answers the old snapshot whatever a read would give, without a report.
  pub rejected_once :
      (s : ConfigStore C) (info : FileInfo) (body : Bytes) (read : Option (Bytes × Option FileInfo))
      → same_file info info ≡ true
      → is_known same_file s (some info) ≡ false
      → bytes_eq (sha256 body) s.content_digest ≡ false
      → decode body ≡ none
      → let o : Observed = record {
        source = none;
        stat = some info;
        read = some (body, some info);
      } in
        let again : Observed = record { source = none; stat = some info; read = read } in
        let r = call s o in
        (r.snapshot ≡ some s.cfg)
        × (r.reports ≡ replacement_rejected ∷ [])
        × ((call r.store again).snapshot ≡ some s.cfg)
        × ((call r.store again).reports ≡ [])
  unfolding current current_file consider is_known matches_file remembered
  rejected_once s info body read self fresh other bad = ground (arith, self, fresh, other, bad)

  -- A failed read is retried: if a file that is not known cannot be read, the old snapshot is answered,
  -- and the next call with the same stat reads again and serves what it finds, if that decodes.
  pub read_error_retried :
      (s : ConfigStore C) (info : FileInfo) (body : Bytes) (d : C)
      → is_known same_file s (some info) ≡ false
      → bytes_eq (sha256 body) s.content_digest ≡ false
      → decode body ≡ some d
      → let o : Observed = record { source = none; stat = some info; read = none } in
        let again : Observed = record {
          source = none;
          stat = some info;
          read = some (body, some info);
        } in
        let r = call s o in
        (r.snapshot ≡ some s.cfg)
        × ((call r.store again).snapshot
            ≡ some (record { generation = next_generation s.generation; document = d }))
        × ((call r.store again).reports ≡ reloaded ∷ [])
  unfolding current current_file consider read_failure is_known
  read_error_retried s info body d fresh other good = ground (arith, fresh, other, good)
