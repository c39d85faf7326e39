-- ===== src/Configuration/Store/Generations.antt =====
-- What the generations of the snapshots mean (configStore.Current in config.go): they never go back,
-- and equal ones are one snapshot, also across the handover from the file to a pushed bundle.
use mihomo_extension_sidecar.Common.{
  ℕ, ◌+◌, ◌^◌, ◌<◌, ◌≤◌, ◌==◌, Bool, true, false, ◌||◌, List, [], ◌∷◌, Option, some, none, Bytes,
  length, ◌≡◌, ◌⊎◌, inl, inr, refl, arith, Option-cases, Bool-cases,
}
use mathlib.Core.Path.{subst, sym}
use mihomo_extension_sidecar.Configuration.Store.{
  FileInfo, Snapshot, ConfigStore, Observed, Outcome, next_generation, read_failure, is_known,
  consider, current_file, current_bundle, current, answers, new_config_store,
}

abbrev offers_bundle : Observed → Bool
offers_bundle o = elim o.source [
  | none ↦ false
  | some (none, migrated) ↦ false
  | some (some b, migrated) ↦ true
]

abbrev says_migrated : Observed → Bool
says_migrated o = elim o.source [ none ↦ false | some (b, migrated) ↦ migrated ]

-- The bundle source latches: once a bundle was live, it answers that one has been.
abbrev Latching : Bool → List Observed → Type 0
Latching seen [] = Unit
Latching seen (o ∷ os) =
    (seen ≡ true → says_migrated o ≡ true) × Latching (seen || offers_bundle o) os

module _ {C : Type 0} where
  -- Each snapshot that is answered is the one before, or has a greater generation.
  abbrev pub Chain : Snapshot C → List (Option (Snapshot C)) → Type 0
  Chain s [] = Unit
  Chain s (none ∷ rest) = Chain s rest
  Chain s (some n ∷ rest) = ((s.generation < n.generation) ⊎ (s ≡ n)) × Chain n rest

  -- What the store knows of the last snapshot it answered.
  record Last (contents : ℕ → C) (seen : Bool) (last : Snapshot C) (s : ConfigStore C)
      : Type 0 where
    pub reached : last.generation ≤ s.generation
    pub from_file :
        seen ≡ false → (s.bundle ≡ none) × (last ≡ s.cfg) × (s.cfg.generation ≡ s.generation)
    pub from_bundle :
        (b : ℕ)
        → s.bundle ≡ some b
        → last ≡ record { generation = s.generation; document = contents b }

-- What serving the file leaves: the bundle, and a snapshot that is the store's own, the old one or
-- one of the next generation.
record FromFile {C : Type 0} (s : ConfigStore C) (r : Outcome C) : Type 0 where
  pub bundle_same : r.store.bundle ≡ s.bundle
  pub served : r.snapshot ≡ some r.store.cfg
  pub next :
      ((r.store.cfg ≡ s.cfg) × (r.store.generation ≡ s.generation))
      ⊎ ((r.store.generation ≡ s.generation + 1) × (r.store.cfg.generation ≡ s.generation + 1))

read_failure-FromFile :
    {C : Type 0} (same_file : FileInfo → FileInfo → Bool) (s : ConfigStore C)
    (info : Option FileInfo)
    → FromFile s (read_failure same_file s info)
unfolding read_failure
read_failure-FromFile same_file s none = ground arith
read_failure-FromFile same_file s (some info) = ground arith

module _ {C : Type 0} (same_file : FileInfo → FileInfo → Bool) (sha256 : Bytes → Bytes)
    (decode : Bytes → Option C) (contents : ℕ → C) where
  consider-FromFile :
      (s : ConfigStore C) (body : Bytes) (info : Option FileInfo)
      → s.generation + 1 < 2 ^ 64
      → FromFile s (consider same_file sha256 decode s body info)
  unfolding consider next_generation
  consider-FromFile s body info small = elim (Option-cases (decode body)) [
    | inl e ↦ ground (arith, e)
    | inr (d, e) ↦ ground (arith, e)
  ]

  -- A call keeps what the store knows, and answers no snapshot or one that goes on from the last.
  abbrev Advances : Bool → Snapshot C → Outcome C → Type 0
  Advances seen last r =
      ((r.snapshot ≡ none) × Last contents seen last r.store)
      ⊎ ((n : Snapshot C) × (r.snapshot ≡ some n)
          × ((last.generation < n.generation) ⊎ (last ≡ n))
          × Last contents seen n r.store)

  file-Advances :
      (last : Snapshot C) (s : ConfigStore C) (r : Outcome C)
      → Last contents false last s
      → FromFile s r
      → Advances false last r
  file-Advances last s r k f = inr (
    r.store.cfg,
    f.served,
    ground (arith, k.from_file refl, f.next),
    record {
      reached = ground (arith, k.from_file refl, f.next);
      from_file = λ _. ground (arith, k.from_file refl, f.next, f.bundle_same);
      from_bundle = λ b e. absurd (ground (arith, k.from_file refl, f.bundle_same, e));
    },
  )

  bundle_Last :
      (n : Snapshot C) (s : ConfigStore C) (b : ℕ)
      → n.generation ≤ s.generation
      → s.bundle ≡ some b
      → n ≡ record { generation = s.generation; document = contents b }
      → Last contents true n s
  bundle_Last n s b h e same = record {
    reached = h;
    from_file = λ f. absurd (ground (arith, f));
    from_bundle = λ a ea. ground (arith, e, ea, same);
  }

  withdrawn_Last :
      (seen : Bool) (last : Snapshot C) (s : ConfigStore C)
      → Last contents seen last s
      → Last contents seen last (record s { bundle = none })
  withdrawn_Last seen last s k = record {
    reached = k.reached;
    from_file = λ f. (refl, (k.from_file f).1, (k.from_file f).2);
    from_bundle = λ a ea. absurd (ground (arith, ea));
  }

  bundle-Advances :
      (seen : Bool) (last : Snapshot C) (s : ConfigStore C) (b : ℕ)
      → Last contents seen last s
      → s.generation + 1 < 2 ^ 64
      → Advances true last (current_bundle same_file sha256 decode contents s b)
  unfolding current_bundle next_generation
  bundle-Advances seen last s b k small =
      elim (Bool-cases (elim s.bundle [ none ↦ false | some a ↦ b == a ])) [
        | inl known ↦
            let e : s.bundle ≡ some b = ground (arith, known) in
            let n : Snapshot C = record { generation = s.generation; document = contents b } in
            let r : Outcome C = record { snapshot = some n; reports = []; store = s } in
            let a : Advances true last r =
              inr (n, refl, inr (k.from_bundle b e), bundle_Last n s b (omega arith) e refl) in
            let same : r ≡ current_bundle same_file sha256 decode contents s b =
              ground (arith, known) in
            subst (Advances true last) same a
        | inr new ↦
            let q : ConfigStore C = record s {
              bundle = some b;
              generation = next_generation s.generation;
            } in
            let n : Snapshot C = record { generation = q.generation; document = contents b } in
            let r : Outcome C = record { snapshot = some n; reports = []; store = q } in
            let a : Advances true last r = inr (
              n,
              refl,
              inl (omega (arith, k.reached)),
              bundle_Last n q b (omega arith) refl refl,
            ) in
            let same : r ≡ current_bundle same_file sha256 decode contents s b =
              ground (arith, new) in
            subst (Advances true last) same a
      ]

  current_file-FromFile :
      (s : ConfigStore C) (info : Option FileInfo) (read : Option (Bytes × Option FileInfo))
      → s.generation + 1 < 2 ^ 64
      → FromFile s (current_file same_file sha256 decode s info read)
  unfolding current_file
  current_file-FromFile s info read small = elim (Bool-cases (is_known same_file s info)) [
    | inl known ↦ ground (arith, known)
    | inr unknown ↦ elim (Option-cases read) [
      | inl e ↦ ground (arith, unknown, e, read_failure-FromFile same_file s info)
      | inr (x, e) ↦ ground (
        arith,
        unknown,
        e,
        consider-FromFile (record s { read_error_file = none; read_error_unstatable = false }) x.0
            (elim x.1 [ none ↦ info | some i ↦ some i ]) small,
      )
    ]
  ]

  current-Advances :
      (seen : Bool) (last : Snapshot C) (s : ConfigStore C) (source : Option (Option ℕ × Bool))
      → (stat : Option FileInfo) (read : Option (Bytes × Option FileInfo))
      → let o : Observed = record { source = source; stat = stat; read = read } in
        Last contents seen last s
        → (seen ≡ true → says_migrated o ≡ true)
        → s.generation + 1 < 2 ^ 64
        → Advances (seen || offers_bundle o) last (current same_file sha256 decode contents s o)
  unfolding current
  current-Advances true last s none stat read k latched small =
      absurd (ground (arith, latched refl))
  current-Advances true last s (some (none, false)) stat read k latched small =
      absurd (ground (arith, latched refl))
  current-Advances false last s none stat read k latched small =
      file-Advances last s _ k (current_file-FromFile s stat read small)
  current-Advances false last s (some (none, false)) stat read k latched small =
      file-Advances last s _ k (current_file-FromFile s stat read small)
  current-Advances true last s (some (none, true)) stat read k latched small =
      inl (refl, withdrawn_Last true last s k)
  current-Advances false last s (some (none, true)) stat read k latched small =
      inl (refl, withdrawn_Last false last s k)
  current-Advances true last s (some (some b, m)) stat read k latched small =
      bundle-Advances true last s b k small
  current-Advances false last s (some (some b, m)) stat read k latched small =
      bundle-Advances false last s b k small

  current_generation :
      (s : ConfigStore C) (o : Observed)
      → s.generation + 1 < 2 ^ 64
      → (current same_file sha256 decode contents s o).store.generation ≤ s.generation + 1
  unfolding current current_bundle next_generation
  current_generation s o small = ground (arith, (current_file-FromFile s o.stat o.read small).next)

  answers-Chain :
      (os : List Observed) (seen : Bool) (last : Snapshot C) (s : ConfigStore C)
      → Last contents seen last s
      → Latching seen os
      → s.generation + length os < 2 ^ 64
      → Chain last (answers same_file sha256 decode contents s os)
  unfolding answers
  answers-Chain [] seen last s k latched small = tt
  answers-Chain (o ∷ os) seen last s k latched small =
      let r = current same_file sha256 decode contents s o in
      let up = current_generation s o (omega arith) in
      elim (current-Advances seen last s o.source o.stat o.read k latched.0 (omega arith)) [
        | inl (e, k') ↦
            subst (λ x. Chain last (x ∷ answers same_file sha256 decode contents r.store os))
              (sym e) (answers-Chain os _ last r.store k' latched.1 (omega arith))
        | inr (n, e, goes, k') ↦
            subst (λ x. Chain last (x ∷ answers same_file sha256 decode contents r.store os))
              (sym e) (goes, answers-Chain os _ n r.store k' latched.1 (omega arith))
      ]

  -- From a new store, over fewer than 2 ^ 64 - 1 calls of `Current` with a bundle source that latches:
  -- each snapshot that is answered is the one before it, the first being that of the file read at the
  -- start, or has a greater generation; so equal generations are one snapshot.
  pub new_config_store-Chain :
      (body : Bytes) (info : Option FileInfo) (s : ConfigStore C) (os : List Observed)
      → new_config_store same_file sha256 decode body info ≡ some s
      → Latching false os
      → 1 + length os < 2 ^ 64
      → Chain s.cfg (answers same_file sha256 decode contents s os)
  unfolding new_config_store
  new_config_store-Chain body info s os e latched small = elim (Option-cases (decode body)) [
    | inl none_read ↦ absurd (ground (arith, e, none_read))
    | inr (d, read) ↦
        let fresh : (s.bundle ≡ none) × (s.cfg.generation ≡ 1) × (s.generation ≡ 1) =
          ground (arith, e, read) in
        answers-Chain os false s.cfg s
          (record {
            reached = omega (arith, fresh.1, fresh.2);
            from_file = λ _. (fresh.0, refl, ground (arith, fresh));
            from_bundle = λ b eb. absurd (ground (arith, fresh, eb));
          })
          latched (omega (arith, fresh.2))
  ]
