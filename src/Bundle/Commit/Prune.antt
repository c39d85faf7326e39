-- ===== src/Bundle/Commit/Prune.antt =====
-- The sweep after a commit (`pruneSuperseded`) removes superseded records only.
use mihomo_extension_sidecar.Common.{
  ℕ, leb, false, List, [], ◌∷◌, Bytes, bytes_eq, bytes_eq_iff, arith, ◌≡◌, ◌≢◌, ◌⊎◌, inl, inr, refl,
  All, All-drop, All-sort, Bool-cases, sort, length, sym,
}
use mihomo_extension_sidecar.Bundle.Types.{
  is_superseded, BundleRecord, Result, ok, err, Result-cases,
}
use mihomo_extension_sidecar.Bundle.Platform.{Platform, Laws}
use mihomo_extension_sidecar.Bundle.Store.{get, delete, pointer, list}
use mihomo_extension_sidecar.Bundle.Store.Records.{get-delete_ne, pointer-delete}
use mihomo_extension_sidecar.Bundle.Manager.{Manager, publish, pruned, newer}
use mihomo_extension_sidecar.Bundle.Commit.{
  candidates, candidate, doomed, prune_each, prune_superseded,
}

-- The bundle is the one just replaced, or its record is not a superseded one.
abbrev pub IsSpared : (pf : Platform) → Bytes → Bytes → Platform.World pf → Type 0
IsSpared pf replaced id w =
    (id ≡ replaced) ⊎ ((r : BundleRecord) → get pf id w ≡ ok r → is_superseded r.state ≡ false)

abbrev Avoids : Bytes → List (Bytes × ℕ) → Type 0
Avoids id = All (λ e. e.0 ≢ id)

module _ (pf : Platform) (replaced id : Bytes) where
  open pf use {World, Config}

  candidate-Avoids :
      (other : Bytes) (x : Result BundleRecord) (rest : List (Bytes × ℕ))
      → (other ≡ id → (r : BundleRecord) → x ≡ ok r → is_superseded r.state ≡ false)
      → Avoids id rest
      → Avoids id (candidate pf other x rest)
  unfolding candidate
  candidate-Avoids other (err e) rest h a = a
  candidate-Avoids other (ok r) rest h a = elim (Bool-cases (is_superseded r.state)) [
    | inl s ↦ rw s (λ e. cc (h e r refl), a)
    | inr n ↦ rw n a
  ]

  candidates-Avoids :
      (w : World) (ids : List Bytes)
      → IsSpared pf replaced id w
      → Avoids id (candidates pf replaced w ids)
  unfolding candidates
  candidates-Avoids w [] s = tt
  candidates-Avoids w (other ∷ ids) s =
      let rest = candidates-Avoids w ids s in
      elim (Bool-cases (bytes_eq other replaced)) [
        | inl e ↦ rw e rest
        | inr n ↦ rw n (
            candidate-Avoids other (get pf other w) (candidates pf replaced w ids)
              (λ e r q. elim s [
                | inl same ↦ absurd (ground (arith, bytes_eq_iff other replaced))
                | inr keeps ↦ keeps r (rw e at q)
              ])
              rest)
      ]

  doomed-Avoids : (found : List (Bytes × ℕ)) → Avoids id found → Avoids id (doomed found)
  unfolding doomed
  doomed-Avoids found a = elim (Bool-cases (leb (length found) 2)) [
    | inl few ↦ rw few tt
    | inr many ↦
        rw many
          (All-drop (λ e. e.0 ≢ id) 2 (sort newer found) (All-sort newer (λ e. e.0 ≢ id) found a))
  ]

module _ (pf : Platform) (l : Laws pf) where
  open pf use {World, Config}

  prune_each-get :
      (m : Manager Config) (id : Bytes) (ids : List (Bytes × ℕ)) (w : World)
      → Avoids id ids
      → get pf id (prune_each pf m ids w).1 ≡ get pf id w
  unfolding prune_each
  prune_each-get m id [] w a = refl
  prune_each-get m id ((other, at) ∷ rest) w a =
      let kept = get-delete_ne pf l id other w (λ e. a.0 (sym e)) in
      ground
        (arith, kept, prune_each-get (publish (pruned other) m) id rest (delete pf other w).1 a.1)

  -- The sweep leaves the bundle that was just replaced as it is stored, and every other bundle that
  -- is not recorded as superseded.
  pub prune_superseded-get :
      (m : Manager Config) (replaced id : Bytes) (w : World)
      → IsSpared pf replaced id w
      → get pf id (prune_superseded pf m replaced w).1 ≡ get pf id w
  unfolding prune_superseded
  prune_superseded-get m replaced id w s = elim (Result-cases (list pf w)) [
    | inr (e, q) ↦ rw (q, prune_superseded)
    | inl (ids, q) ↦
        rw (q, prune_superseded)
          (prune_each-get m id (doomed (candidates pf replaced w ids)) w
            (doomed-Avoids pf replaced id _ (candidates-Avoids pf replaced id w ids s)))
  ]

  prune_each-pointer :
      (m : Manager Config) (ids : List (Bytes × ℕ)) (w : World)
      → pointer pf (prune_each pf m ids w).1 ≡ pointer pf w
  unfolding prune_each
  prune_each-pointer m [] w = refl
  prune_each-pointer m ((other, at) ∷ rest) w = ground (
    arith,
    pointer-delete pf l other w,
    prune_each-pointer (publish (pruned other) m) rest (delete pf other w).1,
  )

  pub prune_superseded-pointer :
      (m : Manager Config) (replaced : Bytes) (w : World)
      → pointer pf (prune_superseded pf m replaced w).1 ≡ pointer pf w
  unfolding prune_superseded
  prune_superseded-pointer m replaced w = grind (arith, prune_each-pointer)
