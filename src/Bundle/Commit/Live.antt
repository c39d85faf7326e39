-- ===== src/Bundle/Commit/Live.antt =====
-- What a commit does to the state in memory.
use mihomo_extension_sidecar.Common.{
  bytes_eq, if◌then◌else◌, ◌⊎◌, inl, inr, ℕ, List, [], ◌∷◌, Bytes, bytes_eq_iff, bytes_eq_ne, arith,
  ◌≡◌, ◌≢◌, refl,
}
use mihomo_extension_sidecar.Bundle.Types.{Error, conflict, ok, err}
use mihomo_extension_sidecar.Bundle.Platform.{Platform}
use mihomo_extension_sidecar.Bundle.Store.{delete}
use mihomo_extension_sidecar.Bundle.Manager.{Manager, pruned, publish}
use mihomo_extension_sidecar.Bundle.Commit.{
  prune_each, prune_superseded, supersede, finish_commit, commit,
}

-- A manager without its notices.
abbrev pub state_of : {Config : Type 0} → Manager Config → Manager Config
state_of m = record m { notices = [] }

module _ (pf : Platform) where
  open pf use {World, Config, decode_config}

  prune_each-state_of :
      (m : Manager Config) (ids : List (Bytes × ℕ)) (w : World)
      → state_of (prune_each pf m ids w).0 ≡ state_of m
  unfolding prune_each
  prune_each-state_of m [] w = refl
  prune_each-state_of m ((id, at) ∷ rest) w =
      ground (arith, prune_each-state_of (publish (pruned id) m) rest (delete pf id w).1)

  pub prune_superseded-state_of :
      (m : Manager Config) (id : Bytes) (w : World)
      → state_of (prune_superseded pf m id w).0 ≡ state_of m
  unfolding prune_superseded
  prune_superseded-state_of m id w = grind (arith, prune_each-state_of)

  pub supersede-state_of :
      (m : Manager Config) (id : Bytes) (w : World) → state_of (supersede pf m id w).0 ≡ state_of m
  unfolding supersede
  supersede-state_of m id w = ground arith

  -- A commit that repeats the live bundle, or expects another bundle to be live than is, changes
  -- nothing: the first answers with the live digest, the second is a conflict.
  pub commit_guard :
      (m : Manager Config) (id expected : Bytes) (w : World)
      → (m.active_id ≡ id) ⊎ (m.active_id ≢ expected)
      → commit pf m id expected w
        ≡ ((if bytes_eq m.active_id id then ok m.active_digest else err conflict), m, w)
  unfolding commit
  commit_guard m id expected w (inl e) = ground (arith, bytes_eq_iff m.active_id id)
  commit_guard m id expected w (inr n) = ground (arith, bytes_eq_ne m.active_id expected n)

  -- A commit that fails, at whichever step, leaves the manager as it was.
  pub commit_error :
      (m : Manager Config) (id expected : Bytes) (w : World) {e : Error}
      → (commit pf m id expected w).0 ≡ err e
      → (commit pf m id expected w).1 ≡ m
  unfolding commit finish_commit
  commit_error m id expected w h = ground arith
