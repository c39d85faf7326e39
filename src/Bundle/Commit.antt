-- ===== src/Bundle/Commit.antt =====
-- `Commit` and `pruneSuperseded` (bundle_manager.go).
pub mod Prune
pub mod Durable
pub mod Crash
pub mod Live
pub mod Steps
use mihomo_extension_sidecar.Common.{
  ℕ, ◌+◌, ◌-◌, ◌%◌, ◌^◌, leb, Bool, true, false, not, List, [], ◌∷◌, Option, none, some, Bytes,
  bytes_eq, if◌then◌else◌, length, drop, set_remove, sort, map,
}
use mihomo_extension_sidecar.Bundle.Types.{
  active, superseded, is_superseded, BundleRecord, BundlePointer, Error, conflict, invalid_document,
  Result, ok, err, or_err,
}
use mihomo_extension_sidecar.Bundle.Platform.{Platform}
use mihomo_extension_sidecar.Bundle.Store
use mihomo_extension_sidecar.Bundle.Store.{M, query, put, get, delete, set_pointer, list}
use mihomo_extension_sidecar.Bundle.Manager.{
  Manager, Notice, committed, not_marked, not_listed, not_pruned, pruned, publish, set_active,
  bundle_retained_generations, newer, Outcome,
}

-- `&bundlePointer{Active: id, Previous: current}`
abbrev pub next_pointer : Bytes → Bytes → BundlePointer
next_pointer id current = record {
  schema = 0;
  active = id;
  previous = current;
  updated_at = 0;
  digest = [];
}

-- The records past the retained depth, in the order of the sweep.
unfoldable pub doomed : List (Bytes × ℕ) → List (Bytes × ℕ)
doomed found =
    let older = bundle_retained_generations - 1 in
    if leb (length found) older then [] else drop older (sort newer found)

module _ (pf : Platform) where
  open pf use {World, Config, decode_config, now}

  -- The loop of `pruneSuperseded` that collects the superseded records but the one just replaced.
  candidate : Bytes → Result BundleRecord → List (Bytes × ℕ) → List (Bytes × ℕ)
  candidate id (err e) rest = rest
  candidate id (ok r) rest = if is_superseded r.state then (id, r.activated_at) ∷ rest else rest

  unfoldable pub candidates : Bytes → World → List Bytes → List (Bytes × ℕ)
  unfolding candidate
  candidates replaced w [] = []
  candidates replaced w (id ∷ ids) =
      let rest = candidates replaced w ids in
      if bytes_eq id replaced then rest else candidate id (get pf id w) rest

  -- The loop that deletes; it stops at the first failure.
  unfoldable pub prune_each : Manager Config → List (Bytes × ℕ) → World → Manager Config × World
  prune_each m [] w = (m, w)
  prune_each m ((id, at) ∷ rest) w =
      let done = delete pf id w in
      elim done.0 [
        | err e ↦ (publish (not_pruned id) m, done.1)
        | ok _ ↦ prune_each (publish (pruned id) m) rest done.1
      ]

  prune_listed : Manager Config → Bytes → Result (List Bytes) → World → Manager Config × World
  prune_listed m replaced (err e) w = (publish not_listed m, w)
  prune_listed m replaced (ok ids) w = prune_each m (doomed (candidates replaced w ids)) w

  unfoldable pub prune_superseded : Manager Config → Bytes → World → Manager Config × World
  unfolding prune_listed
  prune_superseded m replaced w = prune_listed m replaced (list pf w) w

  abbrev pub live_record : BundleRecord → World → BundleRecord
  live_record r w = record r { state = active; activated_at = now w }

  infixl 5 ◌>>=◌ ◌>>◌
  abbrev ◌>>=◌ : {A B : Type 0} → M pf A → (A → M pf B) → M pf B
  m >>= f = Store.◌>>=◌ pf m f

  abbrev ◌>>◌ : {B : Type 0} → M pf (Unit {0}) → M pf B → M pf B
  m >> k = Store.◌>>◌ pf m k

  -- The part of `Commit` that can fail: it ends with the durable pointer.
  unfoldable pub prepare_commit : Bytes → Bytes → M pf (BundleRecord × Config)
  prepare_commit id current = do
    r ← query pf (get pf id)
    cfg ← query pf (λ _. or_err (decode_config r.document) invalid_document)
    r' ← query pf (λ w. ok (live_record r w))
    put pf r'
    set_pointer pf (next_pointer id current)
    query pf (λ _. ok (r', cfg))

  -- Marking the replaced bundle; a failure is only reported.
  supersede_record : Manager Config → Bytes → Result BundleRecord → World → Manager Config × World
  supersede_record m current (err e) w = (m, w)
  supersede_record m current (ok prev) w =
      let done = put pf (record prev { state = superseded }) w in
      elim done.0 [ ok _ ↦ (m, done.1) | err e ↦ (publish (not_marked current) m, done.1) ]

  unfoldable pub supersede : Manager Config → Bytes → World → Manager Config × World
  unfolding supersede_record
  supersede m current w =
      if bytes_eq current [] then (m, w) else supersede_record m current (get pf current w) w

  -- `setActive`, the generation (a uint64), the staged set and the notice.
  unfoldable pub go_live : Manager Config → Bytes → BundleRecord → Config → Manager Config
  unfolding set_active
  go_live m id r cfg =
      let m' = set_active id r.digest cfg m in
      let generation = (m'.generation + 1) % 2 ^ 64 in
      publish (committed id generation)
        (record m' { generation = generation; staged_ids = set_remove id m'.staged_ids })

  unfoldable pub finish_commit :
      Manager Config → Bytes → Bytes → BundleRecord → Config → World → Outcome pf Bytes
  finish_commit m id current r cfg w =
      let marked = supersede m current w in
      let swept = prune_superseded (go_live marked.0 id r cfg) current marked.1 in
      (ok r.digest, swept.0, swept.1)

  commit_prepared :
      Manager Config → Bytes → Bytes → Result (BundleRecord × Config) × World → Outcome pf Bytes
  commit_prepared m id current (err e, w) = (err e, m, w)
  commit_prepared m id current (ok (r, cfg), w) = finish_commit m id current r cfg w

  unfoldable pub commit : Manager Config → Bytes → Bytes → World → Outcome pf Bytes
  unfolding commit_prepared
  commit m id expected w =
      let current = m.active_id in
      if bytes_eq current id
      then (ok m.active_digest, m, w)
      else if not (bytes_eq current expected)
      then (err conflict, m, w)
      else commit_prepared m id current (prepare_commit id current w)
