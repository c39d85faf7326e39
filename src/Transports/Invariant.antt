-- ===== src/Transports/Invariant.antt =====
-- The invariant of the pool of transports: the references of a generation are its leases that are not
-- released, exactly the pool's own generation is not retired, only a generation that is retired and
-- unused is closed, and one that is both is closed or its close waits.
use mihomo_extension_sidecar.Common.{
  ℕ, ◌<◌, ◌≤◌, ◌==◌, ltb, true, false, ◌||◌, List, [], ◌∷◌, some, none, set, get_elem?, ◌≡◌, refl,
  arith, inl, inr, Option-cases, Bool-cases, bytes_eq,
}
use mathlib.Core.Path.{subst}
use mihomo_extension_sidecar.Hosts.Projection.{UpstreamTransportProjection}
use mihomo_extension_sidecar.Transports.Counting.{
  live_leases, live_leases-append, live_leases-set, live_leases-held, is_in-append,
  is_in-remove_first, is_in_removed,
}
use mihomo_extension_sidecar.Transports.{
  Pool, Lease, TransportGeneration, Step, acquires, releases, closes_all, runs_close, uses,
  new_transport_generation, new_pool, put, allocate, lease, acquire_retired, retire, acquire_fresh,
  acquire_current, acquire, release_generation, release, close_upstream_transports, close, is_in,
  get_http_transport, step, run,
}

-- What holds at one address.
pub record At (p : Pool) (a : ℕ) : Type 0 where
  pub placed : p.allocated ≤ a → (live_leases a p.leases ≡ 0) × (is_in a p.closing ≡ false)
  pub within : p.upstream ≡ some a → a < p.allocated
  pub counted : a < p.allocated → (p.generations a).refs ≡ live_leases a p.leases
  pub current : p.upstream ≡ some a → (p.generations a).retired ≡ false
  pub owned : a < p.allocated → (p.generations a).retired ≡ false → p.upstream ≡ some a
  pub shut :
      a < p.allocated
      → (p.generations a).closed ≡ true
      → ((p.generations a).retired ≡ true) × ((p.generations a).refs ≡ 0)
  pub waiting :
      is_in a p.closing ≡ true → ((p.generations a).retired ≡ true) × ((p.generations a).refs ≡ 0)
  pub due :
      a < p.allocated
      → (p.generations a).retired ≡ true
      → (p.generations a).refs ≡ 0
      → ((p.generations a).closed || is_in a p.closing) ≡ true

abbrev pub Inv : Pool → Type 0
Inv p = (a : ℕ) → At p a

new_pool-Inv : (unused : TransportGeneration) → Inv (new_pool unused)
unfolding new_pool live_leases is_in
new_pool-Inv unused a = record {
  placed = λ h. (refl, refl);
  within = λ e. absurd (ground (arith, e));
  counted = λ h. absurd (omega arith);
  current = λ e. absurd (ground (arith, e));
  owned = λ h. absurd (omega arith);
  shut = λ h. absurd (omega arith);
  waiting = λ e. absurd (ground (arith, e));
  due = λ h. absurd (omega arith);
}

lease-Inv : (p : Pool) (b : ℕ) → p.upstream ≡ some b → Inv p → Inv (lease p b)
unfolding lease put live_leases
lease-Inv p b up v a =
    let n = live_leases-append a p.leases (record { address = b; released = false }) in
    ground (arith, v a, n, v b, up)

acquire_retired-Inv :
    (p : Pool) (projection : UpstreamTransportProjection)
    → Inv p
    → Inv (acquire_retired p projection)
unfolding acquire_retired allocate put lease new_transport_generation live_leases
acquire_retired-Inv p projection v a =
    let n = live_leases-append a p.leases (record { address = p.allocated; released = false }) in
    ground (arith, v a, n)

acquire_fresh-Inv :
    (p : Pool) (projection : UpstreamTransportProjection)
    → p.upstream ≡ none
    → Inv p
    → Inv (acquire_fresh p projection)
unfolding acquire_fresh allocate put lease new_transport_generation live_leases
acquire_fresh-Inv p projection up v a =
    let n = live_leases-append a p.leases (record { address = p.allocated; released = false }) in
    ground (arith, v a, n, up)

-- The pool's generation is retired and another takes its place.
acquire_replace-Inv :
    (p : Pool) (b : ℕ) (projection : UpstreamTransportProjection)
    → p.upstream ≡ some b
    → Inv p
    → Inv (acquire_fresh (retire p b) projection)
unfolding acquire_fresh retire allocate put lease new_transport_generation live_leases
acquire_replace-Inv p b projection up v a =
    let n = live_leases-append a p.leases (record { address = p.allocated; released = false }) in
    let c = is_in-append a b p.closing in ground (arith, v a, n, c, up, v b)

-- A pool whose generation is retired and taken out.
withdraw-Inv :
    (p : Pool) (b : ℕ) → p.upstream ≡ some b → Inv p → Inv (record (retire p b) { upstream = none })
unfolding retire put
withdraw-Inv p b up v a =
    let n = is_in-append a b p.closing in ground (arith, v a, n, up, (v b).counted, (v b).within)

release_generation-Inv :
    (p : Pool) (i : ℕ) (l : Lease)
    → get_elem? p.leases i ≡ some l
    → l.released ≡ false
    → Inv p
    → Inv (
        release_generation
          (record p { leases = set p.leases i (record { address = l.address; released = true }) })
          l.address)
unfolding release_generation put
release_generation-Inv p i l e live v a =
    let b = l.address in
    let n = is_in-append a b p.closing in
    let c = live_leases-set a i p.leases l e live in
    let h = live_leases-held i p.leases l e live in
    ground (arith, v a, n, c, h, (v b).counted, (v b).placed)

close-Inv : (p : Pool) (b : ℕ) → Inv p → Inv (close p b)
unfolding close put
close-Inv p b v a =
    let n = is_in-remove_first a b p.closing in
    let c = is_in_removed a b p.closing in ground (arith, v a, n, c, (v b).waiting, (v b).placed)

get_http_transport-Inv : (p : Pool) (b : ℕ) → Inv p → Inv (get_http_transport p b).1
unfolding get_http_transport put
get_http_transport-Inv p b v a = ground (arith, v a)

-- The generation of the pool only advances its number.
renumber-Inv :
    (p : Pool) (b n : ℕ) → Inv p → Inv (put p b (record (p.generations b) { generation = n }))
unfolding put
renumber-Inv p b n v a = ground (arith, v a)

acquire_current-Inv :
    (p : Pool) (b : ℕ) (projection : UpstreamTransportProjection)
    → p.upstream ≡ some b
    → Inv p
    → Inv (acquire_current p b projection)
unfolding acquire_current
acquire_current-Inv p b projection up v =
    let g = p.generations b in
    let renumbered = put p b (record g { generation = projection.generation }) in
    elim (Bool-cases (ltb g.generation projection.generation)) [
      | inl newer ↦ elim (Bool-cases (bytes_eq projection.fingerprint g.projection.fingerprint)) [
        | inl same ↦
            rw (newer, same)
              (lease-Inv renumbered b (ground arith) (renumber-Inv p b projection.generation v))
        | inr other ↦ rw (newer, other) (acquire_replace-Inv p b projection up v)
      ]
      | inr not_newer ↦ elim (Bool-cases (ltb projection.generation g.generation)) [
        | inl older ↦ rw (not_newer, older) (acquire_retired-Inv p projection v)
        | inr same ↦ rw (not_newer, same) (lease-Inv p b up v)
      ]
    ]

acquire-Inv :
    (p : Pool) (projection : UpstreamTransportProjection) → Inv p → Inv (acquire p projection)
unfolding acquire
acquire-Inv p projection v = elim (Bool-cases (projection.generation == 0)) [
  | inl test ↦ rw test (acquire_retired-Inv p projection v)
  | inr n ↦ elim (Option-cases p.upstream) [
    | inl e ↦ rw (n, e) (acquire_fresh-Inv p projection e v)
    | inr (b, e) ↦ rw (n, e) (acquire_current-Inv p b projection e v)
  ]
]

release-Inv : (p : Pool) (i : ℕ) → Inv p → Inv (release p i)
unfolding release
release-Inv p i v = elim (Option-cases (get_elem? p.leases i)) [
  | inl e ↦ subst Inv (ground (arith, e)) v
  | inr (l, e) ↦ elim (Bool-cases l.released) [
    | inl done ↦ subst Inv (ground (arith, e, done)) v
    | inr live ↦ subst Inv (ground (arith, e, live)) (release_generation-Inv p i l e live v)
  ]
]

close_upstream_transports-Inv : (p : Pool) → Inv p → Inv (close_upstream_transports p)
unfolding close_upstream_transports
close_upstream_transports-Inv p v = elim (Option-cases p.upstream) [
  | inl e ↦ subst Inv (ground (arith, e)) v
  | inr (b, e) ↦ subst Inv (ground (arith, e)) (withdraw-Inv p b e v)
]

step-Inv : (p : Pool) (s : Step) → Inv p → Inv (step p s)
unfolding step
step-Inv p (acquires projection) v = acquire-Inv p projection v
step-Inv p (releases i) v = release-Inv p i v
step-Inv p closes_all v = close_upstream_transports-Inv p v
step-Inv p (runs_close a) v = close-Inv p a v
step-Inv p (uses a) v = get_http_transport-Inv p a v

run-Inv : (p : Pool) (steps : List Step) → Inv p → Inv (run p steps)
unfolding run
run-Inv p [] v = v
run-Inv p (s ∷ steps) v = run-Inv (step p s) steps (step-Inv p s v)

-- The invariant holds after any interleaving of the steps from a new pool.
pub run-new_pool-Inv :
    (unused : TransportGeneration) (steps : List Step) → Inv (run (new_pool unused) steps)
run-new_pool-Inv unused steps = run-Inv (new_pool unused) steps (new_pool-Inv unused)
