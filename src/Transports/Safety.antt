-- ===== src/Transports/Safety.antt =====
-- What the references are for: what is in use is never closed, what is retired and unused is closed,
-- and a new document keeps the pool exactly if its fingerprint is the same.
use mihomo_extension_sidecar.Common.{
  ℕ, ◌<◌, true, false, ◌||◌, List, some, get_elem?, length, ◌≡◌, arith, ◌≢◌, bytes_eq_iff,
  get_elem?-append_at,
}
use mihomo_extension_sidecar.Hosts.Projection.{UpstreamTransportProjection}
use mihomo_extension_sidecar.Transports.Counting.{live_leases, live_leases-held}
use mihomo_extension_sidecar.Transports.Invariant.{run-new_pool-Inv}
use mihomo_extension_sidecar.Transports.{
  Pool, Lease, TransportGeneration, Step, new_pool, run, get_http_transport, is_in, acquire,
  acquire_current, lease, put, acquire_fresh, allocate, retire, new_transport_generation,
}

module _ (unused : TransportGeneration) (steps : List Step) where
  abbrev reached : Pool
  reached = run (new_pool unused) steps

  -- In every state that a new pool can reach: the generation of a lease that is not released is not
  -- closed, and hands out a transport.
  pub held_not_closed :
      (i : ℕ) (l : Lease)
      → get_elem? reached.leases i ≡ some l
      → l.released ≡ false
      → ((reached.generations l.address).closed ≡ false)
        × ((get_http_transport reached l.address).0 ≡ true)
  unfolding get_http_transport
  held_not_closed i l e live =
      ground
        (arith, live_leases-held i reached.leases l e live, run-new_pool-Inv unused steps l.address)

  -- In every state that a new pool can reach, the pool's own generation is neither retired nor closed,
  -- and it is the only one of those that exist which is not retired.
  pub upstream_not_retired :
      (a : ℕ)
      → a < reached.allocated
      → ((reached.upstream ≡ some a)
          → ((reached.generations a).retired ≡ false) × ((reached.generations a).closed ≡ false))
        × (((reached.generations a).retired ≡ false) → reached.upstream ≡ some a)
  upstream_not_retired a h = ground (arith, run-new_pool-Inv unused steps a)

  -- In every state that a new pool can reach, a retired generation with no lease left is closed, or its
  -- close waits to run; so once no close waits, nothing that is retired and unused stays open.
  pub unused_closes :
      (a : ℕ)
      → a < reached.allocated
      → (reached.generations a).retired ≡ true
      → live_leases a reached.leases ≡ 0
      → ((reached.generations a).closed || is_in a reached.closing) ≡ true
  unused_closes a h r n = ground (arith, run-new_pool-Inv unused steps a)

-- The generation that the newest lease stands for.
abbrev pub Newest : Pool → Pool → ℕ → Type 0
Newest p q a =
    get_elem? q.leases (length p.leases) ≡ some (record { address = a; released = false })

module _ (p : Pool) (a : ℕ) (projection : UpstreamTransportProjection) where
  -- Where the pool has a generation and a newer document arrives: the caller is given the pool's own
  -- generation with its old projection if the fingerprint is the same, and otherwise a new one with the
  -- new projection, which becomes the pool's own.
  pub acquire_newer :
      p.upstream ≡ some a
      → (p.generations a).generation < projection.generation
      → let q = acquire p projection in
        (projection.fingerprint ≡ (p.generations a).projection.fingerprint
          → Newest p q a
            × ((q.generations a).projection ≡ (p.generations a).projection)
            × (q.upstream ≡ some a))
        × (projection.fingerprint ≢ (p.generations a).projection.fingerprint
            → Newest p q p.allocated
              × ((q.generations p.allocated).projection ≡ projection)
              × (q.upstream ≡ some p.allocated))
  unfolding acquire acquire_current lease put acquire_fresh allocate retire new_transport_generation
  acquire_newer up newer =
      let n = get_elem?-append_at p.leases in
      let k = bytes_eq_iff projection.fingerprint (p.generations a).projection.fingerprint in
      (
        λ same. ground (arith, up, newer, k, same, n (record { address = a; released = false })),
        λ other.
            ground
              (arith, up, newer, k, other, n (record { address = p.allocated; released = false })),
      )
