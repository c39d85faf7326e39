-- ===== src/Transports.antt =====
-- The generations of pooled upstream transports and their reference counts (proxy.go). The lock
-- `transportMu` makes each critical section one step; a `close` that the source calls after the lock
-- is a step of its own, and `closing` lists the calls that are still to run. Generations live at
-- addresses, and every caller holds a lease: the function that releases it, at most once. The
-- transports themselves, and closing their idle connections, are left out: a generation says whether
-- it has one.
pub mod Counting
pub mod Invariant
pub mod Safety
pub mod Stale
use mihomo_extension_sidecar.Common.{
  ℕ, suc, ◌+◌, ◌-◌, ◌==◌, ltb, Bool, true, false, not, ◌&&◌, List, [], ◌∷◌, ◌++◌, Option, some,
  none, Bytes, bytes_eq, if◌then◌else◌, length, set, get_elem?,
}
use mihomo_extension_sidecar.Hosts.Projection.{UpstreamTransportProjection}

pub record TransportGeneration : Type 0 where
  pub generation : ℕ
  pub projection : UpstreamTransportProjection
  pub http_transport : Bool
  pub closed : Bool
  pub refs : ℕ
  pub retired : Bool

-- The release function of an `acquire`: the generation, and whether its `once` has run.
pub record Lease : Type 0 where
  pub address : ℕ
  pub released : Bool

pub record Pool : Type 0 where
  pub generations : ℕ → TransportGeneration
  pub allocated : ℕ
  pub upstream : Option ℕ
  pub leases : List Lease
  pub closing : List ℕ

unfoldable pub new_transport_generation : UpstreamTransportProjection → TransportGeneration
new_transport_generation projection = record {
  generation = projection.generation;
  projection = projection;
  http_transport = false;
  closed = false;
  refs = 0;
  retired = false;
}

unfoldable pub new_pool : TransportGeneration → Pool
new_pool unused = record {
  generations = λ _. unused;
  allocated = 0;
  upstream = none;
  leases = [];
  closing = [];
}

unfoldable pub put : Pool → ℕ → TransportGeneration → Pool
put p a g = record p { generations = λ b. if b == a then g else p.generations b }

-- A fresh generation at the next address.
unfoldable pub allocate : Pool → TransportGeneration → Pool
unfolding put
allocate p g = record (put p p.allocated g) { allocated = p.allocated + 1 }

-- `refs++`, and the function that releases it.
unfoldable pub lease : Pool → ℕ → Pool
unfolding put
lease p a =
    let g = p.generations a in
    record (put p a (record g { refs = g.refs + 1 })) {
      leases = p.leases ++ record { address = a; released = false } ∷ [];
    }

-- A generation that stays out of the pool.
unfoldable pub acquire_retired : Pool → UpstreamTransportProjection → Pool
unfolding allocate new_transport_generation lease
acquire_retired p projection =
    lease (allocate p (record (new_transport_generation projection) { retired = true })) p.allocated

-- `retired = true`, and the close if nothing uses it.
unfoldable pub retire : Pool → ℕ → Pool
unfolding put
retire p a =
    let g = p.generations a in
    let q = put p a (record g { retired = true }) in
    if g.refs == 0 then record q { closing = p.closing ++ a ∷ [] } else q

-- A generation that becomes the pool's own.
unfoldable pub acquire_fresh : Pool → UpstreamTransportProjection → Pool
unfolding allocate new_transport_generation lease
acquire_fresh p projection =
    lease
      (record (allocate p (new_transport_generation projection)) { upstream = some p.allocated })
      p.allocated

-- `acquireUpstreamTransportGeneration`, where the pool has a generation at `a`.
unfoldable pub acquire_current : Pool → ℕ → UpstreamTransportProjection → Pool
unfolding put lease retire acquire_fresh acquire_retired
acquire_current p a projection =
    let g = p.generations a in
    if ltb g.generation projection.generation
    then if bytes_eq projection.fingerprint g.projection.fingerprint
      then lease (put p a (record g { generation = projection.generation })) a
      else acquire_fresh (retire p a) projection
    else if ltb projection.generation g.generation
    then acquire_retired p projection
    else lease p a

-- `acquireUpstreamTransportGeneration`: the generation that is used is that of the last lease.
unfoldable pub acquire : Pool → UpstreamTransportProjection → Pool
unfolding acquire_retired acquire_fresh acquire_current
acquire p projection =
    if projection.generation == 0 then acquire_retired p projection else elim p.upstream [
      | none ↦ acquire_fresh p projection
      | some a ↦ acquire_current p a projection
    ]

-- `releaseUpstreamTransportGeneration`.
unfoldable pub release_generation : Pool → ℕ → Pool
unfolding put
release_generation p a =
    let g = p.generations a in
    let refs = g.refs - 1 in
    let q = put p a (record g { refs = refs }) in
    if g.retired && refs == 0 then record q { closing = p.closing ++ a ∷ [] } else q

-- A call of a release function.
unfoldable pub release : Pool → ℕ → Pool
unfolding release_generation
release p i = elim (get_elem? p.leases i) [
  | none ↦ p
  | some l ↦
      if l.released
      then p
      else release_generation
          (record p { leases = set p.leases i (record { address = l.address; released = true }) })
          l.address
]

-- `closeUpstreamTransports`.
unfoldable pub close_upstream_transports : Pool → Pool
unfolding retire
close_upstream_transports p = elim p.upstream [
  | none ↦ p
  | some a ↦ record (retire p a) { upstream = none }
]

-- Without the first entry that is `a`.
unfoldable pub remove_first : ℕ → List ℕ → List ℕ
remove_first a [] = []
remove_first a (b ∷ bs) = let rest = remove_first a bs in if b == a then bs else b ∷ rest

unfoldable pub is_in : ℕ → List ℕ → Bool
is_in a [] = false
is_in a (b ∷ bs) = if b == a then true else is_in a bs

-- One of the closes that wait runs; `closeOnce` makes a second one do nothing.
unfoldable pub close : Pool → ℕ → Pool
unfolding put remove_first is_in
close p a =
    if is_in a p.closing
    then record (put p a (record (p.generations a) { closed = true; http_transport = false })) {
      closing = remove_first a p.closing;
    }
    else p

-- `getHTTPTransport`: whether there is a transport, made if need be.
unfoldable pub get_http_transport : Pool → ℕ → Bool × Pool
unfolding put
get_http_transport p a =
    let g = p.generations a in
    if g.closed then (false, p) else (true, put p a (record g { http_transport = true }))

pub data Step : Type 0 where
  acquires : UpstreamTransportProjection → Step
  releases : ℕ → Step
  closes_all : Step
  runs_close : ℕ → Step
  uses : ℕ → Step

unfoldable pub step : Pool → Step → Pool
unfolding acquire release close_upstream_transports close get_http_transport
step p (acquires projection) = acquire p projection
step p (releases i) = release p i
step p closes_all = close_upstream_transports p
step p (runs_close a) = close p a
step p (uses a) = (get_http_transport p a).1

unfoldable pub run : Pool → List Step → Pool
unfolding step
run p [] = p
run p (s ∷ steps) = run (step p s) steps
