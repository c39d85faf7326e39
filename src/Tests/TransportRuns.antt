-- ===== src/Tests/TransportRuns.antt =====
-- Runs of the pool of transports: two leases, a document that replaces the pool's generation, and the
-- release of the leases.
use mihomo_extension_sidecar.Common.{
  ℕ, true, false, ◌||◌, List, [], ◌∷◌, ◌++◌, some, none, Bytes, codes, bytes_eq, ◌≡◌, refl, arith,
}
use mihomo_extension_sidecar.Configuration.Types.{Document, HostMapping}
use mihomo_extension_sidecar.Hosts.Patterns.{has_prefix, cut_wildcard}
use mihomo_extension_sidecar.Hosts.Targets.{resolver_form}
use mihomo_extension_sidecar.Hosts.Projection.{
  UpstreamTransportProjection, new_upstream_transport_projection,
}
use mihomo_extension_sidecar.Transports.{
  TransportGeneration, Pool, Step, acquires, releases, runs_close, uses, new_transport_generation,
  new_pool, put, allocate, lease, acquire_retired, retire, acquire_fresh, acquire_current, acquire,
  release_generation, release, close_upstream_transports, remove_first, is_in, close,
  get_http_transport, step, run,
}
use mihomo_extension_sidecar.Transports.Counting.{live_leases}
use mihomo_extension_sidecar.Transports.Safety.{Newest, held_not_closed, unused_closes}
use mihomo_extension_sidecar.Transports.Stale.{listed_document, mapped_document, acquire_stale}
use mihomo_extension_sidecar.Tests.HostRuns.{ascii, mapping, document, ads}

unfoldable running : Bytes
unfolding bytes_eq new_transport_generation new_pool put allocate lease acquire_retired retire
    acquire_fresh acquire_current acquire release_generation release close_upstream_transports
    remove_first is_in close get_http_transport step run live_leases has_prefix cut_wildcard
    resolver_form new_upstream_transport_projection
running = []

-- A projection of a generation, told apart by one byte.
abbrev projection : ℕ → ℕ → UpstreamTransportProjection
projection generation print = record {
  generation = generation;
  proxy = record { address = []; username = []; password = [] };
  http2 = false;
  targets = record {
    enabled = true;
    active_hosts = record { exact = []; wildcard = [] };
    modules = [];
    network_grant = false;
  };
  fingerprint = print ∷ [];
}

abbrev unused : TransportGeneration
unused = record {
  generation = 0;
  projection = projection 0 0;
  http_transport = false;
  closed = false;
  refs = 0;
  retired = false;
}

abbrev replaced : List Step
replaced = acquires (projection 1 7) ∷ acquires (projection 2 8) ∷ uses 0 ∷ []

abbrev drained : List Step
drained = replaced ++ releases 0 ∷ runs_close 0 ∷ []

abbrev after : List Step → Pool
after steps = run (new_pool unused) steps

closes_drained :
    (((after drained).generations 0).closed ≡ true) × ((after drained).upstream ≡ some 1)
unfolding running
closes_drained = (refl, refl)

held_not_closed_example :
    (((after replaced).generations 0).closed ≡ false)
    × ((get_http_transport (after replaced) 0).0 ≡ true)
unfolding running
held_not_closed_example =
    held_not_closed unused replaced 0 (record { address = 0; released = false }) refl refl

unused_closes_example :
    (((after drained).generations 0).closed || is_in 0 (after drained).closing) ≡ true
unfolding running
unused_closes_example = unused_closes unused drained 0 (omega arith) refl refl

-- The pool of the document that maps `x.a.com` to `d.net`.
abbrev hosts : List Bytes
hosts = codes "*.a.com" ∷ []

abbrev moved : HostMapping
moved = mapping (codes "x.a.com") (codes "d.net")

abbrev old : Document
old = mapped_document ascii ads hosts moved [] (document []) [] []

abbrev new : Document
new = listed_document ascii ads hosts moved [] (document []) [] []

abbrev sum : Bytes → Bytes
sum input = input

abbrev pool : Pool
pool = after (acquires (new_upstream_transport_projection ascii sum 1 old none) ∷ [])

acquire_stale_example :
    let q = acquire pool (new_upstream_transport_projection ascii sum 2 new none) in
    Newest pool q 0
    × ((q.generations 0).projection ≡ new_upstream_transport_projection ascii sum 1 old none)
unfolding running
acquire_stale_example =
    acquire_stale ascii ads hosts moved [] (document []) [] [] sum pool 0 1 2 none none refl refl
      refl (omega arith)
