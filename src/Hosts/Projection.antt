-- ===== src/Hosts/Projection.antt =====
-- What a generation of pooled upstream transports keeps of a document (transport_projection.go): the
-- proxy, the authorization of targets, and a fingerprint of both. `sha256` is a parameter.
pub mod Equal
pub mod Fingerprint
use mihomo_extension_sidecar.Common.{
  ℕ, ◌/◌, ◌%◌, ◌^◌, ◌&&◌, ◌||◌, not, ◌==◌, Bool, true, false, List, [], ◌∷◌, ◌++◌, Option, some,
  none, Bytes, if◌then◌else◌, length, ℤ,
}
use mihomo_extension_sidecar.Configuration.Types.{Document, Extension, HostMapping, ProxyConfig}
use mihomo_extension_sidecar.Hosts.Patterns.{HostText, canonical_host}
use mihomo_extension_sidecar.Hosts.Matcher.{
  CompiledHostMatcher, new_compiled_host_matcher, match_host,
}
use mihomo_extension_sidecar.Hosts.Runtime.{CompiledHosts, find_matcher, active_host_patterns}
use mihomo_extension_sidecar.Hosts.Targets.{Best, resolver_form, take_mapping, valid_port}
use mihomo_extension_sidecar.Socks.Address.{SocksTarget}

pub record UpstreamModuleProjection : Type 0 where
  pub hosts : CompiledHostMatcher
  pub mappings : List HostMapping

pub record UpstreamTargetProjection : Type 0 where
  pub enabled : Bool
  pub active_hosts : CompiledHostMatcher
  pub modules : List UpstreamModuleProjection
  pub network_grant : Bool

pub record UpstreamTransportProjection : Type 0 where
  pub generation : ℕ
  pub proxy : ProxyConfig
  pub http2 : Bool
  pub targets : UpstreamTargetProjection
  pub fingerprint : Bytes

-- `binary.BigEndian.PutUint64`.
unfoldable pub put_uint64 : ℕ → Bytes
put_uint64 n =
    (n / 2 ^ 56) % 256
    ∷ (n / 2 ^ 48) % 256
    ∷ (n / 2 ^ 40) % 256
    ∷ (n / 2 ^ 32) % 256
    ∷ (n / 2 ^ 24) % 256
    ∷ (n / 2 ^ 16) % 256
    ∷ (n / 2 ^ 8) % 256
    ∷ n % 256
    ∷ []

-- What `writeFingerprintField` and `writeFingerprintBool` write.
unfoldable pub fingerprint_field : Bytes → Bytes
fingerprint_field value = put_uint64 (length value) ++ value

unfoldable pub fingerprint_bool : Bool → Bytes
fingerprint_bool value = if value then 1 ∷ [] else 0 ∷ []

-- One piece behind the other.
unfoldable pub joined : List Bytes → Bytes
joined [] = []
joined (piece ∷ pieces) = piece ++ joined pieces

unfoldable pub fingerprint_hosts : List Bytes → Bytes
fingerprint_hosts [] = []
fingerprint_hosts (h ∷ hosts) = fingerprint_field h ++ fingerprint_hosts hosts

unfoldable pub fingerprint_mappings : List HostMapping → Bytes
fingerprint_mappings [] = []
fingerprint_mappings (m ∷ mappings) =
    fingerprint_field m.pattern ++ (fingerprint_field m.target ++ fingerprint_mappings mappings)

module _ (t : HostText) where
  -- The mappings that are not of the resolver form.
  unfoldable pub projected_mappings : List HostMapping → List HostMapping
  projected_mappings [] = []
  projected_mappings (m ∷ mappings) =
      let rest = projected_mappings mappings in
      if resolver_form t m then rest else record { pattern = m.pattern; target = m.target } ∷ rest

  unfoldable pub projected_active_host_matcher :
      Document → Option CompiledHosts → CompiledHostMatcher
  projected_active_host_matcher cfg none =
      new_compiled_host_matcher (active_host_patterns t cfg none)
  projected_active_host_matcher cfg (some r) = r.active_hosts

  unfoldable pub projected_module_host_matcher :
      Option CompiledHosts → Extension → CompiledHostMatcher
  projected_module_host_matcher none m = new_compiled_host_matcher m.capture_hosts
  projected_module_host_matcher (some r) m = elim (find_matcher m.id r.module_hosts) [
    | none ↦ new_compiled_host_matcher m.capture_hosts
    | some matcher ↦ matcher
  ]

  unfoldable pub projected_modules :
      Option CompiledHosts → List Extension → List UpstreamModuleProjection
  projected_modules runtime [] = []
  projected_modules runtime (m ∷ modules) =
      let rest = projected_modules runtime modules in
      if m.enabled
      then record {
        hosts = projected_module_host_matcher runtime m;
        mappings = projected_mappings m.host_mappings;
      }
        ∷ rest
      else rest

  -- `networkGrant` after the walk, from what it was before.
  unfoldable pub network_granted : Bool → List Extension → Bool
  network_granted granted [] = granted
  network_granted granted (m ∷ modules) =
      network_granted (if m.enabled && m.network then true else granted) modules

  unfoldable pub projected_targets : Document → Option CompiledHosts → UpstreamTargetProjection
  projected_targets cfg runtime = record {
    enabled = cfg.mitm.enabled;
    active_hosts = projected_active_host_matcher cfg runtime;
    modules = projected_modules runtime cfg.modules;
    network_grant = network_granted false cfg.modules;
  }

  -- What one enabled module writes to the digest.
  unfoldable pub fingerprint_module : Extension → Bytes
  fingerprint_module m = joined (
      fingerprint_field m.id
      ∷ fingerprint_hosts m.capture_hosts
      ∷ fingerprint_mappings (projected_mappings m.host_mappings)
      ∷ fingerprint_bool m.network
      ∷ [])

  unfoldable pub fingerprint_modules : List Extension → Bytes
  fingerprint_modules [] = []
  fingerprint_modules (m ∷ modules) =
      let rest = fingerprint_modules modules in
      if m.enabled then fingerprint_module m ++ rest else rest

  -- Everything that the digest is given.
  unfoldable pub fingerprint_input : Document → Bytes
  fingerprint_input cfg = joined (
      fingerprint_field cfg.upstream_proxy.address
      ∷ fingerprint_field cfg.upstream_proxy.username
      ∷ fingerprint_field cfg.upstream_proxy.password
      ∷ fingerprint_bool cfg.mitm.http2
      ∷ fingerprint_bool cfg.mitm.enabled
      ∷ fingerprint_modules cfg.modules
      ∷ fingerprint_bool (network_granted false cfg.modules)
      ∷ [])

  unfoldable pub new_upstream_transport_projection :
      (Bytes → Bytes) → ℕ → Document → Option CompiledHosts → UpstreamTransportProjection
  new_upstream_transport_projection sha256 generation cfg runtime = record {
    generation = generation;
    proxy = cfg.upstream_proxy;
    http2 = cfg.mitm.http2;
    targets = projected_targets cfg runtime;
    fingerprint = sha256 (fingerprint_input cfg);
  }

  unfoldable pub best_projected : Bytes → List HostMapping → Best → Best
  best_projected host [] best = best
  best_projected host (m ∷ mappings) best = best_projected host mappings (take_mapping host m best)

  unfoldable pub best_in : Bytes → List UpstreamModuleProjection → Best → Best
  best_in host [] best = best
  best_in host (m ∷ modules) best =
      best_in host modules
        (if match_host t (some m.hosts) host then best_projected host m.mappings best else best)

  unfoldable pub upstream_target : UpstreamTargetProjection → Bytes → Option ℤ → Option SocksTarget
  upstream_target p raw_host port_text =
      if not p.enabled then none else elim (valid_port port_text) [
        | none ↦ none
        | some port ↦
            let host = canonical_host t raw_host in
            if (port == 80 || port == 443) && match_host t (some p.active_hosts) host
            then some (record {
              host = (best_in host p.modules (record { pattern = []; target = host })).target;
              port = port;
            })
            else if p.network_grant
            then some (record { host = host; port = port })
            else none
      ]
