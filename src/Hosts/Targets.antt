-- ===== src/Hosts/Targets.antt =====
-- Where a request is sent: the mapping of a captured host (config.go), the authorization of the
-- upstream leg on a document (module_request_rewrite.go), and on the projection of it that a pool of
-- transports keeps (transport_projection.go). A port is given as what `strconv.Atoi` answers; `is_ip`
-- is whether `net.ParseIP` accepts a text.
pub mod Choice
use mihomo_extension_sidecar.Common.{
  ℕ, ◌&&◌, ◌||◌, not, ◌==◌, ltb, leb, Bool, true, false, List, [], ◌∷◌, ◌++◌, Option, some, none,
  Bytes, bytes_eq, codes, if◌then◌else◌, length, ℤ, pos, negsuc,
}
use mihomo_extension_sidecar.Configuration.Types.{Document, Extension, HostMapping}
use mihomo_extension_sidecar.Hosts.Patterns.{
  HostText, normal, has_prefix, canonical_host, match_host_pattern,
}
use mihomo_extension_sidecar.Hosts.Matcher.{
  CompiledHostMatcher, new_compiled_host_matcher, match_host,
}
use mihomo_extension_sidecar.Hosts.Runtime.{
  CompiledHosts, find_matcher, active_host_patterns, active_intercept_host, module_owns_host,
}
use mihomo_extension_sidecar.Socks.Address.{SocksTarget}

-- `bestPattern` and `target` of the loops over the mappings.
pub record Best : Type 0 where
  pub pattern : Bytes
  pub target : Bytes

unfoldable pub take_mapping : Bytes → HostMapping → Best → Best
take_mapping host mapping best =
    if match_host_pattern mapping.pattern host
      && (bytes_eq mapping.pattern host || ltb (length best.pattern) (length mapping.pattern))
    then record { pattern = mapping.pattern; target = mapping.target }
    else best

-- `Atoi` and the range of a port.
abbrev pub valid_port : Option ℤ → Option ℕ
valid_port none = none
valid_port (some (negsuc n)) = none
valid_port (some (pos n)) = if ltb n 1 || ltb 65535 n then none else some n

module _ (t : HostText) where
  unfoldable pub resolver_form : HostMapping → Bool
  resolver_form mapping = has_prefix (normal t mapping.target) (codes "server:")

  unfoldable pub best_mapping : Bytes → List HostMapping → Best → Best
  best_mapping host [] best = best
  best_mapping host (mapping ∷ mappings) best =
      best_mapping host mappings
        (if resolver_form mapping then best else take_mapping host mapping best)

  -- Whether a module owns a host, in `mappedInterceptTarget`.
  unfoldable pub owns : Option CompiledHosts → Extension → Bytes → Bool
  owns none m host = module_owns_host t m host
  owns (some r) m host = match_host t (find_matcher m.id r.module_hosts) host

  unfoldable pub mapped_in : Option CompiledHosts → Bytes → List Extension → Best → Best
  mapped_in runtime host [] best = best
  mapped_in runtime host (m ∷ modules) best =
      mapped_in runtime host modules
        (if m.enabled && owns runtime m host then best_mapping host m.host_mappings best else best)

  unfoldable pub mapped_intercept_target : Document → Option CompiledHosts → Bytes → Bytes
  mapped_intercept_target cfg runtime value =
      let host = canonical_host t value in
      (mapped_in runtime host cfg.modules (record { pattern = []; target = host })).target

  unfoldable pub holds_network : List Extension → Bool
  holds_network [] = false
  holds_network (m ∷ modules) = (m.enabled && m.network) || holds_network modules

  unfoldable pub active_module_upstream_target :
      Document → Option CompiledHosts → Bytes → Option ℤ → Option SocksTarget
  active_module_upstream_target cfg runtime raw_host port_text =
      if not cfg.mitm.enabled then none else elim (valid_port port_text) [
        | none ↦ none
        | some port ↦
            let host = canonical_host t raw_host in
            if (port == 80 || port == 443) && active_intercept_host t cfg runtime host
            then some (record { host = mapped_intercept_target cfg runtime host; port = port })
            else if holds_network cfg.modules
            then some (record { host = host; port = port })
            else none
      ]

  unfoldable pub allowed_inbound_socks_target :
      (Bytes → Bool) → Document → Option CompiledHosts → SocksTarget → Bool
  allowed_inbound_socks_target is_ip cfg runtime target =
      if not cfg.mitm.enabled || (not (target.port == 80) && not (target.port == 443))
      then false
      else active_intercept_host t cfg runtime target.host || is_ip target.host
