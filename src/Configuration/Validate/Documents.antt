-- ===== src/Configuration/Validate/Documents.antt =====
-- The validators of extensions and of the whole document (validateModulesWithPrograms,
-- validateExecutionOrder, validateModuleNetworkPermissions, validateHostMappings, Config.validate and
-- ValidateCertificateRequest in config.go).
use mihomo_extension_sidecar.Common.{
  ℕ, ◌+◌, ◌*◌, ◌^◌, ◌==◌, ltb, leb, Bool, true, false, not, ◌&&◌, ◌||◌, List, [], ◌∷◌, Option, some,
  none, Bytes, bytes_eq, codes, if◌then◌else◌, length, pos, int_eq, set_mem,
}
use mihomo_extension_sidecar.Configuration.Types.{Extension, HostMapping, Document}
use mihomo_extension_sidecar.Hosts.Patterns.{canonical_host, host_covered_by, contains_byte}
use mihomo_extension_sidecar.Hosts.Runtime.{certificate_host_patterns}
use mihomo_extension_sidecar.Configuration.Validate.{
  Checks, each, strings_are_sorted, valid_host_pattern, valid_host_target, valid_module_id,
  valid_snapshot_url, validate_loopback_address,
}
use mihomo_extension_sidecar.Configuration.Validate.Routing.{validate_routing_rules}
use mihomo_extension_sidecar.Configuration.Validate.Settings.{
  validate_module_settings, module_settings_ready,
}
use mihomo_extension_sidecar.Configuration.Validate.Actions.{valid_actions, script_bytes}

abbrev pub max_module_capture_hosts : ℕ
max_module_capture_hosts = 512

abbrev pub max_certificate_hosts : ℕ
max_certificate_hosts = 512

abbrev pub max_active_module_routing_rules : ℕ
max_active_module_routing_rules = 2048

-- The ids of the modules.
abbrev pub ids : List Extension → List Bytes
ids [] = []
ids (m ∷ modules) = m.id ∷ ids modules

-- The loop over the order.
unfoldable pub valid_order : List Bytes → List Bytes → List Bytes → Bool
valid_order module_ids seen [] = true
valid_order module_ids seen (id ∷ order) =
    set_mem id module_ids && not (set_mem id seen) && valid_order module_ids (id ∷ seen) order

unfoldable pub validate_execution_order : List Extension → Option (List Bytes) → Bool
unfolding valid_order
validate_execution_order modules none = false
validate_execution_order modules (some order) =
    length order == length modules && valid_order (ids modules) [] order

-- A read of `activeMappings`.
unfoldable pub find_target : Bytes → List HostMapping → Option Bytes
find_target pattern [] = none
find_target pattern (m ∷ mappings) =
    let rest = find_target pattern mappings in
    if bytes_eq m.pattern pattern then some m.target else rest

-- The loop that adds the mappings of an enabled module; none is a conflict.
unfoldable pub add_mappings : List HostMapping → List HostMapping → Option (List HostMapping)
unfolding find_target
add_mappings active [] = some active
add_mappings active (m ∷ mappings) =
    let rest = add_mappings (m ∷ active) mappings in
    elim (find_target m.pattern active) [
      | none ↦ rest
      | some target ↦ if bytes_eq target m.target then rest else none
    ]

module _ (k : Checks) where
  unfoldable pub validate_module_network_permissions : Extension → Bool
  validate_module_network_permissions m =
      not (m.enabled && m.egress_group_required && length (k.text.trim_space m.egress_group) == 0)
      && (if length m.egress_group == 0
          then true
          else not (bytes_eq m.egress_group (codes "__5GPN_TERMINAL_MATCH__"))
            && k.valid_utf8 m.egress_group
            && bytes_eq m.egress_group (k.text.trim_space m.egress_group)
            && leb (length m.egress_group) 128
            && not (contains_byte m.egress_group b',')
            && not (k.has_control m.egress_group))

  -- The loop over the mappings of one module, with the patterns that were seen.
  unfoldable pub valid_mappings : List Bytes → List Bytes → List HostMapping → Bool
  valid_mappings capture_hosts seen [] = true
  valid_mappings capture_hosts seen (m ∷ mappings) =
      valid_host_pattern k m.pattern
      && host_covered_by capture_hosts m.pattern
      && valid_host_target k m.target
      && not (set_mem m.pattern seen)
      && valid_mappings capture_hosts (m.pattern ∷ seen) mappings

  unfoldable pub validate_host_mappings : List Bytes → List HostMapping → Bool
  unfolding valid_mappings
  validate_host_mappings capture_hosts mappings = valid_mappings capture_hosts [] mappings

  -- A capture host is a valid pattern in its canonical form.
  unfoldable pub valid_capture_host : Bytes → Bool
  valid_capture_host host = valid_host_pattern k host && bytes_eq host (canonical_host k.text host)

  abbrev pub valid_capture_dns : Extension → Bool
  valid_capture_dns m =
      bytes_eq m.capture_dns (codes "trust") || bytes_eq m.capture_dns (codes "china")

  unfoldable pub valid_capture_hosts : List Bytes → Bool
  unfolding valid_capture_host
  valid_capture_hosts hosts =
      not (length hosts == 0)
      && leb (length hosts) max_module_capture_hosts
      && strings_are_sorted hosts
      && each valid_capture_host hosts

  -- What is checked of a module by itself.
  unfoldable pub valid_module : Extension → Bool
  unfolding valid_capture_hosts validate_host_mappings validate_module_network_permissions
  valid_module m =
      valid_module_id m.id
      && k.rfc3339 m.imported_at
      && not (length (k.text.trim_space m.version) == 0)
      && leb (length m.version) 64
      && not (length (k.text.trim_space m.name) == 0)
      && leb (length m.name) 128
      && leb (length m.description) 1024
      && not (length m.source.body == 0)
      && leb (length m.source.body) (2 * 2 ^ 20)
      && bytes_eq m.source.digest (k.digest_text m.source.body)
      && leb (length m.source.url) 4096
      && (length m.source.url == 0 || valid_snapshot_url k m.source.url)
      && valid_capture_hosts m.capture_hosts
      && valid_capture_dns m
      && not (length m.scripts + length m.host_mappings == 0)
      && leb (length m.scripts + length m.host_mappings) 256
      && validate_module_settings k m.settings m.enabled
      && validate_host_mappings m.capture_hosts m.host_mappings
      && validate_module_network_permissions m
      && validate_routing_rules k m.routing_rules
      && valid_actions k m [] m.scripts
      && leb (script_bytes m.scripts) (8 * 2 ^ 20)
      && (not m.enabled || module_settings_ready k m.settings)

  -- The loop over the modules: the ids seen, the active mappings and the active routing rules.
  unfoldable pub valid_modules : List Bytes → List HostMapping → ℕ → List Extension → Bool
  unfolding valid_module add_mappings
  valid_modules seen active rules [] = true
  valid_modules seen active rules (m ∷ modules) =
      let count = if m.enabled then rules + length m.routing_rules else rules in
      let skip = valid_modules (m.id ∷ seen) active count modules in
      valid_module m
      && not (set_mem m.id seen)
      && not (m.enabled && ltb max_active_module_routing_rules count)
      && (if m.enabled
          then elim (add_mappings active m.host_mappings) as (λ _. Bool) [
            | none ↦ false
            | some now ↦ valid_modules (m.id ∷ seen) now count modules
          ]
          else skip)

  unfoldable pub validate_modules : List Extension → Bool
  unfolding valid_modules
  validate_modules modules = leb (length modules) 64 && valid_modules [] [] 0 modules

  abbrev pub valid_credentials : Bytes → Bytes → Bool
  valid_credentials username password =
      leb 16 (length username)
      && leb 24 (length password)
      && leb (length username) 255
      && leb (length password) 255

  -- `Config.validate`.
  unfoldable pub validate : Document → Bool
  unfolding validate_modules validate_execution_order
  validate c =
      int_eq c.version (pos 6)
      && validate_loopback_address k c.listen
      && validate_loopback_address k c.upstream_proxy.address
      && bytes_eq c.listen (codes "127.0.0.1:18080")
      && bytes_eq c.upstream_proxy.address (codes "127.0.0.1:17890")
      && valid_credentials c.username c.password
      && valid_credentials c.upstream_proxy.username c.upstream_proxy.password
      && not (length (k.text.trim_space c.tls_cert) == 0)
      && not (length (k.text.trim_space c.tls_key) == 0)
      && validate_modules c.modules
      && validate_execution_order c.modules c.execution_order
      && leb (length (certificate_host_patterns k.text c)) max_certificate_hosts

  -- The loop of `ValidateCertificateRequest`.
  unfoldable pub valid_certificate_modules : List Bytes → ℕ → List Extension → Bool
  unfolding validate_module_network_permissions
  valid_certificate_modules seen rules [] = true
  valid_certificate_modules seen rules (m ∷ modules) =
      let count = if m.enabled then rules + length m.routing_rules else rules in
      let rest = valid_certificate_modules (m.id ∷ seen) count modules in
      not (set_mem m.id seen)
      && validate_module_network_permissions m
      && validate_routing_rules k m.routing_rules
      && valid_capture_dns m
      && (if m.enabled
          then leb count max_active_module_routing_rules
            && valid_module_id m.id
            && not (length m.capture_hosts == 0)
            && leb (length m.capture_hosts) max_module_capture_hosts
            && each (valid_host_pattern k) m.capture_hosts
          else true)
      && rest

  unfoldable pub validate_certificate_request : Document → Bool
  unfolding valid_certificate_modules validate_execution_order
  validate_certificate_request c =
      int_eq c.version (pos 6)
      && bytes_eq c.tls_cert (codes "/etc/5gpn/intercept/tls/fullchain.pem")
      && bytes_eq c.tls_key (codes "/etc/5gpn/intercept/tls/privkey.pem")
      && leb (length c.modules) 64
      && validate_execution_order c.modules c.execution_order
      && valid_certificate_modules [] 0 c.modules
      && leb (length (certificate_host_patterns k.text c)) max_certificate_hosts
