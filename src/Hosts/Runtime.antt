-- ===== src/Hosts/Runtime.antt =====
-- Which hosts a configuration intercepts and which module owns one (config.go), with the host part of
-- `compileScriptConfigWithPrograms` (module_runtime.go). A document comes with its compiled
-- matchers, or with none where it was never compiled.
use mihomo_extension_sidecar.Common.{
  ◌&&◌, ltb, Bool, false, List, [], ◌∷◌, ◌++◌, Option, some, none, Bytes, bytes_eq, if◌then◌else◌,
  length,
}
use mihomo_extension_sidecar.Configuration.Types.{Document, Extension}
use mihomo_extension_sidecar.Hosts.Patterns.{HostText, canonical_host, any_matches, unique_sorted}
use mihomo_extension_sidecar.Hosts.Matcher.{
  CompiledHostMatcher, new_compiled_host_matcher, match_host,
}

-- The host matchers of `compiledScriptConfig`; the last entry of an id comes first.
pub record CompiledHosts : Type 0 where
  pub module_hosts : List (Bytes × CompiledHostMatcher)
  pub active_hosts : CompiledHostMatcher
  pub active_patterns : List Bytes

-- A read of `moduleHosts`: a missing id reads as a nil matcher.
unfoldable pub find_matcher :
    Bytes → List (Bytes × CompiledHostMatcher) → Option CompiledHostMatcher
find_matcher id [] = none
find_matcher id ((key, m) ∷ entries) =
    let rest = find_matcher id entries in if bytes_eq key id then some m else rest

-- The capture hosts of the enabled modules, in the order of the document.
unfoldable pub enabled_hosts : List Extension → List Bytes
enabled_hosts [] = []
enabled_hosts (m ∷ modules) =
    let rest = enabled_hosts modules in if m.enabled then m.capture_hosts ++ rest else rest

-- The walk that fills `moduleHosts`.
unfoldable pub add_module_hosts :
    List (Bytes × CompiledHostMatcher) → List Extension → List (Bytes × CompiledHostMatcher)
add_module_hosts entries [] = entries
add_module_hosts entries (m ∷ modules) =
    add_module_hosts
      (if m.enabled then (m.id, new_compiled_host_matcher m.capture_hosts) ∷ entries else entries)
      modules

module _ (t : HostText) where
  unfoldable pub compile_hosts : Document → CompiledHosts
  compile_hosts cfg =
      let patterns = unique_sorted t (if cfg.mitm.enabled then enabled_hosts cfg.modules else []) in
      record {
        module_hosts = add_module_hosts [] cfg.modules;
        active_hosts = new_compiled_host_matcher patterns;
        active_patterns = patterns;
      }

  unfoldable pub active_host_patterns : Document → Option CompiledHosts → List Bytes
  active_host_patterns cfg runtime =
      if cfg.mitm.enabled
      then elim runtime [
        | none ↦ unique_sorted t (enabled_hosts cfg.modules)
        | some r ↦ r.active_patterns
      ]
      else []

  unfoldable pub active_intercept_host : Document → Option CompiledHosts → Bytes → Bool
  unfolding active_host_patterns
  active_intercept_host cfg runtime value =
      if cfg.mitm.enabled
      then elim runtime [
        | none ↦ any_matches (active_host_patterns cfg none) (canonical_host t value)
        | some r ↦ match_host t (some r.active_hosts) value
      ]
      else false

  unfoldable pub has_active_extensions : Document → Option CompiledHosts → Bool
  unfolding active_host_patterns
  has_active_extensions cfg runtime =
      cfg.mitm.enabled && ltb 0 (length (active_host_patterns cfg runtime))

  unfoldable pub module_owns_host : Extension → Bytes → Bool
  module_owns_host m host = any_matches m.capture_hosts (canonical_host t host)

  unfoldable pub module_captures_host : Option CompiledHosts → Extension → Bytes → Bool
  unfolding module_owns_host
  module_captures_host none m host = module_owns_host m host
  module_captures_host (some r) m host = elim (find_matcher m.id r.module_hosts) [
    | none ↦ module_owns_host m host
    | some matcher ↦ match_host t (some matcher) host
  ]

  unfoldable pub certificate_host_patterns : Document → List Bytes
  certificate_host_patterns cfg = unique_sorted t (enabled_hosts cfg.modules)
