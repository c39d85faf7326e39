-- ===== src/Tests/HostRuns.antt =====
-- Runs of the host patterns, the targets and the projection: one extension maps a host.
use mihomo_extension_sidecar.Common.{
  ◌+◌, ◌&&◌, leb, true, false, List, [], ◌∷◌, some, none, Bytes, codes, bytes_eq, map, ◌≡◌, inl,
  refl, arith, if◌then◌else◌, ℕ, pos, set_mem, sort, insert_sorted, bytes_lt, set_add,
}
use mihomo_extension_sidecar.Configuration.Types.{Document, Extension, HostMapping}
use mihomo_extension_sidecar.Hosts.Patterns.{
  HostText, canonical_host, any_matches, has_prefix, has_suffix, contains_byte, trim_dot,
  cut_wildcard, match_host_pattern, host_pattern_covers, host_covered_by, unique_values,
  unique_sorted,
}
use mihomo_extension_sidecar.Hosts.Patterns.Laws.{host_covered_by-any_matches}
use mihomo_extension_sidecar.Hosts.Matcher.{
  match_canonical, new_compiled_host_matcher, new_compiled_host_matcher-any_matches, add_pattern,
  add_patterns, matches_suffix, any_suffix, match_host,
}
use mihomo_extension_sidecar.Hosts.Runtime.{
  compile_hosts, active_intercept_host, active_host_patterns, enabled_hosts, module_owns_host,
  find_matcher, add_module_hosts,
}
use mihomo_extension_sidecar.Hosts.Targets.{
  mapped_intercept_target, active_module_upstream_target, resolver_form, take_mapping, best_mapping,
  owns, mapped_in, holds_network,
}
use mihomo_extension_sidecar.Hosts.Targets.Choice.{
  Choice, candidates, mapped_intercept_target-longest,
}
use mihomo_extension_sidecar.Hosts.Projection.{projected_targets, upstream_target}
use mihomo_extension_sidecar.Hosts.Projection.Equal.{upstream_target-active_module_upstream_target}

-- Brings the definitions that a run computes with.
unfoldable running : Bytes
unfolding canonical_host any_matches has_prefix has_suffix contains_byte trim_dot cut_wildcard
    match_host_pattern host_pattern_covers host_covered_by unique_values unique_sorted
    match_canonical new_compiled_host_matcher add_pattern add_patterns matches_suffix any_suffix
    match_host compile_hosts active_intercept_host active_host_patterns enabled_hosts
    module_owns_host find_matcher add_module_hosts mapped_intercept_target
    active_module_upstream_target resolver_form take_mapping best_mapping owns mapped_in
    holds_network bytes_eq set_mem sort insert_sorted bytes_lt set_add
running = []

abbrev lower_byte : ℕ → ℕ
lower_byte c = if leb 65 c && leb c 90 then c + 32 else c

abbrev pub ascii : HostText
ascii = record { to_lower = map lower_byte; trim_space = λ s. s; split_host = λ s. none }

abbrev pub mapping : Bytes → Bytes → HostMapping
mapping pattern target = record { pattern = pattern; target = target }

abbrev pub extension : List Bytes → List HostMapping → Extension
extension hosts mappings = record {
  id = codes "ads";
  version = codes "1";
  name = codes "Ads";
  description = [];
  enabled = true;
  imported_at = codes "2026-01-01T00:00:00Z";
  source = record { url = []; digest = codes "m"; body = codes "m" };
  capture_hosts = hosts;
  capture_dns = codes "trust";
  host_mappings = mappings;
  routing_rules = [];
  settings = [];
  scripts = [];
  persistent_storage = false;
  network = false;
  egress_group_required = false;
  egress_group = [];
}

abbrev pub ads : Extension
ads =
    extension (codes "*.a.com" ∷ codes "b.org" ∷ [])
      (mapping (codes "*.a.com") (codes "c.net") ∷ mapping (codes "x.a.com") (codes "d.net") ∷ [])

abbrev pub document : List Extension → Document
document modules = record {
  version = pos 6;
  execution_order = some (codes "ads" ∷ []);
  listen = codes "127.0.0.1:18080";
  username = codes "user";
  password = codes "pass";
  tls_cert = codes "cert";
  tls_key = codes "key";
  upstream_proxy = record {
    address = codes "127.0.0.1:17890";
    username = codes "user";
    password = codes "pass";
  };
  mitm = record { enabled = true; http2 = false; quic_fallback_protection = false };
  modules = modules;
}

exact_wins :
    mapped_intercept_target ascii (document (ads ∷ [])) none (codes "X.a.com.") ≡ codes "d.net"
unfolding running
exact_wins = refl

maps :
    active_module_upstream_target ascii
      (document (ads ∷ []))
      none
      (codes "y.a.com")
      (some (pos 443))
    ≡ some (record { host = codes "c.net"; port = 443 })
unfolding running
maps = refl

new_compiled_host_matcher-any_matches_example :
    match_canonical (new_compiled_host_matcher ads.capture_hosts) (codes "x.a.com")
    ≡ any_matches ads.capture_hosts (codes "x.a.com")
new_compiled_host_matcher-any_matches_example =
    new_compiled_host_matcher-any_matches ads.capture_hosts (codes "x.a.com")

no_dot : (s : Bytes) → codes "*.x.a.com" ≡ 46 ∷ s → ⊥
no_dot s e = ground (arith, e)

host_covered_by-any_matches_example : any_matches ads.capture_hosts (codes "z.x.a.com") ≡ true
unfolding running
host_covered_by-any_matches_example =
    host_covered_by-any_matches ads.capture_hosts (codes "*.x.a.com") (codes "z.x.a.com") no_dot
      refl refl

mapped_intercept_target-longest_example :
    Choice
      (canonical_host ascii (codes "x.a.com"))
      (candidates ascii (canonical_host ascii (codes "x.a.com")) none (ads ∷ []))
      (mapped_intercept_target ascii (document (ads ∷ [])) none (codes "x.a.com"))
mapped_intercept_target-longest_example =
    mapped_intercept_target-longest ascii (document (ads ∷ [])) none (codes "x.a.com")

upstream_target-active_module_upstream_target_example :
    upstream_target ascii
      (projected_targets ascii (document (ads ∷ [])) none)
      (codes "y.a.com")
      (some (pos 443))
    ≡ active_module_upstream_target ascii
        (document (ads ∷ []))
        none
        (codes "y.a.com")
        (some (pos 443))
unfolding running
upstream_target-active_module_upstream_target_example =
    upstream_target-active_module_upstream_target ascii (document (ads ∷ [])) none (codes "y.a.com")
      (some (pos 443)) (inl refl) refl
