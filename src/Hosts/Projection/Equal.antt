-- ===== src/Hosts/Projection/Equal.antt =====
-- The projection that a pool of transports keeps authorizes and maps targets as the document does
-- (upstreamTarget in transport_projection.go, activeModuleUpstreamTarget in
-- module_request_rewrite.go), compiled or not.
use mihomo_extension_sidecar.Common.{
  ◌||◌, Bool, true, false, List, [], ◌∷◌, Option, some, none, Bytes, bytes_eq, bytes_eq_refl, ℤ,
  ◌≡◌, ◌⊎◌, inl, inr, refl, sym, arith, All, Bool-cases,
}
use mihomo_extension_sidecar.Configuration.Types.{Document, Extension, HostMapping}
use mihomo_extension_sidecar.Hosts.Patterns.{HostText, canonical_host}
use mihomo_extension_sidecar.Hosts.Matcher.{
  CompiledHostMatcher, new_compiled_host_matcher, match_host, new_compiled_host_matcher-any_matches,
}
use mihomo_extension_sidecar.Hosts.Runtime.{
  CompiledHosts, find_matcher, add_module_hosts, compile_hosts, active_host_patterns,
  active_intercept_host, module_owns_host,
}
use mihomo_extension_sidecar.Hosts.Targets.{
  Best, take_mapping, best_mapping, owns, mapped_in, mapped_intercept_target, holds_network,
  active_module_upstream_target,
}
use mihomo_extension_sidecar.Hosts.Projection.{
  projected_mappings, projected_active_host_matcher, projected_module_host_matcher,
  projected_modules, network_granted, projected_targets, best_projected, best_in, upstream_target,
}

-- The matchers hold an entry under the id of every enabled module.
abbrev Covers : Option CompiledHosts → List Extension → Type 0
Covers none modules = Unit
Covers (some r) modules =
    All
      (λ m.
        m.enabled ≡ true → (c : CompiledHostMatcher) × (find_matcher m.id r.module_hosts ≡ some c))
      modules

Covers-cons :
    (runtime : Option CompiledHosts) (m : Extension) (modules : List Extension)
    → Covers runtime (m ∷ modules)
    → Covers runtime (m ∷ []) × Covers runtime modules
Covers-cons none m modules c = (tt, tt)
Covers-cons (some r) m modules c = ((c.0, tt), c.1)

-- An entry that is there stays found.
find_matcher-add :
    (id : Bytes) (modules : List Extension) (entries : List (Bytes × CompiledHostMatcher))
    → (c : CompiledHostMatcher) × (find_matcher id entries ≡ some c)
    → (c : CompiledHostMatcher) × (find_matcher id (add_module_hosts entries modules) ≡ some c)
unfolding add_module_hosts find_matcher
find_matcher-add id [] entries f = f
find_matcher-add id (m ∷ modules) entries f =
    find_matcher-add id modules _ (elim (Bool-cases m.enabled) [
      | inl e ↦ elim (Bool-cases (bytes_eq m.id id)) [
        | inl same ↦ (new_compiled_host_matcher m.capture_hosts, ground (arith, e, same))
        | inr other ↦ (f.0, ground (arith, e, other, f.1))
      ]
      | inr e ↦ (f.0, ground (arith, e, f.1))
    ])

add_module_hosts-Covers :
    (modules : List Extension) (entries : List (Bytes × CompiledHostMatcher))
    → All
        (λ m.
          m.enabled ≡ true
          → (c : CompiledHostMatcher) × (find_matcher m.id (add_module_hosts entries modules)
              ≡ some c))
        modules
unfolding add_module_hosts find_matcher
add_module_hosts-Covers [] entries = tt
add_module_hosts-Covers (m ∷ modules) entries = (
  λ e.
      find_matcher-add m.id modules _
        (new_compiled_host_matcher m.capture_hosts, ground (arith, e, bytes_eq_refl m.id)),
  add_module_hosts-Covers modules _,
)

module _ (t : HostText) where
  best_mapping-projected :
      (host : Bytes) (ms : List HostMapping) (b : Best)
      → best_mapping t host ms b ≡ best_projected t host (projected_mappings t ms) b
  unfolding best_mapping best_projected projected_mappings take_mapping
  best_mapping-projected host [] b = refl
  best_mapping-projected host (m ∷ ms) b = ground (
    arith,
    best_mapping-projected host ms b,
    best_mapping-projected host ms (take_mapping host m b),
  )

  owns-projected :
      (runtime : Option CompiledHosts) (m : Extension) (host : Bytes)
      → Covers runtime (m ∷ [])
      → m.enabled ≡ true
      → owns t runtime m host ≡ match_host t (some (projected_module_host_matcher t runtime m)) host
  unfolding owns projected_module_host_matcher module_owns_host match_host
  owns-projected none m host c e =
      sym (new_compiled_host_matcher-any_matches m.capture_hosts (canonical_host t host))
  owns-projected (some r) m host c e = ground (arith, (c.0 e).1)

  network_granted-holds :
      (g : Bool) (modules : List Extension)
      → network_granted t g modules ≡ (g || holds_network t modules)
  unfolding network_granted holds_network
  network_granted-holds g [] = ground arith
  network_granted-holds g (m ∷ modules) =
      ground (arith, network_granted-holds true modules, network_granted-holds g modules)

  mapped_in-projected :
      (runtime : Option CompiledHosts) (host : Bytes) (modules : List Extension) (b : Best)
      → Covers runtime modules
      → mapped_in t runtime host modules b ≡ best_in t host (projected_modules t runtime modules) b
  unfolding mapped_in best_in projected_modules
  mapped_in-projected runtime host [] b c = refl
  mapped_in-projected runtime host (m ∷ modules) b c =
      let (here, there) = Covers-cons runtime m modules c in
      elim (Bool-cases m.enabled) [
        | inl e ↦ ground (
          arith,
          e,
          owns-projected runtime m host here e,
          best_mapping-projected host m.host_mappings b,
          mapped_in-projected runtime host modules b there,
          mapped_in-projected runtime host modules (best_mapping t host m.host_mappings b) there,
        )
        | inr e ↦ ground (arith, e, mapped_in-projected runtime host modules b there)
      ]

  active_projected :
      (cfg : Document) (runtime : Option CompiledHosts) (host : Bytes)
      → cfg.mitm.enabled ≡ true
      → match_host t (some (projected_active_host_matcher t cfg runtime)) host
        ≡ active_intercept_host t cfg runtime host
  unfolding projected_active_host_matcher active_intercept_host match_host
  active_projected cfg none host e = ground (
    arith,
    e,
    new_compiled_host_matcher-any_matches (active_host_patterns t cfg none) (canonical_host t host),
  )
  active_projected cfg (some r) host e = ground (arith, e)

  compiled-Covers :
      (cfg : Document) (runtime : Option CompiledHosts)
      → (runtime ≡ none) ⊎ (runtime ≡ some (compile_hosts t cfg))
      → Covers runtime cfg.modules
  unfolding compile_hosts
  compiled-Covers cfg runtime (inl e) = rw e tt
  compiled-Covers cfg runtime (inr e) = rw e (add_module_hosts-Covers cfg.modules [])

  -- For a host whose canonical form is canonical again, a document that is compiled or has not been
  -- authorizes a target, and maps it, as the projection made of it does.
  pub upstream_target-active_module_upstream_target :
      (cfg : Document) (runtime : Option CompiledHosts) (raw_host : Bytes) (port : Option ℤ)
      → (runtime ≡ none) ⊎ (runtime ≡ some (compile_hosts t cfg))
      → canonical_host t (canonical_host t raw_host) ≡ canonical_host t raw_host
      → upstream_target t (projected_targets t cfg runtime) raw_host port
        ≡ active_module_upstream_target t cfg runtime raw_host port
  unfolding upstream_target active_module_upstream_target projected_targets mapped_intercept_target
  upstream_target-active_module_upstream_target cfg runtime raw_host port c stable =
      let host = canonical_host t raw_host in
      elim (Bool-cases cfg.mitm.enabled) [
        | inl e ↦ ground (
          arith,
          e,
          stable,
          active_projected cfg runtime host e,
          network_granted-holds false cfg.modules,
          mapped_in-projected runtime host cfg.modules (record { pattern = []; target = host })
              (compiled-Covers cfg runtime c),
        )
        | inr e ↦ ground (arith, e)
      ]
