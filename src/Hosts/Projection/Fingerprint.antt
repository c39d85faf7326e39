-- ===== src/Hosts/Projection/Fingerprint.antt =====
-- What the digest of a projection is made of (newUpstreamTransportProjection and
-- writeFingerprintField in transport_projection.go): which parts of a document two equal inputs of
-- the digest agree on, and which they need not.
use mihomo_extension_sidecar.Common.{
  append_assoc, ℕ, ◌+◌, ◌*◌, ◌^◌, ◌<◌, Bool, true, false, List, [], ◌∷◌, ◌++◌, Bytes, length, ◌≡◌,
  refl, sym, ◌∙◌, ap, arith, take, drop,
}
use mihomo_extension_sidecar.Configuration.Types.{Document, Extension, HostMapping, ProxyConfig}
use mihomo_extension_sidecar.Hosts.Patterns.{HostText}
use mihomo_extension_sidecar.Hosts.Targets.{resolver_form}
use mihomo_extension_sidecar.Hosts.Projection.{
  put_uint64, fingerprint_field, fingerprint_bool, fingerprint_hosts, fingerprint_mappings,
  projected_mappings, fingerprint_module, fingerprint_modules, fingerprint_input, joined,
  network_granted,
}

-- What a big-endian number of eight bytes reads back as.
abbrev get_uint64 : Bytes → ℕ
get_uint64 (a ∷ b ∷ c ∷ d ∷ e ∷ f ∷ g ∷ h ∷ []) =
    a * 2 ^ 56 + b * 2 ^ 48 + c * 2 ^ 40 + d * 2 ^ 32 + e * 2 ^ 24 + f * 2 ^ 16 + g * 2 ^ 8 + h
get_uint64 _ = 0

get_uint64-put_uint64 : (n : ℕ) → n < 2 ^ 64 → get_uint64 (put_uint64 n) ≡ n
unfolding put_uint64
get_uint64-put_uint64 n h = omega arith

append_inj : (a b x y : Bytes) → length a ≡ length b → a ++ x ≡ b ++ y → (a ≡ b) × (x ≡ y)
append_inj [] [] x y l e = (refl, e)
append_inj [] (d ∷ b) x y l e = absurd (omega arith)
append_inj (c ∷ a) [] x y l e = absurd (omega arith)
append_inj (c ∷ a) (d ∷ b) x y l e =
    let (same, rest) = append_inj a b x y (omega arith) (ap (drop 1) e) in
    (ground (arith, ap (take 1) e, same), rest)

-- A field is told apart from what follows it.
field_cut :
    (a b x y : Bytes)
    → length a < 2 ^ 64
    → length b < 2 ^ 64
    → fingerprint_field a ++ x ≡ fingerprint_field b ++ y
    → (a ≡ b) × (x ≡ y)
unfolding fingerprint_field put_uint64
field_cut a b x y ha hb e =
    let size : length a ≡ length b =
      sym (get_uint64-put_uint64 (length a) ha)
      ∙ ap (λ s. get_uint64 (take 8 s)) e
      ∙ get_uint64-put_uint64 (length b) hb in
    append_inj a b x y size (ap (drop 8) e)

bool_cut :
    (a b : Bool) (x y : Bytes)
    → fingerprint_bool a ++ x ≡ fingerprint_bool b ++ y
    → (a ≡ b) × (x ≡ y)
unfolding fingerprint_bool
bool_cut true true x y e = (refl, ap (drop 1) e)
bool_cut false false x y e = (refl, ap (drop 1) e)
bool_cut true false x y e = absurd (ground (arith, e))
bool_cut false true x y e = absurd (ground (arith, e))

-- The fields of a proxy have lengths that eight bytes hold.
abbrev Fits : ProxyConfig → Type 0
Fits p = (length p.address < 2 ^ 64) × (length p.username < 2 ^ 64) × (length p.password < 2 ^ 64)

-- Two documents that give the digest the same input agree on the proxy and its credentials, on
-- HTTP/2, and on whether interception is on, where no field of a proxy is as long as 2 ^ 64.
pub fingerprint_input_lem :
    (t : HostText) (a b : Document)
    → Fits a.upstream_proxy
    → Fits b.upstream_proxy
    → fingerprint_input t a ≡ fingerprint_input t b
    → (a.upstream_proxy ≡ b.upstream_proxy)
      × (a.mitm.http2 ≡ b.mitm.http2)
      × (a.mitm.enabled ≡ b.mitm.enabled)
unfolding fingerprint_input joined
fingerprint_input_lem t a b fa fb e =
    let (address, e1) =
      field_cut a.upstream_proxy.address b.upstream_proxy.address _ _ fa.0 fb.0 e in
    let (username, e2) =
      field_cut a.upstream_proxy.username b.upstream_proxy.username _ _ fa.1 fb.1 e1 in
    let (password, e3) =
      field_cut a.upstream_proxy.password b.upstream_proxy.password _ _ fa.2 fb.2 e2 in
    let (http2, e4) = bool_cut a.mitm.http2 b.mitm.http2 _ _ e3 in
    let (enabled, e5) = bool_cut a.mitm.enabled b.mitm.enabled _ _ e4 in
    (ground (arith, address, username, password), http2, enabled)

fingerprint_hosts-append :
    (hs : List Bytes) (p t x : Bytes)
    → fingerprint_hosts hs ++ (fingerprint_field p ++ (fingerprint_field t ++ x))
      ≡ fingerprint_hosts (hs ++ p ∷ t ∷ []) ++ x
unfolding fingerprint_hosts
fingerprint_hosts-append [] p t x =
    ap (◌++◌ (fingerprint_field p)) (sym (append_assoc (fingerprint_field t) [] x))
    ∙ sym (append_assoc (fingerprint_field p) (fingerprint_field t ++ []) x)
fingerprint_hosts-append (h ∷ hs) p t x =
    append_assoc (fingerprint_field h) (fingerprint_hosts hs) _
    ∙ ap (◌++◌ (fingerprint_field h)) (fingerprint_hosts-append hs p t x)
    ∙ sym (append_assoc (fingerprint_field h) (fingerprint_hosts (hs ++ p ∷ t ∷ [])) x)

-- A mapping that moves from the front of the mappings to the end of the hosts writes the same.
mapping_moves :
    (hs : List Bytes) (p t rest x : Bytes)
    → fingerprint_hosts hs ++ ((fingerprint_field p ++ (fingerprint_field t ++ rest)) ++ x)
      ≡ fingerprint_hosts (hs ++ p ∷ t ∷ []) ++ (rest ++ x)
mapping_moves hs p t rest x =
    ap (◌++◌ (fingerprint_hosts hs)) (
      append_assoc (fingerprint_field p) (fingerprint_field t ++ rest) x
      ∙ ap (◌++◌ (fingerprint_field p)) (append_assoc (fingerprint_field t) rest x))
    ∙ fingerprint_hosts-append hs p t (rest ++ x)

module _ (t : HostText) (m : Extension) (hs : List Bytes) (mapping : HostMapping)
    (ms : List HostMapping) where
  abbrev pub mapped_module : Extension
  mapped_module = record m { capture_hosts = hs; host_mappings = mapping ∷ ms }

  abbrev pub listed_module : Extension
  listed_module = record m {
    capture_hosts = hs ++ mapping.pattern ∷ mapping.target ∷ [];
    host_mappings = ms;
  }

  fingerprint_module_same :
      resolver_form t mapping ≡ false
      → fingerprint_module t mapped_module ≡ fingerprint_module t listed_module
  unfolding fingerprint_module joined projected_mappings fingerprint_mappings
  fingerprint_module_same plain =
      rw plain
        (ap (◌++◌ (fingerprint_field m.id)) (mapping_moves hs mapping.pattern mapping.target _ _))

  fingerprint_modules_same :
      (before after : List Extension)
      → resolver_form t mapping ≡ false
      → fingerprint_modules t (before ++ mapped_module ∷ after)
        ≡ fingerprint_modules t (before ++ listed_module ∷ after)
  unfolding fingerprint_modules
  fingerprint_modules_same [] after plain = rw (fingerprint_module_same plain) refl
  fingerprint_modules_same (b ∷ before) after plain =
      rw (fingerprint_modules_same before after plain) refl

  network_granted_same :
      (before after : List Extension) (g : Bool)
      → network_granted t g (before ++ mapped_module ∷ after)
        ≡ network_granted t g (before ++ listed_module ∷ after)
  unfolding network_granted
  network_granted_same [] after g = refl
  network_granted_same (b ∷ before) after g = network_granted_same before after _

  -- The input of the digest does not tell the first mapping of a module to a destination from two
  -- more capture hosts: a document in which the pattern and the target of the mapping stand at the
  -- end of the capture hosts instead has the same input.
  pub fingerprint_input_collision :
      (cfg : Document) (before after : List Extension)
      → resolver_form t mapping ≡ false
      → fingerprint_input t (record cfg { modules = before ++ mapped_module ∷ after })
        ≡ fingerprint_input t (record cfg { modules = before ++ listed_module ∷ after })
  unfolding fingerprint_input
  fingerprint_input_collision cfg before after plain =
      rw (fingerprint_modules_same before after plain, network_granted_same before after false) refl
