-- ===== src/Transports/Stale.antt =====
-- What two documents with one fingerprint mean for the pool: the old projection stays in use.
use mihomo_extension_sidecar.Common.{
  ℕ, ◌<◌, List, ◌∷◌, ◌++◌, Option, some, false, Bytes, ◌≡◌, sym, ◌∙◌, ap,
}
use mihomo_extension_sidecar.Configuration.Types.{Document, Extension, HostMapping}
use mihomo_extension_sidecar.Hosts.Patterns.{HostText}
use mihomo_extension_sidecar.Hosts.Runtime.{CompiledHosts}
use mihomo_extension_sidecar.Hosts.Targets.{resolver_form}
use mihomo_extension_sidecar.Hosts.Projection.{new_upstream_transport_projection}
use mihomo_extension_sidecar.Hosts.Projection.Fingerprint.{
  mapped_module, listed_module, fingerprint_input_collision,
}
use mihomo_extension_sidecar.Transports.Safety.{Newest, acquire_newer}
use mihomo_extension_sidecar.Transports.{Pool, acquire}

module _ (t : HostText) (m : Extension) (hs : List Bytes) (mapping : HostMapping)
    (ms : List HostMapping) where
  module _ (cfg : Document) (before after : List Extension) where
    abbrev pub mapped_document : Document
    mapped_document = record cfg { modules = before ++ mapped_module t m hs mapping ms ∷ after }

    abbrev pub listed_document : Document
    listed_document = record cfg { modules = before ++ listed_module t m hs mapping ms ∷ after }

    module _ (sha256 : Bytes → Bytes) (p : Pool) (a old new : ℕ) (r s : Option CompiledHosts) where
      -- Where the pool was made for a document that maps a pattern to a destination, and a newer
      -- document no longer has that mapping but the pattern and the target at the end of the capture
      -- hosts of the module: the caller is still given the old generation with the old projection.
      pub acquire_stale :
          resolver_form t mapping ≡ false
          → p.upstream ≡ some a
          → (p.generations a).projection
            ≡ new_upstream_transport_projection t sha256 old mapped_document r
          → (p.generations a).generation < new
          → let q = acquire p (new_upstream_transport_projection t sha256 new listed_document s) in
            Newest p q a
            × ((q.generations a).projection
                ≡ new_upstream_transport_projection t sha256 old mapped_document r)
      unfolding new_upstream_transport_projection
      acquire_stale plain up made newer =
          let same =
            ap sha256
              (sym (fingerprint_input_collision t m hs mapping ms cfg before after plain)) in
          let projection = new_upstream_transport_projection t sha256 new listed_document s in
          let (n, kept, _) =
            (acquire_newer p a projection up newer).0 (same ∙ sym (ap (λ x. x.fingerprint) made)) in
          (n, kept ∙ made)
