-- ===== src/Socks/Datagram/Laws.antt =====
-- Datagrams round-trip, stay within the limit, and fit the buffer that is kept for them.
use mathlib.Core.List.{append_assoc}
use mihomo_extension_sidecar.Common.{
  ℕ, min, ◌%◌, ◌+◌, ◌≤◌, ◌<◌, [], ◌∷◌, ◌++◌, Bytes, ◌≡◌, arith, length, length-append, drop_append,
  Option-cases, inl, inr,
}
use mihomo_extension_sidecar.Socks.Conn.{Conn, ok, Reply-cases}
use mihomo_extension_sidecar.Socks.Address.{
  big_endian16, SocksTarget, IpText, IpLaws, v4, v6, append_socks_address, encode_socks_address,
  host_ip,
}
use mihomo_extension_sidecar.Socks.Address.RoundTrip.{
  canonical, read-append_socks_address, host_ip-width,
}
use mihomo_extension_sidecar.Socks.Datagram.{
  max_envelope, max_datagram, resize_buffer, encode_datagram, parse_datagram,
}

-- The buffer of a resize is as long as asked, up to the limit; it never grows past the limit, and
-- never shrinks.
pub resize_buffer_bounds :
    (cap required : ℕ)
    → cap ≤ max_datagram
    → let (cap', len) = resize_buffer cap required in
      (len ≡ min required max_datagram) × (len ≤ cap') × (cap ≤ cap') × (cap' ≤ max_datagram)
unfolding resize_buffer
resize_buffer_bounds cap required h = ground arith

module _ (t : IpText) (l : IpLaws t) where
  -- An address takes at most the envelope less the three bytes of the prefix.
  append_socks_address-append :
      (out : Bytes) (target : SocksTarget) {whole : Bytes}
      → append_socks_address t out target ≡ ok whole
      → (a : Bytes) × (encode_socks_address t target ≡ ok a)
        × (whole ≡ out ++ a)
        × (length a + 3 ≤ max_envelope)
        × (0 < length a)
  unfolding append_socks_address
  append_socks_address-append out target {whole} h = elim (Option-cases (host_ip t target.host)) [
    | inl n ↦ (
      (3 ∷ (length target.host % 256 ∷ target.host)) ++ big_endian16 target.port,
      ground arith,
      ground (
        arith,
        append_assoc out (3 ∷ (length target.host % 256 ∷ target.host)) (big_endian16 target.port),
      ),
      ground (arith, length-append target.host (big_endian16 target.port)),
      omega arith,
    )
    | inr (v4 b, q) ↦ (
      1 ∷ b ++ big_endian16 target.port,
      ground arith,
      ground (arith, append_assoc out (1 ∷ b) (big_endian16 target.port)),
      ground (arith, host_ip-width t l target.host q, length-append b (big_endian16 target.port)),
      omega arith,
    )
    | inr (v6 b, q) ↦ (
      4 ∷ b ++ big_endian16 target.port,
      ground arith,
      ground (arith, append_assoc out (4 ∷ b) (big_endian16 target.port)),
      ground (arith, host_ip-width t l target.host q, length-append b (big_endian16 target.port)),
      omega arith,
    )
  ]

  parse_prefixed :
      (a payload : Bytes) (target : SocksTarget)
      → 0 < length a
      → encode_socks_address t target ≡ ok a
      → parse_datagram t (0 ∷ 0 ∷ 0 ∷ (a ++ payload)) ≡ ok (payload, canonical t target)
  unfolding parse_datagram
  parse_prefixed [] payload target n h = absurd (omega arith)
  parse_prefixed (d ∷ a) payload target n h =
      let c : Conn = record { inbox = []; sent = []; writes = 0 } in
      ground (
        arith,
        read-append_socks_address t l target c payload h,
        length-append a payload,
        drop_append a payload,
      )

  -- A datagram that is encoded is at most 65507 bytes long and fits the buffer that is kept for it.
  -- It is parsed back to the same payload and the same target, an IP host in its printed form.
  pub parse-encode_datagram :
      (held : ℕ) (target : SocksTarget) (payload : Bytes) {packet : Bytes}
      → (encode_datagram t held target payload).0 ≡ ok packet
      → (parse_datagram t packet ≡ ok (payload, canonical t target))
        × (length packet ≤ max_datagram)
        × (length packet ≤ (encode_datagram t held target payload).1)
  unfolding encode_datagram
  parse-encode_datagram held target payload {packet} h =
      elim (Reply-cases (append_socks_address t (0 ∷ 0 ∷ 0 ∷ []) target)) [
        | inr (e, q) ↦ absurd (ground arith)
        | inl (whole, q) ↦
            let (a, e, is, short, some_bytes) =
              append_socks_address-append (0 ∷ 0 ∷ 0 ∷ []) target q in
            (
              ground (arith, parse_prefixed a payload target some_bytes e),
              ground (arith, length-append whole payload),
              ground (arith, length-append whole payload),
            )
      ]
