-- ===== src/Socks/Address/RoundTrip.antt =====
-- An encoded address is read back, with an IP host in the text that the system prints for it.
use mathlib.Core.List.{append_assoc}
use mihomo_extension_sidecar.Common.{
  ℕ, ◌≤◌, ◌<◌, [], ◌∷◌, ◌++◌, Option, some, none, Bytes, ◌≡◌, refl, arith, length, length-append,
  length-drop, take_append, drop_append, Option-cases, inl, inr,
}
use mihomo_extension_sidecar.Socks.Conn.{Conn, ok, read_full}
use mihomo_extension_sidecar.Socks.Address.{
  SocksTarget, IpAddr, v4, v6, IpText, IpLaws, octets, width, unmap, big_endian16, host_ip,
  append_socks_address, encode_socks_address, read_socks_address, read_target,
}

abbrev pub arriving : Conn → Bytes → Conn
arriving c bytes = record c { inbox = bytes }

pub read_full-append :
    (c : Conn) (x rest : Bytes) (n : ℕ)
    → length x ≡ n
    → read_full n (arriving c (x ++ rest)) ≡ (ok x, arriving c rest)
unfolding read_full
read_full-append c x rest n e =
    rw (← e) (ground (arith, length-append x rest, take_append x rest, drop_append x rest))

read_target_lem :
    (c : Conn) (host rest : Bytes) (p : ℕ)
    → p ≤ 65535
    → read_target host (arriving c (big_endian16 p ++ rest))
      ≡ (ok (record { host = host; port = p }), arriving c rest)
unfolding read_target
read_target_lem c host rest p h = ground (arith, read_full-append c (big_endian16 p) rest 2 refl)

module _ (t : IpText) where
  open t use {print}

  -- The host that is read back: an IP address in its printed form, any other host as it was.
  abbrev pub canonical_ip : Bytes → Option IpAddr → Bytes
  canonical_ip h none = h
  canonical_ip h (some a) = print (octets a)

  abbrev pub canonical : SocksTarget → SocksTarget
  canonical target = record target { host = canonical_ip target.host (host_ip t target.host) }

module _ (t : IpText) (l : IpLaws t) where
  open t use {parse, print}

  read_ip :
      (c : Conn) (a : IpAddr) (rest : Bytes) (p : ℕ) (kind : ℕ)
      → length (octets a) ≡ width a
      → kind ≡ (elim a [ v4 _ ↦ 1 | v6 _ ↦ 4 ])
      → p ≤ 65535
      → read_socks_address t (arriving c (kind ∷ (octets a ++ (big_endian16 p ++ rest))))
        ≡ (ok (record { host = print (octets a); port = p }), arriving c rest)
  unfolding read_socks_address
  read_ip c (v4 b) rest p kind w k h =
      let tail = big_endian16 p ++ rest in
      ground (
        arith,
        read_full-append c (kind ∷ []) (b ++ tail) 1 refl,
        read_full-append c b tail 4 w,
        read_target_lem c (print b) rest p h,
      )
  read_ip c (v6 b) rest p kind w k h =
      let tail = big_endian16 p ++ rest in
      ground (
        arith,
        read_full-append c (kind ∷ []) (b ++ tail) 1 refl,
        read_full-append c b tail 16 w,
        read_target_lem c (print b) rest p h,
      )

  read_name :
      (c : Conn) (host rest : Bytes) (p : ℕ)
      → 0 < length host
      → length host ≤ 255
      → p ≤ 65535
      → read_socks_address t (arriving c (3 ∷ (length host ∷ (host ++ (big_endian16 p ++ rest)))))
        ≡ (ok (record { host = host; port = p }), arriving c rest)
  unfolding read_socks_address
  read_name c host rest p n w h =
      let tail = big_endian16 p ++ rest in
      ground (
        arith,
        read_full-append c (3 ∷ []) (length host ∷ (host ++ tail)) 1 refl,
        read_full-append c (length host ∷ []) (host ++ tail) 1 refl,
        read_full-append c host tail (length host) refl,
        read_target_lem c host rest p h,
      )

  unmap-width :
      (a : IpAddr) → length (octets a) ≡ width a → length (octets (unmap a)) ≡ width (unmap a)
  unfolding unmap
  unmap-width (v4 b) e = e
  unmap-width (v6 b) e = ground (arith, length-drop 12 b)

  pub host_ip-width : (h : Bytes) {a : IpAddr} → host_ip t h ≡ some a → length (octets a) ≡ width a
  unfolding host_ip
  host_ip-width h {a} e = elim (Option-cases (parse h)) [
    | inl n ↦ absurd (ground arith)
    | inr ((b, z), q) ↦ ground (arith, unmap-width b (l.parse_width h q))
  ]

  -- What is encoded is read back from the front of any input, and the rest of the input is left:
  -- the same port, and the same host, an IP address in the text that the system prints for it.
  pub read-append_socks_address :
      (target : SocksTarget) (c : Conn) (rest : Bytes) {out : Bytes}
      → encode_socks_address t target ≡ ok out
      → read_socks_address t (arriving c (out ++ rest)) ≡ (ok (canonical t target), arriving c rest)
  unfolding append_socks_address
  read-append_socks_address target c rest {out} h = elim (Option-cases (host_ip t target.host)) [
    | inl n ↦ ground (
      arith,
      read_name c target.host rest target.port,
      append_assoc target.host (big_endian16 target.port) rest,
    )
    | inr (a, q) ↦ ground (
      arith,
      read_ip c a rest target.port (elim a [ v4 _ ↦ 1 | v6 _ ↦ 4 ]) (host_ip-width target.host q)
          refl,
      append_assoc (octets a) (big_endian16 target.port) rest,
    )
  ]
