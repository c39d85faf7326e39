-- ===== src/Socks/Address.antt =====
-- `socksTarget`, `appendSOCKSAddress`, `readSOCKSAddress` and `mayBeIPAddress` (socks.go). Texts of IP
-- addresses are parsed and printed by `netip.ParseAddr` and `net.IP.String`, which are parameters.
pub mod RoundTrip
use mihomo_extension_sidecar.Common.{
  ℕ, ◌+◌, ◌*◌, ◌/◌, ◌%◌, ◌≤◌, ◌<◌, ◌==◌, ltb, leb, Bool, true, false, not, ◌&&◌, ◌||◌, List, [],
  ◌∷◌, ◌++◌, Option, some, none, Bytes, bytes_eq, ◌≡◌, if◌then◌else◌, length, take, drop,
}
use mihomo_extension_sidecar.Socks.Conn.{
  SocksError, empty_domain, unsupported_type, port_range, domain_length, domain_colon, Reply, ok,
  err, S, ◌>>=◌, ◌>>◌, pure, fail, check, read_full,
}

-- A port comes from two wire bytes or a parsed number; it is not negative here.
pub record SocksTarget : Type 0 where
  pub host : Bytes
  pub port : ℕ

pub data IpAddr : Type 0 where
  v4 : Bytes → IpAddr
  v6 : Bytes → IpAddr

abbrev mapped_prefix : Bytes
mapped_prefix = 0 ∷ 0 ∷ 0 ∷ 0 ∷ 0 ∷ 0 ∷ 0 ∷ 0 ∷ 0 ∷ 0 ∷ 255 ∷ 255 ∷ []

-- `Addr.Unmap`: an IPv4-mapped IPv6 address is the IPv4 address.
unfoldable pub unmap : IpAddr → IpAddr
unmap (v4 b) = v4 b
unmap (v6 b) = if bytes_eq (take 12 b) mapped_prefix then v4 (drop 12 b) else v6 b

abbrev contains : ℕ → Bytes → Bool
contains x [] = false
contains x (c ∷ cs) = c == x || contains x cs

abbrev digits_and_dots : Bytes → Bool
digits_and_dots [] = true
digits_and_dots (c ∷ cs) = (c == b'.' || (leb b'0' c && leb c b'9')) && digits_and_dots cs

unfoldable pub may_be_ip_address : Bytes → Bool
may_be_ip_address host =
    if length host == 0 then false else if contains b':' host then true else digits_and_dots host

abbrev pub width : IpAddr → ℕ
width (v4 b) = 4
width (v6 b) = 16

abbrev pub octets : IpAddr → Bytes
octets (v4 b) = b
octets (v6 b) = b

-- An address, and whether it has a zone.
pub record IpText : Type 0 where
  pub parse : Bytes → Option (IpAddr × Bool)
  pub print : Bytes → Bytes

-- Documented behaviour: a parsed address has the bytes of its family; a printed address looks like
-- one, parses to the same address up to `Unmap`, and has no zone.
pub record IpLaws (t : IpText) : Type 0 where
  pub parse_width :
      (h : Bytes) {a : IpAddr} {z : Bool}
      → IpText.parse t h ≡ some (a, z)
      → length (octets a) ≡ width a
  pub print_looks :
      (a : IpAddr)
      → length (octets a) ≡ width a
      → may_be_ip_address (IpText.print t (octets a)) ≡ true
  pub parse_print :
      (a : IpAddr)
      → length (octets a) ≡ width a
      → (b : IpAddr) × (IpText.parse t (IpText.print t (octets a)) ≡ some (b, false))
        × (unmap b ≡ unmap a)

abbrev pub big_endian16 : ℕ → Bytes
big_endian16 n = (n % 65536 / 256) ∷ (n % 256) ∷ []

abbrev pub read_uint16 : Bytes → ℕ
read_uint16 (a ∷ b ∷ []) = a * 256 + b
read_uint16 _ = 0

abbrev pub only : Bytes → ℕ
only (a ∷ []) = a
only _ = 0

-- The last two bytes, behind the host.
unfoldable pub read_target : Bytes → S SocksTarget
read_target host = do port ← read_full 2; pure (record { host = host; port = read_uint16 port })

module _ (t : IpText) where
  open t use {parse, print}

  usable : Option (IpAddr × Bool) → Option IpAddr
  usable none = none
  usable (some (a, true)) = none
  usable (some (a, false)) = some (unmap a)

  -- The address that a host stands for, if it is the text of one without a zone.
  unfoldable pub host_ip : Bytes → Option IpAddr
  unfolding usable
  host_ip h = if may_be_ip_address h then usable (parse h) else none

  append_domain : Bytes → Bytes → Reply Bytes
  append_domain out host =
      if length host == 0 || ltb 255 (length host)
      then err domain_length
      else if contains b':' host
      then err domain_colon
      else ok (out ++ (3 ∷ length host % 256 ∷ host))

  append_host : Bytes → Bytes → Option IpAddr → Reply Bytes
  unfolding append_domain
  append_host out host (some (v4 b)) = ok (out ++ (1 ∷ b))
  append_host out host (some (v6 b)) = ok (out ++ (4 ∷ b))
  append_host out host none = append_domain out host

  unfoldable pub append_socks_address : Bytes → SocksTarget → Reply Bytes
  unfolding append_host
  append_socks_address out target =
      if ltb 65535 target.port
      then err port_range
      else elim (append_host out target.host (host_ip target.host)) [
        | err e ↦ err e
        | ok named ↦ ok (named ++ big_endian16 target.port)
      ]

  -- `encodeSOCKSAddress`
  abbrev pub encode_socks_address : SocksTarget → Reply Bytes
  encode_socks_address = append_socks_address []

  read_domain : S Bytes
  read_domain = do n ← read_full 1; check (not (only n == 0)) empty_domain; read_full (only n)

  read_host : ℕ → S Bytes
  unfolding read_domain
  read_host atyp =
      if atyp == 1
      then (do value ← read_full 4; pure (print value))
      else if atyp == 4
      then (do value ← read_full 16; pure (print value))
      else if atyp == 3
      then read_domain
      else fail (unsupported_type atyp)

  unfoldable pub read_socks_address : S SocksTarget
  unfolding read_host
  read_socks_address = do atyp ← read_full 1; host ← read_host (only atyp); read_target host
