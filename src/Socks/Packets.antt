-- ===== src/Socks/Packets.antt =====
-- The SOCKS packet connections of both sides and the comparison of targets (socks.go), with the
-- authorization of an association (transport_projection.go). `arrivals` is what the UDP socket will
-- receive, after which it fails; a receipt keeps what fits the buffer. Parameters: `net.IP.Equal`, the
-- trimming and lowering of a host by `strings`, and the host matcher of the configuration.
pub mod Delivery
pub mod Pinning
pub mod Targets
use mihomo_extension_sidecar.Common.{
  ℕ, ◌+◌, ◌==◌, ltb, Bool, true, false, not, ◌&&◌, ◌||◌, List, [], ◌∷◌, ◌++◌, Option, some, none,
  Bytes, bytes_eq, if◌then◌else◌, length, take,
}
use mihomo_extension_sidecar.Socks.Conn.{Reply, ok, err, write_failed, unexpected_address}
use mihomo_extension_sidecar.Socks.Address.{SocksTarget, IpAddr, v4, v6, IpText, host_ip, unmap}
use mihomo_extension_sidecar.Socks.Datagram.{resize_read_buffer, parse_datagram, encode_datagram}

pub record Endpoint : Type 0 where
  pub ip : Bytes
  pub port : ℕ

pub record Arrival : Type 0 where
  pub source : Endpoint
  pub content : Bytes

abbrev pub same_endpoint : (Bytes → Bytes → Bool) → Endpoint → Endpoint → Bool
same_endpoint ip_equal a b = ip_equal a.ip b.ip && a.port == b.port

-- The first source becomes the relay.
abbrev pub pinned : Option Endpoint → Endpoint → Endpoint
pinned none source = source
pinned (some relay) source = relay

module _ (t : IpText) (ip_equal : Bytes → Bytes → Bool) where
  fixed_accepts : SocksTarget → ℕ → Reply (Bytes × SocksTarget) → Option Bytes
  fixed_accepts target room (err e) = none
  fixed_accepts target room (ok (payload, source)) =
      if not (source.port == target.port) || ltb room (length payload) then none else some payload

  -- The loop of the client's `ReadFrom`: the size of the read buffer, and the room of the caller's.
  unfoldable pub fixed_read_loop :
      Endpoint → SocksTarget → ℕ → ℕ → List Arrival → Option Bytes × List Arrival
  unfolding fixed_accepts
  fixed_read_loop relay target size room [] = (none, [])
  fixed_read_loop relay target size room (d ∷ ds) =
      let rest = fixed_read_loop relay target size room ds in
      if not (same_endpoint ip_equal d.source relay)
      then rest
      else elim (fixed_accepts target room (parse_datagram t (take size d.content))) [
        | none ↦ rest
        | some payload ↦ (some payload, ds)
      ]

  -- `fixedSOCKSPacketConn.ReadFrom`; `held` is the capacity of the kept buffer.
  unfoldable pub fixed_read_from :
      Endpoint → SocksTarget → ℕ → ℕ → List Arrival → Option Bytes × List Arrival
  unfolding fixed_read_loop
  fixed_read_from relay target held room arrivals =
      fixed_read_loop relay target (resize_read_buffer held room).1 room arrivals

  server_accepts :
      (SocksTarget → Bool) → ℕ → Reply (Bytes × SocksTarget) → Option (Bytes × SocksTarget)
  server_accepts allowed room (err e) = none
  server_accepts allowed room (ok (payload, target)) =
      if not (allowed target) || ltb room (length payload) then none else some (payload, target)

  -- The loop of the server's `ReadFrom`: what is delivered, from whom, and the relay afterwards.
  unfoldable pub server_read_loop :
      Bytes
      → (SocksTarget → Bool)
      → ℕ
      → ℕ
      → Option Endpoint
      → List Arrival
      → Option (Bytes × Endpoint × SocksTarget) × Option Endpoint × List Arrival
  unfolding server_accepts
  server_read_loop allowed_ip allowed size room relay [] = (none, relay, [])
  server_read_loop allowed_ip allowed size room relay (d ∷ ds) =
      elim (ip_equal d.source.ip allowed_ip) [
        | false ↦ server_read_loop allowed_ip allowed size room relay ds
        | true ↦
            let now = pinned relay d.source in
            let rest = server_read_loop allowed_ip allowed size room (some now) ds in
            if not (same_endpoint ip_equal d.source now)
            then rest
            else elim (server_accepts allowed room (parse_datagram t (take size d.content))) [
              | none ↦ rest
              | some (payload, target) ↦ (some (payload, d.source, target), some now, ds)
            ]
      ]

  -- `socksServerPacketConn.ReadFrom`
  unfoldable pub server_read_from :
      Bytes
      → (SocksTarget → Bool)
      → ℕ
      → ℕ
      → Option Endpoint
      → List Arrival
      → Option (Bytes × Endpoint × SocksTarget) × Option Endpoint × List Arrival
  unfolding server_read_loop
  server_read_from allowed_ip allowed held room relay arrivals =
      server_read_loop allowed_ip allowed (resize_read_buffer held room).1 room relay arrivals

module _ (t : IpText) where
  -- `inboundUDPAuthorization.allows`
  unfoldable pub allows : Bool → (Bytes → Bool) → SocksTarget → Bool
  allows enabled active_hosts target =
      if not enabled || not (target.port == 443)
      then false
      else if active_hosts target.host
      then true
      else elim (IpText.parse t target.host) [ some (a, false) ↦ true | _ ↦ false ]

abbrev pub addr_eq : IpAddr → IpAddr → Bool
addr_eq (v4 a) (v4 b) = bytes_eq a b
addr_eq (v6 a) (v6 b) = bytes_eq a b
addr_eq _ _ = false

abbrev pub has_colon : Bytes → Bool
has_colon [] = false
has_colon (c ∷ cs) = c == b':' || has_colon cs

-- `strings.TrimSuffix(host, ".")`
unfoldable pub trim_dot : Bytes → Bytes
trim_dot [] = []
trim_dot (c ∷ []) = if c == b'.' then [] else c ∷ []
trim_dot (c ∷ d ∷ ds) = c ∷ trim_dot (d ∷ ds)

unfoldable pub same_name : Bytes → Bytes → Bool
same_name left right = if has_colon left || has_colon right then false else bytes_eq left right

unfoldable pub same_host : Bytes → Bytes → Option IpAddr → Option IpAddr → Bool
unfolding same_name
same_host left right (some a) (some b) = addr_eq a b
same_host left right _ _ = same_name left right

module _ (t : IpText) (lower_trim : Bytes → Bytes) where
  abbrev pub normal_host : SocksTarget → Bytes
  normal_host target = trim_dot (lower_trim target.host)

  -- `sameSOCKSTarget`
  unfoldable pub same_socks_target : SocksTarget → SocksTarget → Bool
  same_socks_target left right =
      if not (left.port == right.port)
      then false
      else same_host (normal_host left) (normal_host right) (host_ip t (normal_host left))
          (host_ip t (normal_host right))

-- A `net.Addr`: a target, a pointer to one, or another address with its text; nil is none.
pub data Address : Type 0 where
  target_value : SocksTarget → Address
  target_pointer : Option SocksTarget → Address
  other_address : Option Bytes → Address

-- What a write answers, the capacity kept, and what goes out.
abbrev pub Written : Type 0
Written = Reply ℕ × ℕ × List Bytes

written : (Bytes → Bool) → ℕ → Bytes → Reply Bytes × ℕ → Written
written sends held buffer (err e, cap) = (err e, held, [])
written sends held buffer (ok packet, cap) =
    if sends packet then (ok (length buffer), cap, packet ∷ []) else (err write_failed, cap, [])

module _ (t : IpText) (lower_trim : Bytes → Bytes) (target_text : SocksTarget → Bytes) where
  -- `matchesSOCKSTarget`
  unfoldable pub matches_socks_target : Address → SocksTarget → Bool
  unfolding bytes_eq same_socks_target
  matches_socks_target (target_value value) target = same_socks_target t lower_trim value target
  matches_socks_target (target_pointer none) target = false
  matches_socks_target (target_pointer (some value)) target =
      same_socks_target t lower_trim value target
  matches_socks_target (other_address none) target = false
  matches_socks_target (other_address (some text)) target = bytes_eq text (target_text target)

  -- `fixedSOCKSPacketConn.WriteTo`, where `sends` says which packets the socket takes.
  unfoldable pub fixed_write_to : (Bytes → Bool) → SocksTarget → ℕ → Bytes → Address → Written
  unfolding matches_socks_target written encode_datagram
  fixed_write_to sends target held buffer address =
      if matches_socks_target address target
      then written sends held buffer (encode_datagram t held target buffer)
      else (err unexpected_address, held, [])
