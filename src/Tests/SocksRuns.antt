-- ===== src/Tests/SocksRuns.antt =====
-- Runs of the SOCKS codec. The texts of addresses are a colon and the octets, which is enough for the
-- laws of `IpText`.
use mihomo_extension_sidecar.Common.{
  ◌≤◌, ◌==◌, Bool, false, [], ◌∷◌, ◌++◌, Option, some, none, Bytes, codes, bytes_eq, ◌≡◌, refl,
  arith, if◌then◌else◌, length,
}
use mihomo_extension_sidecar.Socks.Conn.{Conn, ok}
use mihomo_extension_sidecar.Socks.Address.{
  SocksTarget, IpAddr, v4, v6, IpText, IpLaws, octets, width, unmap, may_be_ip_address, host_ip,
  append_socks_address, encode_socks_address, read_socks_address,
}
use mihomo_extension_sidecar.Socks.Address.RoundTrip.{read-append_socks_address}
use mihomo_extension_sidecar.Socks.Auth.{authenticate_server, authenticate_client, offers}
use mihomo_extension_sidecar.Socks.Auth.Exchange.{conn, client_bytes, handshake}
use mihomo_extension_sidecar.Socks.Datagram.{
  max_datagram, encode_datagram, parse_datagram, resize_buffer, required_size,
}
use mihomo_extension_sidecar.Socks.Datagram.Laws.{parse-encode_datagram}

abbrev by_width : Bytes → Option (IpAddr × Bool)
by_width b =
    if length b == 4
    then some (v4 b, false)
    else if length b == 16
    then some (v6 b, false)
    else none

abbrev parse_text : Bytes → Option (IpAddr × Bool)
parse_text [] = none
parse_text (c ∷ b) = if c == b':' then by_width b else none

abbrev pub texts : IpText
texts = record { parse = parse_text; print = λ b. b':' ∷ b }

texts_width :
    (h : Bytes) {a : IpAddr} {z : Bool} → parse_text h ≡ some (a, z) → length (octets a) ≡ width a
texts_width [] e = absurd cc
texts_width (c ∷ b) e = ground arith

texts_parse :
    (a : IpAddr)
    → length (octets a) ≡ width a
    → (b : IpAddr) × (parse_text (b':' ∷ octets a) ≡ some (b, false)) × (unmap b ≡ unmap a)
texts_parse (v4 b) e = (v4 b, ground arith, refl)
texts_parse (v6 b) e = (v6 b, ground arith, refl)

texts_laws : IpLaws texts
unfolding may_be_ip_address
texts_laws = record {
  parse_width = texts_width;
  print_looks = λ a e. ground arith;
  parse_print = texts_parse;
}

abbrev pub website : SocksTarget
website = record { host = codes "a.io"; port = 443 }

-- Its text is that of an IPv4-mapped IPv6 address.
abbrev mapped : SocksTarget
mapped = record {
  host = b':' ∷ 0 ∷ 0 ∷ 0 ∷ 0 ∷ 0 ∷ 0 ∷ 0 ∷ 0 ∷ 0 ∷ 0 ∷ 255 ∷ 255 ∷ 10 ∷ 0 ∷ 0 ∷ 1 ∷ [];
  port = 53;
}

unfoldable pub opened : Bytes
unfolding append_socks_address encode_datagram host_ip may_be_ip_address unmap bytes_eq
    resize_buffer required_size offers
opened = []

website_encodes : encode_socks_address texts website ≡ ok (3 ∷ 4 ∷ (codes "a.io" ++ (1 ∷ 187 ∷ [])))
unfolding opened
website_encodes = refl

mapped_encodes : encode_socks_address texts mapped ≡ ok (1 ∷ 10 ∷ 0 ∷ 0 ∷ 1 ∷ 0 ∷ 53 ∷ [])
unfolding opened
mapped_encodes = refl

abbrev idle : Conn
idle = record { inbox = []; sent = []; writes = 0 }

read-append_socks_address_example :
    read_socks_address texts
      (record { inbox = 1 ∷ 10 ∷ 0 ∷ 0 ∷ 1 ∷ 0 ∷ 53 ∷ 9 ∷ []; sent = []; writes = 0 })
    ≡ (
      ok (record { host = b':' ∷ 10 ∷ 0 ∷ 0 ∷ 1 ∷ []; port = 53 }),
      record { inbox = 9 ∷ []; sent = []; writes = 0 },
    )
unfolding opened
read-append_socks_address_example =
    read-append_socks_address texts texts_laws mapped idle (9 ∷ []) mapped_encodes

abbrev pub query : Bytes
query = codes "query"

query_encodes :
    (encode_datagram texts 0 website query).0
    ≡ ok (0 ∷ 0 ∷ 0 ∷ 3 ∷ 4 ∷ (codes "a.io" ++ (1 ∷ 187 ∷ query)))
unfolding opened
query_encodes = refl

abbrev pub query_packet : Bytes
query_packet = 0 ∷ 0 ∷ 0 ∷ 3 ∷ 4 ∷ (codes "a.io" ++ (1 ∷ 187 ∷ query))

parse-encode_datagram_example :
    (parse_datagram texts query_packet ≡ ok (query, website))
    × (length query_packet ≤ max_datagram)
    × (length query_packet ≤ (encode_datagram texts 0 website query).1)
unfolding opened
parse-encode_datagram_example = parse-encode_datagram texts texts_laws 0 website query query_encodes

abbrev root : Bytes
root = codes "root"

abbrev key : Bytes
key = codes "key"

handshake_example :
    let server = authenticate_server root key (conn (client_bytes root key ++ (7 ∷ []))) in
    let client = authenticate_client root key (conn (server.1.sent ++ (8 ∷ []))) in
    (client.1.sent ≡ client_bytes root key)
    × (server.0 ≡ ok tt)
    × (client.0 ≡ ok tt)
    × (server.1.inbox ≡ 7 ∷ [])
    × (client.1.inbox ≡ 8 ∷ [])
unfolding opened
handshake_example =
    handshake root key root key (7 ∷ []) (8 ∷ []) (omega arith, omega arith)
      (omega arith, omega arith)
