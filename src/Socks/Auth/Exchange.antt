-- ===== src/Socks/Auth/Exchange.antt =====
-- The two sides of the username/password handshake together: each reads what the other writes.
use mathlib.Core.List.{append_assoc}
use mihomo_extension_sidecar.Common.{
  ℕ, ◌≤◌, ◌<◌, ◌==◌, false, ◌&&◌, [], ◌∷◌, ◌++◌, Bytes, ◌≡◌, refl, arith, bytes_eq, bytes_eq_refl,
  if◌then◌else◌, length, length-append, take_append, drop_append,
}
use mihomo_extension_sidecar.Socks.Conn.{
  Conn, ok, err, bad_credentials, auth_failed, no_method, read_full,
}
use mihomo_extension_sidecar.Socks.Address.RoundTrip.{canonical, read-append_socks_address}
use mihomo_extension_sidecar.Socks.Address.{SocksTarget, IpText, IpLaws, encode_socks_address}
use mihomo_extension_sidecar.Socks.Auth.{
  authenticate_server, authenticate_client, offers, read_request,
}

-- A connection on which these bytes arrive, and on which the two writes of a handshake succeed.
abbrev pub conn : Bytes → Conn
conn bytes = record { inbox = bytes; sent = []; writes = 2 }

-- What a client sends: the offer of one method, then the name and the password behind their lengths.
abbrev pub client_bytes : Bytes → Bytes → Bytes
client_bytes user pass = 5 ∷ 1 ∷ 2 ∷ 1 ∷ length user ∷ (user ++ (length pass ∷ pass))

abbrev pub Fits : Bytes → Type 0
Fits x = (0 < length x) × (length x ≤ 255)

pub server_lem :
    (username password user pass rest : Bytes)
    → Fits user
    → Fits pass
    → authenticate_server username password (conn (client_bytes user pass ++ rest)) ≡ (
      (if bytes_eq user username && bytes_eq pass password then ok tt else err bad_credentials),
      record {
        inbox = rest;
        sent = 5 ∷ 2 ∷ 1 ∷ (if bytes_eq user username && bytes_eq pass password then 0 else 1) ∷ [];
        writes = 0;
      },
    )
unfolding authenticate_server
server_lem username password user pass rest fu fp =
    let tail = length pass ∷ (pass ++ rest) in
    ground (
      arith,
      append_assoc user (length pass ∷ pass) rest,
      length-append user tail,
      take_append user tail,
      drop_append user tail,
      length-append pass rest,
      take_append pass rest,
      drop_append pass rest,
    )

client_lem :
    (user pass rest : Bytes) (status : ℕ)
    → Fits user
    → Fits pass
    → authenticate_client user pass (conn (5 ∷ 2 ∷ 1 ∷ status ∷ rest)) ≡ (
      (if status == 0 then ok tt else err auth_failed),
      record { inbox = rest; sent = client_bytes user pass; writes = 0 },
    )
unfolding authenticate_client bytes_eq
client_lem user pass rest status fu fp = ground arith

-- Where the client has a name and a password of 1 to 255 bytes, and both sides run the handshake,
-- each on the bytes that the other sends and more behind them, then the client sends what the server
-- was given, each accepts if the credentials agree and refuses if they differ, and each leaves the bytes behind the
-- handshake unread.
pub handshake :
    (username password user pass to_server to_client : Bytes)
    → Fits user
    → Fits pass
    → let server =
        authenticate_server username password (conn (client_bytes user pass ++ to_server)) in
      let client = authenticate_client user pass (conn (server.1.sent ++ to_client)) in
      let agreed = bytes_eq user username && bytes_eq pass password in
      (client.1.sent ≡ client_bytes user pass)
      × (server.0 ≡ (if agreed then ok tt else err bad_credentials))
      × (client.0 ≡ (if agreed then ok tt else err auth_failed))
      × (server.1.inbox ≡ to_server)
      × (client.1.inbox ≡ to_client)
handshake username password user pass to_server to_client fu fp =
    let agreed = bytes_eq user username && bytes_eq pass password in
    let status : ℕ = if agreed then 0 else 1 in
    rw (server_lem username password user pass to_server fu fp)
      (rw (client_lem user pass to_client status fu fp) (refl, refl, ground arith, refl, refl))

-- A client that offers 1 to 255 methods without username/password is sent the refusal and turned
-- away; the bytes behind its offer stay unread.
pub authenticate_server_refuses :
    (username password methods rest : Bytes)
    → Fits methods
    → offers 2 methods ≡ false
    → authenticate_server username password (conn (5 ∷ length methods ∷ (methods ++ rest)))
      ≡ (err no_method, record { inbox = rest; sent = 5 ∷ 255 ∷ []; writes = 1 })
unfolding authenticate_server
authenticate_server_refuses username password methods rest f n =
    ground (arith, length-append methods rest, take_append methods rest, drop_append methods rest)

module _ (t : IpText) (l : IpLaws t) where
  -- A request behind agreed credentials, of 1 to 255 bytes each, with a target that can be encoded, is
  -- read whole: its command and its target, an IP host in its printed form; the bytes behind it stay unread.
  pub read_request_lem :
      (username password rest : Bytes) (command : ℕ) (target : SocksTarget) {address : Bytes}
      → Fits username
      → Fits password
      → encode_socks_address t target ≡ ok address
      → read_request t username password
          (conn (client_bytes username password ++ (5 ∷ command ∷ 0 ∷ (address ++ rest))))
        ≡ (
          ok (command, canonical t target),
          record { inbox = rest; sent = 5 ∷ 2 ∷ 1 ∷ 0 ∷ []; writes = 0 },
        )
  unfolding read_request read_full
  read_request_lem username password rest command target {address} fu fp e =
      let c : Conn = record { inbox = []; sent = 5 ∷ 2 ∷ 1 ∷ 0 ∷ []; writes = 0 } in
      ground (
        arith,
        server_lem username password username password (5 ∷ command ∷ 0 ∷ (address ++ rest)) fu fp,
        bytes_eq_refl username,
        bytes_eq_refl password,
        read-append_socks_address t l target c rest e,
      )
