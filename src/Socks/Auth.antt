-- ===== src/Socks/Auth.antt =====
-- The SOCKS5 handshakes of both sides (socks.go).
pub mod Exchange
use mihomo_extension_sidecar.Common.{
  ℕ, zero, suc, ◌%◌, ◌==◌, ltb, Bool, true, false, not, ◌&&◌, ◌||◌, List, [], ◌∷◌, ◌++◌, Bytes,
  bytes_eq, if◌then◌else◌, length, Option, some, none,
}
use mihomo_extension_sidecar.Socks.Conn.{
  SocksError, bad_greeting, no_method, bad_auth_header, empty_password, bad_credentials,
  bad_request_header, credential_length, auth_rejected, auth_failed, bad_reply, reply_status, Reply,
  ok, err, Conn, S, ◌>>=◌, ◌>>◌, pure, fail, check, read_full, write,
}
use mihomo_extension_sidecar.Socks.Address.{
  SocksTarget, IpText, encode_socks_address, read_socks_address, only,
}

-- The bytes of a two- or three-byte header; a read that succeeds gives exactly these.
abbrev pub at : ℕ → Bytes → ℕ
at i [] = 0
at zero (b ∷ bs) = b
at (suc i) (b ∷ bs) = at i bs

unfoldable pub offers : ℕ → Bytes → Bool
offers method [] = false
offers method (m ∷ ms) = m == method || offers method ms

-- The branch of a client that offers no username/password: the refusal is sent, and its error ignored.
refuse_methods : S (Unit {0})
refuse_methods c = (err no_method, (write (5 ∷ 255 ∷ []) c).1)

unfoldable pub authenticate_server : Bytes → Bytes → S (Unit {0})
unfolding refuse_methods offers read_full write
authenticate_server username password = do
  header ← read_full 2
  check (at 0 header == 5 && not (at 1 header == 0)) bad_greeting
  methods ← read_full (at 1 header)
  if offers 2 methods then pure tt else refuse_methods
  write (5 ∷ 2 ∷ [])
  auth ← read_full 2
  check (at 0 auth == 1 && not (at 1 auth == 0)) bad_auth_header
  user ← read_full (at 1 auth)
  size ← read_full 1
  check (not (only size == 0)) empty_password
  pass ← read_full (only size)
  write (1 ∷ (if bytes_eq user username && bytes_eq pass password then 0 else 1) ∷ [])
  check (bytes_eq user username && bytes_eq pass password) bad_credentials

unfoldable pub authenticate_client : Bytes → Bytes → S (Unit {0})
unfolding read_full write
authenticate_client username password = do
  check
      (not (
        length username == 0
        || ltb 255 (length username)
        || length password == 0
        || ltb 255 (length password)))
      credential_length
  write (5 ∷ 1 ∷ 2 ∷ [])
  response ← read_full 2
  check (bytes_eq response (5 ∷ 2 ∷ [])) auth_rejected
  write (1 ∷ length username % 256 ∷ (username ++ (length password % 256 ∷ password)))
  answer ← read_full 2
  check (at 0 answer == 1 && at 1 answer == 0) auth_failed

module _ (t : IpText) where
  -- `readSOCKSRequest`: the command and the target.
  unfoldable pub read_request : Bytes → Bytes → S (ℕ × SocksTarget)
  read_request username password = do
    authenticate_server username password
    header ← read_full 3
    check (at 0 header == 5 && at 2 header == 0) bad_request_header
    target ← read_socks_address t
    pure (at 1 header, target)

  -- `readSOCKSClientReply`
  unfoldable pub read_client_reply : S SocksTarget
  read_client_reply = do
    header ← read_full 3
    check (at 0 header == 5 && at 2 header == 0) bad_reply
    address ← read_socks_address t
    check (at 1 header == 0) (reply_status (at 1 header))
    pure address

  abbrev unspecified : SocksTarget
  unspecified = record { host = b'0' ∷ b'.' ∷ b'0' ∷ b'.' ∷ b'0' ∷ b'.' ∷ b'0' ∷ []; port = 0 }

  send_reply : ℕ → Reply Bytes → S (Unit {0})
  send_reply status (err e) = fail e
  send_reply status (ok payload) = write (5 ∷ status ∷ 0 ∷ payload)

  -- `writeSOCKSReply`; the address is given as its host and port, or none.
  unfoldable pub write_reply : ℕ → Option SocksTarget → S (Unit {0})
  unfolding send_reply
  write_reply status none = send_reply status (encode_socks_address t unspecified)
  write_reply status (some target) = send_reply status (encode_socks_address t target)
