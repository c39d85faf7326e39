-- ===== src/Socks/Datagram.antt =====
-- SOCKS UDP datagrams and their reusable buffers (socks.go). A buffer is its capacity: what it held
-- before is overwritten or cut off.
pub mod Laws
use mihomo_extension_sidecar.Common.{
  ℕ, ◌+◌, ◌-◌, ◌*◌, ◌==◌, ltb, leb, Bool, true, false, not, ◌&&◌, ◌||◌, List, [], ◌∷◌, ◌++◌, Bytes,
  if◌then◌else◌, length, drop,
}
use mihomo_extension_sidecar.Socks.Conn.{
  SocksError, bad_packet, packet_too_large, Reply, ok, err, Conn,
}
use mihomo_extension_sidecar.Socks.Address.{
  SocksTarget, IpText, append_socks_address, read_socks_address,
}

abbrev pub max_envelope : ℕ
max_envelope = 3 + 1 + 1 + 255 + 2

abbrev pub max_datagram : ℕ
max_datagram = 65507

-- `resizeSOCKSUDPBuffer`: the capacity and the length of the result. `required` is not negative.
unfoldable pub resize_buffer : ℕ → ℕ → ℕ × ℕ
resize_buffer cap required =
    let required = if ltb max_datagram required then max_datagram else required in
    let doubled = if ltb (cap * 2) required then required else cap * 2 in
    let capacity = if ltb max_datagram doubled then max_datagram else doubled in
    if ltb cap required then (capacity, required) else (cap, required)

-- `resizeSOCKSUDPReadBuffer`
unfoldable pub resize_read_buffer : ℕ → ℕ → ℕ × ℕ
unfolding resize_buffer
resize_read_buffer cap payload = resize_buffer cap (
    if leb payload (max_datagram - max_envelope - 1)
    then payload + max_envelope + 1
    else max_datagram)

-- The size that `encodeSOCKSUDPDatagramInto` asks for.
unfoldable pub required_size : ℕ → ℕ
required_size payload =
    if leb payload (max_datagram - max_envelope) then payload + max_envelope else max_datagram

abbrev consumed : Bytes → Bytes → ℕ
consumed whole rest = length whole - length rest

module _ (t : IpText) where
  append_payload : Reply Bytes → Bytes → Reply Bytes
  append_payload (err e) payload = err e
  append_payload (ok packet) payload =
      if ltb (max_datagram - length packet) (length payload)
      then err packet_too_large
      else ok (packet ++ payload)

  -- `encodeSOCKSUDPDatagramInto`: the packet, and the capacity of the buffer that is kept.
  unfoldable pub encode_datagram : ℕ → SocksTarget → Bytes → Reply Bytes × ℕ
  unfolding append_payload required_size resize_buffer
  encode_datagram cap target payload = (
    append_payload (append_socks_address t (0 ∷ 0 ∷ 0 ∷ []) target) payload,
    (resize_buffer cap (required_size (length payload))).0,
  )

  -- `packet[offset:]`, where the reader has counted what it took behind the first three bytes.
  parsed : Bytes → Reply SocksTarget × Conn → Reply (Bytes × SocksTarget)
  parsed packet (err e, c) = err e
  parsed packet (ok target, c) =
      let offset = 3 + consumed (drop 3 packet) c.inbox in
      if ltb (length packet) offset then err bad_packet else ok (drop offset packet, target)

  abbrev reading : Bytes → Conn
  reading bytes = record { inbox = bytes; sent = []; writes = 0 }

  -- `parseSOCKSUDPDatagram`; four bytes at least, of which three are zero.
  unfoldable pub parse_datagram : Bytes → Reply (Bytes × SocksTarget)
  unfolding parsed
  parse_datagram (a ∷ b ∷ f ∷ d ∷ rest) =
      if not (a == 0) || not (b == 0) || not (f == 0)
      then err bad_packet
      else parsed (a ∷ b ∷ f ∷ d ∷ rest) (read_socks_address t (reading (d ∷ rest)))
  parse_datagram _ = err bad_packet
