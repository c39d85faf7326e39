-- ===== src/Logs/Frame/Server.antt =====
-- Server frames: a decoder after RFC 6455, section 5.2, reads back what is written.
use mathlib.Core.List.{append_assoc}
use mihomo_extension_sidecar.Common.{
  ℕ, ◌+◌, ◌/◌, ◌%◌, ◌≤◌, ◌<◌, ◌==◌, ltb, not, ◌||◌, [], ◌∷◌, ◌++◌, Bytes, ◌≡◌, refl, arith, length,
  Bool-cases, inl, inr,
}
use mihomo_extension_sidecar.Logs.Frame.{
  got, R, ◌>>=◌, ◌>>◌, pure, bad_flags, reject_if, read_byte, read_bytes, read_length, write_frame,
  server_length, byte_at, max_server_frame,
}
use mihomo_extension_sidecar.Logs.Frame.Client.{read_bytes-append, read_length_two}

-- One unmasked frame that is not a fragment.
unfoldable pub decode_frame : R (ℕ × Bytes)
decode_frame = do
  first ← read_byte
  second ← read_byte
  reject_if (not (first / 16 == 8) || not (second / 128 == 0)) bad_flags
  size ← read_length second
  payload ← read_bytes size
  pure (first % 16, payload)

-- The bytes that `write_frame` puts on the connection.
abbrev pub sent_frame : ℕ → Bytes → Bytes
sent_frame opcode payload = (128 + opcode) ∷ (server_length (length payload) ++ payload)

decode_framed :
    (opcode second : ℕ) (payload rest body : Bytes)
    → opcode < 16
    → second < 128
    → read_length second body ≡ got (length payload) (payload ++ rest)
    → decode_frame ((128 + opcode) ∷ second ∷ body) ≡ got (opcode, payload) rest
unfolding decode_frame read_byte
decode_framed opcode second payload rest body low small e =
    let all = read_bytes-append payload rest (length payload) refl in
    let flags : (128 + opcode) / 16 ≡ 8 = omega arith in
    let unmasked : second / 128 ≡ 0 = omega arith in
    let code : (128 + opcode) % 16 ≡ opcode = omega arith in
    rw (flags, unmasked, code) (ground (arith, e, all))

length_read :
    (size : ℕ) (payload : Bytes)
    → size ≤ max_server_frame
    → (second : ℕ) × (more : Bytes) × (server_length size ≡ second ∷ more)
      × (second < 128)
      × (read_length second (more ++ payload) ≡ got size payload)
unfolding server_length read_length
length_read size payload small = elim (Bool-cases (ltb size 126)) [
  | inl short ↦
      let below : size < 126 = ground arith in (size, [], ground arith, omega arith, ground arith)
  | inr long ↦
      let above : 126 ≤ size = ground arith in
      (
        126,
        byte_at size 1 ∷ byte_at size 0 ∷ [],
        ground arith,
        omega arith,
        read_length_two size payload above (omega arith),
      )
]

-- A payload within the limits of its opcode is written, and the decoder reads back the opcode and
-- the payload and leaves the bytes behind the frame unread.
pub write_frame-decode_frame :
    (opcode : ℕ) (payload rest : Bytes)
    → opcode < 16
    → length payload ≤ max_server_frame
    → (8 ≤ opcode → length payload ≤ 125)
    → (frame : Bytes) × (write_frame opcode payload ≡ got tt frame)
      × (decode_frame (frame ++ rest) ≡ got (opcode, payload) rest)
unfolding write_frame
write_frame-decode_frame opcode payload rest low small control =
    let (second, more, e, below, r) = length_read (length payload) (payload ++ rest) small in
    (
      (128 + opcode) ∷ (server_length (length payload) ++ payload),
      ground arith,
      rw (e, append_assoc more payload rest)
          (decode_framed opcode second payload rest (more ++ (payload ++ rest)) low below r),
    )
