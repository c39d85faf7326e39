-- ===== src/Logs/Frame.antt =====
-- WebSocket frames (engine_logs.go). Bit tests on a byte are written by division: `b & 0x70` is
-- `b / 16 % 8`, `b & 0x80` is `b / 128 % 2`, `b & 0x0f` is `b % 16` and `b & 0x7f` is `b % 128`.
mod Xor
pub mod Client
pub mod Server
use Prim.Native.Nat.{bit_xor}
use mihomo_extension_sidecar.Common.{
  ℕ, zero, suc, ◌+◌, ◌*◌, ◌/◌, ◌%◌, ◌^◌, ◌==◌, ltb, leb, Bool, true, false, not, ◌&&◌, ◌||◌, List,
  [], ◌∷◌, ◌++◌, Bytes, if◌then◌else◌, length, take, drop,
}

pub data FrameError : Type 0 where
  short_read bad_flags bad_opcode non_canonical control_size frame_size : FrameError
  close_payload close_code : FrameError

-- What a read leaves: a value and the unread bytes, or an error.
pub data Parsed {ℓ} (A : Type ℓ) : Type ℓ where
  got : A → Bytes → Parsed A
  refused : FrameError → Parsed A

abbrev pub R : Type 0 → Type 0
R A = Bytes → Parsed A

infixl 5 ◌>>=◌ ◌>>◌
abbrev pub ◌>>=◌ : {A B : Type 0} → R A → (A → R B) → R B
◌>>=◌ m f bytes = elim (m bytes) [ got a rest ↦ f a rest | refused e ↦ refused e ]

abbrev pub ◌>>◌ : {B : Type 0} → R (Unit {0}) → R B → R B
m >> k = m >>= λ _. k

abbrev pub pure : {A : Type 0} → A → R A
pure a bytes = got a bytes

abbrev pub reject_if : Bool → FrameError → R (Unit {0})
reject_if true e bytes = refused e
reject_if false e bytes = got tt bytes

unfoldable pub read_byte : R ℕ
read_byte [] = refused short_read
read_byte (b ∷ bs) = got b bs

unfoldable pub read_bytes : ℕ → R Bytes
read_bytes n bytes =
    if ltb (length bytes) n then refused short_read else got (take n bytes) (drop n bytes)

-- `binary.BigEndian`
unfoldable pub big_endian_from : ℕ → Bytes → ℕ
big_endian_from acc [] = acc
big_endian_from acc (b ∷ bs) = big_endian_from (acc * 256 + b) bs

abbrev pub big_endian : Bytes → ℕ
big_endian = big_endian_from 0

-- `payload[index] ^= mask[index%len(mask)]`: the mask turns with each byte.
abbrev rotate : Bytes → Bytes
rotate [] = []
rotate (m ∷ ms) = ms ++ m ∷ []

abbrev mask_byte : Bytes → ℕ
mask_byte [] = 0
mask_byte (m ∷ ms) = m

unfoldable pub apply_mask : Bytes → Bytes → Bytes
apply_mask mask [] = []
apply_mask mask (b ∷ bs) = bit_xor b (mask_byte mask) ∷ apply_mask (rotate mask) bs

unfoldable pub valid_close_code : ℕ → Bool
valid_close_code code =
    if leb 3000 code && leb code 4999
    then true
    else if ltb code 1000 || ltb 1014 code
    then false
    else not (code == 1004) && not (code == 1005) && not (code == 1006)

abbrev pub known_opcode : ℕ → Bool
known_opcode op = op == 1 || op == 2 || op == 8 || op == 9 || op == 10

abbrev pub max_client_frame : ℕ
max_client_frame = 4096

abbrev pub max_server_frame : ℕ
max_server_frame = 16384

-- The length behind the second byte.
unfoldable pub read_length : ℕ → R ℕ
read_length short =
    if short == 126
    then (do
      encoded ← read_bytes 2
      reject_if (ltb (big_endian encoded) 126) non_canonical
      pure (big_endian encoded))
    else if short == 127
    then (do
      encoded ← read_bytes 8
      reject_if (leb (big_endian encoded) 65535 || not (big_endian encoded / 2 ^ 63 == 0))
          non_canonical
      pure (big_endian encoded))
    else pure short

module _ (valid_utf8 : Bytes → Bool) where
  -- The checks on the payload of a close frame.
  unfoldable pub check_close : ℕ → Bytes → R (Unit {0})
  unfolding valid_close_code
  check_close opcode payload =
      if opcode == 8
      then (do
        reject_if
            (length payload == 1 || (ltb 2 (length payload) && not (valid_utf8 (drop 2 payload))))
            close_payload
        reject_if (leb 2 (length payload) && not (valid_close_code (big_endian (take 2 payload))))
            close_code)
      else pure tt

  -- `readWebSocketClientFrame`
  unfoldable pub read_client_frame : R (ℕ × Bytes)
  unfolding check_close
  read_client_frame = do
    first ← read_byte
    second ← read_byte
    reject_if (not (first / 16 % 8 == 0) || first / 128 % 2 == 0 || second / 128 % 2 == 0) bad_flags
    reject_if (not (known_opcode (first % 16))) bad_opcode
    size ← read_length (second % 128)
    reject_if (leb 8 (first % 16) && ltb 125 size) control_size
    reject_if (ltb max_client_frame size) frame_size
    mask ← read_bytes 4
    masked ← read_bytes size
    check_close (first % 16) (apply_mask mask masked)
    pure (first % 16, apply_mask mask masked)

abbrev pub byte_at : ℕ → ℕ → ℕ
byte_at n k = n / 256 ^ k % 256

-- The header of `writeWebSocketFrame`, by the size of the payload.
unfoldable pub server_length : ℕ → Bytes
server_length size =
    if ltb size 126
    then size % 256 ∷ []
    else if leb size 65535
    then 126 ∷ byte_at size 1 ∷ byte_at size 0 ∷ []
    else 127
      ∷ byte_at size 7
      ∷ byte_at size 6
      ∷ byte_at size 5
      ∷ byte_at size 4
      ∷ byte_at size 3
      ∷ byte_at size 2
      ∷ byte_at size 1
      ∷ byte_at size 0
      ∷ []

-- `writeWebSocketFrame` on a writer that takes every byte. `0x80 | opcode` of a four-bit opcode.
unfoldable pub write_frame : ℕ → Bytes → Parsed (Unit {0})
unfolding server_length
write_frame opcode payload =
    if leb 8 opcode && ltb 125 (length payload)
    then refused control_size
    else if ltb max_server_frame (length payload)
    then refused frame_size
    else got tt ((128 + opcode) ∷ (server_length (length payload) ++ payload))
