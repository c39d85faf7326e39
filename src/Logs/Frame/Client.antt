-- ===== src/Logs/Frame/Client.antt =====
-- Client frames: what a client writes is read back, and what is accepted keeps the limits.
use mihomo_extension_sidecar.Common.{
  ℕ, ◌+◌, ◌*◌, ◌%◌, ◌≤◌, ◌<◌, ltb, Bool, true, false, [], ◌∷◌, ◌++◌, Bytes, ◌≡◌, refl, arith,
  if◌then◌else◌, length, take, drop, length-append, take_append, drop_append, inl, inr, ◌⊎◌,
  length-take, ◌≢◌,
}
use mihomo_extension_sidecar.Logs.Frame.{
  FrameError, Parsed, got, refused, read_byte, read_bytes, big_endian, big_endian_from, apply_mask,
  rotate, known_opcode, max_client_frame, read_length, check_close, read_client_frame, byte_at,
  valid_close_code,
}

length-apply_mask : (mask payload : Bytes) → length (apply_mask mask payload) ≡ length payload
unfolding apply_mask
length-apply_mask mask [] = refl
length-apply_mask mask (b ∷ bs) = ground (arith, length-apply_mask (rotate mask) bs)

pub read_bytes-append :
    (x rest : Bytes) (n : ℕ) → length x ≡ n → read_bytes n (x ++ rest) ≡ got x rest
unfolding read_bytes
read_bytes-append x rest n e =
    ground (arith, length-append x rest, take_append x rest, drop_append x rest)

-- The size bytes of a masked frame of at most 65535 bytes.
abbrev pub client_length : ℕ → Bytes
client_length size =
    if ltb size 126 then (128 + size) ∷ [] else 254 ∷ byte_at size 1 ∷ byte_at size 0 ∷ []

abbrev pub client_frame : ℕ → Bytes → Bytes → Bytes
client_frame opcode mask payload =
    (128 + opcode) ∷ (client_length (length payload) ++ (mask ++ apply_mask mask payload))

Parsed-cases :
    {A : Type 0} (x : Parsed A)
    → ((a : A) × (rest : Bytes) × (x ≡ got a rest)) ⊎ ((e : FrameError) × (x ≡ refused e))
Parsed-cases (got a rest) = inl (a, rest, refl)
Parsed-cases (refused e) = inr (e, refl)

length-read_bytes :
    (n : ℕ) (bytes : Bytes) {x rest : Bytes} → read_bytes n bytes ≡ got x rest → length x ≡ n
unfolding read_bytes
length-read_bytes n bytes h = ground (arith, length-take n bytes)

pub read_length_two :
    (size : ℕ) (rest : Bytes)
    → 126 ≤ size
    → size ≤ 65535
    → read_length 126 (byte_at size 1 ∷ byte_at size 0 ∷ rest) ≡ got size rest
unfolding read_length big_endian_from
read_length_two size rest above below =
    let bytes = byte_at size 1 ∷ byte_at size 0 ∷ [] in
    let joined : (byte_at size 1 * 256 + byte_at size 0) ≡ size = omega arith in
    let canonical : ltb size 126 ≡ false = ground arith in
    let two : read_bytes 2 (byte_at size 1 ∷ byte_at size 0 ∷ rest) ≡ got bytes rest =
      read_bytes-append bytes rest 2 refl in
    ground (arith, two, joined, canonical)

module _ (valid_utf8 : Bytes → Bool) where
  -- What the checks on a close frame ask of its payload.
  abbrev pub CloseOk : Bytes → Type 0
  CloseOk payload =
      (length payload ≢ 1)
      × (2 < length payload → valid_utf8 (drop 2 payload) ≡ true)
      × (2 ≤ length payload → valid_close_code (big_endian (take 2 payload)) ≡ true)

  check_close_got :
      (payload r r' : Bytes) → check_close valid_utf8 8 payload r ≡ got tt r' → CloseOk payload
  unfolding check_close
  check_close_got payload r r' e =
      (λ n. absurd (ground arith), λ lt. ground arith, λ le. ground arith)

  -- What is accepted has a known opcode, at most 4096 bytes of payload, at most 125 in a control
  -- frame, and a close frame has no payload, or a valid close code and behind it valid UTF-8.
  pub read_client_frame-limits :
      (bytes : Bytes) {opcode : ℕ} {payload rest : Bytes}
      → read_client_frame valid_utf8 bytes ≡ got (opcode, payload) rest
      → (known_opcode opcode ≡ true)
        × (length payload ≤ max_client_frame)
        × (8 ≤ opcode → length payload ≤ 125)
        × (opcode ≡ 8 → CloseOk payload)
  unfolding read_client_frame read_byte
  read_client_frame-limits [] e = absurd (ground arith)
  read_client_frame-limits (first ∷ []) e = absurd (ground arith)
  read_client_frame-limits (first ∷ second ∷ tail) {opcode} {payload} e =
      elim (Parsed-cases (read_length (second % 128) tail)) [
        | inr (_, q) ↦ absurd (ground arith)
        | inl (size, r, q) ↦ elim (Parsed-cases (read_bytes 4 r)) [
          | inr (_, q1) ↦ absurd (ground arith)
          | inl (mask, r1, q1) ↦ elim (Parsed-cases (read_bytes size r1)) [
            | inr (_, q2) ↦ absurd (ground arith)
            | inl (masked, r2, q2) ↦
                elim (Parsed-cases
                  (check_close valid_utf8 (first % 16) (apply_mask mask masked) r2)) [
                    | inr (_, q3) ↦ absurd (ground arith)
                    | inl (_, r3, q3) ↦
                        let long = length-read_bytes size r1 q2 in
                        let same = length-apply_mask mask masked in
                        (
                          ground arith,
                          ground (arith, long, same),
                          (λ h. ground (arith, long, same)),
                          λ h. check_close_got payload r2 r3 (
                              let op : first % 16 ≡ 8 = ground arith in
                              let pay : apply_mask mask masked ≡ payload = ground arith in
                              ground arith),
                        )
                  ]
          ]
        ]
      ]
