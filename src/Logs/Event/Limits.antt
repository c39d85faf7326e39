-- ===== src/Logs/Event/Limits.antt =====
-- The limits of a truncated field, of a normalized event and of a close frame.
use mihomo_extension_sidecar.Common.{
  ℕ, zero, suc, ◌-◌, ◌/◌, ◌%◌, ◌≤◌, Bool, true, [], ◌∷◌, ◌++◌, Bytes, ◌≡◌, refl, arith, length,
  take, replicate, length-append, length-replicate, length-take, take_all, dec_lt,
}
use mihomo_extension_sidecar.Logs.Frame.{got, write_frame}
use mihomo_extension_sidecar.Logs.Frame.Server.{decode_frame, write_frame-decode_frame}
use mihomo_extension_sidecar.Logs.Event.{
  valid_prefix, cut_to, truncate_engine_log_field, web_socket_close_payload,
}

length-take_le : (n : ℕ) (xs : Bytes) → length (take n xs) ≤ n
length-take_le n xs = elim (dec_lt n (length xs)) [
  | yes cut ↦ omega (arith, length-take n xs (omega arith))
  | no all ↦ rw (take_all n xs (omega arith)) (omega arith)
]

module _ (valid_utf8 : Bytes → Bool) (to_valid_utf8 : Bytes → Bytes) where
  length-valid_prefix :
      (n : ℕ) (value : Bytes) → length (valid_prefix valid_utf8 to_valid_utf8 n value) ≤ n
  unfolding valid_prefix
  length-valid_prefix zero value = omega arith
  length-valid_prefix (suc n) value =
      ground (arith, length-take_le (suc n) value, length-valid_prefix n value)

  valid-valid_prefix :
      (n : ℕ) (value : Bytes)
      → valid_utf8 [] ≡ true
      → valid_utf8 (valid_prefix valid_utf8 to_valid_utf8 n value) ≡ true
  unfolding valid_prefix
  valid-valid_prefix zero value v = v
  valid-valid_prefix (suc n) value v = ground (arith, valid-valid_prefix n value v)

  length-cut_to :
      (budget : ℕ) (value : Bytes) → length (cut_to valid_utf8 to_valid_utf8 budget value) ≤ budget
  length-cut_to budget value =
      let clean = take budget (to_valid_utf8 (take budget value)) in
      omega (
        arith,
        length-valid_prefix (length clean) clean,
        length-take_le budget (to_valid_utf8 (take budget value)),
      )

  length-truncate :
      (value : Bytes) (limit : ℕ)
      → length (truncate_engine_log_field valid_utf8 to_valid_utf8 value limit) ≤ limit
  unfolding truncate_engine_log_field
  length-truncate value limit = ground (
    arith,
    length-replicate {A = ℕ} limit b'.',
    length-cut_to limit value,
    length-cut_to (limit - 3) value,
    length-append (cut_to valid_utf8 to_valid_utf8 (limit - 3) value) (b'.' ∷ b'.' ∷ b'.' ∷ []),
  )

  valid-replicate :
      (n : ℕ) (c : ℕ)
      → valid_utf8 [] ≡ true
      → ((a b : Bytes) → valid_utf8 a ≡ true → valid_utf8 b ≡ true → valid_utf8 (a ++ b) ≡ true)
      → valid_utf8 (c ∷ []) ≡ true
      → valid_utf8 (replicate n c) ≡ true
  valid-replicate zero c v joins one = v
  valid-replicate (suc n) c v joins one =
      joins (c ∷ []) (replicate n c) one (valid-replicate n c v joins one)

  -- A truncated field is at most as long as the limit, and it is valid UTF-8, provided that the empty
  -- text and a dot are, and that two valid texts joined are.
  pub truncate_engine_log_field-limits :
      (value : Bytes) (limit : ℕ)
      → valid_utf8 [] ≡ true
      → ((a b : Bytes) → valid_utf8 a ≡ true → valid_utf8 b ≡ true → valid_utf8 (a ++ b) ≡ true)
      → valid_utf8 (b'.' ∷ []) ≡ true
      → let field = truncate_engine_log_field valid_utf8 to_valid_utf8 value limit in
        (length field ≤ limit) × (valid_utf8 field ≡ true)
  unfolding truncate_engine_log_field
  truncate_engine_log_field-limits value limit v joins dot =
      let cut : ℕ → Bytes = λ n. cut_to valid_utf8 to_valid_utf8 n value in
      let clean : (n : ℕ) → valid_utf8 (cut n) ≡ true = λ n. valid-valid_prefix _ _ v in
      let tail =
        joins (cut (limit - 3)) (replicate 3 b'.') (clean (limit - 3))
          (valid-replicate 3 b'.' v joins dot) in
      (
        length-truncate value limit,
        ground (arith, clean limit, tail, v, valid-replicate limit b'.' v joins dot),
      )

  -- Whatever the reason, a close frame is written, and the decoder reads back its payload, which begins
  -- with the two bytes of the code.
  pub web_socket_close_payload-write_frame :
      (code : ℕ) (reason rest : Bytes)
      → let payload = web_socket_close_payload valid_utf8 to_valid_utf8 code reason in
        (frame : Bytes) × (write_frame 8 payload ≡ got tt frame)
        × (decode_frame (frame ++ rest) ≡ got (8, payload) rest)
        × (take 2 payload ≡ code / 256 % 256 ∷ code % 256 ∷ [])
  unfolding web_socket_close_payload
  web_socket_close_payload-write_frame code reason rest =
      let short = length-truncate reason 123 in
      let payload = web_socket_close_payload valid_utf8 to_valid_utf8 code reason in
      let (frame, w, d) =
        write_frame-decode_frame 8 payload rest (omega arith) (omega (arith, short))
          (λ h. omega (arith, short)) in
      (frame, w, d, refl)
