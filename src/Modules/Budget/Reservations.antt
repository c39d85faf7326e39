-- ===== src/Modules/Budget/Reservations.antt =====
-- What a reservation covers (moduleBodyReservation and moduleResponseBodyReservation in
-- module_proxy.go): no less than the body that is read afterwards.
use mihomo_extension_sidecar.Common.{
  ℕ, ◌+◌, ◌≤◌, ◌<◌, ◌==◌, ◌||◌, bytes_eq, codes, true, List, [], ◌∷◌, Option, some, none, Bytes,
  length, length-take, take_all, ◌≡◌, ◌⊎◌, inl, inr, arith, ℤ, pos, negsuc, Option-cases,
  Bool-cases, dec_lt,
}
use mihomo_extension_sidecar.Configuration.Types.{ScriptRule}
use mihomo_extension_sidecar.Hosts.Patterns.{HostText}
use mihomo_extension_sidecar.Modules.Budget.{
  max_module_http_body, wider, read_limit_loop, module_body_read_limit, widest_limit,
  module_body_reservation,
}
use mihomo_extension_sidecar.Modules.Bodies.{
  Reader, Decoders, read_all_limited, read_bounded, max_bytes_reader, decoder, decode_content_body,
  normalized_content_encoding, read_decoded_module_request_body,
}

-- A body with a positive content length has no more bytes than that, as `net/http` gives it.
abbrev pub HasLength : Option ℤ → Bytes → Type 0
HasLength none body = Unit
HasLength (some (negsuc n)) body = Unit
HasLength (some (pos n)) body = 0 < n → length body ≤ n

-- A bounded read gives all of the content, or fails because the reader does or has too much.
read_bounded_cases :
    (r : Reader) (limit : ℕ)
    → ((read_bounded r limit ≡ none) × ((r.fails ≡ true) ⊎ (limit < length r.content)))
      ⊎ ((read_bounded r limit ≡ some r.content) × (length r.content ≤ limit))
unfolding read_bounded read_all_limited
read_bounded_cases r limit = elim (dec_lt limit (length r.content)) [
  | yes long ↦ inl (ground (arith, length-take (limit + 1) r.content (omega arith)), inr long)
  | no short ↦ elim (Bool-cases r.fails) [
    | inl broken ↦ inl (ground (arith, broken), inl broken)
    | inr ends ↦
        inr (ground (arith, ends, take_all (limit + 1) r.content (omega arith)), omega arith)
  ]
]

wider_mono :
    (raw : ℤ) (limit widest : ℕ)
    → limit ≤ widest
    → (wider raw limit ≤ wider raw widest) × (limit ≤ wider raw widest)
wider_mono (pos n) limit widest h = ground arith
wider_mono (negsuc n) limit widest h = ground arith

read_limit-le-widest :
    (rules : List ScriptRule) (limit widest : ℕ)
    → limit ≤ widest
    → read_limit_loop limit rules ≤ widest_limit widest rules
unfolding read_limit_loop widest_limit
read_limit-le-widest [] limit widest h = h
read_limit-le-widest (r ∷ rules) limit widest h =
    let (both, kept) = wider_mono r.max_body_bytes limit widest h in
    read_limit-le-widest rules _ (wider r.max_body_bytes widest) (ground (arith, both, kept))

-- A bounded read gives no more than the limit.
read_bounded-bounded :
    (r : Reader) (limit : ℕ) (body : Bytes) → read_bounded r limit ≡ some body → length body ≤ limit
read_bounded-bounded r limit body e = elim (read_bounded_cases r limit) [
  | inl (f, _) ↦ absurd (ground (arith, e, f))
  | inr (f, short) ↦ ground (arith, e, f, short)
]

request-limit :
    (content_length : Option ℤ) (rules : List ScriptRule)
    → 0 < read_limit_loop 0 rules
    → module_body_read_limit rules ≤ module_body_reservation content_length rules
unfolding module_body_reservation module_body_read_limit
request-limit none rules declared = ground (arith, read_limit-le-widest rules 0 0 (omega arith))
request-limit (some (negsuc n)) rules declared =
    ground (arith, read_limit-le-widest rules 0 0 (omega arith))
request-limit (some (pos n)) rules declared =
    ground (arith, read_limit-le-widest rules 0 0 (omega arith))

module _ (t : HostText) (d : Decoders) where
  decode_content_body-bounded :
      (body encoding : Bytes) (limit : ℕ) (text : Bytes)
      → length body ≤ limit
      → decode_content_body t d body encoding limit ≡ some text
      → length text ≤ limit
  unfolding decode_content_body
  decode_content_body-bounded body encoding limit text h e =
      let coding = t.to_lower (t.trim_space encoding) in
      elim (Bool-cases (length coding == 0 || bytes_eq coding (codes "identity"))) [
        | inl plain ↦ ground (arith, plain, e)
        | inr coded ↦ elim (Option-cases (decoder t d coding body)) [
          | inl missing ↦ absurd (ground (arith, coded, missing, e))
          | inr (r, found) ↦ read_bounded-bounded r limit text (ground (arith, coded, found, e))
        ]
      ]

  -- A request reserves at least what its body is decoded to, where an action that reads the body
  -- declares a limit.
  pub request_reservation_covers :
      (content_length : Option ℤ) (rules : List ScriptRule) (values : List Bytes) (r : Reader)
      (body : Bytes)
      → 0 < read_limit_loop 0 rules
      → read_decoded_module_request_body t d values r (module_body_read_limit rules) ≡ some body
      → length body ≤ module_body_reservation content_length rules
  unfolding read_decoded_module_request_body
  request_reservation_covers content_length rules values r body declared e =
      let limit = module_body_read_limit rules in
      let wire = max_bytes_reader r max_module_http_body in
      let room = request-limit content_length rules declared in
      elim (Option-cases (normalized_content_encoding t d values)) [
        | inl bad ↦ absurd (ground (arith, bad, e))
        | inr (encoding, good) ↦ elim (Option-cases (read_bounded wire limit)) [
          | inl failed ↦ absurd (ground (arith, good, failed, e))
          | inr (raw, given) ↦
              let short = read_bounded-bounded wire limit raw given in
              omega (
                arith,
                room,
                decode_content_body-bounded raw encoding limit body short
                    (ground (arith, good, given, e)),
              )
        ]
      ]
