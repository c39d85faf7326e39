-- ===== src/Modules/Bodies.antt =====
-- How the body of a message is read: `readBounded` (proxy.go), `normalizedContentEncoding` and
-- `decodeContentBody` (content_encoding.go), `readDecodedModuleRequestBody` and the reading in
-- `transformModuleResponse` (module_proxy.go). A reader is what it will give and whether it then
-- fails instead of ending. Parameters: the decoders and the trimming and lowering of a coding.
-- Errors carry no text, and closing a reader has no effect here.
use mihomo_extension_sidecar.Common.{
  ℕ, ◌+◌, ◌==◌, ltb, Bool, true, false, ◌&&◌, ◌||◌, List, [], ◌∷◌, Option, some, none, Bytes,
  bytes_eq, codes, if◌then◌else◌, length, take,
}
use mihomo_extension_sidecar.Hosts.Patterns.{HostText, contains_byte}
use mihomo_extension_sidecar.Modules.Budget.{max_module_http_body}

pub record Reader : Type 0 where
  pub content : Bytes
  pub fails : Bool

-- What `gzip.NewReader` and `zlib.NewReader` open, and what flate and brotli read.
pub record Decoders : Type 0 where
  pub gzip : Bytes → Option Reader
  pub zlib : Bytes → Option Reader
  pub flate : Bytes → Reader
  pub brotli : Bytes → Reader

-- `io.ReadAll` of an `io.LimitReader`: behind the limit the reader is not asked any more.
unfoldable pub read_all_limited : Reader → ℕ → Option Bytes
read_all_limited r limit =
    if ltb (length r.content) limit && r.fails then none else some (take limit r.content)

-- `readBounded` reads one byte more than the limit, to see that there is none.
unfoldable pub read_bounded : Reader → ℕ → Option Bytes
unfolding read_all_limited
read_bounded r limit = elim (read_all_limited r (limit + 1)) [
  | none ↦ none
  | some body ↦ if ltb limit (length body) then none else some body
]

-- `http.MaxBytesReader`: what is behind the limit reads as an error.
unfoldable pub max_bytes_reader : Reader → ℕ → Reader
max_bytes_reader r limit =
    if ltb limit (length r.content)
    then record { content = take limit r.content; fails = true }
    else r

abbrev pub is_gzip : Bytes → Bool
is_gzip [] = false
is_gzip (a ∷ []) = false
is_gzip (a ∷ b ∷ body) = a == 31 && b == 139

module _ (t : HostText) (d : Decoders) where
  -- `normalizedContentEncoding`, on the values of the header field.
  unfoldable pub normalized_content_encoding : List Bytes → Option Bytes
  normalized_content_encoding [] = some []
  normalized_content_encoding (v ∷ []) =
      let encoding = t.to_lower (t.trim_space v) in
      if length encoding == 0 || contains_byte encoding b',' then none else some encoding
  normalized_content_encoding (v ∷ w ∷ values) = none

  -- The reader for a coding; none if it is not supported or does not open.
  unfoldable pub decoder : Bytes → Bytes → Option Reader
  decoder encoding body =
      if bytes_eq encoding (codes "gzip")
      then d.gzip body
      else if bytes_eq encoding (codes "deflate")
      then elim (d.zlib body) [ none ↦ some (d.flate body) | some r ↦ some r ]
      else if bytes_eq encoding (codes "br")
      then some (d.brotli body)
      else none

  unfoldable pub decode_content_body : Bytes → Bytes → ℕ → Option Bytes
  unfolding decoder read_bounded
  decode_content_body body raw limit =
      let encoding = t.to_lower (t.trim_space raw) in
      if length encoding == 0 || bytes_eq encoding (codes "identity")
      then some body
      else elim (decoder encoding body) [ none ↦ none | some r ↦ read_bounded r limit ]

  -- `readDecodedModuleRequestBody` of a request that has a body.
  unfoldable pub read_decoded_module_request_body : List Bytes → Reader → ℕ → Option Bytes
  unfolding normalized_content_encoding max_bytes_reader read_bounded decode_content_body
  read_decoded_module_request_body values r limit = elim (normalized_content_encoding values) [
    | none ↦ none
    | some encoding ↦ elim (read_bounded (max_bytes_reader r max_module_http_body) limit) [
      | none ↦ none
      | some body ↦ decode_content_body body encoding limit
    ]
  ]

-- How the reading of a response in `transformModuleResponse` ends: the coding is not read, the read fails,
-- the body stays as it came because it cannot be decoded, or it is decoded.
pub data ResponseBody : Type 0 where
  skipped : ResponseBody
  failed : ResponseBody
  undecoded : Bytes → ResponseBody
  decoded : Bytes → Bytes → ResponseBody

module _ (t : HostText) (d : Decoders) where
  -- The limit is that of the actions; what is decoded may have the global limit.
  unfoldable pub read_response_body : List Bytes → Reader → ℕ → ResponseBody
  unfolding normalized_content_encoding read_bounded decode_content_body
  read_response_body values r limit = elim (normalized_content_encoding t d values) [
    | none ↦ skipped
    | some encoding ↦ elim (read_bounded r limit) [
      | none ↦ failed
      | some body ↦
          let coding = if length encoding == 0 && is_gzip body then codes "gzip" else encoding in
          elim (decode_content_body t d body coding max_module_http_body) [
            | none ↦ undecoded body
            | some text ↦ decoded body text
          ]
    ]
  ]
