-- ===== src/Bundle/Id.antt =====
-- `validateBundleID` (bundle_store.go), and that the file names built from valid ids are distinct.
use mihomo_extension_sidecar.Common.{
  ℕ, ◌≤◌, ◌<◌, Bool, true, false, ◌&&◌, ◌||◌, not, [], ◌∷◌, ◌≡◌, ◌≢◌, arith, leb, ltb, ◌==◌,
  if◌then◌else◌, Bytes, length, All,
}
use mihomo_extension_sidecar.Bundle.Types.{Result, ok, err, unclassified}

abbrev in_range : ℕ → ℕ → ℕ → Bool
in_range lo hi c = leb lo c && leb c hi

-- One byte of the loop's `switch`.
unfoldable pub id_byte : ℕ → Bool
id_byte c =
    in_range b'a' b'z' c
    || in_range b'A' b'Z' c
    || in_range b'0' b'9' c
    || c == b'-'
    || c == b'_'
    || c == b'.'

unfoldable pub id_bytes : Bytes → Bool
unfolding id_byte
id_bytes [] = true
id_bytes (c ∷ cs) = id_byte c && id_bytes cs

-- `strings.HasPrefix(id, ".")`, which also covers `.` and `..`.
abbrev pub starts_with_dot : Bytes → Bool
starts_with_dot [] = false
starts_with_dot (c ∷ cs) = c == b'.'

unfoldable pub validate_bundle_id : Bytes → Result (Unit {0})
unfolding id_bytes
validate_bundle_id id =
    if length id == 0
    then err unclassified
    else if ltb 128 (length id)
    then err unclassified
    else if not (id_bytes id)
    then err unclassified
    else if starts_with_dot id
    then err unclassified
    else ok tt

-- A name that is safe as one path segment: not empty, short, no separator and no NUL, not hidden.
pub record IsSegment (id : Bytes) : Type 0 where
  pub nonempty : 0 < length id
  pub short : length id ≤ 128
  pub no_separator : All (λ c. (c ≢ b'/') × (c ≢ 0)) id
  pub not_hidden : starts_with_dot id ≡ false

id_bytes-no_separator : (id : Bytes) → id_bytes id ≡ true → All (λ c. (c ≢ b'/') × (c ≢ 0)) id
unfolding id_bytes
id_bytes-no_separator [] h = tt
id_bytes-no_separator (c ∷ cs) h =
    ((λ e. ground arith, λ e. ground arith), id_bytes-no_separator cs (ground arith))

-- Every identifier that is accepted is one safe path segment.
pub validate_bundle_id-IsSegment : (id : Bytes) → validate_bundle_id id ≡ ok tt → IsSegment id
unfolding validate_bundle_id
validate_bundle_id-IsSegment id h = record {
  nonempty = unfold id_bytes in ground arith;
  short = ground arith;
  no_separator = id_bytes-no_separator id (ground arith);
  not_hidden = ground arith;
}
