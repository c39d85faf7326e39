-- ===== src/Hosts/Patterns.antt =====
-- Canonical hosts and host patterns (config.go). Parameters: what `strings.ToLower`,
-- `strings.TrimSpace` and the host of `net.SplitHostPort` answer.
pub mod Laws
use mihomo_extension_sidecar.Common.{
  ℕ, suc, ◌+◌, ◌-◌, ◌==◌, ltb, Bool, true, false, not, ◌&&◌, ◌||◌, List, [], ◌∷◌, ◌++◌, Option,
  some, none, Bytes, bytes_eq, if◌then◌else◌, length, drop, set_mem, bytes_lt, sort,
}

pub record HostText : Type 0 where
  pub to_lower : Bytes → Bytes
  pub trim_space : Bytes → Bytes
  pub split_host : Bytes → Option Bytes

-- `strings.HasPrefix`.
unfoldable pub has_prefix : Bytes → Bytes → Bool
has_prefix s [] = true
has_prefix [] (p ∷ ps) = false
has_prefix (c ∷ s) (p ∷ ps) = c == p && has_prefix s ps

-- `strings.HasSuffix`.
unfoldable pub has_suffix : Bytes → Bytes → Bool
has_suffix s suffix =
    not (ltb (length s) (length suffix)) && bytes_eq (drop (length s - length suffix) s) suffix

-- `strings.Contains` of one byte.
unfoldable pub contains_byte : Bytes → ℕ → Bool
contains_byte [] c = false
contains_byte (x ∷ s) c = x == c || contains_byte s c

-- `strings.TrimSuffix(s, ".")`.
unfoldable pub trim_dot : Bytes → Bytes
trim_dot [] = []
trim_dot (c ∷ []) = if c == 46 then [] else c ∷ []
trim_dot (c ∷ d ∷ s) = c ∷ trim_dot (d ∷ s)

-- Whether a pattern begins with "*.", and what follows.
unfoldable pub cut_wildcard : Bytes → Option Bytes
cut_wildcard [] = none
cut_wildcard (c ∷ []) = none
cut_wildcard (c ∷ d ∷ s) = if c == 42 && d == 46 then some s else none

-- `strings.TrimPrefix(s, "*.")`.
abbrev pub trim_wildcard : Bytes → Bytes
trim_wildcard s = elim (cut_wildcard s) [ none ↦ s | some rest ↦ rest ]

unfoldable pub match_host_pattern : Bytes → Bytes → Bool
match_host_pattern pattern host = elim (cut_wildcard pattern) [
  | none ↦ bytes_eq host pattern
  | some suffix ↦ ltb (length suffix + 1) (length host) && has_suffix host (46 ∷ suffix)
]

unfoldable pub host_pattern_covers : Bytes → Bytes → Bool
host_pattern_covers allowed candidate = bytes_eq allowed candidate || elim (cut_wildcard allowed) [
  | none ↦ false
  | some base ↦ has_suffix (trim_wildcard candidate) (46 ∷ base)
]

unfoldable pub host_covered_by : List Bytes → Bytes → Bool
host_covered_by [] candidate = false
host_covered_by (p ∷ patterns) candidate =
    host_pattern_covers p candidate || host_covered_by patterns candidate

-- Whether any of the patterns matches.
unfoldable pub any_matches : List Bytes → Bytes → Bool
any_matches [] host = false
any_matches (p ∷ patterns) host = match_host_pattern p host || any_matches patterns host

module _ (t : HostText) where
  abbrev pub normal : Bytes → Bytes
  normal value = t.to_lower (t.trim_space value)

  unfoldable pub canonical_host : Bytes → Bytes
  canonical_host value =
      let host = normal value in
      trim_dot (
        if contains_byte host 58
        then elim (t.split_host host) [ none ↦ host | some parsed ↦ parsed ]
        else host)

  -- The loop of `uniqueSorted`: the set of what was seen, and what is left.
  unfoldable pub unique_values : List Bytes → List Bytes → List Bytes
  unique_values seen [] = []
  unique_values seen (v ∷ values) =
      let value = normal v in
      let dup = unique_values seen values in
      let rest = unique_values (value ∷ seen) values in
      if set_mem value seen then dup else value ∷ rest

  unfoldable pub unique_sorted : List Bytes → List Bytes
  unfolding unique_values
  unique_sorted values = sort bytes_lt (unique_values [] values)
