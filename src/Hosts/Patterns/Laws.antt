-- ===== src/Hosts/Patterns/Laws.antt =====
-- What host patterns match and cover (matchHostPattern, hostPatternCovers, hostCoveredBy in config.go).
use mihomo_extension_sidecar.Common.{
  append_assoc, ℕ, suc, zero, ◌-◌, ◌<◌, true, List, [], ◌∷◌, ◌++◌, some, none, Bytes, bytes_eq,
  bytes_eq_iff, bytes_eq_refl, length, length-append, drop, take, drop_append, Option-cases,
  Bool-cases, inl, inr, ◌≡◌, ◌≢◌, ◌↔◌, refl, sym, ◌∙◌, ap, arith,
}
use mihomo_extension_sidecar.Hosts.Patterns.{
  has_suffix, cut_wildcard, trim_wildcard, match_host_pattern, host_pattern_covers, host_covered_by,
  any_matches,
}

take-drop : (n : ℕ) (s : Bytes) → take n s ++ drop n s ≡ s
take-drop zero s = refl
take-drop (suc n) [] = refl
take-drop (suc n) (x ∷ s) = ap (◌∷◌ x) (take-drop n s)

-- A suffix is what stands at the end.
has_suffix_split : (s suffix : Bytes) → has_suffix s suffix ≡ true → (p : Bytes) × (s ≡ p ++ suffix)
unfolding has_suffix
has_suffix_split s suffix h =
    let e : drop (length s - length suffix) s ≡ suffix =
      ground (arith, bytes_eq_iff (drop (length s - length suffix) s) suffix) in
    (
      take (length s - length suffix) s,
      sym (take-drop (length s - length suffix) s)
          ∙ ap (◌++◌ (take (length s - length suffix) s)) e,
    )

has_suffix-append : (p suffix : Bytes) → has_suffix (p ++ suffix) suffix ≡ true
unfolding has_suffix
has_suffix-append p suffix =
    let n : length (p ++ suffix) - length suffix ≡ length p =
      omega (arith, length-append p suffix) in
    rw (n, drop_append p suffix, bytes_eq_refl suffix) (ground (arith, length-append p suffix))

pub cut_wildcard_lem : (p s : Bytes) → cut_wildcard p ≡ some s → p ≡ 42 ∷ 46 ∷ s
unfolding cut_wildcard
cut_wildcard_lem [] s e = cc
cut_wildcard_lem (c ∷ []) s e = cc
cut_wildcard_lem (c ∷ d ∷ r) s e = ground arith

module _ (suffix host : Bytes) where
  -- A wildcard matches exactly the hosts that are the suffix behind a dot and at least one byte.
  pub match_host_pattern_wildcard :
      (match_host_pattern (42 ∷ 46 ∷ suffix) host ≡ true)
      ↔ ((label : Bytes) × (host ≡ label ++ 46 ∷ suffix) × (0 < length label))
  unfolding match_host_pattern cut_wildcard
  match_host_pattern_wildcard = (
    λ h.
        let (label, e) = has_suffix_split host (46 ∷ suffix) (ground arith) in
        (label, e, ground (arith, length-append label (46 ∷ suffix), ap length e)),
    λ (label, e, long).
        rw e (
          ground (arith, length-append label (46 ∷ suffix), has_suffix-append label (46 ∷ suffix))),
  )

pub match_plain :
    (pattern host : Bytes)
    → cut_wildcard pattern ≡ none
    → match_host_pattern pattern host ≡ true
    → host ≡ pattern
unfolding match_host_pattern
match_plain pattern host e m = ground (arith, bytes_eq_iff host pattern)

module _ (allowed candidate host : Bytes) where
  -- The test of a wildcard, in terms of what follows "*.".
  match_base :
      (base : Bytes)
      → cut_wildcard allowed ≡ some base
      → (label : Bytes) → host ≡ label ++ 46 ∷ base
      → 0 < length label
      → match_host_pattern allowed host ≡ true
  match_base base e label h long =
      rw (cut_wildcard_lem allowed base e)
        ((match_host_pattern_wildcard base host).1 (label, h, long))

  covers_plain :
      (base p : Bytes)
      → ((s : Bytes) → candidate ≢ 46 ∷ s)
      → cut_wildcard allowed ≡ some base
      → candidate ≡ p ++ 46 ∷ base
      → host ≡ candidate
      → match_host_pattern allowed host ≡ true
  covers_plain base [] dotless e split h = absurd (dotless base split)
  covers_plain base (c ∷ p) dotless e split h = match_base base e (c ∷ p) (h ∙ split) (omega arith)

  covers_wildcard :
      (base rest p : Bytes)
      → cut_wildcard allowed ≡ some base
      → rest ≡ p ++ 46 ∷ base
      → match_host_pattern (42 ∷ 46 ∷ rest) host ≡ true
      → match_host_pattern allowed host ≡ true
  covers_wildcard base rest p e split m =
      let (label, h, long) = (match_host_pattern_wildcard rest host).0 m in
      match_base base e (label ++ 46 ∷ p)
        (h ∙ ap (λ r. label ++ 46 ∷ r) split ∙ sym (append_assoc label (46 ∷ p) (46 ∷ base)))
        (omega (arith, length-append label (46 ∷ p)))

  covers_base :
      (base : Bytes)
      → ((s : Bytes) → candidate ≢ 46 ∷ s)
      → cut_wildcard allowed ≡ some base
      → has_suffix (trim_wildcard candidate) (46 ∷ base) ≡ true
      → match_host_pattern candidate host ≡ true
      → match_host_pattern allowed host ≡ true
  covers_base base dotless e suf m =
      let (p, split) = has_suffix_split (trim_wildcard candidate) (46 ∷ base) suf in
      elim (Option-cases (cut_wildcard candidate)) [
        | inl plain ↦
            covers_plain base p dotless e (ground (arith, split))
              (match_plain candidate host plain m)
        | inr (rest, wild) ↦
            covers_wildcard base rest p e (ground (arith, split))
              (rw (cut_wildcard_lem candidate rest wild) at m)
      ]

  -- Where a pattern that does not begin with a dot is covered by another, every host that it matches
  -- is matched by the other.
  pub host_pattern_covers-match_host_pattern :
      ((s : Bytes) → candidate ≢ 46 ∷ s)
      → host_pattern_covers allowed candidate ≡ true
      → match_host_pattern candidate host ≡ true
      → match_host_pattern allowed host ≡ true
  unfolding host_pattern_covers
  host_pattern_covers-match_host_pattern dotless c m =
      elim (Bool-cases (bytes_eq allowed candidate)) [
        | inl same ↦ rw ((bytes_eq_iff allowed candidate).0 same) m
        | inr other ↦ elim (Option-cases (cut_wildcard allowed)) [
          | inl plain ↦ absurd (ground arith)
          | inr (base, e) ↦ covers_base base dotless e (ground arith) m
        ]
      ]

-- Whatever host a pattern that does not begin with a dot matches, if the pattern is covered by
-- the capture hosts, the host is matched by one of them.
pub host_covered_by-any_matches :
    (patterns : List Bytes) (candidate host : Bytes)
    → ((s : Bytes) → candidate ≢ 46 ∷ s)
    → host_covered_by patterns candidate ≡ true
    → match_host_pattern candidate host ≡ true
    → any_matches patterns host ≡ true
unfolding host_covered_by any_matches
host_covered_by-any_matches [] candidate host dotless c m = cc
host_covered_by-any_matches (p ∷ patterns) candidate host dotless c m = ground (
  arith,
  host_covered_by-any_matches patterns candidate host dotless,
  host_pattern_covers-match_host_pattern p candidate host dotless,
)
