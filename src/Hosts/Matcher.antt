-- ===== src/Hosts/Matcher.antt =====
-- The compiled host matcher (module_runtime.go): exact hosts in a set, and the suffixes of wildcards.
-- It answers as a scan of the patterns does.
use mihomo_extension_sidecar.Common.{
  ℕ, ◌+◌, ◌-◌, ◌==◌, ltb, Bool, true, false, ◌&&◌, ◌||◌, List, [], ◌∷◌, ◌++◌, Option, some, none,
  Bytes, bytes_eq, if◌then◌else◌, length, drop, get_elem?, get_elem?-some, set_mem, set_add,
  set_mem-set_add, ◌≡◌, refl, arith, ◌<◌, sym, bytes_eq_comm, suc, zero, dec_lt, Option-cases, inl,
  inr, bytes_eq_iff, bytes_eq_refl, Bool-cases,
}
use mihomo_extension_sidecar.Hosts.Patterns.{
  HostText, canonical_host, cut_wildcard, has_suffix, match_host_pattern, any_matches,
}

-- `exact` is the set of hosts without a wildcard.
pub record CompiledHostMatcher : Type 0 where
  pub exact : List Bytes
  pub wildcard : List Bytes

-- `seenWildcard` of the source has the members of `wildcard`.
unfoldable pub add_pattern : CompiledHostMatcher → Bytes → CompiledHostMatcher
add_pattern m pattern = elim (cut_wildcard pattern) [
  | none ↦ record m { exact = set_add pattern m.exact }
  | some suffix ↦
      if set_mem suffix m.wildcard then m else record m { wildcard = m.wildcard ++ suffix ∷ [] }
]

unfoldable pub add_patterns : CompiledHostMatcher → List Bytes → CompiledHostMatcher
add_patterns m [] = m
add_patterns m (p ∷ patterns) = add_patterns (add_pattern m p) patterns

unfoldable pub new_compiled_host_matcher : List Bytes → CompiledHostMatcher
new_compiled_host_matcher patterns = add_patterns (record { exact = []; wildcard = [] }) patterns

-- The test in the loop over the suffixes; the index is in range where the separator is positive.
unfoldable pub matches_suffix : Bytes → Bytes → Bool
matches_suffix suffix host =
    let separator = length host - length suffix - 1 in
    ltb 0 separator
    && elim (get_elem? host separator) [ none ↦ false | some c ↦ c == 46 ]
    && has_suffix host suffix

unfoldable pub any_suffix : List Bytes → Bytes → Bool
any_suffix [] host = false
any_suffix (s ∷ suffixes) host = matches_suffix s host || any_suffix suffixes host

unfoldable pub match_canonical : CompiledHostMatcher → Bytes → Bool
match_canonical m host = set_mem host m.exact || any_suffix m.wildcard host

-- `Match`; a nil matcher matches nothing.
unfoldable pub match_host : HostText → Option CompiledHostMatcher → Bytes → Bool
match_host t none value = false
match_host t (some m) value = match_canonical m (canonical_host t value)

drop_cons : (s : Bytes) (n c : ℕ) → get_elem? s n ≡ some c → drop n s ≡ c ∷ drop (suc n) s
drop_cons [] n c e = cc
drop_cons (x ∷ s) zero c e = ground arith
drop_cons (x ∷ s) (suc n) c e = drop_cons s n c e

module _ (suffix host : Bytes) (long : length suffix + 1 < length host) where
  abbrev separator : ℕ
  separator = length host - length suffix - 1

  cut_at :
      (c : ℕ)
      → get_elem? host separator ≡ some c
      → bytes_eq (drop (length host - length (46 ∷ suffix)) host) (46 ∷ suffix)
        ≡ (c == 46 && bytes_eq (drop (length host - length suffix) host) suffix)
  unfolding bytes_eq
  cut_at c e =
      let a : length host - length (46 ∷ suffix) ≡ separator = omega arith in
      let b : suc separator ≡ length host - length suffix = omega arith in
      rw (a, drop_cons host separator c e, sym b) refl

  matches_suffix-long : matches_suffix suffix host ≡ has_suffix host (46 ∷ suffix)
  unfolding matches_suffix has_suffix
  matches_suffix-long =
      let (c, e) = get_elem?-some host separator (omega arith) in ground (arith, cut_at c e)

-- The test of a suffix is the test of its wildcard pattern.
matches_suffix-cut :
    (suffix pattern host : Bytes)
    → cut_wildcard pattern ≡ some suffix
    → matches_suffix suffix host ≡ match_host_pattern pattern host
unfolding matches_suffix match_host_pattern
matches_suffix-cut suffix pattern host e = elim (dec_lt (length suffix + 1) (length host)) [
  | yes long ↦ ground (arith, matches_suffix-long suffix host long)
  | no short ↦ ground arith
]

set_mem-set_add_eq :
    (x y : Bytes) (ys : List Bytes) → set_mem x (set_add y ys) ≡ (bytes_eq y x || set_mem x ys)
unfolding set_add set_mem
set_mem-set_add_eq x y ys = elim (Bool-cases (bytes_eq y x)) [
  | inl e ↦ rw ((bytes_eq_iff y x).0 e) (rw (set_mem-set_add x ys, bytes_eq_refl x) refl)
  | inr e ↦ ground (arith)
]

any_suffix-append :
    (xs : List Bytes) (s host : Bytes)
    → any_suffix (xs ++ s ∷ []) host ≡ (any_suffix xs host || matches_suffix s host)
unfolding any_suffix
any_suffix-append [] s host = ground arith
any_suffix-append (x ∷ xs) s host = ground (arith, any_suffix-append xs s host)

-- A suffix that is in the list already adds nothing.
any_suffix-mem :
    (xs : List Bytes) (s host : Bytes)
    → set_mem s xs ≡ true
    → any_suffix xs host ≡ (any_suffix xs host || matches_suffix s host)
unfolding any_suffix set_mem
any_suffix-mem [] s host e = cc
any_suffix-mem (x ∷ xs) s host e = ground (arith, any_suffix-mem xs s host, bytes_eq_iff x s)

add_pattern-match :
    (m : CompiledHostMatcher) (p host : Bytes)
    → match_canonical (add_pattern m p) host ≡ (match_canonical m host || match_host_pattern p host)
unfolding add_pattern match_canonical match_host_pattern
add_pattern-match m p host = elim (Option-cases (cut_wildcard p)) [
  | inl e ↦ ground (arith, bytes_eq_comm host p, set_mem-set_add_eq host p m.exact)
  | inr (s, e) ↦ ground (
    arith,
    matches_suffix-cut s p host e,
    any_suffix-append m.wildcard s host,
    any_suffix-mem m.wildcard s host,
  )
]

add_patterns-match :
    (patterns : List Bytes) (m : CompiledHostMatcher) (host : Bytes)
    → match_canonical (add_patterns m patterns) host
      ≡ (match_canonical m host || any_matches patterns host)
unfolding add_patterns any_matches
add_patterns-match [] m host = ground arith
add_patterns-match (p ∷ patterns) m host =
    ground (arith, add_patterns-match patterns (add_pattern m p) host, add_pattern-match m p host)

-- The compiled matcher answers as a scan of the patterns does, for every host.
pub new_compiled_host_matcher-any_matches :
    (patterns : List Bytes) (host : Bytes)
    → match_canonical (new_compiled_host_matcher patterns) host ≡ any_matches patterns host
unfolding new_compiled_host_matcher match_canonical any_suffix set_mem
new_compiled_host_matcher-any_matches patterns host =
    add_patterns-match patterns (record { exact = []; wildcard = [] }) host
