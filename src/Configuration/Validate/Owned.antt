-- ===== src/Configuration/Validate/Owned.antt =====
-- An accepted document intercepts exactly the hosts that an enabled extension owns
-- (activeInterceptHost, moduleOwnsHost and validateModulesWithPrograms in config.go).
use mihomo_extension_sidecar.Common.{
  ℕ, ◌+◌, ◌==◌, Bool, true, false, not, ◌&&◌, ◌||◌, List, [], ◌∷◌, ◌++◌, Option, some, none, Bytes,
  bytes_eq, bytes_eq_iff, length, All, All-append, ◌≡◌, ◌⊎◌, inl, inr, refl, sym, ◌∙◌, ap, arith,
  Bool-cases, Option-cases, List-cases, set_mem, bytes_lt, sort, insert_sorted,
}
use mathlib.Core.Path.{subst}
use mihomo_extension_sidecar.Configuration.Types.{Extension, HostMapping, Document}
use mihomo_extension_sidecar.Hosts.Patterns.{
  HostText, normal, canonical_host, contains_byte, trim_dot, cut_wildcard, trim_wildcard,
  any_matches, match_host_pattern, unique_values, unique_sorted,
}
use mihomo_extension_sidecar.Hosts.Patterns.Laws.{cut_wildcard_lem}
use mihomo_extension_sidecar.Hosts.Matcher.{match_host, new_compiled_host_matcher-any_matches}
use mihomo_extension_sidecar.Hosts.Runtime.{
  CompiledHosts, enabled_hosts, compile_hosts, active_host_patterns, active_intercept_host,
  module_owns_host,
}
use mihomo_extension_sidecar.Configuration.Validate.{
  Checks, alnum, every, each, split_on, split, valid_label, valid_name, valid_host_pattern,
}
use mihomo_extension_sidecar.Configuration.Validate.Documents.{
  valid_capture_host, valid_capture_hosts, valid_module, valid_modules, validate_modules,
  add_mappings,
}

any_matches-append :
    (xs ys : List Bytes) (h : Bytes)
    → any_matches (xs ++ ys) h ≡ (any_matches xs h || any_matches ys h)
unfolding any_matches
any_matches-append [] ys h = refl
any_matches-append (x ∷ xs) ys h = ground (arith, any_matches-append xs ys h)

any_matches-insert_sorted :
    (x : Bytes) (xs : List Bytes) (h : Bytes)
    → any_matches (insert_sorted bytes_lt x xs) h ≡ (match_host_pattern x h || any_matches xs h)
unfolding any_matches insert_sorted
any_matches-insert_sorted x [] h = ground arith
any_matches-insert_sorted x (y ∷ ys) h = ground (arith, any_matches-insert_sorted x ys h)

any_matches-sort :
    (xs : List Bytes) (h : Bytes) → any_matches (sort bytes_lt xs) h ≡ any_matches xs h
unfolding any_matches sort
any_matches-sort [] h = refl
any_matches-sort (x ∷ xs) h =
    ground (arith, any_matches-insert_sorted x (sort bytes_lt xs) h, any_matches-sort xs h)

any_matches_mem :
    (x : Bytes) (xs : List Bytes) (h : Bytes)
    → set_mem x xs ≡ true
    → match_host_pattern x h ≡ true
    → any_matches xs h ≡ true
unfolding any_matches set_mem
any_matches_mem x [] h e m = cc
any_matches_mem x (y ∷ ys) h e m = elim (Bool-cases (bytes_eq y x)) [
  | inl same ↦
      let hit : match_host_pattern y h ≡ true = rw ((bytes_eq_iff y x).0 same) m in
      ground (arith, hit)
  | inr other ↦ ground (arith, any_matches_mem x ys h (ground (arith, e, other)) m)
]

module _ (t : HostText) where
  -- The value is lowered and trimmed as it is.
  abbrev Plain : Bytes → Type 0
  Plain p = normal t p ≡ p

  any_matches-unique_values :
      (vs seen : List Bytes) (h : Bytes)
      → All Plain vs
      → (any_matches (unique_values t seen vs) h || any_matches seen h)
        ≡ (any_matches vs h || any_matches seen h)
  unfolding any_matches unique_values
  any_matches-unique_values [] seen h a = refl
  any_matches-unique_values (v ∷ vs) seen h a = ground (
    arith,
    a.0,
    any_matches-unique_values vs seen h a.1,
    any_matches-unique_values vs (v ∷ seen) h a.1,
    any_matches_mem v seen h,
  )

  any_matches-unique_sorted :
      (vs : List Bytes) (h : Bytes)
      → All Plain vs
      → any_matches (unique_sorted t vs) h ≡ any_matches vs h
  unfolding unique_sorted any_matches
  any_matches-unique_sorted vs h a =
      ground
        (arith, any_matches-sort (unique_values t [] vs) h, any_matches-unique_values vs [] h a)

  -- Some enabled module owns the host.
  unfoldable pub any_owner : List Extension → Bytes → Bool
  any_owner [] value = false
  any_owner (m ∷ modules) value =
      (m.enabled && module_owns_host t m value) || any_owner modules value

  any_matches-enabled_hosts :
      (modules : List Extension) (value : Bytes)
      → any_matches (enabled_hosts modules) (canonical_host t value) ≡ any_owner modules value
  unfolding enabled_hosts any_owner module_owns_host any_matches
  any_matches-enabled_hosts [] value = refl
  any_matches-enabled_hosts (m ∷ modules) value = ground (
    arith,
    any_matches-append m.capture_hosts (enabled_hosts modules) (canonical_host t value),
    any_matches-enabled_hosts modules value,
  )

-- No colon in a text of which every part is made of the bytes of labels.
split_no_colon :
    (s : Bytes)
    → each (every (λ c. alnum c || c == b'-')) (split b'.' s) ≡ true
    → contains_byte s 58 ≡ false
unfolding each every split_on contains_byte
split_no_colon [] e = refl
split_no_colon (c ∷ s) e = ground (arith, e, split_no_colon s)

each_tail :
    (test : Bytes → Bool) (c : ℕ) (s : Bytes)
    → each test (split_on b'.' (c ∷ s)).1 ≡ true
    → each test (split_on b'.' s).1 ≡ true
unfolding each split_on
each_tail test c s e = ground (arith, e)

-- A text of which no part behind the first is empty does not end with a dot.
trim_dot_same :
    (s : Bytes) → each (λ p. not (length p == 0)) (split_on b'.' s).1 ≡ true → trim_dot s ≡ s
unfolding each split_on trim_dot
trim_dot_same [] e = refl
trim_dot_same (c ∷ []) e = ground (arith, e)
trim_dot_same (c ∷ d ∷ s) e =
    ap (◌∷◌ c) (trim_dot_same (d ∷ s) (each_tail (λ p. not (length p == 0)) c (d ∷ s) e))

labels_lem :
    (labels : List Bytes)
    → each valid_label labels ≡ true
    → (each (every (λ c. alnum c || c == b'-')) labels ≡ true)
      × (each (λ p. not (length p == 0)) labels ≡ true)
unfolding each valid_label
labels_lem [] e = (refl, refl)
labels_lem (l ∷ labels) e = ground (arith, e, labels_lem labels (ground (arith, e)))

-- A valid name has no colon, does not end with a dot and is not empty.
valid_name_lem :
    (name : Bytes)
    → valid_name name ≡ true
    → (contains_byte name 58 ≡ false) × (trim_dot name ≡ name) × (contains_byte name b'.' ≡ true)
unfolding valid_name each
valid_name_lem name v =
    let labels = labels_lem (split b'.' name) (ground (arith, v)) in
    (split_no_colon name labels.0, trim_dot_same name (ground (arith, labels.1)), ground (arith, v))

trim_dot_wildcard :
    (p name : Bytes) (x : ℕ) (xs : Bytes)
    → p ≡ 42 ∷ 46 ∷ name
    → name ≡ x ∷ xs
    → trim_dot name ≡ name
    → trim_dot p ≡ p
unfolding trim_dot
trim_dot_wildcard p name x xs e cons b =
    let deep : p ≡ 42 ∷ 46 ∷ x ∷ xs = e ∙ ap (λ n. 42 ∷ 46 ∷ n) cons in
    let inner : trim_dot (x ∷ xs) ≡ x ∷ xs = subst (λ n. trim_dot n ≡ n) cons b in
    subst (λ q. trim_dot q ≡ q) (sym deep) (ap (λ n. 42 ∷ 46 ∷ n) inner)

-- So does the pattern of one, with its "*." if it has one.
plain_pattern :
    (p : Bytes)
    → valid_name (trim_wildcard p) ≡ true
    → (contains_byte p 58 ≡ false) × (trim_dot p ≡ p)
unfolding contains_byte trim_dot
plain_pattern p v = elim (Option-cases (cut_wildcard p)) [
  | inl plain ↦ let (a, b, c) = valid_name_lem p (ground (arith, v, plain)) in (a, b)
  | inr (name, wild) ↦
      let (a, b, c) = valid_name_lem name (ground (arith, v, wild)) in
      let e = cut_wildcard_lem p name wild in
      elim (List-cases name) [
        | inl empty ↦ absurd (ground (arith, c, empty))
        | inr (x, xs, cons) ↦ (ground (arith, e, a), trim_dot_wildcard p name x xs e cons b)
      ]
]

module _ (k : Checks) where
  -- A capture host that is accepted is already lowered and trimmed.
  valid_capture_host-Plain : (h : Bytes) → valid_capture_host k h ≡ true → Plain k.text h
  unfolding valid_capture_host valid_host_pattern canonical_host
  valid_capture_host-Plain h v =
      let (no_colon, same) = plain_pattern (normal k.text h) (ground (arith, v)) in
      ground (arith, v, no_colon, same, bytes_eq_iff h (canonical_host k.text h))

  each-Plain :
      (hosts : List Bytes) → each (valid_capture_host k) hosts ≡ true → All (Plain k.text) hosts
  unfolding each
  each-Plain [] e = tt
  each-Plain (h ∷ hosts) e =
      (valid_capture_host-Plain h (ground (arith, e)), each-Plain hosts (ground (arith, e)))

  valid_modules-Plain :
      (modules : List Extension) (seen : List Bytes) (active : List HostMapping) (rules : ℕ)
      → valid_modules k seen active rules modules ≡ true
      → All (Plain k.text) (enabled_hosts modules)
  unfolding valid_modules enabled_hosts valid_module valid_capture_hosts
  valid_modules-Plain [] seen active rules v = tt
  valid_modules-Plain (m ∷ modules) seen active rules v = elim (Bool-cases m.enabled) [
    | inl on ↦ elim (Option-cases (add_mappings active m.host_mappings)) [
      | inl conflict ↦ absurd (ground (arith, v, on, conflict))
      | inr (now, e) ↦
          let rest =
            valid_modules-Plain modules (m.id ∷ seen) now (rules + length m.routing_rules)
              (ground (arith, v, on, e)) in
          let here = each-Plain m.capture_hosts (ground (arith, v)) in
          let same : m.capture_hosts ++ enabled_hosts modules ≡ enabled_hosts (m ∷ modules) =
            ground (arith, on) in
          subst (All (Plain k.text)) same (All-append _ m.capture_hosts _ here rest)
    ]
    | inr off ↦
        let rest =
          valid_modules-Plain modules (m.id ∷ seen) active rules (ground (arith, v, off)) in
        let same : enabled_hosts modules ≡ enabled_hosts (m ∷ modules) = ground (arith, off) in
        subst (All (Plain k.text)) same rest
  ]

  -- In a document with accepted extensions, compiled or not: a host is intercepted exactly if
  -- interception is on and an enabled extension owns it.
  pub active_intercept_host-any_owner :
      (cfg : Document) (runtime : Option CompiledHosts) (value : Bytes)
      → validate_modules k cfg.modules ≡ true
      → (runtime ≡ none) ⊎ (runtime ≡ some (compile_hosts k.text cfg))
      → active_intercept_host k.text cfg runtime value
        ≡ (cfg.mitm.enabled && any_owner k.text cfg.modules value)
  unfolding validate_modules active_intercept_host compile_hosts active_host_patterns match_host
  active_intercept_host-any_owner cfg runtime value v c =
      let plain = valid_modules-Plain cfg.modules [] [] 0 (ground (arith, v)) in
      let host = canonical_host k.text value in
      let hosts = enabled_hosts cfg.modules in
      ground (
        arith,
        any_matches-unique_sorted k.text hosts host plain,
        any_matches-enabled_hosts k.text cfg.modules value,
        new_compiled_host_matcher-any_matches (unique_sorted k.text hosts) host,
        c,
      )
