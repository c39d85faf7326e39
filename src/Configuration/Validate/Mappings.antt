-- ===== src/Configuration/Validate/Mappings.antt =====
-- What `validateModulesWithPrograms` (config.go) makes sure of across modules: the mappings of the
-- enabled ones agree.
use mihomo_extension_sidecar.Common.{
  ℕ, ◌+◌, true, List, [], ◌∷◌, some, Bytes, bytes_eq, bytes_eq_iff, bytes_eq_refl, length, All, ◌≡◌,
  inl, inr, sym, arith, Bool-cases, Option-cases,
}
use mihomo_extension_sidecar.Configuration.Types.{Extension, HostMapping}
use mihomo_extension_sidecar.Configuration.Validate.{Checks}
use mihomo_extension_sidecar.Configuration.Validate.Documents.{
  find_target, add_mappings, valid_modules, validate_modules,
}

-- Every target that `a` has, `b` has.
abbrev Extends : List HostMapping → List HostMapping → Type 0
Extends a b = (p t : Bytes) → find_target p a ≡ some t → find_target p b ≡ some t

-- The table has the target of each mapping.
abbrev Agrees : List HostMapping → List HostMapping → Type 0
Agrees table = All (λ c. find_target c.pattern table ≡ some c.target)

find_target-cons :
    (c : HostMapping) (active : List HostMapping)
    → find_target c.pattern (c ∷ active) ≡ some c.target
unfolding find_target
find_target-cons c active = ground (arith, bytes_eq_refl c.pattern)

-- A mapping whose pattern has no target, or has the same, extends the table.
cons-Extends :
    (c : HostMapping) (active : List HostMapping)
    → ((t : Bytes) → find_target c.pattern active ≡ some t → t ≡ c.target)
    → Extends active (c ∷ active)
unfolding find_target
cons-Extends c active h p t e = elim (Bool-cases (bytes_eq c.pattern p)) [
  | inl same ↦
      let q : find_target c.pattern active ≡ some t = rw ((bytes_eq_iff c.pattern p).0 same) e in
      ground (arith, same, h t q)
  | inr other ↦ ground (arith, other, e)
]

add_mappings_rest :
    (active : List HostMapping) (c : HostMapping) (ms now : List HostMapping)
    → add_mappings active (c ∷ ms) ≡ some now
    → (add_mappings (c ∷ active) ms ≡ some now)
      × ((t : Bytes) → find_target c.pattern active ≡ some t → t ≡ c.target)
unfolding add_mappings
add_mappings_rest active c ms now e = elim (Option-cases (find_target c.pattern active)) [
  | inl missing ↦ (ground (arith, e, missing), λ t h. ground (arith, h, missing))
  | inr (target, found) ↦ elim (Bool-cases (bytes_eq target c.target)) [
    | inl same ↦ (
      ground (arith, e, found, same),
      λ t h. ground (arith, h, found, same, bytes_eq_iff target c.target),
    )
    | inr other ↦ absurd (ground (arith, e, found, other))
  ]
]

add_mappings-Agrees :
    (ms active now : List HostMapping)
    → add_mappings active ms ≡ some now
    → Extends active now × Agrees now ms
unfolding add_mappings
add_mappings-Agrees [] active now e =
    let same : active ≡ now = ground (arith, e) in (λ p t h. rw (sym same) h, tt)
add_mappings-Agrees (c ∷ ms) active now e =
    let (rest, fits) = add_mappings_rest active c ms now e in
    let (more, agrees) = add_mappings-Agrees ms (c ∷ active) now rest in
    (
      λ p t h. more p t (cons-Extends c active fits p t h),
      (more c.pattern c.target (find_target-cons c active), agrees),
    )

Agrees-Extends : (ms a b : List HostMapping) → Extends a b → Agrees a ms → Agrees b ms
Agrees-Extends [] a b more agrees = tt
Agrees-Extends (c ∷ ms) a b more agrees =
    (more c.pattern c.target agrees.0, Agrees-Extends ms a b more agrees.1)

-- What the loop over the modules leaves: a table that extends the one before and that every enabled
-- module agrees with.
abbrev Table : List HostMapping → List Extension → Type 0
Table active modules =
    (table : List HostMapping) × Extends active table
    × All (λ m. m.enabled ≡ true → Agrees table m.host_mappings) modules

module _ (k : Checks) where
  valid_modules-Table :
      (modules : List Extension) (seen : List Bytes) (active : List HostMapping) (rules : ℕ)
      → valid_modules k seen active rules modules ≡ true
      → Table active modules
  unfolding valid_modules
  valid_modules-Table [] seen active rules v = (active, λ p t h. h, tt)
  valid_modules-Table (m ∷ modules) seen active rules v = elim (Bool-cases m.enabled) [
    | inl on ↦ elim (Option-cases (add_mappings active m.host_mappings)) [
      | inl conflict ↦ absurd (ground (arith, v, on, conflict))
      | inr (now, e) ↦
          let (more, agrees) = add_mappings-Agrees m.host_mappings active now e in
          let (table, grows, rest) =
            valid_modules-Table modules (m.id ∷ seen) now (rules + length m.routing_rules)
              (ground (arith, v, on, e)) in
          (
            table,
            λ p t h. grows p t (more p t h),
            (λ _. Agrees-Extends m.host_mappings now table grows agrees, rest),
          )
    ]
    | inr off ↦
        let (table, grows, rest) =
          valid_modules-Table modules (m.id ∷ seen) active rules (ground (arith, v, off)) in
        (table, grows, (λ on. absurd (ground (arith, on, off)), rest))
  ]

  -- In a list of extensions that is accepted, the mappings of the enabled ones agree: one table gives
  -- the target of each of their mappings by its pattern alone.
  pub validate_modules-agree :
      (modules : List Extension)
      → validate_modules k modules ≡ true
      → (table : List HostMapping) × All
          (λ m.
            m.enabled ≡ true
            → All (λ c. find_target c.pattern table ≡ some c.target) m.host_mappings)
          modules
  unfolding validate_modules
  validate_modules-agree modules v =
      let (table, _, agrees) = valid_modules-Table modules [] [] 0 (ground (arith, v)) in
      (table, agrees)
