-- ===== src/Modules/Declarative/Headers.antt =====
-- What header edits leave (applyHeaderEdits in module_rewrite.go).
use mihomo_extension_sidecar.Common.{
  Bool, false, ◌||◌, List, [], ◌∷◌, Option, some, none, Bytes, bytes_eq, bytes_eq_iff,
  if◌then◌else◌, ◌≡◌, refl, arith, inl, inr, Bool-cases,
}
use mihomo_extension_sidecar.Configuration.Types.{HeaderEdits}
use mihomo_extension_sidecar.Modules.Template.{find}
use mihomo_extension_sidecar.Modules.Declarative.{
  Header, without, header_del, header_set, delete_all, set_all, apply_header_edits,
}

find-without_self :
    (canonical_key : Bytes → Bytes) (key : Bytes) (h : Header)
    → find key (without canonical_key key h) ≡ none
unfolding find without
find-without_self ck key [] = refl
find-without_self ck key (e ∷ h) = ground (arith, find-without_self ck key h)

find-without_ne :
    (canonical_key : Bytes → Bytes) (key other : Bytes) (h : Header)
    → bytes_eq other key ≡ false
    → find key (without canonical_key other h) ≡ find key h
unfolding find without
find-without_ne ck key other [] n = refl
find-without_ne ck key other (e ∷ h) n = ground (
  arith,
  find-without_ne ck key other h n,
  bytes_eq_iff e.0 key,
  bytes_eq_iff e.0 other,
  bytes_eq_iff other key,
)

module _ (canonical_key : Bytes → Bytes) where
  -- Whether a key is the canonical form of one of the names.
  unfoldable pub is_named : Bytes → List Bytes → Bool
  is_named key [] = false
  is_named key (n ∷ names) = bytes_eq (canonical_key n) key || is_named key names

  -- The last value that the fields give for a key.
  unfoldable pub last_value : Bytes → List (Bytes × Bytes) → Option Bytes
  last_value key [] = none
  last_value key ((name, value) ∷ fields) = elim (last_value key fields) [
    | some v ↦ some v
    | none ↦ if bytes_eq (canonical_key name) key then some value else none
  ]

  find-delete_all :
      (names : List Bytes) (key : Bytes) (h : Header)
      → find key (delete_all canonical_key names h)
        ≡ (if is_named key names then none else find key h)
  unfolding delete_all header_del is_named
  find-delete_all [] key h = refl
  find-delete_all (n ∷ names) key h = elim (Bool-cases (bytes_eq (canonical_key n) key)) [
    | inl same ↦
        let gone : find key (without canonical_key (canonical_key n) h) ≡ none =
          rw ((bytes_eq_iff (canonical_key n) key).0 same)
            (find-without_self canonical_key key h) in
        ground (arith, same, gone, find-delete_all names key (header_del canonical_key n h))
    | inr other ↦ ground (
      arith,
      other,
      find-without_ne canonical_key key (canonical_key n) h other,
      find-delete_all names key (header_del canonical_key n h),
    )
  ]

  find-set_all :
      (fields : List (Bytes × Bytes)) (key : Bytes) (h : Header)
      → find key (set_all canonical_key fields h)
        ≡ elim (last_value key fields) [ none ↦ find key h | some v ↦ some (v ∷ []) ]
  unfolding set_all header_set last_value find
  find-set_all [] key h = refl
  find-set_all ((name, value) ∷ fields) key h =
      let ih = find-set_all fields key (header_set canonical_key name value h) in
      elim (Bool-cases (bytes_eq (canonical_key name) key)) [
        | inl same ↦ ground (arith, same, ih)
        | inr other ↦
            ground
              (arith, other, ih, find-without_ne canonical_key key (canonical_key name) h other)
      ]

  -- After header edits a field has the last value that is set for its name; a field that is removed
  -- and not set is gone, and every other one is as it was.
  pub apply_header_edits-find :
      (edits : HeaderEdits) (h : Header) (key : Bytes)
      → find key (apply_header_edits canonical_key edits h)
        ≡ elim (last_value key edits.set_fields) [
          | some v ↦ some (v ∷ [])
          | none ↦ if is_named key edits.remove then none else find key h
        ]
  unfolding apply_header_edits
  apply_header_edits-find edits h key = ground (
    arith,
    find-set_all edits.set_fields key (delete_all canonical_key edits.remove h),
    find-delete_all edits.remove key h,
  )
