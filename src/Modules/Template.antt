-- ===== src/Modules/Template.antt =====
-- `expandSettingsTemplate` (module_rewrite.go): a placeholder `{{settings.key}}` is replaced by the
-- value of a setting, or by what the value map has for it. Settings are given as the texts that
-- `compatArgumentText` renders; a map is the list of its entries, where the first with a key counts.
-- The loop runs on fuel.
pub mod Segments
use mihomo_extension_sidecar.Common.{
  ℕ, suc, zero, ◌==◌, Bool, true, false, List, [], ◌∷◌, ◌++◌, Option, some, none, Bytes, bytes_eq,
  codes, if◌then◌else◌, length, drop,
}
use mihomo_extension_sidecar.Hosts.Patterns.{has_prefix}

unfoldable pub find {ℓ} : {A : Type ℓ} → Bytes → List (Bytes × A) → Option A
find key [] = none
find key ((k, v) ∷ entries) = let rest = find key entries in if bytes_eq k key then some v else rest

-- `strings.Index`: what stands before the first occurrence, and what stands behind it.
unfoldable pub cut_at : Bytes → Bytes → Option (Bytes × Bytes)
unfolding has_prefix
cut_at needle [] = none
cut_at needle (c ∷ s) =
    let rest = cut_at needle s in
    if has_prefix (c ∷ s) needle
    then some ([], drop (length needle) (c ∷ s))
    else elim rest [ none ↦ none | some x ↦ some (c ∷ x.0, x.1) ]

-- `strings.ReplaceAll(value, "$", "$$")`.
unfoldable pub escape_dollars : Bytes → Bytes
escape_dollars [] = []
escape_dollars (c ∷ s) =
    let rest = escape_dollars s in if c == b'$' then b'$' ∷ b'$' ∷ rest else c ∷ rest

abbrev pub ValueMap : Type 0
ValueMap = List (Bytes × List (Bytes × Bytes))

-- The text for a key; none where the expansion is declined.
unfoldable pub substitution : ValueMap → List (Bytes × Bytes) → Bytes → Option Bytes
unfolding find
substitution value_map settings key = elim (find key settings) [
  | none ↦ none
  | some value ↦ elim (find key value_map) [ none ↦ some value | some mapping ↦ find value mapping ]
]

-- What the loop has written is `out`. None only if the fuel ran out.
unfoldable pub expand_loop :
    ValueMap → List (Bytes × Bytes) → ℕ → Bytes → Bytes → Option (Option Bytes)
unfolding cut_at escape_dollars substitution
expand_loop value_map settings zero out rest = none
expand_loop value_map settings (suc fuel) out rest = elim (cut_at (codes "{{settings.") rest) [
  | none ↦ some (some (out ++ rest))
  | some a ↦ elim (cut_at (codes "}}") a.1) [
    | none ↦ some (some (out ++ rest))
    | some b ↦ elim (substitution value_map settings b.0) [
      | none ↦ some none
      | some value ↦ expand_loop value_map settings fuel (out ++ (a.0 ++ escape_dollars value)) b.1
    ]
  ]
]

unfoldable pub expand_settings_template :
    Bytes → ValueMap → List (Bytes × Bytes) → Option (Option Bytes)
unfolding expand_loop
expand_settings_template template value_map settings =
    expand_loop value_map settings (suc (length template)) [] template
