-- ===== src/Modules/Template/Segments.antt =====
-- The expansion of a template against a description in two passes: the template is first cut into
-- literals and keys, whatever the settings, and each key is then filled in once.
use mihomo_extension_sidecar.Common.{
  ℕ, suc, zero, ◌<◌, List, [], ◌∷◌, ◌++◌, Option, some, none, Bytes, codes, length, length-drop,
  append_assoc, ◌≡◌, inl, inr, refl, ◌∙◌, ap, arith, Option-cases, Bool-cases,
}
use mihomo_extension_sidecar.Hosts.Patterns.{has_prefix}
use mihomo_extension_sidecar.Modules.Template.{
  ValueMap, cut_at, escape_dollars, substitution, expand_loop, expand_settings_template,
}

-- A literal and the key behind it, again and again, then the last literal.
pub data Segments : Type 0 where
  last : Bytes → Segments
  then_key : Bytes → Bytes → Segments → Segments

unfoldable pub segments : ℕ → Bytes → Segments
segments zero rest = last rest
segments (suc fuel) rest = elim (cut_at (codes "{{settings.") rest) [
  | none ↦ last rest
  | some a ↦ elim (cut_at (codes "}}") a.1) [
    | none ↦ last rest
    | some b ↦ then_key a.0 b.0 (segments fuel b.1)
  ]
]

-- The literals as they are, and the value of each key with its dollars escaped; none if one is missing.
unfoldable pub fill : (Bytes → Option Bytes) → Segments → Option Bytes
fill value (last s) = some s
fill value (then_key s key rest) =
    let filled = fill value rest in
    elim (value key) [
      | none ↦ none
      | some v ↦ elim filled [ none ↦ none | some r ↦ some (s ++ (escape_dollars v ++ r)) ]
    ]

-- Behind an occurrence there is less text than before.
cut_at-shorter :
    (n : ℕ) (needle s : Bytes) (x : Bytes × Bytes)
    → length needle ≡ suc n
    → cut_at needle s ≡ some x
    → length x.1 < length s
unfolding cut_at
cut_at-shorter n needle [] x l e = cc
cut_at-shorter n needle (c ∷ s) x l e = elim (Bool-cases (has_prefix (c ∷ s) needle)) [
  | inl here ↦ ground (arith, here, e, l, length-drop (length needle) (c ∷ s))
  | inr later ↦ elim (Option-cases (cut_at needle s)) [
    | inl missing ↦ absurd (ground (arith, later, e, missing))
    | inr (y, found) ↦ ground (arith, later, e, found, cut_at-shorter n needle s y l found)
  ]
]

-- What is written before is put in front.
abbrev in_front : Bytes → Option Bytes → Option Bytes
in_front out none = none
in_front out (some s) = some (out ++ s)

in_front_nil : (o : Option Bytes) → in_front [] o ≡ o
in_front_nil none = refl
in_front_nil (some s) = refl

-- What a key is filled with, put in front of what is filled behind it.
in_front_append :
    (out s v : Bytes) (o : Option Bytes)
    → in_front (out ++ (s ++ v)) o
      ≡ in_front out (elim o [ none ↦ none | some r ↦ some (s ++ (v ++ r)) ])
in_front_append out s v none = refl
in_front_append out s v (some r) =
    ap some (append_assoc out (s ++ v) r ∙ ap (◌++◌ out) (append_assoc s v r))

module _ (value_map : ValueMap) (settings : List (Bytes × Bytes)) where
  expand_loop-segments :
      (fuel : ℕ) (out rest : Bytes)
      → length rest < fuel
      → expand_loop value_map settings fuel out rest
        ≡ some (in_front out (fill (substitution value_map settings) (segments fuel rest)))
  unfolding expand_loop segments fill
  expand_loop-segments zero out rest h = absurd (omega arith)
  expand_loop-segments (suc fuel) out rest h =
      elim (Option-cases (cut_at (codes "{{settings.") rest)) [
        | inl e ↦ ground (arith, e)
        | inr (a, e) ↦ elim (Option-cases (cut_at (codes "}}") a.1)) [
          | inl e2 ↦ ground (arith, e, e2)
          | inr (b, e2) ↦ elim (Option-cases (substitution value_map settings b.0)) [
            | inl e3 ↦ ground (arith, e, e2, e3)
            | inr (v, e3) ↦
                let less = cut_at-shorter 10 (codes "{{settings.") rest a refl e in
                let less2 = cut_at-shorter 1 (codes "}}") a.1 b refl e2 in
                let ih =
                  expand_loop-segments fuel (out ++ (a.0 ++ escape_dollars v)) b.1
                    (omega (arith, less, less2)) in
                let moved =
                  in_front_append out a.0 (escape_dollars v)
                    (fill (substitution value_map settings) (segments fuel b.1)) in
                ground (arith, e, e2, e3, ih, moved)
          ]
        ]
      ]

-- The expansion always comes to an end, and gives what filling in the template gives that was cut
-- into literals and keys before any setting was looked at: a value is never scanned for placeholders.
pub expand_settings_template-segments :
    (template : Bytes) (value_map : ValueMap) (settings : List (Bytes × Bytes))
    → expand_settings_template template value_map settings
      ≡ some (fill (substitution value_map settings) (segments (suc (length template)) template))
unfolding expand_settings_template
expand_settings_template-segments template value_map settings =
    expand_loop-segments value_map settings (suc (length template)) [] template (omega arith)
    ∙ ap some (in_front_nil _)
