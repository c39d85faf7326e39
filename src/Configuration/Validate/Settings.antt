-- ===== src/Configuration/Validate/Settings.antt =====
-- The validators of settings (validateModuleSettings, validateSettingDefinition, validateSettingValue,
-- settingReady, moduleSettingsReady and validateActionGate in config.go).
use mihomo_extension_sidecar.Common.{
  ℕ, ◌*◌, ◌^◌, ◌==◌, ltb, leb, Bool, true, false, not, ◌&&◌, ◌||◌, List, [], ◌∷◌, Option, some,
  none, Bytes, bytes_eq, codes, if◌then◌else◌, length, ℤ, pos, negsuc, set_mem,
}
use mihomo_extension_sidecar.Configuration.Types.{ModuleSetting, Extension, ScriptRule, ActionGate}
use mihomo_extension_sidecar.Configuration.Validate.{Checks, each, has_duplicate, valid_setting_key}

-- `setting.Type == text`.
abbrev pub kind_is : ModuleSetting → Bytes → Bool
kind_is s kind = bytes_eq s.kind kind

abbrev pub declared : Option ℕ → Bool
declared none = false
declared (some x) = true

abbrev pub unbounded : ModuleSetting → Bool
unbounded s = not (declared s.min || declared s.max)

module _ (k : Checks) where
  -- Whether a coordinate is outside of its range, or not finite.
  unfoldable pub bad_coordinate : Option ℕ → ℤ → ℤ → Bool
  bad_coordinate none low high = false
  bad_coordinate (some x) low high =
      k.float_less x (k.float_of low) || k.float_less (k.float_of high) x || not (k.is_finite x)

  unfoldable pub valid_location : Bytes → Bool → Bool
  unfolding bad_coordinate
  valid_location raw complete = elim (k.json_location raw) [
    | none ↦ false
    | some v ↦
        not (v.accuracy == 0)
        && leb v.accuracy 100000
        && (if declared v.longitude then declared v.latitude else not (declared v.latitude))
        && not (bad_coordinate v.longitude (negsuc 179) (pos 180))
        && not (bad_coordinate v.latitude (negsuc 89) (pos 90))
        && not (complete && not (declared v.longitude))
  ]

  unfoldable pub valid_text : ModuleSetting → Bytes → Bool → Bool
  valid_text s raw complete = elim (k.json_string raw) [
    | none ↦ false
    | some value ↦
        leb (length value) 4096
        && not (complete && length (k.text.trim_space value) == 0)
        && not
            (kind_is s (codes "select") && not (length value == 0) && not (set_mem value s.options))
  ]

  abbrev pub below : Option ℕ → ℕ → Bool
  below none x = false
  below (some bound) x = k.float_less x bound

  abbrev pub above : Option ℕ → ℕ → Bool
  above none x = false
  above (some bound) x = k.float_less bound x

  unfoldable pub valid_number : ModuleSetting → Bytes → Bool
  valid_number s raw = elim (k.json_number raw) [
    | none ↦ false
    | some x ↦ k.is_finite x && not (below s.min x || above s.max x)
  ]

  unfoldable pub validate_setting_value : ModuleSetting → Bytes → Bool → Bool
  unfolding valid_text valid_number valid_location
  validate_setting_value s raw complete =
      if length raw == 0 || bytes_eq (k.text.trim_space raw) (codes "null")
      then not complete
      else if ltb (64 * 2 ^ 10) (length raw)
      then false
      else if kind_is s (codes "text") || kind_is s (codes "select")
      then valid_text s raw complete
      else if kind_is s (codes "boolean")
      then k.json_bool raw
      else if kind_is s (codes "number")
      then valid_number s raw
      else if kind_is s (codes "location")
      then valid_location raw complete
      else true

  unfoldable pub valid_constraints : ModuleSetting → Bool
  valid_constraints s =
      if kind_is s (codes "text")
      then length s.options == 0 && unbounded s
      else if kind_is s (codes "select")
      then not (length s.options == 0)
        && leb (length s.options) 64
        && unbounded s
        && each (λ o. not (length o == 0) && leb (length o) 256) s.options
        && not (has_duplicate [] s.options)
      else if kind_is s (codes "boolean") || kind_is s (codes "location")
      then length s.options == 0 && unbounded s
      else if kind_is s (codes "number")
      then length s.options == 0 && (elim s.min as (λ _. Bool) [
        | none ↦ true
        | some low ↦ elim s.max as (λ _. Bool) [
          | none ↦ true
          | some high ↦ not (k.float_less high low)
        ]
      ])
      else false

  unfoldable pub validate_setting_definition : ModuleSetting → Bool
  unfolding valid_constraints validate_setting_value
  validate_setting_definition s =
      valid_constraints s
      && (length s.default == 0 || validate_setting_value s s.default false)
      && (length s.value == 0 || validate_setting_value s s.value false)

  unfoldable pub setting_ready : ModuleSetting → Bool
  unfolding validate_setting_value
  setting_ready s = validate_setting_value s s.value true

  unfoldable pub module_settings_ready : List ModuleSetting → Bool
  unfolding setting_ready
  module_settings_ready [] = true
  module_settings_ready (s ∷ settings) =
      not (s.required && not (setting_ready s)) && module_settings_ready settings

  unfoldable pub valid_settings_loop : Bool → List Bytes → List ModuleSetting → Bool
  unfolding validate_setting_definition setting_ready
  valid_settings_loop require_ready seen [] = true
  valid_settings_loop require_ready seen (s ∷ settings) =
      valid_setting_key s.key
      && not (set_mem s.key seen)
      && leb (length s.label) 128
      && leb (length s.description) 512
      && validate_setting_definition s
      && not (require_ready && s.required && not (setting_ready s))
      && valid_settings_loop require_ready (s.key ∷ seen) settings

  unfoldable pub validate_module_settings : List ModuleSetting → Bool → Bool
  unfolding valid_settings_loop
  validate_module_settings settings require_ready =
      leb (length settings) 128 && valid_settings_loop require_ready [] settings

-- The setting that a gate names decides; a gate that names none is refused.
unfoldable pub gate_matches : ActionGate → List ModuleSetting → Bool
gate_matches gate [] = false
gate_matches gate (s ∷ settings) =
    let rest = gate_matches gate settings in
    if not (bytes_eq s.key gate.key)
    then rest
    else if not s.required
    then false
    else if kind_is s (codes "boolean")
    then bytes_eq gate.equals (codes "true") || bytes_eq gate.equals (codes "false")
    else if kind_is s (codes "select")
    then set_mem gate.equals s.options
    else false

unfoldable pub validate_action_gate : Extension → ScriptRule → Bool
unfolding gate_matches
validate_action_gate m rule = elim rule.enabled_when [
  | none ↦ true
  | some gate ↦
      valid_setting_key gate.key && not (length gate.equals == 0) && gate_matches gate m.settings
]
