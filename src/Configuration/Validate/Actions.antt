-- ===== src/Configuration/Validate/Actions.antt =====
-- The validators of actions (validateActionMatch in config.go, the validate methods of module_mock.go
-- and module_rewrite.go, and the loop over the scripts in validateModulesWithPrograms).
use mihomo_extension_sidecar.Common.{
  ℕ, suc, ◌+◌, ◌*◌, ◌^◌, ◌==◌, leb, Bool, true, false, not, ◌&&◌, ◌||◌, List, [], ◌∷◌, Option, some,
  none, Bytes, bytes_eq, codes, if◌then◌else◌, length, ℤ, pos, lt_int, int_eq, set_mem,
}
use mihomo_extension_sidecar.Configuration.Types.{
  ActionMatch, MockResponse, HeaderEdits, UrlRewrite, BodyReplace, ScriptRule, Extension,
}
use mihomo_extension_sidecar.Hosts.Patterns.{host_covered_by, contains_byte}
use mihomo_extension_sidecar.Script.Nesting.{
  check_script_nesting, accepted, too_deep, too_many_prefixes,
}
use mihomo_extension_sidecar.Configuration.Validate.{
  Checks, each, valid_host_pattern, valid_setting_key, valid_snapshot_url, http_token_name,
}
use mihomo_extension_sidecar.Configuration.Validate.Settings.{validate_action_gate}

-- `strings.ContainsAny`.
unfoldable pub contains_any : Bytes → Bytes → Bool
contains_any s [] = false
contains_any s (c ∷ chars) = contains_byte s c || contains_any s chars

unfoldable pub each_status : List ℤ → Bool
each_status [] = true
each_status (s ∷ statuses) = not (lt_int s (pos 100) || lt_int (pos 599) s) && each_status statuses

-- The header fields of a mock, and of header edits.
unfoldable pub valid_fields : (Bytes → Bool) → List (Bytes × Bytes) → Bool
valid_fields valid_header [] = true
valid_fields valid_header ((name, value) ∷ fields) =
    valid_header name && not (contains_any value (13 ∷ 10 ∷ [])) && valid_fields valid_header fields

abbrev pub is_some : {A : Type 0} → Option A → Bool
is_some none = false
is_some (some a) = true

-- The number of the action kinds that a rule declares.
unfoldable pub count_true : List Bool → ℕ
count_true [] = 0
count_true (b ∷ bs) = let rest = count_true bs in if b then suc rest else rest

unfoldable pub action_kinds : ScriptRule → ℕ
unfolding count_true
action_kinds rule = count_true (
    not (length rule.jq_program == 0)
    ∷ rule.reject
    ∷ is_some rule.mock
    ∷ is_some rule.headers
    ∷ is_some rule.rewrite
    ∷ is_some rule.replace_body
    ∷ (not (length rule.script_body == 0) || not (length rule.script_url == 0))
    ∷ [])

unfoldable pub declarative : ScriptRule → Bool
declarative rule =
    rule.reject
    || is_some rule.mock
    || not (length rule.jq_program == 0)
    || is_some rule.headers
    || is_some rule.rewrite
    || is_some rule.replace_body

module _ (k : Checks) where
  unfoldable pub validate_action_match : List Bytes → Bytes → ActionMatch → Bool
  unfolding each_status contains_any
  validate_action_match capture_hosts phase m =
      not (length m.hosts == 0)
      && leb (length m.hosts) 512
      && not (length m.schemes == 0)
      && not (length m.path_regex == 0)
      && each (λ h. valid_host_pattern k h && host_covered_by capture_hosts h) m.hosts
      && each (λ s. bytes_eq s (codes "http") || bytes_eq s (codes "https")) m.schemes
      && each
          (λ s.
            not (length s == 0)
            && bytes_eq s (k.to_upper s)
            && not (contains_any s (32 ∷ 9 ∷ 13 ∷ 10 ∷ [])))
          m.methods
      && k.regexp_compiles m.path_regex
      && not (bytes_eq phase (codes "request") && not (length m.status_codes == 0))
      && each_status m.status_codes

  -- `MockResponse.bytes`.
  unfoldable pub mock_bytes : MockResponse → Option Bytes
  mock_bytes m = if length m.base64_body == 0 then some m.body else k.base64 m.base64_body

  unfoldable pub validate_mock : Option MockResponse → Bool
  unfolding mock_bytes valid_fields
  validate_mock none = true
  validate_mock (some m) =
      not
        (not (int_eq m.status (pos 0)) && (lt_int m.status (pos 100) || lt_int (pos 599) m.status))
      && (length m.body == 0 || length m.base64_body == 0)
      && leb (length m.headers) 32
      && valid_fields (λ name. not (length (k.text.trim_space name) == 0) && http_token_name name)
          m.headers
      && (elim (mock_bytes m) as (λ _. Bool) [
        | none ↦ false
        | some body ↦ leb (length body) (2 ^ 20)
      ])

  unfoldable pub validate_rewrite : Option UrlRewrite → Bool
  validate_rewrite none = true
  validate_rewrite (some r) =
      (int_eq r.status (pos 0) || int_eq r.status (pos 302) || int_eq r.status (pos 307))
      && not (length r.to == 0)
      && leb (length r.to) 4096
      && leb (length r.pattern) 1024
      && k.regexp_compiles r.pattern

  unfoldable pub validate_body_replace : Option BodyReplace → Bool
  validate_body_replace none = true
  validate_body_replace (some b) =
      not (length b.pattern == 0)
      && leb (length b.pattern) 1024
      && leb (length b.to) 4096
      && k.regexp_compiles b.pattern
      && not (k.matches_empty b.pattern)

  -- `checkScriptNesting` as an error or none.
  abbrev pub nesting_accepted : Bytes → Bool
  nesting_accepted source = elim (check_script_nesting source) [
    | none ↦ false
    | some v ↦ elim v as (λ _. Bool) [
      | accepted ↦ true
      | too_deep n ↦ false
      | too_many_prefixes n ↦ false
    ]
  ]

  unfoldable pub validate_headers : Option HeaderEdits → Bool
  unfolding valid_fields
  validate_headers none = true
  validate_headers (some h) =
      not (length h.set_fields + length h.remove == 0)
      && leb (length h.set_fields + length h.remove) 32
      && valid_fields http_token_name h.set_fields
      && each http_token_name h.remove

  -- What is left for a rule with a script.
  unfoldable pub valid_script : ScriptRule → Bool
  valid_script rule =
      not (length rule.script_body == 0)
      && leb (length rule.script_body) (2 ^ 20)
      && bytes_eq rule.script_digest (k.digest_text rule.script_body)
      && nesting_accepted rule.script_body
      && k.script_compiles rule.script_body
      && (length rule.entry == 0 || bytes_eq rule.entry (codes "proxy-compat"))

  -- What is checked of each kind once the checks they share have passed.
  unfoldable pub valid_kind : ScriptRule → Bool
  unfolding validate_mock validate_headers validate_rewrite validate_body_replace valid_script
  valid_kind rule =
      if rule.reject
      then true
      else validate_mock rule.mock
        && validate_headers rule.headers
        && validate_rewrite rule.rewrite
        && validate_body_replace rule.replace_body
        && (if is_some rule.mock
              || is_some rule.headers
              || is_some rule.rewrite
              || is_some rule.replace_body
            then true
            else if not (length rule.jq_program == 0)
            then bytes_eq rule.body_mode (codes "text")
              && leb (length rule.jq_program) 32768
              && k.jq_compiles rule.jq_program
            else valid_script rule)

  -- The body of the loop over the actions, but for the duplicate ids.
  unfoldable pub valid_action : Extension → ScriptRule → Bool
  unfolding validate_action_match action_kinds declarative valid_kind
  valid_action m rule =
      valid_setting_key rule.id
      && (bytes_eq rule.phase (codes "request") || bytes_eq rule.phase (codes "response"))
      && validate_action_match m.capture_hosts rule.phase rule.matches
      && validate_action_gate m rule
      && leb (length rule.script_url) 4096
      && (length rule.script_url == 0 || valid_snapshot_url k rule.script_url)
      && leb (action_kinds rule) 1
      && not (not (length rule.entry == 0) && declarative rule)
      && (bytes_eq rule.body_mode (codes "none")
          || bytes_eq rule.body_mode (codes "text")
          || bytes_eq rule.body_mode (codes "binary"))
      && not (lt_int rule.timeout_ms (pos 50) || lt_int (pos 30000) rule.timeout_ms)
      && not
          (lt_int rule.max_body_bytes (pos 1024) || lt_int (pos (64 * 2 ^ 20)) rule.max_body_bytes)
      && not (is_some rule.rewrite && not (bytes_eq rule.phase (codes "request")))
      && not (is_some rule.replace_body && bytes_eq rule.body_mode (codes "none"))
      && valid_kind rule

  -- The loop over the actions, with the ids that were seen.
  unfoldable pub valid_actions : Extension → List Bytes → List ScriptRule → Bool
  unfolding valid_action
  valid_actions m seen [] = true
  valid_actions m seen (rule ∷ rules) =
      valid_action m rule && not (set_mem rule.id seen) && valid_actions m (rule.id ∷ seen) rules

-- The bytes of the scripts that count for the total: those of the rules that reach the end of the loop.
unfoldable pub script_bytes : List ScriptRule → ℕ
unfolding declarative
script_bytes [] = 0
script_bytes (rule ∷ rules) =
    let rest = script_bytes rules in
    if declarative rule then rest else length rule.script_body + rest
