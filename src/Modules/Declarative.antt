-- ===== src/Modules/Declarative.antt =====
-- The actions that need no script: `executeMock` (module_mock.go), `executeHeaderEdits`,
-- `executeRewrite` and `executeBodyReplace` (module_rewrite.go), on the messages of
-- module_runtime.go. An `http.Header` is a list of entries under keys in canonical form, and
-- `canonical_key` is `textproto.CanonicalMIMEHeaderKey`. Parameters: base64, a compiled regular
-- expression as what it answers, and the texts of the settings, none where reading them fails. Patterns
-- were compiled by the validators. Trailers are left out, and
-- the walk over a map takes the order of its list.
pub mod Headers
use mihomo_extension_sidecar.Common.{
  ℕ, ◌*◌, ◌^◌, ◌==◌, ltb, leb, Bool, true, false, not, ◌&&◌, ◌||◌, List, [], ◌∷◌, ◌++◌, Option,
  some, none, Bytes, bytes_eq, codes, if◌then◌else◌, length, ℤ, pos, int_eq,
}
use mihomo_extension_sidecar.Configuration.Types.{
  MockResponse, HeaderEdits, UrlRewrite, BodyReplace, ScriptRule,
}
use mihomo_extension_sidecar.Modules.Template.{expand_settings_template}

abbrev pub Header : Type 0
Header = List (Bytes × List Bytes)

pub record ScriptMessage : Type 0 where
  pub url : Bytes
  pub method : Bytes
  pub headers : Header
  pub body : Bytes
  pub status_code : ℤ

pub record ScriptResult : Type 0 where
  pub url : Bytes
  pub headers : Header
  pub body : Bytes
  pub status_code : ℤ
  pub synthetic : Bool
  pub changed_url : Bool
  pub changed_body : Bool
  pub changed_headers : Bool
  pub changed_status : Bool

-- `scriptResult{}`, by which an action declines.
abbrev pub declined : ScriptResult
declined = record {
  url = [];
  headers = [];
  body = [];
  status_code = pos 0;
  synthetic = false;
  changed_url = false;
  changed_body = false;
  changed_headers = false;
  changed_status = false;
}

-- A compiled expression: `ExpandString` at the match of a text if there is one, `Match`, `ReplaceAll`.
pub record Expression : Type 0 where
  pub expand : Bytes → Bytes → Option Bytes
  pub matches : Bytes → Bool
  pub replace_all : Bytes → Bytes → Bytes

module _ (canonical_key : Bytes → Bytes) where
  -- The entries without a key.
  unfoldable pub without : Bytes → Header → Header
  without key [] = []
  without key ((k, vs) ∷ h) =
      let rest = without key h in if bytes_eq k key then rest else (k, vs) ∷ rest

  -- `Header.Del` and `Header.Set`.
  unfoldable pub header_del : Bytes → Header → Header
  unfolding without
  header_del name h = without (canonical_key name) h

  unfoldable pub header_set : Bytes → Bytes → Header → Header
  unfolding without
  header_set name value h = (canonical_key name, value ∷ []) ∷ without (canonical_key name) h

  unfoldable pub delete_all : List Bytes → Header → Header
  unfolding header_del
  delete_all [] h = h
  delete_all (name ∷ names) h = delete_all names (header_del name h)

  unfoldable pub set_all : List (Bytes × Bytes) → Header → Header
  unfolding header_set
  set_all [] h = h
  set_all ((name, value) ∷ fields) h = set_all fields (header_set name value h)

  -- `applyHeaderEdits`: removal comes first.
  unfoldable pub apply_header_edits : HeaderEdits → Header → Header
  unfolding delete_all set_all
  apply_header_edits edits current = set_all edits.set_fields (delete_all edits.remove current)

  -- The message that the phase of a rule owns; none where a response is missing.
  abbrev pub owned_message :
      ScriptRule → ScriptMessage → Option ScriptMessage → Option ScriptMessage
  owned_message rule request response =
      if bytes_eq rule.phase (codes "response") then response else some request

  unfoldable pub execute_header_edits :
      ScriptRule → HeaderEdits → ScriptMessage → Option ScriptMessage → Option ScriptResult
  unfolding apply_header_edits
  execute_header_edits rule edits request response = elim (owned_message rule request response) [
    | none ↦ none
    | some message ↦ some (record declined {
      headers = apply_header_edits edits message.headers;
      changed_headers = true;
    })
  ]

  -- `executeMock`, on the decoded body.
  unfoldable pub execute_mock : (Bytes → Option Bytes) → MockResponse → Bool → Option ScriptResult
  unfolding set_all
  execute_mock base64 mock response_phase =
      elim (if length mock.base64_body == 0 then some mock.body else base64 mock.base64_body) [
        | none ↦ none
        | some body ↦
            let headers = set_all mock.headers [] in
            some (record declined {
              body = body;
              status_code = if int_eq mock.status (pos 0) then pos 200 else mock.status;
              headers = headers;
              synthetic = not response_phase;
              changed_body = true;
              changed_status = true;
              changed_headers = ltb 0 (length headers);
            })
      ]

  -- The result of a rewrite to a target.
  unfoldable pub rewritten : UrlRewrite → Bytes → Option ScriptResult
  unfolding header_set
  rewritten r target =
      if length target == 0 || ltb 4096 (length target)
      then none
      else if int_eq r.status (pos 0)
      then some (record declined { url = target; changed_url = true })
      else some (record declined {
        status_code = r.status;
        headers = header_set (codes "Location") target [];
        synthetic = true;
        changed_status = true;
        changed_headers = true;
        changed_body = true;
      })

  -- `executeRewrite`; a request that does not match is left alone before the settings are read.
  unfoldable pub execute_rewrite :
      Expression → UrlRewrite → Option (List (Bytes × Bytes)) → ScriptMessage → Option ScriptResult
  unfolding rewritten
  execute_rewrite x r settings request =
      if not (x.matches request.url) then some declined else elim settings [
        | none ↦ none
        | some values ↦ elim (expand_settings_template r.to [] values) [
          | none ↦ none
          | some none ↦ some declined
          | some (some to) ↦ elim (x.expand to request.url) [
            | none ↦ some declined
            | some target ↦ rewritten r target
          ]
        ]
      ]

  -- `executeBodyReplace`.
  unfoldable pub execute_body_replace :
      Expression
      → ScriptRule
      → BodyReplace
      → Option (List (Bytes × Bytes))
      → ScriptMessage
      → Option ScriptMessage
      → Option ScriptResult
  execute_body_replace x rule b settings request response =
      elim (owned_message rule request response) [
        | none ↦ none
        | some message ↦ if ltb (8 * 2 ^ 20) (length message.body) then none else elim settings [
          | none ↦ none
          | some values ↦ elim (expand_settings_template b.to b.value_map values) [
            | none ↦ none
            | some none ↦ some declined
            | some (some template) ↦
                if x.matches message.body
                then some (record declined {
                  body = x.replace_all message.body template;
                  changed_body = true;
                })
                else some declined
          ]
        ]
      ]
