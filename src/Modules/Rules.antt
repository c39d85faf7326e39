-- ===== src/Modules/Rules.antt =====
-- Which actions run on a message: the part of `compileScriptConfigWithPrograms` that compiles the
-- actions, without programs compiled before, and `matchingScriptRulesParsed` (module_runtime.go), with
-- `moduleSettingValues` (config.go). Parameters: a setting's JSON value as the text that it renders to,
-- regexp, goja, jq and net/url, each by what it answers. A map is a list whose first entry with a
-- key counts. Compiled programs are not kept.
pub mod Lookup
pub mod Choice
use mihomo_extension_sidecar.Common.{
  ℕ, ◌==◌, ltb, Bool, true, false, not, ◌&&◌, ◌||◌, List, [], ◌∷◌, ◌++◌, Option, some, none, Bytes,
  bytes_eq, codes, if◌then◌else◌, length, ℤ, int_eq, set_mem,
}
use mihomo_extension_sidecar.Configuration.Types.{ModuleSetting, ScriptRule, Extension, Document}
use mihomo_extension_sidecar.Hosts.Patterns.{HostText, canonical_host}
use mihomo_extension_sidecar.Hosts.Matcher.{
  CompiledHostMatcher, new_compiled_host_matcher, match_canonical,
}
use mihomo_extension_sidecar.Hosts.Runtime.{find_matcher, compile_hosts}
use mihomo_extension_sidecar.Modules.Template.{find}
use mihomo_extension_sidecar.Modules.Declarative.{ScriptMessage}

-- What the libraries answer: a setting's value as a text, a compiled path expression, whether a script
-- under a file name and a jq program compile.
pub record Compilers : Type 0 where
  pub setting_text : Bytes → Option Bytes
  pub path_matcher : Bytes → Option (Bytes → Bool)
  pub script_compiles : Bytes → Bytes → Bool
  pub jq_compiles : Bytes → Bool

pub record CompiledScriptRule : Type 0 where
  pub rule : ScriptRule
  pub path : Bytes → Bool
  pub hosts : CompiledHostMatcher

pub record CompiledScriptModule : Type 0 where
  pub extension : Extension
  pub rules : List CompiledScriptRule
  pub hosts : Option CompiledHostMatcher

pub record MatchedScriptRule : Type 0 where
  pub extension : Extension
  pub rule : ScriptRule

-- A parsed URL.
pub record ParsedUrl : Type 0 where
  pub hostname : Bytes
  pub scheme : Bytes
  pub escaped_path : Bytes
  pub raw_query : Bytes

-- A read of `byID`: the last module with the id.
unfoldable pub module_by_id : Bytes → List Extension → Option Extension
module_by_id id [] = none
module_by_id id (m ∷ modules) = elim (module_by_id id modules) [
  | some found ↦ some found
  | none ↦ if bytes_eq m.id id then some m else none
]

unfoldable pub action_gate_open : ScriptRule → List (Bytes × Bytes) → Bool
unfolding find
action_gate_open rule settings = elim rule.enabled_when [
  | none ↦ true
  | some gate ↦ elim (find gate.key settings) [
    | none ↦ true
    | some value ↦ bytes_eq value gate.equals
  ]
]

unfoldable pub contains_int : ℤ → List ℤ → Bool
contains_int want [] = false
contains_int want (v ∷ values) = int_eq v want || contains_int want values

module _ (c : Compilers) where
  -- The values read so far are given.
  unfoldable pub module_setting_values :
      List (Bytes × Bytes) → List ModuleSetting → Option (List (Bytes × Bytes))
  module_setting_values values [] = some values
  module_setting_values values (s ∷ settings) =
      if length s.value == 0
      then module_setting_values values settings
      else elim (c.setting_text s.value) [
        | none ↦ none
        | some text ↦ module_setting_values ((s.key, text) ∷ values) settings
      ]

module _ (t : HostText) (c : Compilers) where
  -- `scriptProgram` with its file name (`firstNonEmpty`), as whether it succeeds.
  unfoldable pub script_program : Extension → ScriptRule → Bool
  script_program m rule =
      let url = t.trim_space rule.script_url in
      let name = t.trim_space (codes "extension:" ++ (m.id ++ (47 ∷ rule.id))) in
      c.script_compiles (if ltb 0 (length url) then url else name) rule.script_body

  -- One action whose gate is open.
  unfoldable pub compile_rule : Extension → ScriptRule → Option CompiledScriptRule
  compile_rule m rule = elim (c.path_matcher rule.matches.path_regex) [
    | none ↦ none
    | some path ↦
        if script_program m rule && (length rule.jq_program == 0 || c.jq_compiles rule.jq_program)
        then some (record {
          rule = rule;
          path = path;
          hosts = new_compiled_host_matcher rule.matches.hosts;
        })
        else none
  ]

  unfoldable pub compile_rules :
      Extension → List (Bytes × Bytes) → List ScriptRule → Option (List CompiledScriptRule)
  compile_rules m settings [] = some []
  compile_rules m settings (rule ∷ rules) =
      let rest = compile_rules m settings rules in
      if not (action_gate_open rule settings) then rest else elim (compile_rule m rule) [
        | none ↦ none
        | some first ↦ elim rest [ none ↦ none | some others ↦ some (first ∷ others) ]
      ]

  unfoldable pub compile_module :
      Extension → Option CompiledHostMatcher → Option CompiledScriptModule
  compile_module m hosts = elim (module_setting_values c [] m.settings) [
    | none ↦ none
    | some settings ↦ elim (compile_rules m settings m.scripts) [
      | none ↦ none
      | some rules ↦ some (record { extension = m; rules = rules; hosts = hosts })
    ]
  ]

  -- The walk over the execution order.
  unfoldable pub compile_modules :
      List (Bytes × CompiledHostMatcher)
      → List Extension
      → List Bytes
      → Option (List CompiledScriptModule)
  compile_modules hosts modules [] = some []
  compile_modules hosts modules (id ∷ order) =
      let rest = compile_modules hosts modules order in
      elim (module_by_id id modules) [
        | none ↦ rest
        | some m ↦
            if not m.enabled then rest else elim (compile_module m (find_matcher m.id hosts)) [
              | none ↦ none
              | some first ↦ elim rest [ none ↦ none | some others ↦ some (first ∷ others) ]
            ]
      ]

  unfoldable pub compile_script_config : Document → Option (List CompiledScriptModule)
  compile_script_config cfg =
      compile_modules (compile_hosts t cfg).module_hosts cfg.modules
        (elim cfg.execution_order [ none ↦ [] | some order ↦ order ])

-- The message and its URL in the form that rules are tested on.
pub record Subject : Type 0 where
  pub phase : Bytes
  pub host : Bytes
  pub scheme : Bytes
  pub path : Bytes
  pub method : Bytes
  -- The status, where it is known.
  pub status : Option ℤ

-- The tests on a rule but for its host and path.
unfoldable pub rule_applies : Subject → ScriptRule → Bool
rule_applies s rule =
    bytes_eq rule.phase s.phase
    && set_mem s.scheme rule.matches.schemes
    && (length rule.matches.methods == 0 || set_mem s.method rule.matches.methods)
    && elim s.status [
      | none ↦ true
      | some code ↦
          length rule.matches.status_codes == 0 || contains_int code rule.matches.status_codes
    ]

unfoldable pub matched_rules :
    Subject → Extension → List CompiledScriptRule → List MatchedScriptRule
matched_rules s m [] = []
matched_rules s m (r ∷ rules) =
    let rest = matched_rules s m rules in
    if rule_applies s r.rule && match_canonical r.hosts s.host && r.path s.path
    then record { extension = m; rule = r.rule } ∷ rest
    else rest

unfoldable pub matched_modules : Subject → List CompiledScriptModule → List MatchedScriptRule
matched_modules s [] = []
matched_modules s (m ∷ modules) =
    let rest = matched_modules s modules in
    elim m.hosts [
      | none ↦ rest
      | some hosts ↦
          if match_canonical hosts s.host then matched_rules s m.extension m.rules ++ rest else rest
    ]

module _ (t : HostText) where
  unfoldable pub subject : Bytes → ScriptMessage → Bool → ParsedUrl → Subject
  subject phase message match_status parsed =
      let path = if length parsed.escaped_path == 0 then codes "/" else parsed.escaped_path in
      record {
        phase = phase;
        host = canonical_host t parsed.hostname;
        scheme = t.to_lower parsed.scheme;
        path =
            if length parsed.raw_query == 0 then path else path ++ (codes "?" ++ parsed.raw_query);
        method = message.method;
        status = if match_status then some message.status_code else none;
      }

module _ (t : HostText) (c : Compilers) where
  -- `runtime` is what the document was compiled to, if it was.
  unfoldable pub matching_script_rules_parsed :
      Document
      → Option (List CompiledScriptModule)
      → Bytes
      → ScriptMessage
      → Bool
      → ParsedUrl
      → List MatchedScriptRule
  unfolding subject
  matching_script_rules_parsed cfg runtime phase message match_status parsed =
      let compiled : Option (List CompiledScriptModule) = elim runtime [
        | none ↦ compile_script_config t c cfg
        | some modules ↦ some modules
      ] in
      elim compiled [
        | none ↦ []
        | some modules ↦ matched_modules (subject t phase message match_status parsed) modules
      ]
