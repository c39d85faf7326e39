-- ===== src/Tests/RuleRuns.antt =====
-- Runs of the choice of the actions: one extension has two actions, of which one asks for a status.
use mihomo_extension_sidecar.Common.{
  true, false, [], ◌∷◌, some, none, Bytes, bytes_eq, codes, map, set_mem, set_add, ◌≡◌, refl, pos,
}
use mihomo_extension_sidecar.Configuration.Types.{ScriptRule, Document}
use mihomo_extension_sidecar.Hosts.Patterns.{
  canonical_host, contains_byte, has_prefix, has_suffix, trim_dot, cut_wildcard, unique_sorted,
  unique_values,
}
use mihomo_extension_sidecar.Hosts.Matcher.{
  add_pattern, add_patterns, new_compiled_host_matcher, matches_suffix, any_suffix, match_canonical,
}
use mihomo_extension_sidecar.Hosts.Runtime.{
  compile_hosts, find_matcher, add_module_hosts, enabled_hosts,
}
use mihomo_extension_sidecar.Modules.Declarative.{ScriptMessage}
use mihomo_extension_sidecar.Modules.Rules.{
  Compilers, ParsedUrl, module_by_id, action_gate_open, contains_int, module_setting_values,
  script_program, compile_rule, compile_rules, compile_module, compile_modules,
  compile_script_config, rule_applies, matched_rules, matched_modules, subject,
  matching_script_rules_parsed,
}
use mihomo_extension_sidecar.Modules.Rules.Choice.{chosen, matching_script_rules_parsed-chosen}
use mihomo_extension_sidecar.Tests.HostRuns.{ascii, document, extension}
use mihomo_extension_sidecar.Tests.ModuleRuns.{rule}

-- Brings the definitions that a run computes with.
unfoldable running : Bytes
unfolding canonical_host contains_byte has_prefix has_suffix trim_dot cut_wildcard unique_sorted
    unique_values add_pattern add_patterns new_compiled_host_matcher matches_suffix any_suffix
    match_canonical compile_hosts find_matcher add_module_hosts enabled_hosts module_by_id
    action_gate_open contains_int module_setting_values script_program compile_rule compile_rules
    compile_module compile_modules compile_script_config rule_applies matched_rules matched_modules
    subject matching_script_rules_parsed bytes_eq set_mem set_add
running = []

-- Settings are texts already, and an expression matches the path that it spells.
abbrev compilers : Compilers
compilers = record {
  setting_text = some;
  path_matcher = λ pattern. some (bytes_eq pattern);
  script_compiles = λ name body. true;
  jq_compiles = λ body. true;
}

abbrev action : Bytes → ScriptRule
action id = record rule {
  id = id;
  matches = record {
    hosts = codes "a.com" ∷ [];
    schemes = codes "https" ∷ [];
    methods = [];
    path_regex = codes "/x?y";
    status_codes = [];
  };
}

abbrev scoped : ScriptRule
scoped = record (action (codes "b")) {
  matches = record (action (codes "b")).matches { status_codes = pos 404 ∷ [] };
}

abbrev two_actions : Document
two_actions =
    document (
      record (extension (codes "a.com" ∷ []) []) { scripts = action (codes "a") ∷ scoped ∷ [] }
      ∷ [])

abbrev message : ScriptMessage
message = record {
  url = codes "https://A.com/x?y";
  method = codes "GET";
  headers = [];
  body = [];
  status_code = pos 200;
}

abbrev parsed : ParsedUrl
parsed = record {
  hostname = codes "A.com";
  scheme = codes "https";
  escaped_path = codes "/x";
  raw_query = codes "y";
}

-- The status is 200.
status_known :
    map
      (λ r. r.rule.id)
      (matching_script_rules_parsed ascii compilers two_actions none
        (codes "response")
        message
        true
        parsed)
    ≡ codes "a" ∷ []
unfolding running
status_known = refl

status_unknown :
    map
      (λ r. r.rule.id)
      (matching_script_rules_parsed ascii compilers two_actions none
        (codes "response")
        message
        false
        parsed)
    ≡ codes "a" ∷ codes "b" ∷ []
unfolding running
status_unknown = refl

matching_script_rules_parsed-chosen_example :
    matching_script_rules_parsed ascii compilers two_actions none
      (codes "response")
      message
      true
      parsed
    ≡ elim (compile_script_config ascii compilers two_actions) [
      | none ↦ []
      | some compiled ↦
          chosen compilers
            (subject ascii (codes "response") message true parsed)
            two_actions.modules
            (elim two_actions.execution_order [ none ↦ [] | some order ↦ order ])
    ]
matching_script_rules_parsed-chosen_example =
    matching_script_rules_parsed-chosen ascii compilers two_actions (codes "response") message true
      parsed
