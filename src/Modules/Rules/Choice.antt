-- ===== src/Modules/Rules/Choice.antt =====
-- The choice of the actions against the document itself.
use mihomo_extension_sidecar.Common.{
  Bool, false, not, ◌&&◌, List, [], ◌∷◌, ◌++◌, some, none, Bytes, if◌then◌else◌, ◌≡◌, arith, inl,
  inr, Bool-cases, Option-cases,
}
use mihomo_extension_sidecar.Configuration.Types.{ScriptRule, Extension, Document}
use mihomo_extension_sidecar.Hosts.Patterns.{HostText, any_matches}
use mihomo_extension_sidecar.Hosts.Matcher.{
  new_compiled_host_matcher, match_canonical, new_compiled_host_matcher-any_matches,
}
use mihomo_extension_sidecar.Hosts.Runtime.{find_matcher, add_module_hosts, compile_hosts}
use mihomo_extension_sidecar.Modules.Declarative.{ScriptMessage}
use mihomo_extension_sidecar.Modules.Rules.Lookup.{module_by_id-id, find_matcher-enabled}
use mihomo_extension_sidecar.Modules.Rules.{
  Compilers, CompiledScriptRule, CompiledScriptModule, MatchedScriptRule, ParsedUrl, Subject,
  module_by_id, action_gate_open, module_setting_values, compile_rule, compile_rules,
  compile_module, compile_modules, compile_script_config, rule_applies, matched_rules,
  matched_modules, subject, matching_script_rules_parsed,
}

module _ (c : Compilers) (s : Subject) where
  unfoldable pub path_matches : ScriptRule → Bool
  path_matches rule = elim (c.path_matcher rule.matches.path_regex) [
    | none ↦ false
    | some path ↦ path s.path
  ]

  -- The actions of a module with an open gate that match, in the order of the document.
  unfoldable pub chosen_rules :
      Extension → List (Bytes × Bytes) → List ScriptRule → List MatchedScriptRule
  chosen_rules m settings [] = []
  chosen_rules m settings (rule ∷ rules) =
      let rest = chosen_rules m settings rules in
      if action_gate_open rule settings
        && (rule_applies s rule && any_matches rule.matches.hosts s.host && path_matches rule)
      then record { extension = m; rule = rule } ∷ rest
      else rest

  -- Those of the enabled modules that capture the host, in the execution order.
  unfoldable pub chosen : List Extension → List Bytes → List MatchedScriptRule
  chosen modules [] = []
  chosen modules (id ∷ order) =
      let rest = chosen modules order in
      elim (module_by_id id modules) [
        | none ↦ rest
        | some m ↦
            if not (m.enabled && any_matches m.capture_hosts s.host)
            then rest
            else elim (module_setting_values c [] m.settings) [
              | none ↦ rest
              | some settings ↦ chosen_rules m settings m.scripts ++ rest
            ]
      ]

module _ (t : HostText) (c : Compilers) (s : Subject) where
  -- What a compiled action tests is what the action itself says.
  compile_rule-tests :
      (m : Extension) (rule : ScriptRule) (r : CompiledScriptRule)
      → compile_rule t c m rule ≡ some r
      → (r.rule ≡ rule)
        × (match_canonical r.hosts s.host ≡ any_matches rule.matches.hosts s.host)
        × (r.path s.path ≡ path_matches c s rule)
  unfolding compile_rule path_matches
  compile_rule-tests m rule r e = elim (Option-cases (c.path_matcher rule.matches.path_regex)) [
    | inl bad ↦ absurd (ground (arith, e, bad))
    | inr (path, good) ↦
        ground (arith, e, good, new_compiled_host_matcher-any_matches rule.matches.hosts s.host)
  ]

  compile_rules-chosen :
      (m : Extension) (settings : List (Bytes × Bytes)) (rules : List ScriptRule)
      (compiled : List CompiledScriptRule)
      → compile_rules t c m settings rules ≡ some compiled
      → matched_rules s m compiled ≡ chosen_rules c s m settings rules
  unfolding compile_rules matched_rules chosen_rules
  compile_rules-chosen m settings [] compiled e = ground (arith, e)
  compile_rules-chosen m settings (rule ∷ rules) compiled e =
      elim (Bool-cases (action_gate_open rule settings)) [
        | inl opened ↦ elim (Option-cases (compile_rule t c m rule)) [
          | inl bad ↦ absurd (ground (arith, e, opened, bad))
          | inr (r, good) ↦ elim (Option-cases (compile_rules t c m settings rules)) [
            | inl bad ↦ absurd (ground (arith, e, opened, good, bad))
            | inr (others, rest) ↦ ground (
              arith,
              e,
              opened,
              good,
              rest,
              compile_rule-tests m rule r good,
              compile_rules-chosen m settings rules others rest,
            )
          ]
        ]
        | inr closed ↦ ground (arith, e, closed, compile_rules-chosen m settings rules compiled)
      ]

  compile_modules-chosen :
      (modules : List Extension) (order : List Bytes) (compiled : List CompiledScriptModule)
      → compile_modules t c (add_module_hosts [] modules) modules order ≡ some compiled
      → matched_modules s compiled ≡ chosen c s modules order
  unfolding compile_modules matched_modules chosen compile_module
  compile_modules-chosen modules [] compiled e = ground (arith, e)
  compile_modules-chosen modules (id ∷ order) compiled e =
      elim (Option-cases (module_by_id id modules)) [
        | inl missing ↦ ground (arith, e, missing, compile_modules-chosen modules order compiled)
        | inr (m, found) ↦ elim (Bool-cases m.enabled) [
          | inr off ↦ ground (arith, e, found, off, compile_modules-chosen modules order compiled)
          | inl on ↦ elim (Option-cases (module_setting_values c [] m.settings)) [
            | inl bad ↦ absurd (ground (arith, e, found, on, bad))
            | inr (settings, read) ↦ elim (Option-cases (compile_rules t c m settings m.scripts)) [
              | inl bad ↦ absurd (ground (arith, e, found, on, read, bad))
              | inr (rules, good) ↦
                  elim (Option-cases
                    (compile_modules t c (add_module_hosts [] modules) modules order)) [
                      | inl bad ↦ absurd (ground (arith, e, found, on, read, good, bad))
                      | inr (others, rest) ↦
                          let same_id : find_matcher m.id (add_module_hosts [] modules)
                              ≡ some (new_compiled_host_matcher m.capture_hosts) =
                            rw (module_by_id-id id modules m found)
                              (find_matcher-enabled id modules m [] found on) in
                          ground (
                            arith,
                            e,
                            found,
                            on,
                            read,
                            good,
                            rest,
                            same_id,
                            compile_rules-chosen m settings m.scripts rules good,
                            compile_modules-chosen modules order others rest,
                            new_compiled_host_matcher-any_matches m.capture_hosts s.host,
                          )
                    ]
            ]
          ]
        ]
      ]

-- The actions chosen with the compiled document are those that the document itself says: for each id
-- of the execution order, if its module is enabled and captures the host, the actions in their order
-- whose gate is open, that pass the tests on phase, scheme, method and status, and of which a host
-- pattern and the path expression match. Nothing is chosen where the document does not compile.
pub matching_script_rules_parsed-chosen :
    (t : HostText) (c : Compilers) (cfg : Document) (phase : Bytes) (message : ScriptMessage)
    (match_status : Bool) (parsed : ParsedUrl)
    → matching_script_rules_parsed t c cfg none phase message match_status parsed
      ≡ elim (compile_script_config t c cfg) [
        | none ↦ []
        | some compiled ↦
            chosen c
              (subject t phase message match_status parsed)
              cfg.modules
              (elim cfg.execution_order [ none ↦ [] | some order ↦ order ])
      ]
unfolding matching_script_rules_parsed compile_script_config compile_hosts
matching_script_rules_parsed-chosen t c cfg phase message match_status parsed =
    let order : List Bytes = elim cfg.execution_order [ none ↦ [] | some ids ↦ ids ] in
    elim (Option-cases (compile_script_config t c cfg)) [
      | inl bad ↦ ground (arith, bad)
      | inr (compiled, good) ↦ ground (
        arith,
        good,
        compile_modules-chosen t c (subject t phase message match_status parsed) cfg.modules order
            compiled good,
      )
    ]
