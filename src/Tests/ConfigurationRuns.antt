-- ===== src/Tests/ConfigurationRuns.antt =====
-- Runs of the configuration store and of the validators, on documents of a few bytes.
use mihomo_extension_sidecar.Common.{
  ℕ, Bool, true, false, ◌&&◌, List, [], ◌∷◌, Option, some, none, Bytes, codes, bytes_eq, All, ◌≡◌,
  inl, refl, arith, set_mem, bytes_lt,
}
use mihomo_extension_sidecar.Configuration.Types.{HostMapping}
use mihomo_extension_sidecar.Configuration.Store.{
  FileInfo, ConfigStore, Observed, matches_file, remembered, read_failure, is_known, consider,
  current_file, current_bundle, current, answers, new_config_store,
}
use mihomo_extension_sidecar.Configuration.Store.Generations.{Chain, new_config_store-Chain}
use mihomo_extension_sidecar.Configuration.Store.Fallback.{KeepsOrLoads, current_keeps_last_valid}
use mihomo_extension_sidecar.Configuration.Validate.{
  Checks, every, each, first_is, last_is, split_on, has_duplicate, strings_are_sorted, valid_label,
  valid_name, extension_id_pattern, valid_module_id, valid_host_pattern, valid_host_target,
  valid_host_target_servers,
}
use mihomo_extension_sidecar.Configuration.Validate.Documents.{
  valid_order, validate_execution_order, find_target, add_mappings,
  validate_module_network_permissions, valid_mappings, validate_host_mappings, valid_capture_host,
  valid_capture_hosts, valid_module, valid_modules, validate_modules,
}
use mihomo_extension_sidecar.Configuration.Validate.Routing.{
  valid_rules_loop, validate_routing_rules,
}
use mihomo_extension_sidecar.Configuration.Validate.Settings.{
  validate_module_settings, valid_settings_loop, module_settings_ready,
}
use mihomo_extension_sidecar.Configuration.Validate.Actions.{valid_actions, script_bytes}
use mihomo_extension_sidecar.Configuration.Validate.Order.{occurrences, execution_order-once}
use mihomo_extension_sidecar.Configuration.Validate.Mappings.{validate_modules-agree}
use mihomo_extension_sidecar.Configuration.Validate.Owned.{
  any_owner, active_intercept_host-any_owner,
}
use mihomo_extension_sidecar.Hosts.Patterns.{
  canonical_host, has_prefix, has_suffix, contains_byte, trim_dot, cut_wildcard, match_host_pattern,
  host_pattern_covers, host_covered_by, any_matches,
}
use mihomo_extension_sidecar.Hosts.Runtime.{active_intercept_host}
use mihomo_extension_sidecar.Tests.HostRuns.{ascii, document, ads}

unfoldable running : Bytes
unfolding bytes_eq set_mem bytes_lt matches_file remembered read_failure is_known consider
    current_file current_bundle current answers new_config_store every each first_is last_is
    split_on has_duplicate strings_are_sorted valid_label valid_name extension_id_pattern
    valid_module_id valid_host_pattern valid_host_target valid_host_target_servers valid_order
    validate_execution_order find_target add_mappings validate_module_network_permissions
    valid_mappings validate_host_mappings valid_capture_host valid_capture_hosts valid_module
    valid_modules validate_modules valid_rules_loop validate_routing_rules validate_module_settings
    valid_settings_loop module_settings_ready valid_actions script_bytes occurrences canonical_host
    has_prefix has_suffix contains_byte trim_dot cut_wildcard match_host_pattern host_pattern_covers
    host_covered_by any_matches
running = []

-- A document decodes if it is not empty, to itself; a digest is the text.
abbrev decode : Bytes → Option Bytes
decode [] = none
decode (c ∷ s) = some (c ∷ s)

abbrev sum : Bytes → Bytes
sum body = body

abbrev same : FileInfo → FileInfo → Bool
same a b = true

abbrev contents : ℕ → Bytes
contents n = n ∷ []

abbrev file : ℕ → FileInfo
file size = record { size = size; mod_time = 0; identity = 0 }

abbrev store : ConfigStore Bytes
store = record {
  good_file = some (file 1);
  bad_file = none;
  read_error_file = none;
  read_error_unstatable = false;
  content_digest = 97 ∷ [];
  cfg = record { generation = 1; document = 97 ∷ [] };
  bundle = none;
  generation = 1;
}

-- The file is replaced, then a bundle goes live, and is withdrawn.
abbrev calls : List Observed
calls =
    record { source = none; stat = some (file 2); read = some (98 ∷ [], some (file 2)) }
    ∷ record { source = some (some 5, true); stat = none; read = none }
    ∷ record { source = some (none, true); stat = some (file 1); read = none }
    ∷ []

served :
    answers same sum decode contents store calls
    ≡ some (record { generation = 2; document = 98 ∷ [] })
      ∷ some (record { generation = 3; document = 5 ∷ [] })
      ∷ none
      ∷ []
unfolding running
served = refl

new_config_store-Chain_example : Chain store.cfg (answers same sum decode contents store calls)
unfolding running
new_config_store-Chain_example =
    new_config_store-Chain same sum decode contents (97 ∷ []) (some (file 1)) store calls refl
      ((λ e. absurd (ground (arith, e))), ((λ e. absurd (ground (arith, e))), ((λ e. refl), tt)))
      (omega arith)

current_keeps_last_valid_example : KeepsOrLoads same sum decode contents store (some ([], none)) (
    current same sum decode contents store
      (record { source = none; stat = none; read = some ([], none) }))
current_keeps_last_valid_example =
    current_keeps_last_valid same sum decode contents store none (some ([], none)) none (inl refl)

abbrev checks : Checks
checks = record {
  text = ascii;
  to_upper = λ s. s;
  parse_ip = λ s. none;
  split_host_port = λ s. none;
  cidr_text = λ s. none;
  parse_url = λ s. none;
  rfc3339 = λ s. true;
  digest_text = sum;
  valid_utf8 = λ s. true;
  has_control = λ s. false;
  regexp_compiles = λ s. true;
  matches_empty = λ s. false;
  rule_json = λ r. [];
  base64 = λ s. none;
  jq_compiles = λ s. false;
  script_compiles = λ s. false;
  json_string = λ s. none;
  json_bool = λ s. false;
  json_number = λ s. none;
  json_location = λ s. none;
  is_finite = λ x. true;
  float_less = λ x y. false;
  float_of = λ x. 0;
}

execution_order-once_example : occurrences (codes "ads") (codes "ads" ∷ []) ≡ 1
unfolding running
execution_order-once_example = execution_order-once (ads ∷ []) (codes "ads" ∷ []) refl (codes "ads")

validate_modules-agree_example :
    (table : List HostMapping) × All
      (λ m.
        m.enabled ≡ true → All (λ c. find_target c.pattern table ≡ some c.target) m.host_mappings)
      (ads ∷ [])
unfolding running
validate_modules-agree_example = validate_modules-agree checks (ads ∷ []) refl

active_intercept_host-any_owner_example :
    active_intercept_host ascii (document (ads ∷ [])) none (codes "b.org")
    ≡ (true && any_owner ascii (ads ∷ []) (codes "b.org"))
unfolding running
active_intercept_host-any_owner_example =
    active_intercept_host-any_owner checks (document (ads ∷ [])) none (codes "b.org") refl
      (inl refl)
