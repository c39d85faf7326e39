-- ===== src/Configuration/Validate/Routing.antt =====
-- The validator of routing rules (validateRoutingRules and validCanonicalRoutingDomain in config.go).
use mihomo_extension_sidecar.Common.{
  ℕ, ◌+◌, ◌==◌, ltb, leb, Bool, true, false, not, ◌&&◌, ◌||◌, List, [], ◌∷◌, ◌++◌, Option, some,
  none, Bytes, bytes_eq, codes, length, ℤ, pos, lt_int, set_mem,
}
use mihomo_extension_sidecar.Configuration.Types.{RoutingRule}
use mihomo_extension_sidecar.Hosts.Patterns.{normal, has_suffix}
use mihomo_extension_sidecar.Configuration.Validate.{
  Checks, alnum, in_range, every, each, first_is, last_is, split, has_duplicate, strings_are_sorted,
}

abbrev pub max_module_routing_rules : ℕ
max_module_routing_rules = 256

abbrev pub max_module_route_keywords : ℕ
max_module_route_keywords = 8

-- A label of `canonicalRoutingDomainPattern`, and its last label.
unfoldable pub routing_label : Bytes → Bool
routing_label label =
    leb 1 (length label)
    && leb (length label) 63
    && first_is alnum label
    && last_is alnum label
    && every (λ c. alnum c || c == b'-') label

unfoldable pub routing_top_label : Bytes → Bool
routing_top_label label =
    leb 2 (length label) && leb (length label) 63 && every (in_range b'a' b'z') label

-- At least one label before the last.
unfoldable pub routing_labels : List Bytes → Bool
unfolding routing_label routing_top_label
routing_labels [] = false
routing_labels (x ∷ []) = false
routing_labels (x ∷ y ∷ []) = routing_label x && routing_top_label y
routing_labels (x ∷ y ∷ z ∷ rest) = routing_label x && routing_labels (y ∷ z ∷ rest)

module _ (k : Checks) where
  unfoldable pub valid_canonical_routing_domain : Bytes → Bool
  unfolding routing_labels
  valid_canonical_routing_domain value =
      leb 1 (length value)
      && leb (length value) 253
      && bytes_eq value (k.text.trim_space value)
      && bytes_eq value (k.text.to_lower value)
      && not (has_suffix value (codes "."))
      && routing_labels (split b'.' value)

  unfoldable pub valid_domain_field : Option Bytes → Bool
  unfolding valid_canonical_routing_domain
  valid_domain_field none = true
  valid_domain_field (some d) = valid_canonical_routing_domain d

  unfoldable pub valid_cidr_field : Option Bytes → Bool
  valid_cidr_field none = true
  valid_cidr_field (some c) = elim (k.cidr_text c) [
    | none ↦ false
    | some printed ↦ not (length c == 0) && bytes_eq printed c
  ]

  -- The test of one keyword, but for duplicates.
  unfoldable pub safe_keyword : Bytes → Bool
  safe_keyword w =
      not (length w == 0)
      && leb (length w) 64
      && bytes_eq w (normal k.text w)
      && every (λ c. alnum c || c == b'.' || c == b'_' || c == b'-') w

  abbrev pub is_declared : {A : Type 0} → Option A → ℕ
  is_declared none = 0
  is_declared (some a) = 1

  abbrev pub words : Option (List Bytes) → List Bytes
  words none = []
  words (some ws) = ws

  -- Declared keywords are not an empty list.
  abbrev pub not_declared_empty : Option (List Bytes) → Bool
  not_declared_empty none = true
  not_declared_empty (some ws) = not (length ws == 0)

  -- Which selectors a rule may combine.
  unfoldable pub valid_selectors : RoutingRule → Bool
  valid_selectors rule =
      let primary =
        is_declared rule.domain + is_declared rule.domain_suffix + is_declared rule.ip_cidr in
      let keywords = length (words rule.domain_keywords) in
      let all_keywords = length (words rule.all_domain_keywords) in
      not (
        ltb 1 primary
        || (primary == 0 && keywords == 0 && all_keywords == 0)
        || (is_declared rule.ip_cidr == 1 && (ltb 0 keywords || ltb 0 all_keywords)))

  unfoldable pub valid_network : Option Bytes → Bool
  valid_network none = true
  valid_network (some n) = bytes_eq n (codes "tcp") || bytes_eq n (codes "udp")

  unfoldable pub valid_destination_port : Option ℤ → Bool
  valid_destination_port none = true
  valid_destination_port (some p) = not (lt_int p (pos 1) || lt_int (pos 65535) p)

  -- The body of the loop, but for the duplicate rules.
  unfoldable pub valid_routing_rule : RoutingRule → Bool
  unfolding valid_domain_field valid_cidr_field safe_keyword valid_selectors valid_network
      valid_destination_port
  valid_routing_rule rule =
      let keywords = words rule.domain_keywords in
      let all_keywords = words rule.all_domain_keywords in
      (bytes_eq rule.action (codes "reject") || bytes_eq rule.action (codes "direct"))
      && valid_domain_field rule.domain
      && valid_domain_field rule.domain_suffix
      && valid_cidr_field rule.ip_cidr
      && not_declared_empty rule.domain_keywords
      && not_declared_empty rule.all_domain_keywords
      && valid_selectors rule
      && leb (length keywords) max_module_route_keywords
      && strings_are_sorted keywords
      && not (length keywords == 1)
      && each safe_keyword keywords
      && leb (length all_keywords) max_module_route_keywords
      && strings_are_sorted all_keywords
      && each safe_keyword all_keywords
      && not (has_duplicate [] (keywords ++ all_keywords))
      && valid_network rule.network
      && valid_destination_port rule.destination_port

  -- The loop over the rules, with the JSON of the rules that were seen.
  unfoldable pub valid_rules_loop : List Bytes → List RoutingRule → Bool
  unfolding valid_routing_rule
  valid_rules_loop seen [] = true
  valid_rules_loop seen (rule ∷ rules) =
      let body = k.rule_json rule in
      valid_routing_rule rule && not (set_mem body seen) && valid_rules_loop (body ∷ seen) rules

  unfoldable pub validate_routing_rules : List RoutingRule → Bool
  unfolding valid_rules_loop
  validate_routing_rules rules =
      leb (length rules) max_module_routing_rules && valid_rules_loop [] rules
