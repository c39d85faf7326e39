-- ===== src/Configuration/Validate.antt =====
-- The tests of hosts, names and targets that the validators of config.go share. A validator answers
-- whether it accepts: errors carry no text. `Checks` has what the libraries answer: `net`, `net/url`,
-- `regexp`, `encoding/json` and `base64`, `time`, `unicode`, goja and gojq, and the digest. A loop over
-- the runes of a text goes over its bytes where it refuses all that is not ASCII.
pub mod Routing
pub mod Settings
pub mod Actions
pub mod Documents
pub mod Order
pub mod Owned
pub mod Mappings
use mihomo_extension_sidecar.Common.{
  ℕ, suc, ◌+◌, ◌-◌, ◌*◌, ◌/◌, ◌==◌, ltb, leb, Bool, true, false, not, ◌&&◌, ◌||◌, List, [], ◌∷◌,
  ◌++◌, Option, some, none, Bytes, bytes_eq, codes, if◌then◌else◌, length, drop, ℤ, set_mem,
  bytes_lt,
}
use mihomo_extension_sidecar.Configuration.Types.{LocationValue, RoutingRule}
use mihomo_extension_sidecar.Hosts.Patterns.{
  HostText, normal, canonical_host, has_prefix, has_suffix, contains_byte, cut_wildcard,
  trim_wildcard,
}

-- What `net.ParseIP` and the methods of `net.IP` say of a text that is an address.
pub record IpFacts : Type 0 where
  pub is_v4 : Bool
  pub global_unicast : Bool
  pub private : Bool
  pub loopback : Bool
  pub link_local : Bool
  pub first : ℕ
  pub second : ℕ

pub record UrlFacts : Type 0 where
  pub scheme : Bytes
  pub hostname : Bytes
  pub has_user : Bool
  pub fragment : Bytes

pub record Checks : Type 0 where
  pub text : HostText
  pub to_upper : Bytes → Bytes
  pub parse_ip : Bytes → Option IpFacts
  pub split_host_port : Bytes → Option (Bytes × Bytes)
  pub cidr_text : Bytes → Option Bytes
  pub parse_url : Bytes → Option UrlFacts
  pub rfc3339 : Bytes → Bool
  pub digest_text : Bytes → Bytes
  pub valid_utf8 : Bytes → Bool
  pub has_control : Bytes → Bool
  pub regexp_compiles : Bytes → Bool
  pub matches_empty : Bytes → Bool
  pub rule_json : RoutingRule → Bytes
  pub base64 : Bytes → Option Bytes
  pub jq_compiles : Bytes → Bool
  pub script_compiles : Bytes → Bool
  pub json_string : Bytes → Option Bytes
  pub json_bool : Bytes → Bool
  pub json_number : Bytes → Option ℕ
  pub json_location : Bytes → Option LocationValue
  pub is_finite : ℕ → Bool
  pub float_less : ℕ → ℕ → Bool
  pub float_of : ℤ → ℕ

abbrev pub in_range : ℕ → ℕ → ℕ → Bool
in_range lo hi c = leb lo c && leb c hi

abbrev pub alnum : ℕ → Bool
alnum c = in_range b'a' b'z' c || in_range b'0' b'9' c

-- Every byte passes a test.
unfoldable pub every : (ℕ → Bool) → Bytes → Bool
every test [] = true
every test (c ∷ s) = test c && every test s

-- Every text passes a test.
unfoldable pub each : (Bytes → Bool) → List Bytes → Bool
each test [] = true
each test (x ∷ xs) = test x && each test xs

unfoldable pub first_is : (ℕ → Bool) → Bytes → Bool
first_is test [] = false
first_is test (c ∷ s) = test c

unfoldable pub last_is : (ℕ → Bool) → Bytes → Bool
last_is test [] = false
last_is test (c ∷ []) = test c
last_is test (c ∷ d ∷ s) = last_is test (d ∷ s)

-- `strings.Split` by one byte: the current part, and the ones behind it.
unfoldable pub split_on : ℕ → Bytes → Bytes × List Bytes
split_on sep [] = ([], [])
split_on sep (c ∷ s) =
    let (part, parts) = split_on sep s in if c == sep then ([], part ∷ parts) else (c ∷ part, parts)

abbrev pub split : ℕ → Bytes → List Bytes
split sep s = (split_on sep s).0 ∷ (split_on sep s).1

-- Whether an item stands twice, by the set of what was seen.
unfoldable pub has_duplicate : List Bytes → List Bytes → Bool
has_duplicate seen [] = false
has_duplicate seen (x ∷ xs) =
    let rest = has_duplicate (x ∷ seen) xs in if set_mem x seen then true else rest

-- `sort.StringsAreSorted`.
unfoldable pub strings_are_sorted : List Bytes → Bool
strings_are_sorted [] = true
strings_are_sorted (x ∷ []) = true
strings_are_sorted (x ∷ y ∷ xs) = not (bytes_lt y x) && strings_are_sorted (y ∷ xs)

unfoldable pub valid_label : Bytes → Bool
valid_label label =
    not (length label == 0)
    && leb (length label) 63
    && first_is (λ c. not (c == b'-')) label
    && last_is (λ c. not (c == b'-')) label
    && every (λ c. alnum c || c == b'-') label

-- The test of a pattern that is lowered and trimmed, without its "*.".
unfoldable pub valid_name : Bytes → Bool
unfolding valid_label
valid_name name =
    not (contains_byte name b'*')
    && leb (length name) 253
    && contains_byte name b'.'
    && each valid_label (split b'.' name)

unfoldable pub valid_setting_key : Bytes → Bool
valid_setting_key value =
    not (length value == 0)
    && leb (length value) 64
    && every (λ c. alnum c || in_range b'A' b'Z' c || c == b'_' || c == b'-' || c == b'.') value

-- `nativeExtensionIDPattern`: letters and digits at both ends, dots and dashes between.
unfoldable pub extension_id_pattern : Bytes → Bool
extension_id_pattern id =
    leb 3 (length id)
    && leb (length id) 128
    && first_is alnum id
    && last_is alnum id
    && every (λ c. alnum c || c == b'.' || c == b'-') id

unfoldable pub valid_module_id : Bytes → Bool
unfolding extension_id_pattern
valid_module_id id = leb 3 (length id) && leb (length id) 40 && extension_id_pattern id

unfoldable pub http_token_name : Bytes → Bool
http_token_name =
    every (λ c. ltb 32 c && ltb c 127 && not (contains_byte (codes ":()<>@,;\\\"/[]?={}") c))

module _ (k : Checks) where
  unfoldable pub valid_host_pattern : Bytes → Bool
  unfolding valid_name
  valid_host_pattern pattern = valid_name (trim_wildcard (normal k.text pattern))

  unfoldable pub host_target_address_allowed : IpFacts → Bool
  host_target_address_allowed ip =
      if not ip.global_unicast || ip.private || ip.loopback || ip.link_local
      then false
      else not (ip.is_v4 && ip.first == 100 && in_range 64 127 ip.second)

  -- `strings.LastIndex` of "@": what follows the last one, where it does not come first.
  unfoldable pub after_last : ℕ → Bytes → Option Bytes
  after_last sep [] = none
  after_last sep (c ∷ s) = elim (after_last sep s) [
    | some rest ↦ some rest
    | none ↦ if c == sep then some s else none
  ]

  -- `strings.Contains` of "://".
  unfoldable pub has_scheme : Bytes → Bool
  has_scheme [] = false
  has_scheme (c ∷ s) = has_prefix (c ∷ s) (codes "://") || has_scheme s

  -- Where the last "@" is not at the front, the dial address is what follows it.
  unfoldable pub pinned_suffix : Bytes → Option Bytes
  unfolding after_last
  pinned_suffix [] = none
  pinned_suffix (c ∷ s) = after_last b'@' s

  unfoldable pub host_target_server_dial_address : Bytes → Option Bytes
  unfolding pinned_suffix has_scheme
  host_target_server_dial_address spec =
      let bare : Bytes → Option Bytes = λ dial.
        if length dial == 0
        then none
        else elim (k.split_host_port dial) [ none ↦ some dial | some hp ↦ some hp.0 ] in
      elim (pinned_suffix spec) [
        | some dial ↦ bare dial
        | none ↦ if has_scheme spec then none else bare spec
      ]

  unfoldable pub valid_server : Bytes → Bool
  unfolding host_target_server_dial_address host_target_address_allowed
  valid_server part = elim (host_target_server_dial_address part) [
    | none ↦ false
    | some dial ↦ elim (k.parse_ip dial) [
      | none ↦ false
      | some ip ↦ ip.is_v4 && host_target_address_allowed ip
    ]
  ]

  -- The parts of the list that are not blank, trimmed.
  unfoldable pub server_parts : List Bytes → List Bytes
  server_parts [] = []
  server_parts (p ∷ parts) =
      let rest = server_parts parts in
      let part = k.text.trim_space p in if length part == 0 then rest else part ∷ rest

  unfoldable pub valid_host_target_servers : Bytes → Bool
  unfolding valid_server server_parts
  valid_host_target_servers rest =
      let parts = server_parts (split b',' rest) in
      not (length parts == 0) && leb (length parts) 4 && each valid_server parts

  unfoldable pub valid_host_target : Bytes → Bool
  unfolding valid_host_target_servers host_target_address_allowed valid_host_pattern
  valid_host_target raw =
      let lowered = normal k.text raw in
      if has_prefix lowered (codes "server:")
      then valid_host_target_servers (drop 7 lowered)
      else (let value = canonical_host k.text raw in
          elim (k.parse_ip value) [
            | some ip ↦ ip.is_v4 && host_target_address_allowed ip
            | none ↦
                not (has_prefix value (codes "*."))
                && not (bytes_eq value (codes "localhost"))
                && not (has_suffix value (codes ".local"))
                && valid_host_pattern value
          ])

  unfoldable pub valid_snapshot_url : Bytes → Bool
  valid_snapshot_url raw = elim (k.parse_url raw) [
    | none ↦ false
    | some u ↦
        bytes_eq u.scheme (codes "https")
        && not (length u.hostname == 0)
        && not u.has_user
        && length u.fragment == 0
  ]

  unfoldable pub validate_loopback_address : Bytes → Bool
  validate_loopback_address value = elim (k.split_host_port value) [
    | none ↦ false
    | some hp ↦ elim (k.parse_ip hp.0) [
      | none ↦ false
      | some ip ↦
          ip.is_v4 && ip.loopback && not (length hp.1 == 0) && not (bytes_eq hp.1 (codes "0"))
    ]
  ]
