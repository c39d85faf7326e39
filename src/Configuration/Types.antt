-- ===== src/Configuration/Types.antt =====
-- The structs of the configuration document (config.go, module_mock.go, module_rewrite.go). Raw JSON
-- and texts are byte strings, a `float64` is the number of its 64 bits, a nil pointer is `none`, and
-- a Go map is a list of its entries. The compiled programs and expressions that the source keeps in
-- unexported fields are left out.
use mihomo_extension_sidecar.Common.{ℕ, Bool, List, Option, Bytes, ℤ}

pub record ProxyConfig : Type 0 where
  pub address : Bytes
  pub username : Bytes
  pub password : Bytes

pub record MitmSettings : Type 0 where
  pub enabled : Bool
  pub http2 : Bool
  pub quic_fallback_protection : Bool

pub record ModuleSource : Type 0 where
  pub url : Bytes
  pub digest : Bytes
  pub body : Bytes

pub record ActionMatch : Type 0 where
  pub hosts : List Bytes
  pub schemes : List Bytes
  pub methods : List Bytes
  pub path_regex : Bytes
  pub status_codes : List ℤ

pub record ActionGate : Type 0 where
  pub key : Bytes
  pub equals : Bytes

pub record MockResponse : Type 0 where
  pub status : ℤ
  pub headers : List (Bytes × Bytes)
  pub body : Bytes
  pub base64_body : Bytes

pub record HeaderEdits : Type 0 where
  pub set_fields : List (Bytes × Bytes)
  pub remove : List Bytes

pub record UrlRewrite : Type 0 where
  pub pattern : Bytes
  pub to : Bytes
  pub status : ℤ

pub record BodyReplace : Type 0 where
  pub pattern : Bytes
  pub to : Bytes
  pub value_map : List (Bytes × List (Bytes × Bytes))

pub record ScriptRule : Type 0 where
  pub id : Bytes
  pub phase : Bytes
  pub matches : ActionMatch
  pub enabled_when : Option ActionGate
  pub script_url : Bytes
  pub script_digest : Bytes
  pub script_body : Bytes
  pub body_mode : Bytes
  pub entry : Bytes
  pub jq_program : Bytes
  pub reject : Bool
  pub mock : Option MockResponse
  pub headers : Option HeaderEdits
  pub rewrite : Option UrlRewrite
  pub replace_body : Option BodyReplace
  pub timeout_ms : ℤ
  pub max_body_bytes : ℤ

pub record LocationValue : Type 0 where
  pub longitude : Option ℕ
  pub latitude : Option ℕ
  pub accuracy : ℕ

pub record ModuleSetting : Type 0 where
  pub key : Bytes
  pub kind : Bytes
  pub label : Bytes
  pub description : Bytes
  pub required : Bool
  pub options : List Bytes
  pub min : Option ℕ
  pub max : Option ℕ
  pub default : Bytes
  pub value : Bytes

pub record HostMapping : Type 0 where
  pub pattern : Bytes
  pub target : Bytes

pub record RoutingRule : Type 0 where
  pub action : Bytes
  pub domain : Option Bytes
  pub domain_suffix : Option Bytes
  pub domain_keywords : Option (List Bytes)
  pub all_domain_keywords : Option (List Bytes)
  pub ip_cidr : Option Bytes
  pub network : Option Bytes
  pub destination_port : Option ℤ

-- `Module`.
pub record Extension : Type 0 where
  pub id : Bytes
  pub version : Bytes
  pub name : Bytes
  pub description : Bytes
  pub enabled : Bool
  pub imported_at : Bytes
  pub source : ModuleSource
  pub capture_hosts : List Bytes
  pub capture_dns : Bytes
  pub host_mappings : List HostMapping
  pub routing_rules : List RoutingRule
  pub settings : List ModuleSetting
  pub scripts : List ScriptRule
  pub persistent_storage : Bool
  pub network : Bool
  pub egress_group_required : Bool
  pub egress_group : Bytes

pub record Document : Type 0 where
  pub version : ℤ
  pub execution_order : Option (List Bytes)
  pub listen : Bytes
  pub username : Bytes
  pub password : Bytes
  pub tls_cert : Bytes
  pub tls_key : Bytes
  pub upstream_proxy : ProxyConfig
  pub mitm : MitmSettings
  pub modules : List Extension
