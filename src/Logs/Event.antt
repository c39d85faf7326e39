-- ===== src/Logs/Event.antt =====
-- `EngineLog`, `normalizeEngineLog`, `truncateEngineLogField` and `webSocketClosePayload` (engine_logs.go).
-- Parameters: `utf8.ValidString` and `strings.ToValidUTF8`, the cleaning of a URL by `net/url`, the
-- float64 of a duration with its tests, and the tests on names that the configuration provides.
pub mod Limits
use mihomo_extension_sidecar.Common.{
  ℕ, zero, suc, ◌+◌, ◌-◌, ◌/◌, ◌%◌, ◌==◌, ltb, leb, Bool, true, false, not, ◌&&◌, ◌||◌, List, [],
  ◌∷◌, ◌++◌, Option, some, none, Bytes, codes, bytes_eq, if◌then◌else◌, length, take, replicate,
}

abbrev hex_digit : ℕ → Bool
hex_digit c = (leb b'0' c && leb c b'9') || (leb b'a' c && leb c b'f')

abbrev all_hex : Bytes → Bool
all_hex [] = true
all_hex (c ∷ cs) = hex_digit c && all_hex cs

unfoldable pub valid_engine_log_digest : Bytes → Bool
valid_engine_log_digest value = length value == 64 && all_hex value

abbrev pub max_message_bytes : ℕ
max_message_bytes = 2048

abbrev dots : Bytes
dots = b'.' ∷ b'.' ∷ b'.' ∷ []

module _ (valid_utf8 : Bytes → Bool) (to_valid_utf8 : Bytes → Bytes) where
  -- The first `n` bytes, less the last ones until what is left is valid.
  unfoldable pub valid_prefix : ℕ → Bytes → Bytes
  valid_prefix zero value = []
  valid_prefix (suc n) value = elim (valid_utf8 (take (suc n) value)) [
    | true ↦ take (suc n) value
    | false ↦ valid_prefix n value
  ]

  abbrev pub cut_to : ℕ → Bytes → Bytes
  cut_to budget value =
      let clean = take budget (to_valid_utf8 (take budget value)) in
      valid_prefix (length clean) clean

  unfoldable pub truncate_engine_log_field : Bytes → ℕ → Bytes
  unfolding valid_prefix
  truncate_engine_log_field value limit =
      if limit == 0
      then []
      else if ltb limit (length value) && leb limit 3
      then replicate limit b'.'
      else if ltb limit (length value)
      then cut_to (limit - 3) value ++ dots
      else cut_to limit value

  -- `webSocketClosePayload` of a code of two bytes.
  unfoldable pub web_socket_close_payload : ℕ → Bytes → Bytes
  unfolding truncate_engine_log_field
  web_socket_close_payload code reason =
      code / 256 % 256 ∷ code % 256 ∷ truncate_engine_log_field reason 123

pub record EngineLog (Duration : Type 0) : Type 0 where
  pub time : Bytes
  pub level : Bytes
  pub source : Bytes
  pub extension : Bytes
  pub action : Bytes
  pub phase : Bytes
  pub url : Bytes
  pub duration_ms : Duration
  pub message : Bytes
  pub script_digest : Bytes

-- The tests and functions that an event is checked with.
pub record EventRules : Type 1 where
  pub Duration : Type 0
  pub unusable : Duration → Bool
  pub too_long : Duration → Bool
  pub five_minutes : Duration
  pub valid_module_id : Bytes → Bool
  pub valid_setting_key : Bytes → Bool
  pub sanitize_url : Bytes → Bytes
  pub valid_utf8 : Bytes → Bool
  pub to_valid_utf8 : Bytes → Bytes

abbrev is : Bytes → Bytes → Bool
is = bytes_eq

abbrev is_empty : Bytes → Bool
is_empty value = length value == 0

module _ (rules : EventRules) where
  open rules use {
    Duration, unusable, too_long, five_minutes, valid_module_id, valid_setting_key, sanitize_url,
    valid_utf8, to_valid_utf8,
  }

  -- The conditions under which `normalizeEngineLog` returns no error.
  unfoldable pub acceptable : EngineLog Duration → Bool
  unfolding bytes_eq valid_engine_log_digest
  acceptable event =
      (is event.level (codes "info")
        || is event.level (codes "warn")
        || is event.level (codes "error"))
      && (is event.source (codes "script") || is event.source (codes "engine"))
      && (is_empty event.extension || valid_module_id event.extension)
      && (is_empty event.action || valid_setting_key event.action)
      && not
          (is event.source (codes "script") && (is_empty event.extension || is_empty event.action))
      && (is_empty event.phase
          || is event.phase (codes "request")
          || is event.phase (codes "response"))
      && (is_empty event.script_digest || valid_engine_log_digest event.script_digest)
      && not (unusable event.duration_ms)

  -- `normalizeEngineLog` at a time that is already printed.
  unfoldable pub normalize_engine_log : EngineLog Duration → Bytes → Option (EngineLog Duration)
  unfolding acceptable truncate_engine_log_field
  normalize_engine_log event now =
      if acceptable event
      then some (record event {
        duration_ms = if too_long event.duration_ms then five_minutes else event.duration_ms;
        time = now;
        url = sanitize_url event.url;
        message =
            truncate_engine_log_field valid_utf8 to_valid_utf8 event.message max_message_bytes;
      })
      else none
