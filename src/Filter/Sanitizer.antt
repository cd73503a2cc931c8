-- ===== src/Filter/Sanitizer.antt =====
-- interceptor/filter/sanitizer.py: `PayloadSanitizer` and `HeaderSanitizer`. A payload is a JSON value, so
-- that its keys are texts, and there are no tuples; a header's value is none or its text. `str.lower` and
-- the search of the compiled pattern, which belong to Python's tables and its `re`, are parameters.
pub mod Clean
pub mod Unchanged
pub mod Headers
use ctxins.Base.{
  ◌≡◌, Bool, true, false, List, [], ◌∷◌, Option, none, some, String, contains, string_eq,
  if◌then◌else◌,
}
use ctxins.Base.Dict.{Dict, insert}
use ctxins.Json.{
  Json, null, bool, number, str, arr, obj, Elems, nil, item, Props, end, prop, set_prop,
}

abbrev pub redacted : String
redacted = "[REDACTED]"

abbrev pub sensitive_headers_default : List String
sensitive_headers_default =
    "authorization" ∷ "x-api-key" ∷ "api-key" ∷ "proxy-authorization" ∷ "cookie" ∷ "set-cookie" ∷ []

abbrev pub excluded_payload_keys : List String
excluded_payload_keys =
    "max_tokens" ∷ "input_tokens" ∷ "output_tokens" ∷ "prompt_tokens" ∷ "completion_tokens"
    ∷ "total_tokens" ∷ "reasoning_tokens" ∷ "cache_creation_input_tokens"
    ∷ "cache_read_input_tokens" ∷ "tokens" ∷ "token_count" ∷ "token_usage" ∷ []

pub record PayloadSanitizer : Type 0 where
  -- `bool(self.key_pattern.search(key))`
  pub key_pattern : String → Bool
  pub excluded_keys : List String
  pub redaction_string : String

pub record HeaderSanitizer : Type 0 where
  pub sensitive_headers : List String
  pub redaction_string : String
  pub payload_sanitizer : PayloadSanitizer

-- The arguments left out: the catalogue of keys, and the pattern of the module.
unfoldable pub default_payload_sanitizer : (String → Bool) → PayloadSanitizer
default_payload_sanitizer pattern = record {
  key_pattern = pattern;
  excluded_keys = excluded_payload_keys;
  redaction_string = redacted;
}

unfoldable pub default_header_sanitizer : (String → Bool) → HeaderSanitizer
default_header_sanitizer pattern = record {
  sensitive_headers = sensitive_headers_default;
  redaction_string = redacted;
  payload_sanitizer = default_payload_sanitizer pattern;
}

module _ (lower : String → String) where
  unfoldable pub is_sensitive_key : PayloadSanitizer → String → Bool
  is_sensitive_key s key = if contains (lower key) s.excluded_keys then false else s.key_pattern key

  -- What the loop over an object stores under a key whose value is sanitized to `inner`.
  unfoldable pub entry_value : PayloadSanitizer → String → Json → Json
  entry_value s k inner = if is_sensitive_key s k then str s.redaction_string else inner

  unfoldable mutual
    pub sanitize : PayloadSanitizer → Json → Json
    sanitize s (obj ps) = obj (sanitize_entries s end ps)
    sanitize s (arr vs) = arr (sanitize_items s vs)
    sanitize s v = v

    pub sanitize_items : PayloadSanitizer → Elems → Elems
    sanitize_items s nil = nil
    sanitize_items s (item v vs) = item (sanitize s v) (sanitize_items s vs)

    -- The loop over `payload.items()`, which fills `sanitized_dict`.
    pub sanitize_entries : PayloadSanitizer → Props → Props → Props
    sanitize_entries s sanitized end = sanitized
    sanitize_entries s sanitized (prop k v ps) =
        sanitize_entries s (set_prop k (entry_value s k (sanitize s v)) sanitized) ps

  unfoldable pub sanitize_payload : (String → Bool) → Json → Json
  sanitize_payload pattern payload = sanitize (default_payload_sanitizer pattern) payload

  -- `str(value) if value is not None else ""`
  unfoldable pub header_value : HeaderSanitizer → String → Option String → String
  header_value s key value =
      if contains (lower key) s.sensitive_headers
      then s.redaction_string
      else elim value [ none ↦ "" | some v ↦ v ]

  unfoldable pub sanitize_from :
      HeaderSanitizer → Dict String String → Dict String (Option String) → Dict String String
  sanitize_from s sanitized [] = sanitized
  sanitize_from s sanitized ((key, value) ∷ headers) =
      sanitize_from s (insert key (header_value s key value) sanitized) headers

  unfoldable pub sanitize_headers :
      HeaderSanitizer → Dict String (Option String) → Dict String String
  sanitize_headers s headers = sanitize_from s [] headers
