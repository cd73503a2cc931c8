-- ===== src/Filter/Tests.antt =====
-- The filter at concrete requests.
use ctxins.Base.{
  ℕ, ◌≡◌, refl, Bool, ◌&&◌, ◌||◌, [], ◌∷◌, Option, none, some, String, ◌=?◌, string_eq, contains,
  first, if◌then◌else◌,
}
use ctxins.Base.Dict.{Dict, get, has}
use ctxins.Json.{
  Json, number, str, arr, obj, nil, item, Props, end, prop, lookup, has_prop, set_prop,
}
use ctxins.Stream.Sse.{Text, codes, text_eq}
use ctxins.Filter.Sanitizer.{
  PayloadSanitizer, default_payload_sanitizer, default_header_sanitizer, sanitize, sanitize_entries,
  is_sensitive_key, entry_value, sanitize_headers,
}
use ctxins.Filter.Sanitizer.Clean.{Clean, DistinctEntries, sanitize-Clean}
use ctxins.Filter.Sanitizer.Unchanged.{seen_under, sanitize-idempotent, sanitize-lookup}
use ctxins.Filter.Sanitizer.Headers.{DistinctHeaders, shown, sanitize_headers-get}
use ctxins.Filter.Router.{normalize_host, match_request, is_llm_request}
use ctxins.Filter.Router.Matching.{
  hosts_tried, attempts, answer, takes, is_known, match_request-first, is_llm_request-is_known,
}

-- A pattern and a lower-casing that suffice for the payload below.
abbrev pattern : String → Bool
pattern k = contains k ("api_key" ∷ "token" ∷ "max_tokens" ∷ [])

abbrev lower : String → String
lower k = if k =? "Cookie" then "cookie" else k

abbrev payload_sanitizer : PayloadSanitizer
payload_sanitizer = default_payload_sanitizer pattern

abbrev inner : Props
inner = prop "token" (number 7) (prop "max_tokens" (number 512) end)

abbrev payload : Json
payload = obj (prop "api_key" (str "sk-1") (prop "items" (arr (item (obj inner) nil)) end))

sanitize_test :
    sanitize lower payload_sanitizer payload
    ≡ obj (
        prop "api_key" (str "[REDACTED]") (
          prop "items"
            (arr (
              item
                (obj (prop "token" (str "[REDACTED]") (prop "max_tokens" (number 512) end)))
                nil))
            end))
unfolding default_payload_sanitizer
sanitize_test = unfold sanitize set_prop is_sensitive_key entry_value in refl

sanitize-Clean_example : Clean lower payload_sanitizer (sanitize lower payload_sanitizer payload)
sanitize-Clean_example = sanitize-Clean lower payload_sanitizer payload

sanitize-idempotent_example :
    sanitize lower payload_sanitizer (sanitize lower payload_sanitizer payload)
    ≡ sanitize lower payload_sanitizer payload
sanitize-idempotent_example = sanitize-idempotent lower payload_sanitizer payload

sanitize-lookup_example :
    lookup "token" (sanitize_entries lower payload_sanitizer end inner)
    ≡ seen_under lower payload_sanitizer "token" (lookup "token" inner)
unfolding DistinctEntries has_prop
sanitize-lookup_example =
    sanitize-lookup lower payload_sanitizer "token" inner (refl, tt, (refl, tt, tt))

abbrev headers : Dict String (Option String)
headers = ("Cookie", some "abc") ∷ ("Host", none) ∷ []

sanitize_headers-get_test :
    get "Cookie" (sanitize_headers lower (default_header_sanitizer pattern) headers)
    ≡ shown lower (default_header_sanitizer pattern) "Cookie" none (get "Cookie" headers)
unfolding DistinctHeaders has
sanitize_headers-get_test =
    sanitize_headers-get lower (default_header_sanitizer pattern) "Cookie" headers
      (refl, (refl, tt))

-- Two of the patterns, each with the one text below that it matches.
abbrev re_match : String → Text → Bool
re_match p t =
    (p =? "^openrouter\\.ai(:443)?$" && text_eq t (codes "openrouter.ai"))
    || (p =? "^/api/v1/chat/completions(?=[/?#]|$)" && text_eq t (codes "/api/v1/chat/completions"))

abbrev plain_text : Text → Text
plain_text t = t

abbrev no_digits : ℕ → Text
no_digits n = codes "80"

match_request-first_example :
    match_request plain_text plain_text no_digits re_match
      (codes "openrouter.ai:80")
      (codes "/api/v1/chat/completions")
      none
    ≡ answer (
        first (takes re_match (codes "/api/v1/chat/completions")) (
          attempts (
            hosts_tried
              (normalize_host plain_text plain_text no_digits (codes "openrouter.ai:80") none))))
match_request-first_example =
    match_request-first plain_text plain_text no_digits re_match (codes "openrouter.ai:80")
      (codes "/api/v1/chat/completions") none

is_llm_request-is_known_test :
    is_llm_request plain_text plain_text no_digits re_match
      (codes "openrouter.ai:80")
      (codes "/api/v1/chat/completions")
      none
    ≡ is_known
        (match_request plain_text plain_text no_digits re_match
          (codes "openrouter.ai:80")
          (codes "/api/v1/chat/completions")
          none).1
is_llm_request-is_known_test =
    is_llm_request-is_known plain_text plain_text no_digits re_match (codes "openrouter.ai:80")
      (codes "/api/v1/chat/completions") none
