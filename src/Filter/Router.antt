-- ===== src/Filter/Router.antt =====
-- interceptor/filter/provider_router.py: `ProviderRouter`. Hosts and paths are texts. Whether a pattern
-- matches at the start of a text, which is Python's `re`, the split of a URL and the white space that
-- `strip` takes off are parameters; `str_int` is the decimal form of a number.
pub mod Matching
use ctxins.Base.{
  ℕ, ◌≡◌, Bool, true, false, not, ◌&&◌, List, [], ◌∷◌, ◌++◌, Option, none, some, String, leb,
  length, drop, ◌-◌, if◌then◌else◌,
}
use ctxins.Wire.{Provider, anthropic, openai, gemini, azure_openai, openrouter, ollama, unknown}
use ctxins.Schema.Invocations.{starts_with, occurs_in}
use ctxins.Stream.Sse.{Text, codes, partition, text_eq}

pub record Route : Type 0 where
  pub host_regex : String
  pub path_regex : String
  pub provider : Provider

abbrev route : String → String → Provider → Route
route host path provider = record { host_regex = host; path_regex = path; provider = provider }

abbrev local_host : String
local_host = "^(localhost|127\\.0\\.0\\.1)(:\\d+)?$"

-- The table of routes, in the order in which they are tried.
unfoldable pub routes : List Route
routes =
    route "^([a-zA-Z0-9_.-]+\\.)?anthropic\\.com(:443)?$" "^/v1/messages(?=[/?#]|$)" anthropic
    ∷ route "^([a-zA-Z0-9_.-]+\\.)?openai\\.com(:443)?$"
        "^/v1/(chat/completions|responses|completions)(?=[/?#]|$)" openai
    ∷ route "^([a-zA-Z0-9_.-]+\\.)?(googleapis\\.com|google\\.com)(:443)?$"
        "^/.*[:/](generateContent|streamGenerateContent|bidiGenerateContent|generateChat|streamGenerateChat|internalAtomicAgenticChat|tabChat|generateCode|completeCode|predict|serverStreamingPredict|streamRawPredict|rawPredict)(?=[/?#]|$)"
        gemini
    ∷ route "^([a-zA-Z0-9_.-]+\\.)?googleapis\\.com(:443)?$" "^/.*v1.*/chat/completions(?=[/?#]|$)"
        gemini
    ∷ route "^.*\\.openai\\.azure\\.com(:443)?$"
        "^/openai/deployments/.*/chat/completions(?=[/?#]|$)" azure_openai
    ∷ route "^openrouter\\.ai(:443)?$" "^/api/v1/chat/completions(?=[/?#]|$)" openrouter
    ∷ route "^(localhost|127\\.0\\.0\\.1)(:11434)?$"
        "^/(api/chat|api/generate|v1/chat/completions)(?=[/?#]|$)" ollama
    ∷ route local_host "^/v1/messages(?=[/?#]|$)" anthropic
    ∷ route local_host "^/v1/(chat/completions|responses|completions)(?=[/?#]|$)" openai
    ∷ route local_host
        "^/.*[:/](generateContent|streamGenerateContent|bidiGenerateContent|predict)(?=[/?#]|$)"
        gemini
    ∷ route local_host "^/(api/chat|api/generate)(?=[/?#]|$)" ollama
    ∷ []

module _ (strip netloc : Text → Text) (str_int : ℕ → Text) where
  -- `if port is not None and ":" not in host_str`
  unfoldable pub with_port : Text → Option ℕ → Text
  with_port host none = host
  with_port host (some port) =
      if occurs_in (codes ":") host then host else host ++ codes ":" ++ str_int port

  unfoldable pub normalize_host : Text → Option ℕ → Text
  normalize_host host port =
      let host_str = strip host in
      with_port (if occurs_in (codes "://") host_str then netloc host_str else host_str) port

-- `s.endswith(suffix)`
unfoldable pub ends_with : Text → Text → Bool
ends_with suffix s =
    leb (length suffix) (length s) && text_eq (drop (length s - length suffix) s) suffix

-- `host.split(":", 1)[0]`
unfoldable pub host_without_port : Text → Text
host_without_port host = (partition host).0

-- What a loop returns, or what comes after it.
abbrev pub return_or : Option Provider → Bool × Provider → Bool × Provider
return_or none later = later
return_or (some p) later = (true, p)

module _ (re_match : String → Text → Bool) where
  unfoldable pub accepts : Text → Text → Route → Bool
  accepts host path r = re_match r.host_regex host && re_match r.path_regex path

  -- The loop over the routes.
  unfoldable pub first_match : Text → Text → List Route → Option Provider
  first_match host path [] = none
  first_match host path (r ∷ rs) =
      if accepts host path r then some r.provider else first_match host path rs

  -- The attempt without the port.
  unfoldable pub retry_without_port : Text → Text → Bool × Provider
  retry_without_port host path =
      if occurs_in (codes ":") host && not (ends_with (codes ":11434") host)
      then return_or (first_match (host_without_port host) path routes) (false, unknown)
      else (false, unknown)

  unfoldable pub match_on : Text → Text → Bool × Provider
  match_on host path = return_or (first_match host path routes) (retry_without_port host path)

module _ (strip netloc : Text → Text) (str_int : ℕ → Text) (re_match : String → Text → Bool) where
  unfoldable pub match_request : Text → Text → Option ℕ → Bool × Provider
  match_request host path port =
      match_on re_match (normalize_host strip netloc str_int host port) (strip path)

  unfoldable pub is_llm_request : Text → Text → Option ℕ → Bool
  is_llm_request host path port = (match_request host path port).0
