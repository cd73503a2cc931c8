-- ===== src/Filter/Router/Matching.antt =====
-- interceptor/filter/provider_router.py: which route a request takes.
use ctxins.Base.{
  ℕ, ◌≡◌, refl, sym, Bool, true, false, not, ◌&&◌, List, [], ◌∷◌, ◌++◌, Option, none, some, String,
  map, first, if◌then◌else◌, Bool-cases, inl, inr, ap, All,
}
use ctxins.Wire.{Provider, unknown}
use ctxins.Schema.Invocations.{occurs_in}
use ctxins.Stream.Sse.{Text, codes}
use ctxins.Filter.Router.{
  Route, routes, normalize_host, ends_with, host_without_port, accepts, first_match,
  retry_without_port, match_on, match_request, return_or, is_llm_request,
}

-- The hosts that are tried: the normalized one, and it without its port unless that is Ollama's.
abbrev pub hosts_tried : Text → List Text
hosts_tried host =
    if occurs_in (codes ":") host && not (ends_with (codes ":11434") host)
    then host ∷ host_without_port host ∷ []
    else host ∷ []

-- Every host with every route, the hosts outermost.
abbrev pub attempts : List Text → List (Text × Route)
attempts [] = []
attempts (h ∷ hs) = map (λ (r : Route). (h, r)) routes ++ attempts hs

abbrev pub answer : Option (Text × Route) → Bool × Provider
answer none = (false, unknown)
answer (some (h, r)) = (true, r.provider)

abbrev pub is_known : Provider → Bool
is_known unknown = false
is_known _ = true

-- The flag tells whether the provider is known.
abbrev pub IsPaired : Bool × Provider → Type 0
IsPaired a = a.0 ≡ is_known a.1

routes-known : All (λ (r : Route). is_known r.provider ≡ true) routes
unfolding routes
routes-known =
    (refl, (refl, (refl, (refl, (refl, (refl, (refl, (refl, (refl, (refl, (refl, tt)))))))))))

module _ (re_match : String → Text → Bool) where
  abbrev pub takes : Text → Text × Route → Bool
  takes path (h, r) = accepts re_match h path r

  first_match-first :
      (h path : Text) (rs : List Route) (later : List (Text × Route))
      → answer (first (takes path) (map (λ (r : Route). (h, r)) rs ++ later))
        ≡ return_or (first_match re_match h path rs) (answer (first (takes path) later))
  unfolding first_match
  first_match-first h path [] later = refl
  first_match-first h path (r ∷ rs) later = elim (Bool-cases (accepts re_match h path r)) [
    | inl hit ↦ rw hit
    | inr miss ↦ rw miss (first_match-first h path rs later)
  ]

  match_on-first :
      (h path : Text)
      → match_on re_match h path ≡ answer (first (takes path) (attempts (hosts_tried h)))
  unfolding match_on retry_without_port
  match_on-first h path =
      elim (Bool-cases (occurs_in (codes ":") h && not (ends_with (codes ":11434") h))) [
        | inl ported ↦
            rw (ported, first_match-first h path routes)
              (ap (return_or (first_match re_match h path routes))
                (sym (first_match-first (host_without_port h) path routes [])))
        | inr plain ↦ rw (plain, first_match-first h path routes)
      ]

  return_or-IsPaired :
      (h path : Text) (rs : List Route) (later : Bool × Provider)
      → All (λ (r : Route). is_known r.provider ≡ true) rs
      → IsPaired later
      → IsPaired (return_or (first_match re_match h path rs) later)
  unfolding first_match
  return_or-IsPaired h path [] later known paired = paired
  return_or-IsPaired h path (r ∷ rs) later known paired =
      elim (Bool-cases (accepts re_match h path r)) [
        | inl hit ↦ rw (hit, known.0)
        | inr miss ↦ rw miss (return_or-IsPaired h path rs later known.1 paired)
      ]

  match_on-IsPaired : (h path : Text) → IsPaired (match_on re_match h path)
  unfolding match_on retry_without_port
  match_on-IsPaired h path =
      return_or-IsPaired h path routes (retry_without_port re_match h path) routes-known
        (elim (Bool-cases (occurs_in (codes ":") h && not (ends_with (codes ":11434") h))) [
          | inl ported ↦ rw ported (
              return_or-IsPaired (host_without_port h) path routes (false, unknown) routes-known
                refl)
          | inr plain ↦ rw plain
        ])

module _ (strip netloc : Text → Text) (str_int : ℕ → Text) (re_match : String → Text → Bool) where
  pub match_request-first :
      (host path : Text) (port : Option ℕ)
      → match_request strip netloc str_int re_match host path port
        ≡ answer (
            first
              (takes re_match (strip path))
              (attempts (hosts_tried (normalize_host strip netloc str_int host port))))
  unfolding match_request
  match_request-first host path port =
      match_on-first re_match (normalize_host strip netloc str_int host port) (strip path)

  -- A request counts as one to a language model exactly if the provider found for it is a known one.
  pub is_llm_request-is_known :
      (host path : Text) (port : Option ℕ)
      → is_llm_request strip netloc str_int re_match host path port
        ≡ is_known (match_request strip netloc str_int re_match host path port).1
  unfolding is_llm_request match_request
  is_llm_request-is_known host path port =
      match_on-IsPaired re_match (normalize_host strip netloc str_int host port) (strip path)
