-- ===== src/Analyzer/Scorer/Totals.antt =====
-- core/analyzer/scorer.py: the totals of a summary.
use ctxins.Base.{
  ℕ, ◌+◌, ◌*◌, ◌≤◌, ◌<◌, suc, ◌≢◌, ◌≡◌, refl, ap, sym, subst, ◌∙◌, Bool, true, false, List, [], ◌∷◌,
  Option, none, some, String, arith, length, last, ltb, if◌then◌else◌, if-keeps, All, Bool-cases,
  inl, inr, ◌=?◌, string_eq,
}
use ctxins.Base.Dict.{Dict, get, get-insert}
use ctxins.Base.Rounding.{round_div-monotone, round_div-exact}
use ctxins.Schema.{ViolationSeverity, info, warn, critical, RuleViolation, CanonicalTurn}
use ctxins.Stream.Sse.{Text}
use ctxins.Analyzer.Scorer.{
  severity_value, all_violations, count_in, count_severities, no_counts, Summary, empty_summary,
  ratio_of, total_of, summary_with, summary_from, calculate_summary,
}

abbrev same_severity : ViolationSeverity → ViolationSeverity → Bool
same_severity info info = true
same_severity warn warn = true
same_severity critical critical = true
same_severity _ _ = false

-- The number of violations of a severity.
abbrev pub number_of : ViolationSeverity → List RuleViolation → ℕ
number_of s [] = 0
number_of s (v ∷ vs) =
    let rest = number_of s vs in if same_severity v.severity s then rest + 1 else rest

severity_value-same :
    (s t : ViolationSeverity) → (severity_value s =? severity_value t) ≡ same_severity s t
unfolding severity_value
severity_value-same info info = refl
severity_value-same info warn = refl
severity_value-same info critical = refl
severity_value-same warn info = refl
severity_value-same warn warn = refl
severity_value-same warn critical = refl
severity_value-same critical info = refl
severity_value-same critical warn = refl
severity_value-same critical critical = refl

same_severity-eq : (s t : ViolationSeverity) → same_severity s t ≡ true → s ≡ t
same_severity-eq info info h = refl
same_severity-eq warn warn h = refl
same_severity-eq critical critical h = refl
same_severity-eq _ _ h = cc

-- A violation counts under its own severity only.
get-count_in :
    (s t : ViolationSeverity) (counts : Dict String ℕ) (n : ℕ)
    → get (severity_value s) counts ≡ some n
    → get (severity_value s) (count_in (severity_value t) counts)
      ≡ some (if same_severity t s then n + 1 else n)
unfolding count_in
get-count_in s t counts n h = elim (Bool-cases (same_severity t s)) [
  | inl same ↦
      let e : t ≡ s = same_severity-eq t s same in
      rw (get-insert, severity_value-same, same) (rw (e, h))
  | inr other ↦ rw (get-insert, severity_value-same, other) h
]

get-count_severities :
    (s : ViolationSeverity) (vs : List RuleViolation) (counts : Dict String ℕ) (n : ℕ)
    → get (severity_value s) counts ≡ some n
    → get (severity_value s) (count_severities counts vs) ≡ some (n + number_of s vs)
unfolding count_severities
get-count_severities s [] counts n h = rw h (ground arith)
get-count_severities s (v ∷ vs) counts n h =
    rw
      (get-count_severities s vs (count_in (severity_value v.severity) counts) _
        (get-count_in s v.severity counts n h))
      (ground arith)

no_counts-get : (s : ViolationSeverity) → get (severity_value s) no_counts ≡ some 0
unfolding severity_value get
no_counts-get info = refl
no_counts-get warn = refl
no_counts-get critical = refl

get-no_counts :
    (s : ViolationSeverity) (vs : List RuleViolation)
    → get (severity_value s) (count_severities no_counts vs) ≡ some (number_of s vs)
get-no_counts s vs = get-count_severities s vs no_counts 0 (no_counts-get s) ∙ ap some (omega arith)

number_of-step :
    (s : ViolationSeverity) (i w c n : ℕ)
    → i + w + c ≡ n
    → (if same_severity s info then i + 1 else i)
        + (if same_severity s warn then w + 1 else w)
        + (if same_severity s critical then c + 1 else c)
      ≡ suc n
number_of-step info i w c n h = omega arith
number_of-step warn i w c n h = omega arith
number_of-step critical i w c n h = omega arith

number_of-total :
    (vs : List RuleViolation)
    → number_of info vs + number_of warn vs + number_of critical vs ≡ length vs
number_of-total [] = refl
number_of-total (v ∷ vs) = number_of-step v.severity _ _ _ _ (number_of-total vs)

cons-nil : {t : CanonicalTurn} {ts : List CanonicalTurn} → t ∷ ts ≢ []
cons-nil e = cc

last-none : (turns : List CanonicalTurn) → last turns ≡ none → turns ≡ []
last-none [] h = refl
last-none (t ∷ []) h = cc
last-none (t ∷ u ∷ turns) h = absurd (cons-nil (last-none (u ∷ turns) h))

ratio_of-bound : (part whole : ℕ) → part ≤ whole → ratio_of part whole ≤ 10_000
unfolding ratio_of
ratio_of-bound part whole h =
    if-keeps (λ n. n ≤ 10_000) (ltb 0 whole)
      (λ e.
        let pos : 0 < whole = ground arith in
        let swapped : part * 10_000 ≤ 10_000 * whole = omega arith in
        omega (
          arith,
          round_div-monotone (part * 10_000) (10_000 * whole) whole pos swapped,
          round_div-exact 10_000 whole pos,
        ))
      (λ _. omega arith)

cached_within :
    (turns : List CanonicalTurn)
    → All (λ (t : CanonicalTurn). t.cached_read_tokens ≤ t.input_tokens) turns
    → total_of (λ (t : CanonicalTurn). t.cached_read_tokens) turns
      ≤ total_of (λ (t : CanonicalTurn). t.input_tokens) turns
cached_within [] h = omega arith
cached_within (t ∷ turns) h = omega (arith, cached_within turns h.1, h.0)

-- What a summary says of the violations, and what they are.
abbrev CountsWell : Summary → List RuleViolation → Type 0
CountsWell s vs =
    (s.violations_by_severity ≡ count_severities no_counts vs)
    × (s.active_violations_count ≡ length vs)

module _ (strip lower : Text → Text) where
  summary_from-CountsWell :
      (turns : List CanonicalTurn) (o : Option CanonicalTurn)
      → last turns ≡ o
      → CountsWell (summary_from strip lower turns o) (all_violations turns)
  unfolding summary_from summary_with empty_summary
  summary_from-CountsWell turns none e =
      subst (λ ts. CountsWell empty_summary (all_violations ts)) (sym (last-none turns e))
        (unfold all_violations count_severities in (refl, refl))
  summary_from-CountsWell turns (some t) e = (refl, refl)

  -- A summary counts every violation of its turns once, under its severity.
  pub calculate_summary-severities :
      (turns : List CanonicalTurn)
      → let s = calculate_summary strip lower turns in
        let vs = all_violations turns in
        (get "INFO" s.violations_by_severity ≡ some (number_of info vs))
        × (get "WARN" s.violations_by_severity ≡ some (number_of warn vs))
        × (get "CRITICAL" s.violations_by_severity ≡ some (number_of critical vs))
        × (s.active_violations_count
            ≡ number_of info vs + number_of warn vs + number_of critical vs)
  unfolding severity_value calculate_summary
  calculate_summary-severities turns =
      let vs = all_violations turns in
      let (counted, active) = summary_from-CountsWell turns (last turns) refl in
      rw counted (
        get-no_counts info vs,
        get-no_counts warn vs,
        get-no_counts critical vs,
        active ∙ sym (number_of-total vs),
      )

  pub summary_from-savings :
      (turns : List CanonicalTurn) (o : Option CanonicalTurn)
      → last turns ≡ o
      → (summary_from strip lower turns o).potential_savings_usd
        ≡ total_of (λ (t : CanonicalTurn). t.wasted_cost_usd) turns
  unfolding summary_from summary_with empty_summary
  summary_from-savings turns none e = rw (last-none turns e)
  summary_from-savings turns (some t) e = refl

  summary_from-cache_hit :
      (turns : List CanonicalTurn) (o : Option CanonicalTurn)
      → All (λ (t : CanonicalTurn). t.cached_read_tokens ≤ t.input_tokens) turns
      → (summary_from strip lower turns o).cache_hit_ratio ≤ 10_000
  unfolding summary_from summary_with empty_summary
  summary_from-cache_hit turns none h = omega arith
  summary_from-cache_hit turns (some t) h = ratio_of-bound _ _ (cached_within turns h)

  -- The share of the input that came from the cache is at most 1, if no turn read more than it had.
  pub calculate_summary-cache_hit :
      (turns : List CanonicalTurn)
      → All (λ (t : CanonicalTurn). t.cached_read_tokens ≤ t.input_tokens) turns
      → (calculate_summary strip lower turns).cache_hit_ratio ≤ 10_000
  unfolding calculate_summary
  calculate_summary-cache_hit turns h = summary_from-cache_hit turns (last turns) h
