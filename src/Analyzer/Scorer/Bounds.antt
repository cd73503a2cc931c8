-- ===== src/Analyzer/Scorer/Bounds.antt =====
-- core/analyzer/scorer.py: the bounds and the order of the scores.
use ctxins.Base.{
  ℕ, zero, suc, ◌+◌, ◌*◌, ◌≤◌, ◌<◌, ◌≡◌, refl, ap, ◌∙◌, Bool, true, false, ◌||◌, List, [], ◌∷◌,
  ◌++◌, length, arith, is_nil, min, All,
}
use ctxins.Base.Rounding.{round_div, round_div-monotone, round_div-exact}
use ctxins.Schema.{ViolationSeverity, critical, RuleViolation, CanonicalTurn}
use ctxins.Analyzer.Scorer.{
  severity_weight, penalty, total_penalty, normalized_score, calculate_score,
  calculate_score_from_violations, all_violations,
}

penalty-append : (vs ws : List RuleViolation) → penalty (vs ++ ws) ≡ penalty vs + penalty ws
unfolding penalty
penalty-append [] ws = omega arith
penalty-append (v ∷ vs) ws = omega (arith, penalty-append vs ws)

total_penalty-all_violations :
    (turns : List CanonicalTurn) → total_penalty turns ≡ penalty (all_violations turns)
unfolding total_penalty all_violations penalty
total_penalty-all_violations [] = refl
total_penalty-all_violations (t ∷ turns) =
    omega (
      arith,
      total_penalty-all_violations turns,
      penalty-append t.violations (all_violations turns),
    )

normalized_score_lem : (a n : ℕ) → normalized_score a n ≡ min 1000 (round_div (a * 1000) (n * 20))
unfolding normalized_score severity_weight
normalized_score_lem a n = refl

normalized_score-monotone :
    (a b n : ℕ) → 0 < n → a ≤ b → normalized_score a n ≤ normalized_score b n
normalized_score-monotone a b n pos h =
    rw (normalized_score_lem a n, normalized_score_lem b n)
      (omega (arith, round_div-monotone (a * 1000) (b * 1000) (n * 20) (omega arith) (omega arith)))

normalized_score-zero : (n : ℕ) → 0 < n → normalized_score 0 n ≡ 0
normalized_score-zero n pos =
    let none_of : round_div (0 * 1000) (n * 20) ≡ 0 =
      ap (λ k. round_div k (n * 20)) (omega arith) ∙ round_div-exact 0 (n * 20) (omega arith) in
    rw (normalized_score_lem 0 n) (omega arith)

is_nil-penalty : (vs : List RuleViolation) → is_nil vs ≡ true → penalty vs ≡ 0
unfolding penalty
is_nil-penalty [] h = refl
is_nil-penalty (v ∷ vs) h = cc

-- Where there is a turn, the violations need no test of their own.
from_violations-normalized :
    (vs : List RuleViolation) (n : ℕ)
    → 0 < n
    → calculate_score_from_violations vs n ≡ normalized_score (penalty vs) n
unfolding calculate_score_from_violations
from_violations-normalized vs n pos = ground (arith, is_nil-penalty vs, normalized_score-zero n pos)

from_violations-no_turns : (vs : List RuleViolation) → calculate_score_from_violations vs 0 ≡ 0
unfolding calculate_score_from_violations
from_violations-no_turns vs = ground arith

-- The score of some turns is the one of their violations taken together.
pub calculate_score-from_violations :
    (turns : List CanonicalTurn)
    → calculate_score turns ≡ calculate_score_from_violations (all_violations turns) (length turns)
unfolding calculate_score
calculate_score-from_violations [] = unfold calculate_score_from_violations all_violations in refl
calculate_score-from_violations (t ∷ turns) = rw (
  from_violations-normalized (all_violations (t ∷ turns)) (length (t ∷ turns)) (omega arith),
  total_penalty-all_violations (t ∷ turns),
)

-- More violations in as many turns never lower the score.
pub calculate_score_from_violations-monotone :
    (vs ws : List RuleViolation) (turn_count : ℕ)
    → calculate_score_from_violations vs turn_count
      ≤ calculate_score_from_violations (vs ++ ws) turn_count
calculate_score_from_violations-monotone vs ws zero =
    omega (arith, from_violations-no_turns vs, from_violations-no_turns (vs ++ ws))
calculate_score_from_violations-monotone vs ws (suc n) =
    rw
      (
        from_violations-normalized vs (suc n) (omega arith),
        from_violations-normalized (vs ++ ws) (suc n) (omega arith),
      )
      (normalized_score-monotone _ _ (suc n) (omega arith) (omega (arith, penalty-append vs ws)))

abbrev pub is_critical : ViolationSeverity → Bool
is_critical critical = true
is_critical _ = false

abbrev pub has_critical : List RuleViolation → Bool
has_critical [] = false
has_critical (v ∷ vs) = is_critical v.severity || has_critical vs

-- A turn that has a critical violation.
abbrev pub HasCritical : CanonicalTurn → Type 0
HasCritical turn = has_critical turn.violations ≡ true

severity_weight-critical : (s : ViolationSeverity) → is_critical s ≡ true → severity_weight s ≡ 20
unfolding severity_weight
severity_weight-critical critical h = refl
severity_weight-critical _ h = cc

penalty-critical : (vs : List RuleViolation) → has_critical vs ≡ true → 20 ≤ penalty vs
unfolding penalty
penalty-critical [] h = cc
penalty-critical (v ∷ vs) h =
    ground (arith, severity_weight-critical v.severity, penalty-critical vs)

total_penalty-critical :
    (turns : List CanonicalTurn) → All HasCritical turns → length turns * 20 ≤ total_penalty turns
unfolding total_penalty
total_penalty-critical [] h = omega arith
total_penalty-critical (t ∷ turns) h =
    omega (arith, total_penalty-critical turns h.1, penalty-critical t.violations h.0)

normalized_score-full : (n : ℕ) → 0 < n → normalized_score (n * 20) n ≡ 1000
normalized_score-full n pos =
    let swapped : n * 20 * 1000 ≡ 1000 * (n * 20) = omega arith in
    rw (normalized_score_lem, swapped, round_div-exact 1000 (n * 20) (omega arith))

normalized_score-bound : (a n : ℕ) → normalized_score a n ≤ 1000
unfolding normalized_score
normalized_score-bound a n = omega arith

-- Turns that have a critical violation each score 100.0, the most that there is.
pub calculate_score-critical :
    (turn : CanonicalTurn) (turns : List CanonicalTurn)
    → All HasCritical (turn ∷ turns)
    → calculate_score (turn ∷ turns) ≡ 1000
unfolding calculate_score
calculate_score-critical t turns h =
    let n = length (t ∷ turns) in
    omega (
      arith,
      normalized_score-full n (omega arith),
      normalized_score-bound (total_penalty (t ∷ turns)) n,
      normalized_score-monotone (n * 20) (total_penalty (t ∷ turns)) n (omega arith)
          (total_penalty-critical (t ∷ turns) h),
    )

-- No score is above 100.0.
pub calculate_score-bound : (turns : List CanonicalTurn) → calculate_score turns ≤ 1000
unfolding calculate_score
calculate_score-bound [] = omega arith
calculate_score-bound (t ∷ turns) = normalized_score-bound _ _
