-- ===== src/Base/Rounding.antt =====
-- Python's `round` of a quotient of natural numbers: to the nearest, and a tie to the even number.
use Prim.Native.Nat.{ℕ, ◌+◌, ◌*◌, ◌/◌, ◌%◌, ◌≤◌, ◌<◌}
use mathlib.Core.Path.{◌≡◌, subst}
use mathlib.Core.Logic.{inl, inr}
use native.Mathlib.Nat.{
  mod-lt, le-div_iff_mul-le, div-mul-le_self, div-add-mod', add-mul, mul-div_cancel, mul-mod_left,
}
use native.Mathlib.Omega.{arith}
use ctxins.Base.Tests.{ltb, if◌then◌else◌, Bool-cases, if-keeps, ◌==◌}

-- The quotient q and the remainder r of a division by d, rounded.
abbrev pub round_to : ℕ → ℕ → ℕ → ℕ
round_to q r d = if ltb (r + r) d then q else if ltb d (r + r) then q + 1 else q + q % 2

unfoldable pub round_div : ℕ → ℕ → ℕ
round_div n d = round_to (n / d) (n % d) d

round_to-bounds : (q r d : ℕ) → (q ≤ round_to q r d) × (round_to q r d ≤ q + 1)
round_to-bounds q r d = ground arith

round_to-monotone : (q r s d : ℕ) → r ≤ s → round_to q r d ≤ round_to q s d
round_to-monotone q r s d h = ground arith

-- Rounding keeps the order.
pub round_div-monotone : (m n d : ℕ) → 0 < d → m ≤ n → round_div m d ≤ round_div n d
unfolding round_div
round_div-monotone m n d pos h =
    let quotients : m / d ≤ n / d =
      (le-div_iff_mul-le pos).1 (omega (arith, div-mul-le_self m d)) in
    let upper = round_to-bounds (m / d) (m % d) d in
    let lower = round_to-bounds (n / d) (n % d) d in
    elim (Bool-cases (ltb (m / d) (n / d))) [
      | inl below ↦ ground arith
      | inr level ↦
          let same : m / d ≡ n / d = ground arith in
          let first_parts : n / d * d + m % d ≡ m = rw same at (div-add-mod' m d) in
          let remainders : m % d ≤ n % d = omega (arith, div-add-mod' n d) in
          rw same (round_to-monotone (n / d) (m % d) (n % d) d remainders)
    ]

-- A rounded quotient is within half a unit.
abbrev Near : ℕ → ℕ → ℕ → ℕ → Type 0
Near q r d x = (2 * (x * d) ≤ 2 * (q * d + r) + d) × (2 * (q * d + r) ≤ 2 * (x * d) + d)

Near-down : (q r d : ℕ) → r + r ≤ d → Near q r d q
Near-down q r d h = omega arith

Near-up : (q r d : ℕ) → r < d → d ≤ r + r → Near q r d (q + 1)
Near-up q r d below h = rw add-mul (omega arith)

round_to-nearest : (q r d : ℕ) → r < d → Near q r d (round_to q r d)
round_to-nearest q r d below =
    if-keeps (Near q r d) (ltb (r + r) d) (λ e. Near-down q r d (ground arith))
      (λ e.
        if-keeps (Near q r d) (ltb d (r + r)) (λ f. Near-up q r d below (ground arith))
          (λ f. elim (Bool-cases (q % 2 == 0)) [
            | inl even ↦ subst (Near q r d) (ground arith) (Near-down q r d (ground arith))
            | inr odd ↦ subst (Near q r d) (ground arith) (Near-up q r d below (ground arith))
          ]))

-- The rounded quotient is within half a unit of the exact one.
pub round_div-nearest :
    (n d : ℕ)
    → 0 < d
    → (2 * (round_div n d * d) ≤ 2 * n + d) × (2 * n ≤ 2 * (round_div n d * d) + d)
unfolding round_div
round_div-nearest n d pos =
    rw (div-add-mod' n d) at (round_to-nearest (n / d) (n % d) d (mod-lt n pos))

-- A quotient without a remainder stays.
pub round_div-exact : (k d : ℕ) → 0 < d → round_div (k * d) d ≡ k
unfolding round_div
round_div-exact k d pos = rw (mul-div_cancel k pos, mul-mod_left k d) (ground arith)
