-- ===== src/Conciliums/Doubles.antt =====
-- The numbers of JavaScript: doubles that are not negative, as multiples of the smallest one, 2 ^ -1074.
-- Each operation gives the double nearest to the exact result, of two equally near the even one.
-- Infinity is not reached by what the concilia compute.
use cil_core.Base.{
  ℕ, zero, suc, ◌+◌, ◌*◌, ◌/◌, ◌%◌, ◌≤◌, ◌<◌, ◌≡◌, inl, inr, true, false, ◌&&◌, ◌||◌, arith, ltb,
  ◌==◌, if◌then◌else◌, Bool-cases,
}
use Prim.Native.Nat.{◌^◌}

-- The double 1.
unfoldable pub one : ℕ
one = 2 ^ 1074

-- The power of two by which `den` is multiplied until `num / den` has at most 53 bits before the point.
-- The fuel bounds the doublings.
unfoldable pub step_of : ℕ → ℕ → ℕ → ℕ → ℕ
step_of zero num den step = step
step_of (suc fuel) num den step = elim (ltb num (9007199254740992 * (den * step))) [
  | true ↦ step
  | false ↦ step_of fuel num den (2 * step)
]

-- To the nearest, and of two equally near ones to the even one, of a quotient `q` with the rest `r` of `d`.
unfoldable pub round_half : ℕ → ℕ → ℕ → ℕ
round_half q r d = if ltb d (2 * r) || ((2 * r == d) && (q % 2 == 1)) then q + 1 else q

-- The double nearest to `num / den`.
unfoldable pub nearest : ℕ → ℕ → ℕ
unfolding step_of round_half
nearest num den =
    let step = step_of num num den 1 in
    let d = den * step in step * round_half (num / d) (num % d) d

-- An integer as a double.
unfoldable pub of_integer : ℕ → ℕ
unfolding nearest one
of_integer n = nearest (n * one) 1

-- `a + b`
unfoldable pub add : ℕ → ℕ → ℕ
unfolding nearest
add a b = nearest (a + b) 1

-- `a / b`, for a divisor other than 0.
unfoldable pub divide : ℕ → ℕ → ℕ
unfolding nearest one
divide a b = nearest (a * one) b

le-mul : (den step : ℕ) → 0 < den → step ≤ den * step
le-mul zero step pd = absurd (omega arith)
le-mul (suc den) step pd = ground arith

step_of_enough :
    (fuel num den step : ℕ)
    → 0 < den
    → 0 < step
    → num < fuel + step
    → num < 9007199254740992 * (den * step_of fuel num den step)
unfolding step_of
step_of_enough zero num den step pd ps enough = let least = le-mul den step pd in omega arith
step_of_enough (suc fuel) num den step pd ps enough =
    elim (Bool-cases (ltb num (9007199254740992 * (den * step)))) [
      | inl e ↦ rw (e, step_of) (ground arith)
      | inr e ↦
          rw (e, step_of) (step_of_enough fuel num den (2 * step) pd (omega arith) (omega arith))
    ]

-- The fuel of `nearest` is enough: the quotient that it rounds is below 2 ^ 53.
nearest-step_of : (num den : ℕ) → 0 < den → num < 9007199254740992 * (den * step_of num num den 1)
nearest-step_of num den pd = step_of_enough num num den 1 pd (omega arith) (omega arith)

-- Rounding is to one of the two nearest: the result is at most half a divisor away from the number.
round_half_lem :
    (q r d : ℕ)
    → r < d
    → (2 * (d * round_half q r d) ≤ 2 * (d * q + r) + d)
      × (2 * (d * q + r) ≤ 2 * (d * round_half q r d) + d)
unfolding round_half
round_half_lem q r d low =
    let next : d * (q + 1) ≡ d * q + d = ground arith in
    elim (Bool-cases (ltb d (2 * r) || ((2 * r == d) && (q % 2 == 1)))) [
      | inl e ↦ rw (e, next) (ground (arith, e, low), ground (arith, e, low))
      | inr e ↦ rw e (ground (arith, e, low), ground (arith, e, low))
    ]

step_of-pos : (fuel num den step : ℕ) → 0 < step → 0 < step_of fuel num den step
unfolding step_of
step_of-pos zero num den step p = p
step_of-pos (suc fuel) num den step p =
    elim (Bool-cases (ltb num (9007199254740992 * (den * step)))) [
      | inl e ↦ rw (e, step_of) p
      | inr e ↦ rw (e, step_of) (step_of-pos fuel num den (2 * step) (omega arith))
    ]

times-pos : (a b : ℕ) → 0 < a → 0 < b → 0 < a * b
times-pos a b p q = let least = le-mul a b p in omega arith

-- `nearest num den` differs from `num / den` by at most half of the step between the doubles there.
nearest_lem :
    (num den : ℕ)
    → 0 < den
    → let d = den * step_of num num den 1 in
      (2 * (den * nearest num den) ≤ 2 * num + d) × (2 * num ≤ 2 * (den * nearest num den) + d)
unfolding nearest
nearest_lem num den pd =
    let step = step_of num num den 1 in
    let d = den * step in
    let p : 0 < d = times-pos den step pd (step_of-pos num num den 1 (omega arith)) in
    let q = num / d in
    let r = num % d in
    let split : num ≡ d * q + r = grind arith in
    let low : r < d = grind arith in
    let grouped : den * (step * round_half q r d) ≡ d * round_half q r d = grind arith in
    let (above, below) = round_half_lem q r d low in
    (ground (arith, above, split, grouped), ground (arith, below, split, grouped))
