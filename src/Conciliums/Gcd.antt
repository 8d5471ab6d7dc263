-- ===== src/Conciliums/Gcd.antt =====
-- `GCD` of utils.js.
use cil_core.Base.{
  ℕ, zero, suc, ◌+◌, ◌%◌, ◌<◌, ◌≡◌, inl, inr, ◌||◌, Option, none, some, List, [], ◌∷◌, arith, ltb,
  ◌==◌, if◌then◌else◌, Bool-cases,
}

-- `while (x && y) x > y ? x %= y : y %= x`, and `x + y` after it. The fuel bounds the rounds.
unfoldable pub gcd_loop : ℕ → ℕ → ℕ → Option ℕ
gcd_loop zero x y = none
gcd_loop (suc f) x y =
    let left = gcd_loop f (x % y) y in
    let right = gcd_loop f x (y % x) in
    if x == 0 || y == 0 then some (x + y) else if ltb y x then left else right

-- Each round lowers the sum.
unfoldable pub gcd : ℕ → ℕ → ℕ
unfolding gcd_loop
gcd x y = elim (gcd_loop (suc (x + y)) x y) [ none ↦ 0 | some g ↦ g ]

unfoldable pub gcd_from : ℕ → List ℕ → ℕ
unfolding gcd
gcd_from x [] = x
gcd_from x (y ∷ ys) = gcd_from (gcd x y) ys

-- On an empty list the code gives `NaN`; here it is 0.
unfoldable pub gcd_list : List ℕ → ℕ
unfolding gcd_from
gcd_list [] = 0
gcd_list (x ∷ xs) = gcd_from x xs

-- With fuel above the sum the loop ends, and ends at a positive number unless both are 0.
pub gcd_loop_total :
    (f x y : ℕ) → x + y < f → (g : ℕ) × (gcd_loop f x y ≡ some g) × (0 < x + y → 0 < g)
unfolding gcd_loop
gcd_loop_total zero x y h = elim h [ ]
gcd_loop_total (suc f) x y h = elim (Bool-cases (x == 0 || y == 0)) [
  | inl e ↦ (x + y, rw e, λ p. p)
  | inr e ↦ elim (Bool-cases (ltb y x)) [
    | inl l ↦
        let (g, run, p) = gcd_loop_total f (x % y) y (ground arith) in
        (g, rw (e, l) run, λ q. p (ground arith))
    | inr l ↦
        let (g, run, p) = gcd_loop_total f x (y % x) (ground arith) in
        (g, rw (e, l) run, λ q. p (ground arith))
  ]
]
