-- ===== src/Base/Subset.antt =====
-- Counting lists of distinct numbers: a list inside another is no longer, and one of the same length
-- fills it.
use Prim.Native.Nat.{ℕ, suc, ◌≤◌}
use mathlib.Core.Path.{◌≡◌, refl}
use mathlib.Core.Logic.{inl, inr}
use mathlib.Core.Bool.{Bool, true, false}
use mathlib.Core.List.{List, [], ◌∷◌}
use native.Mathlib.Omega.{arith}
use cil_core.Base.Tests.{◌==◌, if◌then◌else◌, Bool-cases}
use cil_core.Base.Lists.{length, contains, Distinct, filter, contains-filter, length-filter-le}

abbrev pub Subset : List ℕ → List ℕ → Type 0
Subset xs ys = (a : ℕ) → contains xs a ≡ true → contains ys a ≡ true

abbrev drop_value : ℕ → List ℕ → List ℕ
drop_value a = filter (λ x. if x == a then false else true)

length-drop_value :
    (a : ℕ) (xs : List ℕ) → contains xs a ≡ true → suc (length (drop_value a xs)) ≤ length xs
length-drop_value a [] h = cc
length-drop_value a (x ∷ xs) h =
    ground
      (arith, length-drop_value a xs, length-filter-le (λ x. if x == a then false else true) xs)

pub length-Subset-le : (xs ys : List ℕ) → Distinct xs → Subset xs ys → length xs ≤ length ys
length-Subset-le [] ys d s = omega arith
length-Subset-le (x ∷ xs) ys d s = omega (
  arith,
  length-drop_value x ys (s x (ground arith)),
  length-Subset-le xs (drop_value x ys) d.1
      (λ a h. ground (arith, contains-filter (λ y. if y == x then false else true) ys a, s a, d.0)),
)

pub Subset_of_length :
    (xs ys : List ℕ) → Distinct xs → Subset xs ys → length ys ≤ length xs → Subset ys xs
Subset_of_length xs ys d s l a h = elim (Bool-cases (contains xs a)) [
  | inl e ↦ e
  | inr e ↦
      let n : suc (length xs) ≤ length ys =
        length-Subset-le (a ∷ xs) ys (e, d) (λ b k. ground (arith, s b)) in
      absurd (omega arith)
]

-- A filter that drops nothing keeps all.
pub filter_full :
    (p : ℕ → Bool) (xs : List ℕ) (a : ℕ)
    → length (filter p xs) ≡ length xs
    → contains xs a ≡ true
    → p a ≡ true
filter_full p [] a l h = cc
filter_full p (x ∷ xs) a l h = ground (arith, filter_full p xs a, length-filter-le p xs)

pub filter_all :
    (p : ℕ → Bool) (xs : List ℕ)
    → ((a : ℕ) → contains xs a ≡ true → p a ≡ true)
    → length (filter p xs) ≡ length xs
filter_all p [] h = refl
filter_all p (x ∷ xs) h =
    let rest = filter_all p xs (λ a k. h a (ground arith)) in ground (arith, rest, h x)
