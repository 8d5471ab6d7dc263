-- ===== src/Base/Lists.antt =====
-- Lists measured and indexed by native numbers, and membership as a Boolean test.
use Prim.Native.Nat.{ℕ, zero, suc, ◌+◌, ◌-◌, ◌≤◌}
use mathlib.Core.Path.{◌≡◌, refl, ap}
use mathlib.Core.Bool.{Bool, true, false, ◌||◌}
use mathlib.Core.List.{List, [], ◌∷◌, ◌++◌, map}
use mathlib.Core.Option.{Option, none, some}
use native.Mathlib.Omega.{arith}
use cil_core.Base.Tests.{◌==◌, if◌then◌else◌}

module _ {ℓ} {A : Type ℓ} where
  abbrev pub length : List A → ℕ
  length [] = 0
  length (x ∷ xs) = suc (length xs)

  abbrev pub get_elem? : List A → ℕ → Option A
  get_elem? [] i = none
  get_elem? (x ∷ xs) zero = some x
  get_elem? (x ∷ xs) (suc i) = get_elem? xs i

  -- `splice(i, 1)`: out of range it changes nothing.
  abbrev pub erase_at : List A → ℕ → List A
  erase_at [] i = []
  erase_at (x ∷ xs) zero = xs
  erase_at (x ∷ xs) (suc i) = x ∷ erase_at xs i

  abbrev pub filter : (A → Bool) → List A → List A
  filter p [] = []
  filter p (x ∷ xs) = if p x then x ∷ filter p xs else filter p xs

  abbrev pub all : (A → Bool) → List A → Bool
  all p [] = true
  all p (x ∷ xs) = if p x then all p xs else false

  pub length-append : (xs ys : List A) → length (xs ++ ys) ≡ length xs + length ys
  length-append [] ys = omega arith
  length-append (x ∷ xs) ys = omega (arith, length-append xs ys)

  pub length-filter-le : (p : A → Bool) (xs : List A) → length (filter p xs) ≤ length xs
  length-filter-le p [] = omega arith
  length-filter-le p (x ∷ xs) = ground (arith, length-filter-le p xs)

pub length-map {ℓ κ} :
    {A : Type ℓ} {B : Type κ} (f : A → B) (xs : List A) → length (map f xs) ≡ length xs
length-map f [] = refl
length-map f (x ∷ xs) = ap suc (length-map f xs)

-- `includes`, on hashes, addresses and ids.
abbrev pub contains : List ℕ → ℕ → Bool
contains [] a = false
contains (x ∷ xs) a = if x == a then true else contains xs a

pub contains-append :
    (xs ys : List ℕ) (a : ℕ) → contains (xs ++ ys) a ≡ contains xs a || contains ys a
contains-append [] ys a = refl
contains-append (x ∷ xs) ys a = ground (arith, contains-append xs ys a)

pub contains-filter :
    (p : ℕ → Bool) (xs : List ℕ) (a : ℕ)
    → contains (filter p xs) a ≡ (if p a then contains xs a else false)
contains-filter p [] a = ground arith
contains-filter p (x ∷ xs) a = ground (arith, contains-filter p xs a)

-- No number stands twice.
abbrev pub Distinct : List ℕ → Type 0
Distinct [] = Unit
Distinct (x ∷ xs) = (contains xs x ≡ false) × Distinct xs

-- `Array.from(new Set(xs))`: the first occurrences, in their order.
abbrev pub unique_after : List ℕ → List ℕ → List ℕ
unique_after seen [] = []
unique_after seen (x ∷ xs) =
    let old = unique_after seen xs in
    let fresh = x ∷ unique_after (x ∷ seen) xs in if contains seen x then old else fresh

abbrev pub unique : List ℕ → List ℕ
unique = unique_after []

pub contains-unique_after :
    (seen xs : List ℕ) (a : ℕ)
    → contains (unique_after seen xs) a ≡ (if contains seen a then false else contains xs a)
contains-unique_after seen [] a = ground arith
contains-unique_after seen (x ∷ xs) a =
    ground (arith, contains-unique_after seen xs a, contains-unique_after (x ∷ seen) xs a)

pub contains-unique : (xs : List ℕ) (a : ℕ) → contains (unique xs) a ≡ contains xs a
contains-unique xs a = contains-unique_after [] xs a

pub unique_after-Distinct : (seen xs : List ℕ) → Distinct (unique_after seen xs)
unique_after-Distinct seen [] = tt
unique_after-Distinct seen (x ∷ xs) = ground (
  arith,
  unique_after-Distinct seen xs,
  unique_after-Distinct (x ∷ seen) xs,
  contains-unique_after (x ∷ seen) xs x,
)

-- JavaScript's `slice` with one bound.
abbrev pub skip {ℓ} : {A : Type ℓ} → ℕ → List A → List A
skip zero xs = xs
skip (suc n) [] = []
skip (suc n) (x ∷ xs) = skip n xs

abbrev pub take {ℓ} : {A : Type ℓ} → ℕ → List A → List A
take zero xs = []
take (suc n) [] = []
take (suc n) (x ∷ xs) = x ∷ take n xs

abbrev pub tail {ℓ} : {A : Type ℓ} → List A → List A
tail [] = []
tail (x ∷ xs) = xs

pub take-append :
    (xs ys : List ℕ) → (take (length xs) (xs ++ ys) ≡ xs) × (skip (length xs) (xs ++ ys) ≡ ys)
take-append [] ys = (refl, refl)
take-append (x ∷ xs) ys = let (t, s) = take-append xs ys in (ap (λ l. x ∷ l) t, s)

pub take-skip : (n : ℕ) (xs : List ℕ) → take n xs ++ skip n xs ≡ xs
take-skip zero xs = refl
take-skip (suc n) [] = refl
take-skip (suc n) (x ∷ xs) = ap (λ l. x ∷ l) (take-skip n xs)

pub length-skip : (n : ℕ) (xs : List ℕ) → length (skip n xs) ≡ length xs - n
length-skip zero xs = ground arith
length-skip (suc n) [] = ground arith
length-skip (suc n) (x ∷ xs) = ground (arith, length-skip n xs)

pub append_assoc {ℓ} : {A : Type ℓ} (xs ys zs : List A) → (xs ++ ys) ++ zs ≡ xs ++ (ys ++ zs)
append_assoc [] ys zs = refl
append_assoc (x ∷ xs) ys zs = ap (λ l. x ∷ l) (append_assoc xs ys zs)

pub append_nil {ℓ} : {A : Type ℓ} (xs : List A) → xs ++ [] ≡ xs
append_nil [] = refl
append_nil (x ∷ xs) = ap (λ l. x ∷ l) (append_nil xs)
