-- ===== src/JsMap.antt =====
-- JavaScript's `Map` over hashes, addresses and ids: an association list in insertion order.
-- `set` on a present key keeps its place, as in JavaScript.
use cil_core.Base.{
  ℕ, ◌≡◌, refl, Bool, true, false, ◌||◌, Option, none, some, List, [], ◌∷◌, arith, ◌==◌,
  if◌then◌else◌, contains, length, Distinct,
}

abbrev pub Map {ℓ} : Type ℓ → Type ℓ
Map V = List (ℕ × V)

module _ {ℓ} {V : Type ℓ} where
  unfoldable pub get : Map V → ℕ → Option V
  get [] k = none
  get ((j, v) ∷ m) k = if j == k then some v else get m k

  unfoldable pub set : Map V → ℕ → V → Map V
  set [] k v = (k, v) ∷ []
  set ((j, w) ∷ m) k v = if j == k then (j, v) ∷ m else (j, w) ∷ set m k v

  unfoldable pub delete : Map V → ℕ → Map V
  delete [] k = []
  delete ((j, w) ∷ m) k = if j == k then delete m k else (j, w) ∷ delete m k

  unfoldable pub keys : Map V → List ℕ
  keys [] = []
  keys ((j, w) ∷ m) = j ∷ keys m

  abbrev pub has : Map V → ℕ → Bool
  has m k = elim (get m k) [ none ↦ false | some _ ↦ true ]

  -- `map.get(k) || d`, for values that are objects.
  abbrev pub get_or : Map V → ℕ → V → V
  get_or m k d = elim (get m k) [ none ↦ d | some v ↦ v ]

  abbrev pub size : Map V → ℕ
  size = length

  pub get-set :
      (m : Map V) (k j : ℕ) (v : V) → get (set m k v) j ≡ (if k == j then some v else get m j)
  unfolding get set
  get-set [] k j v = refl
  get-set ((i, w) ∷ m) k j v = ground (arith, get-set m k j v)

  pub get-delete : (m : Map V) (k j : ℕ) → get (delete m k) j ≡ (if k == j then none else get m j)
  unfolding get delete
  get-delete [] k j = ground arith
  get-delete ((i, w) ∷ m) k j = ground (arith, get-delete m k j)

  pub contains-keys : (m : Map V) (k : ℕ) → contains (keys m) k ≡ has m k
  unfolding get keys
  contains-keys [] k = refl
  contains-keys ((i, w) ∷ m) k = ground (arith, contains-keys m k)

  pub contains-keys-set :
      (m : Map V) (k j : ℕ) (v : V)
      → contains (keys (set m k v)) j ≡ (k == j) || contains (keys m) j
  unfolding keys set
  contains-keys-set [] k j v = ground arith
  contains-keys-set ((i, w) ∷ m) k j v = ground (arith, contains-keys-set m k j v)

  pub set-Distinct : (m : Map V) (k : ℕ) (v : V) → Distinct (keys m) → Distinct (keys (set m k v))
  unfolding keys set
  set-Distinct [] k v d = (refl, tt)
  set-Distinct ((i, w) ∷ m) k v d =
      ground (arith, set-Distinct m k v d.1, contains-keys-set m k i v)
