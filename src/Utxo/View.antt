-- ===== src/Utxo/View.antt =====
-- The two arrays of structures/utxo.js seen as a finite map from output numbers to coins.
use cil_core.Base.{
  is_some, ℕ, ◌≡◌, refl, true, false, Option, none, some, List, [], ◌∷◌, ◌++◌, arith, ◌==◌,
  if◌then◌else◌, length, get_elem?, erase_at, contains, Distinct, already_spent, or_throw,
  Option-cases, Bool-cases, inl, inr,
}
use cil_core.Utxo.{Coins, Utxo, find_index, coins_at_index}

abbrev pub view_of : List ℕ → List Coins → ℕ → Option Coins
view_of [] cs a = none
view_of (i ∷ is) [] a = none
view_of (i ∷ is) (c ∷ cs) a = if i == a then some c else view_of is cs a

-- The unspent coins at an output number.
unfoldable pub view : Utxo → ℕ → Option Coins
view u = view_of u.indexes u.outputs

pub find_index_present : (is : List ℕ) (a k : ℕ) → find_index is a ≡ some k → contains is a ≡ true
unfolding find_index
find_index_present [] a k h = cc
find_index_present (i ∷ is) a k h = elim (Option-cases (find_index is a)) [
  | inl e ↦ ground arith
  | inr (j, e) ↦ ground (arith, find_index_present is a j e)
]

pub find_index_absent : (is : List ℕ) (a : ℕ) → find_index is a ≡ none → contains is a ≡ false
unfolding find_index
find_index_absent [] a h = refl
find_index_absent (i ∷ is) a h = ground (arith, find_index_absent is a)

pub view_of_absent :
    (is : List ℕ) (cs : List Coins) (a : ℕ) → contains is a ≡ false → view_of is cs a ≡ none
view_of_absent [] cs a h = refl
view_of_absent (i ∷ is) [] a h = refl
view_of_absent (i ∷ is) (c ∷ cs) a h = ground (arith, view_of_absent is cs a)

pub view_of_present :
    (is : List ℕ) (cs : List Coins) (a : ℕ)
    → length is ≡ length cs
    → contains is a ≡ true
    → (c : Coins) × (view_of is cs a ≡ some c)
view_of_present [] cs a l h = cc
view_of_present (i ∷ is) [] a l h = absurd (omega arith)
view_of_present (i ∷ is) (c ∷ cs) a l h = elim (Bool-cases (i == a)) [
  | inl e ↦ (c, rw e)
  | inr e ↦ let (d, p) = view_of_present is cs a (omega arith) (rw e at h) in (d, rw e p)
]

pub get_elem?-find_index :
    (is : List ℕ) (cs : List Coins) (a k : ℕ)
    → length is ≡ length cs
    → find_index is a ≡ some k
    → get_elem? cs k ≡ view_of is cs a
unfolding find_index
get_elem?-find_index [] cs a k l h = cc
get_elem?-find_index (i ∷ is) [] a k l h = absurd (omega arith)
get_elem?-find_index (i ∷ is) (c ∷ cs) a k l h = elim (Option-cases (find_index is a)) [
  | inl e ↦ ground arith
  | inr (j, e) ↦ ground (arith, get_elem?-find_index is cs a j (omega arith) e)
]

-- Reading an output is a lookup in the map; only a missing output makes it throw.
pub coins_at_index_lem :
    (u : Utxo) (a : ℕ)
    → length u.indexes ≡ length u.outputs
    → coins_at_index u a ≡ or_throw (view u a) already_spent
unfolding coins_at_index view
coins_at_index_lem u a l = elim (Option-cases (find_index u.indexes a)) [
  | inl e ↦
      rw (e, coins_at_index, view_of_absent u.indexes u.outputs a (find_index_absent u.indexes a e))
  | inr (k, e) ↦
      let (c, p) = view_of_present u.indexes u.outputs a l (find_index_present u.indexes a k e) in
      rw (e, coins_at_index, get_elem?-find_index u.indexes u.outputs a k l e, p)
]

pub view_of_append :
    (is : List ℕ) (cs : List Coins) (a j : ℕ) (c : Coins)
    → length is ≡ length cs
    → contains is a ≡ false
    → view_of (is ++ a ∷ []) (cs ++ c ∷ []) j ≡ (if a == j then some c else view_of is cs j)
view_of_append [] [] a j c l h = refl
view_of_append [] (d ∷ cs) a j c l h = absurd (omega arith)
view_of_append (i ∷ is) [] a j c l h = absurd (omega arith)
view_of_append (i ∷ is) (d ∷ cs) a j c l h =
    ground (arith, view_of_append is cs a j c (omega arith))

pub view_of_erase :
    (is : List ℕ) (cs : List Coins) (a k j : ℕ)
    → length is ≡ length cs
    → Distinct is
    → find_index is a ≡ some k
    → view_of (erase_at is k) (erase_at cs k) j ≡ (if a == j then none else view_of is cs j)
unfolding find_index
view_of_erase [] cs a k j l d h = cc
view_of_erase (i ∷ is) [] a k j l d h = absurd (omega arith)
view_of_erase (i ∷ is) (c ∷ cs) a k j l d h = elim (Option-cases (find_index is a)) [
  | inl e ↦ ground (arith, view_of_absent is cs j, find_index_absent is a e)
  | inr (n, e) ↦ ground (
    arith,
    view_of_erase is cs a n j (omega arith) d.1 e,
    find_index_present is a n e,
    view_of_absent is cs j,
  )
]

-- The output numbers are those at which the map has coins.
pub contains-indexes :
    (u : Utxo) (a : ℕ)
    → length u.indexes ≡ length u.outputs
    → contains u.indexes a ≡ is_some (view u a)
unfolding view
contains-indexes u a l = elim (Bool-cases (contains u.indexes a)) [
  | inl e ↦ let (c, p) = view_of_present u.indexes u.outputs a l e in rw (e, p)
  | inr e ↦ rw (e, view_of_absent u.indexes u.outputs a e)
]
