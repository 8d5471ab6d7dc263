-- ===== src/Utxo/Laws.antt =====
-- What adding, spending and copying do to the map of unspent outputs, on every branch.
use cil_core.Base.{
  ℕ, zero, suc, ◌≡◌, refl, ◌⊎◌, inl, inr, false, Option, none, some, List, [], ◌∷◌, ◌++◌, arith,
  ◌==◌, if◌then◌else◌, Option-cases, length, erase_at, length-append, contains, contains-append,
  Distinct, already_added, already_deleted, ok, err,
}
use cil_core.Utxo.{
  Coins, Utxo, UtxoProto, IsValid, create, clone, restore, find_index, add_coins, spend_coins,
}
use cil_core.Utxo.View.{
  view, find_index_present, find_index_absent, view_of_absent, view_of_present, view_of_append,
  view_of_erase,
}

pub create-IsValid : (h : ℕ) → IsValid (create h)
unfolding create
create-IsValid h = record { distinct = tt; in_step = refl }

pub tx_hash-create : (h : ℕ) → (create h).tx_hash ≡ h
unfolding create
tx_hash-create h = refl

pub view-create : (h k : ℕ) → view (create h) k ≡ none
unfolding create view
view-create h k = refl

pub clone_lem : (p : UtxoProto) (u : Utxo) → clone p u ≡ u
unfolding clone restore
clone_lem p u = rw (p.decode-encode u.contents)

append-Distinct :
    (is : List ℕ) (a : ℕ) → contains is a ≡ false → Distinct is → Distinct (is ++ a ∷ [])
append-Distinct [] a h d = (refl, tt)
append-Distinct (i ∷ is) a h d = ground (arith, append-Distinct is a, contains-append is (a ∷ []) i)

contains-erase_at :
    (is : List ℕ) (k a : ℕ) → contains is a ≡ false → contains (erase_at is k) a ≡ false
contains-erase_at [] k a h = refl
contains-erase_at (i ∷ is) zero a h = ground arith
contains-erase_at (i ∷ is) (suc k) a h = ground (arith, contains-erase_at is k a)

erase_at-Distinct : (is : List ℕ) (k : ℕ) → Distinct is → Distinct (erase_at is k)
erase_at-Distinct [] k d = tt
erase_at-Distinct (i ∷ is) zero d = d.1
erase_at-Distinct (i ∷ is) (suc k) d = (contains-erase_at is k i d.0, erase_at-Distinct is k d.1)

length-erase_at :
    (is : List ℕ) (cs : List Coins) (k : ℕ)
    → length is ≡ length cs
    → length (erase_at is k) ≡ length (erase_at cs k)
length-erase_at [] [] k l = refl
length-erase_at [] (c ∷ cs) k l = absurd (omega arith)
length-erase_at (i ∷ is) [] k l = absurd (omega arith)
length-erase_at (i ∷ is) (c ∷ cs) zero l = omega arith
length-erase_at (i ∷ is) (c ∷ cs) (suc k) l = omega (arith, length-erase_at is cs k (omega arith))

-- `u'` is `u` with the output `a` replaced by `o`.
abbrev pub Updates : Utxo → ℕ → Option Coins → Utxo → Type 0
Updates u a o u' =
    IsValid u' × (u'.tx_hash ≡ u.tx_hash) × ((j : ℕ) → view u' j ≡ (if a == j then o else view u j))

-- Adding coins to a valid UTXO throws exactly when the output number is taken. Otherwise the
-- result is valid and differs from the old map at that number alone.
pub add_coins-Updates :
    (u : Utxo) (a : ℕ) (c : Coins)
    → IsValid u
    → ((d : Coins) × (view u a ≡ some d) × (add_coins u a c ≡ err already_added))
      ⊎ ((u' : Utxo) × (view u a ≡ none) × (add_coins u a c ≡ ok u') × Updates u a (some c) u')
unfolding add_coins view
add_coins-Updates u a c v = elim (Option-cases (find_index u.indexes a)) [
  | inr (k, e) ↦
      let (d, p) =
        view_of_present u.indexes u.outputs a v.in_step (find_index_present u.indexes a k e) in
      inl (d, p, rw (e, add_coins))
  | inl e ↦
      let absent = find_index_absent u.indexes a e in
      inr (
        record u {
          contents = record { indexes = u.indexes ++ a ∷ []; outputs = u.outputs ++ c ∷ [] };
        },
        view_of_absent u.indexes u.outputs a absent,
        rw (e, add_coins),
        (
          record {
            distinct = append-Distinct u.indexes a absent v.distinct;
            in_step = omega (
              arith,
              v.in_step,
              length-append u.indexes (a ∷ []),
              length-append u.outputs (c ∷ []),
            );
          },
          refl,
          λ j. view_of_append u.indexes u.outputs a j c v.in_step absent,
        ),
      )
]

-- Spending an output of a valid UTXO throws exactly when it is not there. Otherwise the result is
-- valid and has lost that output alone.
pub spend_coins-Updates :
    (u : Utxo) (a : ℕ)
    → IsValid u
    → ((view u a ≡ none) × (spend_coins u a ≡ err already_deleted))
      ⊎ ((c : Coins) × (u' : Utxo) × (view u a ≡ some c)
          × (spend_coins u a ≡ ok u')
          × Updates u a none u')
unfolding spend_coins view
spend_coins-Updates u a v = elim (Option-cases (find_index u.indexes a)) [
  | inl e ↦
      inl (
        view_of_absent u.indexes u.outputs a (find_index_absent u.indexes a e),
        rw (e, spend_coins),
      )
  | inr (k, e) ↦
      let (d, p) =
        view_of_present u.indexes u.outputs a v.in_step (find_index_present u.indexes a k e) in
      inr (
        d,
        record u {
          contents = record { indexes = erase_at u.indexes k; outputs = erase_at u.outputs k };
        },
        p,
        rw (e, spend_coins),
        (
          record {
            distinct = erase_at-Distinct u.indexes k v.distinct;
            in_step = length-erase_at u.indexes u.outputs k v.in_step;
          },
          refl,
          λ j. view_of_erase u.indexes u.outputs a k j v.in_step v.distinct e,
        ),
      )
]
