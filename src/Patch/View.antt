-- ===== src/Patch/View.antt =====
-- A patch seen as two maps: the unspent coins and the spending transaction of each output; and what
-- holds of every patch that the operations build.
use cil_core.Base.{
  ℕ, ◌≡◌, refl, true, ◌&&◌, Option, none, some, [], arith, ◌==◌, if◌then◌else◌, Distinct,
}
use cil_core.JsMap.{Map, get, set, keys, has, get_or, get-set}
use cil_core.Utxo
use cil_core.Utxo.{Coins, Utxo, UtxoProto}
use cil_core.Utxo.View.{view}
use cil_core.Patch.{PatchDb, empty, get_spent_outputs, set_spent_output}

-- The unspent coins of an output, and the transaction that spent it.
abbrev pub at_utxo : Option Utxo → ℕ → Option Coins
at_utxo none i = none
at_utxo (some u) i = view u i

unfoldable pub unspent : PatchDb → ℕ → ℕ → Option Coins
unspent p h i = at_utxo (get p.coins h) i

unfoldable pub spent_by : PatchDb → ℕ → ℕ → Option ℕ
spent_by p h i = get (get_spent_outputs p h) i

pub record IsValid (p : PatchDb) : Type 0 where
  pub utxo_valid : (h : ℕ) (u : Utxo) → get p.coins h ≡ some u → Utxo.IsValid u × (u.tx_hash ≡ h)
  pub tracked : (h i t : ℕ) → spent_by p h i ≡ some t → has p.coins h ≡ true
  pub disjoint : (h i t : ℕ) → spent_by p h i ≡ some t → unspent p h i ≡ none
  pub spent_distinct : (h : ℕ) → Distinct (keys (get_spent_outputs p h))

pub empty-IsValid : IsValid empty
unfolding spent_by unspent get_spent_outputs get keys
empty-IsValid = record {
  utxo_valid = λ h u e. absurd (cc);
  tracked = λ h i t e. absurd (cc);
  disjoint = λ h i t e. refl;
  spent_distinct = λ h. tt;
}

pub get_spent_outputs-set :
    (p : PatchDb) (h i t j : ℕ)
    → get_spent_outputs (set_spent_output p h i t) j
      ≡ (if h == j then set (get_spent_outputs p h) i t else get_spent_outputs p j)
unfolding get_spent_outputs set_spent_output
get_spent_outputs-set p h i t j =
    ground (arith, get-set p.spent h j (set (get_or p.spent h []) i t))

pub spent_by-set :
    (p : PatchDb) (h i t j k : ℕ)
    → spent_by (set_spent_output p h i t) j k
      ≡ (if h == j && i == k then some t else spent_by p j k)
unfolding spent_by
spent_by-set p h i t j k =
    ground (arith, get_spent_outputs-set p h i t j, get-set (get_spent_outputs p h) i k t)

pub spent_by-coins :
    (p : PatchDb) (m : Map Utxo) (j k : ℕ) → spent_by (record p { coins = m }) j k ≡ spent_by p j k
unfolding spent_by get_spent_outputs
spent_by-coins p m j k = refl
