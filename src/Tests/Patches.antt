-- ===== src/Tests/Patches.antt =====
-- storage/patch.js on concrete inputs: two patches that spend outputs of one transaction.
use cil_core.Base.{
  ℕ, ◌≡◌, refl, ◌⊎◌, true, ◌&&◌, none, some, [], ◌∷◌, arith, ◌==◌, if◌then◌else◌, is_some,
  already_added, already_deleted, already_spent, double_spend, ok, err,
}
use cil_core.JsMap.{get, set, keys}
use cil_core.Utxo
use cil_core.Utxo.{Coins, Utxo}
use cil_core.Utxo.View.{view}
use cil_core.Patch
use cil_core.Patch.{
  PatchDb, empty, set_spent_output, spend_coins, create_coins, get_spent_outputs, get_level,
  get_utxo,
}
use cil_core.Patch.View.{unspent, spent_by, IsValid, empty-IsValid}
use cil_core.Patch.Spend.{
  current, install, install-IsValid, set_spent-IsValid, spend_coins_lem, create_coins_lem,
}
use cil_core.Patch.Stable.{Overspends, validate_against_stable_lem}
use cil_core.Patch.Merge
use cil_core.Patch.Merge.{merge, check_fork}
use cil_core.Patch.Merge.Entry.{IsMerged, Conflict}
use cil_core.Patch.Merge.Safety.{merge-IsMerged, merge-Conflict, merge_comm}
use cil_core.Tests.Codecs.{codec}
use cil_core.Tests.Utxos.{ten, both_outputs, both_outputs-IsValid, only_four, only_four-IsValid}

abbrev only_ten : Utxo
only_ten = record { tx_hash = 7; contents = record { indexes = 0 ∷ []; outputs = ten ∷ [] } }

only_ten-IsValid : Utxo.IsValid only_ten
only_ten-IsValid = record { distinct = (refl, tt); in_step = refl }

-- `left` has spent output 0 of transaction 7 in transaction 20.
abbrev pub left : PatchDb
left = record empty { coins = (7, only_four) ∷ []; spent = (7, (0, 20) ∷ []) ∷ [] }

-- `right` has spent output 3 of it in transaction 21.
abbrev pub right : PatchDb
right = record empty { coins = (7, only_ten) ∷ []; spent = (7, (3, 21) ∷ []) ∷ [] }

-- `rival` has spent output 0 of it in transaction 22.
abbrev rival : PatchDb
rival = record empty { coins = (7, only_four) ∷ []; spent = (7, (0, 22) ∷ []) ∷ [] }

spent_once-IsValid :
    (u : Utxo) (i t : ℕ)
    → Utxo.IsValid u
    → u.tx_hash ≡ 7
    → view u i ≡ none
    → IsValid (record empty { coins = (7, u) ∷ []; spent = (7, (i, t) ∷ []) ∷ [] })
unfolding set_spent_output set get get_spent_outputs unspent spent_by
spent_once-IsValid u i t vu e gone =
    set_spent-IsValid (install empty 7 u) 7 i t
      (install-IsValid empty 7 u empty-IsValid vu e (λ j s k. absurd (cc))) refl gone

pub left-IsValid : IsValid left
unfolding view
left-IsValid = spent_once-IsValid only_four 0 20 only_four-IsValid refl refl

pub right-IsValid : IsValid right
unfolding view
right-IsValid = spent_once-IsValid only_ten 3 21 only_ten-IsValid refl refl

rival-IsValid : IsValid rival
unfolding view
rival-IsValid = spent_once-IsValid only_four 0 22 only_four-IsValid refl refl

spend_coins_lem_example :
    ((view (current empty both_outputs) 0 ≡ none)
      × (spend_coins codec empty both_outputs 0 20 ≡ err already_deleted))
    ⊎ ((c : Coins) × (p' : PatchDb) × (view (current empty both_outputs) 0 ≡ some c)
        × (spend_coins codec empty both_outputs 0 20 ≡ ok p')
        × IsValid p'
        × ((j k : ℕ)
            → unspent p' j k ≡ (
                if 7 == j
                then (if 0 == k then none else view (current empty both_outputs) k)
                else unspent empty j k))
        × ((j k : ℕ)
            → spent_by p' j k ≡ (if 7 == j && 0 == k then some 20 else spent_by empty j k)))
spend_coins_lem_example =
    spend_coins_lem codec empty both_outputs 0 20 empty-IsValid both_outputs-IsValid

create_coins_lem_example :
    ((d : Coins) × (unspent left 7 5 ≡ some d) × (create_coins left 7 5 ten ≡ err already_added))
    ⊎ ((p' : PatchDb) × (unspent left 7 5 ≡ none)
        × (create_coins left 7 5 ten ≡ ok p')
        × IsValid p'
        × ((j k : ℕ) → unspent p' j k ≡ (if 7 == j && 5 == k then some ten else unspent left j k))
        × ((j k : ℕ) → spent_by p' j k ≡ spent_by left j k))
unfolding spent_by get_spent_outputs get
create_coins_lem_example = create_coins_lem left 7 5 ten left-IsValid refl

-- Merged, both outputs are spent.
abbrev merged : PatchDb
merged = record empty {
  coins = (7, record { tx_hash = 7; contents = record { indexes = []; outputs = [] } }) ∷ [];
  spent = (7, (0, 20) ∷ (3, 21) ∷ []) ∷ [];
}

abbrev merged_back : PatchDb
merged_back = record merged { spent = (7, (3, 21) ∷ (0, 20) ∷ []) ∷ [] }

merge-left-right : merge codec left right true ≡ ok merged
unfolding merge check_fork Merge.merge_levels Merge.merge_coins Merge.merge_coin Merge.merge_both
    Merge.create_all Merge.check_spends Merge.set_spent_all Merge.merge_contracts
    Merge.merge_receipts Merge.keys_unique set_spent_output get_spent_outputs get_utxo
    Patch.set_utxo get_level create_coins Utxo.create Utxo.clone Utxo.restore Utxo.add_coins
    Utxo.find_index Utxo.array_intersection Utxo.coins_at_index get set keys spend_coins
merge-left-right = refl

merge-right-left : merge codec right left true ≡ ok merged_back
unfolding merge check_fork Merge.merge_levels Merge.merge_coins Merge.merge_coin Merge.merge_both
    Merge.create_all Merge.check_spends Merge.set_spent_all Merge.merge_contracts
    Merge.merge_receipts Merge.keys_unique set_spent_output get_spent_outputs get_utxo
    Patch.set_utxo get_level create_coins Utxo.create Utxo.clone Utxo.restore Utxo.add_coins
    Utxo.find_index Utxo.array_intersection Utxo.coins_at_index get set keys spend_coins
merge-right-left = refl

merge-IsMerged_example :
    IsValid merged × ((h : ℕ) → IsMerged left right merged h × ¬ Conflict left right h)
merge-IsMerged_example =
    merge-IsMerged codec left right left-IsValid right-IsValid true {r = merged} merge-left-right

merge-Conflict_example : merge codec left rival true ≡ err double_spend
unfolding check_fork spent_by get_spent_outputs get
merge-Conflict_example =
    merge-Conflict codec left rival left-IsValid rival-IsValid true 7 refl
      (0, 20, 22, refl, refl, λ e. ground (arith, e))

merge_comm_example :
    (spent_by merged 7 3 ≡ spent_by merged_back 7 3)
    × (is_some (unspent merged 7 3) ≡ is_some (unspent merged_back 7 3))
merge_comm_example =
    merge_comm codec left right true true {r = merged} {s = merged_back} left-IsValid right-IsValid
      merge-left-right merge-right-left 7 3

validate_against_stable_lem_example :
    ((Patch.validate_against_stable left rival ≡ ok tt) × ¬ Overspends left rival)
    ⊎ ((Patch.validate_against_stable left rival ≡ err already_spent) × Overspends left rival)
validate_against_stable_lem_example =
    validate_against_stable_lem left rival left-IsValid rival-IsValid
