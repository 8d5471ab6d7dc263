-- ===== src/Tests/Utxos.antt =====
-- structures/utxo.js and structures/txReceipt.js on concrete inputs.
use cil_core.Base.{◌≡◌, refl, ◌↔◌, Bool, true, none, some, [], ◌∷◌, ok}
use cil_core.Utxo.{Coins, Utxo, IsValid, equals}
use cil_core.Utxo.Equality.{SameView, equals-SameView}
use cil_core.Receipt.{TxReceipt}

abbrev pub ten : Coins
ten = record { amount = 10; receiver = 1 }

abbrev pub four : Coins
four = record { amount = 4; receiver = 2 }

abbrev pub both_outputs : Utxo
both_outputs = record {
  tx_hash = 7;
  contents = record { indexes = 0 ∷ 3 ∷ []; outputs = ten ∷ four ∷ [] };
}

abbrev swapped : Utxo
swapped = record {
  tx_hash = 7;
  contents = record { indexes = 3 ∷ 0 ∷ []; outputs = four ∷ ten ∷ [] };
}

abbrev pub only_four : Utxo
only_four = record { tx_hash = 7; contents = record { indexes = 3 ∷ []; outputs = four ∷ [] } }

pub both_outputs-IsValid : IsValid both_outputs
both_outputs-IsValid = record { distinct = (refl, (refl, tt)); in_step = refl }

swapped-IsValid : IsValid swapped
swapped-IsValid = record { distinct = (refl, (refl, tt)); in_step = refl }

pub only_four-IsValid : IsValid only_four
only_four-IsValid = record { distinct = (refl, tt); in_step = refl }

equals-SameView_example :
    (b : Bool) × (equals both_outputs swapped ≡ ok b) × ((b ≡ true) ↔ SameView both_outputs swapped)
equals-SameView_example = equals-SameView both_outputs swapped both_outputs-IsValid swapped-IsValid

abbrev first : TxReceipt
first = record {
  contract_address = some 9;
  coins_used = 5;
  status = 1;
  message = none;
  internal_txns = 20 ∷ [];
  coins = ten ∷ [];
}

abbrev second : TxReceipt
second = record first { coins_used = 8; internal_txns = 21 ∷ []; coins = four ∷ [] }
