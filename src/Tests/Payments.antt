-- ===== src/Tests/Payments.antt =====
-- structures/transaction.js, node/app.js and structures/arrayOf.js on one payment: of the four coins of
-- the address 2 it sends three to the address 5.
use cil_core.Base.{
  ℕ, ◌≡◌, refl, true, none, some, List, [], ◌∷◌, arith, ◌==◌, if◌then◌else◌, or_else, skip, ok,
}
use cil_core.JsMap
use cil_core.Utxo
use cil_core.Utxo.{Coins, Utxo}
use cil_core.Utxo.Amounts.{total}
use cil_core.Patch
use cil_core.Patch.{PatchDb}
use cil_core.Patch.View.{unspent, spent_by, IsValid}
use cil_core.Transaction
use cil_core.Transaction.Types.{Transaction}
use cil_core.Transaction.{
  from_buffer, claim, add_input, add_receiver, sign_for_contract, get_hash, get_tx_signer_address,
  get_out_coins,
}
use cil_core.Transaction.Laws.{sign_for_contract-get_tx_signer_address}
use cil_core.App.{process_tx_inputs, process_payments}
use cil_core.App
use cil_core.App.Taken.{AllTaken, worth, no_repeats}
use cil_core.App.Inputs.{process_tx_inputs-AllTaken}
use cil_core.App.Payments.{paid, process_payments-paid}
use cil_core.ArrayOf
use cil_core.ArrayOf.{from_array, from_buffer-encode}
use cil_core.Tests.Codecs.{codec}
use cil_core.Tests.Envs.{tx_env, recovered-sum}
use cil_core.Tests.Patches.{left, left-IsValid}

abbrev three : Coins
three = record { amount = 3; receiver = 5 }

abbrev unsigned : Transaction
unsigned = record {
  payload = record {
    version = 1;
    concilium_id = 1;
    ins = record { tx_hash = 7; n_tx_output = 3 } ∷ [];
    outs =
        record { amount = 3; receiver_addr = 5; contract_code = none; addr_change_receiver = none }
        ∷ [];
  };
  claim_proofs = [];
  tx_signature = none;
}

abbrev pub payment : Transaction
payment = record unsigned { tx_signature = some 1005 }

sign_for_contract-get_tx_signer_address_example :
    (sent : Transaction) × (from_buffer tx_env 100
        (tx_env.encode (sign_for_contract tx_env unsigned 2))
      ≡ ok sent)
    × (get_hash tx_env sent ≡ get_hash tx_env unsigned)
    × (get_tx_signer_address tx_env sent ≡ some 2)
unfolding sign_for_contract get_hash
sign_for_contract-get_tx_signer_address_example =
    sign_for_contract-get_tx_signer_address tx_env (λ k. k) unsigned 100 2 recovered-sum
      (omega arith) (omega arith)

abbrev taken : PatchDb
taken = record Patch.empty {
  coins = (7, record { tx_hash = 7; contents = record { indexes = []; outputs = [] } }) ∷ [];
  spent = (7, (3, 1003) ∷ []) ∷ [];
}

process_tx_inputs-AllTaken_example :
    IsValid taken
    × AllTaken tx_env payment left taken 0 payment.ins
    × (no_repeats payment.ins ≡ true)
    × (4 ≡ worth left payment.ins)
unfolding process_tx_inputs App.process_inputs App.process_input App.verify_pay_to_addr
    App.claim_proof Transaction.get_tx_signature get_hash Patch.get_utxo Patch.spend_coins
    Patch.set_spent_output Patch.get_spent_outputs Patch.set_utxo Utxo.coins_at_index
    Utxo.spend_coins Utxo.find_index Utxo.clone JsMap.get JsMap.set
process_tx_inputs-AllTaken_example =
    process_tx_inputs-AllTaken codec tx_env payment left taken 4 left-IsValid refl

abbrev given : PatchDb
given = record taken {
  coins =
      (7, record { tx_hash = 7; contents = record { indexes = []; outputs = [] } })
      ∷ (
        1003,
        record { tx_hash = 1003; contents = record { indexes = 0 ∷ []; outputs = three ∷ [] } },
      )
      ∷ [];
}

taken-IsValid : IsValid taken
taken-IsValid = process_tx_inputs-AllTaken_example.0

process_payments-paid_example :
    IsValid given
    × (3 ≡ total (skip 0 (get_out_coins payment)))
    × ((h k : ℕ)
        → unspent given h k ≡ (
            if h == get_hash tx_env payment
            then or_else (paid 0 (skip 0 (get_out_coins payment)) k) (unspent taken h k)
            else unspent taken h k))
    × ((h k : ℕ) → spent_by given h k ≡ spent_by taken h k)
unfolding process_payments App.pay_from get_hash get_out_coins Patch.create_coins Utxo.add_coins
    Utxo.find_index Utxo.create JsMap.get JsMap.set spent_by Patch.get_spent_outputs
process_payments-paid_example =
    process_payments-paid tx_env payment taken given 0 3 taken-IsValid (λ k. refl) refl

from_buffer-encode_example :
    (from_array 2 ((1 ∷ 2 ∷ []) ∷ (3 ∷ 4 ∷ []) ∷ []) ≡ ok ((1 ∷ 2 ∷ []) ∷ (3 ∷ 4 ∷ []) ∷ []))
    × (ArrayOf.from_buffer 2 (ArrayOf.encode ((1 ∷ 2 ∷ []) ∷ (3 ∷ 4 ∷ []) ∷ []))
        ≡ ok ((1 ∷ 2 ∷ []) ∷ (3 ∷ 4 ∷ []) ∷ []))
    × (read : List (List ℕ)) × (ArrayOf.from_buffer 2 (5 ∷ 6 ∷ []) ≡ ok read)
    × (ArrayOf.encode read ≡ 5 ∷ 6 ∷ [])
unfolding ArrayOf.aligned
from_buffer-encode_example =
    from_buffer-encode 2 ((1 ∷ 2 ∷ []) ∷ (3 ∷ 4 ∷ []) ∷ []) (5 ∷ 6 ∷ []) (omega arith) refl refl
