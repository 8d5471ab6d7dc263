-- ===== src/Tests/Nodes.antt =====
-- node/node.js and node/witness.js on a block with one payment, and on a contract that sends coins.
use cil_core.Base.{
  ℕ, suc, ◌+◌, ◌≤◌, ◌<◌, ◌≡◌, refl, ◌⊎◌, true, false, Option, none, some, [], ◌∷◌, ◌++◌, arith,
  ◌==◌, if◌then◌else◌, type_error, bad_amount, ok, err,
}
use cil_core.JsMap
use cil_core.Base.Int.{pos}
use cil_core.Utxo
use cil_core.Utxo.{Coins, Utxo}
use cil_core.Contract
use cil_core.Contract.{Contract}
use cil_core.Patch
use cil_core.Patch.{PatchDb}
use cil_core.Patch.View.{unspent}
use cil_core.Patch.Merge
use cil_core.Transaction
use cil_core.Block
use cil_core.Block.Types.{Block}
use cil_core.BlockInfo.{BlockInfo}
use cil_core.App
use cil_core.App.{process_tx_inputs, process_payments, coins_spent}
use cil_core.App.Types.{App, Environment, Vm, throws, sends}
use cil_core.App.Run.{run_script}
use cil_core.App.Taken.{worth}
use cil_core.Storage
use cil_core.Storage.Definitions
use cil_core.Pending
use cil_core.Pending.Types.{Entry}
use cil_core.Pending.{merge_patches}
use cil_core.Node.Types.{NodeEnv, NodeState}
use cil_core.Node.Fees
use cil_core.Node.Fees.{calculate_size_fee}
use cil_core.Node.Callbacks
use cil_core.Node.Callbacks.{balance_of, send_coins}
use cil_core.Node.Contracts.{try_invocation}
use cil_core.Node.Transactions
use cil_core.Node.Transactions.{find_contract, coins_for, process_tx}
use cil_core.Node.Conservation.{process_tx-worth}
use cil_core.Node.Limit.{try_invocation-coins_spent}
use cil_core.Node.Rollback.{run_script-unspent}
use cil_core.Node.Blocks
use cil_core.Node.Blocks.{create_all, exec_new_block, exec_txns, coinbase_of}
use cil_core.Node.Checks.{AllBelow, SomeAt, Executed, exec_new_block-amount_out}
use cil_core.Witness
use cil_core.Witness.{create_block}
use cil_core.Witness.Grown.{all_of, left_out_fees}
use cil_core.Witness.Accepted.{create_block-exec_new_block}
use cil_core.Tests.Codecs.{codec}
use cil_core.Tests.Envs.{tx_env, storage_env}
use cil_core.Tests.Patches.{left, left-IsValid}
use cil_core.Tests.Payments.{payment}
use cil_core.Tests.Blocks.{header_at, no_data, complete}

-- Every contract fails at once.
abbrev vm : Vm
vm = record {
  construct = λ code e. ok (0, code);
  has_method = λ code m. true;
  default_method = 0;
  run = λ code m args c. throws type_error c.contract_data;
}

abbrev node_env : NodeEnv
node_env = record {
  storage_env = storage_env;
  tx_env = tx_env;
  vm = vm;
  internal_hash = λ hash nonce. 9000 + hash + nonce;
  address_of_hash = λ hash. hash;
  parse_invocation = λ n. ok (record { method = none; arguments = [] });
  message_of = λ e. 0;
  nesting = 3;
  tx_fee = 10;
  contract_creation_fee = 50;
  contract_invocation_fee = 20;
  internal_tx_fee = 5;
  storage_per_byte_fee = 1;
  height_fork_serializer = 0;
  height_fork_serializer_fix2 = 0;
  height_fork_serializer_fix3 = 0;
}

abbrev node : NodeState
node = record { storage = record no_data { definitions = some [] }; processed_block = none }

abbrev gone : Utxo
gone = record { tx_hash = 7; contents = record { indexes = []; outputs = [] } }

abbrev infos : ℕ → Option BlockInfo
infos h = if h == 70 then some (record { header = header_at 1 [] 3; flags = 4 }) else none

abbrev held : ℕ → Option Entry
held h =
    if h == 70
    then some (record { patch = left; block_header = header_at 1 [] 3; is_empty = false })
    else none

abbrev three : Coins
three = record { amount = 3; receiver = 5 }

abbrev fee_paid : Coins
fee_paid = record { amount = 1; receiver = 6 }

-- What the payment changes.
abbrev paid_patch : PatchDb
paid_patch = record Patch.empty {
  coins =
      (7, gone)
      ∷ (
        1003,
        record { tx_hash = 1003; contents = record { indexes = 0 ∷ []; outputs = three ∷ [] } },
      )
      ∷ [];
  spent = (7, (3, 1003) ∷ []) ∷ [];
}

found : coins_for node_env node (some left) payment ≡ ok left
unfolding coins_for Patch.has_utxos Transaction.utxos JsMap.get Merge.merge JsMap.keys
    Storage.get_utxos_patch JsMap.set Utxo.clone
found = refl

accepted : process_tx node_env node (some left) false payment ≡ ok (1, paid_patch)
unfolding process_tx find_contract Transaction.is_contract_creation Transaction.get_contract_addr
    Callbacks.get_contract_by_addr Patch.get_contract JsMap.get Storage.get_contract Patch.create
    Transactions.take_inputs process_tx_inputs App.process_inputs App.process_input
    App.verify_pay_to_addr App.claim_proof Transaction.get_tx_signature Transaction.get_hash
    Patch.get_utxo Patch.spend_coins Patch.set_spent_output Patch.get_spent_outputs
    Utxo.coins_at_index Utxo.spend_coins Utxo.find_index Utxo.clone JsMap.set process_payments
    App.pay_from Transaction.get_out_coins Patch.create_coins Utxo.add_coins Utxo.create
    Patch.has_utxos Transaction.utxos Merge.merge JsMap.keys Storage.get_utxos_patch
    calculate_size_fee Transaction.get_size Fees.fee_for Fees.definition_of
    Definitions.get_concilium_by_id
accepted = refl

process_tx-worth_example :
    (1 + Transaction.amount_out payment ≡ worth left payment.ins)
    × (n : ℕ) × (calculate_size_fee node_env node payment false ≡ ok n)
    × (n < 1)
unfolding find_contract Transaction.is_contract_creation Transaction.get_contract_addr
    Callbacks.get_contract_by_addr Patch.get_contract JsMap.get Storage.get_contract
process_tx-worth_example =
    process_tx-worth node_env node (some left) payment left paid_patch 1 refl found left-IsValid
      accepted

-- The block of the payment, and its patch.
abbrev made : Block
made = record complete { hash_cache = some 5004 }

abbrev block_patch : PatchDb
block_patch = record paid_patch {
  coins =
      paid_patch.coins
      ++ (
        1004,
        record { tx_hash = 1004; contents = record { indexes = 0 ∷ []; outputs = fee_paid ∷ [] } },
      )
        ∷ [];
  spent = (7, (0, 20) ∷ (3, 1003) ∷ []) ∷ [];
  concilium_level = (1, 1) ∷ [];
}

executed : exec_new_block node_env node infos held 5004 made ≡ ok block_patch
unfolding exec_new_block Blocks.is_genesis_block Blocks.check_height Blocks.calc_height
    Blocks.max_height merge_patches Pending.merge_strict Patch.set_concilium_id exec_txns
    Blocks.process_block_coinbase_tx coinbase_of Blocks.create_all Transaction.verify_coinbase
    Transaction.is_coinbase Transaction.is_coinbase_input Transaction.amount_out
    Transaction.sum_outs process_tx find_contract Transaction.is_contract_creation
    Transaction.get_contract_addr Callbacks.get_contract_by_addr Patch.get_contract JsMap.get
    Storage.get_contract Patch.create Transactions.take_inputs process_tx_inputs App.process_inputs
    App.process_input App.verify_pay_to_addr App.claim_proof Transaction.get_tx_signature
    Transaction.get_hash Patch.get_utxo Patch.spend_coins Patch.set_spent_output
    Patch.get_spent_outputs Utxo.coins_at_index Utxo.spend_coins Utxo.find_index Utxo.clone
    JsMap.set process_payments App.pay_from Transaction.get_out_coins Patch.create_coins
    Utxo.add_coins Utxo.create Patch.has_utxos Transaction.utxos Merge.merge JsMap.keys
    Storage.get_utxos_patch calculate_size_fee Transaction.get_size Fees.fee_for Fees.definition_of
    Definitions.get_concilium_by_id coins_for Utxo.array_intersection
executed = refl

exec_new_block-amount_out_example :
    (merged state after : PatchDb) × (fees n : ℕ) × (merge_patches codec held (70 ∷ []) ≡ ok merged)
    × (Patch.set_concilium_id merged (some 1) ≡ ok state)
    × Executed node_env node 1 (payment ∷ []) state fees after
    × (Transaction.is_coinbase (coinbase_of made) ≡ true)
    × (Transaction.amount_out (coinbase_of made) ≡ fees)
    × (create_all
          (Transaction.get_hash tx_env (coinbase_of made))
          0
          (Transaction.get_out_coins (coinbase_of made))
          after
        ≡ ok block_patch)
    × (4 ≡ suc n)
    × AllBelow infos (70 ∷ []) n
    × ((n ≡ 0) ⊎ SomeAt infos (70 ∷ []) n)
unfolding Blocks.is_genesis_block
exec_new_block-amount_out_example =
    exec_new_block-amount_out node_env node infos held 5004 made block_patch refl executed

created :
    create_block node_env node infos 1 (70 ∷ []) left (payment ∷ []) 10 (λ n. false) 6 50
    ≡ ok (5004, made, block_patch, [])
unfolding create_block Witness.add_txns Witness.include_tx Witness.new_block Block.create
    Block.set_parent_hashes Block.set_height Block.mark_as_building Block.add_tx
    Fees.get_fee_size_per_input Fees.choose_fee Block.finish Transaction.create_coinbase
    Transaction.create Transaction.add_input Transaction.check_done Transaction.set_concilium_id
    Transaction.add_receiver Transaction.add_output Block.pay_fees Block.fee_dev_foundation
    Block.dev_share Block.build_tx_tree Block.get_tx_hashes Block.hash exec_new_block
    Blocks.is_genesis_block Blocks.check_height Blocks.calc_height Blocks.max_height merge_patches
    Pending.merge_strict Patch.set_concilium_id exec_txns Blocks.process_block_coinbase_tx
    coinbase_of Blocks.create_all Transaction.verify_coinbase Transaction.is_coinbase
    Transaction.is_coinbase_input Transaction.amount_out Transaction.sum_outs process_tx
    find_contract Transaction.is_contract_creation Transaction.get_contract_addr
    Callbacks.get_contract_by_addr Patch.get_contract JsMap.get Storage.get_contract Patch.create
    Transactions.take_inputs process_tx_inputs App.process_inputs App.process_input
    App.verify_pay_to_addr App.claim_proof Transaction.get_tx_signature Transaction.get_hash
    Patch.get_utxo Patch.spend_coins Patch.set_spent_output Patch.get_spent_outputs
    Utxo.coins_at_index Utxo.spend_coins Utxo.find_index Utxo.clone JsMap.set process_payments
    App.pay_from Transaction.get_out_coins Patch.create_coins Utxo.add_coins Utxo.create
    Patch.has_utxos Transaction.utxos Merge.merge JsMap.keys Storage.get_utxos_patch
    calculate_size_fee Transaction.get_size Fees.fee_for Fees.definition_of
    Definitions.get_concilium_by_id coins_for Utxo.array_intersection
created = refl

parents_merged : merge_patches codec held (70 ∷ []) ≡ ok left
unfolding merge_patches Pending.merge_strict Merge.merge JsMap.keys JsMap.get JsMap.set Utxo.clone
parents_merged = refl

-- The merged state, as one of the concilium 1.
abbrev opened : PatchDb
opened = record left { concilium_level = (1, 1) ∷ []; concilium_id = some 1 }

create_block-exec_new_block_example : exec_new_block node_env node infos held 5004 made ≡ (
    if left_out_fees node_env node 10 (λ n. false) (payment ∷ []) opened == 0
    then ok block_patch
    else err bad_amount)
unfolding all_of Patch.set_concilium_id JsMap.set JsMap.get Blocks.is_genesis_block
create_block-exec_new_block_example =
    create_block-exec_new_block node_env node infos held 1 (70 ∷ []) left opened (payment ∷ []) 10
      (λ n. false) 6 50 5004 made block_patch [] refl parents_merged refl refl created

-- A contract with the balance 30, and what it is called with.
abbrev funded : Contract
funded = Contract.create codec.contract 0 none (some 1) 30 (some 40)

abbrev environment : Environment
environment = record {
  contract_tx = 1003;
  caller_address = some 2;
  value = 0;
  contract_addr = 40;
  balance = 30;
  block = none;
}

abbrev app : App
app = record {
  fees = record { contract_creation = 50; contract_invocation = 20; internal_tx = 5 };
  initial_coins = 100;
  coins_limit = 100;
  data_delta = pos 0;
  data_sizes = some (0 ∷ []);
  frames = some (record { contract = funded; proxied = false }) ∷ [];
}

try_invocation-coins_spent_example :
    let after = (try_invocation node_env node left payment environment app left funded).app in
    (after.coins_limit ≤ 100) × (n : ℕ) × (coins_spent after ≡ pos n) × (n ≤ 100)
try_invocation-coins_spent_example =
    try_invocation-coins_spent node_env node left payment environment app left funded (omega arith)

run_script-unspent_example :
    let ran =
      run_script
        (send_coins node_env 1003)
        (λ call c x. (ok 0, 0, x))
        environment
        (sends 8 12 (λ sent. throws type_error 0))
        (record { app = app; patch = left }) in
    (ran.0 ≡ err type_error)
    × (unspent ((ran.2).patch) 10003 0 ≡ some (record { amount = 12; receiver = 8 }))
unfolding balance_of Contract.create
run_script-unspent_example =
    run_script-unspent node_env (λ call c x. (ok 0, 0, x)) environment 1003 8 12 0 type_error
      (record { app = app; patch = left }) (omega arith) (omega arith) (omega arith)
