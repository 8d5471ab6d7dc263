-- ===== src/Node/Contracts.antt =====
-- node/node.js: a transaction that makes or calls a contract.
use cil_core.Base.{
  ℕ, ◌+◌, ◌-◌, Bool, true, false, ◌&&◌, not, Option, none, some, [], ltb, leb, ◌==◌, if◌then◌else◌,
  is_some, Error, type_error, unexpected_situation, wrong_concilium, small_fee, contract_exists,
  overspent, Result, ok, err, ◌>>=◌, ◌>>◌, guard, or_throw,
}
use cil_core.Base.Int.{ℤ, pos, negsuc, ◌+ℤ◌, scale, exceeds}
use cil_core.JsMap.{set, has}
use cil_core.Contract
use cil_core.Contract.{Contract, ContractProto}
use cil_core.Contract.Workaround.{dirty_workaround}
use cil_core.Receipt
use cil_core.Receipt.{TxReceipt, tx_status_ok, tx_status_failed}
use cil_core.Patch
use cil_core.Patch.{PatchDb, Codec}
use cil_core.Transaction
use cil_core.Transaction.Types.{Transaction}
use cil_core.App.{setup_variables, coins_spent, get_data_delta}
use cil_core.App.Types.{App, Environment, Invocation}
use cil_core.App.Run.{run_contract, create_contract}
use cil_core.Storage
use cil_core.Node.Types.{NodeEnv, NodeState}
use cil_core.Node.Fees.{
  get_fee_contract_creation, get_fee_contract_invocation, get_fee_internal_tx, get_fee_storage,
  is_time_to_fork_serializer1, is_time_to_fork_serializer3,
}
use cil_core.Node.Callbacks.{create_internal_tx, send_coins, nested}

-- What a contract finds about its transaction; address and balance are filled in later.
unfoldable pub make_environment : NodeEnv → NodeState → Transaction → ℕ → Environment
make_environment env s tx sent = record {
  contract_tx = Transaction.get_hash env.tx_env tx;
  caller_address = Transaction.get_tx_signer_address env.tx_env tx;
  value = sent;
  contract_addr = 0;
  balance = 0;
  block = s.processed_block;
}

-- How the `try` ends: with what it threw, if it did; the contract, if there is one; whether it is
-- new; the application and the patch.
pub record Attempt : Type 0 where
  pub result : Result (Unit {0})
  pub contract : Option Contract
  pub fresh : Bool
  pub app : App
  pub patch : PatchDb

unfoldable pub try_creation :
    NodeEnv → NodeState → Transaction → Environment → App → PatchDb → Attempt
try_creation env s tx environment app patch =
    let failed : Error → App → Attempt = λ e after. record {
      result = err e;
      contract = none;
      fresh = false;
      app = after;
      patch = patch;
    } in
    let address = env.address_of_hash (Transaction.get_hash env.tx_env tx) in
    let ready : Result ℕ = (do
      guard (leb app.fees.contract_creation app.coins_limit) small_fee
      guard (not (is_some (Storage.get_contract env.storage_env s.storage address))) contract_exists
      code ← Transaction.get_contract_code tx
      or_throw code type_error) in
    elim ready [
      | err e ↦ failed e app
      | ok code ↦
          let (made, after) =
            create_contract env.vm env.storage_env.codec.contract app code
              (record environment { contract_addr = address }) Contract.version_v8 in
          elim made [
            | err e ↦ failed e after
            | ok c ↦ record {
              result = ok tt;
              contract = some c;
              fresh = true;
              app = after;
              patch = patch;
            }
          ]
    ]

-- An empty code is the default call.
unfoldable pub read_invocation : NodeEnv → Transaction → Result Invocation
read_invocation env tx = do
  code ← Transaction.get_contract_code tx
  elim code [
    | none ↦ ok (record { method = none; arguments = [] })
    | some text ↦ env.parse_invocation text
  ]

unfoldable pub same_concilium : Option ℕ → ℕ → Bool
same_concilium none id = false
same_concilium (some own) id = own == id

-- What is read before the contract runs: what to run, and the contract's address.
unfoldable pub ready_to_invoke : NodeEnv → Transaction → App → Contract → Result (Invocation × ℕ)
unfolding read_invocation same_concilium
ready_to_invoke env tx app c = do
  guard (leb app.fees.contract_invocation app.coins_limit) small_fee
  guard (same_concilium c.concilium_id tx.concilium_id) wrong_concilium
  address ← Contract.get_stored_address c
  invocation ← read_invocation env tx
  ok (invocation, address)

unfoldable pub try_invocation :
    NodeEnv → NodeState → PatchDb → Transaction → Environment → App → PatchDb → Contract → Attempt
unfolding ready_to_invoke
try_invocation env s block tx environment app patch c =
    let hash = Transaction.get_hash env.tx_env tx in
    elim (ready_to_invoke env tx app c) [
      | err e ↦ record {
        result = err e;
        contract = some c;
        fresh = false;
        app = app;
        patch = patch;
      }
      | ok (invocation, address) ↦
          let ran =
            run_contract env.vm env.storage_env.codec.contract (send_coins env hash)
              (nested env s block hash env.nesting) invocation
              (record { contract = c; proxied = false })
              (record environment { contract_addr = address; balance = c.balance }) none false
              (record { app = app; patch = patch }) in
          record {
            result = ran.outcome >>= λ _. ok tt;
            contract = some ran.contract;
            fresh = false;
            app = ran.exec.app;
            patch = ran.exec.patch;
          }
    ]

-- The size of the transaction, what the run spent, and the data it stored.
unfoldable pub coins_used_of : ℕ → App → ℕ → ℤ
coins_used_of fee_size app fee_storage =
    (pos fee_size +ℤ coins_spent app) +ℤ scale (get_data_delta app) fee_storage

-- The last test of the `try`.
unfoldable pub check_used : Attempt → ℤ → ℕ → Result (Unit {0})
check_used a used max_coins = do _ ← a.result; guard (not (exceeds used max_coins)) overspent

-- A negative number of coins used, after a run that frees much data, has no receipt in the model.
unfoldable pub natural : ℤ → Result ℕ
natural (pos n) = ok n
natural (negsuc n) = err unexpected_situation

unfoldable pub make_receipt : NodeEnv → Attempt → Result (Unit {0}) → ℕ → Result TxReceipt
make_receipt env a ended used =
    let created : Result (Option ℕ) = elim a.contract [
      | none ↦ ok none
      | some c ↦ if a.fresh then (do x ← Contract.get_stored_address c; ok (some x)) else ok none
    ] in
    do
      address ← created
      ok (record {
        contract_address = address;
        coins_used = used;
        status = elim ended [ ok _ ↦ tx_status_ok | err e ↦ tx_status_failed ];
        message = elim ended [ ok _ ↦ none | err e ↦ some (env.message_of e) ];
        internal_txns = [];
        coins = [];
      })

-- `setContract` and `deposit`: the deposit reaches the patch where it keeps this very object.
unfoldable pub store_contract : NodeEnv → Transaction → Contract → ℕ → PatchDb → Result PatchDb
store_contract env tx c sent patch = do
  let owned : Contract = elim c.concilium_id [
    | none ↦ Contract.set_concilium_id c tx.concilium_id
    | some id ↦ c
  ]
  address ← Contract.get_stored_address owned
  Patch.set_contract env.storage_env.codec patch
      (if has patch.contracts address then owned else Contract.deposit owned sent)

-- The fee, and the patch with the change. `shared` says whether the patch holds this very receipt.
unfoldable pub create_contract_change :
    NodeEnv → Transaction → ℕ → PatchDb → TxReceipt → Bool → Result (ℕ × PatchDb)
create_contract_change env tx max_fee patch receipt shared = do
  let fee = receipt.coins_used
  guard (leb fee max_fee) overspent
  to ← Transaction.get_contract_change_receiver tx
  let hash = Transaction.get_hash env.tx_env tx
  elim to [
    | none ↦ ok (max_fee - fee, patch)
    | some address ↦
        let change : Result (ℕ × PatchDb) = (do
          (utxo, patch') ← create_internal_tx env patch address (max_fee - fee) hash
          let (added, receipt') = Receipt.add_internal_utxo receipt utxo
          _ ← added
          ok (
            fee,
            if shared
                then record patch' { receipts = set patch'.receipts hash receipt' }
                else patch',
          )) in
        if max_fee - fee == 0 then ok (fee, patch) else change
  ]

-- The end of `_processContract`, once the receipt is in the patch.
unfoldable pub settle :
    NodeEnv
    → NodeState
    → Bool
    → Transaction
    → Attempt
    → TxReceipt
    → Bool
    → PatchDb
    → ℕ
    → Result (ℕ × PatchDb)
unfolding store_contract create_contract_change
settle env s is_genesis tx a receipt shared patch max_coins = do
  sent ← Transaction.get_contract_sent_amount tx
  patch' ← elim a.contract [
    | none ↦ ok patch
    | some c ↦ do
      (_, c') ←
          if is_time_to_fork_serializer3 env s
          then dirty_workaround env.storage_env.codec.contract false c
          else ok (false, c)
      if Receipt.is_successful receipt then store_contract env tx c' sent patch else ok patch
  ]
  let returned =
      is_some a.contract
      && not (Receipt.is_successful receipt)
      && ltb 0 sent
      && is_time_to_fork_serializer1 env s
  let coins = if returned then max_coins + sent else max_coins
  let change = create_contract_change env tx coins patch' receipt shared
  if is_genesis
      then ok (0, patch')
      else (if ltb coins receipt.coins_used then ok (coins, patch') else change)

-- The fee, and the patch of the transaction. `max_coins` is at least the fee for the size.
unfoldable pub process_contract :
    NodeEnv
    → NodeState
    → Bool
    → Option Contract
    → Transaction
    → PatchDb
    → PatchDb
    → ℕ
    → ℕ
    → Result (ℕ × PatchDb)
unfolding make_environment try_creation try_invocation coins_used_of check_used natural make_receipt
    settle
process_contract env s is_genesis contract tx patch block max_coins fee_size = do
  started ← elim contract [
    | none ↦ ok none
    | some c ↦
        if is_time_to_fork_serializer1 env s
        then (do
          c' ← Contract.switch_serializer env.storage_env.codec.contract Contract.version_json c
          ok (some c'))
        else ok (some c)
  ]
  sent ← Transaction.get_contract_sent_amount tx
  fee_storage ← get_fee_storage env s tx is_genesis
  creation ← get_fee_contract_creation env s tx is_genesis
  invocation ← get_fee_contract_invocation env s tx is_genesis
  internal ← get_fee_internal_tx env s tx is_genesis
  let environment = make_environment env s tx sent
  let app =
      setup_variables
        (record {
          contract_creation = creation;
          contract_invocation = invocation;
          internal_tx = internal;
        })
        (max_coins - fee_size)
  let attempt : Attempt = elim started [
    | none ↦ try_creation env s tx environment app patch
    | some c ↦ try_invocation env s block tx environment app patch c
  ]
  let used = coins_used_of fee_size attempt.app fee_storage
  coins ← natural used
  receipt ← make_receipt env attempt (check_used attempt used max_coins) coins
  let (held, patch') = Patch.set_receipt attempt.patch (Transaction.get_hash env.tx_env tx) receipt
  merged ← held
  settle env s is_genesis tx attempt receipt (not (is_some merged)) patch' max_coins
