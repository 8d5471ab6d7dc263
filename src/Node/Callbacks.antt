-- ===== src/Node/Callbacks.antt =====
-- node/node.js: what a running contract asks of the node, transfers and calls of other contracts.
use cil_core.Base.{
  ℕ, zero, suc, false, Option, none, some, List, [], ◌∷◌, ltb, ◌==◌, if◌then◌else◌, type_error,
  insufficient_funds, recursion, not_positive, no_contract, Result, ok, err, ◌>>=◌, ◌>>◌, guard,
  or_throw,
}
use cil_core.Utxo
use cil_core.Utxo.{Coins, Utxo}
use cil_core.Contract
use cil_core.Contract.{Contract, ContractProto}
use cil_core.Contract.Workaround.{dirty_workaround}
use cil_core.Receipt
use cil_core.Receipt.{TxReceipt, tx_status_ok}
use cil_core.Patch
use cil_core.Patch.{PatchDb, Codec}
use cil_core.App.Types.{Frame, Environment, Context, Invocation, Call, Exec, Ran}
use cil_core.App.Run.{run_contract}
use cil_core.Storage
use cil_core.Node.Types.{NodeEnv, NodeState}
use cil_core.Node.Fees.{is_time_to_fork_serializer2, is_time_to_fork_serializer3}

-- The new UTXO, and the patch with it.
unfoldable pub create_internal_tx : NodeEnv → PatchDb → ℕ → ℕ → ℕ → Result (Utxo × PatchDb)
create_internal_tx env patch receiver amount hash = do
  guard (ltb 0 amount) not_positive
  let (nonce, patch') = Patch.get_nonce patch
  utxo ←
      Utxo.add_coins (Utxo.create (env.internal_hash hash nonce)) 0
        (record { amount = amount; receiver = receiver })
  ok (utxo, Patch.set_utxo env.storage_env.codec patch' utxo)

-- `getBalance` of the innermost contract: a proxied one has that of the contract below it.
unfoldable pub balance_of : List (Option Frame) → ℕ
balance_of [] = 0
balance_of (none ∷ rest) = 0
balance_of (some f ∷ rest) =
    let below = balance_of rest in if f.proxied then below else f.contract.balance

-- `withdraw`, from the contract that has the balance.
unfoldable pub withdraw_from : List (Option Frame) → ℕ → Result (List (Option Frame))
withdraw_from [] amount = err type_error
withdraw_from (none ∷ rest) amount = err type_error
withdraw_from (some f ∷ rest) amount =
    let below : Result (List (Option Frame)) = (do
      rest' ← withdraw_from rest amount
      ok (some f ∷ rest')) in
    let own : Result (List (Option Frame)) = (do
      c ← Contract.withdraw f.contract amount
      ok (some (record f { contract = c }) ∷ rest)) in
    if f.proxied then below else own

-- `new TxReceipt({status: TX_STATUS_OK})`
abbrev pub fresh_receipt : TxReceipt
fresh_receipt = record {
  contract_address = none;
  coins_used = 0;
  status = tx_status_ok;
  message = none;
  internal_txns = [];
  coins = [];
}

-- What `_sendCoins` does once the amount is known to be there and not 0.
unfoldable pub transfer : NodeEnv → ℕ → ℕ → ℕ → Exec → Result (Unit {0}) × Exec
unfolding create_internal_tx withdraw_from
transfer env hash address amount x = elim (create_internal_tx env x.patch address amount hash) [
  | err e ↦ (err e, x)
  | ok (utxo, patch) ↦
      let (added, receipt) = Receipt.add_internal_utxo fresh_receipt utxo in
      let (held, patch') = Patch.set_receipt patch hash receipt in
      let x' : Exec = record x { patch = patch' } in
      elim (added >>= λ _. held >>= λ _. withdraw_from x.app.frames amount) [
        | err e ↦ (err e, x')
        | ok frames ↦ (ok tt, record x' { app = record (x.app) { frames = frames } })
      ]
]

unfoldable pub send_coins : NodeEnv → ℕ → ℕ → ℕ → Exec → Result (Unit {0}) × Exec
unfolding balance_of transfer
send_coins env hash address amount x =
    let sent : Result (Unit {0}) × Exec =
      if amount == 0 then (ok tt, x) else transfer env hash address amount x in
    if ltb (balance_of x.app.frames) amount then (err insufficient_funds, x) else sent

unfoldable pub get_contract_by_addr :
    NodeEnv → NodeState → Option PatchDb → ℕ → Result (Option Contract)
get_contract_by_addr env s block address =
    let stored = Storage.get_contract env.storage_env s.storage address in
    elim block [
      | none ↦ ok stored
      | some patch ↦ elim (Patch.get_contract patch address) [
        | none ↦ ok stored
        | some c ↦ do (copy, _) ← Contract.clone env.storage_env.codec.contract c; ok (some copy)
      ]
    ]

-- The contract that is called, on the data format of the time.
unfoldable pub find_nested : NodeEnv → NodeState → PatchDb → ℕ → Result Contract
unfolding get_contract_by_addr is_time_to_fork_serializer2
find_nested env s block address = do
  found ← get_contract_by_addr env s (some block) address
  c ← or_throw found no_contract
  if is_time_to_fork_serializer2 env s
      then Contract.switch_serializer env.storage_env.codec.contract Contract.version_json c
      else ok c

-- What is stored of a contract that was called.
unfoldable pub store_nested : NodeEnv → NodeState → Contract → PatchDb → Result PatchDb
unfolding is_time_to_fork_serializer3
store_nested env s c patch = do
  (_, c') ←
      if is_time_to_fork_serializer3 env s
      then dirty_workaround env.storage_env.codec.contract false c
      else ok (false, c)
  Patch.set_contract env.storage_env.codec patch c'

-- The contract that is called, with its address.
unfoldable pub locate_nested : NodeEnv → NodeState → PatchDb → ℕ → Result (Contract × ℕ)
unfolding find_nested
locate_nested env s block address = do
  c ← find_nested env s block address
  stored ← Contract.get_stored_address c
  ok (c, stored)

-- The end of a nested call, with the data that is left to the caller.
unfoldable pub end_nested : NodeEnv → NodeState → Ran → ℕ → Result ℕ × ℕ × Exec
unfolding store_nested
end_nested env s ran left = elim ran.outcome [
  | err e ↦ (err e, left, ran.exec)
  | ok v ↦ elim (store_nested env s ran.contract ran.exec.patch) [
    | err e ↦ (err e, left, ran.exec)
    | ok patch ↦ (ok v, left, record (ran.exec) { patch = patch })
  ]
]

-- `run` is `runContract` of the application. The outcome, the data of the caller's context, and what
-- was changed. A delegated call runs in that context, and on the balance of the caller.
unfoldable pub invoke_nested_contract :
    NodeEnv
    → NodeState
    → PatchDb
    → (Invocation → Frame → Environment → Option Context → Exec → Ran)
    → Call
    → Context
    → Exec
    → Result ℕ × ℕ × Exec
unfolding locate_nested end_nested balance_of
invoke_nested_contract env s block run call context x =
    elim (locate_nested env s block call.address) [
      | err e ↦ (err e, context.contract_data, x)
      | ok (c, address) ↦
          let frame : Frame = record { contract = c; proxied = call.delegate } in
          let environment : Environment = record (context.environment) {
            contract_addr = address;
            balance = balance_of (some frame ∷ x.app.frames);
          } in
          let given : Option Context = if call.delegate then some context else none in
          let ran = run call.invocation frame environment given x in
          end_nested env s ran (if call.delegate then ran.left else context.contract_data)
    ]

-- Contracts that call each other, up to a depth.
unfoldable pub nested :
    NodeEnv → NodeState → PatchDb → ℕ → ℕ → Call → Context → Exec → Result ℕ × ℕ × Exec
unfolding invoke_nested_contract send_coins
nested env s block hash zero call context x = (err recursion, context.contract_data, x)
nested env s block hash (suc depth) call context x =
    invoke_nested_contract env s block
      (λ invocation frame environment given y.
        run_contract env.vm env.storage_env.codec.contract (send_coins env hash)
          (nested env s block hash depth) invocation frame environment given false y)
      call context x
