-- ===== src/Node/Transactions.antt =====
-- node/node.js: `_processTx`, for payments and for transactions of contracts. The node runs one
-- transaction at a time, as its mutex makes it.
use cil_core.Base.{
  ℕ, ◌+◌, ◌-◌, Bool, true, false, ◌||◌, Option, none, some, ltb, ◌==◌, if◌then◌else◌, is_some,
  small_fee, Result, ok, ◌>>=◌, ◌>>◌, guard,
}
use cil_core.Contract.{Contract}
use cil_core.Patch
use cil_core.Patch.{PatchDb, Codec}
use cil_core.Patch.Merge
use cil_core.Transaction
use cil_core.Transaction.Types.{Transaction}
use cil_core.App.{process_tx_inputs, process_payments}
use cil_core.Storage
use cil_core.Node.Types.{NodeEnv, NodeState}
use cil_core.Node.Fees.{calculate_size_fee}
use cil_core.Node.Callbacks.{get_contract_by_addr}
use cil_core.Node.Contracts.{process_contract}

-- `Number.MAX_SAFE_INTEGER`, what the transactions of Genesis may spend.
abbrev pub max_safe_integer : ℕ
max_safe_integer = 9007199254740991

-- Whether the transaction is one of a contract, and the contract it calls. No address is `none`.
unfoldable pub find_contract :
    NodeEnv → NodeState → Option PatchDb → Transaction → Result (Bool × Option Contract)
find_contract env s block tx = do
  creates ← Transaction.is_contract_creation env.tx_env tx
  address ← Transaction.get_contract_addr tx
  let called : Result (Bool × Option Contract) = (do
    c ← get_contract_by_addr env s block address
    ok (is_some c, c))
  if creates then ok (true, none) else called

-- The coins that the inputs are looked up in.
unfoldable pub coins_for : NodeEnv → NodeState → Option PatchDb → Transaction → Result PatchDb
coins_for env s block tx =
    let hashes = Transaction.utxos tx in
    let stored = Storage.get_utxos_patch env.storage_env s.storage hashes in
    elim block [
      | none ↦ ok stored
      | some patch ↦
          if Patch.has_utxos patch hashes == 0
          then ok stored
          else Patch.Merge.merge env.storage_env.codec patch stored false
    ]

-- The patch of the inputs, their sum, and the fee for the size. Genesis makes its own coins.
unfoldable pub take_inputs :
    NodeEnv → NodeState → Option PatchDb → Bool → Transaction → Result (PatchDb × ℕ × ℕ)
unfolding coins_for
take_inputs env s block is_genesis tx = do
  own ← Patch.create (some tx.concilium_id)
  let spent : Result (PatchDb × ℕ × ℕ) = (do
    coins ← coins_for env s block tx
    (patch, total) ← process_tx_inputs env.storage_env.codec env.tx_env tx coins
    fee_size ← calculate_size_fee env s tx is_genesis
    ok (patch, total, fee_size))
  if is_genesis then ok (own, 0, 0) else spent

-- `nRemainingCoins > nFeeSize`, where the remaining coins are `has - sent - to_contract`, which may be
-- negative.
unfoldable pub pays_for_size : ℕ → ℕ → ℕ → ℕ → Bool
pays_for_size has sent to_contract fee_size = ltb (fee_size + (sent + to_contract)) has

-- `patchForBlock || new PatchDB()`
unfoldable pub or_empty : Option PatchDb → PatchDb
or_empty none = Patch.empty
or_empty (some patch) = patch

-- The fee, and the patch of the transaction.
unfoldable pub process_tx :
    NodeEnv → NodeState → Option PatchDb → Bool → Transaction → Result (ℕ × PatchDb)
unfolding find_contract take_inputs pays_for_size or_empty
process_tx env s block is_genesis tx = do
  (is_contract, contract) ← find_contract env s block tx
  (patch, has, fee_size) ← take_inputs env s block is_genesis tx
  (patch', sent) ← process_payments env.tx_env tx patch (if is_contract then 1 else 0)
  to_contract ← if is_contract then Transaction.get_contract_sent_amount tx else ok 0
  let remaining = (if is_genesis then max_safe_integer else has - sent) - to_contract
  guard (is_genesis || pays_for_size has sent to_contract fee_size) small_fee
  let run = process_contract env s is_genesis contract tx patch' (or_empty block) remaining fee_size
  if is_contract then run else ok (if is_genesis then 0 else remaining, patch')
