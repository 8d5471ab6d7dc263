-- ===== src/Node/Blocks.antt =====
-- node/node.js: checking and executing a block. Its hash is computed once and passed on; the graph of
-- all blocks is read as a map from hashes to their information, and the pending one by its entries.
use cil_core.Base.{
  ℕ, suc, ◌+◌, Bool, true, false, ◌||◌, not, Option, none, some, List, [], ◌∷◌, ltb, ◌==◌,
  if◌then◌else◌, is_some, contains, type_error, bad_height, unknown_concilium, bad_signature,
  few_signatures, wrong_concilium, bad_parent, tail, Result, ok, ◌>>=◌, ◌>>◌, guard, or_throw,
}
use cil_core.Patch
use cil_core.Patch.{PatchDb, Codec}
use cil_core.Patch.Merge
use cil_core.Utxo.{Coins}
use cil_core.Transaction
use cil_core.Transaction.Types.{Transaction, TxEnv}
use cil_core.Block
use cil_core.Block.Types.{Block}
use cil_core.BlockInfo
use cil_core.BlockInfo.{BlockInfo}
use cil_core.Storage
use cil_core.Conciliums.Concilium
use cil_core.Conciliums.Concilium.{Concilium}
use cil_core.Pending.Types.{Entry}
use cil_core.Pending.{merge_patches}
use cil_core.Node.Types.{NodeEnv, NodeState}
use cil_core.Node.Fees.{definition_of}
use cil_core.Node.Transactions.{process_tx}

unfoldable pub is_genesis_block : NodeEnv → ℕ → Bool
is_genesis_block env hash = hash == env.storage_env.block_env.genesis_block

-- The `reduce` of `_calcHeight`. Reading the height of a block that is not known throws.
unfoldable pub max_height : (ℕ → Option BlockInfo) → List ℕ → ℕ → Result ℕ
max_height infos [] max = ok max
max_height infos (h ∷ hs) max = do
  bi ← or_throw (infos h) type_error
  max_height infos hs (if ltb bi.height max then max else bi.height)

unfoldable pub calc_height : (ℕ → Option BlockInfo) → List ℕ → Result ℕ
unfolding max_height
calc_height infos parents = do n ← max_height infos parents 0; ok (n + 1)

unfoldable pub check_height : (ℕ → Option BlockInfo) → Block → Result (Unit {0})
unfolding calc_height
check_height infos block = do
  n ← calc_height infos block.parent_hashes
  guard (n == block.height) bad_height

-- The sum of the weights of those who signed. A signature that nothing is recovered from throws.
unfoldable pub gather_weight : TxEnv → Concilium → ℕ → List ℕ → ℕ → Result ℕ
gather_weight env c hash [] gathered = ok gathered
gather_weight env c hash (sig ∷ sigs) gathered = do
  address ← or_throw (env.recover hash sig) bad_signature
  guard (contains (Concilium.get_addresses c) address) bad_signature
  weight ← Concilium.get_witness_weight c address
  gather_weight env c hash sigs (gathered + weight)

-- `_verifyBlockSignatures`, once the concilium is known.
unfoldable pub verify_signatures_of : TxEnv → Concilium → ℕ → List ℕ → Result (Unit {0})
unfolding gather_weight
verify_signatures_of env c hash sigs = do
  gathered ← gather_weight env c hash sigs 0
  guard (not (ltb gathered (Concilium.get_quorum c))) few_signatures

unfoldable pub verify_block_signatures : NodeEnv → NodeState → ℕ → Block → Result (Unit {0})
unfolding verify_signatures_of
verify_block_signatures env s hash block = do
  found ← definition_of env s block.concilium_id
  d ← or_throw found unknown_concilium
  verify_signatures_of env.tx_env d.concilium hash block.signatures

unfoldable pub verify_block : NodeEnv → NodeState → ℕ → Block → Bool → Result (Unit {0})
unfolding is_genesis_block verify_block_signatures
verify_block env s hash block check_signatures =
    let checked : Result (Unit {0}) = (do
      Block.verify env.storage_env.block_env env.tx_env block check_signatures
      if check_signatures then verify_block_signatures env s hash block else ok tt
      Storage.check_tx_collision env.storage_env s.storage
          (Block.get_tx_hashes env.tx_env block)) in
    if is_genesis_block env hash then ok tt else checked

unfoldable pub is_block_executed : (ℕ → Option BlockInfo) → (ℕ → Option Entry) → ℕ → Bool
is_block_executed infos pending hash =
    elim (infos hash) [ none ↦ false | some bi ↦ BlockInfo.is_final bi ] || is_some (pending hash)

-- The loop of `_canExecuteBlock`.
unfoldable pub parents_executed : (ℕ → Option BlockInfo) → (ℕ → Option Entry) → List ℕ → Result Bool
unfolding is_block_executed
parents_executed infos pending [] = ok true
parents_executed infos pending (h ∷ hs) = do
  guard (not (elim (infos h) [ none ↦ false | some bi ↦ BlockInfo.is_bad bi ])) bad_parent
  let rest = parents_executed infos pending hs
  if is_block_executed infos pending h then rest else ok false

unfoldable pub can_execute_block :
    NodeEnv → (ℕ → Option BlockInfo) → (ℕ → Option Entry) → ℕ → List ℕ → Result Bool
unfolding is_genesis_block parents_executed
can_execute_block env infos pending hash parents =
    let all = parents_executed infos pending parents in
    if is_genesis_block env hash then ok true else all

-- The loop of `_execBlock`: the fees, and the state with the patches of the transactions.
unfoldable pub exec_txns :
    NodeEnv → NodeState → Bool → ℕ → List Transaction → PatchDb → ℕ → Result (ℕ × PatchDb)
exec_txns env s is_genesis id [] state fees = ok (fees, state)
exec_txns env s is_genesis id (tx ∷ txns) state fees = do
  guard (tx.concilium_id == id) wrong_concilium
  (fee, patch) ← process_tx env s (some state) is_genesis tx
  state' ← Patch.Merge.merge env.storage_env.codec state patch true
  exec_txns env s is_genesis id txns state' (fees + fee)

unfoldable pub create_all : ℕ → ℕ → List Coins → PatchDb → Result PatchDb
create_all hash i [] patch = ok patch
create_all hash i (c ∷ cs) patch = do
  patch' ← if c.amount == 0 then ok patch else Patch.create_coins patch hash i c
  create_all hash (suc i) cs patch'

-- Without transactions `new Transaction(undefined)` is an empty one.
unfoldable pub coinbase_of : Block → Transaction
coinbase_of block = elim block.txns [ [] ↦ Transaction.create | tx ∷ rest ↦ tx ]

unfoldable pub process_block_coinbase_tx : NodeEnv → ℕ → Block → ℕ → PatchDb → Result PatchDb
unfolding coinbase_of create_all is_genesis_block
process_block_coinbase_tx env hash block fees state = do
  let coinbase = coinbase_of block
  if is_genesis_block env hash then ok tt else Transaction.verify_coinbase coinbase fees
  create_all (Transaction.get_hash env.tx_env coinbase) 0 (Transaction.get_out_coins coinbase) state

-- The body of `_execBlock`, for a block that was not executed.
unfoldable pub exec_new_block :
    NodeEnv → NodeState → (ℕ → Option BlockInfo) → (ℕ → Option Entry) → ℕ → Block → Result PatchDb
unfolding is_genesis_block check_height exec_txns process_block_coinbase_tx
exec_new_block env s infos pending hash block = do
  if is_genesis_block env hash then ok tt else check_height infos block
  merged ← merge_patches env.storage_env.codec pending block.parent_hashes
  state ← Patch.set_concilium_id merged (some block.concilium_id)
  (fees, state') ←
      exec_txns env s (is_genesis_block env hash) block.concilium_id (tail block.txns) state 0
  if is_genesis_block env hash
      then ok state'
      else process_block_coinbase_tx env hash block fees state'

-- `null` for a block that was executed before.
unfoldable pub exec_block :
    NodeEnv
    → NodeState
    → (ℕ → Option BlockInfo)
    → (ℕ → Option Entry)
    → ℕ
    → Block
    → Result (Option PatchDb)
unfolding is_block_executed exec_new_block
exec_block env s infos pending hash block =
    let run : Result (Option PatchDb) = (do
      p ← exec_new_block env s infos pending hash block
      ok (some p)) in
    if is_block_executed infos pending hash then ok none else run
