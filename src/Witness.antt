-- ===== src/Witness.antt =====
-- node/witness.js: a witness makes a block. Its wallet, which may add a joining transaction to those of
-- the pool, and the clock, which may end the loop early, are arguments.
pub mod Grown
pub mod Accepted
use cil_core.Base.{
  ℕ, zero, suc, ◌+◌, ◌-◌, ◌*◌, ◌/◌, ◌%◌, ◌≤◌, ◌<◌, ◌≡◌, refl, sym, ap, ◌∙◌, subst, ◌≢◌, ◌↔◌, ◌⊎◌,
  inl, inr, Bool, true, false, ◌&&◌, ◌||◌, not, Option, none, some, List, [], ◌∷◌, ◌++◌, map, arith,
  ltb, leb, ◌==◌, if◌then◌else◌, eq_of_test, test_self, test_ne, Bool-cases, Option-cases, is_some,
  or_else, length, get_elem?, erase_at, filter, all, length-append, length-filter-le, length-map,
  contains, contains-append, contains-filter, contains-unique, unique_after-Distinct, Distinct,
  unique, unique_after, Error, already_added, already_deleted, already_spent, integrity,
  unexpected_fork, double_spend, different_conciliums, tx_collision, failed_tx, less_coins_used,
  concilium_specified, type_error, not_initialised, round_exceeded, not_supposed, not_found,
  wrong_address, no_block, zero_quorum, no_views, already_in_mempool, no_tx, no_address,
  no_contract_concilium, insufficient_funds, unexpected_situation, oversize, already_signed,
  bad_index, signing_chosen, bad_inputs, bad_outputs, bad_proofs, not_coinbase, bad_amount,
  block_final, not_final, empty_block, bad_parents, bad_signatures, bad_merkle, bad_height,
  out_of_coins, claim_failed, no_utxo, recursion, too_many_coins, unknown_concilium, bad_signature,
  few_signatures, wrong_concilium, small_fee, contract_exists, bad_parent, missed_block,
  not_positive, overspent, no_contract, no_method, not_aligned, already_saved, no_index,
  not_in_wallet, already_in_wallet, unknown_block, bad_block, no_fee, no_vertex, not_witness,
  no_parents, already_exists, skip, take, tail, take-append, take-skip, length-skip, append_assoc,
  append_nil, Result, ok, err, ◌>>=◌, ◌>>◌, guard, or_throw, Result-cases, >>=-eq-ok,
}
use cil_core.Patch
use cil_core.Patch.{PatchDb}
use cil_core.Patch.Merge
use cil_core.Transaction
use cil_core.Transaction.Types.{Transaction}
use cil_core.Block
use cil_core.Block.Types.{Block}
use cil_core.BlockInfo.{BlockInfo}
use cil_core.Node.Types.{NodeEnv, NodeState}
use cil_core.Node.Fees.{get_fee_size_per_input}
use cil_core.Node.Transactions.{process_tx}
use cil_core.Node.Blocks.{calc_height, process_block_coinbase_tx}

-- The block so far, the merged state, the fees, and the transactions that failed.
pub record Draft : Type 0 where
  pub block : Block
  pub state : PatchDb
  pub fees : ℕ
  pub bad : List ℕ

-- One transaction that was executed, and whether nothing was thrown. Its fee is counted before its
-- patch is merged.
unfoldable pub include_tx : NodeEnv → Transaction → ℕ → PatchDb → Draft → Bool × Draft
include_tx env tx fee patch d =
    let paid : Draft = record d { fees = d.fees + fee } in
    let failed : Draft = record paid { bad = d.bad ++ Transaction.get_hash env.tx_env tx ∷ [] } in
    elim (Patch.Merge.merge env.storage_env.codec d.state patch true) [
      | err e ↦ (false, failed)
      | ok state ↦ elim (Block.add_tx d.block tx) [
        | err e ↦ (false, record failed { state = state })
        | ok block ↦ (true, record paid { state = state; block = block })
      ]
    ]

-- The loop over the transactions. `late` says when the time is over, by the transactions that are
-- left; it is looked at after a transaction that threw nothing.
unfoldable pub add_txns : NodeEnv → NodeState → ℕ → (ℕ → Bool) → List Transaction → Draft → Draft
unfolding include_tx
add_txns env s max_utxo late [] d = d
add_txns env s max_utxo late (tx ∷ txns) d =
    let skipped = add_txns env s max_utxo late txns d in
    let failed =
      add_txns env s max_utxo late txns
        (record d { bad = d.bad ++ Transaction.get_hash env.tx_env tx ∷ [] }) in
    let tried : Draft = elim (process_tx env s (some d.state) false tx) [
      | err e ↦ failed
      | ok (fee, patch) ↦
          let (done, d') = include_tx env tx fee patch d in
          let next = add_txns env s max_utxo late txns d' in
          if done && late (length txns) then d' else next
    ] in
    if ltb max_utxo (length tx.ins) then skipped else tried

-- The block with its parents and height, before it has transactions.
unfoldable pub new_block : ℕ → List ℕ → ℕ → Block
new_block id parents height =
    Block.set_height (Block.set_parent_hashes (Block.mark_as_building (Block.create id)) parents)
      height

-- `parents` and `merged` are what `getBestParents` gave. The hash, the block, its patch and the
-- transactions to remove from the pool. What is thrown is logged, and leaves the block unfinished.
unfoldable pub create_block :
    NodeEnv
    → NodeState
    → (ℕ → Option BlockInfo)
    → ℕ
    → List ℕ
    → PatchDb
    → List Transaction
    → ℕ
    → (ℕ → Bool)
    → ℕ
    → ℕ
    → Result (ℕ × Block × PatchDb × List ℕ)
unfolding add_txns new_block
create_block env s infos id parents merged txns max_utxo late receiver now = do
  state ← Patch.set_concilium_id merged (some id)
  guard (not (length parents == 0)) no_parents
  height ← calc_height infos parents
  let start : Draft = record {
    block = new_block id parents height;
    state = state;
    fees = 0;
    bad = [];
  }
  let draft = add_txns env s max_utxo late txns start
  min_useful ← get_fee_size_per_input env s id
  finished ←
      Block.finish env.storage_env.block_env env.tx_env draft.block draft.fees receiver min_useful
        now
  (hash, block) ← Block.hash env.storage_env.block_env env.tx_env finished
  patch ← process_block_coinbase_tx env hash block draft.fees draft.state
  ok (hash, block, patch, draft.bad)
