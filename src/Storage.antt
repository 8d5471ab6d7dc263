-- ===== src/Storage.antt =====
-- storage/persistentStorage.js: the databases of a node. A database of LevelDB is a map from keys to
-- bytes, whose `put`, `get`, `del` and `batch` are those of a map; a key's prefix says which map of
-- the model it is in. Peers and the files of accounts are left out.
pub mod Types
pub mod Definitions
pub mod Laws
pub mod Blocks
use cil_core.Base.{
  ℕ, zero, suc, ◌+◌, ◌-◌, ◌*◌, ◌/◌, ◌%◌, ◌≤◌, ◌<◌, ◌≡◌, refl, sym, ap, ◌∙◌, subst, ◌≢◌, ◌↔◌, ◌⊎◌,
  inl, inr, Bool, true, false, ◌&&◌, ◌||◌, not, Option, none, some, List, [], ◌∷◌, ◌++◌, map, arith,
  ltb, leb, ◌==◌, if◌then◌else◌, eq_of_test, test_self, test_ne, Bool-cases, Option-cases, is_some,
  or_else, length, get_elem?, erase_at, filter, all, length-append, length-filter-le, length-map,
  contains, contains-append, contains-filter, contains-unique, unique_after-Distinct, Distinct,
  unique, unique_after, Error, already_added, already_deleted, already_spent, integrity,
  unexpected_fork, double_spend, different_conciliums, tx_collision, failed_tx, less_coins_used,
  concilium_specified, type_error, not_initialised, round_exceeded, not_supposed, not_found,
  wrong_address, no_block, zero_quorum, no_views, already_in_mempool, no_tx, no_address,
  no_contract_concilium, insufficient_funds, unexpected_situation, oversize, already_signed,
  bad_index, signing_chosen, bad_inputs, bad_outputs, bad_proofs, not_coinbase, bad_amount,
  block_final, not_final, empty_block, bad_parents, bad_signatures, bad_merkle, bad_height,
  out_of_coins, claim_failed, no_utxo, recursion, too_many_coins, unknown_concilium, bad_signature,
  few_signatures, wrong_concilium, small_fee, contract_exists, bad_parent, missed_block,
  not_positive, overspent, no_contract, no_method, not_aligned, already_saved, no_index,
  not_in_wallet, already_in_wallet, unknown_block, bad_block, no_fee, no_vertex, not_witness,
  no_parents, already_exists, skip, take, tail, take-append, take-skip, length-skip, Result, ok,
  err, ◌>>=◌, ◌>>◌, guard, or_throw, Result-cases, >>=-eq-ok,
}
use cil_core.JsMap.{Map, get, set, delete, has}
use cil_core.Utxo
use cil_core.Utxo.{Coins, Utxo}
use cil_core.Contract
use cil_core.Contract.{Contract, ContractProto}
use cil_core.Contract.Workaround.{dirty_workaround}
use cil_core.Receipt
use cil_core.Receipt.{TxReceipt}
use cil_core.Patch
use cil_core.Patch.{PatchDb, Codec}
use cil_core.Block
use cil_core.Block.Types.{Header, Block}
use cil_core.BlockInfo
use cil_core.BlockInfo.{BlockInfo}
use cil_core.Transaction.Types.{Transaction, TxEnv}
use Types.{Storage, StorageEnv, Definition, or_default}

unfoldable pub get_block_info : StorageEnv → Storage → ℕ → Result BlockInfo
get_block_info env s hash = do
  bytes ← or_throw (get s.infos hash) unknown_block
  ok (env.decode_info bytes)

unfoldable pub save_block_info : StorageEnv → Storage → BlockInfo → Storage
save_block_info env s bi = record s {
  infos = set s.infos (BlockInfo.get_hash env.block_env bi) (env.encode_info bi);
}

unfoldable pub remove_block_info : Storage → ℕ → Storage
remove_block_info s hash = record s { infos = delete s.infos hash }

-- It looks for the information on the block, not for the block.
unfoldable pub has_block : StorageEnv → Storage → ℕ → Bool
unfolding get_block_info
has_block env s hash = elim (get_block_info env s hash) [ err e ↦ false | ok bi ↦ true ]

-- The loop of `_storeTxnsIndex`, and of `_storeInternalTxnsIndex`.
unfoldable pub store_index : Map ℕ → ℕ → List ℕ → Map ℕ
store_index index source [] = index
store_index index source (h ∷ hs) = store_index (set index h source) source hs

-- `blockInfo` is optional. The hash of the block is computed and kept by the block.
unfoldable pub save_block : StorageEnv → TxEnv → Storage → Block → Option BlockInfo → Result Storage
unfolding has_block save_block_info store_index
save_block env txenv s block info = do
  (hash, b) ← Block.hash env.block_env txenv block
  guard (not (has_block env s hash)) already_saved
  let stored : Storage = record s {
    blocks = set s.blocks hash (env.encode_block b.header b.txns b.signatures);
  }
  let bi = or_default info (BlockInfo.create b.header)
  let saved = save_block_info env stored bi
  ok (
      if s.build_tx_index
      then record saved { tx_index = store_index saved.tx_index hash (Block.get_tx_hashes txenv b) }
      else saved)

unfoldable pub remove_block : Storage → ℕ → Storage
remove_block s hash = record s { blocks = delete s.blocks hash }

unfoldable pub get_block : StorageEnv → Storage → ℕ → Result Block
get_block env s hash = do
  bytes ← or_throw (get s.blocks hash) no_block
  let (header, txns, signatures) = env.decode_block bytes
  ok (Block.from_parts header txns signatures true)

-- A block that is not known stops the loop, after what was done before it.
unfoldable pub remove_bad_blocks : StorageEnv → Storage → List ℕ → Result (Unit {0}) × Storage
unfolding get_block_info save_block_info remove_block
remove_bad_blocks env s [] = (ok tt, s)
remove_bad_blocks env s (hash ∷ hashes) = elim (get_block_info env s hash) [
  | err e ↦ (err e, s)
  | ok bi ↦
      remove_bad_blocks env (remove_block (save_block_info env s (BlockInfo.mark_as_bad bi)) hash)
        hashes
]

unfoldable pub get_utxo : StorageEnv → Storage → ℕ → Result Utxo
get_utxo env s hash = do
  bytes ← or_throw (get s.utxos hash) no_utxo
  ok (Utxo.restore env.codec.utxo hash bytes)

unfoldable pub check_tx_collision : StorageEnv → Storage → List ℕ → Result (Unit {0})
unfolding get_utxo
check_tx_collision env s [] = ok tt
check_tx_collision env s (hash ∷ hashes) =
    let rest = check_tx_collision env s hashes in
    elim (get_utxo env s hash) [ err e ↦ rest | ok u ↦ err tx_collision ]

-- The loop of `getUtxosPatch`: what is missing is passed over.
unfoldable pub add_utxos : StorageEnv → Storage → List ℕ → PatchDb → PatchDb
unfolding get_utxo
add_utxos env s [] patch = patch
add_utxos env s (hash ∷ hashes) patch =
    add_utxos env s hashes
      (elim (get_utxo env s hash) [ err e ↦ patch | ok u ↦ Patch.set_utxo env.codec patch u ])

unfoldable pub get_utxos_patch : StorageEnv → Storage → List ℕ → PatchDb
unfolding add_utxos
get_utxos_patch env s hashes = add_utxos env s hashes Patch.empty

-- The operations on coins that the batch holds, done in order.
unfoldable pub write_coins : StorageEnv → List (ℕ × Utxo) → Map (List ℕ) → Result (Map (List ℕ))
write_coins env [] db = ok db
write_coins env ((hash, utxo) ∷ rest) db = do
  gone ← Utxo.is_empty utxo
  write_coins env rest
      (if gone then delete db hash else set db hash (env.codec.utxo.encode utxo.contents))

unfoldable pub write_contract : StorageEnv → ℕ → Contract → Result (List ℕ)
write_contract env height c = do
  (_, c') ←
      if ltb height env.height_fork_serializer_fix3
      then dirty_workaround env.codec.contract false c
      else ok (false, c)
  (bytes, _) ← Contract.encode env.codec.contract c'
  ok bytes

unfoldable pub write_contracts :
    StorageEnv → ℕ → List (ℕ × Contract) → Map (List ℕ) → Result (Map (List ℕ))
unfolding write_contract
write_contracts env height [] db = ok db
write_contracts env height ((address, c) ∷ rest) db = do
  bytes ← write_contract env height c
  write_contracts env height rest (set db address bytes)

unfoldable pub write_receipts : StorageEnv → List (ℕ × TxReceipt) → Map (List ℕ) → Map (List ℕ)
write_receipts env [] db = db
write_receipts env ((hash, r) ∷ rest) db =
    write_receipts env rest (set db hash (env.codec.receipt.encode r))

unfoldable pub index_receipts : List (ℕ × TxReceipt) → Map ℕ → Map ℕ
unfolding store_index
index_receipts [] index = index
index_receipts ((hash, r) ∷ rest) index =
    index_receipts rest (store_index index hash r.internal_txns)

-- The batch is written only when all of it was built.
unfoldable pub apply_patch : StorageEnv → Storage → PatchDb → ℕ → Result Storage
unfolding write_coins write_contracts write_receipts index_receipts
apply_patch env s patch height = do
  utxos ← write_coins env patch.coins s.utxos
  contracts ← write_contracts env height patch.contracts s.contracts
  let forgets : Bool = elim env.definition_contract [
    | none ↦ false
    | some a ↦ has patch.contracts a
  ]
  ok (record s {
    utxos = utxos;
    contracts = contracts;
    receipts = write_receipts env patch.receipts s.receipts;
    internal_index =
        if s.build_tx_index
        then index_receipts patch.receipts s.internal_index
        else s.internal_index;
    definitions = if forgets then none else s.definitions;
  })

unfoldable pub get_tx_receipt : StorageEnv → Storage → ℕ → Option TxReceipt
get_tx_receipt env s hash = elim (get s.receipts hash) [
  | none ↦ none
  | some bytes ↦ some (env.codec.receipt.decode bytes)
]

unfoldable pub get_contract : StorageEnv → Storage → ℕ → Option Contract
get_contract env s address = elim (get s.contracts address) [
  | none ↦ none
  | some bytes ↦ some (Contract.restore env.codec.contract bytes (some address))
]

unfoldable pub get_last_applied_block_hashes : Storage → List ℕ
get_last_applied_block_hashes s = s.last_applied

unfoldable pub update_last_applied_blocks : Storage → List ℕ → Storage
update_last_applied_blocks s hashes = record s { last_applied = hashes }

unfoldable pub get_pending_block_hashes : Storage → List ℕ
get_pending_block_hashes s = s.pending

unfoldable pub update_pending_blocks : Storage → List ℕ → Storage
update_pending_blocks s hashes = record s { pending = hashes }

unfoldable pub get_tx_block : Storage → ℕ → Result (Option ℕ)
get_tx_block s hash = do guard s.build_tx_index no_index; ok (get s.tx_index hash)

-- A block that cannot be read is as one that is not in the index.
unfoldable pub find_block_by_tx_hash : StorageEnv → Storage → ℕ → Result (Option Block)
unfolding get_tx_block get_block
find_block_by_tx_hash env s hash = do
  block_hash ← get_tx_block s hash
  ok (elim block_hash [
    | none ↦ none
    | some h ↦ elim (get_block env s h) [ err e ↦ none | ok b ↦ some b ]
  ])

unfoldable pub find_internal_tx : Storage → ℕ → Result (Option ℕ)
find_internal_tx s hash = do guard s.build_tx_index no_index; ok (get s.internal_index hash)

unfoldable pub is_block_banned : Storage → ℕ → Bool
is_block_banned s hash = contains s.banned hash
