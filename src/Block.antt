-- ===== src/Block.antt =====
-- structures/block.js. The hash of a header, the Merkle root of transaction hashes, the clock and
-- random bytes are parameters.
pub mod Types
pub mod Laws
use cil_core.Base.{
  ℕ, zero, suc, ◌+◌, ◌-◌, ◌*◌, ◌/◌, ◌%◌, ◌≤◌, ◌<◌, ◌≡◌, refl, sym, ap, ◌∙◌, subst, ◌≢◌, ◌↔◌, ◌⊎◌,
  inl, inr, Bool, true, false, ◌&&◌, ◌||◌, not, Option, none, some, List, [], ◌∷◌, ◌++◌, map, arith,
  ltb, leb, ◌==◌, if◌then◌else◌, eq_of_test, test_self, test_ne, Bool-cases, Option-cases, is_some,
  or_else, length, get_elem?, erase_at, filter, all, length-append, length-filter-le, length-map,
  contains, contains-append, contains-filter, contains-unique, unique_after-Distinct, Distinct,
  unique, unique_after, Error, already_added, already_deleted, already_spent, integrity,
  unexpected_fork, double_spend, different_conciliums, tx_collision, failed_tx, less_coins_used,
  concilium_specified, type_error, not_initialised, round_exceeded, not_supposed, not_found,
  wrong_address, no_block, zero_quorum, no_views, already_in_mempool, no_tx, no_address,
  no_contract_concilium, insufficient_funds, unexpected_situation, oversize, already_signed,
  bad_index, signing_chosen, bad_inputs, bad_outputs, bad_proofs, not_coinbase, bad_amount,
  block_final, not_final, empty_block, bad_parents, bad_signatures, bad_merkle, bad_height,
  out_of_coins, claim_failed, no_utxo, recursion, too_many_coins, unknown_concilium, bad_signature,
  few_signatures, wrong_concilium, small_fee, contract_exists, bad_parent, missed_block,
  not_positive, overspent, no_contract, no_method, Result, ok, err, ◌>>=◌, ◌>>◌, guard, or_throw,
  Result-cases, >>=-eq-ok,
}
use cil_core.Transaction
use cil_core.Transaction.Types.{Transaction, TxEnv}
use Types.{Header, Block, BlockEnv}

-- The constructor with a concilium id.
unfoldable pub create : ℕ → Block
create id = record {
  header = record {
    parent_hashes = [];
    merkle_root = none;
    concilium_id = id;
    timestamp = 0;
    version = 1;
    height = 0;
  };
  txns = [];
  signatures = [];
  final = false;
  building = false;
  hash_cache = none;
}

-- The constructor on an object, and on bytes: those are of a finished block.
unfoldable pub from_parts : Header → List Transaction → List ℕ → Bool → Block
from_parts header txns signatures final = record {
  header = record header { version = if header.version == 0 then 1 else header.version };
  txns = txns;
  signatures = signatures;
  final = final;
  building = false;
  hash_cache = none;
}

unfoldable pub set_parent_hashes : Block → List ℕ → Block
set_parent_hashes b hashes = record b {
  hash_cache = none;
  header = record (b.header) { parent_hashes = hashes };
}

unfoldable pub set_height : Block → ℕ → Block
set_height b n = record b { header = record (b.header) { height = n } }

unfoldable pub mark_as_building : Block → Block
mark_as_building b = record b { building = true }

unfoldable pub get_timestamp : Block → ℕ → ℕ
get_timestamp b now = if b.building then now else b.timestamp

unfoldable pub get_tx_hashes : TxEnv → Block → List ℕ
get_tx_hashes env b = map (Transaction.get_hash env) b.txns

unfoldable pub build_tx_tree : BlockEnv → TxEnv → Block → Result ℕ
unfolding get_tx_hashes
build_tx_tree env txenv b = do
  guard (not (length b.txns == 0)) empty_block
  ok (env.merkle (get_tx_hashes txenv b))

-- The hash, and the block with the root and the hash it keeps.
unfoldable pub hash : BlockEnv → TxEnv → Block → Result (ℕ × Block)
unfolding build_tx_tree
hash env txenv b =
    let compute : Result (ℕ × Block) = (do
      root ← build_tx_tree env txenv b
      let header : Header = record (b.header) { merkle_root = some root }
      ok (
        env.hash_header header,
        record b { header = header; hash_cache = some (env.hash_header header) },
      )) in
    let cached : Result (ℕ × Block) = elim b.hash_cache [ none ↦ compute | some h ↦ ok (h, b) ] in
    if b.building then ok (env.genesis_block, b) else if b.final then cached else err not_final

unfoldable pub add_tx : Block → Transaction → Result Block
add_tx b tx = do
  guard (not b.final) block_final
  ok (record b { hash_cache = none; txns = b.txns ++ tx ∷ [] })

unfoldable pub is_empty : Block → Bool
is_empty b = elim b.txns [ [] ↦ false | tx ∷ rest ↦ length rest == 0 && Transaction.is_coinbase tx ]

-- `parseInt(DEV_FOUNDATION_SHARE * fees)`, where the share is 0.1.
unfoldable pub dev_share : ℕ → ℕ
dev_share fees = fees / 10

-- What goes to the developer foundation: nothing, unless it is worth spending.
unfoldable pub fee_dev_foundation : ℕ → ℕ → ℕ
unfolding dev_share
fee_dev_foundation fees min_useful =
    if leb (min_useful * 2) (dev_share fees) then dev_share fees else 0

-- The outputs of the coinbase, for fees that are not 0.
unfoldable pub pay_fees : BlockEnv → Transaction → ℕ → ℕ → ℕ → Result Transaction
unfolding fee_dev_foundation dev_share
pay_fees env coinbase fees receiver min_useful = do
  let dev = fee_dev_foundation fees min_useful
  tx ←
      if leb (min_useful * 2) (dev_share fees)
      then Transaction.add_receiver coinbase dev env.dev_foundation_address
      else ok coinbase
  tx' ← Transaction.add_receiver tx (fees - dev) receiver
  Transaction.add_receiver tx' 0 env.random_address

unfoldable pub finish : BlockEnv → TxEnv → Block → ℕ → ℕ → ℕ → ℕ → Result Block
unfolding pay_fees build_tx_tree
finish env txenv b fees receiver min_useful now = do
  empty ← Transaction.create_coinbase
  let coinbase = Transaction.set_concilium_id empty b.concilium_id
  paid ← if fees == 0 then ok coinbase else pay_fees env coinbase fees receiver min_useful
  let b' : Block = record b { building = false; hash_cache = none; txns = paid ∷ b.txns }
  root ← build_tx_tree env txenv b'
  ok (record b' {
    header = record (b'.header) { merkle_root = some root; timestamp = now };
    final = true;
  })

unfoldable pub add_witness_signatures : Block → List ℕ → Block
add_witness_signatures b sigs = record b { signatures = sigs }

unfoldable pub same_root : Option ℕ → ℕ → Bool
same_root none root = false
same_root (some r) root = r == root

unfoldable pub verify : BlockEnv → TxEnv → Block → Bool → Result (Unit {0})
unfolding build_tx_tree same_root
verify env txenv b check_signatures = do
  guard (not (length b.parent_hashes == 0)) bad_parents
  guard (not check_signatures || not (length b.signatures == 0)) bad_signatures
  root ← build_tx_tree env txenv b
  guard (same_root b.merkle_root root) bad_merkle
  guard (ltb 0 b.height) bad_height
