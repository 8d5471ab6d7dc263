-- ===== src/Witness/Accepted.antt =====
-- node/witness.js and node/node.js: a block that a witness makes is executed by the others.
use cil_core.Base.{
  ℕ, ◌+◌, ◌≡◌, refl, ap, ◌∙◌, subst, inl, inr, Bool, true, false, not, Option, some, List, [], ◌∷◌,
  arith, ◌==◌, if◌then◌else◌, test_self, Bool-cases, length, bad_amount, no_parents, ok, err, guard,
  >>=-eq-ok,
}
use cil_core.Patch
use cil_core.Patch.{PatchDb}
use cil_core.Transaction
use cil_core.Transaction.Types.{Transaction}
use cil_core.Block
use cil_core.Block.Types.{Block}
use cil_core.Node.Types.{NodeEnv, NodeState}
use cil_core.BlockInfo.{BlockInfo}
use cil_core.Block.Laws.{SameHeader, finish-hash}
use cil_core.Pending.Types.{Entry}
use cil_core.Pending.{merge_patches}
use cil_core.Node.Fees.{get_fee_size_per_input}
use cil_core.Node.Blocks.{
  exec_txns, exec_new_block, calc_height, check_height, process_block_coinbase_tx, coinbase_of,
  is_genesis_block,
}
use cil_core.Witness.{Draft, add_txns, new_block, create_block}
use cil_core.Witness.Grown.{Grown, all_of, left_out_fees, add_txns-Grown}

header_of_new :
    (id : ℕ) (parents : List ℕ) (height : ℕ)
    → let b = new_block id parents height in
      (b.final ≡ false)
      × (b.parent_hashes ≡ parents)
      × (b.height ≡ height)
      × (b.concilium_id ≡ id)
      × (b.txns ≡ [])
unfolding new_block Block.set_height Block.set_parent_hashes Block.mark_as_building Block.create
header_of_new id parents height = (refl, refl, refl, refl, refl)

-- What making a block went through.
record Made (env : NodeEnv) (s : NodeState) (infos : ℕ → Option BlockInfo) (id : ℕ)
    (parents : List ℕ) (merged : PatchDb) (txns : List Transaction) (max_utxo : ℕ) (late : ℕ → Bool)
    (hash : ℕ) (block : Block) (patch : PatchDb) : Type 0 where
  state : PatchDb
  draft : Draft
  height : ℕ
  opened : Patch.set_concilium_id merged (some id) ≡ ok state
  known : calc_height infos parents ≡ ok height
  grown :
      Grown env s id
        (record { block = new_block id parents height; state = state; fees = 0; bad = [] })
        draft
        (left_out_fees env s max_utxo late txns state)
  same : SameHeader draft.block block
  coinbase : Transaction
  order : block.txns ≡ coinbase ∷ (draft.block).txns
  pays : Transaction.verify_coinbase coinbase draft.fees ≡ ok tt
  ends : process_block_coinbase_tx env hash block draft.fees draft.state ≡ ok patch

create_block-Made :
    (env : NodeEnv) (s : NodeState) (infos : ℕ → Option BlockInfo) (id : ℕ) (parents : List ℕ)
    (merged : PatchDb) (txns : List Transaction) (max_utxo : ℕ) (late : ℕ → Bool) (receiver now : ℕ)
    (hash : ℕ) (block : Block) (patch : PatchDb) (bad : List ℕ)
    → all_of id txns ≡ true
    → create_block env s infos id parents merged txns max_utxo late receiver now
      ≡ ok (hash, block, patch, bad)
    → Made env s infos id parents merged txns max_utxo late hash block patch
unfolding create_block new_block
create_block-Made env s infos id parents merged txns max_utxo late receiver now hash block patch bad
      own e =
    let (state, e1, r1) = >>=-eq-ok (Patch.set_concilium_id merged (some id)) _ e in
    let (_, _, r2) = >>=-eq-ok (guard (not (length parents == 0)) no_parents) _ r1 in
    let (height, e3, r3) = >>=-eq-ok (calc_height infos parents) _ r2 in
    let start : Draft = record {
      block = new_block id parents height;
      state = state;
      fees = 0;
      bad = [];
    } in
    let draft = add_txns env s max_utxo late txns start in
    let (min, e4, r4) = >>=-eq-ok (get_fee_size_per_input env s id) _ r3 in
    let (finished, e5, r5) =
      >>=-eq-ok
        (Block.finish env.storage_env.block_env env.tx_env draft.block draft.fees receiver min now)
        _ r4 in
    let ((h, b), e6, r6) =
      >>=-eq-ok (Block.hash env.storage_env.block_env env.tx_env finished) _ r5 in
    let (p, e7, r7) = >>=-eq-ok (process_block_coinbase_tx env h b draft.fees draft.state) _ r6 in
    let (same, coinbase, order, pays) =
      finish-hash env.storage_env.block_env env.tx_env draft.block finished b draft.fees receiver
        min now h e5 e6 in
    let hs : h ≡ hash = ground (arith, r7) in
    let bs : b ≡ block = ground (arith, r7) in
    let ps : p ≡ patch = ground (arith, r7) in
    record {
      state = state;
      draft = draft;
      height = height;
      opened = e1;
      known = e3;
      grown =
          add_txns-Grown env s id max_utxo late txns start own (header_of_new id parents height).0;
      same = subst (λ c. SameHeader draft.block c) bs same;
      coinbase = coinbase;
      order = subst (λ c. c.txns ≡ coinbase ∷ (draft.block).txns) bs order;
      pays = pays;
      ends = ground (arith, e7, hs, bs, ps);
    }

-- What the node that executes it computes.
executed :
    (env : NodeEnv) (s : NodeState) (infos : ℕ → Option BlockInfo) (pending : ℕ → Option Entry)
    (parents : List ℕ) (id hash height : ℕ) (merged state after : PatchDb) (fees : ℕ)
    (added : List Transaction) (coinbase : Transaction) (block : Block)
    → is_genesis_block env hash ≡ false
    → block.parent_hashes ≡ parents
    → block.height ≡ height
    → block.concilium_id ≡ id
    → block.txns ≡ coinbase ∷ added
    → calc_height infos parents ≡ ok height
    → merge_patches env.storage_env.codec pending parents ≡ ok merged
    → Patch.set_concilium_id merged (some id) ≡ ok state
    → exec_txns env s false id added state 0 ≡ ok (fees, after)
    → exec_new_block env s infos pending hash block
      ≡ process_block_coinbase_tx env hash block fees after
unfolding exec_new_block check_height
executed env s infos pending parents id hash height merged state after fees added coinbase block
      other ps hs is ts known merges opened run =
    rw (other, ps, hs, is, ts, known, merges, opened, run, test_self height, exec_new_block) refl

refused :
    (env : NodeEnv) (hash : ℕ) (block : Block) (counted spent : ℕ) (after : PatchDb)
    (coinbase : Transaction)
    → is_genesis_block env hash ≡ false
    → coinbase_of block ≡ coinbase
    → Transaction.verify_coinbase coinbase counted ≡ ok tt
    → (spent == counted) ≡ false
    → process_block_coinbase_tx env hash block spent after ≡ err bad_amount
unfolding Transaction.verify_coinbase process_block_coinbase_tx
refused env hash block counted spent after coinbase other first pays f =
    rw (other, first, process_block_coinbase_tx) (ground (arith, pays, f))

-- The coinbase pays what the draft counted, so it is accepted exactly if no more was counted.
coinbase_accepted :
    (env : NodeEnv) (hash : ℕ) (block : Block) (counted spent lost : ℕ) (after patch : PatchDb)
    (coinbase : Transaction) (added : List Transaction)
    → is_genesis_block env hash ≡ false
    → block.txns ≡ coinbase ∷ added
    → Transaction.verify_coinbase coinbase counted ≡ ok tt
    → process_block_coinbase_tx env hash block counted after ≡ ok patch
    → counted ≡ spent + lost
    → process_block_coinbase_tx env hash block spent after
      ≡ (if lost == 0 then ok patch else err bad_amount)
unfolding Transaction.verify_coinbase process_block_coinbase_tx coinbase_of
coinbase_accepted env hash block counted spent lost after patch coinbase added other ts pays ends
      sum =
    elim (Bool-cases (lost == 0)) [
      | inl f ↦
          let same : counted ≡ spent = ground (arith, f, sum) in
          rw f (subst (λ n. process_block_coinbase_tx env hash block n after ≡ ok patch) same ends)
      | inr f ↦ rw f (
          refused env hash block counted spent after coinbase other (rw (ts, coinbase_of) refl) pays
            (ground (arith, f, sum)))
    ]

-- A block that a witness makes of transactions of its concilium, on the merged patch of its parents, is executed by a node that knows the same parents, on the same view of the block: with the very patch that the witness computed, if the fees of the transactions that were processed but then did not merge, and so were left out of the block, are 0 together; otherwise it is refused, since its coinbase pays out these fees too.
pub create_block-exec_new_block :
    (env : NodeEnv) (s : NodeState) (infos : ℕ → Option BlockInfo) (pending : ℕ → Option Entry)
    (id : ℕ) (parents : List ℕ) (merged state : PatchDb) (txns : List Transaction) (max_utxo : ℕ)
    (late : ℕ → Bool) (receiver now : ℕ) (hash : ℕ) (block : Block) (patch : PatchDb) (bad : List ℕ)
    → all_of id txns ≡ true
    → merge_patches env.storage_env.codec pending parents ≡ ok merged
    → Patch.set_concilium_id merged (some id) ≡ ok state
    → is_genesis_block env hash ≡ false
    → create_block env s infos id parents merged txns max_utxo late receiver now
      ≡ ok (hash, block, patch, bad)
    → exec_new_block env s infos pending hash block
      ≡ (if left_out_fees env s max_utxo late txns state == 0 then ok patch else err bad_amount)
create_block-exec_new_block env s infos pending id parents merged state txns max_utxo late receiver
      now hash block patch bad own merges opened other e =
    let made =
      create_block-Made env s infos id parents merged txns max_utxo late receiver now hash block
        patch bad own e in
    let grown = made.grown in
    let start = header_of_new id parents made.height in
    let txns_eq : (made.draft.block).txns ≡ grown.added = ground (arith, grown.more, start) in
    let same_state : made.state ≡ state = ground (arith, made.opened, opened) in
    let run =
      executed env s infos pending parents id hash made.height merged made.state (made.draft).state
        grown.fees grown.added made.coinbase block other
        (ground (arith, made.same, grown.same_header, start))
        (ground (arith, made.same, grown.same_header, start))
        (ground (arith, made.same, grown.same_header, start))
        (made.order ∙ ap (λ l. made.coinbase ∷ l) txns_eq) made.known merges made.opened
        (grown.run 0 ∙ ap (λ n. ok (n, (made.draft).state)) (ground arith)) in
    subst
      (λ st.
        exec_new_block env s infos pending hash block
        ≡ (if left_out_fees env s max_utxo late txns st == 0 then ok patch else err bad_amount))
      same_state
      (run
        ∙ coinbase_accepted env hash block (made.draft).fees grown.fees
            (left_out_fees env s max_utxo late txns made.state) (made.draft).state patch
            made.coinbase (made.draft.block).txns other made.order made.pays made.ends
            (ground (arith, grown.counted)))
