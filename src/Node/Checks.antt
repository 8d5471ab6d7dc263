-- ===== src/Node/Checks.antt =====
-- node/node.js: what the checks of a block establish.
use cil_core.Base.{
  ℕ, zero, suc, ◌+◌, ◌*◌, ◌≤◌, ◌≡◌, refl, ap, ◌∙◌, subst, ◌⊎◌, inl, inr, Bool, true, false, Option,
  some, List, [], ◌∷◌, arith, ltb, ◌==◌, if◌then◌else◌, Bool-cases, contains, type_error,
  bad_signature, wrong_concilium, tail, ok, guard, or_throw, >>=-eq-ok,
}
use cil_core.Patch
use cil_core.Patch.{PatchDb}
use cil_core.Patch.Merge
use cil_core.Node.Transactions.{process_tx}
use cil_core.Transaction
use cil_core.Transaction.Types.{Transaction, TxEnv}
use cil_core.Block.Types.{Block}
use cil_core.BlockInfo.{BlockInfo}
use cil_core.Conciliums.Concilium
use cil_core.Conciliums.Concilium.{Concilium}
use cil_core.Pending.Types.{Entry}
use cil_core.Pending.{merge_patches}
use cil_core.Node.Types.{NodeEnv, NodeState}
use cil_core.Node.Blocks.{
  max_height, calc_height, check_height, gather_weight, verify_signatures_of, coinbase_of,
  process_block_coinbase_tx, create_all, exec_txns, exec_new_block, is_genesis_block,
}

-- All of these blocks are known, and none is higher than `n`.
unfoldable pub AllBelow : (ℕ → Option BlockInfo) → List ℕ → ℕ → Type 0
AllBelow infos [] n = Unit {0}
AllBelow infos (h ∷ hs) n =
    ((bi : BlockInfo) × (infos h ≡ some bi) × (bi.height ≤ n)) × AllBelow infos hs n

-- One of them has the height `n`.
unfoldable pub SomeAt : (ℕ → Option BlockInfo) → List ℕ → ℕ → Type 0
SomeAt infos [] n = ⊥
SomeAt infos (h ∷ hs) n =
    ((bi : BlockInfo) × (infos h ≡ some bi) × (bi.height ≡ n)) ⊎ SomeAt infos hs n

max_height_lem :
    (infos : ℕ → Option BlockInfo) (hs : List ℕ) (max n : ℕ)
    → max_height infos hs max ≡ ok n
    → (max ≤ n) × AllBelow infos hs n × ((n ≡ max) ⊎ SomeAt infos hs n)
unfolding max_height AllBelow SomeAt
max_height_lem infos [] max n e = (ground (arith, e), tt, inl (ground (arith, e)))
max_height_lem infos (h ∷ hs) max n e =
    let (bi, e1, e2) = >>=-eq-ok (or_throw (infos h) type_error) _ e in
    let known : infos h ≡ some bi = ground (arith, e1) in
    let (above, below, reached) =
      max_height_lem infos hs (if ltb bi.height max then max else bi.height) n e2 in
    elim (Bool-cases (ltb bi.height max)) [
      | inl f ↦ (
        ground (arith, above, f),
        ((bi, known, ground (arith, above, f)), below),
        elim reached [ inl r ↦ inl (ground (arith, r, f)) | inr r ↦ inr (inr r) ],
      )
      | inr f ↦ (
        ground (arith, above, f),
        ((bi, known, ground (arith, above, f)), below),
        elim reached [ inl r ↦ inr (inl (bi, known, ground (arith, r, f))) | inr r ↦ inr (inr r) ],
      )
    ]

-- A block whose height is accepted is exactly one higher than the highest of its parents, all of which are known; without a parent above the height 0 it has the height 1.
check_height-AllBelow :
    (infos : ℕ → Option BlockInfo) (block : Block)
    → check_height infos block ≡ ok tt
    → (n : ℕ) × (block.height ≡ suc n)
      × AllBelow infos block.parent_hashes n
      × ((n ≡ 0) ⊎ SomeAt infos block.parent_hashes n)
unfolding check_height calc_height
check_height-AllBelow infos block e =
    let (m, e1, e2) = >>=-eq-ok (calc_height infos block.parent_hashes) _ e in
    let (n, e3, e4) = >>=-eq-ok (max_height infos block.parent_hashes 0) _ e1 in
    let (_, below, reached) = max_height_lem infos block.parent_hashes 0 n e3 in
    (n, ground (arith, e2, e4), below, reached)

-- What a list of signatures weighs, when each is a member's: the sum of the signers' weights.
unfoldable pub Weighs : TxEnv → Concilium → ℕ → List ℕ → ℕ → Type 0
Weighs env c hash [] w = w ≡ 0
Weighs env c hash (sig ∷ sigs) w =
    (address one rest : ℕ) × (env.recover hash sig ≡ some address)
    × (contains (Concilium.get_addresses c) address ≡ true)
    × (Concilium.get_witness_weight c address ≡ ok one)
    × Weighs env c hash sigs rest
    × (w ≡ one + rest)

gather_weight-Weighs :
    (env : TxEnv) (c : Concilium) (hash : ℕ) (sigs : List ℕ) (acc n : ℕ)
    → gather_weight env c hash sigs acc ≡ ok n
    → (w : ℕ) × Weighs env c hash sigs w × (n ≡ acc + w)
unfolding gather_weight Weighs
gather_weight-Weighs env c hash [] acc n e = (0, refl, ground (arith, e))
gather_weight-Weighs env c hash (sig ∷ sigs) acc n e =
    let (address, e1, r1) = >>=-eq-ok (or_throw (env.recover hash sig) bad_signature) _ e in
    let (_, e2, r2) =
      >>=-eq-ok (guard (contains (Concilium.get_addresses c) address) bad_signature) _ r1 in
    let (one, e3, r3) = >>=-eq-ok (Concilium.get_witness_weight c address) _ r2 in
    let (w, weighs, eq) = gather_weight-Weighs env c hash sigs (acc + one) n r3 in
    (
      one + w,
      (address, one, w, ground (arith, e1), ground (arith, e2), e3, weighs, refl),
      ground (arith, eq),
    )

-- The signatures of a block are accepted only if each of them recovers to a member of the concilium, and the weights of the signers, counted once for each signature, add up to the quorum.
pub verify_signatures-Weighs :
    (env : TxEnv) (c : Concilium) (hash : ℕ) (sigs : List ℕ)
    → verify_signatures_of env c hash sigs ≡ ok tt
    → (w : ℕ) × Weighs env c hash sigs w × (Concilium.get_quorum c ≤ w)
unfolding verify_signatures_of
verify_signatures-Weighs env c hash sigs e =
    let (n, e1, e2) = >>=-eq-ok (gather_weight env c hash sigs 0) _ e in
    let (w, weighs, eq) = gather_weight-Weighs env c hash sigs 0 n e1 in
    (w, weighs, ground (arith, eq, e2))

unfoldable pub repeat : ℕ → ℕ → List ℕ
repeat zero sig = []
repeat (suc n) sig = sig ∷ repeat n sig

gather_weight-repeat :
    (env : TxEnv) (c : Concilium) (hash n sig address one acc : ℕ)
    → env.recover hash sig ≡ some address
    → contains (Concilium.get_addresses c) address ≡ true
    → Concilium.get_witness_weight c address ≡ ok one
    → gather_weight env c hash (repeat n sig) acc ≡ ok (acc + n * one)
unfolding gather_weight repeat
gather_weight-repeat env c hash zero sig address one acc e1 e2 e3 = ground arith
gather_weight-repeat env c hash (suc n) sig address one acc e1 e2 e3 =
    rw (e1, e2, e3, gather_weight)
      (gather_weight-repeat env c hash n sig address one (acc + one) e1 e2 e3
        ∙ ap (λ k. ok k) (ground arith))

-- One member with a weight can sign for the whole concilium: its signature, repeated often enough, is accepted, whatever the quorum.
pub verify_signatures-repeat :
    (env : TxEnv) (c : Concilium) (hash sig address one : ℕ)
    → env.recover hash sig ≡ some address
    → contains (Concilium.get_addresses c) address ≡ true
    → Concilium.get_witness_weight c address ≡ ok (suc one)
    → verify_signatures_of env c hash (repeat (Concilium.get_quorum c) sig) ≡ ok tt
unfolding verify_signatures_of
verify_signatures-repeat env c hash sig address one e1 e2 e3 =
    rw (gather_weight-repeat env c hash (Concilium.get_quorum c) sig address (suc one) 0 e1 e2 e3)
      (ground arith)

not_genesis :
    (env : NodeEnv) (s : NodeState) (id : ℕ) (txns : List Transaction) (state : PatchDb) (g : Bool)
    (r : ℕ × PatchDb)
    → g ≡ false
    → exec_txns env s g id txns state 0 ≡ ok r
    → exec_txns env s false id txns state 0 ≡ ok r
not_genesis env s id txns state g r f e = subst (λ b. exec_txns env s b id txns state 0 ≡ ok r) f e

coinbase_paid :
    (env : NodeEnv) (hash : ℕ) (block : Block) (fees : ℕ) (after patch : PatchDb)
    → is_genesis_block env hash ≡ false
    → (if is_genesis_block env hash
        then ok after
        else process_block_coinbase_tx env hash block fees after)
      ≡ ok patch
    → (Transaction.is_coinbase (coinbase_of block) ≡ true)
      × (Transaction.amount_out (coinbase_of block) ≡ fees)
      × (create_all
            (Transaction.get_hash env.tx_env (coinbase_of block))
            0
            (Transaction.get_out_coins (coinbase_of block))
            after
          ≡ ok patch)
unfolding process_block_coinbase_tx Transaction.verify_coinbase
coinbase_paid env hash block fees after patch other e =
    (ground (arith, other, e), ground (arith, other, e), ground (arith, other, e))

-- What it means to execute transactions in order, from a state to the state after: each is of the
-- concilium, is processed against the state so far, and has its patch merged into it; the fees are
-- added up.
unfoldable pub Executed :
    NodeEnv → NodeState → ℕ → List Transaction → PatchDb → ℕ → PatchDb → Type 0
Executed env s id [] state fees after = (fees ≡ 0) × (after ≡ state)
Executed env s id (tx ∷ txns) state fees after =
    (fee rest : ℕ) × (patch state' : PatchDb) × (tx.concilium_id ≡ id)
    × (process_tx env s (some state) false tx ≡ ok (fee, patch))
    × (Patch.Merge.merge env.storage_env.codec state patch true ≡ ok state')
    × Executed env s id txns state' rest after
    × (fees ≡ fee + rest)

exec_txns-Executed :
    (env : NodeEnv) (s : NodeState) (id : ℕ) (txns : List Transaction) (state after : PatchDb)
    (acc n : ℕ)
    → exec_txns env s false id txns state acc ≡ ok (n, after)
    → (fees : ℕ) × Executed env s id txns state fees after × (n ≡ acc + fees)
unfolding exec_txns Executed
exec_txns-Executed env s id [] state after acc n e =
    (0, (refl, ground (arith, e)), ground (arith, e))
exec_txns-Executed env s id (tx ∷ txns) state after acc n e =
    let (_, e1, r1) = >>=-eq-ok (guard (tx.concilium_id == id) wrong_concilium) _ e in
    let ((fee, patch), e2, r2) = >>=-eq-ok (process_tx env s (some state) false tx) _ r1 in
    let (state', e3, r3) =
      >>=-eq-ok (Patch.Merge.merge env.storage_env.codec state patch true) _ r2 in
    let (rest, run, sum) = exec_txns-Executed env s id txns state' after (acc + fee) n r3 in
    (
      fee + rest,
      (fee, rest, patch, state', ground (arith, e1), e2, e3, run, refl),
      ground (arith, sum),
    )

-- A block that is executed, other than Genesis, is one higher than its highest parent, and its first transaction is a coinbase. The others, in order, are each of the block's own concilium, can be processed against the merged state of the parents with the patches of those before, and merge into it; the outputs of the coinbase add up to exactly the sum of their fees, and are added to the state that they leave.
pub exec_new_block-amount_out :
    (env : NodeEnv) (s : NodeState) (infos : ℕ → Option BlockInfo) (pending : ℕ → Option Entry)
    (hash : ℕ) (block : Block) (patch : PatchDb)
    → is_genesis_block env hash ≡ false
    → exec_new_block env s infos pending hash block ≡ ok patch
    → (merged state after : PatchDb) × (fees n : ℕ) × (merge_patches env.storage_env.codec pending
          block.parent_hashes
        ≡ ok merged)
      × (Patch.set_concilium_id merged (some block.concilium_id) ≡ ok state)
      × Executed env s block.concilium_id (tail block.txns) state fees after
      × (Transaction.is_coinbase (coinbase_of block) ≡ true)
      × (Transaction.amount_out (coinbase_of block) ≡ fees)
      × (create_all
            (Transaction.get_hash env.tx_env (coinbase_of block))
            0
            (Transaction.get_out_coins (coinbase_of block))
            after
          ≡ ok patch)
      × (block.height ≡ suc n)
      × AllBelow infos block.parent_hashes n
      × ((n ≡ 0) ⊎ SomeAt infos block.parent_hashes n)
unfolding exec_new_block
exec_new_block-amount_out env s infos pending hash block patch other e =
    let (_, e1, r1) =
      >>=-eq-ok (if is_genesis_block env hash then ok tt else check_height infos block) _ e in
    let (merged, e2, r2) =
      >>=-eq-ok (merge_patches env.storage_env.codec pending block.parent_hashes) _ r1 in
    let (state, e3, r3) =
      >>=-eq-ok (Patch.set_concilium_id merged (some block.concilium_id)) _ r2 in
    let ((fees, after), e4, r4) =
      >>=-eq-ok
        (exec_txns env s (is_genesis_block env hash) block.concilium_id (tail block.txns) state 0) _
        r3 in
    let (first, amount, added) = coinbase_paid env hash block fees after patch other r4 in
    let (n, height, below, reached) =
      check_height-AllBelow infos block (ground (arith, e1, other)) in
    let (sum, run, eq) =
      exec_txns-Executed env s block.concilium_id (tail block.txns) state after 0 fees (
        not_genesis env s block.concilium_id (tail block.txns) state (is_genesis_block env hash)
          (fees, after) other e4) in
    (
      merged,
      state,
      after,
      sum,
      n,
      e2,
      e3,
      run,
      first,
      ground (arith, amount, eq),
      added,
      height,
      below,
      reached,
    )
