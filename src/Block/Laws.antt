-- ===== src/Block/Laws.antt =====
-- structures/block.js: a block that was finished is one that can be verified and paid out.
use cil_core.Base.{
  ℕ, ◌-◌, ◌*◌, ◌<◌, ◌≡◌, refl, subst, true, false, none, some, List, [], ◌∷◌, arith, leb, ◌==◌,
  if◌then◌else◌, length, block_final, ok, err,
}
use cil_core.Transaction.Types.{Transaction, TxEnv, Output}
use cil_core.Transaction.{
  create, check_done, add_input, add_output, add_receiver, is_coinbase, is_coinbase_input, sum_outs,
  amount_out, create_coinbase, set_concilium_id, get_tx_signature, verify_coinbase,
}
use cil_core.Block.Types.{Header, Block, BlockEnv}
use cil_core.Block.{
  get_tx_hashes, build_tx_tree, hash, add_tx, dev_share, fee_dev_foundation, pay_fees, finish,
  add_witness_signatures, same_root, verify,
}

empty_coinbase : ℕ → Transaction
empty_coinbase id = record {
  payload = record {
    version = 1;
    concilium_id = id;
    ins = record { tx_hash = 0; n_tx_output = 0 } ∷ [];
    outs = [];
  };
  claim_proofs = [];
  tx_signature = none;
}

plain : ℕ → ℕ → Output
plain amount addr = record {
  amount = amount;
  receiver_addr = addr;
  contract_code = none;
  addr_change_receiver = none;
}

-- What the coinbase pays, for fees that are not 0.
payouts : BlockEnv → ℕ → ℕ → ℕ → List Output
payouts env fees receiver min_useful =
    let dev = fee_dev_foundation fees min_useful in
    let rest = plain (fees - dev) receiver ∷ plain 0 env.random_address ∷ [] in
    if leb (min_useful * 2) (dev_share fees)
    then plain dev env.dev_foundation_address ∷ rest
    else rest

paid_coinbase : BlockEnv → ℕ → ℕ → ℕ → ℕ → Transaction
paid_coinbase env id fees receiver min_useful =
    let unpaid = empty_coinbase id in
    if fees == 0 then unpaid else record unpaid {
      payload = record (unpaid.payload) { outs = payouts env fees receiver min_useful };
    }

pay_fees-paid_coinbase :
    (env : BlockEnv) (id fees receiver min_useful : ℕ)
    → (if fees == 0
        then ok (empty_coinbase id)
        else pay_fees env (empty_coinbase id) fees receiver min_useful)
      ≡ ok (paid_coinbase env id fees receiver min_useful)
unfolding payouts plain paid_coinbase empty_coinbase pay_fees add_receiver add_output check_done
    get_tx_signature
pay_fees-paid_coinbase env id fees receiver min_useful = ground arith

verify_coinbase-paid_coinbase :
    (env : BlockEnv) (id fees receiver min_useful : ℕ)
    → verify_coinbase (paid_coinbase env id fees receiver min_useful) fees ≡ ok tt
unfolding payouts plain paid_coinbase empty_coinbase verify_coinbase fee_dev_foundation dev_share
    amount_out sum_outs is_coinbase is_coinbase_input
verify_coinbase-paid_coinbase env id fees receiver min_useful = ground arith

finished : BlockEnv → TxEnv → Block → ℕ → ℕ → ℕ → ℕ → Block
finished env txenv b fees receiver min_useful now =
    let b' : Block = record b {
      building = false;
      hash_cache = none;
      txns = paid_coinbase env b.concilium_id fees receiver min_useful ∷ b.txns;
    } in
    record b' {
      header = record (b'.header) {
        merkle_root = some (env.merkle (get_tx_hashes txenv b'));
        timestamp = now;
      };
      final = true;
    }

finish_lem :
    (env : BlockEnv) (txenv : TxEnv) (b : Block) (fees receiver min_useful now : ℕ)
    → finish env txenv b fees receiver min_useful now
      ≡ ok (finished env txenv b fees receiver min_useful now)
unfolding finish finished build_tx_tree empty_coinbase create_coinbase set_concilium_id add_input
    create check_done get_tx_signature
finish_lem env txenv b fees receiver min_useful now =
    ground (arith, pay_fees-paid_coinbase env b.concilium_id fees receiver min_useful)

-- Finishing a block always returns, and the block keeps its transactions behind a coinbase that pays out exactly the fees; no transaction is added to it any more, and its hash can be computed.
finish-verify_coinbase :
    (env : BlockEnv) (txenv : TxEnv) (b : Block) (fees receiver min_useful now : ℕ)
    (late : Transaction)
    → (b' : Block) × (coinbase : Transaction) × (finish env txenv b fees receiver min_useful now
        ≡ ok b')
      × (b'.txns ≡ coinbase ∷ b.txns)
      × (verify_coinbase coinbase fees ≡ ok tt)
      × (add_tx b' late ≡ err block_final)
unfolding finished add_tx
finish-verify_coinbase env txenv b fees receiver min_useful now late = (
  finished env txenv b fees receiver min_useful now,
  paid_coinbase env b.concilium_id fees receiver min_useful,
  finish_lem env txenv b fees receiver min_useful now,
  refl,
  verify_coinbase-paid_coinbase env b.concilium_id fees receiver min_useful,
  refl,
)

IsAccepted : BlockEnv → TxEnv → Block → List ℕ → Type 0
IsAccepted env txenv b sigs =
    let signed = add_witness_signatures b sigs in
    (verify env txenv b false ≡ ok tt)
    × (verify env txenv signed true ≡ ok tt)
    × (n : ℕ) × (u v : Block) × (hash env txenv b ≡ ok (n, u))
    × (hash env txenv signed ≡ ok (n, v))

-- The block that `hash` leaves, for one that is finished and whose hash was not asked for yet.
hashed : BlockEnv → TxEnv → Block → ℕ × Block
hashed env txenv b =
    let header : Header = record (b.header) {
      merkle_root = some (env.merkle (get_tx_hashes txenv b));
    } in
    (
      env.hash_header header,
      record b { header = header; hash_cache = some (env.hash_header header) },
    )

finished-IsAccepted :
    (env : BlockEnv) (txenv : TxEnv) (b : Block) (fees receiver min_useful now sig : ℕ)
    (sigs : List ℕ)
    → (length b.parent_hashes == 0) ≡ false
    → 0 < b.height
    → IsAccepted env txenv (finished env txenv b fees receiver min_useful now) (sig ∷ sigs)
unfolding IsAccepted verify same_root add_witness_signatures hash finished build_tx_tree
    get_tx_hashes hashed
finished-IsAccepted env txenv b fees receiver min_useful now sig sigs parents height =
    let b' = finished env txenv b fees receiver min_useful now in
    (
      ground arith,
      ground arith,
      (hashed env txenv b').0,
      (hashed env txenv b').1,
      (hashed env txenv (add_witness_signatures b' (sig ∷ sigs))).1,
      ground arith,
      ground arith,
    )

-- A block that has parents and a positive height passes verification once it is finished, and with a
-- signature also the verification of a received block; signatures change neither that nor its hash.
pub finish-verify :
    (env : BlockEnv) (txenv : TxEnv) (b b' : Block) (fees receiver min_useful now sig : ℕ)
    (sigs : List ℕ)
    → (length b.parent_hashes == 0) ≡ false
    → 0 < b.height
    → finish env txenv b fees receiver min_useful now ≡ ok b'
    → let signed = add_witness_signatures b' (sig ∷ sigs) in
      (verify env txenv b' false ≡ ok tt)
      × (verify env txenv signed true ≡ ok tt)
      × (n : ℕ) × (u v : Block) × (hash env txenv b' ≡ ok (n, u))
      × (hash env txenv signed ≡ ok (n, v))
unfolding IsAccepted
finish-verify env txenv b b' fees receiver min_useful now sig sigs parents height e =
    let same : finished env txenv b fees receiver min_useful now ≡ b' =
      ground (arith, e, finish_lem env txenv b fees receiver min_useful now) in
    subst (λ c. IsAccepted env txenv c (sig ∷ sigs)) same
      (finished-IsAccepted env txenv b fees receiver min_useful now sig sigs parents height)

-- What neither finishing a block nor computing its hash changes.
abbrev pub SameHeader : Block → Block → Type 0
SameHeader a b =
    (b.parent_hashes ≡ a.parent_hashes) × (b.height ≡ a.height) × (b.concilium_id ≡ a.concilium_id)

hash-finished :
    (env : BlockEnv) (txenv : TxEnv) (b : Block) (fees receiver min_useful now : ℕ)
    → let b' = finished env txenv b fees receiver min_useful now in
      hash env txenv b' ≡ ok (hashed env txenv b')
unfolding hash finished build_tx_tree get_tx_hashes hashed
hash-finished env txenv b fees receiver min_useful now = ground arith

-- The block whose hash was taken after it was finished.
pub finish-hash :
    (env : BlockEnv) (txenv : TxEnv) (b b' b'' : Block) (fees receiver min_useful now n : ℕ)
    → finish env txenv b fees receiver min_useful now ≡ ok b'
    → hash env txenv b' ≡ ok (n, b'')
    → SameHeader b b''
      × (coinbase : Transaction) × (b''.txns ≡ coinbase ∷ b.txns)
      × (verify_coinbase coinbase fees ≡ ok tt)
unfolding finished hashed
finish-hash env txenv b b' b'' fees receiver min_useful now n e f =
    let same : finished env txenv b fees receiver min_useful now ≡ b' =
      ground (arith, e, finish_lem env txenv b fees receiver min_useful now) in
    let found : hash env txenv b' ≡ ok (hashed env txenv b') =
      subst (λ c. hash env txenv c ≡ ok (hashed env txenv c)) same
        (hash-finished env txenv b fees receiver min_useful now) in
    let last : (hashed env txenv b').1 ≡ b'' = ground (arith, f, found) in
    subst
      (λ d.
        SameHeader b d
        × (coinbase : Transaction) × (d.txns ≡ coinbase ∷ b.txns)
        × (verify_coinbase coinbase fees ≡ ok tt))
      last
      (subst
        (λ c.
          SameHeader b (hashed env txenv c).1
          × (coinbase : Transaction) × ((hashed env txenv c).1.txns ≡ coinbase ∷ b.txns)
          × (verify_coinbase coinbase fees ≡ ok tt))
        same
        (
          (refl, refl, refl),
          paid_coinbase env b.concilium_id fees receiver min_useful,
          refl,
          verify_coinbase-paid_coinbase env b.concilium_id fees receiver min_useful,
        ))
