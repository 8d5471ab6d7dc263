-- ===== src/App.antt =====
-- node/app.js: running transactions and contracts. The sandbox is a parameter, and so are the
-- callbacks of the node, for transfers and for nested calls. Awaited calls run one after another.
pub mod Types
pub mod Run
pub mod Taken
pub mod Inputs
pub mod Limit
pub mod Payments
use cil_core.Base.{
  ℕ, zero, suc, ◌+◌, ◌-◌, ◌*◌, ◌/◌, ◌%◌, ◌≤◌, ◌<◌, ◌≡◌, refl, sym, ap, ◌∙◌, subst, ◌≢◌, ◌↔◌, ◌⊎◌,
  inl, inr, Bool, true, false, ◌&&◌, ◌||◌, not, Option, none, some, List, [], ◌∷◌, ◌++◌, map, arith,
  ltb, leb, ◌==◌, if◌then◌else◌, eq_of_test, test_self, test_ne, Bool-cases, Option-cases, is_some,
  or_else, length, get_elem?, erase_at, filter, all, length-append, length-filter-le, length-map,
  contains, contains-append, contains-filter, contains-unique, unique_after-Distinct, Distinct,
  unique, unique_after, Error, already_added, already_deleted, already_spent, integrity,
  unexpected_fork, double_spend, different_conciliums, tx_collision, failed_tx, less_coins_used,
  concilium_specified, type_error, not_initialised, round_exceeded, not_supposed, not_found,
  wrong_address, no_block, zero_quorum, no_views, already_in_mempool, no_tx, no_address,
  no_contract_concilium, insufficient_funds, unexpected_situation, oversize, already_signed,
  bad_index, signing_chosen, bad_inputs, bad_outputs, bad_proofs, not_coinbase, bad_amount,
  block_final, not_final, empty_block, bad_parents, bad_signatures, bad_merkle, bad_height,
  out_of_coins, claim_failed, no_utxo, recursion, too_many_coins, unknown_concilium, bad_signature,
  few_signatures, wrong_concilium, small_fee, contract_exists, bad_parent, missed_block,
  not_positive, overspent, no_contract, no_method, not_aligned, already_saved, no_index,
  not_in_wallet, already_in_wallet, unknown_block, bad_block, no_fee, no_vertex, not_witness,
  no_parents, already_exists, skip, take, tail, take-append, take-skip, length-skip, Result, ok,
  err, ◌>>=◌, ◌>>◌, guard, or_throw, Result-cases, >>=-eq-ok,
}
use cil_core.Base.Int.{ℤ, pos, negsuc, ◌+ℤ◌, minus, exceeds}
use cil_core.Utxo
use cil_core.Utxo.{Coins, Utxo}
use cil_core.Contract
use cil_core.Contract.{Contract, ContractProto}
use cil_core.Patch
use cil_core.Patch.{PatchDb, Codec}
use cil_core.Transaction
use cil_core.Transaction.Types.{Transaction, TxEnv, Input}
use Types.{
  Fees, Frame, App, Environment, Context, Invocation, Call, Script, returns, throws, sends, calls,
  Vm, Exec, Ran,
}

-- `_spendCoins`
unfoldable pub spend_coins : ℕ → ℕ → Result ℕ
spend_coins current amount = do guard (leb amount current) out_of_coins; ok (current - amount)

-- A missing signature fails the type check of the arguments.
unfoldable pub verify_pay_to_addr : TxEnv → ℕ → Option ℕ → ℕ → Result (Unit {0})
verify_pay_to_addr env address signature signed = do
  sig ← or_throw signature type_error
  signer ← or_throw (env.recover signed sig) claim_failed
  guard (address == signer) claim_failed

-- The proof for one input: its own, where the transaction has any, or the signature of the whole.
unfoldable pub claim_proof : Transaction → ℕ → Option ℕ
claim_proof tx i =
    if length tx.claim_proofs == 0
    then Transaction.get_tx_signature tx
    else elim (get_elem? tx.claim_proofs i) [ none ↦ none | some proof ↦ proof ]

-- The body of the loop of `processTxInputs`.
unfoldable pub process_input :
    Codec → TxEnv → Transaction → PatchDb → ℕ → Input → PatchDb → ℕ → Result (PatchDb × ℕ)
unfolding verify_pay_to_addr claim_proof
process_input codec env tx block i input patch total = do
  utxo ← or_throw (Patch.get_utxo block input.tx_hash) no_utxo
  coins ← Utxo.coins_at_index utxo input.n_tx_output
  verify_pay_to_addr env coins.receiver (claim_proof tx i) (Transaction.get_hash env tx)
  patch' ← Patch.spend_coins codec patch utxo input.n_tx_output (Transaction.get_hash env tx)
  ok (patch', total + coins.amount)

unfoldable pub process_inputs :
    Codec → TxEnv → Transaction → PatchDb → ℕ → List Input → PatchDb → ℕ → Result (PatchDb × ℕ)
unfolding process_input
process_inputs codec env tx block i [] patch total = ok (patch, total)
process_inputs codec env tx block i (input ∷ inputs) patch total = do
  (patch', total') ← process_input codec env tx block i input patch total
  process_inputs codec env tx block (suc i) inputs patch' total'

-- The patch of the transaction and the sum of its inputs.
unfoldable pub process_tx_inputs : Codec → TxEnv → Transaction → PatchDb → Result (PatchDb × ℕ)
unfolding process_inputs
process_tx_inputs codec env tx block = process_inputs codec env tx block 0 tx.ins Patch.empty 0

-- The loop of `processPayments`, over the coins from index `i` on.
unfoldable pub pay_from : ℕ → ℕ → List Coins → PatchDb → ℕ → Result (PatchDb × ℕ)
pay_from hash i [] patch total = ok (patch, total)
pay_from hash i (c ∷ cs) patch total = do
  patch' ← if c.amount == 0 then ok patch else Patch.create_coins patch hash i c
  pay_from hash (suc i) cs patch' (total + c.amount)

-- The patch with the new coins, and the sum of the outputs.
unfoldable pub process_payments : TxEnv → Transaction → PatchDb → ℕ → Result (PatchDb × ℕ)
unfolding pay_from
process_payments env tx patch start =
    pay_from (Transaction.get_hash env tx) start (skip start (Transaction.get_out_coins tx)) patch 0

unfoldable pub setup_variables : Fees → ℕ → App
setup_variables fees coins_limit = record {
  fees = fees;
  initial_coins = coins_limit;
  coins_limit = coins_limit;
  data_delta = pos 0;
  data_sizes = some [];
  frames = [];
}

-- `contract ? contract.getDataSize() : 0`, which may store encoded data in the contract.
unfoldable pub frame_size : ContractProto → Option Frame → Result (ℕ × Option Frame)
frame_size p none = ok (0, none)
frame_size p (some f) = do
  (n, c) ← Contract.get_data_size p f.contract
  ok (n, some (record f { contract = c }))

unfoldable pub exec_started : ContractProto → App → Option Frame → Result App
unfolding frame_size
exec_started p app frame = do
  sizes ← or_throw app.data_sizes recursion
  (n, frame') ← frame_size p frame
  ok (record app { data_sizes = some (n ∷ sizes); frames = frame' ∷ app.frames })

-- The last call that ends leaves the variables to be set up again.
unfoldable pub reset_if_last : List ℕ → Option (List ℕ)
reset_if_last [] = none
reset_if_last (n ∷ ns) = some (n ∷ ns)

-- `_execDone`, and the contract, which may have stored its encoded data.
unfoldable pub exec_done : ContractProto → App → Option Contract → Result (Option Contract) × App
unfolding reset_if_last
exec_done p app contract =
    let popped : App = record app { frames = tail app.frames } in
    elim app.data_sizes [
      | none ↦ (err type_error, app)
      | some [] ↦ (err recursion, app)
      | some (previous ∷ sizes) ↦ elim contract [
        | none ↦ (ok none, record popped { data_sizes = reset_if_last sizes })
        | some c ↦ elim (Contract.get_data_size p c) [
          | err e ↦ (err e, record popped { data_sizes = some sizes })
          | ok (n, c') ↦ (
            ok (some c'),
            record popped {
              data_delta = app.data_delta +ℤ minus n previous;
              data_sizes = reset_if_last sizes;
            },
          )
        ]
      ]
    ]

unfoldable pub get_current_contract : App → Option Contract
get_current_contract app = elim app.frames [
  | [] ↦ none
  | none ∷ rest ↦ none
  | some f ∷ rest ↦ some f.contract
]

unfoldable pub coins_spent : App → ℤ
coins_spent app = minus app.initial_coins app.coins_limit

unfoldable pub get_data_delta : App → ℤ
get_data_delta app = app.data_delta
