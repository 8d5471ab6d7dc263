-- ===== src/Transaction.antt =====
-- structures/transaction.js. Hashing, signatures and the binary form are parameters. A missing
-- contract code or change receiver, which protobuf reads as empty, is `none`.
pub mod Types
pub mod Laws
use cil_core.Base.{
  ℕ, zero, suc, ◌+◌, ◌-◌, ◌*◌, ◌/◌, ◌%◌, ◌≤◌, ◌<◌, ◌≡◌, refl, sym, ap, ◌∙◌, subst, ◌≢◌, ◌↔◌, ◌⊎◌,
  inl, inr, Bool, true, false, ◌&&◌, ◌||◌, not, Option, none, some, List, [], ◌∷◌, ◌++◌, map, arith,
  ltb, leb, ◌==◌, if◌then◌else◌, eq_of_test, test_self, test_ne, Bool-cases, Option-cases, is_some,
  or_else, length, get_elem?, erase_at, filter, all, length-append, length-filter-le, length-map,
  contains, contains-append, contains-filter, contains-unique, unique_after-Distinct, Distinct,
  unique, unique_after, Error, already_added, already_deleted, already_spent, integrity,
  unexpected_fork, double_spend, different_conciliums, tx_collision, failed_tx, less_coins_used,
  concilium_specified, type_error, not_initialised, round_exceeded, not_supposed, not_found,
  wrong_address, no_block, zero_quorum, no_views, already_in_mempool, no_tx, no_address,
  no_contract_concilium, insufficient_funds, unexpected_situation, oversize, already_signed,
  bad_index, signing_chosen, bad_inputs, bad_outputs, bad_proofs, not_coinbase, bad_amount,
  block_final, not_final, empty_block, bad_parents, bad_signatures, bad_merkle, bad_height,
  out_of_coins, claim_failed, no_utxo, recursion, too_many_coins, unknown_concilium, bad_signature,
  few_signatures, wrong_concilium, small_fee, contract_exists, bad_parent, missed_block,
  not_positive, overspent, no_contract, no_method, Result, ok, err, ◌>>=◌, ◌>>◌, guard, or_throw,
  Result-cases, >>=-eq-ok,
}
use cil_core.Utxo.{Coins}
use Types.{Input, Output, Payload, Transaction, TxEnv}

abbrev pub current_version : ℕ
current_version = 1

-- `Buffer.alloc(32)` as a hash.
abbrev pub zero_hash : ℕ
zero_hash = 0

-- The constructor with no data.
unfoldable pub create : Transaction
create = record {
  payload = record { version = current_version; concilium_id = 0; ins = []; outs = [] };
  claim_proofs = [];
  tx_signature = none;
}

unfoldable pub ensure_version : Transaction → Transaction
ensure_version tx = record tx {
  payload = record (tx.payload) {
    version = if tx.version == 0 then current_version else tx.version;
  };
}

-- The constructor on bytes; `max` is `MAX_BLOCK_SIZE`.
unfoldable pub from_buffer : TxEnv → ℕ → List ℕ → Result Transaction
unfolding ensure_version
from_buffer env max bytes = do
  guard (leb (length bytes) max) oversize
  tx ← env.decode bytes
  ok (ensure_version tx)

unfoldable pub set_concilium_id : Transaction → ℕ → Transaction
set_concilium_id tx id = record tx { payload = record (tx.payload) { concilium_id = id } }

unfoldable pub utxos : Transaction → List ℕ
utxos tx = map (λ i. i.tx_hash) tx.ins

-- `new Coins(out.amount, out.receiverAddr)` of each output.
unfoldable pub get_out_coins : Transaction → List Coins
get_out_coins tx = map (λ o. record { amount = o.amount; receiver = o.receiver_addr }) tx.outs

unfoldable pub get_tx_signature : Transaction → Option ℕ
get_tx_signature tx = tx.tx_signature

unfoldable pub check_done : Transaction → Result (Unit {0})
unfolding get_tx_signature
check_done tx =
    guard (not (is_some (get_tx_signature tx)) && (length tx.claim_proofs == 0)) already_signed

unfoldable pub add_input : Transaction → ℕ → ℕ → Result Transaction
unfolding check_done
add_input tx hash index = do
  check_done tx
  let input : Input = record { tx_hash = hash; n_tx_output = index }
  ok (record tx { payload = record (tx.payload) { ins = tx.ins ++ input ∷ [] } })

unfoldable pub add_output : Transaction → Output → Transaction
add_output tx o = record tx { payload = record (tx.payload) { outs = tx.outs ++ o ∷ [] } }

unfoldable pub add_receiver : Transaction → ℕ → ℕ → Result Transaction
unfolding check_done add_output
add_receiver tx amount addr = do
  check_done tx
  ok (
      add_output tx (record {
        amount = amount;
        receiver_addr = addr;
        contract_code = none;
        addr_change_receiver = none;
      }))

unfoldable pub create_coinbase : Result Transaction
unfolding create add_input
create_coinbase = add_input create zero_hash 0

unfoldable pub create_contract : TxEnv → ℕ → Option ℕ → Transaction
unfolding create add_output
create_contract env code change = add_output create (record {
  amount = 0;
  receiver_addr = env.addr_contract_creation;
  contract_code = some code;
  addr_change_receiver = change;
})

-- `code` is the JSON text of the invocation.
unfoldable pub invoke_contract : ℕ → ℕ → ℕ → Option ℕ → Transaction
unfolding create add_output
invoke_contract addr code amount change = add_output create (record {
  amount = amount;
  receiver_addr = addr;
  contract_code = some code;
  addr_change_receiver = change;
})

-- Only the payload is hashed: signatures do not change it.
unfoldable pub get_hash : TxEnv → Transaction → ℕ
get_hash env tx = env.hash_payload tx.payload

-- `arr[i] = v`: holes are filled in up to `i`.
unfoldable pub set_at : List (Option ℕ) → ℕ → ℕ → List (Option ℕ)
set_at [] zero v = some v ∷ []
set_at [] (suc i) v = none ∷ set_at [] i v
set_at (x ∷ xs) zero v = some v ∷ xs
set_at (x ∷ xs) (suc i) v = x ∷ set_at xs i v

unfoldable pub claim : TxEnv → Transaction → ℕ → ℕ → Result Transaction
unfolding get_hash set_at
claim env tx idx key = do
  guard (leb idx (length tx.ins)) bad_index
  ok (record tx { claim_proofs = set_at tx.claim_proofs idx (env.sign (get_hash env tx) key) })

unfoldable pub sign_for_contract : TxEnv → Transaction → ℕ → Transaction
unfolding get_hash
sign_for_contract env tx key = record tx { tx_signature = some (env.sign (get_hash env tx) key) }

unfoldable pub sign_all_inputs : TxEnv → Transaction → ℕ → Result Transaction
unfolding sign_for_contract
sign_all_inputs env tx key = do
  guard (length tx.claim_proofs == 0) signing_chosen
  ok (sign_for_contract env tx key)

-- A signature that nothing can be recovered from is logged.
unfoldable pub get_tx_signer_address : TxEnv → Transaction → Option ℕ
unfolding get_tx_signature get_hash
get_tx_signer_address env tx = elim (get_tx_signature tx) [
  | none ↦ none
  | some s ↦ env.recover (get_hash env tx) s
]

-- `every`, which passes over holes; comparing a proof with `undefined` throws.
unfoldable pub every_proof : List (Option ℕ) → List (Option ℕ) → Result Bool
every_proof [] qs = ok true
every_proof (none ∷ ps) [] = every_proof ps []
every_proof (none ∷ ps) (q ∷ qs) = every_proof ps qs
every_proof (some p ∷ ps) [] = err type_error
every_proof (some p ∷ ps) (none ∷ qs) = err type_error
every_proof (some p ∷ ps) (some q ∷ qs) =
    let rest = every_proof ps qs in if p == q then rest else ok false

unfoldable pub equals : TxEnv → Transaction → Transaction → Result Bool
unfolding get_hash every_proof
equals env tx other =
    let proofs = every_proof tx.claim_proofs other.claim_proofs in
    if get_hash env tx == get_hash env other then proofs else ok false

unfoldable pub input_ok : Input → Bool
input_ok i = not (i.tx_hash == zero_hash)

unfoldable pub output_ok : Output → Bool
output_ok o = is_some o.contract_code || ltb 0 o.amount

unfoldable pub verify : Transaction → Result (Unit {0})
unfolding input_ok output_ok get_tx_signature
verify tx = do
  guard (not (length tx.ins == 0) && all input_ok tx.ins) bad_inputs
  guard (all output_ok tx.outs) bad_outputs
  guard (length tx.claim_proofs == length tx.ins || is_some (get_tx_signature tx)) bad_proofs

unfoldable pub is_coinbase_input : List Input → Bool
is_coinbase_input [] = false
is_coinbase_input (i ∷ []) = i.tx_hash == zero_hash && i.n_tx_output == 0
is_coinbase_input (i ∷ j ∷ is) = false

unfoldable pub is_coinbase : Transaction → Bool
unfolding is_coinbase_input
is_coinbase tx = is_coinbase_input tx.ins

unfoldable pub sum_outs : List Output → ℕ → ℕ
sum_outs [] acc = acc
sum_outs (o ∷ os) acc = sum_outs os (acc + o.amount)

unfoldable pub amount_out : Transaction → ℕ
unfolding sum_outs
amount_out tx = sum_outs tx.outs 0

unfoldable pub verify_coinbase : Transaction → ℕ → Result (Unit {0})
unfolding is_coinbase amount_out
verify_coinbase tx fees = do
  guard (is_coinbase tx) not_coinbase
  guard (amount_out tx == fees) bad_amount

-- `outputs[0]`, whose fields are read at once.
unfoldable pub get_contract_output : Transaction → Result Output
get_contract_output tx = or_throw (get_elem? tx.outs 0) type_error

unfoldable pub is_contract_creation : TxEnv → Transaction → Result Bool
unfolding get_contract_output
is_contract_creation env tx = do
  o ← get_contract_output tx
  ok (o.receiver_addr == env.addr_contract_creation)

unfoldable pub get_contract_code : Transaction → Result (Option ℕ)
unfolding get_contract_output
get_contract_code tx = do o ← get_contract_output tx; ok o.contract_code

unfoldable pub get_contract_addr : Transaction → Result ℕ
unfolding get_contract_output
get_contract_addr tx = do o ← get_contract_output tx; ok o.receiver_addr

unfoldable pub get_contract_change_receiver : Transaction → Result (Option ℕ)
unfolding get_contract_output
get_contract_change_receiver tx = do o ← get_contract_output tx; ok o.addr_change_receiver

unfoldable pub get_contract_sent_amount : Transaction → Result ℕ
unfolding get_contract_output
get_contract_sent_amount tx = do o ← get_contract_output tx; ok o.amount

unfoldable pub get_size : TxEnv → Transaction → ℕ
get_size env tx = length (env.encode tx)
