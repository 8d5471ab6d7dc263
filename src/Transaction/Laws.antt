-- ===== src/Transaction/Laws.antt =====
-- structures/transaction.js: what signing does to a transaction, and what a coinbase is.
use cil_core.Base.{
  ℕ, zero, suc, ◌≤◌, ◌<◌, ◌≡◌, refl, true, false, Option, some, List, [], ◌∷◌, arith, ◌==◌, length,
  already_signed, bad_inputs, ok, err,
}
use cil_core.Transaction.Types.{Transaction, TxEnv}
use cil_core.Transaction.{
  ensure_version, from_buffer, check_done, add_input, add_receiver, set_at, claim,
  sign_for_contract, get_hash, get_tx_signer_address, get_tx_signature, verify, is_coinbase,
  is_coinbase_input, input_ok,
}

length-set_at : (ps : List (Option ℕ)) (i v : ℕ) → (length (set_at ps i v) == 0) ≡ false
unfolding set_at
length-set_at [] zero v = refl
length-set_at [] (suc i) v = ground arith
length-set_at (p ∷ ps) zero v = ground arith
length-set_at (p ∷ ps) (suc i) v = ground arith

sealed :
    (env : TxEnv) (tx : Transaction) (idx v hash index amount addr : ℕ)
    → let tx' : Transaction = record tx { claim_proofs = set_at tx.claim_proofs idx v } in
      (get_hash env tx' ≡ get_hash env tx)
      × (add_input tx' hash index ≡ err already_signed)
      × (add_receiver tx' amount addr ≡ err already_signed)
unfolding check_done get_hash add_input add_receiver get_tx_signature
sealed env tx idx v hash index amount addr =
    let open_proofs = length-set_at tx.claim_proofs idx v in
    (refl, ground (arith, open_proofs), ground (arith, open_proofs))

-- After an input is claimed or the whole transaction is signed, no input and no receiver can be added, and the hash that was signed is still the transaction's.
claim-sealed :
    (env : TxEnv) (tx tx' : Transaction) (idx key hash index amount addr : ℕ)
    → claim env tx idx key ≡ ok tx'
    → (get_hash env tx' ≡ get_hash env tx)
      × (add_input tx' hash index ≡ err already_signed)
      × (add_receiver tx' amount addr ≡ err already_signed)
unfolding claim check_done get_hash
claim-sealed env tx tx' idx key hash index amount addr e =
    ground (arith, sealed env tx idx (env.sign (get_hash env tx) key) hash index amount addr)

-- A transaction of a positive version that is signed, encoded and read back, within the size limit, is accepted; its hash is the one that was signed, and the address recovered from the signature is that of the key, provided signatures recover to the address of their key.
pub sign_for_contract-get_tx_signer_address :
    (env : TxEnv) (address : ℕ → ℕ) (tx : Transaction) (max key : ℕ)
    → ((h k : ℕ) → env.recover h (env.sign h k) ≡ some (address k))
    → 0 < tx.version
    → length (env.encode (sign_for_contract env tx key)) ≤ max
    → (sent : Transaction) × (from_buffer env max (env.encode (sign_for_contract env tx key))
        ≡ ok sent)
      × (get_hash env sent ≡ get_hash env tx)
      × (get_tx_signer_address env sent ≡ some (address key))
unfolding sign_for_contract from_buffer ensure_version get_hash get_tx_signer_address
    get_tx_signature
sign_for_contract-get_tx_signer_address env address tx max key recovers version size = (
  record (ensure_version tx) { tx_signature = some (env.sign (get_hash env tx) key) },
  ground (arith, env.decode-encode (sign_for_contract env tx key)),
  ground arith,
  ground (arith, recovers (get_hash env tx) key),
)

-- No transaction is accepted both as a coinbase and as a payment.
pub verify-is_coinbase : (tx : Transaction) → is_coinbase tx ≡ true → verify tx ≡ err bad_inputs
unfolding verify is_coinbase is_coinbase_input input_ok
verify-is_coinbase tx h = ground arith
