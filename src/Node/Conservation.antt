-- ===== src/Node/Conservation.antt =====
-- node/node.js: a payment makes no coins and loses none.
use cil_core.Base.{
  ℕ, ◌+◌, ◌-◌, ◌<◌, ◌≡◌, subst, false, Option, none, some, arith, small_fee, Result, ok, ◌>>=◌,
  guard, >>=-eq-ok,
}
use cil_core.Patch
use cil_core.Patch.{PatchDb}
use cil_core.Patch.View.{IsValid}
use cil_core.Transaction
use cil_core.Transaction.Types.{Transaction}
use cil_core.App.{process_tx_inputs, process_payments}
use cil_core.App.Taken.{worth}
use cil_core.App.Inputs.{process_tx_inputs-AllTaken}
use cil_core.App.Payments.{process_payments-amount_out}
use cil_core.Node.Types.{NodeEnv, NodeState}
use cil_core.Node.Fees.{calculate_size_fee}
use cil_core.Node.Transactions.{find_contract, coins_for, take_inputs, pays_for_size, process_tx}

-- The inputs of a transaction that is not of Genesis.
take_inputs-worth :
    (env : NodeEnv) (s : NodeState) (block : Option PatchDb) (tx : Transaction)
    (coins patch : PatchDb) (has fee_size : ℕ)
    → coins_for env s block tx ≡ ok coins
    → IsValid coins
    → take_inputs env s block false tx ≡ ok (patch, has, fee_size)
    → (has ≡ worth coins tx.ins) × (calculate_size_fee env s tx false ≡ ok fee_size)
unfolding take_inputs
take_inputs-worth env s block tx coins patch has fee_size found valid e =
    let (own, e1, r1) = >>=-eq-ok (Patch.create (some tx.concilium_id)) _ e in
    let (c, e2, r2) = >>=-eq-ok (coins_for env s block tx) _ r1 in
    let ((p, t), e3, r3) =
      >>=-eq-ok (process_tx_inputs env.storage_env.codec env.tx_env tx c) _ r2 in
    let (f, e4, r4) = >>=-eq-ok (calculate_size_fee env s tx false) _ r3 in
    let same : c ≡ coins = ground (arith, e2, found) in
    let (_, _, _, sum) =
      process_tx_inputs-AllTaken env.storage_env.codec env.tx_env tx coins p t valid (
        subst (λ x. process_tx_inputs env.storage_env.codec env.tx_env tx x ≡ ok (p, t)) same e3) in
    (ground (arith, sum, r4), ground (arith, e4, r4))

paid_out : ℕ → PatchDb → Result (ℕ × PatchDb)
paid_out fee patch = ok (fee, patch)

charged :
    (has sent size fee : ℕ) (q patch : PatchDb)
    → (guard (pays_for_size has sent 0 size) small_fee >>= λ _. paid_out (has - sent - 0) q)
      ≡ ok (fee, patch)
    → (size + sent < has) × (fee ≡ has - sent)
unfolding pays_for_size paid_out
charged has sent size fee q patch e = (ground (arith, e), ground (arith, e))

-- A payment that is executed outside Genesis, against a valid patch of coins, pays a fee that, with all its outputs, is exactly what its inputs are worth, and that is more than the fee for its size.
pub process_tx-worth :
    (env : NodeEnv) (s : NodeState) (block : Option PatchDb) (tx : Transaction)
    (coins patch : PatchDb) (fee : ℕ)
    → find_contract env s block tx ≡ ok (false, none)
    → coins_for env s block tx ≡ ok coins
    → IsValid coins
    → process_tx env s block false tx ≡ ok (fee, patch)
    → (fee + Transaction.amount_out tx ≡ worth coins tx.ins)
      × (n : ℕ) × (calculate_size_fee env s tx false ≡ ok n)
      × (n < fee)
unfolding process_tx paid_out
process_tx-worth env s block tx coins patch fee plain found valid e =
    let run : (take_inputs env s block false tx >>= λ r.
    process_payments env.tx_env tx r.0 0 >>= λ q.
    guard (pays_for_size r.1 q.1 0 r.2) small_fee >>= λ _. paid_out (r.1 - q.1 - 0) q.0)
        ≡ ok (fee, patch) =
      rw plain at e in
    let ((p, has, size), e2, r2) = >>=-eq-ok (take_inputs env s block false tx) _ run in
    let ((q, sent), e3, r3) = >>=-eq-ok (process_payments env.tx_env tx p 0) _ r2 in
    let (worth_eq, size_eq) = take_inputs-worth env s block tx coins p has size found valid e2 in
    let sum = process_payments-amount_out env.tx_env tx p q sent e3 in
    let (pays, fee_eq) = charged has sent size fee q patch r3 in
    (ground (arith, worth_eq, sum, pays, fee_eq), size, size_eq, ground (arith, pays, fee_eq))
