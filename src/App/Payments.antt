-- ===== src/App/Payments.antt =====
-- node/app.js: what `processPayments` creates.
use cil_core.Base.{
  ℕ, suc, ◌+◌, ◌<◌, ◌≡◌, refl, subst, inl, inr, Option, none, some, List, [], ◌∷◌, map, arith, ◌==◌,
  if◌then◌else◌, Bool-cases, or_else, skip, ok, >>=-eq-ok,
}
use cil_core.Utxo.{Coins}
use cil_core.Utxo.Amounts.{total}
use cil_core.Patch
use cil_core.Patch.{PatchDb}
use cil_core.Patch.View.{unspent, spent_by, IsValid}
use cil_core.Patch.Spend.{create_coins_lem}
use cil_core.Transaction
use cil_core.Transaction.Types.{Transaction, TxEnv, Output}
use cil_core.App.{pay_from, process_payments}

-- The coins that a list creates at an output, when it starts at output `i`: those that are not 0.
unfoldable pub paid : ℕ → List Coins → ℕ → Option Coins
paid i [] k = none
paid i (c ∷ cs) k =
    let rest = paid (suc i) cs k in
    if i == k then (if c.amount == 0 then none else some c) else rest

-- What the loop leaves of a patch.
record IsPaid (hash i : ℕ) (cs : List Coins) (p p' : PatchDb) : Type 0 where
  valid : IsValid p'
  coins :
      (h k : ℕ)
      → unspent p' h k
        ≡ (if h == hash then or_else (paid i cs k) (unspent p h k) else unspent p h k)
  spends : (h k : ℕ) → spent_by p' h k ≡ spent_by p h k

paid-below : (i : ℕ) (cs : List Coins) (k : ℕ) → k < i → paid i cs k ≡ none
unfolding paid
paid-below i [] k below = refl
paid-below i (c ∷ cs) k below = ground (arith, paid-below (suc i) cs k)

pay_one :
    (hash i : ℕ) (c : Coins) (p p' : PatchDb)
    → IsValid p
    → spent_by p hash i ≡ none
    → (if c.amount == 0 then ok p else Patch.create_coins p hash i c) ≡ ok p'
    → IsPaid hash i (c ∷ []) p p'
unfolding paid
pay_one hash i c p p' v free e = elim (Bool-cases (c.amount == 0)) [
  | inl zero_amount ↦
      let same : p ≡ p' = ground (arith, e, zero_amount) in
      record {
        valid = subst IsValid same v;
        coins = λ h k. ground (arith, same, zero_amount);
        spends = λ h k. ground (arith, same);
      }
  | inr some_amount ↦ elim (create_coins_lem p hash i c v free) [
    | inl (d, held, thrown) ↦ absurd (ground (arith, e, some_amount, thrown))
    | inr (q, gone, run, vq, look, same_spends) ↦
        let same : q ≡ p' = ground (arith, e, some_amount, run) in
        record {
          valid = subst IsValid same vq;
          coins = λ h k. ground (arith, same, some_amount, look h k);
          spends = λ h k. ground (arith, same, same_spends h k);
        }
  ]
]

pay_loop :
    (hash i : ℕ) (cs : List Coins) (p p' : PatchDb) (acc sum : ℕ)
    → IsValid p
    → ((k : ℕ) → spent_by p hash k ≡ none)
    → pay_from hash i cs p acc ≡ ok (p', sum)
    → IsPaid hash i cs p p' × (sum ≡ acc + total cs)
unfolding pay_from paid
pay_loop hash i [] p p' acc sum v free e =
    let same : p ≡ p' = ground arith in
    (
      record {
        valid = subst IsValid same v;
        coins = λ h k. ground (arith, same);
        spends = λ h k. ground (arith, same);
      },
      ground arith,
    )
pay_loop hash i (c ∷ cs) p p' acc sum v free e =
    let (q, e1, e2) =
      >>=-eq-ok (if c.amount == 0 then ok p else Patch.create_coins p hash i c) _ e in
    let one = pay_one hash i c p q v (free i) e1 in
    let (rest, eq) =
      pay_loop hash (suc i) cs q p' (acc + c.amount) sum one.valid
        (λ k. ground (arith, one.spends hash k, free k)) e2 in
    (
      record {
        valid = rest.valid;
        coins = λ h k. ground (arith, one.coins h k, rest.coins h k, paid-below (suc i) cs k);
        spends = λ h k. ground (arith, one.spends h k, rest.spends h k);
      },
      ground (arith, eq),
    )

-- When the payments of a transaction, from one output on, are added to a valid patch in which none of its outputs is spent, the sum is that of those outputs, the patch stays valid, it has each of their coins that is not 0 at the output's number, and it is otherwise as before.
pub process_payments-paid :
    (env : TxEnv) (tx : Transaction) (p p' : PatchDb) (start sum : ℕ)
    → IsValid p
    → ((k : ℕ) → spent_by p (Transaction.get_hash env tx) k ≡ none)
    → process_payments env tx p start ≡ ok (p', sum)
    → IsValid p'
      × (sum ≡ total (skip start (Transaction.get_out_coins tx)))
      × ((h k : ℕ)
          → unspent p' h k ≡ (
              if h == Transaction.get_hash env tx
              then or_else
                  (paid start (skip start (Transaction.get_out_coins tx)) k)
                  (unspent p h k)
              else unspent p h k))
      × ((h k : ℕ) → spent_by p' h k ≡ spent_by p h k)
unfolding process_payments
process_payments-paid env tx p p' start sum v free e =
    let (run, eq) =
      pay_loop (Transaction.get_hash env tx) start (skip start (Transaction.get_out_coins tx)) p p'
        0 sum v free e in
    (run.valid, ground (arith, eq), run.coins, run.spends)

pay_from-total :
    (hash i : ℕ) (cs : List Coins) (p p' : PatchDb) (acc sum : ℕ)
    → pay_from hash i cs p acc ≡ ok (p', sum)
    → sum ≡ acc + total cs
unfolding pay_from
pay_from-total hash i [] p p' acc sum e = ground arith
pay_from-total hash i (c ∷ cs) p p' acc sum e =
    let (q, e1, e2) =
      >>=-eq-ok (if c.amount == 0 then ok p else Patch.create_coins p hash i c) _ e in
    ground (arith, pay_from-total hash (suc i) cs q p' (acc + c.amount) sum e2)

sum_outs-total :
    (os : List Output) (acc : ℕ)
    → Transaction.sum_outs os acc
      ≡ acc + total (map (λ o. record { amount = o.amount; receiver = o.receiver_addr }) os)
unfolding Transaction.sum_outs
sum_outs-total [] acc = ground arith
sum_outs-total (o ∷ os) acc = ground (arith, sum_outs-total os (acc + o.amount))

-- All the payments of a transaction add up to its outputs.
pub process_payments-amount_out :
    (env : TxEnv) (tx : Transaction) (p p' : PatchDb) (sum : ℕ)
    → process_payments env tx p 0 ≡ ok (p', sum)
    → sum ≡ Transaction.amount_out tx
unfolding process_payments Transaction.amount_out Transaction.get_out_coins
process_payments-amount_out env tx p p' sum e = ground (
  arith,
  pay_from-total (Transaction.get_hash env tx) 0 (Transaction.get_out_coins tx) p p' 0 sum e,
  sum_outs-total tx.outs 0,
)
