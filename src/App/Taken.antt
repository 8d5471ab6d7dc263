-- ===== src/App/Taken.antt =====
-- node/app.js: what one round of the loop of `processTxInputs` does with its input.
use cil_core.Base.{
  ℕ, suc, ◌+◌, ◌≡◌, refl, subst, inl, inr, Bool, true, false, ◌&&◌, ◌||◌, not, Option, none, some,
  List, [], ◌∷◌, arith, ◌==◌, no_utxo, ok, or_throw, >>=-eq-ok,
}
use cil_core.JsMap.{get}
use cil_core.Utxo
use cil_core.Utxo.{Coins, Utxo}
use cil_core.Utxo.View.{coins_at_index_lem}
use cil_core.Patch
use cil_core.Patch.{PatchDb, Codec}
use cil_core.Patch.View.{unspent, spent_by, IsValid}
use cil_core.Patch.Spend.{spend_coins_lem}
use cil_core.Transaction
use cil_core.Transaction.Types.{Transaction, TxEnv, Input}
use cil_core.App.{verify_pay_to_addr, claim_proof, process_input}

-- The input with number `i` takes coins that are unspent in `block`, its proof recovers to the
-- address that owns them, and `patch` records them as spent by the transaction.
unfoldable pub IsTaken : TxEnv → Transaction → PatchDb → PatchDb → ℕ → Input → Type 0
IsTaken env tx block patch i input =
    (c : Coins) × (sig : ℕ) × (unspent block input.tx_hash input.n_tx_output ≡ some c)
    × (claim_proof tx i ≡ some sig)
    × (env.recover (Transaction.get_hash env tx) sig ≡ some c.receiver)
    × (spent_by patch input.tx_hash input.n_tx_output ≡ some (Transaction.get_hash env tx))

-- The same of all inputs from number `i` on.
unfoldable pub AllTaken : TxEnv → Transaction → PatchDb → PatchDb → ℕ → List Input → Type 0
AllTaken env tx block patch i [] = Unit {0}
AllTaken env tx block patch i (input ∷ rest) =
    IsTaken env tx block patch i input × AllTaken env tx block patch (suc i) rest

-- What inputs are worth in a patch.
unfoldable pub worth : PatchDb → List Input → ℕ
worth block [] = 0
worth block (input ∷ rest) =
    elim (unspent block input.tx_hash input.n_tx_output) [ none ↦ 0 | some c ↦ c.amount ]
    + worth block rest

-- Outputs once spent by the transaction stay spent by it.
unfoldable pub Keeps : PatchDb → PatchDb → ℕ → Type 0
Keeps p q hash = (h k : ℕ) → spent_by p h k ≡ some hash → spent_by q h k ≡ some hash

verified :
    (env : TxEnv) (address : ℕ) (proof : Option ℕ) (signed : ℕ)
    → verify_pay_to_addr env address proof signed ≡ ok tt
    → (sig : ℕ) × (proof ≡ some sig) × (env.recover signed sig ≡ some address)
unfolding verify_pay_to_addr
verified env address none signed e = cc
verified env address (some sig) signed e = (sig, refl, ground arith)

read_coins :
    (block : PatchDb) (h n : ℕ) (u : Utxo) (c : Coins)
    → IsValid block
    → get block.coins h ≡ some u
    → Utxo.coins_at_index u n ≡ ok c
    → unspent block h n ≡ some c
unfolding unspent
read_coins block h n u c valid e read =
    ground (arith, coins_at_index_lem u n ((valid.utxo_valid h u e).0).in_step)

-- What a round that returned went through.
pub input_steps :
    (codec : Codec) (env : TxEnv) (tx : Transaction) (block : PatchDb) (i : ℕ) (input : Input)
    (patch patch' : PatchDb) (total total' : ℕ)
    → process_input codec env tx block i input patch total ≡ ok (patch', total')
    → (utxo : Utxo) × (c : Coins) × (get block.coins input.tx_hash ≡ some utxo)
      × (Utxo.coins_at_index utxo input.n_tx_output ≡ ok c)
      × (verify_pay_to_addr env c.receiver (claim_proof tx i) (Transaction.get_hash env tx) ≡ ok tt)
      × (Patch.spend_coins codec patch utxo input.n_tx_output (Transaction.get_hash env tx)
          ≡ ok patch')
      × (total' ≡ total + c.amount)
unfolding process_input Patch.get_utxo
input_steps codec env tx block i input patch patch' total total' e =
    let (utxo, e1, r1) = >>=-eq-ok (or_throw (get block.coins input.tx_hash) no_utxo) _ e in
    let (c, e2, r2) = >>=-eq-ok (Utxo.coins_at_index utxo input.n_tx_output) _ r1 in
    let (_, e3, r3) =
      >>=-eq-ok (verify_pay_to_addr env c.receiver (claim_proof tx i) (Transaction.get_hash env tx))
        _ r2 in
    let (q, e4, r4) =
      >>=-eq-ok (Patch.spend_coins codec patch utxo input.n_tx_output (Transaction.get_hash env tx))
        _ r3 in
    (
      utxo,
      c,
      ground (arith, e1),
      e2,
      ground (arith, e3),
      ground (arith, e4, r4),
      ground (arith, r4),
    )

-- One round of the loop.
pub input_step :
    (codec : Codec) (env : TxEnv) (tx : Transaction) (block : PatchDb) (i : ℕ) (input : Input)
    (patch patch' : PatchDb) (utxo : Utxo) (c : Coins)
    → IsValid block
    → IsValid patch
    → get block.coins input.tx_hash ≡ some utxo
    → Utxo.coins_at_index utxo input.n_tx_output ≡ ok c
    → verify_pay_to_addr env c.receiver (claim_proof tx i) (Transaction.get_hash env tx) ≡ ok tt
    → Patch.spend_coins codec patch utxo input.n_tx_output (Transaction.get_hash env tx) ≡ ok patch'
    → IsValid patch'
      × IsTaken env tx block patch' i input
      × Keeps patch patch' (Transaction.get_hash env tx)
      × (c.amount ≡ worth block (input ∷ []))
unfolding IsTaken Keeps worth
input_step codec env tx block i input patch patch' utxo c vb vp found e2 e3 e4 =
    let held = read_coins block input.tx_hash input.n_tx_output utxo c vb found e2 in
    let (sig, proof, signer) =
      verified env c.receiver (claim_proof tx i) (Transaction.get_hash env tx) e3 in
    let (vu, hash) = vb.utxo_valid input.tx_hash utxo found in
    elim (spend_coins_lem codec patch utxo input.n_tx_output (Transaction.get_hash env tx) vp vu) [
      | inl (gone, thrown) ↦ absurd (cc)
      | inr (_, p, _, run, vp', look, spends) ↦
          let same : p ≡ patch' = ground arith in
          (
            subst IsValid same vp',
            (
              c,
              sig,
              held,
              proof,
              signer,
              ground (arith, same, hash, spends input.tx_hash input.n_tx_output),
            ),
            (λ h k s. ground (arith, same, spends h k)),
            ground (arith, held),
          )
    ]

-- Whether an output is among the inputs, and whether one is there twice.
unfoldable pub occurs : ℕ → ℕ → List Input → Bool
occurs h n [] = false
occurs h n (input ∷ rest) = (input.tx_hash == h && input.n_tx_output == n) || occurs h n rest

unfoldable pub no_repeats : List Input → Bool
no_repeats [] = true
no_repeats (input ∷ rest) = not (occurs input.tx_hash input.n_tx_output rest) && no_repeats rest

-- An output that the patch has as spent is not spent again.
pub spent_once :
    (codec : Codec) (patch patch' : PatchDb) (u : Utxo) (n tx t : ℕ)
    → IsValid patch
    → Utxo.IsValid u
    → Patch.spend_coins codec patch u n tx ≡ ok patch'
    → spent_by patch u.tx_hash n ≡ some t
    → ⊥
unfolding unspent
spent_once codec patch patch' u n tx t vp vu run spent =
    elim (spend_coins_lem codec patch u n tx vp vu) [
      | inl (gone, thrown) ↦ cc
      | inr (c, p, held, _, _, look, _) ↦
          ground (arith, vp.tracked u.tx_hash n t spent, vp.disjoint u.tx_hash n t spent)
    ]
