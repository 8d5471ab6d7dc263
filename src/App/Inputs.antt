-- ===== src/App/Inputs.antt =====
-- node/app.js: what `processTxInputs` establishes when it returns.
use cil_core.Base.{
  ℕ, suc, ◌+◌, ◌≡◌, refl, subst, inl, inr, true, false, ◌&&◌, some, List, [], ◌∷◌, arith, ◌==◌,
  Bool-cases, ok, >>=-eq-ok,
}
use cil_core.Patch
use cil_core.Patch.{PatchDb, Codec}
use cil_core.Patch.View.{spent_by, IsValid, empty-IsValid}
use cil_core.Transaction
use cil_core.Transaction.Types.{Transaction, TxEnv, Input}
use cil_core.App.{process_input, process_inputs, process_tx_inputs}
use cil_core.App.Taken.{
  IsTaken, AllTaken, worth, Keeps, input_steps, input_step, occurs, no_repeats, spent_once,
}

-- What the loop over `inputs` establishes, from one patch and sum to another.
record Looped (env : TxEnv) (tx : Transaction) (block : PatchDb) (i : ℕ) (inputs : List Input)
    (patch patch' : PatchDb) (total total' : ℕ) : Type 0 where
  valid : IsValid patch'
  taken : AllTaken env tx block patch' i inputs
  keeps : Keeps patch patch' (Transaction.get_hash env tx)
  sum : total' ≡ total + worth block inputs
  distinct : no_repeats inputs ≡ true
  fresh :
      (h n : ℕ)
      → spent_by patch h n ≡ some (Transaction.get_hash env tx)
      → occurs h n inputs ≡ false

IsTaken-Keeps :
    (env : TxEnv) (tx : Transaction) (block patch patch' : PatchDb) (i : ℕ) (input : Input)
    → Keeps patch patch' (Transaction.get_hash env tx)
    → IsTaken env tx block patch i input
    → IsTaken env tx block patch' i input
unfolding IsTaken Keeps
IsTaken-Keeps env tx block patch patch' i input keeps (c, sig, held, proof, signer, spent) =
    (c, sig, held, proof, signer, keeps input.tx_hash input.n_tx_output spent)

IsTaken-spent_by :
    (env : TxEnv) (tx : Transaction) (block patch : PatchDb) (i : ℕ) (input : Input)
    → IsTaken env tx block patch i input
    → spent_by patch input.tx_hash input.n_tx_output ≡ some (Transaction.get_hash env tx)
unfolding IsTaken
IsTaken-spent_by env tx block patch i input (c, sig, held, proof, signer, spent) = spent

-- A round, and then the rest.
Looped-next :
    (codec : Codec) (env : TxEnv) (tx : Transaction) (block : PatchDb) (i : ℕ) (input : Input)
    (rest : List Input) (patch q patch' : PatchDb) (total between total' : ℕ)
    → IsValid block
    → IsValid patch
    → process_input codec env tx block i input patch total ≡ ok (q, between)
    → (IsValid q → Looped env tx block (suc i) rest q patch' between total')
    → Looped env tx block i (input ∷ rest) patch patch' total total'
unfolding AllTaken Keeps worth no_repeats occurs
Looped-next codec env tx block i input rest patch q patch' total between total' vb vp e next =
    let (utxo, c, found, read, claimed, spends, sum) =
      input_steps codec env tx block i input patch q total between e in
    let (vq, taken, keeps, amount) =
      input_step codec env tx block i input patch q utxo c vb vp found read claimed spends in
    let (vu, hash) = vb.utxo_valid input.tx_hash utxo found in
    let after = next vq in
    record {
      valid = after.valid;
      taken = (IsTaken-Keeps env tx block q patch' i input after.keeps taken, after.taken);
      keeps = λ h k s. after.keeps h k (keeps h k s);
      sum = ground (arith, sum, amount, after.sum);
      distinct = ground (
        arith,
        after.distinct,
        after.fresh input.tx_hash input.n_tx_output (IsTaken-spent_by env tx block q i input taken),
      );
      fresh = λ h n s. elim (Bool-cases (input.tx_hash == h && input.n_tx_output == n)) [
        | inl same ↦ absurd (
            spent_once codec patch q utxo input.n_tx_output (Transaction.get_hash env tx)
              (Transaction.get_hash env tx) vp vu spends (ground (arith, s, hash, same)))
        | inr other ↦ ground (arith, other, after.fresh h n (keeps h n s))
      ];
    }

inputs_loop :
    (codec : Codec) (env : TxEnv) (tx : Transaction) (block : PatchDb) (i : ℕ) (inputs : List Input)
    (patch patch' : PatchDb) (total total' : ℕ)
    → IsValid block
    → IsValid patch
    → process_inputs codec env tx block i inputs patch total ≡ ok (patch', total')
    → Looped env tx block i inputs patch patch' total total'
unfolding process_inputs AllTaken Keeps worth no_repeats occurs
inputs_loop codec env tx block i [] patch patch' total total' vb vp e =
    let same : patch ≡ patch' = ground arith in
    record {
      valid = subst IsValid same vp;
      taken = tt;
      keeps = λ h k s. ground (arith, same, s);
      sum = ground arith;
      distinct = refl;
      fresh = λ h n s. refl;
    }
inputs_loop codec env tx block i (input ∷ rest) patch patch' total total' vb vp e =
    let ((q, between), e1, e2) =
      >>=-eq-ok (process_input codec env tx block i input patch total) _ e in
    Looped-next codec env tx block i input rest patch q patch' total between total' vb vp e1
      (λ vq. inputs_loop codec env tx block (suc i) rest q patch' between total' vb vq e2)

-- When the inputs of a transaction are processed against a valid patch, each input takes coins that are unspent there, its proof recovers over the transaction's hash to the address that owns the coins, and the resulting patch, which is valid, has the output spent by the transaction; no output is taken twice, and the total is what the inputs are worth.
pub process_tx_inputs-AllTaken :
    (codec : Codec) (env : TxEnv) (tx : Transaction) (block patch : PatchDb) (total : ℕ)
    → IsValid block
    → process_tx_inputs codec env tx block ≡ ok (patch, total)
    → IsValid patch
      × AllTaken env tx block patch 0 tx.ins
      × (no_repeats tx.ins ≡ true)
      × (total ≡ worth block tx.ins)
unfolding process_tx_inputs
process_tx_inputs-AllTaken codec env tx block patch total vb e =
    let run =
      inputs_loop codec env tx block 0 tx.ins Patch.empty patch 0 total vb empty-IsValid e in
    (run.valid, run.taken, run.distinct, ground (arith, run.sum))
