-- ===== src/Node/Rollback.antt =====
-- node/node.js: transfers of a contract that then fails.
use cil_core.Base.{
  ℕ, ◌+◌, ◌-◌, ◌≤◌, ◌<◌, ◌≡◌, refl, inl, inr, true, false, some, [], ◌∷◌, arith, ltb, leb, ◌==◌,
  Bool-cases, Option-cases, Error, Result, ok, err, ◌>>=◌, Result-cases,
}
use cil_core.JsMap.{get, set, get-set}
use cil_core.Utxo
use cil_core.Utxo.{Coins, Utxo}
use cil_core.Utxo.View.{view}
use cil_core.Receipt
use cil_core.Receipt.{TxReceipt}
use cil_core.Patch
use cil_core.Patch.{PatchDb}
use cil_core.Patch.View.{unspent}
use cil_core.App.{spend_coins}
use cil_core.App.Types.{Environment, Context, Call, throws, sends, Exec}
use cil_core.App.Run.{run_script, send}
use cil_core.Node.Types.{NodeEnv}
use cil_core.Node.Callbacks.{
  create_internal_tx, transfer, send_coins, withdraw_from, balance_of, fresh_receipt,
}

-- The coins of a transfer, alone in a new UTXO.
sent_utxo : NodeEnv → ℕ → ℕ → ℕ → ℕ → Utxo
sent_utxo env hash nonce address amount = record {
  tx_hash = env.internal_hash hash nonce;
  contents = record {
    indexes = 0 ∷ [];
    outputs = record { amount = amount; receiver = address } ∷ [];
  };
}

create_internal_tx-sent :
    (env : NodeEnv) (patch : PatchDb) (address amount hash : ℕ)
    → 0 < amount
    → create_internal_tx env patch address amount hash
      ≡ ok (
        sent_utxo env hash patch.nonce address amount,
        record patch {
          nonce = patch.nonce + 1;
          coins =
              set patch.coins
                (env.internal_hash hash patch.nonce)
                (sent_utxo env hash patch.nonce address amount);
        },
      )
unfolding create_internal_tx sent_utxo Utxo.create Utxo.add_coins Utxo.find_index Patch.get_nonce
    Patch.set_utxo Utxo.clone Utxo.restore
create_internal_tx-sent env patch address amount hash some_amount = ground (
  arith,
  env.storage_env.codec.utxo.decode-encode
      (record { indexes = 0 ∷ []; outputs = record { amount = amount; receiver = address } ∷ [] }),
)

view-sent_utxo :
    (env : NodeEnv) (hash nonce address amount : ℕ)
    → view (sent_utxo env hash nonce address amount) 0
      ≡ some (record { amount = amount; receiver = address })
unfolding view sent_utxo
view-sent_utxo env hash nonce address amount = ground arith

set_receipt-coins :
    (p : PatchDb) (h : ℕ) (r : TxReceipt) → ((Patch.set_receipt p h r).1).coins ≡ p.coins
unfolding Patch.set_receipt
set_receipt-coins p h r = elim (Option-cases (get p.receipts h)) [
  | inl e ↦ rw (e, Patch.set_receipt) refl
  | inr (same, e) ↦ elim (Bool-cases (Receipt.is_successful same)) [
    | inl f ↦ rw (e, f, Patch.set_receipt) refl
    | inr f ↦ rw (e, f, Patch.set_receipt) refl
  ]
]

-- The coins of a transfer are in the patch.
transfer-unspent :
    (env : NodeEnv) (hash address amount : ℕ) (x : Exec)
    → 0 < amount
    → unspent
        (((transfer env hash address amount x).1).patch)
        (env.internal_hash hash x.patch.nonce)
        0
      ≡ some (record { amount = amount; receiver = address })
unfolding transfer unspent
transfer-unspent env hash address amount x some_amount =
    let utxo = sent_utxo env hash x.patch.nonce address amount in
    let paid : PatchDb = record (x.patch) {
      nonce = x.patch.nonce + 1;
      coins = set x.patch.coins (env.internal_hash hash x.patch.nonce) utxo;
    } in
    let (added, receipt) = Receipt.add_internal_utxo fresh_receipt utxo in
    let there : unspent ((Patch.set_receipt paid hash receipt).1)
          (env.internal_hash hash x.patch.nonce) 0
        ≡ some (record { amount = amount; receiver = address }) =
      ground (
        arith,
        set_receipt-coins paid hash receipt,
        get-set x.patch.coins (env.internal_hash hash x.patch.nonce)
            (env.internal_hash hash x.patch.nonce) utxo,
        view-sent_utxo env hash x.patch.nonce address amount,
      ) in
    elim (Result-cases (
      added >>= λ _.
      (Patch.set_receipt paid hash receipt).0 >>= λ _. withdraw_from x.app.frames amount)) [
        | inl (_, e) ↦
            rw (create_internal_tx-sent env x.patch address amount hash some_amount, e, transfer)
              there
        | inr (_, e) ↦
            rw (create_internal_tx-sent env x.patch address amount hash some_amount, e, transfer)
              there
      ]

-- A contract that sends coins, at most its balance, and then fails, has failed; and the coins it sent are unspent for the receiver in the patch that its run leaves.
pub run_script-unspent :
    (env : NodeEnv) (invoke : Call → Context → Exec → Result ℕ × ℕ × Exec)
    (environment : Environment) (hash address amount left : ℕ) (thrown : Error) (x : Exec)
    → 0 < amount
    → amount ≤ balance_of x.app.frames
    → x.app.fees.internal_tx ≤ x.app.coins_limit
    → let ran =
        run_script
          (send_coins env hash)
          invoke
          environment
          (sends address amount (λ _. throws thrown left))
          x in
      (ran.0 ≡ err thrown)
      × (unspent ((ran.2).patch) (env.internal_hash hash x.patch.nonce) 0
          ≡ some (record { amount = amount; receiver = address }))
unfolding run_script send spend_coins send_coins
run_script-unspent env invoke environment hash address amount left thrown x some_amount funded
      paid =
    let limit : leb x.app.fees.internal_tx x.app.coins_limit ≡ true = ground arith in
    let enough : ltb (balance_of x.app.frames) amount ≡ false = ground arith in
    let real : (amount == 0) ≡ false = ground arith in
    let charged : Exec = record x {
      app = record (x.app) { coins_limit = x.app.coins_limit - x.app.fees.internal_tx };
    } in
    (
      refl,
      rw (limit, enough, real, send, send_coins)
          (transfer-unspent env hash address amount charged some_amount),
    )
