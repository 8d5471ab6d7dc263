-- ===== src/Witness/Grown.antt =====
-- node/witness.js: the draft of a block, as the loop over the transactions grows it.
use cil_core.Base.{
  ℕ, ◌+◌, ◌≡◌, refl, sym, ap, ◌∙◌, subst, inl, inr, Bool, true, false, ◌&&◌, some, List, [], ◌∷◌,
  ◌++◌, arith, ltb, ◌==◌, if◌then◌else◌, Bool-cases, length, wrong_concilium, append_assoc,
  append_nil, ok, err, guard, Result-cases, >>=-eq-ok,
}
use cil_core.Patch
use cil_core.Patch.{PatchDb}
use cil_core.Patch.Merge
use cil_core.Transaction
use cil_core.Transaction.Types.{Transaction}
use cil_core.Block
use cil_core.Node.Types.{NodeEnv, NodeState}
use cil_core.Node.Transactions.{process_tx}
use cil_core.Node.Blocks.{exec_txns}
use cil_core.Witness.{Draft, include_tx, add_txns}

-- Every transaction is of the concilium.
unfoldable pub all_of : ℕ → List Transaction → Bool
all_of id [] = true
all_of id (tx ∷ txns) = (tx.concilium_id == id) && all_of id txns

-- The fees of the transactions that can be processed against the state so far, but whose patch then
-- does not merge into it, so that they are left out.
unfoldable pub left_out_fees : NodeEnv → NodeState → ℕ → (ℕ → Bool) → List Transaction → PatchDb → ℕ
left_out_fees env s max_utxo late [] state = 0
left_out_fees env s max_utxo late (tx ∷ txns) state =
    let next = left_out_fees env s max_utxo late txns state in
    let tried : ℕ = elim (process_tx env s (some state) false tx) [
      | err e ↦ next
      | ok (fee, patch) ↦ elim (Patch.Merge.merge env.storage_env.codec state patch true) [
        | err e ↦ fee + next
        | ok state' ↦
            let after = left_out_fees env s max_utxo late txns state' in
            if late (length txns) then 0 else after
      ]
    ] in
    if ltb max_utxo (length tx.ins) then next else tried

-- The draft `e` grew from `d`: the transactions it added, executed in order, give its state, and their
-- fees are counted, with the fees `lost` of others.
pub record Grown (env : NodeEnv) (s : NodeState) (id : ℕ) (d e : Draft) (lost : ℕ) : Type 0 where
  pub added : List Transaction
  pub more : (e.block).txns ≡ (d.block).txns ++ added
  pub still_open : (e.block).final ≡ (d.block).final
  pub same_header : (e.block).header ≡ (d.block).header
  pub fees : ℕ
  pub run : (start : ℕ) → exec_txns env s false id added d.state start ≡ ok (start + fees, e.state)
  pub counted : e.fees ≡ d.fees + (fees + lost)

exec_txns-one :
    (env : NodeEnv) (s : NodeState) (id : ℕ) (tx : Transaction) (rest : List Transaction)
    (state state' : PatchDb) (start fee : ℕ) (patch : PatchDb)
    → (tx.concilium_id == id) ≡ true
    → process_tx env s (some state) false tx ≡ ok (fee, patch)
    → Patch.Merge.merge env.storage_env.codec state patch true ≡ ok state'
    → exec_txns env s false id (tx ∷ rest) state start
      ≡ exec_txns env s false id rest state' (start + fee)
unfolding exec_txns
exec_txns-one env s id tx rest state state' start fee patch own run merged =
    rw (own, run, merged, exec_txns) refl

Grown-self :
    (env : NodeEnv) (s : NodeState) (id : ℕ) (d : Draft) (bad : List ℕ) (lost : ℕ)
    → Grown env s id d (record d { bad = bad; fees = d.fees + lost }) lost
unfolding exec_txns
Grown-self env s id d bad lost = record {
  added = [];
  more = sym (append_nil (d.block).txns);
  still_open = refl;
  same_header = refl;
  fees = 0;
  run = λ start. ground arith;
  counted = omega arith;
}

Grown-failed :
    (env : NodeEnv) (s : NodeState) (id : ℕ) (d : Draft) (bad : List ℕ)
    → Grown env s id d (record d { bad = bad }) 0
unfolding exec_txns
Grown-failed env s id d bad = record {
  added = [];
  more = sym (append_nil (d.block).txns);
  still_open = refl;
  same_header = refl;
  fees = 0;
  run = λ start. ground arith;
  counted = omega arith;
}

exec_txns-append :
    (env : NodeEnv) (s : NodeState) (id : ℕ) (xs ys : List Transaction) (state middle : PatchDb)
    (start fees : ℕ)
    → exec_txns env s false id xs state start ≡ ok (fees, middle)
    → exec_txns env s false id (xs ++ ys) state start ≡ exec_txns env s false id ys middle fees
unfolding exec_txns
exec_txns-append env s id [] ys state middle start fees e = ground (arith, e)
exec_txns-append env s id (tx ∷ xs) ys state middle start fees e =
    let (_, e1, r1) = >>=-eq-ok (guard (tx.concilium_id == id) wrong_concilium) _ e in
    let ((fee, patch), e2, r2) = >>=-eq-ok (process_tx env s (some state) false tx) _ r1 in
    let (state', e3, r3) =
      >>=-eq-ok (Patch.Merge.merge env.storage_env.codec state patch true) _ r2 in
    exec_txns-one env s id tx (xs ++ ys) state state' start fee patch (ground (arith, e1)) e2 e3
    ∙ exec_txns-append env s id xs ys state' middle (start + fee) fees r3

Grown-then :
    (env : NodeEnv) (s : NodeState) (id : ℕ) (a b c : Draft) (m n : ℕ)
    → Grown env s id a b m
    → Grown env s id b c n
    → Grown env s id a c (m + n)
Grown-then env s id a b c m n g h = record {
  added = g.added ++ h.added;
  more = h.more ∙ ap (λ l. l ++ h.added) g.more ∙ append_assoc (a.block).txns g.added h.added;
  still_open = h.still_open ∙ g.still_open;
  same_header = h.same_header ∙ g.same_header;
  fees = g.fees + h.fees;
  run = λ start.
      exec_txns-append env s id g.added h.added a.state b.state start (start + g.fees) (g.run start)
      ∙ h.run (start + g.fees)
      ∙ ap (λ n. ok (n, c.state)) (omega arith);
  counted = ground (arith, g.counted, h.counted);
}

Grown-next :
    (env : NodeEnv) (s : NodeState) (id : ℕ) (a b c : Draft) (n : ℕ)
    → Grown env s id a b 0
    → Grown env s id b c n
    → Grown env s id a c n
Grown-next env s id a b c n g h =
    let zero_plus : 0 + n ≡ n = omega arith in
    subst (Grown env s id a c) zero_plus (Grown-then env s id a b c 0 n g h)

included :
    (env : NodeEnv) (s : NodeState) (id : ℕ) (tx : Transaction) (fee : ℕ) (patch : PatchDb)
    (d : Draft) (state : PatchDb)
    → (tx.concilium_id == id) ≡ true
    → (d.block).final ≡ false
    → process_tx env s (some d.state) false tx ≡ ok (fee, patch)
    → Patch.Merge.merge env.storage_env.codec d.state patch true ≡ ok state
    → ((include_tx env tx fee patch d).0 ≡ true)
      × ((include_tx env tx fee patch d).1.state ≡ state)
      × Grown env s id d (include_tx env tx fee patch d).1 0
unfolding include_tx Block.add_tx exec_txns
included env s id tx fee patch d state own unfinished run e =
    rw (e, unfinished, include_tx)
      (
        refl,
        refl,
        record {
          added = tx ∷ [];
          more = refl;
          still_open = refl;
          same_header = refl;
          fees = fee;
          run = λ start. exec_txns-one env s id tx [] d.state state start fee patch own run e;
          counted = omega arith;
        },
      )

pub add_txns-Grown :
    (env : NodeEnv) (s : NodeState) (id max_utxo : ℕ) (late : ℕ → Bool) (txns : List Transaction)
    (d : Draft)
    → all_of id txns ≡ true
    → (d.block).final ≡ false
    → Grown env s id d
        (add_txns env s max_utxo late txns d)
        (left_out_fees env s max_utxo late txns d.state)
unfolding add_txns all_of left_out_fees include_tx
add_txns-Grown env s id max_utxo late [] d own unfinished = Grown-failed env s id d d.bad
add_txns-Grown env s id max_utxo late (tx ∷ txns) d own unfinished =
    let mine : (tx.concilium_id == id) ≡ true = ground (arith, own) in
    let rest : all_of id txns ≡ true = ground (arith, own) in
    let bad = d.bad ++ Transaction.get_hash env.tx_env tx ∷ [] in
    elim (Bool-cases (ltb max_utxo (length tx.ins))) [
      | inl f ↦
          rw (f, add_txns, left_out_fees)
            (add_txns-Grown env s id max_utxo late txns d rest unfinished)
      | inr f ↦ elim (Result-cases (process_tx env s (some d.state) false tx)) [
        | inr (_, e) ↦
            rw (f, e, add_txns, left_out_fees)
              (Grown-next env s id d _ _ _ (Grown-failed env s id d bad) (
                add_txns-Grown env s id max_utxo late txns (record d { bad = bad }) rest
                  unfinished))
        | inl ((fee, patch), e) ↦
            elim (Result-cases (Patch.Merge.merge env.storage_env.codec d.state patch true)) [
              | inr (_, m) ↦
                  rw (f, e, m, add_txns, left_out_fees, include_tx)
                    (Grown-then env s id d _ _ fee _ (Grown-self env s id d bad fee) (
                      add_txns-Grown env s id max_utxo late txns
                        (record d { bad = bad; fees = d.fees + fee }) rest unfinished))
              | inl (state, m) ↦
                  let (done, reached, one) =
                    included env s id tx fee patch d state mine unfinished e m in
                  let d' = (include_tx env tx fee patch d).1 in
                  elim (Bool-cases (late (length txns))) [
                    | inl g ↦ rw (f, e, m, done, g, add_txns, left_out_fees) one
                    | inr g ↦
                        rw (f, e, m, done, g, add_txns, left_out_fees)
                          (subst
                            (λ st.
                              Grown env s id d (add_txns env s max_utxo late txns d')
                                (left_out_fees env s max_utxo late txns st))
                            reached
                            (Grown-next env s id d d' _ _ one (
                              add_txns-Grown env s id max_utxo late txns d' rest
                                (one.still_open ∙ unfinished))))
                  ]
            ]
      ]
    ]
