-- ===== src/Patch/Merge/Laws.antt =====
-- The loop over all coin hashes, and `merge` as a whole.
use cil_core.Base.{
  ℕ, ◌≡◌, refl, sym, ◌∙◌, subst, ◌⊎◌, inl, inr, Bool, true, false, ◌||◌, none, List, [], ◌∷◌, arith,
  ◌==◌, eq_of_test, Bool-cases, Option-cases, contains, Distinct, double_spend, ok, err, >>=-eq-ok,
}
use cil_core.JsMap.{get, has}
use cil_core.Patch.{Codec, PatchDb, get_spent_outputs, set_contract, set_receipt}
use cil_core.Contract
use cil_core.Contract.{Contract}
use cil_core.Receipt.{TxReceipt}
use cil_core.Patch.View.{unspent, spent_by, IsValid}
use cil_core.Patch.Merge.{
  merge_levels, merge_coin, merge_coins, merge_contracts, merge_receipts, winner, pick_receipt,
}
use cil_core.Patch.Merge.Entry.{Unchanged, IsMerged, Conflict, Agree}
use cil_core.Patch.Merge.Coin.{Joins, keep_one-Joins}
use cil_core.Patch.Merge.Both.{merge_both_lem}

unspent-Unchanged :
    (acc acc' : PatchDb) (j k : ℕ) → Unchanged acc acc' j → unspent acc' j k ≡ unspent acc j k
unfolding unspent
unspent-Unchanged acc acc' j k (e, _) = rw e

pub IsMerged-Unchanged :
    (this patch acc acc' : PatchDb) (j : ℕ)
    → Unchanged acc acc' j
    → IsMerged this patch acc j
    → IsMerged this patch acc' j
IsMerged-Unchanged this patch acc acc' j same (look, spends) =
    ((λ k. unspent-Unchanged acc acc' j k same ∙ look k), λ k. same.1 k ∙ spends k)

-- The parts of the result that the later stages of `merge` leave alone.
abbrev pub SameCoins : PatchDb → PatchDb → Type 0
SameCoins p q = (q.coins ≡ p.coins) × (q.spent ≡ p.spent)

pub SameCoins-Unchanged : (p q : PatchDb) (j : ℕ) → SameCoins p q → Unchanged p q j
unfolding spent_by get_spent_outputs
SameCoins-Unchanged p q j (e, f) = (rw e, λ k. rw f)

pub SameCoins-IsValid : (p q : PatchDb) → SameCoins p q → IsValid p → IsValid q
unfolding get_spent_outputs
SameCoins-IsValid p q (e, f) v =
    let same : (j : ℕ) → Unchanged p q j = λ j. SameCoins-Unchanged p q j (e, f) in
    record {
      utxo_valid = λ h u g. v.utxo_valid h u (sym (same h).0 ∙ g);
      tracked = λ h i t g. rw e (v.tracked h i t (sym ((same h).1 i) ∙ g));
      disjoint =
          λ h i t g. unspent-Unchanged p q h i (same h) ∙ v.disjoint h i t (sym ((same h).1 i) ∙ g);
      spent_distinct = λ h. rw f (v.spent_distinct h);
    }

pub SameCoins-levels :
    (this patch : PatchDb) (ids : List ℕ) (acc : PatchDb)
    → SameCoins acc (merge_levels this patch ids acc)
unfolding merge_levels
SameCoins-levels this patch [] acc = (refl, refl)
SameCoins-levels this patch (id ∷ ids) acc =
    SameCoins-levels this patch ids (record acc { concilium_level = _ })

module _ (codec : Codec) (this patch : PatchDb) (vt : IsValid this) (vp : IsValid patch) where
  merge_coin_lem :
      (acc : PatchDb) (h : ℕ)
      → IsValid acc
      → ((i : ℕ) → spent_by acc h i ≡ none)
      → has this.coins h || has patch.coins h ≡ true
      → ((acc' : PatchDb) × (merge_coin codec this patch acc h ≡ ok acc')
          × Joins this patch acc h acc')
        ⊎ ((merge_coin codec this patch acc h ≡ err double_spend) × Conflict this patch h)
  unfolding merge_coin
  merge_coin_lem acc h va free known = elim (Option-cases (get this.coins h)) [
    | inl e ↦ elim (Option-cases (get patch.coins h)) [
      | inl f ↦ absurd (ground arith)
      | inr (u, f) ↦ inl (
        _,
        rw (e, merge_coin, f),
        keep_one-Joins codec this patch vt vp acc h u va free (inr (f, e)),
      )
    ]
    | inr (u, e) ↦ elim (Option-cases (get patch.coins h)) [
      | inl f ↦ inl (
        _,
        rw (e, merge_coin, f),
        keep_one-Joins codec this patch vt vp acc h u va free (inl (e, f)),
      )
      | inr (w, f) ↦ elim (merge_both_lem codec this patch vt vp h u w e f acc va free) [
        | inl (acc', run, joins) ↦ inl (acc', rw (e, merge_coin, f) run, joins)
        | inr (thrown, clash) ↦ inr (rw (e, merge_coin, f) thrown, clash)
      ]
    ]
  ]

  -- Every hash of the list is merged and agrees, and no other is touched; or some hash conflicts.
  pub merge_coins_lem :
      (hs : List ℕ) (acc : PatchDb)
      → Distinct hs
      → IsValid acc
      → ((h : ℕ) → contains hs h ≡ true → (i : ℕ) → spent_by acc h i ≡ none)
      → ((h : ℕ) → contains hs h ≡ true → has this.coins h || has patch.coins h ≡ true)
      → ((acc' : PatchDb) × (merge_coins codec this patch hs acc ≡ ok acc')
          × IsValid acc'
          × ((h : ℕ) → contains hs h ≡ true → IsMerged this patch acc' h × Agree this patch h)
          × ((j : ℕ) → contains hs j ≡ false → Unchanged acc acc' j))
        ⊎ ((merge_coins codec this patch hs acc ≡ err double_spend)
            × ((h : ℕ) × Conflict this patch h))
  unfolding merge_coins
  merge_coins_lem [] acc d va free known =
      inl (acc, refl, va, (λ h e. absurd (cc)), λ j _. (refl, λ k. refl))
  merge_coins_lem (h ∷ hs) acc d va free known =
      elim (merge_coin_lem acc h va (free h (ground arith)) (known h (ground arith))) [
        | inr (thrown, clash) ↦ inr (rw thrown, (h, clash))
        | inl (mid, run, (vmid, merged, others, agree)) ↦
            elim (merge_coins_lem hs mid d.1 vmid
              (λ k e i. (others k (apart k e)).1 i ∙ free k (ground arith) i)
              (λ k e. known k (ground arith))) [
                | inr (thrown, clash) ↦ inr (rw run thrown, clash)
                | inl (acc', runs, v', all_merged, rest) ↦ inl (
                  acc',
                  rw run runs,
                  v',
                  (λ k e. elim (Bool-cases (h == k)) [
                    | inl s ↦
                        subst (λ x. IsMerged this patch acc' x × Agree this patch x)
                          (eq_of_test h k s)
                          (IsMerged-Unchanged this patch mid acc' h (rest h d.0) merged, agree)
                    | inr s ↦ all_merged k (ground arith)
                  ]),
                  λ j e. (
                    (rest j (ground arith)).0 ∙ (others j (ground arith)).0,
                    λ k. (rest j (ground arith)).1 k ∙ (others j (ground arith)).1 k,
                  ),
                )
              ]
      ]
    where
      apart : (k : ℕ) → contains hs k ≡ true → (h == k) ≡ false
      apart k e = elim (Bool-cases (h == k)) [ inr s ↦ s | inl s ↦ absurd (ground (arith, d.0)) ]

set_contract-SameCoins :
    (codec : Codec) (p : PatchDb) (c : Contract) {q : PatchDb}
    → set_contract codec p c ≡ ok q
    → SameCoins p q
unfolding set_contract
set_contract-SameCoins codec p c e = ground arith

pub merge_contracts-SameCoins :
    (codec : Codec) (this patch : PatchDb) (prefer : Bool) (addrs : List ℕ) (p : PatchDb)
    {q : PatchDb}
    → merge_contracts codec this patch prefer addrs p ≡ ok q
    → SameCoins p q
unfolding merge_contracts
merge_contracts-SameCoins codec this patch prefer [] p e = ground arith
merge_contracts-SameCoins codec this patch prefer (a ∷ addrs) p {q} e =
    let (c, _, e1) = >>=-eq-ok (winner this patch prefer a) _ e in
    let (copied, _, e2) = >>=-eq-ok (Contract.clone codec.contract c) _ e1 in
    let (mid, e3, e4) = >>=-eq-ok (set_contract codec p copied.0) _ e2 in
    let (x, y) = set_contract-SameCoins codec p copied.0 e3 in
    let (z, w) = merge_contracts-SameCoins codec this patch prefer addrs mid e4 in (z ∙ x, w ∙ y)

set_receipt-SameCoins : (p : PatchDb) (h : ℕ) (r : TxReceipt) → SameCoins p (set_receipt p h r).1
unfolding set_receipt
set_receipt-SameCoins p h r = ground arith

pub merge_receipts-SameCoins :
    (codec : Codec) (this patch : PatchDb) (hs : List ℕ) (p : PatchDb) {q : PatchDb}
    → merge_receipts codec this patch hs p ≡ ok q
    → SameCoins p q
unfolding merge_receipts
merge_receipts-SameCoins codec this patch [] p e = ground arith
merge_receipts-SameCoins codec this patch (h ∷ hs) p {q} e =
    let (r, _, e1) = >>=-eq-ok (pick_receipt codec this patch h) _ e in
    let (_, _, e2) = >>=-eq-ok (set_receipt p h r).0 _ e1 in
    let (x, y) = set_receipt-SameCoins p h r in
    let (z, w) = merge_receipts-SameCoins codec this patch hs (set_receipt p h r).1 e2 in
    (z ∙ x, w ∙ y)
