-- ===== src/Patch/Merge/Safety.antt =====
-- What `merge` promises: no output is spent twice, nothing spent comes back, and the two sides count
-- alike.
use cil_core.Base.{
  ℕ, ◌≡◌, refl, sym, ap, ◌∙◌, subst, ◌⊎◌, inl, inr, Bool, true, false, ◌||◌, none, List, [], ◌++◌,
  arith, ◌==◌, Bool-cases, Option-cases, is_some, contains, contains-append, contains-unique,
  unique_after-Distinct, double_spend, ok, err, >>=-eq-ok,
}
use cil_core.JsMap.{Map, get, keys, has, contains-keys}
use cil_core.Patch.{Codec, PatchDb, empty, get_spent_outputs}
use cil_core.Patch.View.{unspent, spent_by, IsValid, empty-IsValid}
use cil_core.Patch.Merge.{
  keys_unique, merge_levels, merge_coins, merge_contracts, check_fork, merge,
}
use cil_core.Patch.Merge.Entry.{
  merged_unspent, merged_spent, Unchanged, IsMerged, Conflict, Agree, untracked,
}
use cil_core.Patch.Merge.Laws.{
  SameCoins, SameCoins-Unchanged, SameCoins-IsValid, SameCoins-levels, IsMerged-Unchanged,
  merge_coins_lem, merge_contracts-SameCoins, merge_receipts-SameCoins,
}

contains-keys_unique :
    {V : Type 0} (a b : Map V) (h : ℕ) → contains (keys_unique a b) h ≡ has a h || has b h
unfolding keys_unique
contains-keys_unique a b h = ground (
  arith,
  contains-unique (keys a ++ keys b) h,
  contains-append (keys a) (keys b) h,
  contains-keys a h,
  contains-keys b h,
)

empty-spent : (h i : ℕ) → spent_by empty h i ≡ none
unfolding spent_by get_spent_outputs get
empty-spent h i = refl

empty-unspent : (h i : ℕ) → unspent empty h i ≡ none
unfolding unspent get
empty-unspent h i = refl

module _ (codec : Codec) (this patch : PatchDb) (vt : IsValid this) (vp : IsValid patch) where
  hashes : List ℕ
  hashes = keys_unique this.coins patch.coins

  leveled : PatchDb
  leveled = merge_levels this patch (keys_unique this.concilium_level patch.concilium_level) empty

  leveled-same : SameCoins empty leveled
  unfolding leveled
  leveled-same =
      SameCoins-levels this patch (keys_unique this.concilium_level patch.concilium_level) empty

  coins_stage :
      ((acc : PatchDb) × (merge_coins codec this patch hashes leveled ≡ ok acc)
        × IsValid acc
        × ((h : ℕ) → contains hashes h ≡ true → IsMerged this patch acc h × Agree this patch h)
        × ((j : ℕ) → contains hashes j ≡ false → Unchanged leveled acc j))
      ⊎ ((merge_coins codec this patch hashes leveled ≡ err double_spend)
          × ((h : ℕ) × Conflict this patch h))
  unfolding hashes keys_unique
  coins_stage =
      merge_coins_lem codec this patch vt vp hashes leveled
        (unique_after-Distinct [] (keys this.coins ++ keys patch.coins))
        (SameCoins-IsValid empty leveled leveled-same empty-IsValid)
        (λ h e i. (SameCoins-Unchanged empty leveled h leveled-same).1 i ∙ empty-spent h i)
        (λ h e. sym (contains-keys_unique this.coins patch.coins h) ∙ e)

  -- A hash that neither patch has.
  outside :
      (acc : PatchDb) (j : ℕ)
      → contains hashes j ≡ false
      → Unchanged leveled acc j
      → IsMerged this patch acc j × Agree this patch j
  unfolding unspent hashes
  outside acc j e (same, spends) =
      let known = contains-keys_unique this.coins patch.coins j in
      let nt : get this.coins j ≡ none = ground arith in
      let np : get patch.coins j ≡ none = ground arith in
      let st : (k : ℕ) → spent_by this j k ≡ none =
        λ k. untracked codec this patch vt vp this j k vt nt in
      let sp : (k : ℕ) → spent_by patch j k ≡ none =
        λ k. untracked codec this patch vt vp patch j k vp np in
      let (start, quiet) = SameCoins-Unchanged empty leveled j leveled-same in
      (
        (
          (λ k. ground (arith, same, start, empty-unspent j k)),
          λ k. ground (arith, spends k, quiet k, empty-spent j k, st k, sp k),
        ),
        λ i a b p q. ground (arith, st i),
      )

  after_coins :
      (prefer : Bool) {r : PatchDb}
      → merge codec this patch prefer ≡ ok r
      → (acc : PatchDb) × (merge_coins codec this patch hashes leveled ≡ ok acc) × SameCoins acc r
  unfolding merge hashes leveled
  after_coins prefer {r} e =
      let (_, _, e1) = >>=-eq-ok (check_fork this patch prefer) _ e in
      let (acc, run, e2) = >>=-eq-ok (merge_coins codec this patch hashes leveled) _ e1 in
      let (mid, e3, e4) =
        >>=-eq-ok
          (merge_contracts codec this patch prefer (keys_unique this.contracts patch.contracts) acc)
          _ e2 in
      let (x, y) = merge_contracts-SameCoins codec this patch prefer _ acc e3 in
      let (z, w) = merge_receipts-SameCoins codec this patch _ mid e4 in (acc, run, (z ∙ x, w ∙ y))

  -- A merge of two valid patches that succeeds gives a valid patch in which every output is unspent
  -- and spent as its specification says: where both patches have the UTXO, an output is unspent only
  -- if it is so in both; and an output is spent if either patch spends it. No output is spent by
  -- the two patches in different transactions.
  pub merge-IsMerged :
      (prefer : Bool) {r : PatchDb}
      → merge codec this patch prefer ≡ ok r
      → IsValid r × ((h : ℕ) → IsMerged this patch r h × ¬ Conflict this patch h)
  merge-IsMerged prefer {r} e =
      let (acc, run, same) = after_coins prefer e in
      elim coins_stage [
        | inr (thrown, _) ↦ absurd (cc (run, thrown))
        | inl (acc', run', v, inside, beside) ↦
            let eq : acc' ≡ acc = ok-inj (sym run' ∙ run) in
            let at : (h : ℕ) → IsMerged this patch acc' h × Agree this patch h = λ h.
              elim (Bool-cases (contains hashes h)) [
                | inl s ↦ inside h s
                | inr s ↦ outside acc' h s (beside h s)
              ] in
            (
              SameCoins-IsValid acc r same (subst IsValid eq v),
              λ h. (
                IsMerged-Unchanged this patch acc r h (SameCoins-Unchanged acc r h same)
                    (subst (λ p. IsMerged this patch p h) eq (at h).0),
                λ (i, a, b, p, q, differ). differ ((at h).1 i a b p q),
              ),
            )
      ]
    where
      ok-inj : {p q : PatchDb} → ok p ≡ ok q → p ≡ q
      ok-inj s = cc

  -- If two valid patches that are no fork spend one output in different transactions, the merge
  -- throws the double-spend error, whatever else the patches hold.
  pub merge-Conflict :
      (prefer : Bool) (h : ℕ)
      → check_fork this patch prefer ≡ ok tt
      → Conflict this patch h
      → merge codec this patch prefer ≡ err double_spend
  unfolding merge hashes leveled
  merge-Conflict prefer h fork (i, a, b, ea, eb, ne) = elim coins_stage [
    | inr (thrown, _) ↦ rw (fork, thrown)
    | inl (acc, run, v, inside, beside) ↦
        let known : contains hashes h ≡ true =
          ground (arith, contains-keys_unique this.coins patch.coins h, vt.tracked h i a ea) in
        absurd (ne ((inside h known).1 i a b ea eb))
  ]

-- Merging counts both sides alike: where both orders succeed, every output is spent in the same
-- transaction, and is unspent, in both results or in neither.
pub merge_comm :
    (codec : Codec) (p q : PatchDb) (prefer prefer' : Bool) {r s : PatchDb}
    → IsValid p
    → IsValid q
    → merge codec p q prefer ≡ ok r
    → merge codec q p prefer' ≡ ok s
    → (h k : ℕ)
    → (spent_by r h k ≡ spent_by s h k) × (is_some (unspent r h k) ≡ is_some (unspent s h k))
unfolding unspent
merge_comm codec p q prefer prefer' vp vq e f h k =
    let ((looks, spends), agree) = (merge-IsMerged codec p q vp vq prefer e).1 h in
    let ((looks', spends'), _) = (merge-IsMerged codec q p vq vp prefer' f).1 h in
    (
      spends k ∙ both_orders agree ∙ sym (spends' k),
      ap is_some (looks k) ∙ alike ∙ ap is_some (sym (looks' k)),
    )
  where
    alike : is_some (merged_unspent p q h k) ≡ is_some (merged_unspent q p h k)
    alike = ground arith

    both_orders : ¬ Conflict p q h → merged_spent p q h k ≡ merged_spent q p h k
    both_orders agree = elim (Option-cases (spent_by p h k)) [
      | inl a ↦ ground arith
      | inr (x, a) ↦ elim (Option-cases (spent_by q h k)) [
        | inl b ↦ ground arith
        | inr (y, b) ↦ elim (Bool-cases (x == y)) [
          | inl same ↦ ground (arith, a, b, same)
          | inr other ↦ absurd (agree (k, x, y, a, b, λ e. ground (arith, other, e)))
        ]
      ]
    ]
