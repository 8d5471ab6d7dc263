-- ===== src/Patch/Merge/Both.antt =====
-- `merge` at a UTXO that both patches have.
use cil_core.Base.{
  ℕ, ◌≡◌, ◌∙◌, ◌⊎◌, inl, inr, Bool, true, false, ◌&&◌, none, some, List, [], ◌∷◌, arith, ◌==◌,
  Option-cases, is_some, filter, contains, contains-filter, Distinct, double_spend, ok, err,
}
use cil_core.JsMap.{Map, get, set, keys, has, get-set, contains-keys}
use cil_core.Utxo
use cil_core.Utxo.{Coins, Utxo, array_intersection}
use cil_core.Utxo.View.{view, contains-indexes}
use cil_core.Utxo.Laws.{clone_lem, create-IsValid, tx_hash-create, view-create}
use cil_core.Patch.{Codec, PatchDb, get_spent_outputs, set_utxo}
use cil_core.Patch.View.{unspent, spent_by, IsValid, spent_by-coins}
use cil_core.Patch.Spend.{install, unspent-install, install-IsValid}
use cil_core.Patch.Merge.{set_spent_all, create_all, merge_both}
use cil_core.Patch.Merge.Spends.{
  spent_by-set_all, coins-set_all, unspent-set_all, set_all-IsValid, check_spends_lem,
}
use cil_core.Patch.Merge.Unspent.{create_all_lem}
use cil_core.Patch.Merge.Entry.{merged_unspent, Unchanged, Conflict, Agree}
use cil_core.Patch.Merge.Coin.{Joins}

pub filter-Distinct : (p : ℕ → Bool) (xs : List ℕ) → Distinct xs → Distinct (filter p xs)
filter-Distinct p [] d = tt
filter-Distinct p (x ∷ xs) d = ground (arith, filter-Distinct p xs d.1, contains-filter p xs x)

set_utxo-create :
    (codec : Codec) (acc : PatchDb) (h : ℕ)
    → set_utxo codec acc (Utxo.create h) ≡ install acc h (Utxo.create h)
unfolding set_utxo
set_utxo-create codec acc h = rw (clone_lem codec.utxo (Utxo.create h), tx_hash-create h)

contains-intersection :
    (mine his : Utxo) (k : ℕ)
    → Utxo.IsValid mine
    → Utxo.IsValid his
    → contains (array_intersection mine.indexes his.indexes) k
      ≡ is_some (view mine k) && is_some (view his k)
unfolding array_intersection
contains-intersection mine his k vm vh = ground (
  arith,
  contains-filter (contains mine.indexes) his.indexes k,
  contains-indexes mine k vm.in_step,
  contains-indexes his k vh.in_step,
)

contains-common :
    (a b : Map ℕ) (k : ℕ) → contains (array_intersection (keys a) (keys b)) k ≡ has a k && has b k
unfolding array_intersection
contains-common a b k =
    ground
      (arith, contains-filter (contains (keys a)) (keys b) k, contains-keys a k, contains-keys b k)

module _ (codec : Codec) (this patch : PatchDb) (vt : IsValid this) (vp : IsValid patch) where
  module _ (h : ℕ) (mine his : Utxo) (em : get this.coins h ≡ some mine)
      (eh : get patch.coins h ≡ some his) where
    -- The coins that the result has before the spends are copied.
    created :
        (acc : PatchDb)
        → IsValid acc
        → ((i : ℕ) → spent_by acc h i ≡ none)
        → (acc' : PatchDb) × (create_all
              (set_utxo codec acc (Utxo.create h))
              h
              mine
              (array_intersection mine.indexes his.indexes)
            ≡ ok acc')
          × IsValid acc'
          × (has acc'.coins h ≡ true)
          × ((k : ℕ) → unspent acc' h k ≡ merged_unspent this patch h k)
          × ((k : ℕ) → spent_by acc' h k ≡ none)
          × ((j : ℕ) → (h == j) ≡ false → Unchanged acc acc' j)
    unfolding unspent array_intersection
    created acc va free =
        let start = install acc h (Utxo.create h) in
        let (vm, _) = vt.utxo_valid h mine em in
        let (vh, _) = vp.utxo_valid h his eh in
        let blank : (k : ℕ) → unspent start h k ≡ none =
          λ k. ground (arith, unspent-install acc h (Utxo.create h) h k, view-create h k) in
        let kept : (j k : ℕ) → spent_by start j k ≡ spent_by acc j k =
          λ j k. spent_by-coins acc (set acc.coins h (Utxo.create h)) j k in
        let (acc', run, v', (there, others), look, same) =
          create_all_lem start h mine (array_intersection mine.indexes his.indexes)
            (install-IsValid acc h (Utxo.create h) va (create-IsValid h) (tx_hash-create h)
              (λ i t s. view-create h i))
            vm (filter-Distinct _ his.indexes vh.distinct)
            (ground (arith, get-set acc.coins h h (Utxo.create h))) (λ i. kept h i ∙ free i)
            (λ i s. (blank i, ground (arith, contains-intersection mine his i vm vh))) in
        (
          acc',
          rw (set_utxo-create codec acc h) run,
          v',
          there,
          (λ k. ground (arith, look k, blank k, contains-intersection mine his k vm vh)),
          (λ k. same h k ∙ kept h k ∙ free k),
          λ j n. (
            others j n ∙ ground (arith, get-set acc.coins h j (Utxo.create h)),
            λ k. same j k ∙ kept j k,
          ),
        )

    common_has :
        (i : ℕ)
        → contains
            (array_intersection
              (keys (get_spent_outputs this h))
              (keys (get_spent_outputs patch h)))
            i
          ≡ true
        → (has (get_spent_outputs this h) i ≡ true) × (has (get_spent_outputs patch h) i ≡ true)
    common_has i s =
        ground (arith, contains-common (get_spent_outputs this h) (get_spent_outputs patch h) i)

    -- Once the spends are copied the UTXO is merged.
    copied :
        (acc acc' : PatchDb)
        → IsValid acc'
        → has acc'.coins h ≡ true
        → ((k : ℕ) → unspent acc' h k ≡ merged_unspent this patch h k)
        → ((k : ℕ) → spent_by acc' h k ≡ none)
        → ((j : ℕ) → (h == j) ≡ false → Unchanged acc acc' j)
        → Agree this patch h
        → Joins this patch acc h (
            set_spent_all
              (set_spent_all acc' h (get_spent_outputs this h))
              h
              (get_spent_outputs patch h))
    unfolding unspent spent_by
    copied acc acc' v there look free others agree =
        let my = get_spent_outputs this h in
        let hi = get_spent_outputs patch h in
        let dm = vt.spent_distinct h in
        let dh = vp.spent_distinct h in
        let mid = set_spent_all acc' h my in
        let vmid : IsValid mid = set_all-IsValid acc' h my v there (λ k s.
          elim (Option-cases (get my k)) [
            | inl e ↦ absurd (ground arith)
            | inr (t, e) ↦ ground (arith, look k, vt.disjoint h k t e)
          ]) in
        (
          set_all-IsValid mid h hi vmid (rw (coins-set_all acc' h my) there) (λ k s.
              elim (Option-cases (get hi k)) [
                | inl e ↦ absurd (ground arith)
                | inr (t, e) ↦
                    ground (arith, unspent-set_all acc' h my h k, look k, vp.disjoint h k t e)
              ]),
          (
            (λ k. unspent-set_all mid h hi h k ∙ unspent-set_all acc' h my h k ∙ look k),
            λ k. ground (
              arith,
              spent_by-set_all mid h hi h k dh,
              spent_by-set_all acc' h my h k dm,
              free k,
            ),
          ),
          (λ j n. (
            ground (arith, coins-set_all mid h hi, coins-set_all acc' h my, others j n),
            λ k. ground (
              arith,
              spent_by-set_all mid h hi j k dh,
              spent_by-set_all acc' h my j k dm,
              (others j n).1 k,
            ),
          )),
          agree,
        )

    pub merge_both_lem :
        (acc : PatchDb)
        → IsValid acc
        → ((i : ℕ) → spent_by acc h i ≡ none)
        → ((acc' : PatchDb) × (merge_both codec this patch acc h mine his ≡ ok acc')
            × Joins this patch acc h acc')
          ⊎ ((merge_both codec this patch acc h mine his ≡ err double_spend)
              × Conflict this patch h)
    unfolding merge_both spent_by
    merge_both_lem acc va free =
        let my = get_spent_outputs this h in
        let hi = get_spent_outputs patch h in
        let (acc', run, v, there, look, blank, others) = created acc va free in
        elim (check_spends_lem my hi (array_intersection (keys my) (keys hi)) common_has) [
          | inr (thrown, (i, a, b, ea, eb, ne)) ↦ inr (rw (run, thrown), (i, a, b, ea, eb, ne))
          | inl (passed, same) ↦ inl (
            set_spent_all (set_spent_all acc' h my) h hi,
            rw (run, passed),
            copied acc acc' v there look blank others
                (λ i a b ea eb. ground (arith, contains-common my hi i, same i)),
          )
        ]
