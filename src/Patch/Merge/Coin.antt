-- ===== src/Patch/Merge/Coin.antt =====
-- One round of the loop over coin hashes in `merge`: it joins the two patches' views of the UTXO, or
-- throws on a double spend.
use cil_core.Base.{
  ℕ, ◌≡◌, sym, ap, ◌∙◌, ◌⊎◌, inl, inr, true, false, none, some, arith, ◌==◌, Option-cases, is_some,
}
use cil_core.JsMap.{get}
use cil_core.Utxo
use cil_core.Utxo.{Coins, Utxo, array_intersection}
use cil_core.Utxo.View.{view}
use cil_core.Utxo.Laws.{clone_lem}
use cil_core.Patch.{Codec, PatchDb}
use cil_core.Patch.View.{unspent, spent_by, IsValid}
use cil_core.Patch.Spend.{install}
use cil_core.Patch.Merge.{set_spent_all, keep_one}
use cil_core.Patch.Merge.Entry.{
  merged_unspent, merged_spent, Unchanged, IsMerged, Agree, untracked, chosen, chosen-Distinct,
  get-chosen, placed_lem,
}

abbrev pub Joins : PatchDb → PatchDb → PatchDb → ℕ → PatchDb → Type 0
Joins this patch acc h acc' =
    IsValid acc'
    × IsMerged this patch acc' h
    × ((j : ℕ) → (h == j) ≡ false → Unchanged acc acc' j)
    × Agree this patch h

abbrev Only : PatchDb → PatchDb → ℕ → Utxo → Type 0
Only p q h u = (get p.coins h ≡ some u) × (get q.coins h ≡ none)

module _ (codec : Codec) (this patch : PatchDb) (vt : IsValid this) (vp : IsValid patch) where
  one_silent :
      (h : ℕ) (u : Utxo)
      → Only this patch h u ⊎ Only patch this h u
      → ((i : ℕ) → spent_by this h i ≡ none) ⊎ ((i : ℕ) → spent_by patch h i ≡ none)
  one_silent h u (inl (_, e)) = inr (λ i. untracked codec this patch vt vp patch h i vp e)
  one_silent h u (inr (_, e)) = inl (λ i. untracked codec this patch vt vp this h i vt e)

  Only-IsValid :
      (h : ℕ) (u : Utxo)
      → Only this patch h u ⊎ Only patch this h u
      → Utxo.IsValid u × (u.tx_hash ≡ h) × ((k : ℕ) → view u k ≡ merged_unspent this patch h k)
  unfolding unspent
  Only-IsValid h u (inl (e, n)) =
      let (v, hash) = vt.utxo_valid h u e in (v, hash, λ k. ground arith)
  Only-IsValid h u (inr (e, n)) =
      let (v, hash) = vp.utxo_valid h u e in (v, hash, λ k. ground arith)

  Only-disjoint :
      (h : ℕ) (u : Utxo) (k : ℕ)
      → Only this patch h u ⊎ Only patch this h u
      → is_some (merged_spent this patch h k) ≡ true
      → view u k ≡ none
  unfolding unspent
  Only-disjoint h u k (inl (e, n)) s =
      let silent = untracked codec this patch vt vp patch h k vp n in
      elim (Option-cases (spent_by this h k)) [
        | inl z ↦ absurd (ground arith)
        | inr (t, z) ↦ ground (arith, vt.disjoint h k t z)
      ]
  Only-disjoint h u k (inr (e, n)) s =
      let silent = untracked codec this patch vt vp this h k vt n in
      elim (Option-cases (spent_by patch h k)) [
        | inl z ↦ absurd (ground arith)
        | inr (t, z) ↦ ground (arith, vp.disjoint h k t z)
      ]

  keep_one-placed :
      (acc : PatchDb) (h : ℕ) (u : Utxo)
      → keep_one codec this patch acc h u
        ≡ set_spent_all (install acc h u) h (chosen codec this patch vt vp h)
  unfolding keep_one chosen
  keep_one-placed acc h u = rw (clone_lem codec.utxo u)

  pub keep_one-Joins :
      (acc : PatchDb) (h : ℕ) (u : Utxo)
      → IsValid acc
      → ((i : ℕ) → spent_by acc h i ≡ none)
      → Only this patch h u ⊎ Only patch this h u
      → Joins this patch acc h (keep_one codec this patch acc h u)
  keep_one-Joins acc h u va free only =
      let silent = one_silent h u only in
      let (vu, hash, seen) = Only-IsValid h u only in
      let m = chosen codec this patch vt vp h in
      let got : (k : ℕ) → get m k ≡ merged_spent this patch h k =
        λ k. get-chosen codec this patch vt vp h k silent in
      let (v, looks, spends, others) =
        placed_lem acc h va free u m vu hash (chosen-Distinct codec this patch vt vp h)
          (λ k s. Only-disjoint h u k only (ap is_some (sym (got k)) ∙ s)) in
      rw (keep_one-placed acc h u)
        (v, ((λ k. looks k ∙ seen k), λ k. spends k ∙ got k), others, agree silent)
    where
      agree :
          ((i : ℕ) → spent_by this h i ≡ none) ⊎ ((i : ℕ) → spent_by patch h i ≡ none)
          → Agree this patch h
      agree (inl e) i a b p q = ground (arith, e i)
      agree (inr e) i a b p q = ground (arith, e i)
