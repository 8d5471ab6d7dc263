-- ===== src/Patch/Merge/Unspent.antt =====
-- One UTXO under `merge`: what is unspent and what is spent where one patch has it, and where both
-- do.
use cil_core.Base.{
  ℕ, ◌≡◌, refl, ◌∙◌, subst, inl, inr, true, false, none, some, List, [], ◌∷◌, arith, ◌==◌,
  if◌then◌else◌, Option-cases, is_some, contains, Distinct, ok, ◌>>=◌, >>=-eq-ok,
}
use cil_core.JsMap.{get, set, has, get_or, get-set}
use cil_core.Utxo
use cil_core.Utxo.{Coins, Utxo, array_intersection}
use cil_core.Utxo.View.{view, coins_at_index_lem}
use cil_core.Patch.{PatchDb, create_coins}
use cil_core.Patch.View.{unspent, spent_by, IsValid}
use cil_core.Patch.Spend.{install, create_coins_lem}
use cil_core.Patch.Merge.{create_all}

-- Only the UTXO `h` may differ, and it is there.
abbrev pub Grows : ℕ → PatchDb → PatchDb → Type 0
Grows h acc acc' =
    (has acc'.coins h ≡ true) × ((j : ℕ) → (h == j) ≡ false → get acc'.coins j ≡ get acc.coins j)

pub install-Grows : (acc : PatchDb) (h : ℕ) (u : Utxo) → Grows h acc (install acc h u)
install-Grows acc h u =
    (ground (arith, get-set acc.coins h h u), λ j n. ground (arith, get-set acc.coins h j u))

create_coins-Grows :
    (p : PatchDb) (h i : ℕ) (c : Coins) {p' : PatchDb} → create_coins p h i c ≡ ok p' → Grows h p p'
create_coins-Grows p h i c {p'} e =
    let (u, _, same) = >>=-eq-ok (Utxo.add_coins (get_or p.coins h (Utxo.create h)) i c) _ ran in
    subst (Grows h p) (ok-inj same) (install-Grows p h u)
  where
    ok-inj : {q r : PatchDb} → ok q ≡ ok r → q ≡ r
    ok-inj s = cc

    ran :
        (Utxo.add_coins (get_or p.coins h (Utxo.create h)) i c >>= λ u.
        ok (record p { coins = set p.coins h u }))
        ≡ ok p'
    ran = unfold create_coins in e

pub create_all_lem :
    (acc : PatchDb) (h : ℕ) (mine : Utxo) (is : List ℕ)
    → IsValid acc
    → Utxo.IsValid mine
    → Distinct is
    → has acc.coins h ≡ true
    → ((i : ℕ) → spent_by acc h i ≡ none)
    → ((i : ℕ) → contains is i ≡ true → (unspent acc h i ≡ none) × (is_some (view mine i) ≡ true))
    → (acc' : PatchDb) × (create_all acc h mine is ≡ ok acc')
      × IsValid acc'
      × Grows h acc acc'
      × ((k : ℕ) → unspent acc' h k ≡ (if contains is k then view mine k else unspent acc h k))
      × ((j k : ℕ) → spent_by acc' j k ≡ spent_by acc j k)
unfolding create_all
create_all_lem acc h mine [] v vm d there free fresh =
    (acc, refl, v, (there, λ j _. refl), (λ k. refl), λ j k. refl)
create_all_lem acc h mine (i ∷ is) v vm d there free fresh =
    let (c, held) = coins_there (fresh i (ground arith)).1 in
    elim (create_coins_lem acc h i c v (free i)) [
      | inl (b, taken, _) ↦ absurd (ground (arith, fresh i (ground arith)))
      | inr (mid, _, run, vmid, look, kept) ↦
          let (there', others) = create_coins-Grows acc h i c run in
          let (acc', runs, v', (grown, rest), seen, kept') =
            create_all_lem mid h mine is vmid vm d.1 there' (λ k. kept h k ∙ free k)
              (λ k s. ground (arith, look h k, fresh k (ground arith), d.0)) in
          (
            acc',
            rw (coins_at_index_lem mine i vm.in_step, held, run) runs,
            v',
            (grown, λ j n. rest j n ∙ others j n),
            (λ k. ground (arith, seen k, look h k, d.0)),
            λ j k. kept' j k ∙ kept j k,
          )
    ]
  where
    coins_there : is_some (view mine i) ≡ true → (c : Coins) × (view mine i ≡ some c)
    coins_there s = elim (Option-cases (view mine i)) [ inl e ↦ absurd (ground arith) | inr p ↦ p ]
