-- ===== src/Patch/Merge/Spends.antt =====
-- The record of spent outputs under `merge`: copying a whole map of spends, and the check that finds
-- a double spend.
use cil_core.Base.{
  ℕ, ◌≡◌, refl, ◌∙◌, ◌≢◌, ◌⊎◌, inl, inr, true, none, some, List, [], ◌∷◌, arith, ◌==◌,
  if◌then◌else◌, Bool-cases, Option-cases, is_some, or_else, contains, Distinct, double_spend, ok,
  err,
}
use cil_core.JsMap.{Map, get, keys, has, contains-keys}
use cil_core.Patch.{PatchDb, set_spent_output}
use cil_core.Patch.View.{unspent, spent_by, IsValid, spent_by-set}
use cil_core.Patch.Spend.{unspent-set_spent, set_spent-IsValid}
use cil_core.Patch.Merge.{set_spent_all, check_spends}

pub spent_by-set_all :
    (acc : PatchDb) (h : ℕ) (m : Map ℕ) (j k : ℕ)
    → Distinct (keys m)
    → spent_by (set_spent_all acc h m) j k
      ≡ (if h == j then or_else (get m k) (spent_by acc j k) else spent_by acc j k)
unfolding set_spent_all get keys
spent_by-set_all acc h [] j k d = ground arith
spent_by-set_all acc h ((i, t) ∷ m) j k d = ground (
  arith,
  spent_by-set_all (set_spent_output acc h i t) h m j k d.1,
  spent_by-set acc h i t j k,
  contains-keys m i,
  d.0,
)

pub coins-set_all : (acc : PatchDb) (h : ℕ) (m : Map ℕ) → (set_spent_all acc h m).coins ≡ acc.coins
unfolding set_spent_all set_spent_output
coins-set_all acc h [] = refl
coins-set_all acc h ((i, t) ∷ m) = coins-set_all (set_spent_output acc h i t) h m

pub unspent-set_all :
    (acc : PatchDb) (h : ℕ) (m : Map ℕ) (j k : ℕ)
    → unspent (set_spent_all acc h m) j k ≡ unspent acc j k
unfolding unspent
unspent-set_all acc h m j k = rw (coins-set_all acc h m)

pub set_all-IsValid :
    (acc : PatchDb) (h : ℕ) (m : Map ℕ)
    → IsValid acc
    → has acc.coins h ≡ true
    → ((k : ℕ) → is_some (get m k) ≡ true → unspent acc h k ≡ none)
    → IsValid (set_spent_all acc h m)
unfolding set_spent_all get
set_all-IsValid acc h [] v there gone = v
set_all-IsValid acc h ((i, t) ∷ m) v there gone =
    set_all-IsValid (set_spent_output acc h i t) h m
      (set_spent-IsValid acc h i t v there (gone i (ground arith))) (there_after there)
      (λ k s. unspent-set_spent acc h i t h k ∙ gone k (ground arith))
  where
    there_after : has acc.coins h ≡ true → has (set_spent_output acc h i t).coins h ≡ true
    there_after e = rw (coins-set_all acc h ((i, t) ∷ [])) e

-- Over outputs that both maps have, the check passes where the maps agree, and otherwise throws
-- where they first differ.
pub check_spends_lem :
    (mine his : Map ℕ) (is : List ℕ)
    → ((i : ℕ) → contains is i ≡ true → (has mine i ≡ true) × (has his i ≡ true))
    → ((check_spends mine his is ≡ ok tt)
        × ((i : ℕ) → contains is i ≡ true → get mine i ≡ get his i))
      ⊎ ((check_spends mine his is ≡ err double_spend)
          × ((i : ℕ) × (a : ℕ) × (b : ℕ) × (get mine i ≡ some a) × (get his i ≡ some b) × (a ≢ b)))
unfolding check_spends
check_spends_lem mine his [] both = inl (refl, λ i h. cc)
check_spends_lem mine his (i ∷ is) both =
    let (a, ea) = has-some mine i (both i (ground arith)).0 in
    let (b, eb) = has-some his i (both i (ground arith)).1 in
    let rest = check_spends_lem mine his is (λ k h. both k (ground arith)) in
    elim (Bool-cases (a == b)) [
      | inr e ↦ inr (ground arith, (i, a, b, ea, eb, λ p. ground arith))
      | inl e ↦ elim rest [
        | inl (run, agree) ↦ inl (ground arith, λ k h. ground (arith, agree k))
        | inr (run, clash) ↦ inr (ground arith, clash)
      ]
    ]
  where
    has-some : (m : Map ℕ) (k : ℕ) → has m k ≡ true → (v : ℕ) × (get m k ≡ some v)
    has-some m k h = elim (Option-cases (get m k)) [ inl e ↦ absurd (ground arith) | inr p ↦ p ]
