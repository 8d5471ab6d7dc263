-- ===== src/Patch/Merge/Entry.antt =====
-- One hash under `merge`, whichever of the two patches has it.
use cil_core.Base.{
  ℕ, ◌≡◌, refl, ◌∙◌, ◌≢◌, ◌⊎◌, inl, inr, true, false, Option, none, some, [], ◌∷◌, arith, ◌==◌,
  if◌then◌else◌, Bool-cases, Option-cases, is_some, or_else, Distinct,
}
use cil_core.JsMap.{Map, get, set, keys, has, size, get-set}
use cil_core.Utxo
use cil_core.Utxo.{Coins, Utxo, array_intersection}
use cil_core.Utxo.View.{view}
use cil_core.Patch.{Codec, PatchDb, get_spent_outputs}
use cil_core.Patch.View.{unspent, spent_by, IsValid, spent_by-coins}
use cil_core.Patch.Spend.{install, unspent-install, install-IsValid}
use cil_core.Patch.Merge.{set_spent_all}
use cil_core.Patch.Merge.Spends.{spent_by-set_all, coins-set_all, unspent-set_all, set_all-IsValid}

-- What is unspent after a merge: where both patches have the UTXO, what is unspent in both.
abbrev pub merged_unspent : PatchDb → PatchDb → ℕ → ℕ → Option Coins
merged_unspent this patch h k =
    if has this.coins h
    then (if has patch.coins h
        then (if is_some (unspent patch h k) then unspent this h k else none)
        else unspent this h k)
    else unspent patch h k

-- What is spent after a merge: what either patch spends.
abbrev pub merged_spent : PatchDb → PatchDb → ℕ → ℕ → Option ℕ
merged_spent this patch h k = or_else (spent_by patch h k) (spent_by this h k)

abbrev pub Unchanged : PatchDb → PatchDb → ℕ → Type 0
Unchanged acc acc' j =
    (get acc'.coins j ≡ get acc.coins j) × ((k : ℕ) → spent_by acc' j k ≡ spent_by acc j k)

abbrev pub IsMerged : PatchDb → PatchDb → PatchDb → ℕ → Type 0
IsMerged this patch acc h =
    ((k : ℕ) → unspent acc h k ≡ merged_unspent this patch h k)
    × ((k : ℕ) → spent_by acc h k ≡ merged_spent this patch h k)

-- Both patches spend an output of `h`, in different transactions.
abbrev pub Conflict : PatchDb → PatchDb → ℕ → Type 0
Conflict this patch h =
    (i : ℕ) × (a : ℕ) × (b : ℕ) × (spent_by this h i ≡ some a)
    × (spent_by patch h i ≡ some b)
    × (a ≢ b)

abbrev pub Agree : PatchDb → PatchDb → ℕ → Type 0
Agree this patch h = (i a b : ℕ) → spent_by this h i ≡ some a → spent_by patch h i ≡ some b → a ≡ b

size-empty : (m : Map ℕ) → ((k : ℕ) → get m k ≡ none) → (size m == 0) ≡ true
unfolding get
size-empty [] h = refl
size-empty ((i, t) ∷ m) h = ground (arith, h i)

get-empty : (m : Map ℕ) (k : ℕ) → (size m == 0) ≡ true → get m k ≡ none
unfolding get
get-empty [] k h = refl
get-empty ((i, t) ∷ m) k h = ground arith

module _ (codec : Codec) (this patch : PatchDb) (vt : IsValid this) (vp : IsValid patch) where
  pub untracked : (p : PatchDb) (h k : ℕ) → IsValid p → get p.coins h ≡ none → spent_by p h k ≡ none
  untracked p h k v e = elim (Option-cases (spent_by p h k)) [
    | inl n ↦ n
    | inr (t, n) ↦ absurd (ground (arith, v.tracked h k t n))
  ]

  unfoldable pub chosen : ℕ → Map ℕ
  chosen h =
      let mine = get_spent_outputs this h in
      if size mine == 0 then get_spent_outputs patch h else mine

  pub chosen-Distinct : (h : ℕ) → Distinct (keys (chosen h))
  unfolding chosen
  chosen-Distinct h = elim (Bool-cases (size (get_spent_outputs this h) == 0)) [
    | inl e ↦ rw e (vp.spent_distinct h)
    | inr e ↦ rw e (vt.spent_distinct h)
  ]

  pub get-chosen :
      (h k : ℕ)
      → ((i : ℕ) → spent_by this h i ≡ none) ⊎ ((i : ℕ) → spent_by patch h i ≡ none)
      → get (chosen h) k ≡ merged_spent this patch h k
  unfolding chosen spent_by
  get-chosen h k (inl e) = rw (size-empty (get_spent_outputs this h) e, e k) (ground arith)
  get-chosen h k (inr e) = elim (Bool-cases (size (get_spent_outputs this h) == 0)) [
    | inl z ↦ rw (z, get-empty (get_spent_outputs this h) k z) (ground arith)
    | inr z ↦ rw (z, e k) refl
  ]

module _ (acc : PatchDb) (h : ℕ) (va : IsValid acc) (free : (i : ℕ) → spent_by acc h i ≡ none) where
  -- The UTXO goes in whole, and the spends of both patches with it.
  abbrev pub placed : Utxo → Map ℕ → PatchDb
  placed u m = set_spent_all (install acc h u) h m

  pub placed_lem :
      (u : Utxo) (m : Map ℕ)
      → Utxo.IsValid u
      → u.tx_hash ≡ h
      → Distinct (keys m)
      → ((k : ℕ) → is_some (get m k) ≡ true → view u k ≡ none)
      → IsValid (placed u m)
        × ((k : ℕ) → unspent (placed u m) h k ≡ view u k)
        × ((k : ℕ) → spent_by (placed u m) h k ≡ get m k)
        × ((j : ℕ) → (h == j) ≡ false → Unchanged acc (placed u m) j)
  placed_lem u m vu hash d gone =
      let q = install acc h u in
      let at : (k : ℕ) → unspent q h k ≡ view u k =
        λ k. ground (arith, unspent-install acc h u h k) in
      (
        set_all-IsValid q h m
            (install-IsValid acc h u va vu hash (λ i t s. absurd (ground (arith, free i))))
            (ground (arith, get-set acc.coins h h u)) (λ k s. ground (arith, at k, gone k s)),
        (λ k. unspent-set_all q h m h k ∙ at k),
        (λ k. ground (
          arith,
          spent_by-set_all q h m h k d,
          spent_by-coins acc (set acc.coins h u) h k,
          free k,
        )),
        λ j n. (
          ground (arith, coins-set_all q h m, get-set acc.coins h j u),
          λ k.
              ground
                (arith, spent_by-set_all q h m j k d, spent_by-coins acc (set acc.coins h u) j k),
        ),
      )
