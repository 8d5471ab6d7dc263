-- ===== src/Patch/Stable.antt =====
-- `validateAgainstStable` of storage/patch.js: which patches can be applied to the stable state.
use cil_core.Base.{
  ℕ, ◌≡◌, refl, sym, ap, ◌∙◌, subst, ◌⊎◌, inl, inr, true, none, some, List, [], ◌∷◌, arith, ◌==◌,
  eq_of_test, Bool-cases, Option-cases, length, contains, already_spent, ok, err,
}
use cil_core.JsMap.{get, keys, contains-keys}
use cil_core.Utxo.{Utxo}
use cil_core.Utxo.View.{view, coins_at_index_lem}
use cil_core.Patch.{
  PatchDb, get_utxo, get_spent_outputs, check_unspent, validate_hashes, validate_against_stable,
}
use cil_core.Patch.View.{spent_by, IsValid}

-- One of the outputs is not there.
abbrev Missing : Utxo → List ℕ → Type 0
Missing u is = (i : ℕ) × (contains is i ≡ true) × (view u i ≡ none)

check_unspent_lem :
    (u : Utxo) (is : List ℕ)
    → length u.indexes ≡ length u.outputs
    → ((check_unspent u is ≡ ok tt) × ¬ Missing u is)
      ⊎ ((check_unspent u is ≡ err already_spent) × Missing u is)
unfolding check_unspent
check_unspent_lem u [] l = inl (refl, λ (i, c, e). cc)
check_unspent_lem u (i ∷ is) l = elim (Option-cases (view u i)) [
  | inl gone ↦ inr (ground (arith, coins_at_index_lem u i l, gone), (i, ground arith, gone))
  | inr (c, here) ↦ elim (check_unspent_lem u is l) [
    | inl (run, none_missing) ↦ inl (
      ground (arith, coins_at_index_lem u i l, here, run),
      λ (j, c', e). elim (Bool-cases (i == j)) [
        | inl same ↦ ground (arith, same, here, e, ap (view u) (eq_of_test i j same))
        | inr other ↦ none_missing (j, ground (arith, c', other), e)
      ],
    )
    | inr (run, (j, c', e)) ↦
        inr (ground (arith, coins_at_index_lem u i l, here, run), (j, ground (arith, c'), e))
  ]
]

module _ (p stable : PatchDb) (vs : IsValid stable) where
  -- For one of the hashes, the patch spends an output that the stable state's UTXO does not have.
  abbrev Stale : List ℕ → Type 0
  Stale hs =
      (h : ℕ) × (u : Utxo) × (contains hs h ≡ true)
      × (get_utxo stable h ≡ some u)
      × Missing u (keys (get_spent_outputs p h))

  validate_hashes_lem :
      (hs : List ℕ)
      → ((validate_hashes p stable hs ≡ ok tt) × ¬ Stale hs)
        ⊎ ((validate_hashes p stable hs ≡ err already_spent) × Stale hs)
  unfolding validate_hashes
  validate_hashes_lem [] = inl (refl, λ (h, u, c, at, gone). cc)
  validate_hashes_lem (h ∷ hs) = elim (Option-cases (get_utxo stable h)) [
    | inl unknown ↦ elim (validate_hashes_lem hs) [
      | inl (run, fresh) ↦ inl (
        ground (arith, unknown, run),
        λ (k, u, c, at, gone). elim (Bool-cases (h == k)) [
          | inl same ↦
              let one : get_utxo stable h ≡ get_utxo stable k =
                ap (get_utxo stable) (eq_of_test h k same) in
              absurd (cc (unknown, one, at))
          | inr other ↦ fresh (k, u, ground (arith, c, other), at, gone)
        ],
      )
      | inr (run, (k, u, c, at, gone)) ↦
          inr (ground (arith, unknown, run), (k, u, ground (arith, c), at, gone))
    ]
    | inr (u, known) ↦
        let step = vs.utxo_valid h u known in
        elim (check_unspent_lem u (keys (get_spent_outputs p h)) step.0.in_step) [
          | inr (run, missing) ↦
              inr (ground (arith, known, run), (h, u, ground arith, known, missing))
          | inl (run, none_missing) ↦ elim (validate_hashes_lem hs) [
            | inr (run', (k, w, c, at, gone)) ↦
                inr (ground (arith, known, run, run'), (k, w, ground (arith, c), at, gone))
            | inl (run', fresh) ↦ inl (
              ground (arith, known, run, run'),
              λ (k, w, c, at, gone). elim (Bool-cases (h == k)) [
                | inl same ↦
                    let e : h ≡ k = eq_of_test h k same in
                    let one : u ≡ w =
                      (let o : get_utxo stable h ≡ get_utxo stable k = ap (get_utxo stable) e in
                        cc (o, known, at)) in
                    none_missing (
                      subst (λ z. Missing z (keys (get_spent_outputs p h))) (sym one)
                        (subst (λ j. Missing w (keys (get_spent_outputs p j))) (sym e) gone))
                | inr other ↦ fresh (k, w, ground (arith, c, other), at, gone)
              ],
            )
          ]
        ]
  ]

-- The patch spends an output that the stable state's UTXO does not have.
abbrev pub Overspends : PatchDb → PatchDb → Type 0
Overspends p stable =
    (h : ℕ) × (u : Utxo) × (i : ℕ) × (t : ℕ) × (get_utxo stable h ≡ some u)
    × (spent_by p h i ≡ some t)
    × (view u i ≡ none)

Overspends-Stale :
    (p stable : PatchDb) (vs : IsValid stable)
    → IsValid p
    → Overspends p stable
    → Stale p stable vs (keys p.coins)
unfolding spent_by
Overspends-Stale p stable vs vp (h, u, i, t, at, spent, gone) = (
  h,
  u,
  contains-keys p.coins h ∙ vp.tracked h i t spent,
  at,
  (i, ground (arith, contains-keys (get_spent_outputs p h) i, spent), gone),
)

Stale-Overspends :
    (p stable : PatchDb) (vs : IsValid stable)
    → Stale p stable vs (keys p.coins)
    → Overspends p stable
unfolding spent_by
Stale-Overspends p stable vs (h, u, c, at, (i, k, gone)) =
    elim (Option-cases (get (get_spent_outputs p h) i)) [
      | inl e ↦ absurd (ground (arith, contains-keys (get_spent_outputs p h) i, k, e))
      | inr (t, e) ↦ (h, u, i, t, at, e, gone)
    ]

-- For every valid patch and valid stable state: `validateAgainstStable` throws exactly where the patch spends an
-- output that the stable state's version of its UTXO does not have.
pub validate_against_stable_lem :
    (p stable : PatchDb)
    → IsValid p
    → IsValid stable
    → ((validate_against_stable p stable ≡ ok tt) × ¬ Overspends p stable)
      ⊎ ((validate_against_stable p stable ≡ err already_spent) × Overspends p stable)
unfolding validate_against_stable
validate_against_stable_lem p stable vp vs = elim (validate_hashes_lem p stable vs (keys p.coins)) [
  | inl (run, fresh) ↦ inl (run, λ o. fresh (Overspends-Stale p stable vs vp o))
  | inr (run, stale) ↦ inr (run, Stale-Overspends p stable vs stale)
]
