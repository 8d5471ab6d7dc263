-- ===== src/Utxo/Equality.antt =====
-- `equals` compares two UTXOs as maps: the order of the arrays does not count.
use cil_core.Base.{
  ℕ, ◌≡◌, refl, sym, ◌↔◌, inl, inr, Bool, true, false, none, some, List, [], ◌∷◌, arith, Bool-cases,
  contains, Distinct, ok,
}
use cil_core.Base.Subset.{Subset, Subset_of_length, filter_full, filter_all, length-Subset-le}
use cil_core.Utxo.{
  Coins, Utxo, IsValid, coins_equal, every_equal, array_intersection, array_equals, equals,
}
use cil_core.Utxo.View.{view, coins_at_index_lem, view_of_present, view_of_absent}

abbrev pub SameView : Utxo → Utxo → Type 0
SameView u v = (j : ℕ) → view u j ≡ view v j

coins_equal-eq : (c d : Coins) → coins_equal c d ≡ true → c ≡ d
unfolding coins_equal
coins_equal-eq c d h = ground arith

coins_equal_refl : (c : Coins) → coins_equal c c ≡ true
unfolding coins_equal
coins_equal_refl c = ground arith

array_equals_sound :
    (xs ys : List ℕ) → Distinct ys → array_equals xs ys ≡ true → Subset xs ys × Subset ys xs
unfolding array_equals array_intersection
array_equals_sound xs ys d h =
    let inside : Subset ys xs = λ a k. filter_full (contains xs) ys a (ground arith) k in
    (Subset_of_length ys xs d inside (ground arith), inside)

array_equals_complete :
    (xs ys : List ℕ)
    → Distinct xs
    → Distinct ys
    → Subset xs ys
    → Subset ys xs
    → array_equals xs ys ≡ true
unfolding array_equals array_intersection
array_equals_complete xs ys dx dy s t =
    ground (
      arith,
      length-Subset-le xs ys dx s,
      length-Subset-le ys xs dy t,
      filter_all (contains xs) ys t,
    )

view_present :
    (u : Utxo) (a : ℕ) → IsValid u → contains u.indexes a ≡ true → (c : Coins) × (view u a ≡ some c)
unfolding view
view_present u a v h = view_of_present u.indexes u.outputs a v.in_step h

view_absent : (u : Utxo) (a : ℕ) → contains u.indexes a ≡ false → view u a ≡ none
unfolding view
view_absent u a h = view_of_absent u.indexes u.outputs a h

some-inj : {c d : Coins} → some c ≡ some d → c ≡ d
some-inj h = cc

inside : (u v : Utxo) → IsValid u → SameView u v → Subset u.indexes v.indexes
inside u v hu h a k = elim (Bool-cases (contains v.indexes a)) [
  | inl e ↦ e
  | inr e ↦ let (c, p) = view_present u a hu k in ground (arith, h a, view_absent v a e)
]

module _ (u v : Utxo) (hu : IsValid u) (hv : IsValid v) where
  every_equal_lem :
      (is : List ℕ)
      → Subset is u.indexes
      → Subset is v.indexes
      → (b : Bool) × (every_equal u v is ≡ ok b)
        × ((b ≡ true) ↔ ((j : ℕ) → contains is j ≡ true → view u j ≡ view v j))
  unfolding every_equal
  every_equal_lem [] su sv = (true, refl, (λ _ j k. cc, λ _. refl))
  every_equal_lem (i ∷ is) su sv =
      let (c, ec) = view_present u i hu (su i (ground arith)) in
      let (d, ed) = view_present v i hv (sv i (ground arith)) in
      let (b, run, iff) =
        every_equal_lem is (λ a k. su a (ground arith)) (λ a k. sv a (ground arith)) in
      elim (Bool-cases (coins_equal c d)) [
        | inl same ↦ (
          b,
          rw (coins_at_index_lem u i hu.in_step, ec, coins_at_index_lem v i hv.in_step, ed, same)
              run,
          (
            λ t j k. ground (arith, iff.0 t j, coins_equal-eq c d same),
            λ h. iff.1 (λ j k. h j (ground arith)),
          ),
        )
        | inr other ↦ (
          false,
          rw (coins_at_index_lem u i hu.in_step, ec, coins_at_index_lem v i hv.in_step, ed, other),
          (λ t. absurd (cc), λ h. absurd (ground (arith, h i (ground arith), coins_equal_refl c))),
        )
      ]

  -- On valid UTXOs `equals` never throws, and answers `true` exactly when both have the same coins
  -- at every output number.
  pub equals-SameView : (b : Bool) × (equals u v ≡ ok b) × ((b ≡ true) ↔ SameView u v)
  unfolding equals
  equals-SameView = elim (Bool-cases (array_equals u.indexes v.indexes)) [
    | inl e ↦
        let (su, sv) = array_equals_sound u.indexes v.indexes hv.distinct e in
        let (b, run, iff) = every_equal_lem u.indexes (λ a k. k) su in
        (
          b,
          rw e run,
          (
            λ t j. elim (Bool-cases (contains u.indexes j)) [
              | inl k ↦ iff.0 t j k
              | inr k ↦ ground (arith, view_absent u j k, sv j, view_absent v j)
            ],
            λ h. iff.1 (λ j _. h j),
          ),
        )
    | inr e ↦
        let full : SameView u v → array_equals u.indexes v.indexes ≡ true = λ h.
          array_equals_complete u.indexes v.indexes hu.distinct hv.distinct (inside u v hu h)
            (inside v u hv (λ j. sym (h j))) in
        (false, rw e, (λ t. absurd (cc), λ h. absurd (cc (full h, e))))
  ]
