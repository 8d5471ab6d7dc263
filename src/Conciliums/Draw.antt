-- ===== src/Conciliums/Draw.antt =====
-- The draw by stake of conciliums/conciliumPoS.js finds the first member whose stretch of the total holds
-- the number drawn, with bounds that are rounded as doubles are, and throws where there is none.
use cil_core.Base.{
  ℕ, zero, suc, ◌+◌, ◌%◌, ◌≤◌, ◌<◌, ◌≡◌, refl, sym, ap, ◌∙◌, subst, ◌⊎◌, inl, inr, false, ◌&&◌,
  some, List, [], ◌∷◌, arith, ltb, leb, ◌==◌, Bool-cases, length, get_elem?, length-map,
  not_supposed, ok, err,
}
use cil_core.Conciliums.Doubles
use cil_core.Conciliums.Pos.{
  Member, shares, total_shares, find_idx_from, find_idx_by_round, get_slot, form_sequence,
}

-- Where the stretch of place `k` starts: the rounded sum of the shares before it.
unfoldable pub start_of : ℕ → List ℕ → ℕ → ℕ
start_of start [] k = start
start_of start (s ∷ ss) zero = start
start_of start (s ∷ ss) (suc k) = start_of (Doubles.add start s) ss k

-- The stretch of place `k` holds the number.
abbrev pub Holds : ℕ → List ℕ → ℕ → ℕ → Type 0
Holds start ss r k =
    (s : ℕ) × (get_elem? ss k ≡ some s)
    × (start_of start ss k ≤ r)
    × (r < Doubles.add s (start_of start ss k))

missed :
    (s : ℕ) (ss : List ℕ) (start r : ℕ)
    → (leb start r && ltb r (Doubles.add s start)) ≡ false
    → ¬ Holds start (s ∷ ss) r zero
unfolding start_of
missed s ss start r e (s', at, low, high) =
    let same : s ≡ s' = cc in
    let high' : r < Doubles.add s start = subst (λ x. r < Doubles.add x start) (sym same) high in
    ground (arith, e, low, high')

later :
    (s : ℕ) (ss : List ℕ) (start r k : ℕ)
    → ¬ Holds start (s ∷ ss) r zero
    → ((j : ℕ) → (k ≤ j) ⊎ ¬ Holds (Doubles.add start s) ss r j)
    → (j : ℕ) → (suc k ≤ j) ⊎ ¬ Holds start (s ∷ ss) r j
unfolding start_of
later s ss start r k here rest zero = inr here
later s ss start r k here rest (suc j) = elim (rest j) [
  | inl below ↦ inl (omega arith)
  | inr other ↦ inr other
]

never :
    (s : ℕ) (ss : List ℕ) (start r : ℕ)
    → ¬ Holds start (s ∷ ss) r zero
    → ((j : ℕ) → ¬ Holds (Doubles.add start s) ss r j)
    → (j : ℕ) → ¬ Holds start (s ∷ ss) r j
unfolding start_of
never s ss start r here rest zero = here
never s ss start r here rest (suc j) = rest j

nowhere : (start r j : ℕ) → ¬ Holds start [] r j
nowhere start r j (s, at, low, high) = cc

find_idx_from_lem :
    (ss : List ℕ) (i start r : ℕ)
    → ((k : ℕ) × (find_idx_from ss i start r ≡ ok (i + k))
        × Holds start ss r k
        × ((j : ℕ) → (k ≤ j) ⊎ ¬ Holds start ss r j))
      ⊎ ((find_idx_from ss i start r ≡ err not_supposed) × ((j : ℕ) → ¬ Holds start ss r j))
unfolding find_idx_from start_of
find_idx_from_lem [] i start r = inr (refl, nowhere start r)
find_idx_from_lem (s ∷ ss) i start r =
    elim (Bool-cases (leb start r && ltb r (Doubles.add s start))) [
      | inl e ↦ inl (0, ground arith, (s, refl, ground arith, ground arith), λ j. inl (omega arith))
      | inr e ↦ elim (find_idx_from_lem ss (i + 1) (Doubles.add start s) r) [
        | inl (k, run, held, first) ↦
            inl
              (suc k, ground (arith, run), held, later s ss start r k (missed s ss start r e) first)
        | inr (run, none_holds) ↦
            inr (ground (arith, run), never s ss start r (missed s ss start r e) none_holds)
      ]
    ]

-- Where the total of the shares, as a double, is not 0, the search for the proposer of a round either finds a member, the first whose stretch of the total holds the round's number, with both bounds and the total rounded as doubles are; or it throws, and then, though the number is below the total, no stretch holds it.
pub find_idx_by_round-Holds :
    (ms : List Member) (round : ℕ)
    → (total_shares ms == 0) ≡ false
    → let r = Doubles.of_integer round % total_shares ms in
      (r < total_shares ms)
      × (((k : ℕ) × (find_idx_by_round ms round ≡ ok k)
            × Holds 0 (shares ms) r k
            × ((j : ℕ) → (k ≤ j) ⊎ ¬ Holds 0 (shares ms) r j))
          ⊎ ((find_idx_by_round ms round ≡ err not_supposed)
              × ((j : ℕ) → ¬ Holds 0 (shares ms) r j)))
unfolding find_idx_by_round
find_idx_by_round-Holds ms round some_total = (
  in_range (Doubles.of_integer round),
  elim (find_idx_from_lem (shares ms) 0 0 (Doubles.of_integer round % total_shares ms)) [
    | inl (k, run, held, first) ↦ inl (k, rw some_total (run ∙ ap ok (omega arith)), held, first)
    | inr (run, none_holds) ↦ inr (rw some_total run, none_holds)
  ],
)
  where
    in_range : (n : ℕ) → n % total_shares ms < total_shares ms
    in_range n = let p : 0 < total_shares ms = ground (arith, some_total) in grind arith

pub length-get_elem? :
    {A : Type 0} (xs : List A) (k : ℕ) (a : A) → get_elem? xs k ≡ some a → k < length xs
length-get_elem? [] k a e = cc
length-get_elem? (x ∷ xs) zero a e = omega arith
length-get_elem? (x ∷ xs) (suc k) a e = omega (arith, length-get_elem? xs k a e)

length-shares : (ms : List Member) → length (shares ms) ≡ length ms
unfolding shares
length-shares ms = length-map _ ms

-- Every round finds a member, or the search throws.
drawn :
    (ms : List Member) (round : ℕ)
    → ((k : ℕ) × (find_idx_by_round ms round ≡ ok k) × (k < length ms))
      ⊎ (find_idx_by_round ms round ≡ err not_supposed)
unfolding find_idx_by_round
drawn ms round = elim (Bool-cases (total_shares ms == 0)) [
  | inl e ↦ inr (rw e refl)
  | inr e ↦ elim (find_idx_by_round-Holds ms round e).1 [
    | inl (k, run, (s, at, _, _), _) ↦
        inl (k, run, ground (arith, length-get_elem? (shares ms) k s at, length-shares ms))
    | inr (run, _) ↦ inr run
  ]
]

-- Every index of the list is a place in a list of length `n`.
abbrev pub Below : ℕ → List ℕ → Type 0
Below n [] = Unit
Below n (k ∷ ks) = (k < n) × Below n ks

pub form_sequence-Below :
    (ms : List Member) (n x : ℕ)
    → ((ks : List ℕ) × (form_sequence ms n x ≡ ok ks) × (length ks ≡ n) × Below (length ms) ks)
      ⊎ ((form_sequence ms n x ≡ err not_supposed)
          × (i : ℕ) × (i < n)
          × (find_idx_by_round ms (get_slot (x + i)) ≡ err not_supposed))
unfolding form_sequence
form_sequence-Below ms zero x = inl ([], refl, refl, tt)
form_sequence-Below ms (suc n) x = elim (drawn ms (get_slot x)) [
  | inr thrown ↦ inr (
    rw thrown refl,
    0,
    omega arith,
    ap (λ y. find_idx_by_round ms (get_slot y)) (omega arith) ∙ thrown,
  )
  | inl (k, found, low) ↦ elim (form_sequence-Below ms n (x + 1)) [
    | inl (ks, run, len, below) ↦ inl (k ∷ ks, rw (found, run) refl, ap suc len, (low, below))
    | inr (run, i, early, thrown) ↦ inr (
      rw (found, run) refl,
      suc i,
      omega arith,
      ap (λ y. find_idx_by_round ms (get_slot y)) (omega arith) ∙ thrown,
    )
  ]
]
