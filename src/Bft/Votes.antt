-- ===== src/Bft/Votes.antt =====
-- What `_majority` of node/bftConsensus.js returns is backed by a quorum.
use cil_core.Base.{
  ℕ, ◌+◌, ◌≤◌, ◌≡◌, refl, sym, ◌∙◌, subst, ◌⊎◌, inl, inr, Option, none, some, List, [], ◌∷◌, arith,
  ltb, leb, ◌==◌, if◌then◌else◌, eq_of_test, Bool-cases, Option-cases, Distinct, not_found, Result,
  ok, err, ◌>>=◌, >>=-eq-ok,
}
use cil_core.JsMap.{Map, get, set, keys, get-set, set-Distinct, contains-keys}
use cil_core.Conciliums.Concilium
use cil_core.Conciliums.Concilium.{Concilium}
use cil_core.Bft.Types.{ViewData, Env}
use cil_core.Bft.Majority.{calc_data_hash, Tally, tally, best, majority}

-- The weight of the members whose value has the hash `h`.
abbrev pub support : Env → Concilium → List ℕ → List (Option ViewData) → ℕ → Result ℕ
support env c as' [] h = ok 0
support env c [] (v ∷ vs) h = err not_found
support env c (a ∷ as') (none ∷ vs) h = support env c as' vs h
support env c (a ∷ as') (some v ∷ vs) h = do
  w ← Concilium.get_witness_weight c a
  rest ← support env c as' vs h
  ok (if calc_data_hash env v == h then w + rest else rest)

abbrev pub count_of : Map Tally → ℕ → ℕ
count_of m h = elim (get m h) [ none ↦ 0 | some t ↦ t.count ]

-- Each value stands under its own hash, and no hash stands twice.
abbrev Keyed : Env → Map Tally → Type 0
Keyed env m = (h : ℕ) (t : Tally) → get m h ≡ some t → calc_data_hash env t.value ≡ h

module _ (env : Env) (c : Concilium) where
  -- The entry that one more value of weight `w` leaves.
  unfoldable pub bump : Map Tally → ViewData → ℕ → Tally
  bump acc v w = elim (get acc (calc_data_hash env v)) [
    | none ↦ record { count = w; value = v }
    | some t ↦ record t { count = t.count + w }
  ]

  bump-value :
      (acc : Map Tally) (v : ViewData) (w : ℕ)
      → Keyed env acc
      → calc_data_hash env (bump acc v w).value ≡ calc_data_hash env v
  unfolding bump
  bump-value acc v w k = elim (Option-cases (get acc (calc_data_hash env v))) [
    | inl n ↦ rw (n, bump) refl
    | inr (t, e) ↦ ground (arith, e, k (calc_data_hash env v) t e)
  ]

  bump-Keyed :
      (acc : Map Tally) (v : ViewData) (w : ℕ)
      → Keyed env acc
      → Keyed env (set acc (calc_data_hash env v) (bump acc v w))
  unfolding bump
  bump-Keyed acc v w k h t e =
      let hv = calc_data_hash env v in
      let read = sym (get-set acc hv h (bump acc v w)) ∙ e in
      let own = bump-value acc v w k in
      elim (Bool-cases (hv == h)) [
        | inl same ↦ ground (arith, read, same, own, eq_of_test hv h same)
        | inr other ↦ k h t (ground (arith, read, other))
      ]

  bump-count :
      (acc : Map Tally) (v : ViewData) (w h : ℕ)
      → count_of (set acc (calc_data_hash env v) (bump acc v w)) h
        ≡ count_of acc h + (if calc_data_hash env v == h then w else 0)
  unfolding bump
  bump-count acc v w h =
      let hv = calc_data_hash env v in
      ground (arith, get-set acc hv h (bump acc v w), Option-cases (get acc hv), eq_of_test hv h)

  -- What the loop has added to each hash's count, from `acc` to `m`.
  abbrev Counted : List ℕ → List (Option ViewData) → Map Tally → Map Tally → Type 0
  Counted as' vs acc m =
      (h : ℕ) → (w : ℕ) × (support env c as' vs h ≡ ok w) × (count_of m h ≡ count_of acc h + w)

  pub tally_lem :
      (as' : List ℕ) (vs : List (Option ViewData)) (acc m : Map Tally)
      → Keyed env acc
      → Distinct (keys acc)
      → tally env c as' vs acc ≡ ok m
      → Keyed env m × Distinct (keys m) × Counted as' vs acc m
  unfolding tally bump
  tally_lem as' [] acc m k d e =
      let same : acc ≡ m = cc in
      subst (λ n. Keyed env n × Distinct (keys n) × Counted as' [] acc n) same
        (k, d, λ h. (0, refl, omega arith))
  tally_lem [] (v ∷ vs) acc m k d e = cc
  tally_lem (a ∷ as') (none ∷ vs) acc m k d e = tally_lem as' vs acc m k d e
  tally_lem (a ∷ as') (some v ∷ vs) acc m k d e =
      let hv = calc_data_hash env v in
      let (w, weight, rest) =
        >>=-eq-ok (Concilium.get_witness_weight c a)
          (λ w. tally env c as' vs (set acc hv (bump acc v w))) e in
      let (k', d', counted) =
        tally_lem as' vs (set acc hv (bump acc v w)) m (bump-Keyed acc v w k)
          (set-Distinct acc hv (bump acc v w) d) rest in
      (
        k',
        d',
        λ h.
            let (u, sup, count) = counted h in
            (
              if hv == h then w + u else u,
              ground (arith, weight, sup),
              ground (arith, count, bump-count acc v w h),
            ),
      )

-- The largest count is one of the entries', unless none is above `top`.
pub best_lem :
    (m : Map Tally) (top : ℕ) (value : Option ViewData)
    → Distinct (keys m)
    → (best m top value ≡ (top, value))
      ⊎ ((h : ℕ) × (t : Tally) × (get m h ≡ some t) × (best m top value ≡ (t.count, some t.value)))
unfolding best get keys
best_lem [] top value d = inl refl
best_lem ((k, t) ∷ m) top value d = elim (Bool-cases (ltb top t.count)) [
  | inr low ↦ elim (best_lem m top value d.1) [
    | inl e ↦ inl (rw low e)
    | inr (h, u, at, e) ↦
        inr (h, u, ground (arith, d.0, contains-keys m h, eq_of_test k h, at), rw low e)
  ]
  | inl high ↦ elim (best_lem m t.count (some t.value) d.1) [
    | inl e ↦ inr (k, t, ground arith, rw high e)
    | inr (h, u, at, e) ↦
        inr (h, u, ground (arith, d.0, contains-keys m h, eq_of_test k h, at), rw high e)
  ]
]

-- For every concilium, members and values they have each sent or not: a value that `_majority` returns
-- is backed by members whose weights, added up, reach the quorum; signatures in votes do not count.
pub majority-support :
    (env : Env) (c : Concilium) (as' : List ℕ) (values : List (Option ViewData)) (v : ViewData)
    → majority env c as' values ≡ ok (some v)
    → (w : ℕ) × (support env c as' values (calc_data_hash env v) ≡ ok w)
      × (Concilium.get_quorum c ≤ w)
unfolding majority get keys
majority-support env c as' values v e =
    let (m, run, rest) =
      >>=-eq-ok (tally env c as' values [])
        (λ m.
          ok (if leb (Concilium.get_quorum c) (best m 0 none).0 then (best m 0 none).1 else none))
        e in
    let (k, d, counted) = tally_lem env c as' values [] m (λ h t n. cc) tt run in
    elim (best_lem m 0 none d) [
      | inl none_best ↦ absurd (ground (arith, none_best, rest))
      | inr (h, t, at, found) ↦
          let (w, sup, count) = counted (calc_data_hash env v) in
          (w, sup, ground (arith, found, at, count, rest, k h t at))
    ]
