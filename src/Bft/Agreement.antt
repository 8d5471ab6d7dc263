-- ===== src/Bft/Agreement.antt =====
-- `_majority` of node/bftConsensus.js finds what a quorum sent: two quorums cannot differ.
use cil_core.Base.{
  ℕ, ◌+◌, ◌*◌, ◌≤◌, ◌<◌, ◌≡◌, refl, ap, ◌∙◌, inl, inr, Option, none, some, List, [], ◌∷◌, arith,
  ltb, ◌==◌, if◌then◌else◌, eq_of_test, Bool-cases, length, Distinct, Result, ok, ◌>>=◌, >>=-eq-ok,
}
use cil_core.JsMap.{Map, get, set, keys}
use cil_core.Conciliums.Concilium
use cil_core.Conciliums.Concilium.{Concilium, round_robin}
use cil_core.Conciliums.RoundRobin
use cil_core.Conciliums.RoundRobin.{RoundRobin}
use cil_core.Conciliums.Quorum.{sum_weights}
use cil_core.Bft.Types.{ViewData, Env}
use cil_core.Bft.Majority.{calc_data_hash, Tally, tally, best, majority}
use cil_core.Bft.Votes.{support, bump, count_of, tally_lem, best_lem}

-- No entry counts more than the best.
best_max :
    (m : Map Tally) (top : ℕ) (value : Option ViewData)
    → Distinct (keys m)
    → (top ≤ (best m top value).0) × ((h : ℕ) → count_of m h ≤ (best m top value).0)
unfolding best get keys
best_max [] top value d = (omega arith, λ h. omega arith)
best_max ((k, t) ∷ m) top value d = elim (Bool-cases (ltb top t.count)) [
  | inl high ↦
      let (low, each) = best_max m t.count (some t.value) d.1 in
      (ground (arith, high, low), λ h. ground (arith, high, low, each h))
  | inr same ↦
      let (low, each) = best_max m top value d.1 in
      (ground (arith, same, low), λ h. ground (arith, same, low, each h))
]

supporter :
    (env : Env) (c : Concilium) (a : ℕ) (as' : List ℕ) (v : ViewData) (vs : List (Option ViewData))
    (h x u : ℕ)
    → Concilium.get_witness_weight c a ≡ ok x
    → support env c (a ∷ as') (some v ∷ vs) h ≡ ok u
    → (u' : ℕ) × (support env c as' vs h ≡ ok u')
      × (u ≡ (if calc_data_hash env v == h then x + u' else u'))
supporter env c a as' v vs h x u weight e =
    let add : ℕ → ℕ → Result ℕ =
      λ w rest. ok (if calc_data_hash env v == h then w + rest else rest) in
    let (w, ew, e1) =
      >>=-eq-ok (Concilium.get_witness_weight c a) (λ w. support env c as' vs h >>= add w) e in
    let (u', eu, e2) = >>=-eq-ok (support env c as' vs h) (add w) e1 in
    let same : w ≡ x = cc in (u', eu, ground (arith, e2, same))

-- Two hashes share no member's weight.
support_disjoint :
    (env : Env) (c : Concilium) (as' : List ℕ) (vs : List (Option ViewData)) (h k total u w : ℕ)
    → sum_weights c as' ≡ ok total
    → ¬ (h ≡ k)
    → support env c as' vs h ≡ ok u
    → support env c as' vs k ≡ ok w
    → u + w ≤ total
unfolding sum_weights
support_disjoint env c as' [] h k total u w s n e f = ground arith
support_disjoint env c [] (v ∷ vs) h k total u w s n e f = cc
support_disjoint env c (a ∷ as') (none ∷ vs) h k total u w s n e f =
    let (x, ex, s1) =
      >>=-eq-ok (Concilium.get_witness_weight c a) (λ x. sum_weights c as' >>= λ y. ok (x + y)) s in
    let (y, ey, s2) = >>=-eq-ok (sum_weights c as') (λ y. ok (x + y)) s1 in
    ground (arith, s2, support_disjoint env c as' vs h k y u w ey n e f)
support_disjoint env c (a ∷ as') (some v ∷ vs) h k total u w s n e f =
    let (x, ex, s1) =
      >>=-eq-ok (Concilium.get_witness_weight c a) (λ x. sum_weights c as' >>= λ y. ok (x + y)) s in
    let (y, ey, s2) = >>=-eq-ok (sum_weights c as') (λ y. ok (x + y)) s1 in
    let (u', eu, ru) = supporter env c a as' v vs h x u ex e in
    let (w', ew, rw') = supporter env c a as' v vs k x w ex f in
    ground (arith, s2, ru, rw', n, support_disjoint env c as' vs h k y u' w' ey n eu ew)

-- Where the weight behind one hash can be added up, the loop over the values does not throw.
tally_runs :
    (env : Env) (c : Concilium) (as' : List ℕ) (vs : List (Option ViewData)) (acc : Map Tally)
    (h w : ℕ)
    → support env c as' vs h ≡ ok w
    → (m : Map Tally) × (tally env c as' vs acc ≡ ok m)
unfolding tally bump
tally_runs env c as' [] acc h w e = (acc, refl)
tally_runs env c [] (v ∷ vs) acc h w e = cc
tally_runs env c (a ∷ as') (none ∷ vs) acc h w e = tally_runs env c as' vs acc h w e
tally_runs env c (a ∷ as') (some v ∷ vs) acc h w e =
    let add : ℕ → ℕ → Result ℕ =
      λ w rest. ok (if calc_data_hash env v == h then w + rest else rest) in
    let (x, ex, e1) =
      >>=-eq-ok (Concilium.get_witness_weight c a) (λ w. support env c as' vs h >>= add w) e in
    let (u, eu, _) = >>=-eq-ok (support env c as' vs h) (add x) e1 in
    let (m, run) =
      tally_runs env c as' vs (set acc (calc_data_hash env v) (bump env c acc v x)) h u eu in
    (m, rw ex run)

-- With exact weights: a hash whose senders reach a quorum of more than half of the weight is returned.
majority_of_exact :
    (env : Env) (c : Concilium) (as' : List ℕ) (values : List (Option ViewData)) (h total w : ℕ)
    → sum_weights c as' ≡ ok total
    → total < 2 * Concilium.get_quorum c
    → support env c as' values h ≡ ok w
    → Concilium.get_quorum c ≤ w
    → (v : ViewData) × (majority env c as' values ≡ ok (some v)) × (calc_data_hash env v ≡ h)
unfolding majority get keys
majority_of_exact env c as' values h total w sum half sup reached =
    let (m, run) = tally_runs env c as' values [] h w sup in
    let (keyed, d, counted) = tally_lem env c as' values [] m (λ j t e. cc) tt run in
    let (_, each) = best_max m 0 none d in
    let (w', sup', count) = counted h in
    elim (best_lem m 0 none d) [
      | inl found ↦ absurd (ground (arith, found, each h, sup', count))
      | inr (j, t, at, found) ↦
          let (x, sup_j, count_j) = counted j in
          (
            t.value,
            ground (arith, run, found, each h, sup', count),
            elim (Bool-cases (j == h)) [
              | inl same ↦ keyed j t at ∙ eq_of_test j h same
              | inr other ↦ absurd (
                  let differ : ¬ (j ≡ h) = λ e. ground (arith, e, other) in
                  let both = support_disjoint env c as' values j h total x w sum differ sup_j sup in
                  ground (arith, both, found, at, each h, sup', count, count_j))
            ],
          )
    ]

length-weights : (c : RoundRobin) (as' : List ℕ) → sum_weights (round_robin c) as' ≡ ok (length as')
unfolding sum_weights Concilium.get_witness_weight RoundRobin.get_witness_weight
length-weights c [] = refl
length-weights c (a ∷ as') = rw (length-weights c as') (ap ok (omega arith))

-- In a concilium whose members take turns, and so weigh 1 each, with a quorum of more than half of the members, and values that the members have each sent or not: if the members that sent values of one hash are as many as the quorum, `_majority` returns a value of that hash.
pub majority_of_quorum :
    (env : Env) (c : RoundRobin) (as' : List ℕ) (values : List (Option ViewData)) (h w : ℕ)
    → length as' < 2 * RoundRobin.get_quorum c
    → support env (round_robin c) as' values h ≡ ok w
    → RoundRobin.get_quorum c ≤ w
    → (v : ViewData) × (majority env (round_robin c) as' values ≡ ok (some v))
      × (calc_data_hash env v ≡ h)
unfolding Concilium.get_quorum
majority_of_quorum env c as' values h w half sup reached =
    majority_of_exact env (round_robin c) as' values h (length as') w (length-weights c as') half
      sup reached
