-- ===== src/Mempool/Trim.antt =====
-- What `limitConstraints` of node/mempool.js spares.
use cil_core.Base.{
  ℕ, ◌-◌, ◌*◌, ◌/◌, ◌≤◌, ◌<◌, ◌≡◌, refl, ap, ◌∙◌, inl, inr, Bool, true, false, not, some, List, [],
  ◌∷◌, arith, ◌==◌, eq_of_test, Bool-cases, contains,
}
use cil_core.JsMap.{Map, get}
use cil_core.Mempool.Limit.{
  limit_constraints, trim, purge_selected, purge_maps, selected_size, calc_size,
  calc_preferred_size, clear_others,
}
use cil_core.Mempool.Types.{Entry, Limits, Mempool}

get-purge_selected :
    (sel : ℕ → Bool) (to_remove current : ℕ) (maps : Map (Map Entry)) (id : ℕ)
    → sel id ≡ false
    → get (purge_selected sel to_remove current maps) id ≡ get maps id
unfolding purge_selected get
get-purge_selected sel r c [] id h = refl
get-purge_selected sel r c ((j, m) ∷ rest) id h = elim (Bool-cases (j == id)) [
  | inl same ↦ ground (arith, h, same, ap sel (eq_of_test j id same))
  | inr other ↦ ground (arith, other, get-purge_selected sel r c rest id h)
]

get-clear_others :
    (preferred : List ℕ) (maps : Map (Map Entry)) (id : ℕ)
    → contains preferred id ≡ false
    → (m : Map Entry) → get maps id ≡ some m
    → get (clear_others preferred maps) id ≡ some []
unfolding clear_others get
get-clear_others preferred [] id n m h = cc
get-clear_others preferred ((j, w) ∷ rest) id n m h = elim (Bool-cases (j == id)) [
  | inl same ↦ ground (arith, n, same, ap (contains preferred) (eq_of_test j id same))
  | inr other ↦ ground (arith, other, get-clear_others preferred rest id n m)
]

-- For every pool, limits and preferred concilium: where the preferred transactions are fewer than the
-- limit, `limitConstraints` removes none of that concilium's.
pub limit_constraints-preferred :
    (limits : Limits) (p : Mempool) (id : ℕ)
    → contains p.preferred id ≡ true
    → calc_preferred_size p < limits.tx_qty
    → get (limit_constraints limits p).concilium_txns id ≡ get p.concilium_txns id
unfolding limit_constraints trim purge_maps
limit_constraints-preferred limits p id pref few =
    let others : ℕ → Bool = λ j. not (contains p.preferred j) in
    let desired = limits.tx_qty - calc_preferred_size p in
    let current = selected_size others p.concilium_txns in
    ground
      (arith, get-purge_selected others (current - desired) current p.concilium_txns id (rw pref))

-- For every pool at its limit, and every concilium that is not preferred while another is: where the
-- preferred transactions alone reach the limit, `limitConstraints` removes all of that concilium's.
limit_constraints-others :
    (limits : Limits) (p : Mempool) (id other : ℕ) (m : Map Entry)
    → contains p.preferred other ≡ true
    → contains p.preferred id ≡ false
    → limits.tx_qty ≤ calc_size p
    → limits.tx_qty ≤ calc_preferred_size p
    → get p.concilium_txns id ≡ some m
    → get (limit_constraints limits p).concilium_txns id ≡ some []
unfolding limit_constraints trim purge_maps
limit_constraints-others limits p id other m pref n full reached h =
    let is_preferred : ℕ → Bool = contains p.preferred in
    let desired = 2 * calc_size p / 3 in
    let current = selected_size is_preferred p.concilium_txns in
    let kept = get-purge_selected is_preferred (current - desired) current p.concilium_txns id n in
    ground (
      arith,
      get-clear_others p.preferred
          (purge_selected is_preferred (current - desired) current p.concilium_txns) id n m
          (kept ∙ h),
    )
