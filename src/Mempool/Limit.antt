-- ===== src/Mempool/Limit.antt =====
-- `limitConstraints` and `_purgeMaps` of node/mempool.js: which transactions go when there are too many.
use cil_core.Base.{
  ℕ, zero, suc, ◌+◌, ◌-◌, ◌*◌, ◌/◌, Bool, true, not, none, some, List, [], ◌∷◌, ltb, ◌==◌,
  if◌then◌else◌, contains,
}
use cil_core.JsMap.{Map, get, size}
use cil_core.Mempool.Types.{Entry, Limits, Mempool}

-- `mapTxns.get`, `set` and `delete` reach the map through the reference that stands under `id`.
unfoldable pub concilium_map : Map (Map Entry) → ℕ → Map Entry
concilium_map maps id = elim (get maps id) [ none ↦ [] | some m ↦ m ]

-- The sizes of the maps whose ids pass, added up.
unfoldable pub selected_size : (ℕ → Bool) → Map (Map Entry) → ℕ
selected_size sel [] = 0
selected_size sel ((id, m) ∷ rest) = (if sel id then size m else 0) + selected_size sel rest

unfoldable pub calc_size : Mempool → ℕ
unfolding selected_size
calc_size p = selected_size (λ id. true) p.concilium_txns

unfoldable pub preferred_size : Map (Map Entry) → List ℕ → ℕ
unfolding concilium_map
preferred_size maps [] = 0
preferred_size maps (id ∷ ids) = size (concilium_map maps id) + preferred_size maps ids

unfoldable pub calc_preferred_size : Mempool → ℕ
unfolding preferred_size
calc_preferred_size p = preferred_size p.concilium_txns p.preferred

-- `map.forEach((val, key) => { if (i++ < n) map.delete(key); })`
unfoldable pub drop_first : ℕ → Map Entry → Map Entry
drop_first zero m = m
drop_first (suc n) [] = []
drop_first (suc n) (e ∷ m) = drop_first n m

-- `Math.round(nToRemove * map.size / nCurrentSize)`. Nothing is removed for 0 / 0, which is NaN, nor
-- for a negative number, which stands as 0 here.
unfoldable pub map_remove : ℕ → ℕ → ℕ → ℕ
map_remove to_remove this_size current =
    if current == 0 then 0 else (2 * (to_remove * this_size) + current) / (2 * current)

unfoldable pub purge_selected : (ℕ → Bool) → ℕ → ℕ → Map (Map Entry) → Map (Map Entry)
unfolding drop_first map_remove
purge_selected sel to_remove current [] = []
purge_selected sel to_remove current ((id, m) ∷ rest) =
    (id, if sel id then drop_first (map_remove to_remove (size m) current) m else m)
    ∷ purge_selected sel to_remove current rest

-- `_purgeMaps` on the maps whose ids pass.
unfoldable pub purge_maps : (ℕ → Bool) → ℕ → Map (Map Entry) → Map (Map Entry)
unfolding purge_selected selected_size
purge_maps sel desired maps =
    let current = selected_size sel maps in purge_selected sel (current - desired) current maps

unfoldable pub clear_others : List ℕ → Map (Map Entry) → Map (Map Entry)
clear_others preferred [] = []
clear_others preferred ((id, m) ∷ rest) =
    (id, if contains preferred id then m else []) ∷ clear_others preferred rest

-- The branches of `limitConstraints` above the limit.
unfoldable pub trim : Limits → Mempool → Map (Map Entry)
unfolding calc_size calc_preferred_size purge_maps clear_others
trim limits p =
    let trimmed = 2 * calc_size p / 3 in
    let preferred = calc_preferred_size p in
    let is_preferred = contains p.preferred in
    let others =
      purge_maps (λ id. not (is_preferred id)) (limits.tx_qty - preferred) p.concilium_txns in
    let only_preferred =
      clear_others p.preferred (purge_maps is_preferred trimmed p.concilium_txns) in
    elim p.preferred [
      | [] ↦ purge_maps (λ id. true) trimmed p.concilium_txns
      | _ ∷ _ ↦ if ltb preferred limits.tx_qty then others else only_preferred
    ]

unfoldable pub limit_constraints : Limits → Mempool → Mempool
unfolding calc_size trim
limit_constraints limits p =
    if ltb (calc_size p) limits.tx_qty then p else record p { concilium_txns = trim limits p }
