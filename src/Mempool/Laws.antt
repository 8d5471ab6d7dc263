-- ===== src/Mempool/Laws.antt =====
-- Adding a transaction to the pool of node/mempool.js and reading it back, and which hashes it throws on.
use cil_core.Base.{
  ℕ, ◌≡◌, refl, subst, Bool, true, false, not, none, some, [], ◌∷◌, arith, Option-cases, Error,
  type_error, already_in_mempool, ok, err, ◌>>◌, guard,
}
use cil_core.JsMap.{Map, get, set, get-set}
use cil_core.Mempool.{search_map_by_hash, ensure_concilium_txns, has_tx, add_tx, get_tx}
use cil_core.Mempool.Limit.{concilium_map, limit_constraints}
use cil_core.Mempool.Types.{Tx, Entry, Limits, Mempool}

-- A map that is set a hash that no other map has is the one found for it.
search-set :
    (maps : Map (Map Entry)) (id h : ℕ) (m : Map Entry) (e : Entry)
    → search_map_by_hash maps h ≡ none
    → (get m h ≡ some e)
    → search_map_by_hash (set maps id m) h ≡ some id
unfolding search_map_by_hash set get
search-set [] id h m e fresh found = ground (arith, found)
search-set ((j, w) ∷ rest) id h m e fresh found = ground (arith, search-set rest id h m e)

-- What `addTx` stores, once it has found the hash unknown.
stored : Mempool → Tx → ℕ → Mempool
stored p tx now = record p {
  concilium_txns = set p.concilium_txns tx.concilium_id (
      set (concilium_map p.concilium_txns tx.concilium_id) tx.hash
        (record { tx = tx; arrived = now }));
}

search_none :
    (p : Mempool) (h : ℕ) → has_tx p h ≡ false → search_map_by_hash p.concilium_txns h ≡ none
unfolding has_tx
search_none p h n = ground (arith, Option-cases (search_map_by_hash p.concilium_txns h))

local_none : (p : Mempool) (h : ℕ) → has_tx p h ≡ false → get p.local_txns h ≡ none
unfolding has_tx
local_none p h n = ground (arith, Option-cases (get p.local_txns h))

stored_lem :
    (p : Mempool) (tx : Tx) (now : ℕ)
    → has_tx p tx.hash ≡ false
    → (has_tx (stored p tx now) tx.hash ≡ true) × (get_tx (stored p tx now) tx.hash ≡ ok tx)
unfolding stored has_tx get_tx concilium_map
stored_lem p tx now n =
    let txns = concilium_map p.concilium_txns tx.concilium_id in
    let e : Entry = record { tx = tx; arrived = now } in
    ground (
      arith,
      local_none p tx.hash n,
      get-set txns tx.hash tx.hash e,
      get-set p.concilium_txns tx.concilium_id tx.concilium_id (set txns tx.hash e),
      search-set p.concilium_txns tx.concilium_id tx.hash (set txns tx.hash e) e
          (search_none p tx.hash n),
    )

guard_passed {ℓ} :
    {A : Type ℓ} (b : Bool) (e : Error) (x y : A)
    → (guard (not b) e >> ok x) ≡ ok y
    → (b ≡ false) × (x ≡ y)
guard_passed false e x y h = (refl, cc)
guard_passed true e x y h = cc

-- For every pool, limits, transaction and time where `addTx` does not throw: the transaction is in the
-- pool, and `getTx` of its hash returns it.
add_tx-get_tx :
    (limits : Limits) (p p' : Mempool) (tx : Tx) (now : ℕ)
    → add_tx limits p tx now ≡ ok p'
    → (has_tx p' tx.hash ≡ true) × (get_tx p' tx.hash ≡ ok tx)
unfolding add_tx stored
add_tx-get_tx limits p p' tx now h =
    let q = limit_constraints limits (ensure_concilium_txns p tx.concilium_id) in
    let (fresh, e) = guard_passed (has_tx q tx.hash) already_in_mempool (stored q tx now) p' h in
    subst (λ r. (has_tx r tx.hash ≡ true) × (get_tx r tx.hash ≡ ok tx)) e
      (stored_lem q tx now fresh)

-- A hash known only as a bad transaction's passes `hasTx`, and `getTx` then fails with a TypeError.
pub get_tx-bad :
    (p : Mempool) (h added : ℕ)
    → get p.bad_txns h ≡ some added
    → get p.local_txns h ≡ none
    → search_map_by_hash p.concilium_txns h ≡ none
    → (has_tx p h ≡ true) × (get_tx p h ≡ err type_error)
unfolding has_tx get_tx
get_tx-bad p h added bad local pool = ground (arith, bad, local, pool)
