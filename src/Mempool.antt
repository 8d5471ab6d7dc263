-- ===== src/Mempool.antt =====
-- node/mempool.js: transactions waiting for a block, by concilium, those made here ("local"), and the
-- hashes of bad ones. The clock is an argument; a transaction's binary form is a parameter; the limits
-- are the factory's `Constants`.
pub mod Types
pub mod Limit
pub mod Laws
pub mod Trim
pub mod Disk
use cil_core.Base.{
  ℕ, zero, suc, ◌+◌, ◌-◌, ◌*◌, ◌/◌, ◌%◌, ◌≤◌, ◌<◌, ◌≡◌, refl, sym, ap, ◌∙◌, subst, ◌≢◌, ◌↔◌, ◌⊎◌,
  inl, inr, Bool, true, false, ◌&&◌, ◌||◌, not, Option, none, some, List, [], ◌∷◌, ◌++◌, map, arith,
  ltb, leb, ◌==◌, if◌then◌else◌, eq_of_test, test_self, test_ne, Bool-cases, Option-cases, is_some,
  or_else, length, get_elem?, erase_at, filter, all, length-append, length-filter-le, length-map,
  contains, contains-append, contains-filter, contains-unique, unique_after-Distinct, Distinct,
  unique, unique_after, Error, already_added, already_deleted, already_spent, integrity,
  unexpected_fork, double_spend, different_conciliums, tx_collision, failed_tx, less_coins_used,
  concilium_specified, type_error, not_initialised, round_exceeded, not_supposed, not_found,
  wrong_address, no_block, zero_quorum, no_views, already_in_mempool, no_tx, no_address,
  no_contract_concilium, insufficient_funds, unexpected_situation, Result, ok, err, ◌>>=◌, ◌>>◌,
  guard, or_throw, Result-cases, >>=-eq-ok,
}
use cil_core.JsMap.{Map, get, set, delete, keys, has, size}
use cil_core.Patch.{PatchDb}
use Limit.{concilium_map, limit_constraints}
use Types.{Tx, Entry, LocalEntry, Limits, TxCodec, Mempool}

-- `_searchMapByHash`, as the id under which the map stands.
unfoldable pub search_map_by_hash : Map (Map Entry) → ℕ → Option ℕ
search_map_by_hash [] h = none
search_map_by_hash ((id, m) ∷ rest) h = if has m h then some id else search_map_by_hash rest h

unfoldable pub ensure_concilium_txns : Mempool → ℕ → Mempool
ensure_concilium_txns p id =
    if has p.concilium_txns id then p else record p { concilium_txns = set p.concilium_txns id [] }

-- `_dumpToDisk`
unfoldable pub dump_to_disk : TxCodec → Mempool → Mempool
dump_to_disk codec p =
    if p.has_file
    then record p { file = some (map (λ e. (e.0, codec.encode e.1.tx)) p.local_txns) }
    else p

-- One turn of the loop of `removeTxns`.
unfoldable pub remove_tx : Mempool → ℕ → Mempool
unfolding search_map_by_hash concilium_map
remove_tx p h =
    let from_pool : Mempool = elim (search_map_by_hash p.concilium_txns h) [
      | none ↦ p
      | some id ↦ record p {
        concilium_txns = set p.concilium_txns id (delete (concilium_map p.concilium_txns id) h);
      }
    ] in
    if has p.local_txns h then record p { local_txns = delete p.local_txns h } else from_pool

unfoldable pub remove_each : Mempool → List ℕ → Mempool
unfolding remove_tx
remove_each p [] = p
remove_each p (h ∷ hs) = remove_each (remove_tx p h) hs

unfoldable pub remove_txns : TxCodec → Mempool → List ℕ → Mempool
unfolding remove_each dump_to_disk
remove_txns codec p hs =
    let p' = remove_each p hs in
    if size p.local_txns == size p'.local_txns then p' else dump_to_disk codec p'

unfoldable pub remove_for_block : TxCodec → Mempool → List ℕ → Mempool
unfolding remove_txns
remove_for_block = remove_txns

-- `forEach` with `delete` in its body: the entries that pass stay, in their order.
unfoldable pub keep {ℓ} : {V : Type ℓ} → (V → Bool) → Map V → Map V
keep ok? [] = []
keep ok? ((k, v) ∷ m) = if ok? v then (k, v) ∷ keep ok? m else keep ok? m

unfoldable pub keep_each : (Entry → Bool) → Map (Map Entry) → Map (Map Entry)
unfolding keep
keep_each ok? [] = []
keep_each ok? ((id, m) ∷ rest) = (id, keep ok? m) ∷ keep_each ok? rest

unfoldable pub purge_outdated : Limits → Mempool → ℕ → Mempool
unfolding keep keep_each
purge_outdated limits p now = record p {
  concilium_txns = keep_each (λ e. not (ltb (e.arrived + limits.tx_lifetime) now)) p.concilium_txns;
  bad_txns = keep (λ added. not (ltb (added + limits.bad_tx_cache) now)) p.bad_txns;
}

unfoldable pub has_tx : Mempool → ℕ → Bool
unfolding search_map_by_hash
has_tx p h =
    has p.local_txns h || has p.bad_txns h || is_some (search_map_by_hash p.concilium_txns h)

unfoldable pub add_tx : Limits → Mempool → Tx → ℕ → Result Mempool
unfolding ensure_concilium_txns limit_constraints has_tx concilium_map
add_tx limits p tx now = do
  let p' = limit_constraints limits (ensure_concilium_txns p tx.concilium_id)
  guard (not (has_tx p' tx.hash)) already_in_mempool
  let txns = concilium_map p'.concilium_txns tx.concilium_id
  ok (record p' {
    concilium_txns =
        set p'.concilium_txns tx.concilium_id
          (set txns tx.hash (record { tx = tx; arrived = now }));
  })

unfoldable pub add_local_tx : TxCodec → Mempool → Tx → Option PatchDb → Bool → Mempool
unfolding dump_to_disk
add_local_tx codec p tx patch suppress_dump =
    let p' = record p {
      local_txns = set p.local_txns tx.hash (record { tx = tx; patch = patch });
    } in
    if not suppress_dump && not (size p.local_txns == size p'.local_txns)
    then dump_to_disk codec p'
    else p'

unfoldable pub get_tx : Mempool → ℕ → Result Tx
unfolding has_tx search_map_by_hash concilium_map
get_tx p h = do
  guard (has_tx p h) no_tx
  elim (get p.local_txns h) [
    | some e ↦ ok e.tx
    | none ↦ do
      id ← or_throw (search_map_by_hash p.concilium_txns h) type_error
      e ← or_throw (get (concilium_map p.concilium_txns id) h) type_error
      ok e.tx
  ]

unfoldable pub txns_of : Map Entry → List Tx
txns_of [] = []
txns_of ((h, e) ∷ m) = e.tx ∷ txns_of m

unfoldable pub local_txns_for : ℕ → Map LocalEntry → List Tx
local_txns_for id [] = []
local_txns_for id ((h, e) ∷ m) =
    if e.tx.concilium_id == id then e.tx ∷ local_txns_for id m else local_txns_for id m

unfoldable pub get_final_txns : Mempool → ℕ → Mempool × List Tx
unfolding ensure_concilium_txns concilium_map txns_of local_txns_for
get_final_txns p id =
    let p' = ensure_concilium_txns p id in
    (p', txns_of (concilium_map p'.concilium_txns id) ++ local_txns_for id p'.local_txns)

unfoldable pub get_local_txn_hashes : Mempool → List ℕ
get_local_txn_hashes p = keys p.local_txns

unfoldable pub get_local_txns_patches : Mempool → List (ℕ × Option PatchDb)
get_local_txns_patches p = map (λ e. (e.0, e.1.patch)) p.local_txns

-- The loop of `loadLocalTxnsFromDisk`; a transaction that does not decode ends it.
unfoldable pub load_each : TxCodec → Mempool → Map (List ℕ) → Mempool
unfolding add_local_tx
load_each codec p [] = p
load_each codec p ((h, bytes) ∷ m) = elim (codec.decode bytes) [
  | err e ↦ p
  | ok tx ↦ load_each codec (add_local_tx codec p tx none true) m
]

unfoldable pub load_local_txns_from_disk : TxCodec → Mempool → Mempool
unfolding load_each
load_local_txns_from_disk codec p =
    if p.has_file then elim p.file [ none ↦ p | some m ↦ load_each codec p m ] else p

unfoldable pub store_bad_tx_hash : Mempool → ℕ → ℕ → Mempool
store_bad_tx_hash p h now = record p { bad_txns = set p.bad_txns h now }

unfoldable pub is_bad_tx : Mempool → ℕ → Bool
is_bad_tx p h = has p.bad_txns h

-- `Set.add` of each id.
unfoldable pub add_preferred : List ℕ → List ℕ → List ℕ
add_preferred have [] = have
add_preferred have (id ∷ ids) =
    add_preferred (if contains have id then have else have ++ id ∷ []) ids

unfoldable pub set_preferred_conciliums : Mempool → List ℕ → Mempool
unfolding add_preferred
set_preferred_conciliums p ids = record p { preferred = add_preferred p.preferred ids }

unfoldable pub pool_hashes : Map (Map Entry) → List ℕ
pool_hashes [] = []
pool_hashes ((id, m) ∷ rest) = keys m ++ pool_hashes rest

unfoldable pub get_content : Mempool → List ℕ
unfolding pool_hashes
get_content p = pool_hashes p.concilium_txns ++ keys p.local_txns
