-- ===== src/Tests/Pools.antt =====
-- node/mempool.js, node/requestsCache.js and structures/inventory.js on concrete inputs.
use cil_core.Base.{ℕ, ◌≡◌, refl, true, none, some, [], ◌∷◌, arith, type_error, err}
use cil_core.JsMap.{get, keys}
use cil_core.Mempool.Types.{Tx, Entry, Limits, Mempool}
use cil_core.Mempool.{get_tx, has_tx, search_map_by_hash, load_local_txns_from_disk, dump_to_disk}
use cil_core.Mempool.Limit.{limit_constraints, calc_preferred_size, preferred_size, concilium_map}
use cil_core.Mempool.Laws.{get_tx-bad}
use cil_core.Mempool.Trim.{limit_constraints-preferred}
use cil_core.Mempool.Disk.{forget, load-dump}
use cil_core.Inventory
use cil_core.Inventory.{Inventory, IsValid, was_already_added, add_tx-IsValid}
use cil_core.Tests.Codecs.{tx_codec}

abbrev tx_of : ℕ → ℕ → Tx
tx_of h id = record { hash = h; concilium_id = id }

abbrev entry : ℕ → ℕ → ℕ × Entry
entry h id = (h, record { tx = tx_of h id; arrived = 0 })

abbrev three_at_most : Limits
three_at_most = record { tx_qty = 3; tx_lifetime = 100; bad_tx_cache = 10 }

-- Two transactions of concilium 1, which is preferred, two of concilium 2, a local one and a bad one.
abbrev full : Mempool
full = record {
  concilium_txns = (1, entry 10 1 ∷ entry 11 1 ∷ []) ∷ (2, entry 20 2 ∷ entry 21 2 ∷ []) ∷ [];
  local_txns = (30, record { tx = tx_of 30 1; patch = none }) ∷ [];
  bad_txns = (40, 5) ∷ [];
  preferred = 1 ∷ [];
  has_file = true;
  file = none;
}

get_tx-bad_example : (has_tx full 40 ≡ true) × (get_tx full 40 ≡ err type_error)
unfolding get search_map_by_hash
get_tx-bad_example = get_tx-bad full 40 5 refl refl refl

limit_constraints-preferred_example :
    get (limit_constraints three_at_most full).concilium_txns 1 ≡ get full.concilium_txns 1
unfolding calc_preferred_size preferred_size concilium_map get
limit_constraints-preferred_example =
    limit_constraints-preferred three_at_most full 1 refl (omega arith)

abbrev restarted : Mempool
restarted = record {
  concilium_txns = [];
  local_txns = [];
  bad_txns = [];
  preferred = [];
  has_file = true;
  file = some ((30, 30 ∷ 1 ∷ []) ∷ []);
}

load-dump_example :
    get (load_local_txns_from_disk tx_codec restarted).local_txns 30
    ≡ forget (get full.local_txns 30)
unfolding dump_to_disk keys
load-dump_example = load-dump tx_codec full restarted (refl, tt) (refl, tt) refl refl refl refl 30

abbrev one_tx : Inventory
one_tx = record { inv_vector = record { type = Inventory.inv_tx; hash = 3 } ∷ []; hashes = 3 ∷ [] }
