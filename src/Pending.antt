-- ===== src/Pending.antt =====
-- node/pendingBlocksManager.js: the graph of blocks that are executed and not yet stable. Its mutex
-- runs one operation at a time.
pub mod Types
pub mod Graph
pub mod Parents
pub mod Stable
use cil_core.Base.{
  ℕ, zero, suc, ◌+◌, ◌-◌, ◌*◌, ◌/◌, ◌%◌, ◌≤◌, ◌<◌, ◌≡◌, refl, sym, ap, ◌∙◌, subst, ◌≢◌, ◌↔◌, ◌⊎◌,
  inl, inr, Bool, true, false, ◌&&◌, ◌||◌, not, Option, none, some, List, [], ◌∷◌, ◌++◌, map, arith,
  ltb, leb, ◌==◌, if◌then◌else◌, eq_of_test, test_self, test_ne, Bool-cases, Option-cases, is_some,
  or_else, length, get_elem?, erase_at, filter, all, length-append, length-filter-le, length-map,
  contains, contains-append, contains-filter, contains-unique, unique_after-Distinct, Distinct,
  unique, unique_after, Error, already_added, already_deleted, already_spent, integrity,
  unexpected_fork, double_spend, different_conciliums, tx_collision, failed_tx, less_coins_used,
  concilium_specified, type_error, not_initialised, round_exceeded, not_supposed, not_found,
  wrong_address, no_block, zero_quorum, no_views, already_in_mempool, no_tx, no_address,
  no_contract_concilium, insufficient_funds, unexpected_situation, oversize, already_signed,
  bad_index, signing_chosen, bad_inputs, bad_outputs, bad_proofs, not_coinbase, bad_amount,
  block_final, not_final, empty_block, bad_parents, bad_signatures, bad_merkle, bad_height,
  out_of_coins, claim_failed, no_utxo, recursion, too_many_coins, unknown_concilium, bad_signature,
  few_signatures, wrong_concilium, small_fee, contract_exists, bad_parent, missed_block,
  not_positive, overspent, no_contract, no_method, not_aligned, already_saved, no_index,
  not_in_wallet, already_in_wallet, unknown_block, bad_block, no_fee, no_vertex, not_witness,
  no_parents, already_exists, skip, take, tail, take-append, take-skip, length-skip, Result, ok,
  err, ◌>>=◌, ◌>>◌, guard, or_throw, Result-cases, >>=-eq-ok,
}
use cil_core.JsMap.{get}
use cil_core.Contract.{Contract}
use cil_core.Patch
use cil_core.Patch.{PatchDb, Codec}
use cil_core.Patch.Merge
use cil_core.Patch.Purge
use cil_core.Block
use cil_core.Block.Types.{Header, Block}
use Types.{Entry, DagApi}

-- `parseInt(nConcilium / 2) + 1`
unfoldable pub majority : ℕ → ℕ
majority n = n / 2 + 1

-- The concilia of the blocks on a path that the graph still holds.
unfoldable pub concilia_on : (ℕ → Option Entry) → List ℕ → List ℕ
concilia_on read [] = []
concilia_on read (v ∷ vs) =
    let rest = concilia_on read vs in
    elim (read v) [ none ↦ rest | some e ↦ e.block_header.concilium_id ∷ rest ]

-- `reduce` with the larger number of different concilia on a path.
unfoldable pub most_witnessed : (ℕ → Option Entry) → List (List ℕ) → ℕ → ℕ
unfolding concilia_on
most_witnessed read [] max = max
most_witnessed read (path ∷ paths) max =
    let n = length (unique (concilia_on read path)) in
    most_witnessed read paths (if ltb n max then max else n)

-- `set.add`
unfoldable pub add_to_set : List ℕ → ℕ → List ℕ
add_to_set xs x = if contains xs x then xs else xs ++ x ∷ []

-- The loop of `_findTopStableForPath`, with the concilia that were seen.
unfoldable pub top_stable_from : (ℕ → Option Entry) → ℕ → List ℕ → List ℕ → Option ℕ
unfolding add_to_set
top_stable_from read need [] seen = none
top_stable_from read need (v ∷ vs) seen =
    let skipped = top_stable_from read need vs seen in
    elim (read v) [
      | none ↦ skipped
      | some e ↦
          let seen' = add_to_set seen e.block_header.concilium_id in
          let rest = top_stable_from read need vs seen' in
          if leb need (length seen') then some v else rest
    ]

unfoldable pub find_top_stable_for_path : (ℕ → Option Entry) → ℕ → List ℕ → Option ℕ
unfolding top_stable_from
find_top_stable_for_path read need path = top_stable_from read need path []

-- The paths that have one, in order.
unfoldable pub top_stables : (ℕ → Option Entry) → ℕ → List (List ℕ) → List ℕ
unfolding find_top_stable_for_path
top_stables read need [] = []
top_stables read need (path ∷ paths) =
    let rest = top_stables read need paths in
    elim (find_top_stable_for_path read need path) [ none ↦ rest | some v ↦ v ∷ rest ]

-- `hash` with the concilium id that is looked for.
unfoldable pub find_by_concilium_id : (ℕ → Option Entry) → List ℕ → Option ℕ → Option ℕ
find_by_concilium_id read hashes none = none
find_by_concilium_id read [] (some id) = none
find_by_concilium_id read (h ∷ hs) (some id) =
    let rest = find_by_concilium_id read hs (some id) in
    elim (read h) [
      | none ↦ rest
      | some e ↦ if e.block_header.concilium_id == id then some h else rest
    ]

-- `mergePatches` for a block that is validated: the first failure is thrown.
unfoldable pub merge_strict : Codec → (ℕ → Option Entry) → List ℕ → PatchDb → Result PatchDb
merge_strict codec read [] merged = ok merged
merge_strict codec read (v ∷ vs) merged = elim (read v) [
  | none ↦ merge_strict codec read vs merged
  | some e ↦ do
    merged' ← Patch.Merge.merge codec e.patch merged false
    merge_strict codec read vs merged'
]

-- `mergePatches` with an array that it fills: what cannot be merged is passed over.
unfoldable pub merge_gathering :
    Codec → (ℕ → Option Entry) → List ℕ → PatchDb → List ℕ → PatchDb × List ℕ
merge_gathering codec read [] merged done = (merged, done)
merge_gathering codec read (v ∷ vs) merged done = elim (read v) [
  | none ↦ merge_gathering codec read vs merged done
  | some e ↦ elim (Patch.Merge.merge codec e.patch merged false) [
    | err _ ↦ merge_gathering codec read vs merged done
    | ok merged' ↦ merge_gathering codec read vs merged' (done ++ v ∷ [])
  ]
]

unfoldable pub merge_patches : Codec → (ℕ → Option Entry) → List ℕ → Result PatchDb
unfolding merge_strict
merge_patches codec read hashes = merge_strict codec read hashes Patch.empty

-- A parent that gives a reason: another concilium has a block with transactions below it.
unfoldable pub has_news : (ℕ → Option Entry) → ℕ → List ℕ → Bool
has_news read id [] = false
has_news read id (v ∷ vs) =
    let rest = has_news read id vs in
    elim (read v) [
      | none ↦ rest
      | some e ↦ (not e.is_empty && not (e.block_header.concilium_id == id)) || rest
    ]

unfoldable pub any_news : (ℕ → Option Entry) → ℕ → List (List ℕ) → Bool
unfolding has_news
any_news read id [] = false
any_news read id (path ∷ paths) = has_news read id path || any_news read id paths

unfoldable pub is_reason : (ℕ → Option Entry) → ℕ → ℕ → List (List ℕ) → Bool
unfolding any_news
is_reason read id parent paths =
    let news = any_news read id paths in
    elim (read parent) [
      | none ↦ false
      | some e ↦ if (e.block_header.concilium_id == id) && e.is_empty then false else news
    ]
