-- ===== src/Pending/Graph.antt =====
-- node/pendingBlocksManager.js: the operations on the graph itself.
use cil_core.Base.{
  ℕ, Bool, false, ◌&&◌, ◌||◌, Option, none, some, List, [], ◌∷◌, ◌++◌, ◌==◌, if◌then◌else◌, length,
  unique, type_error, Result, ok, err, ◌>>=◌, or_throw,
}
use cil_core.Patch
use cil_core.Patch.{PatchDb, Codec}
use cil_core.Patch.Merge
use cil_core.Patch.Purge
use cil_core.Block
use cil_core.Block.Types.{Block}
use cil_core.Pending.Types.{Entry, DagApi, Manager, Finality}
use cil_core.Pending.{majority, most_witnessed, top_stables, merge_patches, is_reason}

module _ (api : DagApi Entry) where
  open api use {Dag}

  unfoldable pub has_block : Manager Dag → ℕ → Bool
  has_block m hash = api.has_vertex m.dag hash

  -- Edges to the parents that are still pending.
  unfoldable pub add_edges : ℕ → List ℕ → Dag → Dag
  add_edges hash [] dag = dag
  add_edges hash (parent ∷ parents) dag =
      add_edges hash parents (if api.has_vertex dag parent then api.add dag hash parent else dag)

  unfoldable pub add_block : ℕ → Block → PatchDb → Manager Dag → Manager Dag
  unfolding add_edges
  add_block hash block patch m = record m {
    dag =
        api.save_obj (add_edges hash block.parent_hashes (api.add_vertex m.dag hash)) hash
          (record { patch = patch; block_header = block.header; is_empty = Block.is_empty block });
  }

  unfoldable pub get_vertex_witness_below : Manager Dag → ℕ → ℕ
  get_vertex_witness_below m v = most_witnessed (api.read_obj m.dag) (api.paths_down m.dag v) 0

  unfoldable pub get_tips : Manager Dag → List ℕ
  get_tips m = api.tips m.dag

  unfoldable pub get_children : Manager Dag → ℕ → List ℕ
  get_children m hash = api.edges_to_tips m.dag hash

  unfoldable pub get_block : Manager Dag → ℕ → Option Entry
  get_block m hash = api.read_obj m.dag hash

  unfoldable pub get_all_hashes : Manager Dag → List ℕ
  get_all_hashes m = api.vertices m.dag

  unfoldable pub remove_block : Manager Dag → ℕ → Manager Dag
  remove_block m hash = record m { dag = api.remove_vertex m.dag hash }

  unfoldable pub remove_blocks : List ℕ → Dag → Dag
  remove_blocks [] dag = dag
  remove_blocks (h ∷ hs) dag = remove_blocks hs (api.remove_vertex dag h)

  unfoldable pub find_top_stable : Dag → ℕ → ℕ → List ℕ
  find_top_stable dag hash need = top_stables (api.read_obj dag) need (api.paths_down dag hash)

  unfoldable pub joined : List (List ℕ) → List ℕ
  joined [] = []
  joined (path ∷ paths) = path ++ joined paths

  -- The vertices of all paths down, once each.
  unfoldable pub below : Dag → ℕ → List ℕ
  unfolding joined
  below dag v = unique (joined (api.paths_down dag v))

  -- `mergeSets` over the top stable vertices.
  unfoldable pub find_also_stable : Dag → List ℕ → List ℕ → List ℕ
  unfolding below
  find_also_stable dag [] found = found
  find_also_stable dag (v ∷ vs) found = find_also_stable dag vs (unique (found ++ below dag v))

  -- The tips, other than the new block, that cannot be merged with what is applied. `readObj` of a tip
  -- without an object throws.
  unfoldable pub conflicting : Codec → Dag → ℕ → PatchDb → List ℕ → List ℕ → Result (List ℕ)
  unfolding below
  conflicting codec dag new patch [] found = ok found
  conflicting codec dag new patch (tip ∷ tips) found = do
    entry ←
        if tip == new
        then ok none
        else (do e ← or_throw (api.read_obj dag tip) type_error; ok (some e))
    let kept : List ℕ = elim entry [
      | none ↦ found
      | some e ↦ elim (Patch.Merge.merge codec e.patch patch false) [
        | ok _ ↦ found
        | err _ ↦ unique (below dag tip ++ found)
      ]
    ]
    conflicting codec dag new patch tips kept

  unfoldable pub remove_conflicting_branches : Codec → Dag → ℕ → PatchDb → Result (List ℕ × Dag)
  unfolding conflicting remove_blocks
  remove_conflicting_branches codec dag new patch = do
    found ← conflicting codec dag new patch (api.tips dag) []
    ok (found, remove_blocks found dag)

  -- The patches of what stays pending lose what was applied.
  unfoldable pub purge_pending : Codec → PatchDb → List ℕ → Dag → Result Dag
  purge_pending codec patch [] dag = ok dag
  purge_pending codec patch (v ∷ vs) dag = do
    e ← or_throw (api.read_obj dag v) type_error
    purged ← Patch.Purge.purge codec e.patch patch
    purge_pending codec patch vs (api.save_obj dag v (record e { patch = purged }))

  unfoldable pub check_finality :
      Codec → Manager Dag → ℕ → ℕ → Result (Option Finality × Manager Dag)
  unfolding find_top_stable find_also_stable remove_blocks remove_conflicting_branches purge_pending
  check_finality codec m new concilium_count =
      let top = find_top_stable m.dag new (majority concilium_count) in
      let also = find_also_stable m.dag top [] in
      let settled : Result (Option Finality × Manager Dag) = (do
        patch ← merge_patches codec (api.read_obj m.dag) top
        (rollback, dag) ← remove_conflicting_branches codec (remove_blocks also m.dag) new patch
        purged ← purge_pending codec patch (api.vertices dag) dag
        ok (
          some (record {
            patch_to_apply = patch;
            stable_blocks = also;
            blocks_to_rollback = rollback;
            arr_top_stable = top;
          }),
          record { dag = purged; top_stable = some top },
        )) in
      if length top == 0 then ok (none, m) else settled

  -- The parents of the block that are pending, one of which gives a reason.
  unfoldable pub any_reason : Dag → ℕ → List ℕ → Bool
  any_reason dag id [] = false
  any_reason dag id (h ∷ hs) =
      (api.has_vertex dag h && is_reason (api.read_obj dag) id h (api.paths_down dag h))
      || any_reason dag id hs

  unfoldable pub is_reason_to_witness : Manager Dag → Block → Bool
  unfolding any_reason
  is_reason_to_witness m block = any_reason m.dag block.concilium_id block.parent_hashes
