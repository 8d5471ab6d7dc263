-- ===== src/MainDag.antt =====
-- node/mainDag.js: the graph of all blocks, over the library dagjs.
use cil_core.Base.{
  ℕ, Option, List, [], ◌∷◌, ◌==◌, if◌then◌else◌, type_error, Result, ok, ◌>>=◌, or_throw,
}
use cil_core.Block.Types.{BlockEnv}
use cil_core.BlockInfo
use cil_core.BlockInfo.{BlockInfo}
use cil_core.Pending.Types.{DagApi}

module _ (env : BlockEnv) (api : DagApi BlockInfo) where
  open api use {Dag}

  unfoldable pub add_edges : ℕ → List ℕ → Dag → Dag
  add_edges hash [] dag = dag
  add_edges hash (parent ∷ parents) dag = add_edges hash parents (api.add dag hash parent)

  -- Genesis has no parents.
  unfoldable pub add_block : Dag → BlockInfo → Dag
  unfolding add_edges
  add_block dag bi =
      let hash = BlockInfo.get_hash env bi in
      let placed : Dag =
        if hash == env.genesis_block
        then (if api.has_vertex dag hash then dag else api.add_vertex dag hash)
        else add_edges hash bi.parent_hashes dag in
      api.save_obj placed hash bi

  unfoldable pub set_block_info : Dag → BlockInfo → Dag
  set_block_info dag bi = api.save_obj dag (BlockInfo.get_hash env bi) bi

  unfoldable pub get_block_info : Dag → ℕ → Option BlockInfo
  get_block_info dag hash = api.read_obj dag hash

  unfoldable pub get_parents : Dag → ℕ → Result (List ℕ)
  get_parents dag hash = do bi ← or_throw (api.read_obj dag hash) type_error; ok bi.parent_hashes

  unfoldable pub get_children : Dag → ℕ → List ℕ
  get_children dag hash = api.edges_to_tips dag hash

  unfoldable pub get_block_height : Dag → ℕ → Result ℕ
  get_block_height dag hash = do bi ← or_throw (api.read_obj dag hash) type_error; ok bi.height

  unfoldable pub remove_block : Dag → ℕ → Dag
  remove_block dag hash = api.remove_vertex dag hash
