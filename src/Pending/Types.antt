-- ===== src/Pending/Types.antt =====
-- The data of node/pendingBlocksManager.js, and what it takes from the library dagjs.
use cil_core.Base.{ℕ, ◌≡◌, Bool, Option, List, some, ◌==◌, if◌then◌else◌}
use cil_core.Patch.{PatchDb}
use cil_core.Block.Types.{Header}

-- What a vertex of the graph holds.
pub record Entry : Type 0 where
  pub patch : PatchDb
  pub block_header : Header
  pub is_empty : Bool

-- A graph of dagjs, with edges from a block to its parents. A path down starts at its vertex.
pub record DagApi {ℓ} (O : Type ℓ) : Type (ℓ + 1) where
  pub Dag : Type ℓ
  pub empty : Dag
  pub has_vertex : Dag → ℕ → Bool
  pub add_vertex : Dag → ℕ → Dag
  pub add : Dag → ℕ → ℕ → Dag
  pub remove_vertex : Dag → ℕ → Dag
  pub save_obj : Dag → ℕ → O → Dag
  pub read_obj : Dag → ℕ → Option O
  pub tips : Dag → List ℕ
  pub vertices : Dag → List ℕ
  pub paths_down : Dag → ℕ → List (List ℕ)
  pub longest_path : Dag → ℕ → ℕ
  pub edges_to_tips : Dag → ℕ → List ℕ
  pub read-save :
      (d : Dag) (h k : ℕ) (o : O)
      → read_obj (save_obj d h o) k ≡ (if h == k then some o else read_obj d k)

-- The manager: the graph, and the blocks that were the last to become stable.
pub record Manager {ℓ} (Dag : Type ℓ) : Type ℓ where
  pub dag : Dag
  pub top_stable : Option (List ℕ)

-- What a new block makes stable.
pub record Finality : Type 0 where
  pub patch_to_apply : PatchDb
  pub stable_blocks : List ℕ
  pub blocks_to_rollback : List ℕ
  pub arr_top_stable : List ℕ
