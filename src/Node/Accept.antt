-- ===== src/Node/Accept.antt =====
-- node/node.js: what the node keeps of a block, and what it does when blocks become stable.
use cil_core.Base.{
  ℕ, zero, suc, ◌+◌, Bool, false, Option, none, some, List, [], ◌∷◌, ltb, if◌then◌else◌, or_else,
  type_error, Result, ok, err, ◌>>=◌, ◌>>◌, or_throw,
}
use cil_core.JsMap.{Map, get, set}
use cil_core.Block.Types.{Block}
use cil_core.BlockInfo
use cil_core.BlockInfo.{BlockInfo}
use cil_core.MainDag
use cil_core.Storage
use cil_core.Storage.Types.{Storage, StorageEnv}
use cil_core.Transaction.Types.{TxEnv}
use cil_core.Pending.Types.{DagApi, Finality}

-- The last block of each concilium among some hashes.
unfoldable pub by_concilium : (ℕ → Option BlockInfo) → List ℕ → Map ℕ → Result (Map ℕ)
by_concilium infos [] m = ok m
by_concilium infos (h ∷ hs) m = do
  bi ← or_throw (infos h) type_error
  by_concilium infos hs (set m bi.concilium_id h)

-- The loop over the concilia, `left` of them from number `i` on.
unfoldable pub pick_last : Map ℕ → Map ℕ → ℕ → ℕ → List ℕ
pick_last new previous zero i = []
pick_last new previous (suc left) i =
    let rest = pick_last new previous left (suc i) in
    elim (or_else (get new i) (get previous i)) [ none ↦ rest | some h ↦ h ∷ rest ]

-- The loop runs up to the number of concilia, and includes it.
unfoldable pub new_last_applied : (ℕ → Option BlockInfo) → List ℕ → List ℕ → ℕ → Result (List ℕ)
unfolding by_concilium pick_last
new_last_applied infos previous top count = do
  before ← by_concilium infos previous []
  now ← by_concilium infos top []
  ok (pick_last now before (count + 1) 0)

module _ (env : StorageEnv) (txenv : TxEnv) (api : DagApi BlockInfo) where
  open api use {Dag}

  -- An error of `saveBlock` is only logged. A bad block that is stored as a good one is removed.
  unfoldable pub store_block_and_info :
      Option Block → BlockInfo → Bool → Dag → Storage → Result (Dag × Storage)
  store_block_and_info block bi only_dag dag s =
      let dag' = MainDag.add_block env.block_env api dag bi in
      let hash = BlockInfo.get_hash env.block_env bi in
      let saved = Storage.save_block_info env s bi in
      let marked : Storage = elim (Storage.get_block_info env s hash) [
        | err e ↦ saved
        | ok stored ↦ if BlockInfo.is_bad stored then saved else Storage.remove_block saved hash
      ] in
      let kept : Storage = elim block [
        | none ↦ s
        | some b ↦ elim (Storage.save_block env txenv s b (some bi)) [ err e ↦ s | ok s' ↦ s' ]
      ] in
      ok (dag', if only_dag then s else (if BlockInfo.is_bad bi then marked else kept))

  unfoldable pub block_bad : BlockInfo → Dag → Storage → Result (Dag × Storage)
  unfolding store_block_and_info
  block_bad bi dag s = store_block_and_info none (BlockInfo.mark_as_bad bi) false dag s

  unfoldable pub block_in_flight : Block → Bool → Dag → Storage → Result (Dag × Storage)
  unfolding store_block_and_info
  block_in_flight block only_dag dag s =
      store_block_and_info (some block)
        (BlockInfo.mark_as_in_flight (BlockInfo.create block.header)) only_dag dag s

  -- The stable blocks become final, here and in the storage; the largest height.
  unfoldable pub mark_stable : List ℕ → ℕ → Dag → Storage → Result (ℕ × Dag × Storage)
  mark_stable [] max dag s = ok (max, dag, s)
  mark_stable (h ∷ hs) max dag s = do
    bi ← or_throw (api.read_obj dag h) type_error
    let final = BlockInfo.mark_as_final bi
    mark_stable hs (if ltb max bi.height then bi.height else max)
        (MainDag.set_block_info env.block_env api dag final) (Storage.save_block_info env s final)

  -- `_processFinalityResults`, up to the transactions that go back to the pool. `count` is the number
  -- of concilia.
  unfoldable pub process_finality : Finality → ℕ → Dag → Storage → Result (Dag × Storage)
  unfolding mark_stable new_last_applied
  process_finality f count dag s = do
    last ←
        new_last_applied (api.read_obj dag) (Storage.get_last_applied_block_hashes s)
          f.arr_top_stable count
    (height, dag', s') ←
        mark_stable f.stable_blocks 0 dag (Storage.update_last_applied_blocks s last)
    applied ← Storage.apply_patch env s' f.patch_to_apply height
    let (removed, left) = Storage.remove_bad_blocks env applied f.blocks_to_rollback
    removed
    ok (dag', left)
