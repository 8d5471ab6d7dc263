-- ===== src/Pending/Parents.antt =====
-- node/pendingBlocksManager.js: the parents of a new block.
use cil_core.Base.{
  ℕ, Bool, true, false, ◌&&◌, Option, none, some, List, [], ◌∷◌, map, ltb, ◌==◌, if◌then◌else◌,
  length, type_error, Result, ok, ◌>>=◌, or_throw,
}
use cil_core.Contract.{Contract}
use cil_core.Patch
use cil_core.Patch.{PatchDb, Codec}
use cil_core.Pending.Types.{Entry, DagApi, Manager}
use cil_core.Pending.{find_by_concilium_id, merge_gathering}
use cil_core.Pending.Graph.{get_vertex_witness_below}

-- A tip, with what the order looks at: whether it is the concilium's own, how many concilia its paths
-- have, and the length of the longest.
pub record Tip : Type 0 where
  pub name : ℕ
  pub own : Bool
  pub witnesses : ℕ
  pub longest : ℕ

-- The comparison gives a positive number: the second goes first.
unfoldable pub goes_after : Tip → Tip → Bool
goes_after a b =
    let by_length = ltb a.longest b.longest in
    let by_witnesses =
      if a.witnesses == b.witnesses then by_length else ltb a.witnesses b.witnesses in
    if a.own then false else (if b.own then true else by_witnesses)

-- JavaScript's sort is stable; for one whose comparison is consistent, as here, insertion gives the
-- same order.
unfoldable pub insert : Tip → List Tip → List Tip
insert t [] = t ∷ []
insert t (u ∷ us) = let rest = insert t us in if goes_after t u then u ∷ rest else t ∷ u ∷ us

unfoldable pub sort : List Tip → List Tip
unfolding insert
sort [] = []
sort (t ∷ ts) = insert t (sort ts)

module _ (api : DagApi Entry) where
  open api use {Dag}

  unfoldable pub tip_of : Manager Dag → Option ℕ → ℕ → Tip
  tip_of m previous v = record {
    name = v;
    own = elim previous [ none ↦ false | some p ↦ p == v ];
    witnesses = get_vertex_witness_below api m v;
    longest = api.longest_path m.dag v;
  }

  unfoldable pub sort_tips : Manager Dag → List ℕ → Option ℕ → List ℕ
  unfolding tip_of sort
  sort_tips m tips id =
      map (λ t. t.name)
        (sort (map (tip_of m (find_by_concilium_id (api.read_obj m.dag) tips id)) tips))

  unfoldable pub last_resort : Manager Dag → ℕ → List ℕ
  last_resort m genesis = elim m.top_stable [
    | none ↦ genesis ∷ []
    | some hs ↦ if length hs == 0 then genesis ∷ [] else hs
  ]

  unfoldable pub or_last : Manager Dag → ℕ → List ℕ → List ℕ
  unfolding last_resort
  or_last m genesis hs = if length hs == 0 then last_resort m genesis else hs

  -- The parents, and their merged patch.
  unfoldable pub get_best_parents : Codec → Manager Dag → ℕ → Option ℕ → List ℕ × PatchDb
  unfolding or_last sort_tips
  get_best_parents codec m genesis id =
      let tips = or_last m genesis (api.tips m.dag) in
      let (merged, done) =
        merge_gathering codec (api.read_obj m.dag) (sort_tips m tips id) Patch.empty [] in
      (or_last m genesis done, merged)

  -- The tip whose patch has the highest level of the concilium, if that is above `max`.
  unfoldable pub best_tip : Dag → ℕ → List ℕ → Option ℕ → ℕ → Result (Option ℕ × ℕ)
  best_tip dag id [] best max = ok (best, max)
  best_tip dag id (h ∷ hs) best max = do
    e ← or_throw (api.read_obj dag h) type_error
    let level : ℕ = elim (Patch.get_level e.patch (some id)) [ none ↦ 0 | some n ↦ n ]
    best_tip dag id hs (if ltb max level then some h else best)
        (if ltb max level then level else max)

  unfoldable pub is_level : PatchDb → ℕ → ℕ → Bool
  is_level patch id level =
      elim (Patch.get_level patch (some id)) [ none ↦ false | some n ↦ n == level ]
      && elim patch.concilium_id [ none ↦ false | some own ↦ own == id ]

  -- The first block of the path at that level, and its contract.
  unfoldable pub contract_on_path : Dag → ℕ → ℕ → ℕ → List ℕ → Result (Option (Option Contract))
  unfolding is_level
  contract_on_path dag address id level [] = ok none
  contract_on_path dag address id level (v ∷ vs) = do
    e ← or_throw (api.read_obj dag v) type_error
    let rest = contract_on_path dag address id level vs
    if is_level e.patch id level then ok (some (Patch.get_contract e.patch address)) else rest

  unfoldable pub contract_on_paths : Dag → ℕ → ℕ → ℕ → List (List ℕ) → Result (Option Contract)
  unfolding contract_on_path
  contract_on_paths dag address id level [] = ok none
  contract_on_paths dag address id level (path ∷ paths) = do
    found ← contract_on_path dag address id level path
    elim found [ none ↦ contract_on_paths dag address id level paths | some c ↦ ok c ]

  unfoldable pub get_contract : Manager Dag → ℕ → ℕ → Result (Option Contract)
  unfolding best_tip contract_on_paths
  get_contract m address id = do
    (best, level) ← best_tip m.dag id (api.tips m.dag) none 0
    elim best [
      | none ↦ ok none
      | some tip ↦ contract_on_paths m.dag address id level (api.paths_down m.dag tip)
    ]
