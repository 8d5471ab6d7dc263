-- ===== src/Bft/Majority.antt =====
-- `_calcDataHash`, `_majority` and `_witnessData` of node/bftConsensus.js.
use cil_core.Base.{
  ℕ, ◌+◌, Option, none, some, List, [], ◌∷◌, ltb, leb, if◌then◌else◌, type_error, not_found, Result,
  ok, err, ◌>>=◌, or_throw,
}
use cil_core.JsMap.{Map, get, set}
use cil_core.Conciliums.Concilium
use cil_core.Conciliums.Concilium.{Concilium}
use cil_core.Bft.Types.{ViewData, next_round_view, vote, Views, Env}

-- Signatures differ from witness to witness, and do not count.
unfoldable pub calc_data_hash : Env → ViewData → ℕ
calc_data_hash env (next_round_view n) = env.create_hash (next_round_view n)
calc_data_hash env (vote h s) = env.create_hash (vote h none)

pub record Tally : Type 0 where
  pub count : ℕ
  pub value : ViewData

-- The loop over the values: `objHashes`, in the order of first appearance. Each value stands beside
-- the address whose weight it has.
unfoldable pub tally :
    Env → Concilium → List ℕ → List (Option ViewData) → Map Tally → Result (Map Tally)
tally env c as' [] acc = ok acc
tally env c [] (v ∷ vs) acc = err not_found
tally env c (a ∷ as') (none ∷ vs) acc = tally env c as' vs acc
tally env c (a ∷ as') (some v ∷ vs) acc = do
  w ← Concilium.get_witness_weight c a
  let h = calc_data_hash env v
  let entry : Tally = elim (get acc h) [
    | none ↦ record { count = w; value = v }
    | some t ↦ record t { count = t.count + w }
  ]
  tally env c as' vs (set acc h entry)

-- The `reduce` over the counts: the first of the largest.
unfoldable pub best : Map Tally → ℕ → Option ViewData → ℕ × Option ViewData
best [] top value = (top, value)
best ((h, t) ∷ m) top value =
    best m (if ltb top t.count then t.count else top)
      (if ltb top t.count then some t.value else value)

unfoldable pub majority :
    Env → Concilium → List ℕ → List (Option ViewData) → Result (Option ViewData)
unfolding tally best calc_data_hash
majority env c as' values = do
  m ← tally env c as' values []
  let (count, value) = best m 0 none
  ok (if leb (Concilium.get_quorum c) count then value else none)

unfoldable pub row_of : Views → ℕ → ℕ → Result (Option ViewData)
row_of views a addr_i = do row ← or_throw (get views a) type_error; ok (get row addr_i)

-- What each member has seen of `addr_i`.
unfoldable pub witness_data : Views → List ℕ → ℕ → Result (List (Option ViewData))
unfolding row_of
witness_data views [] addr_i = ok []
witness_data views (a ∷ rest) addr_i = do
  v ← row_of views a addr_i
  vs ← witness_data views rest addr_i
  ok (v ∷ vs)
