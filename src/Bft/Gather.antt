-- ===== src/Bft/Gather.antt =====
-- `_getSignaturesForBlock` of node/bftConsensus.js.
use cil_core.Base.{
  ℕ, ◌+◌, ◌&&◌, not, Option, none, some, List, [], ◌∷◌, leb, ◌==◌, if◌then◌else◌, no_block,
  zero_quorum, no_views, Result, ok, ◌>>=◌, ◌>>◌, guard, or_throw,
}
use cil_core.Conciliums.Concilium
use cil_core.Conciliums.Concilium.{Concilium}
use cil_core.Bft.Types.{reject, hash_of, ViewData, next_round_view, vote, Views, Env, Bft}
use cil_core.Bft.Majority.{majority, witness_data}

-- A vote that counts: for this block, signed by the member itself.
unfoldable pub vote_signature : Env → ℕ → ℕ → Option ViewData → Option ℕ
vote_signature env h addr none = none
vote_signature env h addr (some (next_round_view n)) = none
vote_signature env h addr (some (vote reject s)) = none
vote_signature env h addr (some (vote (hash_of k) none)) = none
vote_signature env h addr (some (vote (hash_of k) (some s))) =
    if k == h && addr == env.recover h s then some s else none

-- The `forEach` of `_getSignaturesForBlock`: the signatures, and the weight behind them.
unfoldable pub gather : Env → Bft → Views → ℕ → List ℕ → Result (List ℕ × ℕ)
unfolding vote_signature
gather env b views h [] = ok ([], 0)
gather env b views h (a ∷ rest) = do
  seen ← witness_data views b.addresses a
  v ← majority env b.concilium b.addresses seen
  w ← elim (vote_signature env h a v) [
    | none ↦ ok 0
    | some s ↦ Concilium.get_witness_weight b.concilium a
  ]
  (sigs, sum) ← gather env b views h rest
  ok (elim (vote_signature env h a v) [ none ↦ sigs | some s ↦ s ∷ sigs ], w + sum)

unfoldable pub get_signatures_for_block : Env → Bft → Result (Option (List ℕ))
unfolding gather
get_signatures_for_block env b = do
  blk ← or_throw b.block no_block
  views ← elim b.addresses [ [] ↦ ok [] | a ∷ rest ↦ or_throw b.prev_views no_views ]
  (sigs, sum) ← gather env b views blk.hash b.addresses
  guard (not (Concilium.get_quorum b.concilium == 0)) zero_quorum
  ok (if leb (Concilium.get_quorum b.concilium) sum then some sigs else none)
