-- ===== src/Conciliums/Concilium.antt =====
-- conciliums/: the witnesses of a concilium, their weights and quorum, and the round that says whose
-- turn it is. This file joins the two kinds, as the subclasses of baseConciliumDefinition.js do.
--
-- Weights and quorums of the proof-of-stake kind are fractions with one denominator. The model keeps
-- the numerators: every weight and quorum of a concilium is multiplied by its `scale`.
use cil_core.Base.{ℕ, List, if◌then◌else◌, Result, ok, ◌>>=◌}
use cil_core.Conciliums.Rounds
use cil_core.Conciliums.Rounds.{
  Rounds, next_round_of, adjust_round_of, change_seed_of, get_round_of,
}
use cil_core.Conciliums.RoundRobin
use cil_core.Conciliums.RoundRobin.{RoundRobin}
use cil_core.Conciliums.Pos
use cil_core.Conciliums.Pos.{Pos}

pub data Concilium : Type 0 where
  round_robin : RoundRobin → Concilium
  pos : Pos → Concilium

unfoldable pub rounds : Concilium → Rounds
rounds (round_robin c) = c.rounds
rounds (pos c) = c.rounds

unfoldable pub get_addresses : Concilium → List ℕ
get_addresses (round_robin c) = c.addresses
get_addresses (pos c) = Pos.get_addresses c

unfoldable pub get_members_count : Concilium → ℕ
get_members_count (round_robin c) = RoundRobin.get_members_count c
get_members_count (pos c) = Pos.get_members_count c

unfoldable pub scale : Concilium → ℕ
scale (round_robin c) = 1
scale (pos c) = Pos.scale c

unfoldable pub get_quorum : Concilium → ℕ
get_quorum (round_robin c) = RoundRobin.get_quorum c
get_quorum (pos c) = Pos.get_quorum c

unfoldable pub get_witness_weight : Concilium → ℕ → Result ℕ
get_witness_weight (round_robin c) address = ok (RoundRobin.get_witness_weight c address)
get_witness_weight (pos c) address = Pos.get_witness_weight c address

unfoldable pub get_proposer_address : Concilium → Result ℕ
get_proposer_address (round_robin c) = RoundRobin.get_proposer_address c
get_proposer_address (pos c) = Pos.get_proposer_address c

unfoldable pub init_rounds : Concilium → Result Concilium
init_rounds (round_robin c) = ok (round_robin (RoundRobin.init_rounds c))
init_rounds (pos c) = do c' ← Pos.init_rounds c; ok (pos c')

unfoldable pub set_rounds : Concilium → Rounds → Concilium
set_rounds (round_robin c) r = round_robin (record c { rounds = r })
set_rounds (pos c) r = pos (record c { rounds = r })

unfoldable pub change_seed : Concilium → ℕ → Concilium
unfolding rounds set_rounds
change_seed c seed = set_rounds c (change_seed_of (rounds c) seed)

unfoldable pub get_round : Concilium → Result ℕ
unfolding rounds
get_round c = get_round_of (rounds c)

-- The counter is advanced before the test whether the sequence is at its end.
unfoldable pub next_round : Concilium → Result (ℕ × Concilium)
unfolding rounds set_rounds init_rounds get_round
next_round c = do
  (r, over) ← next_round_of (rounds c)
  c' ← if over then init_rounds (set_rounds c r) else ok (set_rounds c r)
  n ← get_round c'
  ok (n, c')

unfoldable pub adjust_round : Concilium → ℕ → Result Concilium
unfolding rounds set_rounds init_rounds
adjust_round c n = do
  c' ← if Rounds.is_stale (rounds c) then init_rounds c else ok c
  ok (set_rounds c' (adjust_round_of (rounds c') n))
