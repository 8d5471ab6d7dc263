-- ===== src/Conciliums/RoundRobin.antt =====
-- conciliums/conciliumRr.js: every member has one vote, and members propose in turn.
use cil_core.Base.{
  ℕ, ◌+◌, ◌/◌, ◌%◌, List, ◌==◌, if◌then◌else◌, length, get_elem?, type_error, Result, err, ◌>>=◌,
  or_throw,
}
use cil_core.Conciliums.Rounds
use cil_core.Conciliums.Rounds.{Rounds, init_rounds_of, get_round_of}

pub record RoundRobin : Type 0 where
  pub addresses : List ℕ
  pub quorum : ℕ
  pub rounds : Rounds

-- A quorum of 0 stands for none given.
unfoldable pub create : List ℕ → ℕ → RoundRobin
create addresses quorum = record {
  addresses = addresses;
  quorum = quorum;
  rounds = Rounds.create (length addresses);
}

unfoldable pub set_quorum : RoundRobin → ℕ → RoundRobin
set_quorum c q = record c { quorum = q }

unfoldable pub get_quorum : RoundRobin → ℕ
get_quorum c = if c.quorum == 0 then length c.addresses / 2 + 1 else c.quorum

unfoldable pub get_witness_weight : RoundRobin → ℕ → ℕ
get_witness_weight c address = 1

unfoldable pub get_members_count : RoundRobin → ℕ
get_members_count c = length c.addresses

unfoldable pub init_rounds : RoundRobin → RoundRobin
init_rounds c = record c { rounds = init_rounds_of c.rounds }

-- With no addresses the index is `NaN`, and reading there gives `undefined`.
unfoldable pub get_proposer_address : RoundRobin → Result ℕ
get_proposer_address c = do
  round ← get_round_of c.rounds
  if length c.addresses == 0
      then err type_error
      else or_throw (get_elem? c.addresses (round % length c.addresses)) type_error
