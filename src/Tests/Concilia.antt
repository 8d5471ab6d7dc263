-- ===== src/Tests/Concilia.antt =====
-- conciliums/ on a concilium of two stakes and on one of three members in turn.
use cil_core.Base.{
  zero, suc, ltb, ℕ, ◌*◌, ◌%◌, ◌≤◌, ◌<◌, ◌≡◌, refl, ◌⊎◌, true, none, some, List, [], ◌∷◌, arith,
  contains, not_supposed, ok, err,
}
use cil_core.Conciliums.Rounds.{Epoch, is_stale}
use cil_core.Conciliums.Pos
use cil_core.Conciliums.Pos.{Pos, Member, total_shares, shares, find_idx_by_round}
use cil_core.Conciliums.RoundRobin.{RoundRobin}
use cil_core.Conciliums.Doubles
use cil_core.Conciliums.Gcd.{gcd_list}
use cil_core.Conciliums.Concilium.{
  Concilium, round_robin, pos, rounds, get_addresses, get_quorum, get_proposer_address, init_rounds,
  get_round, next_round, adjust_round,
}
use cil_core.Conciliums.Quorum.{sum_weights, quorum_is_majority}
use cil_core.Conciliums.Draw.{Holds, find_idx_by_round-Holds}
use cil_core.Conciliums.Turns.{IsReady, Undrawn, init_rounds-IsReady, proposer_is_member}
use cil_core.Conciliums.Rotation.{next_round-IsReady, adjust_round_behind}

abbrev stakes : List Member
stakes = record { address = 1; amount = 6 } ∷ record { address = 2; amount = 4 } ∷ []

abbrev by_stake : Concilium
by_stake = pos (record {
  members = stakes;
  rounds = record { seed = 17; seq_length = 20; epoch = none };
  proposers = [];
})

-- Started at round 100, now in its second round of three.
abbrev third_turn : Epoch
third_turn = record { round_base = 100; local_round = 1 }

abbrev pub taking_turns : RoundRobin
taking_turns = record {
  addresses = 1 ∷ 2 ∷ 3 ∷ [];
  quorum = 0;
  rounds = record { seed = 100; seq_length = 3; epoch = some third_turn };
}

abbrev pub in_turn : Concilium
in_turn = round_robin taking_turns

pub in_turn-IsReady : IsReady in_turn
unfolding rounds
in_turn-IsReady = record {
  can_start = (omega arith, refl);
  started = (third_turn, refl, omega arith);
  sequence = tt;
}

quorum_is_majority_example :
    (w : ℕ) × (sum_weights by_stake (get_addresses by_stake) ≡ ok w) × (w < 2 * get_quorum by_stake)
unfolding get_addresses Pos.get_addresses
quorum_is_majority_example = quorum_is_majority by_stake (refl, (refl, tt)) (omega arith)

init_rounds-IsReady_example :
    ((c' : Concilium) × (init_rounds by_stake ≡ ok c') × IsReady c' × (get_round c' ≡ ok 17))
    ⊎ ((init_rounds by_stake ≡ err not_supposed) × Undrawn by_stake)
unfolding rounds
init_rounds-IsReady_example = init_rounds-IsReady by_stake (omega arith, omega arith)

proposer_is_member_example :
    (a : ℕ) × (get_proposer_address in_turn ≡ ok a) × (contains (get_addresses in_turn) a ≡ true)
proposer_is_member_example = proposer_is_member in_turn in_turn-IsReady

next_round-IsReady_example :
    ((c' : Concilium) × (n : ℕ) × (next_round in_turn ≡ ok (n, c'))
      × (((2 < 3) × (n ≡ 102)) ⊎ ((3 ≤ 2) × (n ≡ 100)))
      × IsReady c'
      × (get_round c' ≡ ok n))
    ⊎ ((next_round in_turn ≡ err not_supposed) × (3 ≤ 2) × Undrawn in_turn)
unfolding rounds
next_round-IsReady_example = next_round-IsReady in_turn third_turn in_turn-IsReady refl

adjust_round_behind_example :
    (c' : Concilium) × (adjust_round in_turn 98 ≡ ok c') × IsReady c' × (get_round c' ≡ ok 102)
unfolding rounds is_stale
adjust_round_behind_example =
    adjust_round_behind in_turn 98 1 third_turn in_turn-IsReady refl refl refl (omega arith)

-- Two stakes that differ by 2, and the number that lies just above half of the total: the share of the
-- first member is 500.050001, and the double 10001 % 1000.1 falls into the stretch of the second.
abbrev nearly_equal : List Member
nearly_equal =
    record { address = 1; amount = 500050001 } ∷ record { address = 2; amount = 500049999 } ∷ []

drawn_second : find_idx_by_round nearly_equal 10001 ≡ ok 1
unfolding find_idx_by_round Doubles.divide Doubles.add Doubles.of_integer gcd_list
drawn_second = refl

find_idx_by_round-Holds_example :
    let r = Doubles.of_integer 10001 % total_shares nearly_equal in
    (r < total_shares nearly_equal)
    × (((k : ℕ) × (find_idx_by_round nearly_equal 10001 ≡ ok k)
          × Holds 0 (shares nearly_equal) r k
          × ((j : ℕ) → (k ≤ j) ⊎ ¬ Holds 0 (shares nearly_equal) r j))
        ⊎ ((find_idx_by_round nearly_equal 10001 ≡ err not_supposed)
            × ((j : ℕ) → ¬ Holds 0 (shares nearly_equal) r j)))
unfolding total_shares Doubles.divide Doubles.add Doubles.of_integer gcd_list
find_idx_by_round-Holds_example = find_idx_by_round-Holds nearly_equal 10001 refl

-- What `reduce` makes of the weights of so many of twelve members with equal stakes.
abbrev votes_of_twelve : ℕ → ℕ
votes_of_twelve zero = 0
votes_of_twelve (suc n) =
    Doubles.add (votes_of_twelve n) (Doubles.divide (Doubles.of_integer 1) (Doubles.of_integer 12))

-- Seven of them are the quorum (0.5 * 12 + 1) / 12, but their sum, rounded, is below it.
seven_of_twelve :
    ltb (votes_of_twelve 7) (Doubles.divide (Doubles.of_integer 7) (Doubles.of_integer 12)) ≡ true
unfolding Doubles.add Doubles.divide Doubles.of_integer
seven_of_twelve = refl
