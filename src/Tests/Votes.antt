-- ===== src/Tests/Votes.antt =====
-- node/bftConsensus.js on a concilium of three members, two of which vote for block 50.
use cil_core.Base.{
  ℕ, ◌+◌, ◌-◌, ◌*◌, ◌≤◌, ◌<◌, ◌≡◌, refl, ◌⊎◌, none, some, List, [], ◌∷◌, arith, not_supposed, ok,
  err,
}
use cil_core.JsMap.{get, set}
use cil_core.Conciliums.Concilium
use cil_core.Conciliums.Concilium.{Concilium}
use cil_core.Conciliums.RoundRobin
use cil_core.Conciliums.Turns.{Undrawn}
use cil_core.Conciliums.Quorum.{sum_weights}
use cil_core.Bft.Types.{
  reject, hash_of, ViewData, next_round_view, vote, Block, send_next_round, send_accept,
  send_reject, commit_block, Views, Env, Bft, block_wait, vote_block, commit,
}
use cil_core.Bft.Majority.{majority, tally, best, calc_data_hash, witness_data, row_of}
use cil_core.Bft.Votes.{support, majority-support}
use cil_core.Bft.Agreement.{majority_of_quorum}
use cil_core.Bft.Signatures.{SignedBy, Sublist, get_signatures-quorum}
use cil_core.Bft.Commit.{Committed, Waits, GaveUp, NoBlock, vote_agreed-outcome}
use cil_core.Bft.Timeouts.{Restarted, timeout-Restarted, block_in_wait}
use cil_core.Bft.{emit, usable, vote_agreed, timeout, process_valid_block, invalid_block}
use cil_core.Bft.Gather.{gather, vote_signature, get_signatures_for_block}
use cil_core.Tests.Concilia.{taking_turns, in_turn, in_turn-IsReady}

-- A signature of `a` under hash `h` is `10 * h + a`.
abbrev env : Env
env = record {
  create_hash = λ v. elim v [
    | next_round_view n ↦ 2 * n
    | vote h s ↦ elim h [ reject ↦ 1 | hash_of k ↦ 2 * k + 3 ]
  ];
  recover = λ h s. s - 10 * h;
  sort = λ as'. as';
}

abbrev yes : ℕ → ViewData
yes a = vote (hash_of 50) (some (500 + a))

-- What each member has sent of the votes of 1 and 2.
abbrev seen : Views
seen = let row = (1, yes 1) ∷ (2, yes 2) ∷ [] in (1, row) ∷ (2, row) ∷ (3, row) ∷ []

abbrev proposed : Block
proposed = record { hash = 50; signatures = [] }

abbrev voting : Bft
voting = record {
  concilium = in_turn;
  wallet = 1;
  addresses = 1 ∷ 2 ∷ 3 ∷ [];
  state = vote_block;
  views = (1, []) ∷ (2, []) ∷ (3, []) ∷ [];
  prev_views = some seen;
  block = some proposed;
  patch = some 4;
  last_block_time = 1000;
  emitted = [];
}

abbrev waiting : Bft
waiting = record voting { state = block_wait; block = none }

abbrev committed : Bft
committed = record voting {
  state = commit;
  block = some (record { hash = 50; signatures = 501 ∷ 502 ∷ [] });
  emitted = commit_block (record { hash = 50; signatures = 501 ∷ 502 ∷ [] }) (some 4) ∷ [];
}

majority-support_example :
    (w : ℕ) × (support env in_turn
        (1 ∷ 2 ∷ 3 ∷ [])
        (some (yes 1) ∷ some (yes 2) ∷ none ∷ [])
        (calc_data_hash env (yes 1))
      ≡ ok w)
    × (Concilium.get_quorum in_turn ≤ w)
unfolding majority tally best calc_data_hash get set Concilium.get_quorum RoundRobin.get_quorum
    Concilium.get_witness_weight RoundRobin.get_witness_weight
majority-support_example =
    majority-support env in_turn (1 ∷ 2 ∷ 3 ∷ []) (some (yes 1) ∷ some (yes 2) ∷ none ∷ []) (yes 1)
      refl

get_signatures-quorum_example :
    (signers : List ℕ) × (w : ℕ) × SignedBy env 50 signers (501 ∷ 502 ∷ [])
    × Sublist signers (1 ∷ 2 ∷ 3 ∷ [])
    × (sum_weights in_turn signers ≡ ok w)
    × (Concilium.get_quorum in_turn ≤ w)
    × (0 < Concilium.get_quorum in_turn)
unfolding get_signatures_for_block gather vote_signature witness_data row_of majority tally best
    calc_data_hash get set Concilium.get_quorum RoundRobin.get_quorum Concilium.get_witness_weight
    RoundRobin.get_witness_weight
get_signatures-quorum_example = get_signatures-quorum env voting proposed (501 ∷ 502 ∷ []) refl refl

vote_agreed-outcome_example :
    Committed env voting (hash_of 50) committed
    ⊎ (Waits voting (hash_of 50) committed
        ⊎ (GaveUp voting committed × NoBlock env voting (hash_of 50)))
unfolding vote_agreed usable emit get_signatures_for_block gather vote_signature witness_data row_of
    majority tally best calc_data_hash get set Concilium.get_quorum RoundRobin.get_quorum
    Concilium.get_witness_weight RoundRobin.get_witness_weight
vote_agreed-outcome_example = vote_agreed-outcome env voting committed (hash_of 50) refl

timeout-Restarted_example :
    ((b' : Bft) × (timeout voting ≡ ok b') × Restarted b')
    ⊎ ((timeout voting ≡ err not_supposed) × Undrawn in_turn)
timeout-Restarted_example = timeout-Restarted voting in_turn-IsReady

block_in_wait_example :
    ((b' : Bft) × (process_valid_block waiting proposed 4 2000 ≡ ok b')
      × (b'.state ≡ vote_block)
      × (b'.block ≡ some proposed)
      × (b'.last_block_time ≡ 2000)
      × (b'.emitted ≡ send_accept 50 ∷ []))
    × (((b' : Bft) × (n : ℕ) × (invalid_block waiting ≡ ok b')
          × Restarted b'
          × (b'.emitted ≡ send_next_round n ∷ send_reject ∷ []))
        ⊎ ((invalid_block waiting ≡ err not_supposed) × Undrawn in_turn))
block_in_wait_example = block_in_wait waiting proposed 4 2000 in_turn-IsReady refl

majority_of_quorum_example :
    (v : ViewData) × (majority env in_turn
        (1 ∷ 2 ∷ 3 ∷ [])
        (some (yes 1) ∷ some (yes 2) ∷ none ∷ [])
      ≡ ok (some v))
    × (calc_data_hash env v ≡ 103)
unfolding calc_data_hash sum_weights Concilium.get_quorum RoundRobin.get_quorum
    Concilium.get_witness_weight RoundRobin.get_witness_weight
majority_of_quorum_example =
    majority_of_quorum env taking_turns (1 ∷ 2 ∷ 3 ∷ []) (some (yes 1) ∷ some (yes 2) ∷ none ∷ [])
      103 2 (omega arith) refl (omega arith)
