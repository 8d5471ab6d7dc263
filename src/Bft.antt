-- ===== src/Bft.antt =====
-- node/bftConsensus.js: how the witnesses of a concilium agree on a round and on a block. An emitted
-- event or a timer call is appended to a log. Hashing, key recovery and sorting are parameters, and
-- the clock is an argument.
pub mod Types
pub mod Majority
pub mod Gather
pub mod Votes
pub mod Agreement
pub mod Signatures
pub mod Commit
pub mod Timeouts
use cil_core.Base.{
  ℕ, zero, suc, ◌+◌, ◌-◌, ◌*◌, ◌/◌, ◌%◌, ◌≤◌, ◌<◌, ◌≡◌, refl, sym, ap, ◌∙◌, subst, ◌≢◌, ◌↔◌, ◌⊎◌,
  inl, inr, Bool, true, false, ◌&&◌, ◌||◌, not, Option, none, some, List, [], ◌∷◌, ◌++◌, map, arith,
  ltb, leb, ◌==◌, if◌then◌else◌, eq_of_test, test_self, test_ne, Bool-cases, Option-cases, is_some,
  or_else, length, get_elem?, erase_at, filter, all, length-append, length-filter-le, length-map,
  contains, contains-append, contains-filter, contains-unique, unique_after-Distinct, Distinct,
  unique, unique_after, Error, already_added, already_deleted, already_spent, integrity,
  unexpected_fork, double_spend, different_conciliums, tx_collision, failed_tx, less_coins_used,
  concilium_specified, type_error, not_initialised, round_exceeded, not_supposed, not_found,
  wrong_address, no_block, zero_quorum, no_views, already_in_mempool, no_tx, no_address,
  no_contract_concilium, insufficient_funds, unexpected_situation, Result, ok, err, ◌>>=◌, ◌>>◌,
  guard, or_throw, Result-cases, >>=-eq-ok,
}
use cil_core.JsMap.{Map, get, set}
use cil_core.Conciliums.Concilium
use cil_core.Conciliums.Concilium.{Concilium}
use Types.{
  BlockHash, reject, hash_of, ViewData, next_round_view, vote, State, round_change, block_wait,
  vote_block, commit, state_equal, Block, Event, send_next_round, send_accept, send_reject,
  create_block, commit_block, set_timer, Views, Env, Bft, WitnessMessage,
}
use Gather.{get_signatures_for_block}
use Majority.{majority, row_of, witness_data}

unfoldable pub emit : Event → Bft → Bft
emit e b = record b { emitted = b.emitted ++ e ∷ [] }

-- `_resetState`'s empty rows.
unfoldable pub empty_views : List ℕ → Views
empty_views [] = []
empty_views (a ∷ rest) = set (empty_views rest) a []

unfoldable pub reset_state : Bft → Bft
unfolding empty_views
reset_state b = record b { prev_views = some b.views; views = empty_views b.addresses }

unfoldable pub create : Env → Concilium → ℕ → ℕ → Result Bft
unfolding empty_views
create env concilium wallet now = do
  let addresses = env.sort (Concilium.get_addresses concilium)
  c ← Concilium.init_rounds concilium
  ok (record {
    concilium = c;
    wallet = wallet;
    addresses = addresses;
    state = round_change;
    views = empty_views addresses;
    prev_views = none;
    block = none;
    patch = none;
    last_block_time = now;
    emitted = set_timer round_change ∷ [];
  })

unfoldable pub check_addresses : Bft → ℕ → Bool
check_addresses b a = contains b.addresses a

unfoldable pub add_view : Bft → ℕ → ℕ → ViewData → Result Bft
add_view b addr addr_i content = do
  row ← or_throw (get b.views addr) type_error
  ok (record b { views = set b.views addr (set row addr_i content) })

-- The `map` of `runConsensus`: for each member, what most of the others saw of it.
unfoldable pub witness_values : Env → Bft → Views → List ℕ → Result (List (Option ViewData))
witness_values env b views [] = ok []
witness_values env b views (a ∷ rest) = do
  seen ← witness_data views b.addresses a
  v ← majority env b.concilium b.addresses seen
  vs ← witness_values env b views rest
  ok (v ∷ vs)

unfoldable pub run_consensus : Env → Bft → Result (Option ViewData)
unfolding witness_values
run_consensus env b =
    let single : Result (Option ViewData) = (do
      row ← or_throw (get b.views b.wallet) type_error
      ok (get row b.wallet)) in
    let many : Result (Option ViewData) = (do
      values ← witness_values env b b.views b.addresses
      majority env b.concilium b.addresses values) in
    if Concilium.get_members_count b.concilium == 1 && contains b.addresses b.wallet
    then single
    else many

-- `_nextRound`: the block is dropped, and the round is advanced or the sequence started again.
unfoldable pub next_round : Bft → Bool → Result Bft
unfolding emit
next_round b advance = do
  (n, c) ←
      if advance
      then Concilium.next_round b.concilium
      else (do c ← Concilium.init_rounds b.concilium; n ← Concilium.get_round c; ok (n, c))
  ok (emit (send_next_round n) (record b { concilium = c; block = none; state = round_change }))

unfoldable pub should_publish : Bft → Result Bool
should_publish b = do p ← Concilium.get_proposer_address b.concilium; ok (p == b.wallet)

-- `_roundChangeHandler` after a consensus on round `n`.
unfoldable pub round_agreed : Bft → ℕ → Result Bft
unfolding emit should_publish
round_agreed b n = do
  c ← Concilium.adjust_round b.concilium n
  let b' : Bft = record b { concilium = c; state = block_wait }
  mine ← should_publish b'
  ok (if mine then emit create_block b' else b')

unfoldable pub block_state_handler : Bft → Bool → Result Bft
unfolding next_round
block_state_handler b true = ok (record b { state = vote_block })
block_state_handler b false = next_round b true

-- `!arrSignatures || !arrSignatures.length`
unfoldable pub usable : Option (List ℕ) → Option (List ℕ)
usable none = none
usable (some []) = none
usable (some (s ∷ ss)) = some (s ∷ ss)

-- `_voteStateHandler` after a consensus on a vote.
unfoldable pub vote_agreed : Env → Bft → BlockHash → Result Bft
unfolding next_round emit usable
vote_agreed env b reject = next_round b true
vote_agreed env b (hash_of h) =
    let b' : Bft = record b { state = commit } in
    elim b.block [
      | none ↦ ok b'
      | some blk ↦
          let close : Result Bft = (do
            sigs ← get_signatures_for_block env b'
            elim (usable sigs) [
              | none ↦ next_round b' true
              | some ss ↦
                  let signed : Block = record blk { signatures = ss } in
                  ok (emit (commit_block signed b.patch) (record b' { block = some signed }))
            ]) in
          if h == blk.hash then close else ok b'
    ]

-- `_stateChange` when the timer fires.
unfoldable pub timeout : Bft → Result Bft
timeout b = do
  b' ← elim b.state [
    | round_change ↦ next_round b false
    | block_wait ↦ block_state_handler b false
    | vote_block ↦ next_round b true
    | commit ↦ next_round b true
  ]
  ok (if state_equal b.state b'.state then b' else emit (set_timer b'.state) b')

-- `_stateChange` with a consensus: the state is the one that the agreed message belongs to.
unfoldable pub consensus_reached : Env → Bft → ViewData → Result Bft
unfolding round_agreed vote_agreed
consensus_reached env b (next_round_view n) = do
  let b1 = emit (set_timer round_change) (record b { state = round_change })
  b2 ← round_agreed b1 n
  ok (if state_equal round_change b2.state then b2 else emit (set_timer b2.state) b2)
consensus_reached env b (vote h s) = do
  let b1 = emit (set_timer vote_block) (record b { state = vote_block })
  b2 ← vote_agreed env b1 h
  ok (if state_equal vote_block b2.state then b2 else emit (set_timer b2.state) b2)

-- A message that is neither a round nor a vote is passed over.
unfoldable pub process_message : Env → Bft → WitnessMessage → Result Bft
unfolding check_addresses add_view run_consensus reset_state consensus_reached
process_message env b msg = elim msg.content [
  | none ↦ ok b
  | some content ↦ do
    guard (check_addresses b msg.sender && check_addresses b msg.author) wrong_address
    b1 ← add_view b msg.sender msg.author content
    value ← run_consensus env b1
    elim value [ none ↦ ok b1 | some v ↦ consensus_reached env (reset_state b1) v ]
]

unfoldable pub process_valid_block : Bft → Block → ℕ → ℕ → Result Bft
unfolding emit block_state_handler
process_valid_block b blk patch now =
    let run : Result Bft = (do
      b' ←
          block_state_handler
            (record b { block = some blk; patch = some patch; last_block_time = now }) true
      ok (emit (send_accept blk.hash) b')) in
    if state_equal b.state block_wait then run else ok b

unfoldable pub invalid_block : Bft → Result Bft
unfolding emit block_state_handler
invalid_block b =
    let run : Result Bft = (do
      b' ← block_state_handler (record b { block = none }) false
      ok (emit send_reject b')) in
    if state_equal b.state block_wait then run else ok b

-- `WITNESS_HOLDOFF` of config/prod.conf.js.
abbrev witness_holdoff : ℕ
witness_holdoff = 120000

unfoldable pub time_for_witness_block : Bft → ℕ → Bool
time_for_witness_block b now = ltb (b.last_block_time + witness_holdoff) now

unfoldable pub set_round_seed : Bft → ℕ → Bft
set_round_seed b seed = record b { concilium = Concilium.change_seed b.concilium seed }
