-- ===== src/Bft/Types.antt =====
-- The data of node/bftConsensus.js: what witnesses send, what a node has seen, and its state.
use cil_core.Base.{ℕ, Bool, true, false, Option, List}
use cil_core.JsMap.{Map}
use cil_core.Conciliums.Concilium.{Concilium}

-- A vote is for a block's hash, or the bytes 'reject'.
pub data BlockHash : Type 0 where
  reject : BlockHash
  hash_of : ℕ → BlockHash

-- `{state, ...content}` of MsgWitnessNextRound and MsgWitnessBlockVote; a vote may carry a signature.
pub data ViewData : Type 0 where
  next_round_view : ℕ → ViewData
  vote : BlockHash → Option ℕ → ViewData

-- `consensusStates` of config/prod.conf.js.
pub data State : Type 0 where
  round_change block_wait vote_block commit : State

abbrev pub state_equal : State → State → Bool
state_equal round_change round_change = true
state_equal block_wait block_wait = true
state_equal vote_block vote_block = true
state_equal commit commit = true
state_equal _ _ = false

pub record Block : Type 0 where
  pub hash : ℕ
  pub signatures : List ℕ

pub data Event : Type 0 where
  send_next_round send_accept : ℕ → Event
  send_reject create_block : Event
  commit_block : Block → Option ℕ → Event
  set_timer : State → Event

-- `_views[addr][addrI]`
abbrev pub Views : Type 0
Views = Map (Map ViewData)

-- What the code takes from Crypto and from JavaScript: the hash of the JSON text of a view, the
-- address that signed, and the sorting of addresses.
pub record Env : Type 0 where
  pub create_hash : ViewData → ℕ
  pub recover : ℕ → ℕ → ℕ
  pub sort : List ℕ → List ℕ

pub record Bft : Type 0 where
  pub concilium : Concilium
  pub wallet : ℕ
  pub addresses : List ℕ
  pub state : State
  pub views : Views
  pub prev_views : Option Views
  pub block : Option Block
  pub patch : Option ℕ
  pub last_block_time : ℕ
  pub emitted : List Event

-- A message after its signatures are checked: who sent it, whose message it is (another's, where it
-- was exposed), and what it says, if it is a round or a vote.
pub record WitnessMessage : Type 0 where
  pub sender : ℕ
  pub author : ℕ
  pub content : Option ViewData
