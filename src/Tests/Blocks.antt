-- ===== src/Tests/Blocks.antt =====
-- structures/block.js, storage/persistentStorage.js, node/pendingBlocksManager.js and the checks of a
-- block in node/node.js, on one block with a payment.
use cil_core.Base.{
  ℕ, ◌≤◌, ◌<◌, ◌≡◌, refl, ◌⊎◌, true, false, Option, none, some, List, [], ◌∷◌, ◌++◌, arith, ◌==◌,
  if◌then◌else◌, ok,
}
use cil_core.JsMap
use cil_core.Patch
use cil_core.Patch.{PatchDb}
use cil_core.Transaction
use cil_core.Transaction.Types.{Transaction}
use cil_core.Transaction.{verify_coinbase}
use cil_core.Block
use cil_core.Block.Types.{Header, Block}
use cil_core.Block.{finish, add_tx, add_witness_signatures}
use cil_core.Block.Laws.{finish-verify}
use cil_core.BlockInfo
use cil_core.BlockInfo.{BlockInfo}
use cil_core.Conciliums.Concilium
use cil_core.Conciliums.RoundRobin
use cil_core.Storage
use cil_core.Storage.Types.{Storage}
use cil_core.Storage.Laws.{IsApplicable, apply_all, replay, stored, apply_all-replay}
use cil_core.Pending.Types.{Entry}
use cil_core.Pending.{find_top_stable_for_path, merge_gathering, merge_patches}
use cil_core.Pending.Stable.{
  witnesses_on, find_top_stable_for_path-witnesses_on, merge_gathering-merge_patches,
}
use cil_core.Node.Blocks.{check_height, verify_signatures_of}
use cil_core.Node.Blocks
use cil_core.Node.Checks.{Weighs, verify_signatures-Weighs, repeat, verify_signatures-repeat}
use cil_core.Tests.Codecs.{codec}
use cil_core.Tests.Envs.{tx_env, block_env, storage_env}
use cil_core.Tests.Concilia.{in_turn}
use cil_core.Tests.Patches.{left, left-IsValid, right, right-IsValid}
use cil_core.Tests.Payments.{payment}

abbrev pub header_at : ℕ → List ℕ → ℕ → Header
header_at id parents height = record {
  parent_hashes = parents;
  merkle_root = none;
  concilium_id = id;
  timestamp = 0;
  version = 1;
  height = height;
}

abbrev draft : Block
draft = record {
  header = header_at 1 (70 ∷ []) 4;
  txns = payment ∷ [];
  signatures = [];
  final = false;
  building = true;
  hash_cache = none;
}

abbrev coinbase : Transaction
coinbase = record {
  payload = record {
    version = 1;
    concilium_id = 1;
    ins = record { tx_hash = 0; n_tx_output = 0 } ∷ [];
    outs =
        record { amount = 1; receiver_addr = 6; contract_code = none; addr_change_receiver = none }
        ∷ record {
          amount = 0;
          receiver_addr = 77;
          contract_code = none;
          addr_change_receiver = none;
        }
        ∷ [];
  };
  claim_proofs = [];
  tx_signature = none;
}

abbrev pub complete : Block
complete = record draft {
  header = record (header_at 1 (70 ∷ []) 4) { merkle_root = some 2; timestamp = 50 };
  txns = coinbase ∷ payment ∷ [];
  building = false;
  final = true;
}

finish-verify_example :
    (Block.verify block_env tx_env complete false ≡ ok tt)
    × (Block.verify block_env tx_env (add_witness_signatures complete (33 ∷ [])) true ≡ ok tt)
    × (n : ℕ) × (u v : Block) × (Block.hash block_env tx_env complete ≡ ok (n, u))
    × (Block.hash block_env tx_env (add_witness_signatures complete (33 ∷ [])) ≡ ok (n, v))
unfolding finish Transaction.create_coinbase Transaction.create Transaction.add_input
    Transaction.check_done Transaction.get_tx_signature Transaction.set_concilium_id
    Transaction.add_receiver Transaction.add_output Block.pay_fees Block.fee_dev_foundation
    Block.dev_share Block.build_tx_tree Block.get_tx_hashes
finish-verify_example =
    finish-verify block_env tx_env draft complete 1 6 1000 50 33 [] refl (omega arith) refl

abbrev pub no_data : Storage
no_data = record {
  utxos = [];
  infos = [];
  contracts = [];
  receipts = [];
  blocks = [];
  tx_index = [];
  internal_index = [];
  last_applied = [];
  pending = [];
  banned = [];
  build_tx_index = false;
  definitions = none;
}

abbrev hashed : Block
hashed = record complete { hash_cache = some 5004 }

-- The information that a node gives with a block that is not executed yet.
abbrev in_flight : BlockInfo
in_flight = record { header = hashed.header; flags = 2 }

abbrev entry : PatchDb → ℕ → Entry
entry p id = record { patch = p; block_header = header_at id [] 1; is_empty = false }

-- A path of three blocks of two concilia, of which the graph does not hold the second.
abbrev held : ℕ → Option Entry
held h = if h == 10 then some (entry left 1) else if h == 12 then some (entry right 2) else none

find_top_stable_for_path-witnesses_on_example :
    ((find_top_stable_for_path held 2 (10 ∷ 11 ∷ 12 ∷ []) ≡ none)
      × (witnesses_on held (10 ∷ 11 ∷ 12 ∷ []) < 2))
    ⊎ ((above rest : List ℕ) × (v : ℕ) × (find_top_stable_for_path held 2 (10 ∷ 11 ∷ 12 ∷ [])
          ≡ some v)
        × (10 ∷ 11 ∷ 12 ∷ [] ≡ above ++ v ∷ rest)
        × (witnesses_on held above < 2)
        × (2 ≤ witnesses_on held (above ++ v ∷ [])))
find_top_stable_for_path-witnesses_on_example =
    find_top_stable_for_path-witnesses_on held 2 (10 ∷ 11 ∷ 12 ∷ []) (omega arith)

merge_gathering-merge_patches_example :
    merge_patches codec held (merge_gathering codec held (10 ∷ 12 ∷ []) Patch.empty []).1
    ≡ ok (merge_gathering codec held (10 ∷ 12 ∷ []) Patch.empty []).0
merge_gathering-merge_patches_example = merge_gathering-merge_patches codec held (10 ∷ 12 ∷ [])

-- The parent of the block.
abbrev parent : ℕ → Option BlockInfo
parent h = if h == 70 then some (record { header = header_at 1 [] 3; flags = 4 }) else none

-- Signatures of the members 1 and 2 of three, for the hash 5004.
verify_signatures-Weighs_example :
    (w : ℕ) × Weighs tx_env in_turn 5004 (5005 ∷ 5006 ∷ []) w × (Concilium.get_quorum in_turn ≤ w)
unfolding verify_signatures_of Blocks.gather_weight Concilium.get_addresses
    Concilium.get_witness_weight Concilium.get_quorum RoundRobin.get_quorum
    RoundRobin.get_witness_weight
verify_signatures-Weighs_example =
    verify_signatures-Weighs tx_env in_turn 5004 (5005 ∷ 5006 ∷ []) refl

verify_signatures-repeat_example :
    verify_signatures_of tx_env in_turn 5004 (repeat (Concilium.get_quorum in_turn) 5005) ≡ ok tt
unfolding Concilium.get_addresses Concilium.get_witness_weight RoundRobin.get_witness_weight
verify_signatures-repeat_example =
    verify_signatures-repeat tx_env in_turn 5004 5005 1 0 refl refl refl

left-IsApplicable : IsApplicable storage_env 4 left
unfolding JsMap.keys Storage.write_contracts
left-IsApplicable = record {
  valid = left-IsValid;
  distinct = (refl, tt);
  encodes = λ db. (db, refl);
}

right-IsApplicable : IsApplicable storage_env 5 right
unfolding JsMap.keys Storage.write_contracts
right-IsApplicable = record {
  valid = right-IsValid;
  distinct = (refl, tt);
  encodes = λ db. (db, refl);
}

apply_all-replay_example :
    (s' : Storage) × (apply_all storage_env no_data ((4, left) ∷ (5, right) ∷ []) ≡ ok s')
    × ((h i : ℕ)
        → stored storage_env s' h i
          ≡ replay ((4, left) ∷ (5, right) ∷ []) (stored storage_env no_data) h i)
apply_all-replay_example =
    apply_all-replay storage_env no_data ((4, left) ∷ (5, right) ∷ [])
      (left-IsApplicable, (right-IsApplicable, tt))
