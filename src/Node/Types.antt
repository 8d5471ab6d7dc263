-- ===== src/Node/Types.antt =====
-- What node/node.js takes from elsewhere, and the state that its methods on transactions read.
use cil_core.Base.{ℕ, Option, Result, Error}
use cil_core.App.Types.{Vm, Invocation, BlockInfoForCode}
use cil_core.Transaction.Types.{TxEnv}
use cil_core.Storage.Types.{StorageEnv, Storage}

-- Codecs, hashes, signatures, the sandbox, `JSON.parse`, and constants. `nesting` bounds how deep
-- contracts call each other, as the stack of JavaScript does.
pub record NodeEnv : Type 0 where
  pub storage_env : StorageEnv
  pub tx_env : TxEnv
  pub vm : Vm
  pub internal_hash : ℕ → ℕ → ℕ
  pub address_of_hash : ℕ → ℕ
  pub parse_invocation : ℕ → Result Invocation
  pub message_of : Error → ℕ
  pub nesting : ℕ
  pub tx_fee : ℕ
  pub contract_creation_fee : ℕ
  pub contract_invocation_fee : ℕ
  pub internal_tx_fee : ℕ
  pub storage_per_byte_fee : ℕ
  pub height_fork_serializer : ℕ
  pub height_fork_serializer_fix2 : ℕ
  pub height_fork_serializer_fix3 : ℕ

-- The storage, and `_processedBlock`.
pub record NodeState : Type 0 where
  pub storage : Storage
  pub processed_block : Option BlockInfoForCode
