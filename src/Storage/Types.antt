-- ===== src/Storage/Types.antt =====
-- The data of storage/persistentStorage.js.
use cil_core.Base.{ℕ, ◌≡◌, Bool, Option, List, none, some}
use cil_core.JsMap.{Map}
use cil_core.Patch.{Codec}
use cil_core.Block.Types.{Header, BlockEnv}
use cil_core.BlockInfo.{BlockInfo}
use cil_core.Transaction.Types.{Transaction}
use cil_core.Conciliums.Concilium.{Concilium}

-- A concilium with what its definition sets beside its members: the fees, `none` where they are
-- not set or 0, and whether it is enabled.
pub record Settings : Type 0 where
  pub fee_tx_size : Option ℕ
  pub fee_contract_creation : Option ℕ
  pub fee_contract_invocation : Option ℕ
  pub fee_internal_tx : Option ℕ
  pub fee_storage : Option ℕ
  pub enabled : Bool

pub record Definition : Type 0 where
  pub settings : Settings
  pub concilium : Concilium

-- The databases, and what is cached of them. `definitions` is `_arrConciliumDefinition`.
pub record Storage : Type 0 where
  pub utxos : Map (List ℕ)
  pub infos : Map (List ℕ)
  pub contracts : Map (List ℕ)
  pub receipts : Map (List ℕ)
  pub blocks : Map (List ℕ)
  pub tx_index : Map ℕ
  pub internal_index : Map ℕ
  pub last_applied : List ℕ
  pub pending : List ℕ
  pub banned : List ℕ
  pub build_tx_index : Bool
  pub definitions : Option (List Definition)

-- The generated codecs, `parse_definitions`, which makes the concilia of the data of the contract
-- that defines them, and constants.
pub record StorageEnv : Type 0 where
  pub codec : Codec
  pub block_env : BlockEnv
  pub encode_info : BlockInfo → List ℕ
  pub decode_info : List ℕ → BlockInfo
  pub info_round : (bi : BlockInfo) → decode_info (encode_info bi) ≡ bi
  pub encode_block : Header → List Transaction → List ℕ → List ℕ
  pub decode_block : List ℕ → Header × List Transaction × List ℕ
  pub block_round :
      (h : Header) (txns : List Transaction) (sigs : List ℕ)
      → decode_block (encode_block h txns sigs) ≡ (h, txns, sigs)
  pub parse_definitions : ℕ → List Definition
  pub definition_contract : Option ℕ
  pub height_fork_serializer_fix3 : ℕ

-- `a || b` for objects.
abbrev pub or_default {ℓ} : {A : Type ℓ} → Option A → A → A
or_default none d = d
or_default (some a) d = a
