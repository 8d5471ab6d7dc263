-- ===== src/Block/Types.antt =====
-- The data of structures/block.js.
use cil_core.Base.{ℕ, Bool, Option, List}
use cil_core.Transaction.Types.{Transaction}

-- `merkle_root` is missing until it is computed.
pub record Header : Type 0 where
  pub parent_hashes : List ℕ
  pub merkle_root : Option ℕ
  pub concilium_id : ℕ
  pub timestamp : ℕ
  pub version : ℕ
  pub height : ℕ

pub record Block : Type 0 where
  pub header : Header
  pub open header use *
  pub txns : List Transaction
  pub signatures : List ℕ
  pub final : Bool
  pub building : Bool
  pub hash_cache : Option ℕ

-- The hash of an encoded header, `merkletreejs`, `Crypto.randomBytes(20)`, and constants.
pub record BlockEnv : Type 0 where
  pub hash_header : Header → ℕ
  pub merkle : List ℕ → ℕ
  pub random_address : ℕ
  pub genesis_block : ℕ
  pub dev_foundation_address : ℕ
