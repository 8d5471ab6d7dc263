-- ===== src/Mempool/Types.antt =====
-- The data of node/mempool.js.
use cil_core.Base.{ℕ, ◌≡◌, Bool, Option, List, Result, ok}
use cil_core.JsMap.{Map}
use cil_core.Patch.{PatchDb}

-- What the pool reads of a Transaction: its hash and the concilium it is for.
pub record Tx : Type 0 where
  pub hash : ℕ
  pub concilium_id : ℕ

pub record Entry : Type 0 where
  pub tx : Tx
  pub arrived : ℕ

-- A local transaction with the patch its execution gave, if it was executed.
pub record LocalEntry : Type 0 where
  pub tx : Tx
  pub patch : Option PatchDb

-- `MEMPOOL_TX_QTY`, `MEMPOOL_TX_LIFETIME` and `MEMPOOL_BAD_TX_CACHE`.
pub record Limits : Type 0 where
  pub tx_qty : ℕ
  pub tx_lifetime : ℕ
  pub bad_tx_cache : ℕ

-- `tx.encode()` and `new Transaction(buffer)`, which may throw.
pub record TxCodec : Type 0 where
  pub encode : Tx → List ℕ
  pub decode : List ℕ → Result Tx
  pub decode-encode : (tx : Tx) → decode (encode tx) ≡ ok tx

-- `file` is what the file of local transactions holds, by hash, once it exists.
pub record Mempool : Type 0 where
  pub concilium_txns : Map (Map Entry)
  pub local_txns : Map LocalEntry
  pub bad_txns : Map ℕ
  pub preferred : List ℕ
  pub has_file : Bool
  pub file : Option (Map (List ℕ))
