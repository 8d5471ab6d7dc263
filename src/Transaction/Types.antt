-- ===== src/Transaction/Types.antt =====
-- The data of structures/transaction.js.
use cil_core.Base.{ℕ, ◌≡◌, Option, List, Result, ok}

pub record Input : Type 0 where
  pub tx_hash : ℕ
  pub n_tx_output : ℕ

pub record Output : Type 0 where
  pub amount : ℕ
  pub receiver_addr : ℕ
  pub contract_code : Option ℕ
  pub addr_change_receiver : Option ℕ

pub record Payload : Type 0 where
  pub version : ℕ
  pub concilium_id : ℕ
  pub ins : List Input
  pub outs : List Output

-- A claim proof that was not given yet, before one that was, is a hole of the array.
pub record Transaction : Type 0 where
  pub payload : Payload
  pub open payload use *
  pub claim_proofs : List (Option ℕ)
  pub tx_signature : Option ℕ

-- What the code takes from Crypto and from protobuf. `recover` is the address whose key signed a
-- hash, if one can be recovered.
pub record TxEnv : Type 0 where
  pub hash_payload : Payload → ℕ
  pub sign : ℕ → ℕ → ℕ
  pub recover : ℕ → ℕ → Option ℕ
  pub addr_contract_creation : ℕ
  pub encode : Transaction → List ℕ
  pub decode : List ℕ → Result Transaction
  pub decode-encode : (tx : Transaction) → decode (encode tx) ≡ ok tx
