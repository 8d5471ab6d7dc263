-- ===== src/App/Types.antt =====
-- The data of node/app.js. JavaScript values are numbers. What the sandbox of vm2 does when it runs a
-- contract is a script of the calls that the contract makes.
use cil_core.Base.{ℕ, Bool, Option, List, Error, Result}
use cil_core.Base.Int.{ℤ}
use cil_core.Contract.{Contract}
use cil_core.Patch.{PatchDb}

-- The fees in `_objFees`.
pub record Fees : Type 0 where
  pub contract_creation : ℕ
  pub contract_invocation : ℕ
  pub internal_tx : ℕ

-- A contract that is being run. A proxied one uses the balance of the one below it.
pub record Frame : Type 0 where
  pub contract : Contract
  pub proxied : Bool

-- `frames` is `_arrContracts`, and `data_sizes` is `_arrContractDataSize`, the innermost call first.
pub record App : Type 0 where
  pub fees : Fees
  pub initial_coins : ℕ
  pub coins_limit : ℕ
  pub data_delta : ℤ
  pub data_sizes : Option (List ℕ)
  pub frames : List (Option Frame)

pub record BlockInfoForCode : Type 0 where
  pub block_hash : ℕ
  pub timestamp : ℕ
  pub height : ℕ

-- The global variables of a contract. The caller is missing where no signature names one.
pub record Environment : Type 0 where
  pub contract_tx : ℕ
  pub caller_address : Option ℕ
  pub value : ℕ
  pub contract_addr : ℕ
  pub balance : ℕ
  pub block : Option BlockInfoForCode

-- What code is bound to: global variables, and the data it may change.
pub record Context : Type 0 where
  pub environment : Environment
  pub contract_data : ℕ

-- An empty method name is `none`.
pub record Invocation : Type 0 where
  pub method : Option ℕ
  pub arguments : List ℕ

-- The arguments of `call`, and of `delegatecall`.
pub record Call : Type 0 where
  pub address : ℕ
  pub invocation : Invocation
  pub coins_to_pass : Option ℤ
  pub delegate : Bool

-- One run of a method: it returns or throws, leaving the data of its context, or it asks for a
-- transfer or a call, and goes on with the outcome, which it may have caught.
pub data Script : Type 0 where
  returns : (value left : ℕ) → Script
  throws : (thrown : Error) (left : ℕ) → Script
  sends : (address amount : ℕ) → (Result (Unit {0}) → Script) → Script
  calls : Call → (left : ℕ) → (Result ℕ → ℕ → Script) → Script

-- The sandbox. `construct` gives the data and the code of a new contract.
pub record Vm : Type 0 where
  pub construct : ℕ → Environment → Result (ℕ × ℕ)
  pub has_method : ℕ → ℕ → Bool
  pub default_method : ℕ
  pub run : ℕ → ℕ → List ℕ → Context → Script

-- What a running contract can change.
pub record Exec : Type 0 where
  pub app : App
  pub patch : PatchDb

-- The end of a run: what it returned, the data of its context and the contract it ran.
pub record Ran : Type 0 where
  pub outcome : Result ℕ
  pub left : ℕ
  pub contract : Contract
  pub exec : Exec
