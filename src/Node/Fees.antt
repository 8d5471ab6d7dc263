-- ===== src/Node/Fees.antt =====
-- node/node.js: the fees of a transaction, and the forks of the serializer.
use cil_core.Base.{
  ℕ, ◌*◌, ◌/◌, Bool, true, Option, none, some, ltb, leb, ◌==◌, if◌then◌else◌, Result, ok, ◌>>=◌,
}
use cil_core.Storage.Types.{Definition, Settings}
use cil_core.Storage.Definitions.{get_concilium_by_id}
use cil_core.Transaction
use cil_core.Transaction.Types.{Transaction}
use cil_core.Node.Types.{NodeEnv, NodeState}

-- The definitions that the look-up may cache are read again to the same effect, and not kept.
unfoldable pub definition_of : NodeEnv → NodeState → ℕ → Result (Option Definition)
definition_of env s id = do (d, _) ← get_concilium_by_id env.storage_env s.storage id; ok d

-- `concilium && concilium.getFee…() ? concilium.getFee…() : default`: a fee of 0 is not set.
unfoldable pub choose_fee : (Settings → Option ℕ) → ℕ → Option Definition → ℕ
choose_fee fee otherwise none = otherwise
choose_fee fee otherwise (some d) = elim (fee d.settings) [
  | none ↦ otherwise
  | some n ↦ if n == 0 then otherwise else n
]

unfoldable pub fee_for :
    NodeEnv → NodeState → (Settings → Option ℕ) → ℕ → Transaction → Bool → Result ℕ
unfolding definition_of choose_fee
fee_for env s fee otherwise tx is_genesis =
    let found : Result ℕ = (do
      d ← definition_of env s tx.concilium_id
      ok (choose_fee fee otherwise d)) in
    if is_genesis then ok 0 else found

-- `parseInt(nFeePerKb * 0.11)`
unfoldable pub get_fee_size_per_input : NodeEnv → NodeState → ℕ → Result ℕ
unfolding definition_of choose_fee
get_fee_size_per_input env s id = do
  d ← definition_of env s id
  ok (choose_fee (λ c. c.fee_tx_size) env.tx_fee d * 11 / 100)

-- `parseInt(nFeePerKb * nKbytes)`
unfoldable pub calculate_size_fee : NodeEnv → NodeState → Transaction → Bool → Result ℕ
unfolding fee_for
calculate_size_fee env s tx is_genesis = do
  per_kb ← fee_for env s (λ c. c.fee_tx_size) env.tx_fee tx is_genesis
  ok (per_kb * Transaction.get_size env.tx_env tx / 1024)

unfoldable pub get_fee_contract_creation : NodeEnv → NodeState → Transaction → Bool → Result ℕ
unfolding fee_for
get_fee_contract_creation env s =
    fee_for env s (λ c. c.fee_contract_creation) env.contract_creation_fee

unfoldable pub get_fee_contract_invocation : NodeEnv → NodeState → Transaction → Bool → Result ℕ
unfolding fee_for
get_fee_contract_invocation env s =
    fee_for env s (λ c. c.fee_contract_invocation) env.contract_invocation_fee

unfoldable pub get_fee_internal_tx : NodeEnv → NodeState → Transaction → Bool → Result ℕ
unfolding fee_for
get_fee_internal_tx env s = fee_for env s (λ c. c.fee_internal_tx) env.internal_tx_fee

unfoldable pub get_fee_storage : NodeEnv → NodeState → Transaction → Bool → Result ℕ
unfolding fee_for
get_fee_storage env s = fee_for env s (λ c. c.fee_storage) env.storage_per_byte_fee

-- The height of the block that is processed; without one, the newest rules hold.
unfoldable pub is_time_to_fork_serializer1 : NodeEnv → NodeState → Bool
is_time_to_fork_serializer1 env s = elim s.processed_block [
  | none ↦ true
  | some b ↦ leb env.height_fork_serializer b.height
]

unfoldable pub is_time_to_fork_serializer2 : NodeEnv → NodeState → Bool
is_time_to_fork_serializer2 env s = elim s.processed_block [
  | none ↦ true
  | some b ↦ leb env.height_fork_serializer_fix2 b.height
]

unfoldable pub is_time_to_fork_serializer3 : NodeEnv → NodeState → Bool
is_time_to_fork_serializer3 env s = elim s.processed_block [
  | none ↦ true
  | some b ↦ ltb b.height env.height_fork_serializer_fix3
]
