-- ===== src/Base/Throws.antt =====
-- A JavaScript call returns or throws. The model keeps one error for each `throw` or `assert`.
use mathlib.Core.Path.{◌≡◌, refl}
use mathlib.Core.Bool.{Bool, true, false}
use mathlib.Core.Option.{Option, none, some}
use mathlib.Core.Logic.{◌⊎◌, inl, inr}

pub data Error : Type 0 where
  already_added already_deleted already_spent integrity : Error
  unexpected_fork double_spend different_conciliums tx_collision : Error
  failed_tx less_coins_used concilium_specified : Error
  type_error : Error
  not_initialised round_exceeded not_supposed not_found : Error
  wrong_address no_block zero_quorum no_views : Error
  already_in_mempool no_tx : Error
  no_address no_contract_concilium insufficient_funds unexpected_situation : Error
  oversize already_signed bad_index signing_chosen bad_inputs bad_outputs bad_proofs : Error
  not_coinbase bad_amount block_final not_final empty_block bad_parents bad_signatures : Error
  bad_merkle bad_height out_of_coins claim_failed no_utxo recursion too_many_coins : Error
  unknown_concilium bad_signature few_signatures wrong_concilium small_fee contract_exists : Error
  bad_parent missed_block not_positive overspent no_contract no_method : Error
  not_aligned already_saved no_index not_in_wallet already_in_wallet unknown_block : Error
  bad_block no_fee no_vertex not_witness no_parents already_exists : Error

pub data Result {ℓ} (A : Type ℓ) : Type ℓ where
  err : Error → Result A
  ok : A → Result A

-- What is read from a place that may hold nothing.
abbrev pub or_throw {ℓ} : {A : Type ℓ} → Option A → Error → Result A
or_throw none thrown = err thrown
or_throw (some a) thrown = ok a

infixl 5 ◌>>=◌ ◌>>◌
abbrev pub ◌>>=◌ {ℓ κ} : {A : Type ℓ} {B : Type κ} → Result A → (A → Result B) → Result B
err thrown >>= next = err thrown
ok returned >>= next = next returned

-- `assert(b)`
abbrev pub guard : Bool → Error → Result (Unit {0})
guard false thrown = err thrown
guard true thrown = ok tt

abbrev pub ◌>>◌ {ℓ} : {B : Type ℓ} → Result (Unit {0}) → Result B → Result B
call >> next = call >>= λ _. next

pub Result-cases {ℓ} :
    {A : Type ℓ} (r : Result A) → ((a : A) × (r ≡ ok a)) ⊎ ((e : Error) × (r ≡ err e))
Result-cases (ok a) = inl (a, refl)
Result-cases (err e) = inr (e, refl)

-- A call that returns went through each of its steps.
pub >>=-eq-ok {ℓ κ} :
    {A : Type ℓ} {B : Type κ} (call : Result A) (next : A → Result B) {end : B}
    → (call >>= next) ≡ ok end
    → (middle : A) × (call ≡ ok middle) × (next middle ≡ ok end)
>>=-eq-ok (err thrown) next h = cc
>>=-eq-ok (ok middle) next h = (middle, refl, h)
