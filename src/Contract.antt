-- ===== src/Contract.antt =====
-- structures/contract.js: a smart contract's stored fields beside the caches of its decoded data and
-- code. Data objects and code objects are numbers; protobuf, JSON and V8 serialization are
-- parameters. A proxied balance is not modelled.
pub mod Laws
pub mod Workaround
use cil_core.Base.{
  ℕ, zero, suc, ◌+◌, ◌-◌, ◌*◌, ◌/◌, ◌%◌, ◌≤◌, ◌<◌, ◌≡◌, refl, sym, ap, ◌∙◌, subst, ◌≢◌, ◌↔◌, ◌⊎◌,
  inl, inr, Bool, true, false, ◌&&◌, ◌||◌, not, Option, none, some, List, [], ◌∷◌, ◌++◌, map, arith,
  ltb, leb, ◌==◌, if◌then◌else◌, eq_of_test, test_self, test_ne, Bool-cases, Option-cases, length,
  get_elem?, erase_at, filter, all, length-append, length-filter-le, length-map, contains,
  contains-append, contains-filter, Distinct, unique, unique_after, Error, already_added,
  already_deleted, already_spent, integrity, unexpected_fork, double_spend, different_conciliums,
  tx_collision, failed_tx, less_coins_used, concilium_specified, type_error, not_initialised,
  round_exceeded, not_supposed, not_found, wrong_address, no_block, zero_quorum, no_views,
  already_in_mempool, no_tx, no_address, no_contract_concilium, insufficient_funds,
  unexpected_situation, Result, ok, err, ◌>>=◌, ◌>>◌, guard, or_throw, Result-cases, >>=-eq-ok,
}

pub record Fields : Type 0 where
  pub concilium_id : Option ℕ
  pub version : ℕ
  pub balance : ℕ
  pub contract_code : Option ℕ
  pub contract_data : Option (List ℕ)

-- What the contract relies on: the generated protobuf codec, and the two serializers of data.
pub record ContractProto : Type 0 where
  pub encode_fields : Fields → List ℕ
  pub decode_fields : List ℕ → Fields
  pub decode-encode : (f : Fields) → decode_fields (encode_fields f) ≡ f
  pub json_serialize : ℕ → List ℕ
  pub json_deserialize : List ℕ → ℕ
  pub json_round : (d : ℕ) → json_deserialize (json_serialize d) ≡ d
  pub v8_serialize : ℕ → List ℕ
  pub v8_deserialize : List ℕ → ℕ
  pub v8_round : (d : ℕ) → v8_deserialize (v8_serialize d) ≡ d
  pub stringify_code : ℕ → ℕ
  pub parse_code : ℕ → ℕ
  pub empty_object : ℕ

pub record Contract : Type 0 where
  pub address : Option ℕ
  pub fields : Fields
  pub open fields use *
  pub cache_data : Option ℕ
  pub cache_code : Option ℕ
  pub is_modified : Bool

abbrev pub version_json : ℕ
version_json = 2

abbrev pub version_v8 : ℕ
version_v8 = 0

-- The constructor on an object, and on a buffer.
unfoldable pub create : ContractProto → ℕ → Option ℕ → Option ℕ → ℕ → Option ℕ → Contract
create p content code id balance address = record {
  address = address;
  fields = record {
    concilium_id = id;
    version = version_json;
    balance = balance;
    contract_code = none;
    contract_data = none;
  };
  cache_data = some content;
  cache_code = code;
  is_modified = true;
}

unfoldable pub restore : ContractProto → List ℕ → Option ℕ → Contract
restore p bytes address = record {
  address = address;
  fields = p.decode_fields bytes;
  cache_data = none;
  cache_code = none;
  is_modified = false;
}

unfoldable pub serialize : ContractProto → Contract → ℕ → List ℕ
serialize p c d = if c.version == version_json then p.json_serialize d else p.v8_serialize d

-- Without stored bytes `toString` of `undefined` throws.
unfoldable pub deserialize : ContractProto → Contract → Result ℕ
deserialize p c = elim c.contract_data [
  | none ↦ err type_error
  | some bytes ↦
      ok (if c.version == version_json then p.json_deserialize bytes else p.v8_deserialize bytes)
]

-- `getData` fills the cache.
unfoldable pub get_data : ContractProto → Contract → Result (ℕ × Contract)
unfolding deserialize
get_data p c = elim c.cache_data [
  | some d ↦ ok (d, c)
  | none ↦ do d ← deserialize p c; ok (d, record c { cache_data = some d })
]

unfoldable pub get_code : ContractProto → Contract → Option ℕ × Contract
get_code p c = elim c.cache_code [
  | some d ↦ (some d, c)
  | none ↦
      let code : Option ℕ = elim c.contract_code [ none ↦ none | some s ↦ some (p.parse_code s) ] in
      (code, record c { cache_code = code })
]

unfoldable pub is_nonempty : Option (List ℕ) → Bool
is_nonempty none = false
is_nonempty (some []) = false
is_nonempty (some (b ∷ bs)) = true

unfoldable pub cached_buffer : ContractProto → Contract → Result (List ℕ)
unfolding serialize
cached_buffer p c = elim c.cache_data [
  | none ↦ err unexpected_situation
  | some d ↦ ok (serialize p c d)
]

unfoldable pub get_data_buffer : ContractProto → Contract → Result (List ℕ)
unfolding is_nonempty cached_buffer
get_data_buffer p c =
    if not c.is_modified && is_nonempty c.contract_data
    then or_throw c.contract_data type_error
    else cached_buffer p c

unfoldable pub set_concilium_id : Contract → ℕ → Contract
set_concilium_id c id = record c { fields = record (c.fields) { concilium_id = some id } }

unfoldable pub invalidate : Contract → Contract
invalidate c = record c { fields = record (c.fields) { contract_data = none } }

unfoldable pub update_data : Contract → ℕ → Contract
unfolding invalidate
update_data c d = invalidate (record c { is_modified = true; cache_data = some d })

unfoldable pub ensure_data : ContractProto → Contract → Contract
unfolding serialize
ensure_data p c = elim c.contract_data [
  | some _ ↦ c
  | none ↦ elim c.cache_data [
    | none ↦ c
    | some d ↦ record c { fields = record (c.fields) { contract_data = some (serialize p c d) } }
  ]
]

unfoldable pub ensure_code : ContractProto → Contract → Contract
ensure_code p c = elim c.contract_code [
  | some _ ↦ c
  | none ↦ elim c.cache_code [
    | none ↦ c
    | some d ↦ record c { fields = record (c.fields) { contract_code = some (p.stringify_code d) } }
  ]
]

-- `encode` also stores the bytes that it makes. Its assertion on the concilium id reads the 0 that
-- the prototype of the message has where none is set, and always holds.
unfoldable pub encode : ContractProto → Contract → Result (List ℕ × Contract)
unfolding ensure_data ensure_code
encode p c = let c' = ensure_code p (ensure_data p c) in ok (p.encode_fields c'.fields, c')

unfoldable pub clone : ContractProto → Contract → Result (Contract × Contract)
unfolding encode restore
clone p c = do (bytes, c') ← encode p c; ok (restore p bytes c.address, c')

unfoldable pub get_stored_address : Contract → Result ℕ
get_stored_address c = or_throw c.address no_address

unfoldable pub size_of_empty : ContractProto → Contract → ℕ
size_of_empty p c =
    if c.version == version_json
    then length (p.json_serialize p.empty_object)
    else length (p.v8_serialize p.empty_object)

-- Subtraction stops at 0, as the code's `result > 0 ? result : 0` does.
unfoldable pub get_data_size : ContractProto → Contract → Result (ℕ × Contract)
unfolding ensure_data size_of_empty
get_data_size p c = do
  let c' = ensure_data p c
  bytes ← or_throw c'.contract_data type_error
  ok (length bytes - size_of_empty p c', c')

unfoldable pub deposit : Contract → ℕ → Contract
deposit c amount = record c { fields = record (c.fields) { balance = c.balance + amount } }

unfoldable pub withdraw : Contract → ℕ → Result Contract
withdraw c amount =
    if ltb c.balance amount
    then err insufficient_funds
    else ok (record c { fields = record (c.fields) { balance = c.balance - amount } })

unfoldable pub switch_serializer : ContractProto → ℕ → Contract → Result Contract
unfolding get_data invalidate
switch_serializer p version c = do
  (_, c') ← get_data p c
  ok (invalidate (record c' { fields = record (c'.fields) { version = version } }))
