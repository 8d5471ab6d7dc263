-- ===== src/Tests/Contracts.antt =====
-- structures/contract.js on concrete inputs.
use cil_core.Base.{ℕ, ◌≡◌, refl, false, none, some, [], ◌∷◌, ok}
use cil_core.Contract.{
  Contract, clone, invalidate, switch_serializer, deserialize, get_data, version_v8, version_json,
}
use cil_core.Contract.Laws.{data_of, data_of-clone, data_of-switch_serializer}
use cil_core.Tests.Codecs.{contract_proto}

abbrev sample : Contract
sample = record {
  address = some 9;
  fields = record {
    concilium_id = none;
    version = version_json;
    balance = 30;
    contract_code = none;
    contract_data = some (42 ∷ 1 ∷ []);
  };
  cache_data = none;
  cache_code = none;
  is_modified = false;
}

data_of-clone_example :
    (copy : Contract) × (c' : Contract) × (clone contract_proto sample ≡ ok (copy, c'))
    × (data_of contract_proto copy ≡ data_of contract_proto sample)
    × (copy.balance ≡ 30)
    × (copy.concilium_id ≡ none)
    × (copy.address ≡ some 9)
data_of-clone_example = data_of-clone contract_proto sample tt

abbrev switched : Contract
switched = record sample {
  fields = record sample.fields { version = version_v8; contract_data = none };
  cache_data = some 42;
  is_modified = false;
}

data_of-switch_serializer_example :
    (d : ℕ) × (copy : Contract) × (c'' : Contract) × (data_of contract_proto sample ≡ ok d)
    × (clone contract_proto switched ≡ ok (copy, c''))
    × (copy.cache_data ≡ none)
    × (copy.contract_data ≡ some (d ∷ 2 ∷ []))
    × (copy.version ≡ version_v8)
    × (data_of contract_proto copy ≡ ok d)
unfolding switch_serializer get_data invalidate deserialize
data_of-switch_serializer_example =
    data_of-switch_serializer contract_proto version_v8 sample {c' = switched} refl
