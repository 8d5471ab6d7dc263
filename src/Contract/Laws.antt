-- ===== src/Contract/Laws.antt =====
-- Reading a contract's data back after an update, a copy, or a change of serializer.
use cil_core.Base.{
  ℕ, ◌≤◌, ◌≡◌, refl, inl, inr, Option, none, some, List, arith, Option-cases, Result, ok, ◌>>=◌,
  ◌==◌, if◌then◌else◌,
}
use cil_core.Contract.{
  Fields, ContractProto, Contract, restore, serialize, deserialize, get_data, update_data,
  ensure_data, ensure_code, clone, deposit, withdraw, switch_serializer, version_json,
}

-- What `getData` returns.
pub data_of : ContractProto → Contract → Result ℕ
unfolding get_data
data_of p c = do (d, _) ← get_data p c; ok d

-- Where both the cache and the stored bytes are there, they are of the same data object.
abbrev pub Agrees : ContractProto → Contract → Option ℕ → Option (List ℕ) → Type 0
Agrees p c none bytes = Unit
Agrees p c (some d) none = Unit
Agrees p c (some d) (some bytes) = deserialize p c ≡ ok d

abbrev pub IsCoherent : ContractProto → Contract → Type 0
IsCoherent p c = Agrees p c c.cache_data c.contract_data

-- After `updateData` the contract is coherent, whatever it was before, and `getData` returns the new data.
update_data-IsCoherent :
    (p : ContractProto) (c : Contract) (d : ℕ)
    → IsCoherent p (update_data c d) × (data_of p (update_data c d) ≡ ok d)
unfolding update_data data_of
update_data-IsCoherent p c d = (tt, refl)

abbrev stored : ContractProto → Contract → Fields
stored p c = (ensure_code p (ensure_data p c)).fields

data_of-restore :
    (p : ContractProto) (c : Contract)
    → IsCoherent p c
    → data_of p (restore p (p.encode_fields (stored p c)) c.address) ≡ data_of p c
unfolding data_of restore serialize deserialize ensure_data ensure_code
data_of-restore p c h = elim (Option-cases c.cache_data) [
  | inl e ↦ ground (arith, p.decode-encode (stored p c))
  | inr (d, e) ↦ ground (arith, p.decode-encode (stored p c), p.json_round d, p.v8_round d)
]

stored_lem :
    (p : ContractProto) (c : Contract)
    → ((stored p c).balance ≡ c.balance) × ((stored p c).concilium_id ≡ c.concilium_id)
unfolding ensure_data ensure_code
stored_lem p c = ground arith

-- A copy of a coherent contract can always be made, and holds the same data, balance, concilium (or none) and address, whether the data stood in the cache, in the stored bytes or in both.
pub data_of-clone :
    (p : ContractProto) (c : Contract)
    → IsCoherent p c
    → (copy : Contract) × (c' : Contract) × (clone p c ≡ ok (copy, c'))
      × (data_of p copy ≡ data_of p c)
      × (copy.balance ≡ c.balance)
      × (copy.concilium_id ≡ c.concilium_id)
      × (copy.address ≡ c.address)
unfolding clone
data_of-clone p c h =
    let back = p.decode-encode (stored p c) in
    let kept = stored_lem p c in
    (
      restore p (p.encode_fields (stored p c)) c.address,
      ensure_code p (ensure_data p c),
      ground arith,
      data_of-restore p c h,
      ground (arith, back, kept),
      ground (arith, back, kept),
      ground arith,
    )

switched_lem :
    (p : ContractProto) (version : ℕ) (c c' : Contract)
    → switch_serializer p version c ≡ ok c'
    → (d : ℕ) × (data_of p c ≡ ok d)
      × (c'.cache_data ≡ some d)
      × (c'.contract_data ≡ none)
      × (c'.version ≡ version)
unfolding switch_serializer data_of deserialize
switched_lem p version c c' h = elim (Option-cases c.cache_data) [
  | inl e ↦ elim (Option-cases c.contract_data) [
    | inl n ↦ absurd (ground (arith, e, n, h))
    | inr (b, n) ↦ elim (Option-cases c'.cache_data) [
      | inl z ↦ absurd (ground (arith, e, n, h, z))
      | inr (d, z) ↦
          (d, ground (arith, e, n, h, z), z, ground (arith, e, n, h), ground (arith, e, n, h))
    ]
  ]
  | inr (d, e) ↦
      (d, ground (arith, e), ground (arith, e, h), ground (arith, e, h), ground (arith, e, h))
]

switched_clone :
    (p : ContractProto) (c : Contract) (d : ℕ)
    → c.cache_data ≡ some d
    → c.contract_data ≡ none
    → (copy : Contract) × (c' : Contract) × (clone p c ≡ ok (copy, c'))
      × (copy.cache_data ≡ none)
      × (copy.contract_data
          ≡ some (if c.version == version_json then p.json_serialize d else p.v8_serialize d))
      × (copy.version ≡ c.version)
unfolding clone serialize ensure_data ensure_code restore
switched_clone p c d e n =
    let back = p.decode-encode (stored p c) in
    (
      restore p (p.encode_fields (stored p c)) c.address,
      ensure_code p (ensure_data p c),
      ground arith,
      refl,
      ground (arith, back, e, n),
      ground (arith, back, e, n),
    )

-- When the serializer of a contract is changed, a copy that is then made, with nothing cached, stores the data in the bytes of the new serializer, JSON for version 2 and V8 otherwise, and reading these bytes gives back the data that the contract had before the change.
pub data_of-switch_serializer :
    (p : ContractProto) (version : ℕ) (c : Contract) {c' : Contract}
    → switch_serializer p version c ≡ ok c'
    → (d : ℕ) × (copy : Contract) × (c'' : Contract) × (data_of p c ≡ ok d)
      × (clone p c' ≡ ok (copy, c''))
      × (copy.cache_data ≡ none)
      × (copy.contract_data
          ≡ some (if version == version_json then p.json_serialize d else p.v8_serialize d))
      × (copy.version ≡ version)
      × (data_of p copy ≡ ok d)
unfolding data_of deserialize
data_of-switch_serializer p version c {c' = c'} h =
    let (d, was, cached, bytes, v) = switched_lem p version c c' h in
    let (copy, c'', run, empty, stored_bytes, kept) = switched_clone p c' d cached bytes in
    (
      d,
      copy,
      c'',
      was,
      run,
      empty,
      ground (arith, stored_bytes, v),
      ground (arith, kept, v),
      ground (arith, empty, stored_bytes, kept, v, p.json_round d, p.v8_round d),
    )

-- A withdrawal never takes more than there is, and a deposit undoes it.
deposit-withdraw :
    (c : Contract) (amount : ℕ) {c' : Contract}
    → withdraw c amount ≡ ok c'
    → (amount ≤ c.balance) × (deposit c' amount ≡ c)
unfolding deposit withdraw
deposit-withdraw c amount h = ground arith
