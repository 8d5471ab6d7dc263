-- ===== src/Storage/Definitions.antt =====
-- storage/persistentStorage.js: the concilia, as the contract that defines them says. Where the
-- address of that contract is not configured, there are none.
use cil_core.Base.{
  ℕ, Bool, false, not, Option, none, some, List, [], ltb, ◌==◌, if◌then◌else◌, length, get_elem?,
  filter, contains, unknown_concilium, Result, ok, ◌>>=◌, ◌>>◌, guard,
}
use cil_core.Contract
use cil_core.Storage.Types.{Storage, StorageEnv, Definition}
use cil_core.Storage.{get_contract}
use cil_core.Conciliums.Concilium

-- `this._arrConciliumDefinition && this._arrConciliumDefinition.length`
unfoldable pub cache_valid : Option (List Definition) → Bool
cache_valid none = false
cache_valid (some ds) = not (length ds == 0)

unfoldable pub read_definitions : StorageEnv → Storage → ℕ → Result (List Definition)
read_definitions env s address = elim (get_contract env s address) [
  | none ↦ ok []
  | some c ↦ do (d, _) ← Contract.get_data env.codec.contract c; ok (env.parse_definitions d)
]

-- The definitions, and the storage with them cached.
unfoldable pub ensure_definitions : StorageEnv → Storage → ℕ → Result (List Definition × Storage)
unfolding cache_valid read_definitions
ensure_definitions env s address =
    let read : Result (List Definition × Storage) = (do
      ds ← read_definitions env s address
      ok (ds, record s { definitions = some ds })) in
    elim s.definitions [
      | none ↦ read
      | some ds ↦ if cache_valid (some ds) then ok (ds, s) else read
    ]

unfoldable pub get_concilium_by_id : StorageEnv → Storage → ℕ → Result (Option Definition × Storage)
unfolding ensure_definitions
get_concilium_by_id env s id = elim env.definition_contract [
  | none ↦ ok (none, s)
  | some address ↦ do
    (ds, s') ← ensure_definitions env s address
    guard (ltb id (length ds)) unknown_concilium
    ok (get_elem? ds id, s')
]

unfoldable pub get_conciliums_count : StorageEnv → Storage → Result (ℕ × Storage)
unfolding ensure_definitions
get_conciliums_count env s = elim env.definition_contract [
  | none ↦ ok (0, s)
  | some address ↦ do
    (ds, s') ← ensure_definitions env s address
    ok (length (filter (λ d. d.settings.enabled) ds), s')
]

unfoldable pub get_conciliums_by_address :
    StorageEnv → Storage → ℕ → Result (List Definition × Storage)
unfolding ensure_definitions
get_conciliums_by_address env s member = elim env.definition_contract [
  | none ↦ ok ([], s)
  | some address ↦ do
    (ds, s') ← ensure_definitions env s address
    ok (filter (λ d. contains (Concilium.get_addresses d.concilium) member) ds, s')
]
