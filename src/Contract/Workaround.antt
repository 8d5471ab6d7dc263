-- ===== src/Contract/Workaround.antt =====
-- structures/contract.js: `dirtyWorkaround`, which old blocks need.
use cil_core.Base.{Bool, true, ◌&&◌, not, none, some, ◌==◌, if◌then◌else◌, Result, ok, ◌>>=◌}
use cil_core.Contract.{Contract, ContractProto, get_data, version_json, version_v8}

-- `patched` is `_bPatched`. The data is serialized, read back and serialized again.
unfoldable pub dirty_workaround : ContractProto → Bool → Contract → Result (Bool × Contract)
dirty_workaround p patched c =
    if not patched && not (c.version == version_json) && not c.is_modified
    then ok (patched, c)
    else (do
      (d, c') ← get_data p c
      ok (
        true,
        record c' {
          fields = record (c'.fields) {
            version = version_v8;
            contract_data = some (p.v8_serialize (p.v8_deserialize (p.v8_serialize d)));
          };
          cache_data = none;
        },
      ))
