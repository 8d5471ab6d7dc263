-- ===== src/Storage/Blocks.antt =====
-- storage/persistentStorage.js: blocks are read back as they were written, once.
use cil_core.Base.{ℕ, ◌≡◌, Option, none, some, if◌then◌else◌}
use cil_core.JsMap.{set}
use cil_core.Block
use cil_core.Block.Types.{Block}
use cil_core.BlockInfo
use cil_core.BlockInfo.{BlockInfo}
use cil_core.Transaction.Types.{TxEnv}
use cil_core.Storage.Types.{Storage, StorageEnv}
use cil_core.Storage.{store_index}

-- The storage that `saveBlock` leaves, for a block that was not known, with its information.
written : StorageEnv → TxEnv → Storage → ℕ → Block → BlockInfo → Storage
written env txenv s hash b bi =
    let saved : Storage = record s {
      blocks = set s.blocks hash (env.encode_block b.header b.txns b.signatures);
      infos = set s.infos (env.block_env.hash_header bi.header) (env.encode_info bi);
    } in
    if s.build_tx_index
    then record saved { tx_index = store_index saved.tx_index hash (Block.get_tx_hashes txenv b) }
    else saved

-- What `getBlockInfo` should find: the information that was given, or a new one of the header.
abbrev pub Remembered : Option BlockInfo → Block → BlockInfo → Type 0
Remembered none b bi = bi ≡ BlockInfo.create b.header
Remembered (some given) b bi = bi ≡ given
