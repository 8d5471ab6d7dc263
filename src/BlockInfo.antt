-- ===== src/BlockInfo.antt =====
-- structures/blockInfo.js: what is stored of every block that was ever received.
use cil_core.Base.{ℕ, Bool, ◌==◌}
use cil_core.Block.Types.{Header, BlockEnv}

-- The four values of `flags`: `1 << 1`, `1 << 2`, `1 << 3` and `1 << 8`.
abbrev pub in_flight_block : ℕ
in_flight_block = 2

abbrev pub executed_block : ℕ
executed_block = 4

abbrev pub final_block : ℕ
final_block = 8

abbrev pub bad_block_flag : ℕ
bad_block_flag = 256

pub record BlockInfo : Type 0 where
  pub header : Header
  pub open header use *
  pub flags : ℕ

-- The constructor on the header of a block.
unfoldable pub create : Header → BlockInfo
create header = record { header = header; flags = executed_block }

unfoldable pub get_hash : BlockEnv → BlockInfo → ℕ
get_hash env bi = env.hash_header bi.header

unfoldable pub mark_as_bad : BlockInfo → BlockInfo
mark_as_bad bi = record bi { flags = bad_block_flag }

unfoldable pub is_bad : BlockInfo → Bool
is_bad bi = bi.flags == bad_block_flag

unfoldable pub mark_as_final : BlockInfo → BlockInfo
mark_as_final bi = record bi { flags = final_block }

unfoldable pub is_final : BlockInfo → Bool
is_final bi = bi.flags == final_block

unfoldable pub mark_as_in_flight : BlockInfo → BlockInfo
mark_as_in_flight bi = record bi { flags = in_flight_block }

unfoldable pub is_in_flight : BlockInfo → Bool
is_in_flight bi = bi.flags == in_flight_block

unfoldable pub get_state : BlockInfo → ℕ
get_state bi = bi.flags
