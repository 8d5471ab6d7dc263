-- ===== src/Conciliums/Rounds.antt =====
-- The round counter of conciliums/baseConciliumDefinition.js.
use cil_core.Base.{
  ℕ, ◌+◌, ◌-◌, Bool, false, ◌&&◌, not, Option, none, some, ltb, leb, ◌==◌, if◌then◌else◌,
  not_initialised, Result, ok, err,
}

-- `_nRoundBase` and `_nLocalRound`: both are undefined until `initRounds`.
pub record Epoch : Type 0 where
  pub round_base : ℕ
  pub local_round : ℕ

pub record Rounds : Type 0 where
  pub seed : ℕ
  pub seq_length : ℕ
  pub epoch : Option Epoch

-- The constructor's `changeSeed(0)`.
unfoldable pub create : ℕ → Rounds
create n = record { seed = 0; seq_length = n; epoch = none }

unfoldable pub init_rounds_of : Rounds → Rounds
init_rounds_of r = record r { epoch = some (record { round_base = r.seed; local_round = 0 }) }

unfoldable pub change_seed_of : Rounds → ℕ → Rounds
change_seed_of r s = record r { seed = s }

unfoldable pub get_round_of : Rounds → Result ℕ
get_round_of r = elim r.epoch [
  | none ↦ err not_initialised
  | some e ↦ ok (e.round_base + e.local_round)
]

-- The counter after `++this._nLocalRound`, and whether the sequence is used up.
unfoldable pub next_round_of : Rounds → Result (Rounds × Bool)
next_round_of r = elim r.epoch [
  | none ↦ err not_initialised
  | some e ↦ ok (
    record r { epoch = some (record e { local_round = e.local_round + 1 }) },
    leb r.seq_length (e.local_round + 1),
  )
]

-- `this._nRoundBase === 0 && this._nSeed !== 0`
unfoldable pub is_stale : Rounds → Bool
is_stale r = elim r.epoch [ none ↦ false | some e ↦ e.round_base == 0 && not (r.seed == 0) ]

-- `Math.abs(n - m)`
unfoldable pub distance : ℕ → ℕ → ℕ
distance n m = if leb m n then n - m else m - n

unfoldable pub adjust_round_of : Rounds → ℕ → Rounds
unfolding distance
adjust_round_of r n = elim r.epoch [
  | none ↦ r
  | some e ↦
      let diff = distance n e.round_base in
      if ltb diff r.seq_length
      then record r { epoch = some (record e { local_round = diff }) }
      else r
]
