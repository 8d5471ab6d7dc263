-- ===== src/Conciliums/Pos.antt =====
-- conciliums/conciliumPoS.js: members weigh what they have staked, and propose in an order drawn by
-- stake. The draw computes with doubles. The weights and the quorum, which the code also rounds to
-- doubles, are the exact fractions here, multiplied by `scale`.
use cil_core.Base.{
  ℕ, zero, suc, ◌+◌, ◌*◌, ◌%◌, ◌&&◌, Option, none, some, List, [], ◌∷◌, map, ltb, leb, ◌==◌,
  if◌then◌else◌, length, get_elem?, type_error, round_exceeded, not_supposed, not_found, Result, ok,
  err, ◌>>=◌, ◌>>◌, guard, or_throw,
}
use cil_core.Conciliums.Rounds
use cil_core.Conciliums.Rounds.{Rounds, init_rounds_of, get_round_of}
use cil_core.Conciliums.Gcd.{gcd_list}
use cil_core.Conciliums.Doubles

pub record Member : Type 0 where
  pub address : ℕ
  pub amount : ℕ

pub record Pos : Type 0 where
  pub members : List Member
  pub rounds : Rounds
  pub proposers : List ℕ

abbrev pub total_amount : List Member → ℕ
total_amount [] = 0
total_amount (m ∷ ms) = m.amount + total_amount ms

unfoldable pub create : List Member → ℕ → Pos
create members n = record { members = members; rounds = Rounds.create n; proposers = [] }

-- `nGcd` of the constructor.
unfoldable pub unit : List Member → ℕ
unit ms =
    let g = gcd_list (map (λ m. m.amount) ms) in
    if leb 1000000000 (total_amount ms) && ltb g 1000000
    then 1000000
    else if leb 1000000 (total_amount ms) && ltb g 1000
    then 1000
    else g

unfoldable pub scale : Pos → ℕ
scale c = 2 * total_amount c.members

-- The number that the code rounds: `arrShares.length === 1 ? 1 : (0.5 * total + 1) / total`
unfoldable pub get_quorum : Pos → ℕ
unfolding scale unit
get_quorum c =
    if length c.members == 1 then scale c else total_amount c.members + 2 * unit c.members

unfoldable pub get_addresses : Pos → List ℕ
get_addresses c = map (λ m. m.address) c.members

unfoldable pub find_member : List Member → ℕ → Option Member
find_member [] a = none
find_member (m ∷ ms) a = if m.address == a then some m else find_member ms a

-- The exact weight, which the code rounds.
unfoldable pub get_witness_weight : Pos → ℕ → Result ℕ
unfolding find_member
get_witness_weight c a = do m ← or_throw (find_member c.members a) not_found; ok (2 * m.amount)

unfoldable pub get_members_count : Pos → ℕ
get_members_count c = length c.members

-- The integers here are exact as doubles below 2 ^ 53.
unfoldable pub get_slot : ℕ → ℕ
get_slot x = 1289 * x + 3559

-- The sum of the amounts, as `reduce` makes it.
unfoldable pub sum_from : ℕ → List Member → ℕ
sum_from acc [] = acc
sum_from acc (m ∷ ms) = sum_from (Doubles.add acc (Doubles.of_integer m.amount)) ms

-- `_totalSharesAmount`. The double is 0 where the code has `NaN`, for a total and a divisor of 0.
unfoldable pub total_shares : List Member → ℕ
unfolding sum_from unit
total_shares ms = Doubles.divide (sum_from 0 ms) (Doubles.of_integer (unit ms))

-- `_arrShares`
unfoldable pub shares : List Member → List ℕ
unfolding unit
shares ms =
    map (λ m. Doubles.divide (Doubles.of_integer m.amount) (Doubles.of_integer (unit ms))) ms

-- The loop of `_findIdxByRound`.
unfoldable pub find_idx_from : List ℕ → ℕ → ℕ → ℕ → Result ℕ
find_idx_from [] i start r = err not_supposed
find_idx_from (s ∷ ss) i start r =
    let rest = find_idx_from ss (i + 1) (Doubles.add start s) r in
    if leb start r && ltb r (Doubles.add s start) then ok i else rest

-- `round %= total` is `NaN` for a total of 0, which no test passes; otherwise it is exact.
unfoldable pub find_idx_by_round : List Member → ℕ → Result ℕ
unfolding find_idx_from total_shares shares
find_idx_by_round ms round =
    if total_shares ms == 0
    then err not_supposed
    else find_idx_from (shares ms) 0 0 (Doubles.of_integer round % total_shares ms)

-- The loop of `_formProposerAddressesSequence`, over the rounds left and the next `seed + i`.
unfoldable pub form_sequence : List Member → ℕ → ℕ → Result (List ℕ)
unfolding find_idx_by_round get_slot
form_sequence ms zero x = ok []
form_sequence ms (suc n) x = do
  idx ← find_idx_by_round ms (get_slot x)
  rest ← form_sequence ms n (x + 1)
  ok (idx ∷ rest)

unfoldable pub init_rounds : Pos → Result Pos
unfolding form_sequence
init_rounds c = do
  seq ← form_sequence c.members c.rounds.seq_length c.rounds.seed
  ok (record c { rounds = init_rounds_of c.rounds; proposers = seq })

unfoldable pub get_proposer_address : Pos → Result ℕ
get_proposer_address c = do
  e ← or_throw c.rounds.epoch round_exceeded
  guard (ltb e.local_round c.rounds.seq_length) round_exceeded
  idx ← or_throw (get_elem? c.proposers e.local_round) type_error
  m ← or_throw (get_elem? c.members idx) type_error
  ok m.address
