-- ===== src/Conciliums/Quorum.antt =====
-- Weights and quorums: a quorum is more than half of all the weight.
use cil_core.Base.{
  ℕ, suc, ◌+◌, ◌*◌, ◌<◌, ◌≡◌, refl, ap, ◌∙◌, inl, inr, true, false, some, List, [], ◌∷◌, map, arith,
  ltb, eq_of_test, Bool-cases, length, contains, Distinct, Result, ok, ◌>>=◌,
}
use cil_core.Conciliums.Gcd.{gcd_list, gcd_from, gcd, gcd_loop_total}
use cil_core.Conciliums.RoundRobin
use cil_core.Conciliums.RoundRobin.{RoundRobin}
use cil_core.Conciliums.Pos
use cil_core.Conciliums.Pos.{Pos, Member, total_amount, unit, find_member}
use cil_core.Conciliums.Concilium.{
  Concilium, round_robin, pos, get_quorum, get_witness_weight, get_addresses,
}

-- The weights of a list of addresses; an unknown address throws.
unfoldable pub sum_weights : Concilium → List ℕ → Result ℕ
sum_weights c [] = ok 0
sum_weights c (a ∷ rest) = do w ← get_witness_weight c a; v ← sum_weights c rest; ok (w + v)

gcd_pos : (x y : ℕ) → 0 < x + y → 0 < gcd x y
unfolding gcd
gcd_pos x y h =
    let (g, run, p) = gcd_loop_total (suc (x + y)) x y (omega arith) in ground (arith, run, p h)

gcd_from-pos :
    (x : ℕ) (ms : List Member) → 0 < x + total_amount ms → 0 < gcd_from x (map (λ m. m.amount) ms)
unfolding gcd_from
gcd_from-pos x [] h = omega arith
gcd_from-pos x (m ∷ ms) h =
    gcd_from-pos (gcd x m.amount) ms (elim (Bool-cases (ltb 0 (x + m.amount))) [
      | inl e ↦ let p = gcd_pos x m.amount (ground arith) in omega arith
      | inr e ↦ ground arith
    ])

gcd_list-pos : (ms : List Member) → 0 < total_amount ms → 0 < gcd_list (map (λ m. m.amount) ms)
unfolding gcd_list
gcd_list-pos [] h = h
gcd_list-pos (m ∷ ms) h = gcd_from-pos m.amount ms h

unit-pos : (ms : List Member) → 0 < total_amount ms → 0 < unit ms
unfolding unit
unit-pos ms h = ground (arith, gcd_list-pos ms h)

abbrev addresses_of : List Member → List ℕ
addresses_of = map (λ m. m.address)

find_member-head : (m : Member) (ms : List Member) → find_member (m ∷ ms) m.address ≡ some m
unfolding find_member
find_member-head m ms = ground arith

find_member-tail :
    (m : Member) (ms : List Member) (a : ℕ)
    → contains (addresses_of ms) m.address ≡ false
    → contains (addresses_of ms) a ≡ true
    → find_member (m ∷ ms) a ≡ find_member ms a
unfolding find_member
find_member-tail m ms a out inside = ground (arith, eq_of_test m.address a)

sum_weights-pos :
    (p : Pos) (ms : List Member)
    → Distinct (addresses_of ms)
    → ((a : ℕ) → contains (addresses_of ms) a ≡ true → find_member p.members a ≡ find_member ms a)
    → sum_weights (pos p) (addresses_of ms) ≡ ok (2 * total_amount ms)
unfolding sum_weights get_witness_weight Pos.get_witness_weight
sum_weights-pos p [] d h = refl
sum_weights-pos p (m ∷ ms) d h =
    rw
      (
        h m.address (ground arith),
        find_member-head m ms,
        sum_weights-pos p ms d.1 (λ a k. h a (ground arith) ∙ find_member-tail m ms a d.0 k),
      )
      (ap ok (omega arith))

sum_weights-round_robin :
    (r : RoundRobin) (as' : List ℕ) → sum_weights (round_robin r) as' ≡ ok (length as')
unfolding sum_weights get_witness_weight RoundRobin.get_witness_weight
sum_weights-round_robin r [] = refl
sum_weights-round_robin r (a ∷ rest) = rw (sum_weights-round_robin r rest) (ap ok (omega arith))

-- There is a stake, or no quorum is given by hand.
abbrev pub HasVotes : Concilium → Type 0
HasVotes (round_robin r) = r.quorum ≡ 0
HasVotes (pos p) = 0 < total_amount p.members

-- Where no address stands twice, the quorum of a concilium is more than half of the weight of all
-- its members: by stake whenever there is any stake, and by count where no quorum is given.
pub quorum_is_majority :
    (c : Concilium)
    → Distinct (get_addresses c)
    → HasVotes c
    → (w : ℕ) × (sum_weights c (get_addresses c) ≡ ok w) × (w < 2 * get_quorum c)
unfolding get_quorum RoundRobin.get_quorum Pos.get_quorum Pos.scale get_addresses Pos.get_addresses
quorum_is_majority (round_robin r) d h =
    (length r.addresses, sum_weights-round_robin r r.addresses, ground arith)
quorum_is_majority (pos p) d h = (
  2 * total_amount p.members,
  sum_weights-pos p p.members d (λ a k. refl),
  ground (arith, unit-pos p.members h),
)
