-- ===== src/Conciliums/Turns.antt =====
-- Whose turn it is: the round counter stays in range, and the proposer of a round is always a member
-- of the concilium.
use cil_core.Base.{
  ℕ, zero, suc, ◌+◌, ◌%◌, ◌<◌, ◌≡◌, refl, ap, ◌⊎◌, inl, inr, true, some, List, [], ◌∷◌, map, arith,
  length, get_elem?, contains, not_supposed, ok, err,
}
use cil_core.Conciliums.Rounds.{Rounds, Epoch, init_rounds_of, get_round_of}
use cil_core.Conciliums.RoundRobin
use cil_core.Conciliums.RoundRobin.{RoundRobin}
use cil_core.Conciliums.Pos
use cil_core.Conciliums.Pos.{Pos, Member, total_amount, find_idx_by_round, get_slot}
use cil_core.Conciliums.Concilium.{
  Concilium, round_robin, pos, rounds, get_addresses, get_proposer_address, init_rounds, get_round,
}
use cil_core.Conciliums.Draw.{Below, form_sequence-Below}

-- The counter is within the sequence.
abbrev pub Started : Rounds → Type 0
Started r = (e : Epoch) × (r.epoch ≡ some e) × (e.local_round < r.seq_length)

-- A concilium with members that can propose.
abbrev pub CanStart : Concilium → Type 0
CanStart (round_robin c) = (0 < length c.addresses) × (c.rounds.seq_length ≡ length c.addresses)
CanStart (pos c) = (0 < total_amount c.members) × (0 < c.rounds.seq_length)

abbrev pub HasSequence : Concilium → Type 0
HasSequence (round_robin c) = Unit
HasSequence (pos c) =
    (length c.proposers ≡ c.rounds.seq_length) × Below (length c.members) c.proposers

pub record IsReady (c : Concilium) : Type 0 where
  pub can_start : CanStart c
  pub started : Started (rounds c)
  pub sequence : HasSequence c

-- The draw for one of the rounds of the sequence that starts at the seed finds no member.
unfoldable pub Undrawn : Concilium → Type 0
Undrawn (round_robin c) = ⊥
Undrawn (pos c) =
    (i : ℕ) × (i < c.rounds.seq_length)
    × (find_idx_by_round c.members (get_slot (c.rounds.seed + i)) ≡ err not_supposed)

-- On a concilium that can start, `initRounds` makes it ready, in the round that the seed is; or it throws, which only a concilium by stake does, where the draw for one of the rounds of the sequence finds no member.
pub init_rounds-IsReady :
    (c : Concilium)
    → CanStart c
    → ((c' : Concilium) × (init_rounds c ≡ ok c')
        × IsReady c'
        × (get_round c' ≡ ok (rounds c).seed))
      ⊎ ((init_rounds c ≡ err not_supposed) × Undrawn c)
unfolding init_rounds rounds get_round RoundRobin.init_rounds Pos.init_rounds init_rounds_of
    get_round_of Undrawn
init_rounds-IsReady (round_robin c) h = inl (
  round_robin (RoundRobin.init_rounds c),
  refl,
  record {
    can_start = h;
    started = (record { round_base = c.rounds.seed; local_round = 0 }, refl, omega arith);
    sequence = tt;
  },
  ap ok (omega arith),
)
init_rounds-IsReady (pos c) h =
    elim (form_sequence-Below c.members c.rounds.seq_length c.rounds.seed) [
      | inr (run, i, early, thrown) ↦ inr (rw run refl, (i, early, thrown))
      | inl (ks, run, len, below) ↦ inl (
        pos (record c { rounds = init_rounds_of c.rounds; proposers = ks }),
        rw run refl,
        record {
          can_start = h;
          started = (record { round_base = c.rounds.seed; local_round = 0 }, refl, h.1);
          sequence = (len, below);
        },
        ap ok (omega arith),
      )
    ]

Below-get_elem? :
    (n : ℕ) (ks : List ℕ) (i : ℕ)
    → Below n ks
    → i < length ks
    → (k : ℕ) × (get_elem? ks i ≡ some k) × (k < n)
Below-get_elem? n [] i b h = absurd (omega arith)
Below-get_elem? n (k ∷ ks) zero b h = (k, refl, b.0)
Below-get_elem? n (k ∷ ks) (suc i) b h = Below-get_elem? n ks i b.1 (omega arith)

get_elem?-lt :
    {A : Type 0} (xs : List A) (i : ℕ) → i < length xs → (a : A) × (get_elem? xs i ≡ some a)
get_elem?-lt [] i h = absurd (omega arith)
get_elem?-lt (x ∷ xs) zero h = (x, refl)
get_elem?-lt (x ∷ xs) (suc i) h = get_elem?-lt xs i (omega arith)

contains-get_elem? : (xs : List ℕ) (i a : ℕ) → get_elem? xs i ≡ some a → contains xs a ≡ true
contains-get_elem? [] i a e = cc
contains-get_elem? (x ∷ xs) zero a e = ground arith
contains-get_elem? (x ∷ xs) (suc i) a e = ground (arith, contains-get_elem? xs i a e)

contains-members :
    (ms : List Member) (i : ℕ) (m : Member)
    → get_elem? ms i ≡ some m
    → contains (map (λ x. x.address) ms) m.address ≡ true
contains-members [] i m e = cc
contains-members (x ∷ xs) zero m e = ground arith
contains-members (x ∷ xs) (suc i) m e = ground (arith, contains-members xs i m e)

-- In a concilium that is ready there is always a proposer, and it is one of the members.
pub proposer_is_member :
    (c : Concilium)
    → IsReady c
    → (a : ℕ) × (get_proposer_address c ≡ ok a) × (contains (get_addresses c) a ≡ true)
unfolding get_proposer_address get_addresses rounds RoundRobin.get_proposer_address
    Pos.get_proposer_address Pos.get_addresses get_round_of
proposer_is_member (round_robin c) v =
    let (e, at, low) = v.started in
    let n = length c.addresses in
    let (a, found) =
      get_elem?-lt c.addresses ((e.round_base + e.local_round) % n)
        (in_range (e.round_base + e.local_round)) in
    (a, ground (arith, found), contains-get_elem? c.addresses _ a found)
  where
    in_range : (k : ℕ) → k % length c.addresses < length c.addresses
    in_range k = let p : 0 < length c.addresses = v.can_start.0 in grind arith
proposer_is_member (pos c) v =
    let (e, at, low) = v.started in
    let (k, drawn, high) =
      Below-get_elem? (length c.members) c.proposers e.local_round v.sequence.1
        (omega (arith, v.sequence.0)) in
    let (m, found) = get_elem?-lt c.members k high in
    (m.address, ground (arith, drawn, found), contains-members c.members k m found)
