-- ===== src/Conciliums/Rotation.antt =====
-- The operations that move the round counter keep the concilium ready.
use cil_core.Base.{
  ℕ, suc, ◌+◌, ◌≤◌, ◌<◌, ◌≡◌, refl, sym, ap, ◌∙◌, ◌⊎◌, inl, inr, false, some, arith, leb,
  Bool-cases, not_supposed, ok, err,
}
use cil_core.Conciliums.Rounds.{
  Rounds, Epoch, distance, get_round_of, next_round_of, is_stale, adjust_round_of, change_seed_of,
}
use cil_core.Conciliums.Concilium.{
  Concilium, round_robin, pos, rounds, set_rounds, change_seed, get_round, next_round, adjust_round,
}
use cil_core.Conciliums.Pos.{find_idx_by_round, get_slot}
use cil_core.Conciliums.Turns.{Started, CanStart, IsReady, Undrawn, init_rounds-IsReady}

set_rounds-CanStart :
    (c : Concilium) (r : Rounds)
    → r.seq_length ≡ (rounds c).seq_length
    → CanStart c
    → CanStart (set_rounds c r)
unfolding set_rounds rounds
set_rounds-CanStart (round_robin c) r e (p, q) = (p, e ∙ q)
set_rounds-CanStart (pos c) r e (p, q) = (p, omega arith)

rounds-set_rounds : (c : Concilium) (r : Rounds) → rounds (set_rounds c r) ≡ r
unfolding set_rounds rounds
rounds-set_rounds (round_robin c) r = refl
rounds-set_rounds (pos c) r = refl

set_rounds-IsReady :
    (c : Concilium) (r : Rounds)
    → r.seq_length ≡ (rounds c).seq_length
    → Started r
    → IsReady c
    → IsReady (set_rounds c r)
unfolding set_rounds rounds
set_rounds-IsReady (round_robin c) r e s v = record {
  can_start = (v.can_start.0, e ∙ v.can_start.1);
  started = s;
  sequence = tt;
}
set_rounds-IsReady (pos c) r e s v = record {
  can_start = (v.can_start.0, rw e v.can_start.1);
  started = s;
  sequence = (v.sequence.0 ∙ sym e, v.sequence.1);
}

-- A new seed takes effect at the next start of the sequence: a ready concilium stays ready, in the
-- same round.
change_seed-IsReady :
    (c : Concilium) (seed : ℕ)
    → IsReady c
    → IsReady (change_seed c seed) × (get_round (change_seed c seed) ≡ get_round c)
unfolding change_seed get_round change_seed_of get_round_of
change_seed-IsReady c seed v = (
  set_rounds-IsReady c (change_seed_of (rounds c) seed) refl v.started v,
  rw (rounds-set_rounds c (change_seed_of (rounds c) seed)) refl,
)

pub get_round-Started : (c : Concilium) → Started (rounds c) → (n : ℕ) × (get_round c ≡ ok n)
unfolding get_round get_round_of
get_round-Started c (e, at, _) = (e.round_base + e.local_round, ground arith)

Undrawn-set_rounds :
    (c : Concilium) (r : Rounds)
    → r.seq_length ≡ (rounds c).seq_length
    → r.seed ≡ (rounds c).seed
    → Undrawn (set_rounds c r)
    → Undrawn c
unfolding set_rounds rounds Undrawn
Undrawn-set_rounds (round_robin c) r e f u = u
Undrawn-set_rounds (pos c) r e f (i, early, thrown) =
    (i, omega arith, ap (λ y. find_idx_by_round c.members (get_slot (y + i))) (sym f) ∙ thrown)

-- Within the sequence of a ready concilium, `nextRound` goes to the round after the current one. When the sequence is used up, it starts again, in the round that the seed is, or it throws, which only a concilium by stake does, where the draw for a round of the new sequence finds no member. Where it does not throw, the concilium stays ready, and is in the round that is returned.
pub next_round-IsReady :
    (c : Concilium) (e : Epoch)
    → IsReady c
    → (rounds c).epoch ≡ some e
    → ((c' : Concilium) × (n : ℕ) × (next_round c ≡ ok (n, c'))
        × (((e.local_round + 1 < (rounds c).seq_length) × (n ≡ e.round_base + (e.local_round + 1)))
            ⊎ (((rounds c).seq_length ≤ e.local_round + 1) × (n ≡ (rounds c).seed)))
        × IsReady c'
        × (get_round c' ≡ ok n))
      ⊎ ((next_round c ≡ err not_supposed)
          × ((rounds c).seq_length ≤ e.local_round + 1)
          × Undrawn c)
unfolding next_round next_round_of get_round get_round_of
next_round-IsReady c e v at =
    let r : Rounds = record (rounds c) {
      epoch = some (record e { local_round = e.local_round + 1 });
    } in
    elim (Bool-cases (leb (rounds c).seq_length (e.local_round + 1))) [
      | inl over ↦
          elim (init_rounds-IsReady (set_rounds c r) (set_rounds-CanStart c r refl v.can_start)) [
            | inl (c', run, v', round) ↦
                let seeded : get_round c' ≡ ok (rounds c).seed =
                  round ∙ ap (λ x. ok x.seed) (rounds-set_rounds c r) in
                inl (
                  c',
                  (rounds c).seed,
                  ground (arith, at, over, run, seeded),
                  inr (ground (arith, over), refl),
                  v',
                  seeded,
                )
            | inr (run, undrawn) ↦ inr (
              ground (arith, at, over, run),
              ground (arith, over),
              Undrawn-set_rounds c r refl refl undrawn,
            )
          ]
      | inr more ↦
          let v' =
            set_rounds-IsReady c r refl
              (record e { local_round = e.local_round + 1 }, refl, ground (arith, more)) v in
          let round : get_round (set_rounds c r) ≡ ok (e.round_base + (e.local_round + 1)) =
            rw (rounds-set_rounds c r) refl in
          inl (
            set_rounds c r,
            e.round_base + (e.local_round + 1),
            ground (arith, at, more, round),
            inl (ground (arith, more), refl),
            v',
            round,
          )
    ]

-- The round that a concilium which need not start again takes over: within the sequence, the one that
-- is as far from the start as the number given is.
adjusted :
    (c : Concilium) (n : ℕ) (e : Epoch)
    → IsReady c
    → is_stale (rounds c) ≡ false
    → (rounds c).epoch ≡ some e
    → distance n e.round_base < (rounds c).seq_length
    → (c' : Concilium) × (adjust_round c n ≡ ok c')
      × IsReady c'
      × (get_round c' ≡ ok (e.round_base + distance n e.round_base))
unfolding adjust_round adjust_round_of get_round get_round_of
adjusted c n e v fresh at near =
    let d = distance n e.round_base in
    let r : Rounds = record (rounds c) { epoch = some (record e { local_round = d }) } in
    (
      set_rounds c r,
      ground (arith, fresh, at),
      set_rounds-IsReady c r refl (record e { local_round = d }, refl, near) v,
      rw (rounds-set_rounds c r) refl,
    )

-- A ready concilium that is told a round of its sequence is then in that round, and stays ready.
adjust_round_ahead :
    (c : Concilium) (n : ℕ) (e : Epoch)
    → IsReady c
    → is_stale (rounds c) ≡ false
    → (rounds c).epoch ≡ some e
    → e.round_base ≤ n
    → n < e.round_base + (rounds c).seq_length
    → (c' : Concilium) × (adjust_round c n ≡ ok c') × IsReady c' × (get_round c' ≡ ok n)
unfolding distance
adjust_round_ahead c n e v fresh at low high =
    let (c', run, v', round) = adjusted c n e v fresh at (ground arith) in
    (c', run, v', ground (arith, round))

-- A ready concilium that is told a round before its start, by less than the length of the sequence,
-- is then in the round as far after its start: not the one it was told.
pub adjust_round_behind :
    (c : Concilium) (n k : ℕ) (e : Epoch)
    → IsReady c
    → is_stale (rounds c) ≡ false
    → (rounds c).epoch ≡ some e
    → e.round_base ≡ n + suc k
    → suc k < (rounds c).seq_length
    → (c' : Concilium) × (adjust_round c n ≡ ok c')
      × IsReady c'
      × (get_round c' ≡ ok (e.round_base + suc k))
unfolding distance
adjust_round_behind c n k e v fresh at far near =
    let (c', run, v', round) = adjusted c n e v fresh at (ground arith) in
    (c', run, v', ground (arith, round))
