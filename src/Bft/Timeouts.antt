-- ===== src/Bft/Timeouts.antt =====
-- What node/bftConsensus.js does when nothing is agreed in time, and with the blocks it is given.
use cil_core.Base.{
  ℕ, ◌≡◌, refl, ap, ◌⊎◌, inl, inr, Bool, true, false, none, some, [], ◌∷◌, ◌++◌, if◌then◌else◌,
  Bool-cases, not_supposed, Result, ok, err, ◌>>=◌,
}
use cil_core.Conciliums.Concilium
use cil_core.Conciliums.Concilium.{Concilium}
use cil_core.Conciliums.Turns.{CanStart, IsReady, Undrawn, init_rounds-IsReady}
use cil_core.Conciliums.Rotation.{next_round-IsReady}
use cil_core.Bft.Types.{
  Block, send_next_round, send_accept, send_reject, set_timer, Env, Bft, State, round_change,
  block_wait, vote_block, commit, state_equal,
}
use cil_core.Bft.{
  empty_views, emit, create, next_round, block_state_handler, timeout, process_valid_block,
  invalid_block,
}

-- The node is back in `ROUND_CHANGE` with no block, and its concilium can go on.
pub record Restarted (b' : Bft) : Type 0 where
  pub round_change_state : b'.state ≡ round_change
  pub no_block_left : b'.block ≡ none
  pub ready : IsReady b'.concilium

-- A handler leaves the node restarted, or it throws: the concilium is by stake, and the draw for a round
-- of the sequence that it starts finds no member.
abbrev pub Restarts : Bft → Result Bft → Type 0
Restarts b run =
    ((b' : Bft) × (run ≡ ok b') × Restarted b') ⊎ ((run ≡ err not_supposed) × Undrawn b.concilium)

next_round-Restarted :
    (b : Bft) (advance : Bool)
    → IsReady b.concilium
    → ((b' : Bft) × (n : ℕ) × (next_round b advance ≡ ok b')
        × Restarted b'
        × (b'.emitted ≡ b.emitted ++ send_next_round n ∷ []))
      ⊎ ((next_round b advance ≡ err not_supposed) × Undrawn b.concilium)
unfolding next_round emit
next_round-Restarted b true v =
    let (e, at, _) = v.started in
    elim (next_round-IsReady b.concilium e v at) [
      | inl (c, n, run, _, v', round) ↦ inl (
        emit (send_next_round n) (record b { concilium = c; block = none; state = round_change }),
        n,
        rw run refl,
        record { round_change_state = refl; no_block_left = refl; ready = v' },
        refl,
      )
      | inr (run, _, undrawn) ↦ inr (rw run refl, undrawn)
    ]
next_round-Restarted b false v = elim (init_rounds-IsReady b.concilium v.can_start) [
  | inl (c, run, v', round) ↦ inl (
    emit (send_next_round (Concilium.rounds b.concilium).seed)
        (record b { concilium = c; block = none; state = round_change }),
    (Concilium.rounds b.concilium).seed,
    rw (run, round) refl,
    record { round_change_state = refl; no_block_left = refl; ready = v' },
    refl,
  )
  | inr (run, undrawn) ↦ inr (rw run refl, undrawn)
]

next_round-Restarts :
    (b : Bft) (advance : Bool) → IsReady b.concilium → Restarts b (next_round b advance)
next_round-Restarts b advance v = elim (next_round-Restarted b advance v) [
  | inl (b', _, run, r, _) ↦ inl (b', run, r)
  | inr thrown ↦ inr thrown
]

-- The timer starts again where the state changed.
after_timeout : State → Bft → Bft
after_timeout s b' = if state_equal s b'.state then b' else emit (set_timer b'.state) b'

after_timeout-Restarted : (s : State) (b' : Bft) → Restarted b' → Restarted (after_timeout s b')
unfolding after_timeout emit
after_timeout-Restarted s b' r = elim (Bool-cases (state_equal s b'.state)) [
  | inl same ↦ rw same r
  | inr other ↦ rw other (record {
    round_change_state = r.round_change_state;
    no_block_left = r.no_block_left;
    ready = r.ready;
  })
]

after_timeout-Restarts :
    (b : Bft) (s : State) (run : Result Bft)
    → Restarts b run
    → Restarts b (run >>= λ x. ok (after_timeout s x))
after_timeout-Restarts b s run (inl (b', e, r)) =
    inl (after_timeout s b', rw e refl, after_timeout-Restarted s b' r)
after_timeout-Restarts b s run (inr (e, undrawn)) = inr (rw e refl, undrawn)

-- What each state's handler does is one of the two next rounds.
by_state :
    (b : Bft) (s : State)
    → IsReady b.concilium
    → Restarts b (elim s [
      | round_change ↦ next_round b false
      | block_wait ↦ block_state_handler b false
      | vote_block ↦ next_round b true
      | commit ↦ next_round b true
    ])
unfolding block_state_handler
by_state b round_change v = next_round-Restarts b false v
by_state b block_wait v = next_round-Restarts b true v
by_state b vote_block v = next_round-Restarts b true v
by_state b commit v = next_round-Restarts b true v

-- In every state with a ready concilium the timer's handler leaves the node in `ROUND_CHANGE` with no block and a ready concilium, whatever it waited for; or it throws, which it does only with a concilium by stake, where the draw for a round of the sequence from the seed on finds no member.
pub timeout-Restarted :
    (b : Bft)
    → IsReady b.concilium
    → ((b' : Bft) × (timeout b ≡ ok b') × Restarted b')
      ⊎ ((timeout b ≡ err not_supposed) × Undrawn b.concilium)
unfolding timeout block_state_handler after_timeout
timeout-Restarted b v = after_timeout-Restarts b b.state _ (by_state b b.state v)

state_equal_ne : (s : State) → ¬ (s ≡ block_wait) → state_equal s block_wait ≡ false
state_equal_ne round_change h = refl
state_equal_ne block_wait h = absurd (h refl)
state_equal_ne vote_block h = refl
state_equal_ne commit h = refl

-- For every state in which the node waits for no block: a block it is given, valid or not, changes
-- nothing.
block_outside_wait :
    (b : Bft) (blk : Block) (patch now : ℕ)
    → ¬ (b.state ≡ block_wait)
    → (process_valid_block b blk patch now ≡ ok b) × (invalid_block b ≡ ok b)
unfolding process_valid_block invalid_block
block_outside_wait b blk patch now h =
    (rw (state_equal_ne b.state h), rw (state_equal_ne b.state h))

-- A node with a ready concilium that waits for a block keeps a valid one, goes to the vote and accepts it. An invalid one makes it restart with no block, tell the next round, and reject it; or the handler throws, which it does only with a concilium by stake, where the draw for a round of the sequence from the seed on finds no member.
pub block_in_wait :
    (b : Bft) (blk : Block) (patch now : ℕ)
    → IsReady b.concilium
    → b.state ≡ block_wait
    → ((b' : Bft) × (process_valid_block b blk patch now ≡ ok b')
        × (b'.state ≡ vote_block)
        × (b'.block ≡ some blk)
        × (b'.last_block_time ≡ now)
        × (b'.emitted ≡ b.emitted ++ send_accept blk.hash ∷ []))
      × (((b' : Bft) × (n : ℕ) × (invalid_block b ≡ ok b')
            × Restarted b'
            × (b'.emitted ≡ (b.emitted ++ send_next_round n ∷ []) ++ send_reject ∷ []))
          ⊎ ((invalid_block b ≡ err not_supposed) × Undrawn b.concilium))
unfolding process_valid_block invalid_block block_state_handler emit
block_in_wait b blk patch now v h =
    let waits : state_equal b.state block_wait ≡ true = rw h refl in
    (
      (
        emit (send_accept blk.hash) (record b {
          block = some blk;
          patch = some patch;
          last_block_time = now;
          state = vote_block;
        }),
        rw h refl,
        refl,
        refl,
        refl,
        refl,
      ),
      elim (next_round-Restarted (record b { block = none }) true v) [
        | inl (b', n, e, r, log) ↦ inl (
          emit send_reject b',
          n,
          rw (waits, e) refl,
          record {
            round_change_state = r.round_change_state;
            no_block_left = r.no_block_left;
            ready = r.ready;
          },
          ap (λ l. l ++ send_reject ∷ []) log,
        )
        | inr (e, undrawn) ↦ inr (rw (waits, e) refl, undrawn)
      ],
    )

-- The constructor, with a concilium that can start: the node waits in `ROUND_CHANGE` with no block and a ready
-- concilium; or the constructor throws, as `initRounds` does.
create-Restarted :
    (env : Env) (c : Concilium) (wallet now : ℕ)
    → CanStart c
    → ((b : Bft) × (create env c wallet now ≡ ok b) × Restarted b)
      ⊎ ((create env c wallet now ≡ err not_supposed) × Undrawn c)
unfolding create
create-Restarted env c wallet now h = elim (init_rounds-IsReady c h) [
  | inr (run, undrawn) ↦ inr (rw run refl, undrawn)
  | inl (c', run, v, _) ↦ inl (
    record {
      concilium = c';
      wallet = wallet;
      addresses = env.sort (Concilium.get_addresses c);
      state = round_change;
      views = empty_views (env.sort (Concilium.get_addresses c));
      prev_views = none;
      block = none;
      patch = none;
      last_block_time = now;
      emitted = set_timer round_change ∷ [];
    },
    rw run refl,
    record { round_change_state = refl; no_block_left = refl; ready = v },
  )
]
