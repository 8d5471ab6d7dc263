-- ===== src/Bft/Commit.antt =====
-- When node/bftConsensus.js hands a block over to be stored.
use cil_core.Base.{
  ℕ, ◌≤◌, ◌<◌, ◌≡◌, refl, ap, ◌∙◌, subst, ◌⊎◌, inl, inr, Bool, true, Option, none, some, List, [],
  ◌∷◌, ◌++◌, arith, ◌==◌, if◌then◌else◌, Bool-cases, Option-cases, Result, ok, ◌>>=◌, >>=-eq-ok,
}
use cil_core.Conciliums.Concilium
use cil_core.Conciliums.Concilium.{Concilium}
use cil_core.Conciliums.Quorum.{sum_weights}
use cil_core.Bft.Types.{
  BlockHash, reject, hash_of, Block, send_next_round, commit_block, Env, Bft, commit, round_change,
}
use cil_core.Bft.{emit, next_round, usable, vote_agreed}
use cil_core.Bft.Gather.{get_signatures_for_block}
use cil_core.Bft.Signatures.{SignedBy, Sublist, get_signatures-quorum}

-- A quorum of members signed this block's hash.
abbrev pub Backed : Env → Bft → Block → List ℕ → Type 0
Backed env b blk sigs =
    (signers : List ℕ) × (w : ℕ) × SignedBy env blk.hash signers sigs
    × Sublist signers b.addresses
    × (sum_weights b.concilium signers ≡ ok w)
    × (Concilium.get_quorum b.concilium ≤ w)
    × (0 < Concilium.get_quorum b.concilium)

-- The round was given up: the block is gone, and the others are told.
abbrev pub GaveUp : Bft → Bft → Type 0
GaveUp b b' =
    (n : ℕ) × (b'.state ≡ round_change)
    × (b'.block ≡ none)
    × (b'.emitted ≡ b.emitted ++ send_next_round n ∷ [])

-- The block was handed over, with the signatures.
abbrev pub Committed : Env → Bft → BlockHash → Bft → Type 0
Committed env b v b' =
    (blk : Block) × (sigs : List ℕ) × (b.block ≡ some blk)
    × (v ≡ hash_of blk.hash)
    × (b'.state ≡ commit)
    × (b'.emitted ≡ b.emitted ++ commit_block (record blk { signatures = sigs }) b.patch ∷ [])
    × Backed env b blk sigs

-- The others agree on a block that this node does not have: it waits, and says nothing.
abbrev pub Waits : Bft → BlockHash → Bft → Type 0
Waits b v b' =
    (b'.state ≡ commit)
    × (b'.emitted ≡ b.emitted)
    × (b'.block ≡ b.block)
    × ((b.block ≡ none) ⊎ ((blk : Block) × (b.block ≡ some blk) × ¬ (v ≡ hash_of blk.hash)))

-- Why a round is given up: the vote was to reject the block, or it was for this node's own block, and
-- the votes seen give no signatures of a quorum for it, or none at all.
abbrev pub NoBlock : Env → Bft → BlockHash → Type 0
NoBlock env b v =
    (v ≡ reject)
    ⊎ ((blk : Block) × (sigs : Option (List ℕ)) × (b.block ≡ some blk)
        × (v ≡ hash_of blk.hash)
        × (get_signatures_for_block env (record b { state = commit }) ≡ ok sigs)
        × ((sigs ≡ none) ⊎ (sigs ≡ some [])))

next_round-GaveUp : (b b' : Bft) (advance : Bool) → next_round b advance ≡ ok b' → GaveUp b b'
unfolding next_round emit
next_round-GaveUp b b' advance e =
    let pick : Result (ℕ × Concilium) =
      if advance
      then Concilium.next_round b.concilium
      else (do c ← Concilium.init_rounds b.concilium; n ← Concilium.get_round c; ok (n, c)) in
    let after : ℕ × Concilium → Bft = λ r.
      emit (send_next_round r.0)
        (record b { concilium = r.1; block = none; state = round_change }) in
    let ((n, c), e1, r1) = >>=-eq-ok pick (λ r. ok (after r)) e in
    let same : after (n, c) ≡ b' = cc in subst (GaveUp b) same (n, refl, refl, refl)

-- What the handler does with its own block, once the vote for it is agreed on.
close : Env → Bft → Block → Result Bft
close env b blk = do
  let b' : Bft = record b { state = commit }
  sigs ← get_signatures_for_block env b'
  elim (usable sigs) [
    | none ↦ next_round b' true
    | some ss ↦ do
      let signed : Block = record blk { signatures = ss }
      ok (emit (commit_block signed b.patch) (record b' { block = some signed }))
  ]

usable-none : (o : Option (List ℕ)) → usable o ≡ none → (o ≡ none) ⊎ (o ≡ some [])
unfolding usable
usable-none none e = inl refl
usable-none (some []) e = inr refl
usable-none (some (x ∷ xs)) e = cc

usable_lem : (o : Option (List ℕ)) (ss : List ℕ) → usable o ≡ some ss → o ≡ some ss
unfolding usable
usable_lem none ss e = cc
usable_lem (some []) ss e = cc
usable_lem (some (x ∷ xs)) ss e = e

close-outcome :
    (env : Env) (b b' : Bft) (blk : Block)
    → b.block ≡ some blk
    → close env b blk ≡ ok b'
    → Committed env b (hash_of blk.hash) b' ⊎ (GaveUp b b' × NoBlock env b (hash_of blk.hash))
unfolding close emit
close-outcome env b b' blk here e =
    let b1 : Bft = record b { state = commit } in
    let signed : List ℕ → Block = λ ss. record blk { signatures = ss } in
    let done : List ℕ → Bft =
      λ ss. emit (commit_block (signed ss) b.patch) (record b1 { block = some (signed ss) }) in
    let finish : Option (List ℕ) → Result Bft =
      λ o. elim o [ none ↦ next_round b1 true | some ss ↦ ok (done ss) ] in
    let (sigs, e1, r1) = >>=-eq-ok (get_signatures_for_block env b1) (λ s. finish (usable s)) e in
    elim (Option-cases (usable sigs)) [
      | inl n ↦ inr (
        next_round-GaveUp b1 b' true (rw n at r1),
        inr (blk, sigs, here, refl, e1, usable-none sigs n),
      )
      | inr (ss, u) ↦
          let same : done ss ≡ b' = (let r : ok (done ss) ≡ ok b' = rw u at r1 in cc) in
          let backed =
            get_signatures-quorum env b1 blk ss here (e1 ∙ ap ok (usable_lem sigs ss u)) in
          inl (
            subst (Committed env b (hash_of blk.hash)) same
              (blk, ss, here, refl, refl, refl, backed))
    ]

-- When the handler of an agreed vote returns, one of three things holds. The vote is for the node's own block, a quorum of members signed its hash, and the block is handed over with their signatures. Or the vote is for a block that the node does not have, and it waits with its own block kept and nothing sent. Or it gives the round up, drops the block and tells the others the next round; and then the vote was to reject, or it was for the node's own block and the votes seen give no signatures of a quorum.
pub vote_agreed-outcome :
    (env : Env) (b b' : Bft) (v : BlockHash)
    → vote_agreed env b v ≡ ok b'
    → Committed env b v b' ⊎ (Waits b v b' ⊎ (GaveUp b b' × NoBlock env b v))
unfolding vote_agreed close
vote_agreed-outcome env b b' reject e = inr (inr (next_round-GaveUp b b' true e, inl refl))
vote_agreed-outcome env b b' (hash_of h) e =
    let b1 : Bft = record b { state = commit } in
    let on : Option Block → Result Bft =
      λ o. elim o [ none ↦ ok b1 | some blk ↦ if h == blk.hash then close env b blk else ok b1 ] in
    elim (Option-cases b.block) [
      | inl n ↦
          let same : b1 ≡ b' = (let r : on none ≡ ok b' = subst (λ o. on o ≡ ok b') n e in cc) in
          inr (inl (subst (Waits b (hash_of h)) same (refl, refl, refl, inl n)))
      | inr (blk, here) ↦
          let r : on (some blk) ≡ ok b' = subst (λ o. on o ≡ ok b') here e in
          elim (Bool-cases (h == blk.hash)) [
            | inl mine ↦
                let hash : blk.hash ≡ h = ground (arith, mine) in
                elim (close-outcome env b b' blk here (rw mine at r)) [
                  | inl committed ↦ inl (subst (λ k. Committed env b (hash_of k) b') hash committed)
                  | inr (gave_up, why) ↦
                      inr (inr (gave_up, subst (λ k. NoBlock env b (hash_of k)) hash why))
                ]
            | inr other ↦
                let same : b1 ≡ b' = (let q : ok b1 ≡ ok b' = rw other at r in cc) in
                let differs : ¬ (hash_of h ≡ hash_of blk.hash) =
                  λ e. (let one : h ≡ blk.hash = cc in ground (arith, one, other)) in
                inr (
                  inl
                    (subst (Waits b (hash_of h)) same (refl, refl, refl, inr (blk, here, differs))))
          ]
    ]
