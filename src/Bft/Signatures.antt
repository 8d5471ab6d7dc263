-- ===== src/Bft/Signatures.antt =====
-- The signatures that `_getSignaturesForBlock` of node/bftConsensus.js puts under a block.
use cil_core.Base.{
  ℕ, ◌+◌, ◌≤◌, ◌<◌, ◌≡◌, refl, subst, ◌⊎◌, inl, inr, not, Option, none, some, List, [], ◌∷◌, arith,
  leb, ◌==◌, if◌then◌else◌, no_block, zero_quorum, no_views, Result, ok, ◌>>=◌, ◌>>◌, guard,
  or_throw, >>=-eq-ok,
}
use cil_core.Conciliums.Concilium
use cil_core.Conciliums.Concilium.{Concilium}
use cil_core.Conciliums.Quorum.{sum_weights}
use cil_core.Bft.Types.{reject, hash_of, ViewData, next_round_view, vote, Block, Views, Env, Bft}
use cil_core.Bft.Majority.{majority, witness_data}
use cil_core.Bft.Gather.{vote_signature, gather, get_signatures_for_block}

-- Each signature is its signer's, for this block.
abbrev pub SignedBy : Env → ℕ → List ℕ → List ℕ → Type 0
SignedBy env h [] [] = Unit
SignedBy env h (a ∷ as') (s ∷ ss) = (env.recover h s ≡ a) × SignedBy env h as' ss
SignedBy env h [] (s ∷ ss) = ⊥
SignedBy env h (a ∷ as') [] = ⊥

-- The members of `xs` are among those of `ys`, in the same order and no more often.
abbrev pub Sublist : List ℕ → List ℕ → Type 0
Sublist [] ys = Unit
Sublist (x ∷ xs) [] = ⊥
Sublist (x ∷ xs) (y ∷ ys) = ((x ≡ y) × Sublist xs ys) ⊎ Sublist (x ∷ xs) ys

Sublist-skip : (xs ys : List ℕ) (y : ℕ) → Sublist xs ys → Sublist xs (y ∷ ys)
Sublist-skip [] ys y s = tt
Sublist-skip (x ∷ xs) ys y s = inr s

vote_signature_lem :
    (env : Env) (h a s : ℕ) (v : Option ViewData)
    → vote_signature env h a v ≡ some s
    → env.recover h s ≡ a
unfolding vote_signature
vote_signature_lem env h a s none e = cc
vote_signature_lem env h a s (some (next_round_view n)) e = cc
vote_signature_lem env h a s (some (vote reject t)) e = cc
vote_signature_lem env h a s (some (vote (hash_of k) none)) e = cc
vote_signature_lem env h a s (some (vote (hash_of k) (some t))) e = ground arith

module _ (env : Env) (b : Bft) (views : Views) (h : ℕ) where
  abbrev Gathered : List ℕ → List ℕ → ℕ → Type 0
  Gathered as' sigs sum =
      (signers : List ℕ) × SignedBy env h signers sigs
      × Sublist signers as'
      × (sum_weights b.concilium signers ≡ ok sum)

  -- One member more: its signature and weight are added where its vote counts.
  with_member :
      (a : ℕ) (rest sigs sigs' : List ℕ) (w sum sum' : ℕ) (sig : Option ℕ)
      → ((s : ℕ) → sig ≡ some s → env.recover h s ≡ a)
      → elim sig [ none ↦ ok 0 | some s ↦ Concilium.get_witness_weight b.concilium a ] ≡ ok w
      → Gathered rest sigs sum
      → (elim sig [ none ↦ sigs | some s ↦ s ∷ sigs ] ≡ sigs') × (w + sum ≡ sum')
      → Gathered (a ∷ rest) sigs' sum'
  unfolding sum_weights
  with_member a rest sigs sigs' w sum sum' none own weight (signers, by, sub, total) (e, n) = (
    signers,
    subst (SignedBy env h signers) e by,
    Sublist-skip signers rest a sub,
    ground (arith, total),
  )
  with_member a rest sigs sigs' w sum sum' (some s) own weight (signers, by, sub, total) (e, n) = (
    a ∷ signers,
    subst (SignedBy env h (a ∷ signers)) e (own s refl, by),
    inl (refl, sub),
    ground (arith, weight, total),
  )

  gather_lem :
      (as' sigs : List ℕ) (sum : ℕ)
      → gather env b views h as' ≡ ok (sigs, sum)
      → Gathered as' sigs sum
  unfolding gather sum_weights
  gather_lem [] sigs sum e =
      let same : [] ≡ sigs = cc in ([], subst (SignedBy env h []) same tt, tt, cc)
  gather_lem (a ∷ rest) sigs sum e =
      let sig : Option ViewData → Option ℕ = vote_signature env h a in
      let last : Option ViewData → ℕ → List ℕ × ℕ → Result (List ℕ × ℕ) =
        λ v w r. ok (elim (sig v) [ none ↦ r.0 | some s ↦ s ∷ r.0 ], w + r.1) in
      let weigh : Option ViewData → Result ℕ =
        λ v. elim (sig v) [ none ↦ ok 0 | some s ↦ Concilium.get_witness_weight b.concilium a ] in
      let (seen, e1, r1) =
        >>=-eq-ok (witness_data views b.addresses a)
          (λ seen. majority env b.concilium b.addresses seen >>= λ v.
            weigh v >>= λ w. gather env b views h rest >>= last v w)
          e in
      let (v, e2, r2) =
        >>=-eq-ok (majority env b.concilium b.addresses seen)
          (λ v. weigh v >>= λ w. gather env b views h rest >>= last v w) r1 in
      let (w, e3, r3) = >>=-eq-ok (weigh v) (λ w. gather env b views h rest >>= last v w) r2 in
      let ((sigs', sum'), e4, r4) = >>=-eq-ok (gather env b views h rest) (last v w) r3 in
      with_member a rest sigs' sigs w sum' sum (sig v) (λ s. vote_signature_lem env h a s v) e3
        (gather_lem rest sigs' sum' e4) (cc, cc)

finished :
    (q w : ℕ) (ss sigs : List ℕ)
    → (guard (not (q == 0)) zero_quorum >> ok (if leb q w then some ss else none)) ≡ ok (some sigs)
    → (ss ≡ sigs) × (q ≤ w) × (0 < q)
finished q w ss sigs e = ground arith

-- For every state with a block, whose hash is taken: the signatures that `_getSignaturesForBlock`
-- returns are those of members, each for this block's hash, in the members' order and one for each, and
-- the weights of these members add up to the quorum, which is not zero.
pub get_signatures-quorum :
    (env : Env) (b : Bft) (blk : Block) (sigs : List ℕ)
    → b.block ≡ some blk
    → get_signatures_for_block env b ≡ ok (some sigs)
    → (signers : List ℕ) × (w : ℕ) × SignedBy env blk.hash signers sigs
      × Sublist signers b.addresses
      × (sum_weights b.concilium signers ≡ ok w)
      × (Concilium.get_quorum b.concilium ≤ w)
      × (0 < Concilium.get_quorum b.concilium)
unfolding get_signatures_for_block
get_signatures-quorum env b blk sigs here e =
    let q = Concilium.get_quorum b.concilium in
    let finish : List ℕ × ℕ → Result (Option (List ℕ)) =
      λ r. guard (not (q == 0)) zero_quorum >> ok (if leb q r.1 then some r.0 else none) in
    let from_views : Block → Views → Result (Option (List ℕ)) =
      λ k views. gather env b views k.hash b.addresses >>= finish in
    let pick : Result Views = elim b.addresses [
      | [] ↦ ok []
      | a ∷ rest ↦ or_throw b.prev_views no_views
    ] in
    let r0 : (pick >>= from_views blk) ≡ ok (some sigs) =
      subst (λ o. (or_throw o no_block >>= λ k. pick >>= from_views k) ≡ ok (some sigs)) here e in
    let (views, e1, r1) = >>=-eq-ok pick (from_views blk) r0 in
    let ((ss, w), e2, r2) = >>=-eq-ok (gather env b views blk.hash b.addresses) finish r1 in
    let (signers, by, sub, total) = gather_lem env b views blk.hash b.addresses ss w e2 in
    let (same, high, positive) = finished q w ss sigs r2 in
    (signers, w, subst (SignedBy env blk.hash signers) same by, sub, total, high, positive)
