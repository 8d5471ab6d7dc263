-- ===== src/Patch/Spend.antt =====
-- Spending and creating coins in a patch: what each call changes, when it throws, and that the patch
-- stays valid.
use cil_core.Base.{
  ℕ, ◌≡◌, refl, sym, ◌∙◌, ◌⊎◌, inl, inr, true, ◌&&◌, none, some, arith, ◌==◌, if◌then◌else◌,
  Bool-cases, Option-cases, Error, already_added, already_deleted, ok, err,
}
use cil_core.JsMap.{get, set, has, get_or, get-set, set-Distinct}
use cil_core.Utxo
use cil_core.Utxo.{Coins, Utxo}
use cil_core.Utxo.View.{view}
use cil_core.Utxo.Laws.{
  clone_lem, spend_coins-Updates, add_coins-Updates, create-IsValid, tx_hash-create, view-create,
}
use cil_core.Patch.{
  Codec, PatchDb, get_utxo, get_spent_outputs, set_spent_output, spend_coins, create_coins,
}
use cil_core.Patch.View.{
  unspent, spent_by, IsValid, get_spent_outputs-set, spent_by-set, spent_by-coins,
}

abbrev pub install : PatchDb → ℕ → Utxo → PatchDb
install p h u = record p { coins = set p.coins h u }

pub unspent-install :
    (p : PatchDb) (h : ℕ) (u : Utxo) (j k : ℕ)
    → unspent (install p h u) j k ≡ (if h == j then view u k else unspent p j k)
unfolding unspent
unspent-install p h u j k = ground (arith, get-set p.coins h j u)

pub install-IsValid :
    (p : PatchDb) (h : ℕ) (u : Utxo)
    → IsValid p
    → Utxo.IsValid u
    → u.tx_hash ≡ h
    → ((i t : ℕ) → spent_by p h i ≡ some t → view u i ≡ none)
    → IsValid (install p h u)
unfolding get_spent_outputs
install-IsValid p h u v vu e fresh = record {
  utxo_valid = λ j w g. elim (Bool-cases (h == j)) [
    | inl s ↦ let same : w ≡ u = ground (arith, get-set p.coins h j u) in rw same (vu, ground arith)
    | inr s ↦ v.utxo_valid j w (ground (arith, get-set p.coins h j u))
  ];
  tracked = λ j i t g.
      ground
        (arith, get-set p.coins h j u, v.tracked j i t, spent_by-coins p (set p.coins h u) j i);
  disjoint = λ j i t g.
      let s : spent_by p j i ≡ some t = sym (spent_by-coins p (set p.coins h u) j i) ∙ g in
      ground (arith, unspent-install p h u j i, v.disjoint j i t s, fresh i t);
  spent_distinct = v.spent_distinct;
}

pub unspent-set_spent :
    (p : PatchDb) (h i t j k : ℕ) → unspent (set_spent_output p h i t) j k ≡ unspent p j k
unfolding unspent set_spent_output
unspent-set_spent p h i t j k = refl

pub set_spent-IsValid :
    (p : PatchDb) (h i t : ℕ)
    → IsValid p
    → has p.coins h ≡ true
    → unspent p h i ≡ none
    → IsValid (set_spent_output p h i t)
unfolding set_spent_output
set_spent-IsValid p h i t v there gone = record {
  utxo_valid = v.utxo_valid;
  tracked = λ j k s g. ground (arith, spent_by-set p h i t j k, v.tracked j k s);
  disjoint = λ j k s g.
      ground (arith, spent_by-set p h i t j k, v.disjoint j k s, unspent-set_spent p h i t j k);
  spent_distinct = λ j. ground (
    arith,
    get_spent_outputs-set p h i t j,
    v.spent_distinct j,
    set-Distinct (get_spent_outputs p h) i t (v.spent_distinct h),
  );
}

-- The UTXO that `spendCoins` works on: the patch's own version where it has one.
abbrev pub current : PatchDb → Utxo → Utxo
current p u = elim (get p.coins u.tx_hash) [ some w ↦ w | none ↦ u ]

current-IsValid :
    (p : PatchDb) (u : Utxo)
    → IsValid p
    → Utxo.IsValid u
    → Utxo.IsValid (current p u) × ((current p u).tx_hash ≡ u.tx_hash)
current-IsValid p u v vu = elim (Option-cases (get p.coins u.tx_hash)) [
  | inl e ↦ rw (e, current) (vu, refl)
  | inr (w, e) ↦ rw (e, current) (v.utxo_valid u.tx_hash w e)
]

current-disjoint :
    (p : PatchDb) (u : Utxo) (i t : ℕ)
    → IsValid p
    → spent_by p u.tx_hash i ≡ some t
    → view (current p u) i ≡ none
unfolding unspent
current-disjoint p u i t v s = ground (arith, v.tracked u.tx_hash i t s, v.disjoint u.tx_hash i t s)

spend_coins-current :
    (codec : Codec) (p : PatchDb) (u : Utxo) (n tx : ℕ) {u' : Utxo}
    → Utxo.spend_coins (current p u) n ≡ ok u'
    → spend_coins codec p u n tx ≡ ok (set_spent_output (install p u.tx_hash u') u.tx_hash n tx)
unfolding spend_coins get_utxo
spend_coins-current codec p u n tx h = ground (arith, clone_lem codec.utxo u)

spend_coins-missing :
    (codec : Codec) (p : PatchDb) (u : Utxo) (n tx : ℕ) {e : Error}
    → Utxo.spend_coins (current p u) n ≡ err e
    → spend_coins codec p u n tx ≡ err e
unfolding spend_coins get_utxo
spend_coins-missing codec p u n tx h = ground (arith, clone_lem codec.utxo u)

-- Spending an output of a valid patch throws exactly where the output is not unspent, in the patch's
-- own version of the UTXO or, where it has none, in the one given. Otherwise the result is a valid
-- patch in which that output alone is no longer unspent, and is recorded as spent by `tx`.
pub spend_coins_lem :
    (codec : Codec) (p : PatchDb) (u : Utxo) (n tx : ℕ)
    → IsValid p
    → Utxo.IsValid u
    → ((view (current p u) n ≡ none) × (spend_coins codec p u n tx ≡ err already_deleted))
      ⊎ ((c : Coins) × (p' : PatchDb) × (view (current p u) n ≡ some c)
          × (spend_coins codec p u n tx ≡ ok p')
          × IsValid p'
          × ((j k : ℕ)
              → unspent p' j k ≡ (
                  if u.tx_hash == j
                  then (if n == k then none else view (current p u) k)
                  else unspent p j k))
          × ((j k : ℕ)
              → spent_by p' j k ≡ (if u.tx_hash == j && n == k then some tx else spent_by p j k)))
spend_coins_lem codec p u n tx v vu =
    let (vc, hash) = current-IsValid p u v vu in
    elim (spend_coins-Updates (current p u) n vc) [
      | inl (gone, e) ↦ inl (gone, spend_coins-missing codec p u n tx e)
      | inr (c, u', held, run, (vu', hash', look)) ↦
          let q = install p u.tx_hash u' in
          let at : (k : ℕ)
              → unspent q u.tx_hash k ≡ (if n == k then none else view (current p u) k) =
            λ k. ground (arith, unspent-install p u.tx_hash u' u.tx_hash k, look k) in
          let vq : IsValid q =
            install-IsValid p u.tx_hash u' v vu' (hash' ∙ hash)
              (λ i t s. ground (arith, look i, current-disjoint p u i t v s)) in
          inr (
            c,
            set_spent_output q u.tx_hash n tx,
            held,
            spend_coins-current codec p u n tx run,
            set_spent-IsValid q u.tx_hash n tx vq
                (ground (arith, get-set p.coins u.tx_hash u.tx_hash u')) (ground (arith, at n)),
            (λ j k. ground (
              arith,
              unspent-set_spent q u.tx_hash n tx j k,
              unspent-install p u.tx_hash u' j k,
              look k,
            )),
            (λ j k. ground (
              arith,
              spent_by-set q u.tx_hash n tx j k,
              spent_by-coins p (set p.coins u.tx_hash u') j k,
            )),
          )
    ]

create_coins-existing :
    (p : PatchDb) (h : ℕ)
    → IsValid p
    → let u = get_or p.coins h (Utxo.create h) in
      Utxo.IsValid u × (u.tx_hash ≡ h) × ((k : ℕ) → view u k ≡ unspent p h k)
unfolding unspent
create_coins-existing p h v = elim (Option-cases (get p.coins h)) [
  | inl e ↦ rw (e, get_or) (create-IsValid h, tx_hash-create h, λ k. rw (view-create h k))
  | inr (w, e) ↦ let (vw, eq) = v.utxo_valid h w e in rw (e, get_or) (vw, eq, λ k. refl)
]

-- Creating coins in a valid patch, at an output that it has not recorded as spent, throws exactly
-- where that output is already unspent. Otherwise the result is a valid patch that has the coins
-- there, and is as before at every other output.
pub create_coins_lem :
    (p : PatchDb) (h i : ℕ) (c : Coins)
    → IsValid p
    → spent_by p h i ≡ none
    → ((d : Coins) × (unspent p h i ≡ some d) × (create_coins p h i c ≡ err already_added))
      ⊎ ((p' : PatchDb) × (unspent p h i ≡ none)
          × (create_coins p h i c ≡ ok p')
          × IsValid p'
          × ((j k : ℕ) → unspent p' j k ≡ (if h == j && i == k then some c else unspent p j k))
          × ((j k : ℕ) → spent_by p' j k ≡ spent_by p j k))
unfolding create_coins
create_coins_lem p h i c v free =
    let (vu, hash, same) = create_coins-existing p h v in
    elim (add_coins-Updates (get_or p.coins h (Utxo.create h)) i c vu) [
      | inl (d, held, e) ↦ inl (d, sym (same i) ∙ held, rw (e, create_coins))
      | inr (u', gone, run, (vu', hash', look)) ↦ inr (
        install p h u',
        sym (same i) ∙ gone,
        rw (run, create_coins),
        install-IsValid p h u' v vu' (hash' ∙ hash)
            (λ k t s. ground (arith, look k, same k, v.disjoint h k t s)),
        (λ j k. ground (arith, unspent-install p h u' j k, look k, same k)),
        (λ j k. spent_by-coins p (set p.coins h u') j k),
      )
    ]
