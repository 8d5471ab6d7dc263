-- ===== src/Receipt/Laws.antt =====
-- A receipt keeps one coin for each internal transaction, and its merges only grow.
use cil_core.Base.{
  ℕ, ◌≤◌, ◌<◌, ◌≡◌, refl, sym, ap, ◌∙◌, ◌↔◌, ◌⊎◌, inl, inr, true, false, ◌&&◌, some, List, [], ◌∷◌,
  ◌++◌, arith, leb, ◌==◌, if◌then◌else◌, Bool-cases, Option-cases, length, length-append, contains,
  not_found, ok, or_throw,
}
use cil_core.Utxo.{Coins, Utxo, find_index, coins_at_index}
use cil_core.Utxo.View.{
  view_of, get_elem?-find_index, view_of_present, view_of_absent, view_of_append,
  find_index_present, find_index_absent,
}
use cil_core.Receipt.{
  TxReceipt, TxReceiptProto, is_successful, merge, bytes_equal, equals, add_internal_utxo,
  get_coins_for_tx,
}

abbrev pub IsAligned : TxReceipt → Type 0
IsAligned r = length r.internal_txns ≡ length r.coins

bytes_equal-eq : (xs ys : List ℕ) → bytes_equal xs ys ≡ true → xs ≡ ys
unfolding bytes_equal
bytes_equal-eq [] [] h = refl
bytes_equal-eq [] (y ∷ ys) h = cc
bytes_equal-eq (x ∷ xs) [] h = cc
bytes_equal-eq (x ∷ xs) (y ∷ ys) h = ground (arith, bytes_equal-eq xs ys)

bytes_equal_refl : (xs : List ℕ) → bytes_equal xs xs ≡ true
unfolding bytes_equal
bytes_equal_refl [] = refl
bytes_equal_refl (x ∷ xs) = ground (arith, bytes_equal_refl xs)

-- Comparing the encodings decides equality of receipts.
equals_iff : (p : TxReceiptProto) (r s : TxReceipt) → (equals p r s ≡ true) ↔ (r ≡ s)
unfolding equals
equals_iff p r s = (
  λ h. sym (p.decode-encode r) ∙ ap p.decode (bytes_equal-eq _ _ h) ∙ p.decode-encode s,
  λ e. rw e (bytes_equal_refl (p.encode s)),
)

-- A merge keeps the receipt aligned, throws exactly when the other receipt has used less, and
-- otherwise ends successful exactly when both were.
merge_lem :
    (r s : TxReceipt)
    → IsAligned r
    → IsAligned s
    → let (res, r') = merge r s in
      IsAligned r'
      × (r'.internal_txns ≡ r.internal_txns ++ s.internal_txns)
      × ((res ≡ ok tt) ↔ (r.coins_used ≤ s.coins_used))
      × (r.coins_used ≤ r'.coins_used)
      × ((s.coins_used < r.coins_used) ⊎ (is_successful r' ≡ is_successful r && is_successful s))
unfolding merge
merge_lem r s hr hs =
    let n = length-append r.internal_txns s.internal_txns in
    let m = length-append r.coins s.coins in
    let ended : (s.coins_used < r.coins_used)
        ⊎ (is_successful (merge r s).1 ≡ is_successful r && is_successful s) =
      elim (Bool-cases (leb r.coins_used s.coins_used)) [
        | inl enough ↦ inr (ground (arith, enough))
        | inr less ↦ inl (ground (arith, less))
      ] in
    (ground (arith, n, m), ground arith, ground arith, ground arith, ended)

get_coins_for_tx_lem :
    (r : TxReceipt) (h : ℕ)
    → IsAligned r
    → get_coins_for_tx r h ≡ or_throw (view_of r.internal_txns r.coins h) not_found
unfolding get_coins_for_tx
get_coins_for_tx_lem r h l = elim (Option-cases (find_index r.internal_txns h)) [
  | inl e ↦
      rw (e, get_coins_for_tx, view_of_absent r.internal_txns r.coins h (find_index_absent _ h e))
  | inr (k, e) ↦
      let (c, p) = view_of_present r.internal_txns r.coins h l (find_index_present _ h k e) in
      rw (e, get_coins_for_tx, get_elem?-find_index r.internal_txns r.coins h k l e, p)
]

-- An internal transaction that is new to an aligned receipt is found again with its coins, and every
-- other one is found as before.
get_coins_for_tx-add_internal_utxo :
    (r : TxReceipt) (u : Utxo) (c : Coins)
    → IsAligned r
    → contains r.internal_txns u.tx_hash ≡ false
    → coins_at_index u 0 ≡ ok c
    → let (res, r') = add_internal_utxo r u in
      (res ≡ ok tt)
      × IsAligned r'
      × ((h : ℕ) → get_coins_for_tx r' h ≡ (if u.tx_hash == h then ok c else get_coins_for_tx r h))
unfolding add_internal_utxo
get_coins_for_tx-add_internal_utxo r u c l fresh e =
    rw (e, add_internal_utxo)
      (
        refl,
        grown,
        λ h. elim (Bool-cases (u.tx_hash == h)) [
          | inl s ↦ rw (get_coins_for_tx_lem after h grown, found h, s)
          | inr s ↦ rw (get_coins_for_tx_lem after h grown, found h, s, get_coins_for_tx_lem r h l)
        ],
      )
  where
    after : TxReceipt
    after = record r {
      internal_txns = r.internal_txns ++ u.tx_hash ∷ [];
      coins = r.coins ++ c ∷ [];
    }

    grown : length (r.internal_txns ++ u.tx_hash ∷ []) ≡ length (r.coins ++ c ∷ [])
    grown =
        omega
          (arith, l, length-append r.internal_txns (u.tx_hash ∷ []), length-append r.coins (c ∷ []))

    found :
        (h : ℕ)
        → view_of (r.internal_txns ++ u.tx_hash ∷ []) (r.coins ++ c ∷ []) h
          ≡ (if u.tx_hash == h then some c else view_of r.internal_txns r.coins h)
    found h = view_of_append r.internal_txns r.coins u.tx_hash h c l fresh
