-- ===== src/Receipt.antt =====
-- structures/txReceipt.js: what executing a transaction did. A method returns the receipt beside its
-- result, since a throw leaves what was written before it.
pub mod Laws
use cil_core.Base.{
  ℕ, zero, suc, ◌+◌, ◌-◌, ◌*◌, ◌/◌, ◌%◌, ◌≤◌, ◌<◌, ◌≡◌, refl, sym, ap, ◌∙◌, subst, ◌≢◌, ◌↔◌, ◌⊎◌,
  inl, inr, Bool, true, false, ◌&&◌, ◌||◌, not, Option, none, some, List, [], ◌∷◌, ◌++◌, map, arith,
  ltb, leb, ◌==◌, if◌then◌else◌, eq_of_test, test_self, test_ne, Bool-cases, Option-cases, length,
  get_elem?, erase_at, filter, all, length-append, length-filter-le, length-map, contains,
  contains-append, contains-filter, Distinct, unique, unique_after, Error, already_added,
  already_deleted, already_spent, integrity, unexpected_fork, double_spend, different_conciliums,
  tx_collision, failed_tx, less_coins_used, concilium_specified, type_error, not_initialised,
  round_exceeded, not_supposed, not_found, wrong_address, no_block, zero_quorum, no_views,
  already_in_mempool, no_tx, no_address, no_contract_concilium, insufficient_funds,
  unexpected_situation, Result, ok, err, ◌>>=◌, ◌>>◌, guard, or_throw, Result-cases, >>=-eq-ok,
}
use cil_core.Utxo.{Coins, Utxo, find_index, coins_at_index}

pub record TxReceipt : Type 0 where
  pub contract_address : Option ℕ
  pub coins_used : ℕ
  pub status : ℕ
  pub message : Option ℕ
  pub internal_txns : List ℕ
  pub coins : List Coins

abbrev pub tx_status_ok : ℕ
tx_status_ok = 1

abbrev pub tx_status_failed : ℕ
tx_status_failed = 0

-- What `txReceiptProto` is relied on for.
pub record TxReceiptProto : Type 0 where
  pub encode : TxReceipt → List ℕ
  pub decode : List ℕ → TxReceipt
  pub decode-encode : (r : TxReceipt) → decode (encode r) ≡ r

unfoldable pub is_successful : TxReceipt → Bool
is_successful r = r.status == tx_status_ok

unfoldable pub set_status : TxReceipt → ℕ → TxReceipt
set_status r s = record r { status = s }

unfoldable pub update_coins_used : TxReceipt → ℕ → TxReceipt
update_coins_used r n = record r { coins_used = n }

-- The two arrays are joined before the `assert` that may throw.
unfoldable pub merge : TxReceipt → TxReceipt → Result (Unit {0}) × TxReceipt
unfolding is_successful set_status update_coins_used
merge r s =
    let joined : TxReceipt = record r {
      internal_txns = r.internal_txns ++ s.internal_txns;
      coins = r.coins ++ s.coins;
    } in
    if leb r.coins_used s.coins_used
    then (
      ok tt,
      set_status (update_coins_used joined s.coins_used)
          (if is_successful s && is_successful joined then tx_status_ok else tx_status_failed),
    )
    else (err less_coins_used, joined)

-- `Buffer.equals`.
unfoldable pub bytes_equal : List ℕ → List ℕ → Bool
bytes_equal [] [] = true
bytes_equal [] (y ∷ ys) = false
bytes_equal (x ∷ xs) [] = false
bytes_equal (x ∷ xs) (y ∷ ys) = if x == y then bytes_equal xs ys else false

unfoldable pub equals : TxReceiptProto → TxReceipt → TxReceipt → Bool
unfolding bytes_equal
equals p r s = bytes_equal (p.encode r) (p.encode s)

-- The hash is pushed before the coins are read.
unfoldable pub add_internal_utxo : TxReceipt → Utxo → Result (Unit {0}) × TxReceipt
add_internal_utxo r u =
    let pushed : TxReceipt = record r { internal_txns = r.internal_txns ++ u.tx_hash ∷ [] } in
    elim (coins_at_index u 0) [
      | ok c ↦ (ok tt, record pushed { coins = pushed.coins ++ c ∷ [] })
      | err e ↦ (err e, pushed)
    ]

unfoldable pub get_coins_for_tx : TxReceipt → ℕ → Result Coins
get_coins_for_tx r hash = elim (find_index r.internal_txns hash) [
  | none ↦ err not_found
  | some i ↦ or_throw (get_elem? r.coins i) type_error
]
