-- ===== src/Patch/Merge.antt =====
-- `merge` of storage/patch.js: joining two patches, or a throw where they conflict.
pub mod Spends
pub mod Unspent
pub mod Entry
pub mod Coin
pub mod Both
pub mod Laws
pub mod Safety
use cil_core.Base.{
  ℕ, Bool, true, false, ◌||◌, not, Option, none, some, List, [], ◌∷◌, ◌++◌, leb, ◌==◌,
  if◌then◌else◌, unique, unexpected_fork, double_spend, different_conciliums, tx_collision,
  type_error, Result, ok, err, ◌>>=◌, ◌>>◌, guard, or_throw,
}
use cil_core.JsMap.{Map, get, set, keys, get_or, size}
use cil_core.Utxo
use cil_core.Utxo.{Utxo, array_intersection}
use cil_core.Contract
use cil_core.Contract.{Contract}
use cil_core.Receipt
use cil_core.Receipt.{TxReceipt}
use cil_core.Patch.{
  Codec, PatchDb, empty, get_spent_outputs, set_spent_output, create_coins, set_utxo, get_level,
  get_contract, set_contract, set_receipt,
}

-- `===` on values that may be `undefined`.
abbrev pub option_equal : Option ℕ → Option ℕ → Bool
option_equal none none = true
option_equal none (some b) = false
option_equal (some a) none = false
option_equal (some a) (some b) = a == b

-- `a >= b`: a comparison with `undefined` is false.
abbrev pub level_ge : Option ℕ → Option ℕ → Bool
level_ge (some a) (some b) = leb b a
level_ge (some a) none = false
level_ge none b = false

-- `getMapsKeysUnique` of utils.js, for two maps.
unfoldable pub keys_unique {ℓ κ} : {V : Type ℓ} {W : Type κ} → Map V → Map W → List ℕ
keys_unique a b = unique (keys a ++ keys b)

unfoldable pub merge_levels : PatchDb → PatchDb → List ℕ → PatchDb → PatchDb
merge_levels this patch [] acc = acc
merge_levels this patch (id ∷ ids) acc =
    let mine = get_or this.concilium_level id 0 in
    let his = get_or patch.concilium_level id 0 in
    merge_levels this patch ids (record acc {
      concilium_level = set acc.concilium_level id (if leb mine his then his else mine);
    })

-- `for (let [idx, hash] of map) resultPatch._setSpentOutput(coinHash, idx, hash)`
unfoldable pub set_spent_all : PatchDb → ℕ → Map ℕ → PatchDb
unfolding set_spent_output
set_spent_all acc h [] = acc
set_spent_all acc h ((idx, tx) ∷ m) = set_spent_all (set_spent_output acc h idx tx) h m

-- Only one patch has the UTXO.
unfoldable pub keep_one : Codec → PatchDb → PatchDb → PatchDb → ℕ → Utxo → PatchDb
unfolding set_spent_all get_spent_outputs
keep_one codec this patch acc h u =
    let mine = get_spent_outputs this h in
    let chosen = if size mine == 0 then get_spent_outputs patch h else mine in
    set_spent_all (record acc { coins = set acc.coins h (Utxo.clone codec.utxo u) }) h chosen

unfoldable pub create_all : PatchDb → ℕ → Utxo → List ℕ → Result PatchDb
unfolding create_coins
create_all acc h mine [] = ok acc
create_all acc h mine (idx ∷ idxs) = do
  c ← Utxo.coins_at_index mine idx
  acc' ← create_coins acc h idx c
  create_all acc' h mine idxs

-- The double-spend check over the outputs that both patches spend.
unfoldable pub check_spends : Map ℕ → Map ℕ → List ℕ → Result (Unit {0})
check_spends mine his [] = ok tt
check_spends mine his (idx ∷ idxs) = do
  a ← or_throw (get mine idx) type_error
  b ← or_throw (get his idx) type_error
  guard (a == b) double_spend
  check_spends mine his idxs

-- Both patches have the UTXO.
unfoldable pub merge_both : Codec → PatchDb → PatchDb → PatchDb → ℕ → Utxo → Utxo → Result PatchDb
unfolding create_all check_spends set_spent_all set_utxo
merge_both codec this patch acc h mine his = do
  let unspent = array_intersection mine.indexes his.indexes
  acc' ← create_all (set_utxo codec acc (Utxo.create h)) h mine unspent
  let my_spent = get_spent_outputs this h
  let his_spent = get_spent_outputs patch h
  check_spends my_spent his_spent (array_intersection (keys my_spent) (keys his_spent))
  ok (set_spent_all (set_spent_all acc' h my_spent) h his_spent)

unfoldable pub merge_coin : Codec → PatchDb → PatchDb → PatchDb → ℕ → Result PatchDb
unfolding keep_one merge_both
merge_coin codec this patch acc h = elim (get this.coins h) [
  | none ↦ elim (get patch.coins h) [
    | none ↦ err type_error
    | some his ↦ ok (keep_one codec this patch acc h his)
  ]
  | some mine ↦ elim (get patch.coins h) [
    | none ↦ ok (keep_one codec this patch acc h mine)
    | some his ↦ merge_both codec this patch acc h mine his
  ]
]

unfoldable pub merge_coins : Codec → PatchDb → PatchDb → List ℕ → PatchDb → Result PatchDb
unfolding merge_coin
merge_coins codec this patch [] acc = ok acc
merge_coins codec this patch (h ∷ hs) acc = do
  acc' ← merge_coin codec this patch acc h
  merge_coins codec this patch hs acc'

unfoldable pub winner : PatchDb → PatchDb → Bool → ℕ → Result Contract
winner this patch prefer addr = elim (get_contract this addr) [
  | none ↦ or_throw (get_contract patch addr) type_error
  | some mine ↦ elim (get_contract patch addr) [
    | none ↦ ok mine
    | some his ↦ do
      guard (option_equal mine.concilium_id his.concilium_id) different_conciliums
      ok (
          if prefer
            || level_ge (get_level patch his.concilium_id) (get_level this mine.concilium_id)
          then his
          else mine)
  ]
]

unfoldable pub merge_contracts :
    Codec → PatchDb → PatchDb → Bool → List ℕ → PatchDb → Result PatchDb
unfolding winner
merge_contracts codec this patch prefer [] acc = ok acc
merge_contracts codec this patch prefer (addr ∷ addrs) acc = do
  c ← winner this patch prefer addr
  (copy, _) ← Contract.clone codec.contract c
  acc' ← set_contract codec acc copy
  merge_contracts codec this patch prefer addrs acc'

unfoldable pub pick_receipt : Codec → PatchDb → PatchDb → ℕ → Result TxReceipt
pick_receipt codec this patch h = elim (get this.receipts h) [
  | none ↦ or_throw (get patch.receipts h) type_error
  | some mine ↦ elim (get patch.receipts h) [
    | none ↦ ok mine
    | some his ↦ do guard (Receipt.equals codec.receipt mine his) tx_collision; ok mine
  ]
]

unfoldable pub merge_receipts : Codec → PatchDb → PatchDb → List ℕ → PatchDb → Result PatchDb
unfolding pick_receipt
merge_receipts codec this patch [] acc = ok acc
merge_receipts codec this patch (h ∷ hs) acc = do
  r ← pick_receipt codec this patch h
  let (res, acc') = set_receipt acc h r
  _ ← res
  merge_receipts codec this patch hs acc'

-- Two patches of one concilium at one level are a fork.
unfoldable pub check_fork : PatchDb → PatchDb → Bool → Result (Unit {0})
check_fork this patch true = ok tt
check_fork this patch false = elim this.concilium_id [
  | none ↦ ok tt
  | some i ↦ elim patch.concilium_id [
    | none ↦ ok tt
    | some j ↦
        guard
          (not (i == j) || not (option_equal (get_level this (some i)) (get_level patch (some j))))
          unexpected_fork
  ]
]

unfoldable pub merge : Codec → PatchDb → PatchDb → Bool → Result PatchDb
unfolding check_fork merge_levels merge_coins merge_contracts merge_receipts keys_unique
merge codec this patch prefer = do
  check_fork this patch prefer
  let leveled =
      merge_levels this patch (keys_unique this.concilium_level patch.concilium_level) empty
  coined ← merge_coins codec this patch (keys_unique this.coins patch.coins) leveled
  contracted ←
      merge_contracts codec this patch prefer (keys_unique this.contracts patch.contracts) coined
  merge_receipts codec this patch (keys_unique this.receipts patch.receipts) contracted
