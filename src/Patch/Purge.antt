-- ===== src/Patch/Purge.antt =====
-- `purge` of storage/patch.js: what a stable patch makes superfluous in a patch that is built on it.
use cil_core.Base.{
  ℕ, Bool, true, false, ◌&&◌, none, some, List, [], ◌∷◌, ◌==◌, if◌then◌else◌, contains, type_error,
  Result, ok, ◌>>=◌, or_throw,
}
use cil_core.JsMap.{Map, get, delete, keys, has, size}
use cil_core.Utxo
use cil_core.Utxo.{Utxo}
use cil_core.Contract
use cil_core.Contract.{Contract}
use cil_core.Receipt.{bytes_equal}
use cil_core.Patch.{
  Codec, PatchDb, get_utxo, get_spent_outputs, spend_coins, remove_utxo, get_contract,
}

-- The loop of `_spendingTnxsEqual`.
unfoldable pub spends_included : Map ℕ → Map ℕ → Bool
spends_included [] his = true
spends_included ((idx, tx) ∷ m) his =
    let rest = spends_included m his in
    elim (get his idx) [ none ↦ false | some t ↦ if t == tx then rest else false ]

unfoldable pub spending_txns_equal : Map ℕ → Map ℕ → Bool
unfolding spends_included
spending_txns_equal mine his = if size mine == size his then spends_included mine his else false

-- `setUnspentIndexes` is a copy made before the loop.
unfoldable pub spend_also : Codec → PatchDb → Utxo → List ℕ → Map ℕ → Result PatchDb
spend_also codec p u unspent [] = ok p
spend_also codec p u unspent ((idx, tx) ∷ m) = do
  p' ← if contains unspent idx then spend_coins codec p u idx tx else ok p
  spend_also codec p' u unspent m

unfoldable pub purge_coin : Codec → PatchDb → PatchDb → ℕ → Result PatchDb
unfolding spending_txns_equal spend_also
purge_coin codec p patch h = elim (get_utxo p h) [
  | none ↦ ok p
  | some u ↦ do
    his ← or_throw (get_utxo patch h) type_error
    same ← Utxo.equals u his
    if same && spending_txns_equal (get_spent_outputs p h) (get_spent_outputs patch h)
        then ok (remove_utxo p u.tx_hash)
        else spend_also codec p u u.indexes (get_spent_outputs patch u.tx_hash)
]

unfoldable pub purge_coins : Codec → PatchDb → PatchDb → List ℕ → Result PatchDb
unfolding purge_coin
purge_coins codec p patch [] = ok p
purge_coins codec p patch (h ∷ hs) = do
  p' ← purge_coin codec p patch h
  purge_coins codec p' patch hs

unfoldable pub purge_contract : Codec → PatchDb → PatchDb → ℕ → Result PatchDb
purge_contract codec p patch addr = elim (get_contract p addr) [
  | none ↦ ok p
  | some mine ↦ elim (get_contract patch addr) [
    | none ↦ ok p
    | some his ↦ do
      a ← Contract.get_data_buffer codec.contract mine
      b ← Contract.get_data_buffer codec.contract his
      ok (if bytes_equal a b then record p { contracts = delete p.contracts addr } else p)
  ]
]

unfoldable pub purge_contracts : Codec → PatchDb → PatchDb → List ℕ → Result PatchDb
unfolding purge_contract
purge_contracts codec p patch [] = ok p
purge_contracts codec p patch (addr ∷ addrs) = do
  p' ← purge_contract codec p patch addr
  purge_contracts codec p' patch addrs

unfoldable pub purge_receipts : PatchDb → List ℕ → PatchDb
purge_receipts p [] = p
purge_receipts p (h ∷ hs) =
    purge_receipts (if has p.receipts h then record p { receipts = delete p.receipts h } else p) hs

unfoldable pub purge : Codec → PatchDb → PatchDb → Result PatchDb
unfolding purge_coins purge_contracts purge_receipts
purge codec p patch = do
  p' ← purge_coins codec p patch (keys patch.coins)
  p'' ← purge_contracts codec p' patch (keys patch.contracts)
  ok (purge_receipts p'' (keys patch.receipts))
