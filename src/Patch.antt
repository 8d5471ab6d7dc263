-- ===== src/Patch.antt =====
-- storage/patch.js, all but `merge` and `purge` (Patch/Merge and Patch/Purge): the changes that
-- blocks make to the chain state. Hashes, addresses and concilium ids are numbers; a throw gives an
-- error and no state, since each method throws before it writes or is abandoned by its caller.
pub mod Merge
pub mod Purge
pub mod View
pub mod Spend
pub mod Stable
use cil_core.Base.{
  ℕ, zero, suc, ◌+◌, ◌-◌, ◌*◌, ◌/◌, ◌%◌, ◌≤◌, ◌<◌, ◌≡◌, refl, sym, ap, ◌∙◌, subst, ◌≢◌, ◌↔◌, ◌⊎◌,
  inl, inr, Bool, true, false, ◌&&◌, ◌||◌, not, Option, none, some, List, [], ◌∷◌, ◌++◌, map, arith,
  ltb, leb, ◌==◌, if◌then◌else◌, eq_of_test, test_self, test_ne, Bool-cases, Option-cases, length,
  get_elem?, erase_at, filter, all, length-append, length-filter-le, length-map, contains,
  contains-append, contains-filter, Distinct, unique, unique_after, Error, already_added,
  already_deleted, already_spent, integrity, unexpected_fork, double_spend, different_conciliums,
  tx_collision, failed_tx, less_coins_used, concilium_specified, type_error, not_initialised,
  round_exceeded, not_supposed, not_found, wrong_address, no_block, zero_quorum, no_views,
  already_in_mempool, no_tx, no_address, no_contract_concilium, insufficient_funds,
  unexpected_situation, Result, ok, err, ◌>>=◌, ◌>>◌, guard, or_throw, Result-cases, >>=-eq-ok,
}
use cil_core.JsMap.{Map, get, set, delete, keys, has, get_or, size}
use cil_core.Utxo
use cil_core.Utxo.{Coins, Utxo, UtxoProto}
use cil_core.Contract
use cil_core.Contract.{Contract, ContractProto}
use cil_core.Receipt
use cil_core.Receipt.{TxReceipt, TxReceiptProto}

-- The codecs that the patch's parts rely on.
pub record Codec : Type 0 where
  pub utxo : UtxoProto
  pub contract : ContractProto
  pub receipt : TxReceiptProto

pub record PatchDb : Type 0 where
  pub coins : Map Utxo
  pub spent : Map (Map ℕ)
  pub concilium_level : Map ℕ
  pub concilium_id : Option ℕ
  pub contracts : Map Contract
  pub receipts : Map TxReceipt
  pub nonce : ℕ

abbrev pub empty : PatchDb
empty = record {
  coins = [];
  spent = [];
  concilium_level = [];
  concilium_id = none;
  contracts = [];
  receipts = [];
  nonce = 0;
}

unfoldable pub set_concilium_id : PatchDb → Option ℕ → Result PatchDb
set_concilium_id p none = ok p
set_concilium_id p (some id) = elim p.concilium_id [
  | some _ ↦ err concilium_specified
  | none ↦ ok (record p {
    concilium_id = some id;
    concilium_level = set p.concilium_level id (get_or p.concilium_level id 0 + 1);
  })
]

-- The constructor.
unfoldable pub create : Option ℕ → Result PatchDb
unfolding set_concilium_id
create id = set_concilium_id empty id

unfoldable pub get_utxo : PatchDb → ℕ → Option Utxo
get_utxo p h = get p.coins h

unfoldable pub get_spent_outputs : PatchDb → ℕ → Map ℕ
get_spent_outputs p h = get_or p.spent h []

unfoldable pub set_spent_output : PatchDb → ℕ → ℕ → ℕ → PatchDb
unfolding get_spent_outputs
set_spent_output p h idx tx = record p {
  spent = set p.spent h (set (get_spent_outputs p h) idx tx);
}

unfoldable pub spend_coins : Codec → PatchDb → Utxo → ℕ → ℕ → Result PatchDb
unfolding get_utxo set_spent_output
spend_coins codec p utxo n tx = do
  let h = utxo.tx_hash
  let copy : Utxo = elim (get_utxo p h) [ some u ↦ u | none ↦ Utxo.clone codec.utxo utxo ]
  copy' ← Utxo.spend_coins copy n
  ok (set_spent_output (record p { coins = set p.coins h copy' }) h n tx)

unfoldable pub create_coins : PatchDb → ℕ → ℕ → Coins → Result PatchDb
create_coins p h idx c = do
  utxo ← Utxo.add_coins (get_or p.coins h (Utxo.create h)) idx c
  ok (record p { coins = set p.coins h utxo })

unfoldable pub set_utxo : Codec → PatchDb → Utxo → PatchDb
set_utxo codec p u = record p { coins = set p.coins u.tx_hash (Utxo.clone codec.utxo u) }

unfoldable pub get_level : PatchDb → Option ℕ → Option ℕ
get_level p (some id) = get p.concilium_level id
get_level p none = elim p.concilium_id [ none ↦ none | some id ↦ get p.concilium_level id ]

unfoldable pub get_contract : PatchDb → ℕ → Option Contract
get_contract p addr = get p.contracts addr

unfoldable pub set_contract : Codec → PatchDb → Contract → Result PatchDb
set_contract codec p c = do
  addr ← Contract.get_stored_address c
  elim (get p.contracts addr) [
    | none ↦ ok (record p { contracts = set p.contracts addr c })
    | some found ↦ do
      (d, _) ← Contract.get_data codec.contract c
      ok (record p { contracts = set p.contracts addr (Contract.update_data found d) })
  ]

-- A throw from the receipt's own merge leaves what it wrote.
unfoldable pub set_receipt : PatchDb → ℕ → TxReceipt → Result (Option TxReceipt) × PatchDb
set_receipt p h r = elim (get p.receipts h) [
  | none ↦ (ok none, record p { receipts = set p.receipts h r })
  | some same ↦
      if Receipt.is_successful same
      then (let (res, merged) = Receipt.merge same r in
          ((res >>= λ _. ok (some merged)), record p { receipts = set p.receipts h merged }))
      else (err failed_tx, p)
]

-- The `reduce` of `getComplexity`.
unfoldable pub sum_sizes : PatchDb → List ℕ → ℕ → ℕ
unfolding get_spent_outputs
sum_sizes p [] acc = acc
sum_sizes p (h ∷ hs) acc = sum_sizes p hs (acc + size (get_spent_outputs p h))

unfoldable pub get_complexity : PatchDb → ℕ
unfolding sum_sizes
get_complexity p = sum_sizes p (keys p.spent) 0

unfoldable pub check_unspent : Utxo → List ℕ → Result (Unit {0})
check_unspent u [] = ok tt
check_unspent u (i ∷ is) = do _ ← Utxo.coins_at_index u i; check_unspent u is

-- The loop of `validateAgainstStable`, over the hashes of the patch's coins.
unfoldable pub validate_hashes : PatchDb → PatchDb → List ℕ → Result (Unit {0})
unfolding check_unspent get_spent_outputs get_utxo
validate_hashes p stable [] = ok tt
validate_hashes p stable (h ∷ hs) =
    let rest = validate_hashes p stable hs in
    elim (get_utxo stable h) [
      | none ↦ rest
      | some u ↦ do check_unspent u (keys (get_spent_outputs p h)); rest
    ]

unfoldable pub validate_against_stable : PatchDb → PatchDb → Result (Unit {0})
unfolding validate_hashes
validate_against_stable p stable = validate_hashes p stable (keys p.coins)

unfoldable pub get_nonce : PatchDb → ℕ × PatchDb
get_nonce p = (p.nonce, record p { nonce = p.nonce + 1 })

unfoldable pub has_utxos : PatchDb → List ℕ → ℕ
has_utxos p hs = length (filter (λ h. has p.coins h) hs)

unfoldable pub remove_utxo : PatchDb → ℕ → PatchDb
remove_utxo p h = record p { coins = delete p.coins h; spent = delete p.spent h }
