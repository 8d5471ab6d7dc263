-- ===== src/Utxo.antt =====
-- structures/coins.js and structures/utxo.js: the unspent outputs of one transaction, as two
-- parallel arrays of output numbers and coins. Protobuf's codec is a parameter.
pub mod View
pub mod Laws
pub mod Amounts
pub mod Equality
use cil_core.Base.{
  ℕ, suc, ◌+◌, ◌≡◌, Bool, true, false, ◌&&◌, Option, none, some, List, [], ◌∷◌, ◌++◌, map, ◌==◌,
  if◌then◌else◌, length, get_elem?, erase_at, filter, contains, unique, Distinct, already_added,
  already_deleted, already_spent, integrity, type_error, Result, ok, err, ◌>>=◌, or_throw,
}

pub record Coins : Type 0 where
  pub amount : ℕ
  pub receiver : ℕ

unfoldable pub coins_equal : Coins → Coins → Bool
coins_equal c d = c.amount == d.amount && c.receiver == d.receiver

pub record UtxoData : Type 0 where
  pub indexes : List ℕ
  pub outputs : List Coins

-- What `utxoProto` (generated from proto/structures.proto by protobufjs) is relied on for.
pub record UtxoProto : Type 0 where
  pub encode : UtxoData → List ℕ
  pub decode : List ℕ → UtxoData
  pub decode-encode : (d : UtxoData) → decode (encode d) ≡ d

pub record Utxo : Type 0 where
  pub tx_hash : ℕ
  pub contents : UtxoData
  pub open contents use *

-- The constructor, without and with serialized data.
unfoldable pub create : ℕ → Utxo
create h = record { tx_hash = h; contents = record { indexes = []; outputs = [] } }

unfoldable pub restore : UtxoProto → ℕ → List ℕ → Utxo
restore p h bytes = record { tx_hash = h; contents = p.decode bytes }

unfoldable pub clone : UtxoProto → Utxo → Utxo
unfolding restore
clone p u = restore p u.tx_hash (p.encode u.contents)

unfoldable pub is_empty : Utxo → Result Bool
is_empty u =
    if length u.indexes == length u.outputs then ok (length u.indexes == 0) else err integrity

-- `findIndex(i => i === a)`; -1 is `none`.
unfoldable pub find_index : List ℕ → ℕ → Option ℕ
find_index [] a = none
find_index (x ∷ xs) a =
    let rest = find_index xs a in
    let next : Option ℕ = elim rest [ none ↦ none | some i ↦ some (suc i) ] in
    if x == a then some 0 else next

unfoldable pub add_coins : Utxo → ℕ → Coins → Result Utxo
unfolding find_index
add_coins u idx c = elim (find_index u.indexes idx) [
  | some _ ↦ err already_added
  | none ↦ ok (record u {
    contents = record { indexes = u.indexes ++ idx ∷ []; outputs = u.outputs ++ c ∷ [] };
  })
]

unfoldable pub spend_coins : Utxo → ℕ → Result Utxo
unfolding find_index
spend_coins u n = elim (find_index u.indexes n) [
  | none ↦ err already_deleted
  | some i ↦ ok (record u {
    contents = record { indexes = erase_at u.indexes i; outputs = erase_at u.outputs i };
  })
]

-- Reading past the outputs gives `undefined`, which `Coins.createFromData` cannot take apart.
unfoldable pub coins_at_index : Utxo → ℕ → Result Coins
unfolding find_index
coins_at_index u n = elim (find_index u.indexes n) [
  | none ↦ err already_spent
  | some i ↦ or_throw (get_elem? u.outputs i) type_error
]

-- `arrayIntersection` and `arrayEquals` of utils.js.
unfoldable pub array_intersection : List ℕ → List ℕ → List ℕ
array_intersection xs ys = filter (contains xs) ys

unfoldable pub array_equals : List ℕ → List ℕ → Bool
unfolding array_intersection
array_equals xs ys = length xs == length ys && length (array_intersection xs ys) == length xs

-- The `every` of `equals`.
unfoldable pub every_equal : Utxo → Utxo → List ℕ → Result Bool
unfolding coins_at_index coins_equal
every_equal u v [] = ok true
every_equal u v (i ∷ is) =
    let rest = every_equal u v is in
    do c ← coins_at_index u i; d ← coins_at_index v i; if coins_equal c d then rest else ok false

unfoldable pub equals : Utxo → Utxo → Result Bool
unfolding array_equals every_equal
equals u v = if array_equals u.indexes v.indexes then every_equal u v u.indexes else ok false

-- The `reduce` of `amountOut`.
unfoldable pub sum_amounts : Utxo → List ℕ → ℕ → Result ℕ
unfolding coins_at_index
sum_amounts u [] acc = ok acc
sum_amounts u (i ∷ is) acc = do c ← coins_at_index u i; sum_amounts u is (acc + c.amount)

unfoldable pub amount_out : Utxo → Result ℕ
unfolding sum_amounts
amount_out u = sum_amounts u u.indexes 0

-- The `filter` and `map` of `getOutputsForAddress`, in one pass over the output numbers.
unfoldable pub outputs_for_from : Utxo → ℕ → List ℕ → Result (List (ℕ × Coins))
unfolding coins_at_index
outputs_for_from u addr [] = ok []
outputs_for_from u addr (i ∷ is) = do
  c ← coins_at_index u i
  rest ← outputs_for_from u addr is
  ok (if c.receiver == addr then (i, c) ∷ rest else rest)

unfoldable pub get_outputs_for_address : Utxo → ℕ → Result (List (ℕ × Coins))
unfolding outputs_for_from
get_outputs_for_address u addr = outputs_for_from u addr u.indexes

unfoldable pub get_receivers : Utxo → List ℕ
get_receivers u = unique (map (λ c. c.receiver) u.outputs)

-- The `forEach` of `filterOutputsForAddress`.
unfoldable pub add_all : List (ℕ × Coins) → Utxo → Result Utxo
unfolding add_coins
add_all [] u = ok u
add_all ((i, c) ∷ rest) u = do u' ← add_coins u i c; add_all rest u'

unfoldable pub filter_outputs_for_address : Utxo → ℕ → Result Utxo
unfolding create get_outputs_for_address add_all
filter_outputs_for_address u addr = do
  outs ← get_outputs_for_address u addr
  add_all outs (create u.tx_hash)

-- What holds of every UTXO that the operations build: the arrays run in step, and no output number
-- stands twice.
pub record IsValid (u : Utxo) : Type 0 where
  pub distinct : Distinct u.indexes
  pub in_step : length u.indexes ≡ length u.outputs
