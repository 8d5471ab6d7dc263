-- ===== src/Storage/Laws.antt =====
-- storage/persistentStorage.js: a storage is a refinement of the chain state, and blocks are read
-- back as they were written.
use cil_core.Base.{
  ℕ, ◌≡◌, refl, ap, ◌∙◌, inl, inr, Bool, true, false, Option, none, some, List, [], ◌∷◌, arith,
  ◌==◌, if◌then◌else◌, Bool-cases, Option-cases, length, all, contains, Distinct, Result, ok, err,
  ◌>>=◌,
}
use cil_core.JsMap.{Map, get, set, delete, keys, get-set, get-delete, contains-keys}
use cil_core.Utxo
use cil_core.Utxo.{Coins, Utxo}
use cil_core.Utxo.View.{view, view_of}
use cil_core.Patch.{PatchDb}
use cil_core.Patch.View.{IsValid}
use cil_core.Storage.Types.{Storage, StorageEnv}
use cil_core.Storage.{get_utxo, write_coins, apply_patch, write_contracts}

-- The unspent coins that a database holds, and a storage.
coins_in : StorageEnv → Map (List ℕ) → ℕ → ℕ → Option Coins
coins_in env db hash i = elim (get db hash) [
  | none ↦ none
  | some bytes ↦ view (Utxo.restore env.codec.utxo hash bytes) i
]

unfoldable pub stored : StorageEnv → Storage → ℕ → ℕ → Option Coins
stored env s hash i = elim (get_utxo env s hash) [ err e ↦ none | ok u ↦ view u i ]

stored-coins_in :
    (env : StorageEnv) (s : Storage) (hash i : ℕ)
    → stored env s hash i ≡ coins_in env s.utxos hash i
unfolding coins_in get_utxo stored
stored-coins_in env s hash i = elim (Option-cases (get s.utxos hash)) [
  | inl e ↦ rw (e, coins_in, stored) refl
  | inr (b, e) ↦ rw (e, coins_in, stored) refl
]

-- What the chain state becomes, by the coins of a patch.
abbrev pub overlay : Map Utxo → (ℕ → ℕ → Option Coins) → ℕ → ℕ → Option Coins
overlay coins state hash i = elim (get coins hash) [ none ↦ state hash i | some u ↦ view u i ]

AllValid : Map Utxo → Type 0
AllValid coins = (h : ℕ) (u : Utxo) → get coins h ≡ some u → Utxo.IsValid u

AllValid-rest :
    (k : ℕ) (u : Utxo) (rest : Map Utxo)
    → AllValid ((k, u) ∷ rest)
    → contains (keys rest) k ≡ false
    → AllValid rest
unfolding AllValid get
AllValid-rest k u rest valid new h v e = ground (arith, valid h v, contains-keys rest k)

view-restore :
    (p : Utxo.UtxoProto) (u : Utxo) (h i : ℕ)
    → view (Utxo.restore p h (p.encode u.contents)) i ≡ view u i
unfolding view Utxo.restore
view-restore p u h i = rw (p.decode-encode u.contents) refl

view-empty : (u : Utxo) (i : ℕ) → (length u.indexes == 0) ≡ true → none ≡ view u i
unfolding view
view-empty u i e = go u.indexes u.outputs e
  where
    go : (is : List ℕ) (cs : List Coins) → (length is == 0) ≡ true → none ≡ view_of is cs i
    go [] cs e = refl
    go (j ∷ is) cs e = ground arith

write_one :
    (env : StorageEnv) (k : ℕ) (u : Utxo) (db : Map (List ℕ))
    → Utxo.IsValid u
    → (gone : Bool) × (Utxo.is_empty u ≡ ok gone)
      × ((h i : ℕ)
          → coins_in env
              (if gone then delete db k else set db k (env.codec.utxo.encode u.contents))
              h
              i
            ≡ (if k == h then view u i else coins_in env db h i))
unfolding coins_in Utxo.is_empty
write_one env k u db valid = (
  length u.indexes == 0,
  ground (arith, valid.in_step),
  λ h i. elim (Bool-cases (length u.indexes == 0)) [
    | inl e ↦ rw e (ground (arith, get-delete db k h, view-empty u i e))
    | inr e ↦ rw e (
        ground (
          arith,
          get-set db k h (env.codec.utxo.encode u.contents),
          view-restore env.codec.utxo u h i,
        ))
  ],
)

write_coins-overlay :
    (env : StorageEnv) (coins : Map Utxo) (db : Map (List ℕ))
    → Distinct (keys coins)
    → AllValid coins
    → (db' : Map (List ℕ)) × (write_coins env coins db ≡ ok db')
      × ((h i : ℕ) → coins_in env db' h i ≡ overlay coins (coins_in env db) h i)
unfolding write_coins get keys AllValid
write_coins-overlay env [] db distinct valid = (db, refl, λ h i. refl)
write_coins-overlay env ((k, u) ∷ rest) db (new, distinct) valid =
    let (gone, run, wrote) = write_one env k u db (valid k u (ground arith)) in
    let (db', runs, all) =
      write_coins-overlay env rest
        (if gone then delete db k else set db k (env.codec.utxo.encode u.contents)) distinct
        (AllValid-rest k u rest valid new) in
    (db', rw run runs, λ h i. ground (arith, all h i, wrote h i, contains-keys rest k))

-- A patch that a block leaves: valid, one entry for each hash, and contracts that can be encoded.
pub record IsApplicable (env : StorageEnv) (height : ℕ) (p : PatchDb) : Type 0 where
  pub valid : IsValid p
  pub distinct : Distinct (keys p.coins)
  pub encodes :
      (db : Map (List ℕ))
      → (db' : Map (List ℕ)) × (write_contracts env height p.contracts db ≡ ok db')

apply_patch-overlay :
    (env : StorageEnv) (s : Storage) (p : PatchDb) (height : ℕ)
    → IsApplicable env height p
    → (s' : Storage) × (apply_patch env s p height ≡ ok s')
      × ((h i : ℕ) → stored env s' h i ≡ overlay p.coins (stored env s) h i)
unfolding apply_patch AllValid
apply_patch-overlay env s p height good =
    let (db, run, all) =
      write_coins-overlay env p.coins s.utxos good.distinct
        (λ h u e. (good.valid.utxo_valid h u e).0) in
    let (contracts, encoded) = good.encodes s.contracts in
    let result : (s' : Storage) × (apply_patch env s p height ≡ ok s') × (s'.utxos ≡ db) =
      rw (run, encoded) (_, refl, refl) in
    let (s', applied, same) = result in
    (
      s',
      applied,
      λ h i.
          stored-coins_in env s' h i
          ∙ ap (λ d. coins_in env d h i) same
          ∙ all h i
          ∙ ground (arith, stored-coins_in env s h i),
    )

-- Stable patches applied one after another, each with the largest height of its blocks.
unfoldable pub apply_all : StorageEnv → Storage → List (ℕ × PatchDb) → Result Storage
apply_all env s [] = ok s
apply_all env s ((height, p) ∷ rest) = do s' ← apply_patch env s p height; apply_all env s' rest

-- The chain state as a map from outputs to coins: each patch decides the transactions it has.
unfoldable pub replay : List (ℕ × PatchDb) → (ℕ → ℕ → Option Coins) → ℕ → ℕ → Option Coins
replay [] state = state
replay ((height, p) ∷ rest) state = replay rest (overlay p.coins state)

abbrev pub AllApplicable : StorageEnv → List (ℕ × PatchDb) → Type 0
AllApplicable env [] = Unit {0}
AllApplicable env ((height, p) ∷ rest) = IsApplicable env height p × AllApplicable env rest

replay-cong :
    (ps : List (ℕ × PatchDb)) (f g : ℕ → ℕ → Option Coins)
    → ((h i : ℕ) → f h i ≡ g h i)
    → (h i : ℕ) → replay ps f h i ≡ replay ps g h i
unfolding replay
replay-cong [] f g same h i = same h i
replay-cong ((height, p) ∷ rest) f g same h i =
    replay-cong rest (overlay p.coins f) (overlay p.coins g) (λ k j. ground (arith, same k j)) h i

-- Applying stable patches in order, each valid, with one entry for each hash and with contracts that can be encoded, always succeeds, and the coins that can then be read from the storage are at every output those of the abstract chain state that the patches' coins are written over.
pub apply_all-replay :
    (env : StorageEnv) (s : Storage) (ps : List (ℕ × PatchDb))
    → AllApplicable env ps
    → (s' : Storage) × (apply_all env s ps ≡ ok s')
      × ((h i : ℕ) → stored env s' h i ≡ replay ps (stored env s) h i)
unfolding apply_all replay
apply_all-replay env s [] good = (s, refl, λ h i. refl)
apply_all-replay env s ((height, p) ∷ rest) (this, good) =
    let (s', run, over) = apply_patch-overlay env s p height this in
    let (s'', runs, all) = apply_all-replay env s' rest good in
    (
      s'',
      rw run runs,
      λ h i. all h i ∙ replay-cong rest (stored env s') (overlay p.coins (stored env s)) over h i,
    )
