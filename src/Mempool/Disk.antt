-- ===== src/Mempool/Disk.antt =====
-- The file of local transactions of node/mempool.js: what is dumped is what is loaded.
use cil_core.Base.{
  ℕ, ◌≡◌, refl, true, Option, none, some, List, [], ◌∷◌, map, arith, or_else, Distinct,
}
use cil_core.JsMap.{Map, get, keys, get-set, contains-keys}
use cil_core.Mempool.{dump_to_disk, load_each, load_local_txns_from_disk, add_local_tx}
use cil_core.Mempool.Types.{LocalEntry, TxCodec, Mempool}

-- Each entry stands under its transaction's hash.
abbrev pub Keyed : Map LocalEntry → Type 0
Keyed [] = Unit
Keyed ((h, e) ∷ m) = (h ≡ e.tx.hash) × Keyed m

-- What a loaded entry is: a transaction whose patch is not known yet.
abbrev pub forget : Option LocalEntry → Option LocalEntry
forget none = none
forget (some e) = some (record { tx = e.tx; patch = none })

module _ (codec : TxCodec) where
  encoded : Map LocalEntry → Map (List ℕ)
  encoded = map (λ e. (e.0, codec.encode e.1.tx))

  load_each-encoded :
      (m : Map LocalEntry) (q : Mempool) (h : ℕ)
      → Keyed m
      → Distinct (keys m)
      → get (load_each codec q (encoded m)).local_txns h
        ≡ or_else (forget (get m h)) (get q.local_txns h)
  unfolding encoded load_each get keys add_local_tx
  load_each-encoded [] q h k d = refl
  load_each-encoded ((j, e) ∷ m) q h k d =
      let q' = add_local_tx codec q e.tx none true in
      ground (
        arith,
        codec.decode-encode e.tx,
        load_each-encoded m q' h k.1 d.1,
        get-set q.local_txns e.tx.hash h (record { tx = e.tx; patch = none }),
        contains-keys m h,
        k.0,
        d.0,
      )

  or_else-none : (o : Option LocalEntry) → or_else o none ≡ o
  or_else-none none = refl
  or_else-none (some e) = refl

  -- For every pool with a file, whose local entries stand once each under their hashes: after a dump, a new
  -- pool that finds the file and loads it has the same local transactions, without their patches.
  pub load-dump :
      (p q : Mempool)
      → Keyed p.local_txns
      → Distinct (keys p.local_txns)
      → p.has_file ≡ true
      → q.has_file ≡ true
      → q.local_txns ≡ []
      → q.file ≡ (dump_to_disk codec p).file
      → (h : ℕ) → get (load_local_txns_from_disk codec q).local_txns h ≡ forget (get p.local_txns h)
  unfolding load_local_txns_from_disk dump_to_disk get encoded
  load-dump p q k d pf qf start found h = ground (
    arith,
    pf,
    qf,
    start,
    found,
    load_each-encoded p.local_txns q h k d,
    or_else-none (forget (get p.local_txns h)),
  )
