-- ===== src/Inventory.antt =====
-- structures/inventory.js: a list of hashes of transactions and blocks to tell another node of.
use cil_core.Base.{
  ℕ, ◌≡◌, refl, sym, ap, ◌∙◌, subst, inl, inr, Bool, true, false, ◌||◌, List, [], ◌∷◌, ◌++◌, arith,
  ◌==◌, if◌then◌else◌, Bool-cases, contains, contains-append, Distinct,
}

pub data InvType : Type 0 where
  inv_tx inv_block : InvType

pub record Vector : Type 0 where
  pub type : InvType
  pub hash : ℕ

pub record Inventory : Type 0 where
  pub inv_vector : List Vector
  pub hashes : List ℕ

-- `Set.add`
unfoldable pub mark_as_added : Inventory → ℕ → Inventory
mark_as_added i h = record i {
  hashes = if contains i.hashes h then i.hashes else i.hashes ++ h ∷ [];
}

unfoldable pub was_already_added : Inventory → ℕ → Bool
was_already_added i h = contains i.hashes h

unfoldable pub mark_each : List ℕ → List Vector → List ℕ
mark_each seen [] = seen
mark_each seen (v ∷ vs) = mark_each (if contains seen v.hash then seen else seen ++ v.hash ∷ []) vs

-- The constructor, on no data and on the vectors that its bytes decode to.
unfoldable pub empty : Inventory
empty = record { inv_vector = []; hashes = [] }

unfoldable pub decode : List Vector → Inventory
unfolding mark_each
decode vs = record { inv_vector = vs; hashes = mark_each [] vs }

unfoldable pub add : Inventory → InvType → ℕ → Inventory
unfolding mark_as_added was_already_added
add i t h =
    if was_already_added i h
    then i
    else mark_as_added
        (record i { inv_vector = i.inv_vector ++ record { type = t; hash = h } ∷ [] }) h

-- `addTx` and `addTxHash`, `addBlock` and `addBlockHash` do the same to the hash they take.
unfoldable pub add_tx : Inventory → ℕ → Inventory
unfolding add
add_tx i h = add i inv_tx h

unfoldable pub add_block : Inventory → ℕ → Inventory
unfolding add
add_block i h = add i inv_block h

-- It does not mark the hash.
unfoldable pub add_vector : Inventory → Vector → Inventory
add_vector i v = record i { inv_vector = i.inv_vector ++ v ∷ [] }

abbrev pub vector_hashes : List Vector → List ℕ
vector_hashes [] = []
vector_hashes (v ∷ vs) = v.hash ∷ vector_hashes vs

-- The set holds the hashes of the vectors.
pub record IsMarked (i : Inventory) : Type 0 where
  pub marked : (h : ℕ) → contains i.hashes h ≡ contains (vector_hashes i.inv_vector) h

-- Besides, no hash stands in two vectors.
pub record IsValid (i : Inventory) : Type 0 where
  pub is_marked : IsMarked i
  pub distinct : Distinct (vector_hashes i.inv_vector)

vector_hashes-snoc :
    (vs : List Vector) (v : Vector) → vector_hashes (vs ++ v ∷ []) ≡ vector_hashes vs ++ v.hash ∷ []
vector_hashes-snoc [] v = refl
vector_hashes-snoc (w ∷ vs) v = ap (λ l. w.hash ∷ l) (vector_hashes-snoc vs v)

contains-snoc : (xs : List ℕ) (a h : ℕ) → contains (xs ++ a ∷ []) h ≡ contains xs h || (a == h)
contains-snoc xs a h = ground (arith, contains-append xs (a ∷ []) h)

Distinct-snoc :
    (xs : List ℕ) (a : ℕ) → Distinct xs → contains xs a ≡ false → Distinct (xs ++ a ∷ [])
Distinct-snoc [] a d n = (refl, tt)
Distinct-snoc (x ∷ xs) a d n = ground (arith, Distinct-snoc xs a d.1, contains-snoc xs a x)

contains-mark_each :
    (seen : List ℕ) (vs : List Vector) (h : ℕ)
    → contains (mark_each seen vs) h ≡ contains seen h || contains (vector_hashes vs) h
unfolding mark_each
contains-mark_each seen [] h = ground arith
contains-mark_each seen (v ∷ vs) h = ground (
  arith,
  contains-mark_each (if contains seen v.hash then seen else seen ++ v.hash ∷ []) vs h,
  contains-snoc seen v.hash h,
)

-- A decoded inventory's set holds just the hashes of its vectors, which may repeat.
pub decode-IsMarked : (vs : List Vector) → IsMarked (decode vs)
unfolding decode
decode-IsMarked vs = record { marked = λ h. contains-mark_each [] vs h }

was_already_added-add :
    (i : Inventory) (t : InvType) (h j : ℕ)
    → was_already_added (add i t h) j ≡ was_already_added i j || (h == j)
unfolding add was_already_added mark_as_added
was_already_added-add i t h j = ground (arith, contains-snoc i.hashes h j)

add_known : (i : Inventory) (t : InvType) (h : ℕ) → was_already_added i h ≡ true → add i t h ≡ i
unfolding add was_already_added
add_known i t h known = rw known

add-IsValid : (i : Inventory) (t : InvType) (h : ℕ) → IsValid i → IsValid (add i t h)
unfolding add was_already_added mark_as_added
add-IsValid i t h v = elim (Bool-cases (contains i.hashes h)) [
  | inl known ↦ subst IsValid (sym (add_known i t h known)) v
  | inr fresh ↦ record {
    is_marked = record {
      marked = λ j. ground (
        arith,
        v.is_marked.marked j,
        contains-snoc i.hashes h j,
        contains-snoc (vector_hashes i.inv_vector) h j,
        vector_hashes-snoc i.inv_vector (record { type = t; hash = h }),
      );
    };
    distinct =
        rw (fresh, vector_hashes-snoc i.inv_vector (record { type = t; hash = h }))
          (Distinct-snoc (vector_hashes i.inv_vector) h v.distinct
            (sym (v.is_marked.marked h) ∙ fresh));
  }
]

-- For every valid inventory, adding a transaction's hash keeps it valid, makes the hash known, and
-- keeps what was known; and likewise for a block's.
pub add_tx-IsValid :
    (i : Inventory) (h : ℕ)
    → IsValid i
    → IsValid (add_tx i h)
      × IsValid (add_block i h)
      × ((j : ℕ) → was_already_added (add_tx i h) j ≡ was_already_added i j || (h == j))
      × ((j : ℕ) → was_already_added (add_block i h) j ≡ was_already_added i j || (h == j))
unfolding add_tx add_block add was_already_added mark_as_added
add_tx-IsValid i h v = (
  add-IsValid i inv_tx h v,
  add-IsValid i inv_block h v,
  was_already_added-add i inv_tx h,
  was_already_added-add i inv_block h,
)
