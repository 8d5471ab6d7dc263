-- ===== src/ArrayOf.antt =====
-- structures/arrayOf.js: arrays of hashes and of addresses, as one run of bytes. `n` is the length of
-- an element.
use native.Mathlib.Nat.{mod_self, add-mod_left}
use cil_core.Base.{
  ℕ, zero, suc, ◌%◌, ◌≤◌, ◌<◌, ◌≡◌, refl, Bool, true, ◌&&◌, ◌||◌, List, [], ◌∷◌, ◌++◌, arith, ◌==◌,
  length, length-append, not_aligned, skip, take, take-append, take-skip, length-skip, Result, ok,
  ◌>>=◌, ◌>>◌, guard,
}

-- `%` by 0 is not a number, which is no remainder.
unfoldable pub ensure_length {ℓ} : {A : Type ℓ} → ℕ → List A → Result (Unit {0})
ensure_length n xs = guard (n == 0 || length xs % n == 0) not_aligned

-- The loop of the constructor over the bytes that are left.
unfoldable pub slices : ℕ → ℕ → List ℕ → List (List ℕ)
slices zero n xs = []
slices (suc fuel) n [] = []
slices (suc fuel) n (x ∷ xs) = take n (x ∷ xs) ∷ slices fuel n (skip n (x ∷ xs))

-- The constructor on bytes. Each round takes an element off, so the number of bytes is fuel enough.
unfoldable pub from_buffer : ℕ → List ℕ → Result (List (List ℕ))
unfolding ensure_length slices
from_buffer n bytes = do ensure_length n bytes; ok (slices (length bytes) n bytes)

-- The constructor on an array, of buffers.
unfoldable pub from_array : ℕ → List (List ℕ) → Result (List (List ℕ))
unfolding ensure_length
from_array n [] = ok []
from_array n (e ∷ es) = do ensure_length n e; rest ← from_array n es; ok (e ∷ rest)

-- `Buffer.concat`
unfoldable pub encode : List (List ℕ) → List ℕ
encode [] = []
encode (e ∷ es) = e ++ encode es

-- All elements have the length `n`.
unfoldable pub aligned : ℕ → List (List ℕ) → Bool
aligned n [] = true
aligned n (e ∷ es) = length e == n && aligned n es

slices-encode :
    (fuel n : ℕ) (es : List (List ℕ))
    → aligned (suc n) es ≡ true
    → length (encode es) ≤ fuel
    → slices fuel (suc n) (encode es) ≡ es
unfolding slices encode aligned
slices-encode zero n [] al enough = refl
slices-encode (suc fuel) n [] al enough = refl
slices-encode fuel n ([] ∷ es) al enough = ground arith
slices-encode zero n ((x ∷ e) ∷ es) al enough = ground arith
slices-encode (suc fuel) n ((x ∷ e) ∷ es) al enough =
    let size : n ≡ length e = ground arith in
    let (t, s) = take-append e (encode es) in
    ground (arith, size, t, s, slices-encode fuel n es, length-append e (encode es))

encode-slices :
    (fuel n : ℕ) (bytes : List ℕ) → length bytes ≤ fuel → encode (slices fuel (suc n) bytes) ≡ bytes
unfolding slices encode
encode-slices zero n [] enough = refl
encode-slices zero n (x ∷ xs) enough = ground arith
encode-slices (suc fuel) n [] enough = refl
encode-slices (suc fuel) n (x ∷ xs) enough =
    ground (arith, encode-slices fuel n (skip n xs), take-skip n xs, length-skip n xs)

from_array-aligned :
    (n : ℕ) (es : List (List ℕ)) → aligned n es ≡ true → 0 < n → from_array n es ≡ ok es
unfolding from_array ensure_length aligned
from_array-aligned n [] al pos = refl
from_array-aligned n (e ∷ es) al pos = ground (arith, mod_self n, from_array-aligned n es)

length-encode : (n : ℕ) (es : List (List ℕ)) → aligned n es ≡ true → length (encode es) % n ≡ 0
unfolding encode aligned
length-encode n [] al = ground arith
length-encode n (e ∷ es) al =
    ground
      (arith, length-append e (encode es), length-encode n es, add-mod_left n (length (encode es)))

-- An array of elements of one positive length is accepted, and is what its encoding is read back as; bytes that are a whole number of elements are what the array that is read from them encodes to.
pub from_buffer-encode :
    (n : ℕ) (es : List (List ℕ)) (bytes : List ℕ)
    → 0 < n
    → aligned n es ≡ true
    → length bytes % n ≡ 0
    → (from_array n es ≡ ok es)
      × (from_buffer n (encode es) ≡ ok es)
      × (read : List (List ℕ)) × (from_buffer n bytes ≡ ok read)
      × (encode read ≡ bytes)
unfolding from_buffer ensure_length
from_buffer-encode zero es bytes pos al whole = ground arith
from_buffer-encode (suc n) es bytes pos al whole = (
  from_array-aligned (suc n) es al pos,
  ground (arith, length-encode (suc n) es al, slices-encode (length (encode es)) n es al),
  slices (length bytes) (suc n) bytes,
  ground arith,
  encode-slices (length bytes) n bytes (omega arith),
)
