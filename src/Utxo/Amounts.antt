-- ===== src/Utxo/Amounts.antt =====
-- Amounts: what `amountOut` sums, and how adding and spending change it.
use cil_core.Base.{
  ◌∙◌, ℕ, ◌+◌, ◌≡◌, refl, ap, inl, inr, true, some, List, [], ◌∷◌, ◌++◌, arith, Option-cases,
  length, erase_at, contains, Distinct, ok,
}
use cil_core.Utxo.{
  Coins, Utxo, IsValid, find_index, add_coins, spend_coins, sum_amounts, amount_out,
}
use cil_core.Utxo.View.{view, view_of, coins_at_index_lem}

abbrev pub total : List Coins → ℕ
total [] = 0
total (c ∷ cs) = c.amount + total cs

sum_amounts_lem :
    (u : Utxo) (is : List ℕ) (cs : List Coins) (acc : ℕ)
    → length u.indexes ≡ length u.outputs
    → length is ≡ length cs
    → Distinct is
    → ((j : ℕ) → contains is j ≡ true → view u j ≡ view_of is cs j)
    → sum_amounts u is acc ≡ ok (acc + total cs)
unfolding sum_amounts
sum_amounts_lem u [] [] acc v l d h = ground arith
sum_amounts_lem u [] (c ∷ cs) acc v l d h = absurd (omega arith)
sum_amounts_lem u (i ∷ is) [] acc v l d h = absurd (omega arith)
sum_amounts_lem u (i ∷ is) (c ∷ cs) acc v l d h =
    let here : view u i ≡ some c = ground (arith, h i) in
    let rest : (j : ℕ) → contains is j ≡ true → view u j ≡ view_of is cs j =
      λ j k. ground (arith, h j, d.0) in
    rw
      (
        coins_at_index_lem u i v,
        here,
        sum_amounts_lem u is cs (acc + c.amount) v (omega arith) d.1 rest,
      )
      (ap ok (omega arith))

-- `amountOut` of a valid UTXO never throws, and is the sum over its outputs.
amount_out-total : (u : Utxo) → IsValid u → amount_out u ≡ ok (total u.outputs)
unfolding amount_out view
amount_out-total u v =
    sum_amounts_lem u u.indexes u.outputs 0 v.in_step v.in_step v.distinct (λ j _. refl)
    ∙ ap ok (omega arith)

total-append : (cs : List Coins) (c : Coins) → total (cs ++ c ∷ []) ≡ total cs + c.amount
total-append [] c = omega arith
total-append (d ∷ cs) c = omega (arith, total-append cs c)

pub total-erase_at :
    (is : List ℕ) (cs : List Coins) (a k : ℕ) (c : Coins)
    → find_index is a ≡ some k
    → view_of is cs a ≡ some c
    → total (erase_at cs k) + c.amount ≡ total cs
unfolding find_index
total-erase_at [] cs a k c h e = cc
total-erase_at (i ∷ is) [] a k c h e = cc
total-erase_at (i ∷ is) (d ∷ cs) a k c h e = elim (Option-cases (find_index is a)) [
  | inl n ↦ ground arith
  | inr (j, n) ↦ ground (arith, total-erase_at is cs a j c n)
]

-- Spending an output lowers the total by exactly its coins.
spend_coins-total :
    (u : Utxo) (a : ℕ) {u' : Utxo} {c : Coins}
    → view u a ≡ some c
    → spend_coins u a ≡ ok u'
    → total u'.outputs + c.amount ≡ total u.outputs
unfolding spend_coins view
spend_coins-total u a {u'} {c} e h = elim (Option-cases (find_index u.indexes a)) [
  | inl n ↦ ground arith
  | inr (k, n) ↦ ground (arith, total-erase_at u.indexes u.outputs a k c n e)
]

pub add_coins-total :
    (u : Utxo) (a : ℕ) (c : Coins) {u' : Utxo}
    → add_coins u a c ≡ ok u'
    → total u'.outputs ≡ total u.outputs + c.amount
unfolding add_coins
add_coins-total u a c h = ground (arith, total-append u.outputs c)
