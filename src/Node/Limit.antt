-- ===== src/Node/Limit.antt =====
-- node/node.js: a transaction's contracts never spend more than the coins it brings, however they
-- call each other.
use cil_core.Base.{
  ℕ, zero, suc, ◌-◌, ◌≤◌, ◌≡◌, refl, inl, inr, false, Option, none, arith, Result-cases,
}
use cil_core.Base.Int.{pos}
use cil_core.Contract.{Contract}
use cil_core.Patch.{PatchDb}
use cil_core.Transaction
use cil_core.Transaction.Types.{Transaction}
use cil_core.App.{coins_spent}
use cil_core.App.Types.{Frame, App, Environment, Context, Invocation, Call, Exec, Ran}
use cil_core.App.Run.{run_contract}
use cil_core.App.Limit.{Spends, Spends-self, run_contract-Spends}
use cil_core.Node.Types.{NodeEnv, NodeState}
use cil_core.Node.Callbacks.{
  transfer, send_coins, invoke_nested_contract, locate_nested, end_nested, store_nested, nested,
}
use cil_core.Node.Contracts.{try_invocation, ready_to_invoke}

send_coins-Spends :
    (env : NodeEnv) (hash address amount : ℕ) (x : Exec)
    → Spends x.app ((send_coins env hash address amount x).1).app
unfolding send_coins transfer
send_coins-Spends env hash address amount x = record { left = ground arith; start = ground arith }

end_nested-app :
    (env : NodeEnv) (s : NodeState) (ran : Ran) (left : ℕ)
    → ((end_nested env s ran left).2).app ≡ (ran.exec).app
unfolding end_nested
end_nested-app env s ran left = elim (Result-cases ran.outcome) [
  | inr (_, e) ↦ rw (e, end_nested) refl
  | inl (_, e) ↦ elim (Result-cases (store_nested env s ran.contract ran.exec.patch)) [
    | inr (_, f) ↦ rw (e, f, end_nested) refl
    | inl (_, f) ↦ rw (e, f, end_nested) refl
  ]
]

invoke_nested-Spends :
    (env : NodeEnv) (s : NodeState) (block : PatchDb)
    (run : Invocation → Frame → Environment → Option Context → Exec → Ran)
    → ((i : Invocation) (f : Frame) (e : Environment) (g : Option Context) (x : Exec)
        → Spends x.app ((run i f e g x).exec).app)
    → (call : Call) (context : Context) (x : Exec)
    → Spends x.app ((invoke_nested_contract env s block run call context x).2).app
unfolding invoke_nested_contract
invoke_nested-Spends env s block run within call context x =
    elim (Result-cases (locate_nested env s block call.address)) [
      | inr (_, e) ↦ rw (e, invoke_nested_contract) (Spends-self x.app)
      | inl (found, e) ↦
          rw (e, invoke_nested_contract) (rw (end_nested-app env s) (within _ _ _ _ x))
    ]

nested-Spends :
    (env : NodeEnv) (s : NodeState) (block : PatchDb) (hash depth : ℕ) (call : Call)
    (context : Context) (x : Exec)
    → Spends x.app ((nested env s block hash depth call context x).2).app
unfolding nested
nested-Spends env s block hash zero call context x = Spends-self x.app
nested-Spends env s block hash (suc depth) call context x =
    invoke_nested-Spends env s block
      (λ i f e g y.
        run_contract env.vm env.storage_env.codec.contract (send_coins env hash)
          (nested env s block hash depth) i f e g false y)
      (λ i f e g y.
        run_contract-Spends (send_coins env hash) (nested env s block hash depth)
          (send_coins-Spends env hash) (nested-Spends env s block hash depth) env.vm
          env.storage_env.codec.contract i f e g false y)
      call context x

coins_spent-pos :
    (a b : App)
    → a.coins_limit ≤ a.initial_coins
    → Spends a b
    → (b.coins_limit ≤ a.coins_limit) × (n : ℕ) × (coins_spent b ≡ pos n) × (n ≤ a.initial_coins)
unfolding coins_spent
coins_spent-pos a b within spends = (
  spends.left,
  b.initial_coins - b.coins_limit,
  ground (arith, spends.left, spends.start),
  ground (arith, spends.start),
)

try_invocation-Spends :
    (env : NodeEnv) (s : NodeState) (block : PatchDb) (tx : Transaction) (environment : Environment)
    (app : App) (patch : PatchDb) (c : Contract)
    → Spends app ((try_invocation env s block tx environment app patch c).app)
unfolding try_invocation
try_invocation-Spends env s block tx environment app patch c =
    elim (Result-cases (ready_to_invoke env tx app c)) [
      | inr (_, e) ↦ rw (e, try_invocation) (Spends-self app)
      | inl (_, e) ↦
          rw (e, try_invocation)
            (run_contract-Spends (send_coins env hash) (nested env s block hash env.nesting)
              (send_coins-Spends env hash) (nested-Spends env s block hash env.nesting) env.vm
              env.storage_env.codec.contract _ _ _ none false _)
    ]
  where
    hash : ℕ
    hash = Transaction.get_hash env.tx_env tx

-- A call of a contract that starts with some coins left, at most as many as it was set up with, ends, whether it returns or throws, with no more coins left, and so has spent at least nothing and at most its limit.
pub try_invocation-coins_spent :
    (env : NodeEnv) (s : NodeState) (block : PatchDb) (tx : Transaction) (environment : Environment)
    (app : App) (patch : PatchDb) (c : Contract)
    → app.coins_limit ≤ app.initial_coins
    → let after = (try_invocation env s block tx environment app patch c).app in
      (after.coins_limit ≤ app.coins_limit)
      × (n : ℕ) × (coins_spent after ≡ pos n)
      × (n ≤ app.initial_coins)
try_invocation-coins_spent env s block tx environment app patch c within =
    coins_spent-pos app _ within (try_invocation-Spends env s block tx environment app patch c)
