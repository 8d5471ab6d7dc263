-- ===== src/App/Run.antt =====
-- node/app.js: the constructor of a contract and the run of a method, with the node's callbacks
-- `send_coins` and `invoke_contract` as arguments.
use cil_core.Base.{
  ℕ, Bool, ◌&&◌, not, Option, none, some, List, [], ◌∷◌, leb, if◌then◌else◌, is_some, type_error,
  too_many_coins, not_positive, no_method, Result, ok, err, ◌>>=◌, ◌>>◌, guard, or_throw,
}
use cil_core.Base.Int.{ℤ, pos, negsuc}
use cil_core.Contract
use cil_core.Contract.{Contract, ContractProto}
use cil_core.App.Types.{
  Frame, App, Environment, Context, Invocation, Call, Script, returns, throws, sends, calls, Vm,
  Exec, Ran,
}
use cil_core.App.{spend_coins, exec_started, exec_done}

-- `_newContract`, with the version that is given.
unfoldable pub new_contract : ContractProto → ℕ → ℕ → ℕ → ℕ → Contract
new_contract p address content code version =
    let c = Contract.create p content (some code) none 0 (some address) in
    record c { fields = record (c.fields) { version = version } }

-- The new contract, or what was thrown, and the application.
unfoldable pub create_contract :
    Vm → ContractProto → App → ℕ → Environment → ℕ → Result Contract × App
unfolding new_contract
create_contract vm p app code environment version = elim (exec_started p app none) [
  | err e ↦ (err e, app)
  | ok started ↦ elim (spend_coins started.coins_limit started.fees.contract_creation) [
    -- The coins are taken before the `try`, so `_execDone` is not reached.
    | err e ↦ (err e, started)
    | ok left ↦
        let paid : App = record started { coins_limit = left } in
        elim (vm.construct code environment) [
          | err e ↦ let (end, closed) = exec_done p paid none in ((end >>= λ _. err e), closed)
          | ok (content, methods) ↦
              let (end, closed) =
                exec_done p paid
                  (some (new_contract p environment.contract_addr content methods version)) in
              ((end >>= λ stored. or_throw stored type_error), closed)
        ]
  ]
]

-- A call's `coinsLimit` is only checked.
unfoldable pub check_coins_to_pass : App → Option ℤ → Result (Unit {0})
check_coins_to_pass app none = ok tt
check_coins_to_pass app (some (negsuc n)) = err not_positive
check_coins_to_pass app (some (pos n)) = guard (leb n app.coins_limit) too_many_coins

unfoldable pub send :
    (ℕ → ℕ → Exec → Result (Unit {0}) × Exec) → ℕ → ℕ → Exec → Result (Unit {0}) × Exec
send send_coins address amount x = elim (spend_coins x.app.coins_limit x.app.fees.internal_tx) [
  | err e ↦ (err e, x)
  | ok left ↦ send_coins address amount (record x { app = record (x.app) { coins_limit = left } })
]

-- The outcome of a nested call, the data of the caller's context after it, and what it changed.
unfoldable pub call_with_context :
    (Call → Context → Exec → Result ℕ × ℕ × Exec) → Call → Context → Exec → Result ℕ × ℕ × Exec
unfolding check_coins_to_pass
call_with_context invoke_contract call context x =
    elim (check_coins_to_pass x.app call.coins_to_pass) [
      | err e ↦ (err e, context.contract_data, x)
      | ok _ ↦ invoke_contract call context x
    ]

unfoldable pub run_script :
    (ℕ → ℕ → Exec → Result (Unit {0}) × Exec)
    → (Call → Context → Exec → Result ℕ × ℕ × Exec)
    → Environment
    → Script
    → Exec
    → Result ℕ × ℕ × Exec
unfolding send call_with_context
run_script send_coins invoke environment (returns value left) x = (ok value, left, x)
run_script send_coins invoke environment (throws thrown left) x = (err thrown, left, x)
run_script send_coins invoke environment (sends address amount next) x =
    let (sent, x') = send send_coins address amount x in
    run_script send_coins invoke environment (next sent) x'
run_script send_coins invoke environment (calls call left next) x =
    let context : Context = record { environment = environment; contract_data = left } in
    let (value, left', x') = call_with_context invoke call context x in
    run_script send_coins invoke environment (next value left') x'

-- What is ready when the sandbox starts: the contract, its code, and the context.
pub record Prepared : Type 0 where
  pub contract : Contract
  pub code : ℕ
  pub method : ℕ
  pub arguments : List ℕ
  pub context : Context

unfoldable pub resolve : Vm → Invocation → ℕ × List ℕ
resolve vm i = elim i.method [ none ↦ (vm.default_method, []) | some m ↦ (m, i.arguments) ]

unfoldable pub make_context :
    ContractProto → Contract → Environment → Option Context → Result (Context × Contract)
make_context p c environment (some context) = ok (context, c)
make_context p c environment none = do
  (d, c') ← Contract.get_data p c
  ok (record { environment = environment; contract_data = d }, c')

unfoldable pub prepare :
    Vm → ContractProto → Invocation → Contract → Environment → Option Context → Result Prepared
unfolding resolve make_context
prepare vm p invocation c environment given = do
  let (code, c') = Contract.get_code p c
  (context, c'') ← make_context p c' environment given
  methods ← or_throw code type_error
  let (method, arguments) = resolve vm invocation
  guard (vm.has_method methods method) no_method
  ok (record {
    contract = c'';
    code = methods;
    method = method;
    arguments = arguments;
    context = context;
  })

-- The contract of the innermost call, which the run may have changed; `c` where there is none.
unfoldable pub top_contract : Contract → App → Contract
top_contract c app = elim app.frames [ [] ↦ c | none ∷ rest ↦ c | some f ∷ rest ↦ f.contract ]

unfoldable pub set_top : Contract → App → App
set_top c app = record app {
  frames = elim app.frames [
    | [] ↦ []
    | none ∷ rest ↦ none ∷ rest
    | some f ∷ rest ↦ some (record f { contract = c }) ∷ rest
  ];
}

-- The body of the `try`: the outcome, the data of the context, and what was changed. The data is
-- stored in the contract only where it ran in its own context and not for a constant call.
unfoldable pub run_prepared :
    Vm
    → (ℕ → ℕ → Exec → Result (Unit {0}) × Exec)
    → (Call → Context → Exec → Result ℕ × ℕ × Exec)
    → Prepared
    → Bool
    → Exec
    → Result ℕ × ℕ × Exec
unfolding run_script top_contract set_top
run_prepared vm send_coins invoke ready stores x =
    let script = vm.run ready.code ready.method ready.arguments ready.context in
    let bound : Exec = record x { app = set_top ready.contract x.app } in
    let (value, left, x') = run_script send_coins invoke ready.context.environment script bound in
    let updated = Contract.update_data (top_contract ready.contract x'.app) left in
    let stored : Exec = record x' { app = set_top updated x'.app } in
    (value, left, elim value [ err e ↦ x' | ok v ↦ if stores then stored else x' ])

-- The data of a given context, when it was not run.
unfoldable pub kept : Option Context → ℕ
kept given = elim given [ none ↦ 0 | some context ↦ context.contract_data ]

-- The `try` of `runContract`.
unfoldable pub run_body :
    Vm
    → ContractProto
    → (ℕ → ℕ → Exec → Result (Unit {0}) × Exec)
    → (Call → Context → Exec → Result ℕ × ℕ × Exec)
    → Invocation
    → Contract
    → Environment
    → Option Context
    → Bool
    → Exec
    → Result ℕ × ℕ × Exec
unfolding run_prepared prepare kept
run_body vm p send_coins invoke invocation c environment given constant x =
    elim (spend_coins x.app.coins_limit x.app.fees.contract_invocation) [
      | err e ↦ (err e, kept given, x)
      | ok left ↦
          let paid : Exec = record x { app = record (x.app) { coins_limit = left } } in
          elim (prepare vm p invocation c environment given) [
            | err e ↦ (err e, kept given, paid)
            | ok ready ↦
                run_prepared vm send_coins invoke ready (not constant && not (is_some given)) paid
          ]
    ]

unfoldable pub run_contract :
    Vm
    → ContractProto
    → (ℕ → ℕ → Exec → Result (Unit {0}) × Exec)
    → (Call → Context → Exec → Result ℕ × ℕ × Exec)
    → Invocation
    → Frame
    → Environment
    → Option Context
    → Bool
    → Exec
    → Ran
unfolding run_body top_contract kept
run_contract vm p send_coins invoke invocation frame environment given constant x =
    elim (exec_started p x.app (some frame)) [
      | err e ↦ record { outcome = err e; left = kept given; contract = frame.contract; exec = x }
      | ok app ↦
          let started : Exec = record x { app = app } in
          let (value, left, x') =
            run_body vm p send_coins invoke invocation (top_contract frame.contract app) environment
              given constant started in
          let c = top_contract frame.contract x'.app in
          let (end, closed) = exec_done p x'.app (some c) in
          record {
            outcome = end >>= λ _. value;
            left = left;
            contract = elim end [ err e ↦ c | ok none ↦ c | ok (some c') ↦ c' ];
            exec = record x' { app = closed };
          }
    ]
