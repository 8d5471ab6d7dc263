-- ===== src/App/Limit.antt =====
-- node/app.js: a run only takes from the coins that are left, whatever the contract does.
use cil_core.Base.{
  ℕ, ◌≤◌, ◌≡◌, refl, ◌∙◌, inl, inr, Bool, ◌&&◌, not, Option, some, arith, leb, Bool-cases, is_some,
  recursion, Result, ok, or_throw, Result-cases, >>=-eq-ok,
}
use cil_core.Contract.{Contract, ContractProto}
use cil_core.App.Types.{
  Frame, App, Environment, Context, Invocation, Call, Script, returns, throws, sends, calls, Vm,
  Exec,
}
use cil_core.App.{spend_coins, exec_started, exec_done, frame_size}
use cil_core.App.Run.{
  check_coins_to_pass, send, call_with_context, run_script, Prepared, top_contract, set_top,
  run_prepared, run_body, run_contract, prepare,
}

-- The second application has at most the coins of the first, and the same start and fees.
pub record Spends (a b : App) : Type 0 where
  pub left : b.coins_limit ≤ a.coins_limit
  pub start : b.initial_coins ≡ a.initial_coins

pub Spends-self : (a : App) → Spends a a
Spends-self a = record { left = omega arith; start = refl }

pub Spends-then : (a b c : App) → Spends a b → Spends b c → Spends a c
Spends-then a b c s t = record { left = ground (arith, s.left, t.left); start = t.start ∙ s.start }

exec_started-Spends :
    (p : ContractProto) (a b : App) (frame : Option Frame)
    → exec_started p a frame ≡ ok b
    → Spends a b
unfolding exec_started
exec_started-Spends p a b frame e =
    let (sizes, e1, r1) = >>=-eq-ok (or_throw a.data_sizes recursion) _ e in
    let (sized, e2, r2) = >>=-eq-ok (frame_size p frame) _ r1 in
    record { left = ground (arith, r2); start = ground (arith, r2) }

exec_done-Spends :
    (p : ContractProto) (a : App) (c : Contract) → Spends a (exec_done p a (some c)).1
unfolding exec_done
exec_done-Spends p a c = record { left = ground arith; start = ground arith }

module _ (send_coins : ℕ → ℕ → Exec → Result (Unit {0}) × Exec)
    (invoke : Call → Context → Exec → Result ℕ × ℕ × Exec)
    (sends_within : (address amount : ℕ) (x : Exec)
      → Spends x.app ((send_coins address amount x).1).app)
    (invokes_within : (call : Call) (context : Context) (x : Exec)
      → Spends x.app ((invoke call context x).2).app) where
  send-Spends :
      (address amount : ℕ) (x : Exec) → Spends x.app ((send send_coins address amount x).1).app
  unfolding send spend_coins
  send-Spends address amount x = elim (Bool-cases (leb x.app.fees.internal_tx x.app.coins_limit)) [
    | inl e ↦
        rw (e, send)
          (Spends-then _ _ _ (record { left = omega arith; start = refl })
            (sends_within address amount _))
    | inr e ↦ rw (e, send) (Spends-self x.app)
  ]

  call-Spends :
      (call : Call) (context : Context) (x : Exec)
      → Spends x.app ((call_with_context invoke call context x).2).app
  unfolding call_with_context
  call-Spends call context x = elim (Result-cases (check_coins_to_pass x.app call.coins_to_pass)) [
    | inl (_, e) ↦ rw (e, call_with_context) (invokes_within call context x)
    | inr (_, e) ↦ rw (e, call_with_context) (Spends-self x.app)
  ]

  run_script-Spends :
      (environment : Environment) (script : Script) (x : Exec)
      → Spends x.app ((run_script send_coins invoke environment script x).2).app
  unfolding run_script
  run_script-Spends environment (returns value left) x = Spends-self x.app
  run_script-Spends environment (throws thrown left) x = Spends-self x.app
  run_script-Spends environment (sends address amount next) x =
      Spends-then _ _ _ (send-Spends address amount x) (run_script-Spends environment (next _) _)
  run_script-Spends environment (calls call left next) x =
      Spends-then _ _ _ (call-Spends call _ x) (run_script-Spends environment (next _ _) _)

  run_prepared-Spends :
      (vm : Vm) (ready : Prepared) (stores : Bool) (x : Exec)
      → Spends x.app ((run_prepared vm send_coins invoke ready stores x).2).app
  unfolding run_prepared set_top
  run_prepared-Spends vm ready stores x =
      let script = vm.run ready.code ready.method ready.arguments ready.context in
      let bound : Exec = record x { app = set_top ready.contract x.app } in
      let ran = run_script send_coins invoke ready.context.environment script bound in
      let spends = run_script-Spends ready.context.environment script bound in
      elim (Result-cases ran.0) [
        | inr (_, e) ↦ rw (e, run_prepared) (record { left = spends.left; start = spends.start })
        | inl (_, e) ↦ elim (Bool-cases stores) [
          | inl f ↦ rw (e, f, run_prepared) (record { left = spends.left; start = spends.start })
          | inr f ↦ rw (e, f, run_prepared) (record { left = spends.left; start = spends.start })
        ]
      ]

  run_body-Spends :
      (vm : Vm) (p : ContractProto) (invocation : Invocation) (c : Contract)
      (environment : Environment) (given : Option Context) (constant : Bool) (x : Exec)
      → Spends x.app
          ((run_body vm p send_coins invoke invocation c environment given constant x).2).app
  unfolding run_body spend_coins
  run_body-Spends vm p invocation c environment given constant x =
      elim (Bool-cases (leb x.app.fees.contract_invocation x.app.coins_limit)) [
        | inr e ↦ rw (e, run_body) (Spends-self x.app)
        | inl e ↦ elim (Result-cases (prepare vm p invocation c environment given)) [
          | inr (_, f) ↦ rw (e, f, run_body) (record { left = omega arith; start = refl })
          | inl (ready, f) ↦
              rw (e, f, run_body)
                (Spends-then _ _ _ (record { left = omega arith; start = refl })
                  (run_prepared-Spends vm ready (not constant && not (is_some given)) _))
        ]
      ]

  pub run_contract-Spends :
      (vm : Vm) (p : ContractProto) (invocation : Invocation) (frame : Frame)
      (environment : Environment) (given : Option Context) (constant : Bool) (x : Exec)
      → Spends x.app
          ((run_contract vm p send_coins invoke invocation frame environment given constant x).exec
            ).app
  unfolding run_contract
  run_contract-Spends vm p invocation frame environment given constant x =
      elim (Result-cases (exec_started p x.app (some frame))) [
        | inr (_, e) ↦ rw (e, run_contract) (Spends-self x.app)
        | inl (app, e) ↦
            rw (e, run_contract)
              (Spends-then _ _ _ (exec_started-Spends p x.app app (some frame) e) (
                Spends-then _ _ _
                  (run_body-Spends vm p invocation (top_contract frame.contract app) environment
                    given constant (record x { app = app }))
                  (exec_done-Spends p _ _)))
      ]
