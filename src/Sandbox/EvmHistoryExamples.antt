-- ===== src/Sandbox/EvmHistoryExamples.antt =====
-- The theorems about histories of the EVM contracts, deployment and rescue at concrete inputs.
use crossmesh_ingress_contra.Prelude.{ℕ, ◌≡◌, refl, ◌⊎◌, true, false, some, [], ◌∷◌, arith}
use crossmesh_ingress_contra.Exec.{Outcome, done, err, trap, panic_if, ◌>>=◌}
use crossmesh_ingress_contra.Interfaces.{Address}
use crossmesh_ingress_contra.Evm.{
  Revert, owner_transferred, sweep_delay_set, rescued_native, forwarder_deployed, Frame, State,
}
use crossmesh_ingress_contra.Evm.Word.{add, mul, sub, min, big_endian}
use crossmesh_ingress_contra.Evm.Config.{
  unset_config, only_owner, constructor, transfer_ownership, accept_ownership, reported_limit, init,
}
use crossmesh_ingress_contra.Evm.Config.Calls.{
  ConfigCall, init_call, transfer_call, accept_call, run_config,
}
use crossmesh_ingress_contra.Evm.Config.Caps.{Capped, SameWiring, Governed}
use crossmesh_ingress_contra.Evm.Forwarder.{
  hook_data, recipient, fast, cctp_min_fee, ceil_ppm, below, cctp_params, burn_limit, send_fees,
  collect_fees, burn_via_cctp, asks_fast, settle, is_drained, keep_or_close, flush,
}
use crossmesh_ingress_contra.Evm.Forwarder.Entry.{Limit}
use crossmesh_ingress_contra.Evm.Forwarder.Windows.{Window}
use crossmesh_ingress_contra.Evm.Factory.{
  args_of, salt_of, compute_address, is_deployed, create, deploy, deploy_and_flush,
}
use crossmesh_ingress_contra.Evm.Rescue.{Untrusted, attempt, rescue_native}
use crossmesh_ingress_contra.Evm.Factory.Deploying.{Predictable, deploy_commits}
use crossmesh_ingress_contra.Evm.Rescue.Principal.{Quiet, NativeRescue, rescue_native_safe}
use crossmesh_ingress_contra.Evm.Factory.Relaying.{relay_frame, with_relay}
use crossmesh_ingress_contra.Evm.Factory.Delivering.{deploy_and_flush_delivers}
use crossmesh_ingress_contra.Evm.History.{Step, configured, config_caller, here, next}
use crossmesh_ingress_contra.Evm.History.Limits.{reachable_wiring, Step-Governed, reachable_limits}
use crossmesh_ingress_contra.Evm.Forwarder.Conservation.{Exact}
use crossmesh_ingress_contra.Sandbox.EvmChain.{
  Chain, usdc_token, token_messenger, stellar_account, shared_code, deposit_factory, governor,
  operator, fee_account, depositor, strkey, deposit, with_code, chain, start_chain, frame_of,
  empty_chain, settings, funded, usdc_ledger,
}
use crossmesh_ingress_contra.Sandbox.EvmExamples.{state_of, by_operator, asking}

-- What is called takes the coin or the tokens, and does nothing else.
abbrev takers : Untrusted Chain
takers = record {
  send = λ from to amount s. some (tt, s);
  safe_transfer = λ from token to amount s. some (tt, s);
}

takers-Quiet : Quiet takers
takers-Quiet = record {
  send_quiet = λ a b amount s t h. ground arith;
  transfer_quiet = λ a b c amount s t h. ground arith;
}

abbrev config_frame : Address → Frame
config_frame sender = frame_of 30 sender 10

-- The governor constructs Config and wires it, and proposes the operator, who accepts.
abbrev constructed : State Chain
constructed = record empty_chain {
  config = record unset_config { owner = governor; sweep_delay = 3_600 };
  log = (30, sweep_delay_set 3_600) ∷ (30, owner_transferred 0 governor) ∷ [];
}

construction : constructor (config_frame governor) governor empty_chain ≡ done tt constructed
unfolding constructor ◌>>=◌
construction = refl

abbrev wiring : ConfigCall
wiring = init_call usdc_token token_messenger stellar_account

abbrev wired_state : State Chain
unfolding run_config init reported_limit only_owner ◌>>=◌
wired_state = state_of constructed (run_config chain (config_frame governor) wiring constructed)

abbrev proposed_state : State Chain
unfolding wired_state run_config transfer_ownership only_owner ◌>>=◌
proposed_state =
    state_of wired_state
      (run_config chain (config_frame governor) (transfer_call operator) wired_state)

abbrev accepted_state : State Chain
unfolding proposed_state run_config accept_ownership ◌>>=◌
accepted_state =
    state_of proposed_state (run_config chain (config_frame operator) accept_call proposed_state)

wire-Step : Step chain takers shared_code constructed wired_state
unfolding wired_state
wire-Step = configured (config_frame governor) wiring refl

propose-Step : Step chain takers shared_code wired_state proposed_state
unfolding proposed_state
propose-Step = configured (config_frame governor) (transfer_call operator) refl

accept-Step : Step chain takers shared_code proposed_state accepted_state
unfolding accepted_state
accept-Step = configured (config_frame operator) accept_call refl

reachable_limits_example :
    (Capped accepted_state.config) × ((a : Address) → Window (accepted_state.clones a))
reachable_limits_example =
    reachable_limits chain takers shared_code takers-Quiet (config_frame governor) governor
      empty_chain constructed accepted_state refl
      (λ a. record { closed_empty = λ _. refl; armed_enough = λ p. absurd (p refl) }) construction
      (next (next (next here wire-Step) propose-Step) accept-Step)

reachable_wiring_example : SameWiring wired_state.config accepted_state.config
unfolding wired_state
reachable_wiring_example =
    reachable_wiring chain takers shared_code takers-Quiet
      (next (next here propose-Step) accept-Step) refl

Step-Governed_example :
    (accepted_state.config ≡ proposed_state.config)
    ⊎ ((caller : Address) × (config_caller chain takers shared_code accept-Step ≡ some caller)
        × Governed caller proposed_state.config accepted_state.config)
Step-Governed_example = Step-Governed chain takers shared_code takers-Quiet accept-Step

-- The factory deploys the clone, and deploys nothing the second time.
abbrev factory_call_frame : Frame
factory_call_frame = frame_of deposit_factory depositor 10

predictable :
    Predictable chain shared_code
      (args_of strkey false)
      (salt_of chain shared_code strkey 0)
      deposit_factory
unfolding args_of
predictable = record { lands = λ a v w h. ground arith; committed = λ w h. ground arith }

abbrev deployed_once : State Chain
deployed_once = record empty_chain {
  world = with_code 1136 start_chain;
  log = (deposit_factory, forwarder_deployed 1136 strkey 0 false) ∷ [];
}

deploy_runs :
    deploy chain shared_code factory_call_frame strkey 0 false empty_chain ≡ done 1136 deployed_once
unfolding deploy create compute_address args_of ◌>>=◌
deploy_runs = refl

deploy_commits_example :
    (1136 ≡ compute_address chain shared_code factory_call_frame strkey 0 false)
    × (is_deployed chain shared_code factory_call_frame strkey 0 false deployed_once
        ≡ done true deployed_once)
    × (recipient chain asking deployed_once ≡ done strkey deployed_once)
    × (fast chain asking deployed_once ≡ done false deployed_once)
    × (deploy chain shared_code factory_call_frame strkey 0 false deployed_once
        ≡ done 1136 deployed_once)
deploy_commits_example =
    deploy_commits chain shared_code factory_call_frame strkey 0 false predictable empty_chain
      deployed_once 1136 asking deploy_runs refl

abbrev rescued_once : State Chain
rescued_once = record funded { log = (deposit, rescued_native fee_account 7) ∷ [] }

rescue_runs : rescue_native chain takers by_operator funded ≡ done tt rescued_once
unfolding rescue_native attempt panic_if ◌>>=◌
rescue_runs = refl

rescue_native_safe_example : NativeRescue chain takers by_operator funded rescued_once
rescue_native_safe_example =
    rescue_native_safe chain takers by_operator funded rescued_once rescue_runs

-- The operator has the factory deploy the clone and flush the 600 that wait at its address.
abbrev relaying : Frame
relaying = frame_of deposit_factory operator 10

abbrev waiting : State Chain
waiting = record empty_chain { config = settings }

abbrev address_state : State Chain → Outcome (State Chain) Revert Address → State Chain
address_state s (done a t) = t
address_state s (err e) = s
address_state s trap = s

abbrev relayed_once : State Chain
unfolding deploy_and_flush deploy create compute_address args_of flush burn_limit settle
    collect_fees send_fees asks_fast fast burn_via_cctp cctp_params ceil_ppm below cctp_min_fee
    recipient is_drained keep_or_close hook_data big_endian add mul sub ◌>>=◌
relayed_once =
    address_state waiting (deploy_and_flush chain shared_code relaying strkey 0 false waiting)

relay_runs :
    deploy_and_flush chain shared_code relaying strkey 0 false waiting ≡ done 1136 relayed_once
unfolding relayed_once
relay_runs = refl

deploy_and_flush_delivers_example :
    (1136 ≡ compute_address chain shared_code relaying strkey 0 false)
    × ((waiting.config.is_operator operator ≡ true) ⊎ (waiting.config.public_flush ≡ true))
    × ((u : State Chain) × (balance limit : ℕ) × (deploy chain shared_code relaying strkey 0 false
            waiting
          ≡ done 1136 u)
        × (chain.token.balance_of waiting.config.usdc 1136 u.world ≡ some balance)
        × Limit chain shared_code relaying waiting.config limit u.world
        × ((x : Exact chain
              (relay_frame chain shared_code relaying strkey 0 false 1136)
              usdc_ledger
              (min limit balance)
              true
              (with_relay chain shared_code relaying strkey 0 false 1136 u)
              relayed_once.world)
            × (x.burn.hook_data ≡ hook_data strkey)))
deploy_and_flush_delivers_example =
    deploy_and_flush_delivers chain shared_code relaying strkey 0 false predictable waiting
      relayed_once 1136 usdc_ledger relay_runs
