-- ===== src/Sandbox/EvmExamples.antt =====
-- The theorems about the EVM contracts at concrete inputs, and runs of the contracts.
use crossmesh_ingress_contra.Prelude.{
  ℕ, ◌≤◌, ◌≡◌, refl, ◌≢◌, true, false, some, [], ◌∷◌, arith, ◌==◌, if◌then◌else◌, lt→ltb,
}
use crossmesh_ingress_contra.Exec.{Outcome, done, err, trap, ◌>>=◌}
use crossmesh_ingress_contra.Evm.{Revert, not_sweepable_yet, fee_exceeds_settled, Frame, State}
use crossmesh_ingress_contra.Evm.Word.{add, mul, sub, min, big_endian}
use crossmesh_ingress_contra.Evm.Forwarder.{
  hook_data, recipient, fast, cctp_min_fee, ceil_ppm, below, cctp_params, burn_limit, send_fees,
  collect_fees, burn_via_cctp, asks_fast, settle, is_drained, keep_or_close, arm, flush,
  request_sweep, sweep,
}
use crossmesh_ingress_contra.Evm.Forwarder.Allowance.{
  reported_minimum, IsAllowance, cctp_params_returns,
}
use crossmesh_ingress_contra.Evm.Forwarder.Settling.{burn_message}
use crossmesh_ingress_contra.Evm.Forwarder.Entry.{MayFlush, Limit}
use crossmesh_ingress_contra.Evm.Forwarder.Sweeping.{armed_state}
use crossmesh_ingress_contra.Evm.Forwarder.Conservation.{Exact}
use crossmesh_ingress_contra.Evm.Forwarder.Settlements.{flush_settles, LeavesWindow, sweep_settles}
use crossmesh_ingress_contra.Evm.Forwarder.SelfRescue.{CanSweep, self_rescue_returns}
use crossmesh_ingress_contra.Evm.Forwarder.HookData.{read_hook_data, read_hook_data-hook_data}
use crossmesh_ingress_contra.Evm.Forwarder.Refusals.{Started, too_dear, flush_fails}
use crossmesh_ingress_contra.Sandbox.EvmChain.{
  Chain, usdc_token, token_minter, token_messenger, shared_code, operator, fee_account, depositor,
  strkey, deposit, announce, chain, frame_of, settings, funded, usdc_ledger,
}

abbrev pub state_of : State Chain → Outcome (State Chain) Revert Unit → State Chain
state_of s (done a t) = t
state_of s (err e) = s
state_of s trap = s

abbrev pub by_operator : Frame
by_operator = frame_of deposit operator 100

abbrev flushed_once : State Chain
unfolding flush burn_limit settle collect_fees send_fees asks_fast fast burn_via_cctp cctp_params
    cctp_min_fee ceil_ppm below recipient keep_or_close is_drained add mul sub hook_data big_endian
    ◌>>=◌
flushed_once = state_of funded (flush chain shared_code by_operator funded)

flush_runs : flush chain shared_code by_operator funded ≡ done tt flushed_once
unfolding flushed_once
flush_runs = refl

-- A flush of the 600: 50 for the setup, 5 and one percent for this settlement.
flush_pays : (flushed_once.world.held fee_account ≡ 61) × (flushed_once.world.held deposit ≡ 0)
unfolding flushed_once
flush_pays = (refl, refl)

cctp_params_returns_example :
    (max_fee : ℕ) × (cctp_params chain token_messenger 594 true funded
      ≡ done (1000, max_fee) funded)
    × IsAllowance 594 (reported_minimum chain token_messenger 594 funded.world) max_fee
cctp_params_returns_example =
    cctp_params_returns chain token_messenger 594 true funded (omega arith) (omega arith)

flush_settles_example :
    (deposit ≢ shared_code)
    × MayFlush chain shared_code by_operator settings
    × ((balance : ℕ) × (limit : ℕ) × (chain.token.balance_of usdc_token deposit funded.world
          ≡ some balance)
        × Limit chain shared_code by_operator settings limit funded.world
        × Exact chain by_operator usdc_ledger (min limit balance) true funded flushed_once.world)
flush_settles_example =
    flush_settles chain shared_code by_operator funded flushed_once usdc_ledger flush_runs

-- The depositor asks for a sweep, and sweeps an hour later.
abbrev pub asking : Frame
asking = frame_of deposit depositor 100

abbrev sweeping : Frame
sweeping = frame_of deposit depositor 3_700

abbrev armed_once : State Chain
unfolding request_sweep arm add ◌>>=◌
armed_once = state_of funded (request_sweep chain shared_code asking funded)

abbrev swept_once : State Chain
unfolding armed_once sweep burn_limit settle burn_via_cctp cctp_params cctp_min_fee ceil_ppm below
    recipient keep_or_close is_drained add mul sub hook_data big_endian ◌>>=◌
swept_once = state_of armed_once (sweep chain shared_code sweeping armed_once)

sweep_runs_once : sweep chain shared_code sweeping armed_once ≡ done tt swept_once
unfolding swept_once
sweep_runs_once = refl

-- Nothing is charged.
sweep_free : (swept_once.world.held fee_account ≡ 0) × (swept_once.world.held deposit ≡ 0)
unfolding swept_once
sweep_free = (refl, refl)

-- It cannot be made a second earlier.
too_early :
    sweep chain shared_code (frame_of deposit depositor 3_699) armed_once ≡ err not_sweepable_yet
unfolding swept_once
too_early = refl

sweep_settles_example :
    (deposit ≢ shared_code)
    × ((armed_once.clones deposit).sweepable_at ≢ 0)
    × ((armed_once.clones deposit).sweepable_at ≤ 3_700)
    × ((balance : ℕ) × (limit : ℕ) × (chain.token.balance_of armed_once.config.usdc deposit
            armed_once.world
          ≡ some balance)
        × Limit chain shared_code sweeping armed_once.config limit armed_once.world
        × Exact chain sweeping usdc_ledger
            (min limit (min balance (armed_once.clones deposit).sweep_cap))
            false
            armed_once
            swept_once.world
        × LeavesWindow chain shared_code sweeping
            (min limit (min balance (armed_once.clones deposit).sweep_cap))
            (chain.token.balance_of armed_once.config.usdc deposit swept_once.world)
            (armed_once.clones deposit)
            (swept_once.clones deposit))
unfolding armed_once
sweep_settles_example =
    sweep_settles chain shared_code sweeping armed_once swept_once usdc_ledger sweep_runs_once

-- A week later, in a chain where the fees are at their caps and there is no operator.
abbrev harsh : State Chain
harsh = record armed_once {
  config = record settings {
    setup_fee = 100_000_000;
    base_fee = 100_000_000;
    is_operator = λ _. false;
  };
}

abbrev much_later : Frame
much_later = frame_of deposit depositor 604_900

abbrev approved_chain : Chain
unfolding armed_once
approved_chain = record harsh.world {
  allowed = λ a. if a == deposit then 600 else harsh.world.allowed a;
}

can_sweep : CanSweep chain much_later shared_code harsh
unfolding armed_once
can_sweep = record {
  balance = 600;
  balance_read = refl;
  balance_enough = omega arith;
  limit = 1000;
  limit_read = (token_minter, refl, refl);
  limit_enough = omega arith;
  limit_small = omega arith;
  can_burn = record {
    minimum_low = omega arith;
    approved_world = approved_chain;
    approves = refl;
    args = 71 ∷ 65 ∷ 0 ∷ [];
    flag = 0;
    args_there = refl;
    flag_last = refl;
    accepts = λ max_fee h k. (
      announce deposit (burn_message harsh.config usdc_token 600 max_fee false strkey)
          approved_chain,
      0,
      rw (lt→ltb max_fee 600 h) refl,
      refl,
    );
  };
}

self_rescue_returns_example :
    (request_sweep chain shared_code asking funded
      ≡ done tt (armed_state chain shared_code asking 600 funded))
    × ((v : State Chain) × (sweep chain shared_code much_later harsh ≡ done tt v))
unfolding armed_once
self_rescue_returns_example =
    self_rescue_returns chain shared_code asking much_later funded harsh 600 (omega arith) refl
      (omega arith) refl (omega arith) (omega arith) refl (omega arith) refl can_sweep

read_hook_data-hook_data_example : read_hook_data (hook_data strkey) ≡ some strkey
read_hook_data-hook_data_example = read_hook_data-hook_data strkey (omega arith)

-- 55 arrived, and the fees come to 55.
abbrev poor : State Chain
poor = record funded { world = record funded.world { held = λ a. if a == deposit then 55 else 0 } }

poor_start : Started chain shared_code by_operator poor 55 1000
poor_start = record {
  on_clone = omega arith;
  permitted = refl;
  balance_read = refl;
  limit_read = (token_minter, refl, refl);
}

flush_fails_example : flush chain shared_code by_operator poor ≡ err fee_exceeds_settled
flush_fails_example =
    flush_fails chain shared_code by_operator poor (err fee_exceeds_settled)
      (too_dear 55 1000 poor_start (omega arith) (omega arith) (omega arith) (omega arith))
