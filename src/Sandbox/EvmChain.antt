-- ===== src/Sandbox/EvmChain.antt =====
-- A small concrete chain for the examples: USDC, a messenger and a minter as the mocks of
-- test/mocks behave, and one deposit address. The addresses and amounts are made up.
use crossmesh_ingress_contra.Prelude.{
  ℕ, ◌+◌, ◌-◌, Bool, true, false, ◌&&◌, ◌||◌, none, some, List, [], ◌∷◌, arith, ltb, leb, ◌==◌,
  if◌then◌else◌,
}
use crossmesh_ingress_contra.Exec.{Call}
use crossmesh_ingress_contra.Interfaces.{Address, Bytes}
use crossmesh_ingress_contra.Evm.{ConfigStorage, Frame, State}
use crossmesh_ingress_contra.Evm.Network.{Burn, Network}
use crossmesh_ingress_contra.Evm.Config.{unset_config}
use crossmesh_ingress_contra.Evm.Network.Ledger.{Ledger}
use crossmesh_ingress_contra.Sandbox.{sum, move}

pub record Chain : Type 0 where
  pub held : Address → ℕ
  pub allowed : Address → ℕ
  pub burned : List (Address × Burn)
  pub has_code : Address → Bool

abbrev pub usdc_token : Address
usdc_token = 20

abbrev pub token_minter : Address
token_minter = 21

abbrev pub token_messenger : Address
token_messenger = 22

abbrev pub stellar_account : ℕ
stellar_account = 23

abbrev pub shared_code : Address
shared_code = 24

abbrev pub deposit_factory : Address
deposit_factory = 25

abbrev pub governor : Address
governor = 26

abbrev pub operator : Address
operator = 27

abbrev pub fee_account : Address
fee_account = 28

abbrev pub depositor : Address
depositor = 29

abbrev pub strkey : Bytes
strkey = 71 ∷ 65 ∷ []

-- the address of the standard clone for the strkey
abbrev pub deposit : Address
deposit = 1136

abbrev pub with_code : Address → Chain → Chain
with_code a w = record w { has_code = λ b. if b == a then true else w.has_code b }

abbrev pub transferred : Address → Address → ℕ → Chain → Chain
transferred from to amount w = record w { held = move from to amount w.held }

abbrev pub announce : Address → Burn → Chain → Chain
announce from burn w = record w {
  held = λ a. if a == from then w.held a - burn.amount else w.held a;
  burned = (from, burn) ∷ w.burned;
}

-- `MockTokenMessenger.depositForBurnWithHook`, for a messenger without a minimum fee
abbrev pub take_burn : Address → Address → Burn → Call Chain Unit
take_burn from messenger burn w =
    if leb burn.amount (w.allowed from)
      && leb burn.amount (w.held from)
      && ltb burn.max_fee burn.amount
    then some (tt, announce from burn w)
    else none

abbrev pub chain : Network Chain
chain = record {
  code_length = λ a w. if w.has_code a then 45 else 0;
  native_balance = λ a w. 7;
  keccak256 = sum;
  token = record {
    balance_of = λ token a w. some (w.held a);
    safe_transfer = λ from token to amount w.
        if leb amount (w.held from) then some (tt, transferred from to amount w) else none;
    approve = λ owner token spender amount w.
        some (true, record w { allowed = λ a. if a == owner then amount else w.allowed a });
  };
  messenger = record {
    deposit_for_burn_with_hook = take_burn;
    local_minter = λ m w. some token_minter;
    message_body_version = λ m w. some 1;
    remote_token_messengers = λ m domain w. some 1;
    get_min_fee_amount = λ m amount w. (false, []);
  };
  minter = record { burn_limits_per_message = λ m token w. some 1000 };
  clones = record {
    fetch_clone_args = λ a w. if w.has_code a then some (71 ∷ 65 ∷ 0 ∷ []) else none;
    predict = λ impl args salt deployer. 1000 + sum args;
    clone_deterministic = λ impl args salt deployer w.
        if w.has_code (1000 + sum args)
        then none
        else some (1000 + sum args, with_code (1000 + sum args) w);
  };
  implementation = λ a w. some shared_code;
  config = λ a w. some 30;
}

abbrev pub start_chain : Chain
start_chain = record {
  held = λ a. if a == deposit then 600 else 0;
  allowed = λ _. 0;
  burned = [];
  has_code = λ a.
      (a == usdc_token) || (a == token_messenger) || (a == shared_code) || (a == deposit_factory);
}

abbrev pub frame_of : Address → Address → ℕ → Frame
frame_of this sender now = record { this = this; sender = sender; timestamp = now }

abbrev pub empty_chain : State Chain
empty_chain = record {
  world = start_chain;
  config = unset_config;
  clones = λ _. record { sweepable_at = 0; sweep_cap = 0; setup_fee_paid = false };
  log = [];
}

-- Config as it is after `init` and a few settings.
abbrev pub settings : ConfigStorage
settings = record unset_config {
  usdc = usdc_token;
  token_messenger = token_messenger;
  stellar_forwarder = stellar_account;
  initialized = true;
  owner = governor;
  setup_fee = 50;
  base_fee = 5;
  fee_ppm = 10_000;
  fee_collector = fee_account;
  sweep_delay = 3_600;
  is_operator = λ a. a == operator;
  factory = deposit_factory;
  rescue_sink = fee_account;
}

-- The deposit address is deployed, and holds 600.
abbrev pub funded : State Chain
funded = record empty_chain { world = with_code deposit start_chain; config = settings }

pub usdc_ledger : Ledger chain usdc_token token_messenger
usdc_ledger = record {
  messages = λ w. w.burned;
  transfer_takes = λ from to amount b v w h p q. ground arith;
  transfer_gives = λ from to amount b v w h p q. ground arith;
  transfer_silent = λ from to amount v w h. ground arith;
  approve_keeps = λ owner spender a amount v w h. ground arith;
  burn_takes = λ from burn b v w h p q. ground arith;
  burn_keeps = λ from a burn v w h p. ground arith;
  transfer_args = λ from to a amount v w h. ground arith;
  approve_args = λ owner spender a amount v w h. ground arith;
}
