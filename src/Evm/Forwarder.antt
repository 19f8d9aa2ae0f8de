-- ===== src/Evm/Forwarder.antt =====
-- src/DepositForwarder.sol: a deposit address, one clone for each committed recipient. `f` is the
-- frame of the clone, and `implementation` the address of the shared code. Its `config` is the
-- contract of Config.antt, whose storage is read directly.
pub mod Allowance
pub mod Fees
pub mod Settling
pub mod Entry
pub mod Sweeping
pub mod Windows
pub mod Conservation
pub mod Settlements
pub mod Runs
pub mod SelfRescue
pub mod HookData
pub mod Refusals
use mathlib.Core.List.{◌++◌}
use crossmesh_ingress_contra.Prelude.{
  ℕ, ◌-◌, ◌/◌, ◌%◌, ◌^◌, Bool, true, false, not, ◌&&◌, ◌||◌, ltb, leb, ◌==◌, if◌then◌else◌,
}
use crossmesh_ingress_contra.Exec.{pure, gets, unwrap, call, ◌>>=◌, ◌>>◌}
use crossmesh_ingress_contra.Interfaces.{Address, Bytes}
use crossmesh_ingress_contra.Evm.{
  zero_fee_collector, zero_config, not_a_clone, not_operator, below_sweep_minimum,
  not_sweepable_yet, bad_amount, approve_failed, fee_exceeds_settled, fee_collector_is_this_clone,
  burn_unsupported, settled, sweep_requested, CloneStorage, Frame, Action, require, view, in_world,
  store_clone, emit,
}
use crossmesh_ingress_contra.Evm.Word.{
  add, mul, sub, min, length, replicate, last, drop_last, value_from, big_endian,
}
use crossmesh_ingress_contra.Evm.Network.{Network}
use crossmesh_ingress_contra.Evm.Config.{
  stellar_domain, max_setup_fee, max_base_fee, max_fee_ppm, max_sweep_delay, max_cctp_fee_ppm,
}

abbrev pub finality_standard : ℕ
finality_standard = 2000

abbrev pub finality_fast : ℕ
finality_fast = 1000

abbrev pub ppm_denom : ℕ
ppm_denom = 1_000_000

abbrev pub min_sweep_amount : ℕ
min_sweep_amount = 2

-- `bytes24(0) ++ uint32(0) ++ uint32(length) ++ recipient`
unfoldable pub hook_data : Bytes → Bytes
hook_data recipient =
    replicate 24 0 ++ big_endian 4 0 ++ big_endian 4 (length recipient % 2 ^ 32) ++ recipient

-- The window is closed, or its budget is what remains.
abbrev pub closed : CloneStorage → CloneStorage
closed k = record k { sweepable_at = 0; sweep_cap = 0 }

abbrev pub settle_window : Bool → ℕ → CloneStorage → CloneStorage
settle_window close remaining k = if close then closed k else record k { sweep_cap = remaining }

-- What the probe of the minimum fee makes of the raw outcome of the call.
abbrev pub decode_min_fee : Bool × Bytes → ℕ
decode_min_fee (ok, ret) = if not ok || not (length ret == 32) then 0 else value_from 0 ret

module _ {W : Type 0} (n : Network W) where
  -- The constructor: what it returns are the immutables `config` and `implementation`.
  unfoldable pub constructor : Frame → Address → Action W (Address × Address)
  constructor f config = do require (not (config == 0)) zero_config; pure (config, f.this)

  -- `_recipient` and `_fast`, read from the clone's immutable arguments
  unfoldable pub recipient : Frame → Action W Bytes
  recipient f = do
    args ← view (n.clones.fetch_clone_args f.this)
    _flag ← unwrap (last args)
    pure (drop_last args)

  unfoldable pub fast : Frame → Action W Bool
  fast f = do
    args ← view (n.clones.fetch_clone_args f.this)
    flag ← unwrap (last args)
    pure (not (flag == 0))

  unfoldable pub cctp_min_fee : Address → ℕ → Action W ℕ
  cctp_min_fee token_messenger to_burn =
      gets (λ s. decode_min_fee (n.messenger.get_min_fee_amount token_messenger to_burn s.world))

  -- `(amount * rate + PPM_DENOM - 1) / PPM_DENOM`
  unfoldable pub ceil_ppm : ℕ → ℕ → Action W ℕ
  ceil_ppm amount rate = do
    product ← unwrap (mul amount rate)
    raised ← unwrap (add product ppm_denom)
    lowered ← unwrap (sub raised 1)
    pure (lowered / ppm_denom)

  -- `fee >= toBurn ? toBurn - 1 : fee`
  unfoldable pub below : ℕ → ℕ → Action W ℕ
  below to_burn fee = if leb to_burn fee then unwrap (sub to_burn 1) else pure fee

  -- the finality threshold and the fee allowance
  unfoldable pub cctp_params : Address → ℕ → Bool → Action W (ℕ × ℕ)
  cctp_params token_messenger to_burn use_fast = do
    c ← gets (λ s. s.config)
    fee ← ceil_ppm to_burn (
        min (if use_fast then c.cctp_fast_max_fee_ppm else c.cctp_standard_max_fee_ppm)
          max_cctp_fee_ppm)
    chain_min ← cctp_min_fee token_messenger to_burn
    bound ← ceil_ppm to_burn max_cctp_fee_ppm
    let lifted = min (if ltb fee chain_min then chain_min else fee) bound
    max_fee ← below to_burn lifted
    pure (if use_fast then finality_fast else finality_standard, max_fee)

  unfoldable pub burn_limit : Action W ℕ
  burn_limit = do
    c ← gets (λ s. s.config)
    minter ← view (n.messenger.local_minter c.token_messenger)
    limit ← view (n.minter.burn_limits_per_message minter c.usdc)
    require (ltb 0 limit) burn_unsupported
    pure limit

  -- The transfer of the fees, if there are any.
  unfoldable pub send_fees : Frame → Address → ℕ → Action W Unit
  send_fees f usdc total = do
    c ← gets (λ s. s.config)
    require (not (c.fee_collector == 0)) zero_fee_collector
    require (not (c.fee_collector == f.this)) fee_collector_is_this_clone
    call (in_world (n.token.safe_transfer f.this usdc c.fee_collector total))

  -- the setup fee and the fee for this settlement
  unfoldable pub collect_fees : Frame → Address → ℕ → Action W (ℕ × ℕ)
  collect_fees f usdc amount = do
    k ← gets (λ s. s.clones f.this)
    c ← gets (λ s. s.config)
    let setup_fee = if k.setup_fee_paid then 0 else min c.setup_fee max_setup_fee
    product ← unwrap (mul amount (min c.fee_ppm max_fee_ppm))
    per_settle_fee ← unwrap (add (min c.base_fee max_base_fee) (product / ppm_denom))
    total ← unwrap (add setup_fee per_settle_fee)
    require (ltb total amount) fee_exceeds_settled
    store_clone f.this (λ k. record k { setup_fee_paid = true })
    if ltb 0 total then send_fees f usdc total else pure tt
    pure (setup_fee, per_settle_fee)

  unfoldable pub burn_via_cctp : Frame → Address → ℕ → Bool → Action W Unit
  burn_via_cctp f usdc to_burn use_fast = do
    c ← gets (λ s. s.config)
    params ← cctp_params c.token_messenger to_burn use_fast
    approved ← call (in_world (n.token.approve f.this usdc c.token_messenger to_burn))
    require approved approve_failed
    to ← recipient f
    call (
        in_world (
          n.messenger.deposit_for_burn_with_hook f.this c.token_messenger (record {
            amount = to_burn;
            destination_domain = stellar_domain;
            mint_recipient = c.stellar_forwarder;
            burn_token = usdc;
            destination_caller = c.stellar_forwarder;
            max_fee = params.1;
            min_finality_threshold = params.0;
            hook_data = hook_data to;
          })))

  -- `chargeFees && _fast() && config.fastEnabled()`
  unfoldable pub asks_fast : Frame → Action W Bool
  asks_fast f = do flag ← fast f; c ← gets (λ s. s.config); pure (flag && c.fast_enabled)

  -- `_settle`
  unfoldable pub settle : Frame → Address → ℕ → Bool → Action W Unit
  settle f usdc amount charge_fees = do
    balance ← view (n.token.balance_of usdc f.this)
    require (ltb 0 amount && leb amount balance) bad_amount
    fees ← if charge_fees then collect_fees f usdc amount else pure (0, 0)
    left ← unwrap (sub amount fees.0)
    to_burn ← unwrap (sub left fees.1)
    use_fast ← if charge_fees then asks_fast f else pure false
    burn_via_cctp f usdc to_burn use_fast
    emit f (settled f.sender amount fees.0 fees.1 to_burn (not charge_fees) use_fast)

  unfoldable pub is_drained : Frame → Address → Action W Bool
  is_drained f usdc = do balance ← view (n.token.balance_of usdc f.this); pure (balance == 0)

  -- What `flush` and `sweep` do with the window's budget once they have settled.
  unfoldable pub keep_or_close : Frame → Address → ℕ → Action W Unit
  keep_or_close f usdc remaining = do
    close ← if ltb remaining min_sweep_amount then pure true else is_drained f usdc
    store_clone f.this (settle_window close remaining)

  -- The part of `requestSweep` for a window that is not armed.
  unfoldable pub arm : Frame → ℕ → Action W Unit
  arm f balance = do
    c ← gets (λ s. s.config)
    at ← unwrap (add f.timestamp (min c.sweep_delay max_sweep_delay))
    store_clone f.this (λ k. record k { sweepable_at = at; sweep_cap = balance })
    emit f (sweep_requested f.sender at)

  module _ (implementation : Address) where
    -- `onlyClone`
    abbrev pub is_clone : Frame → Bool
    is_clone f = not (f.this == implementation)

    unfoldable pub flush : Frame → Action W Unit
    flush f = do
      require (is_clone f) not_a_clone
      c ← gets (λ s. s.config)
      require (c.is_operator f.sender || (f.sender == c.factory) || c.public_flush) not_operator
      balance ← view (n.token.balance_of c.usdc f.this)
      limit ← burn_limit
      let amount = if ltb limit balance then limit else balance
      settle f c.usdc amount true
      k ← gets (λ s. s.clones f.this)
      let remaining = if ltb amount k.sweep_cap then k.sweep_cap - amount else 0
      if k.sweepable_at == 0 then pure tt else keep_or_close f c.usdc remaining

    unfoldable pub request_sweep : Frame → Action W Unit
    request_sweep f = do
      require (is_clone f) not_a_clone
      c ← gets (λ s. s.config)
      balance ← view (n.token.balance_of c.usdc f.this)
      require (leb min_sweep_amount balance) below_sweep_minimum
      k ← gets (λ s. s.clones f.this)
      if k.sweepable_at == 0 then arm f balance else pure tt

    unfoldable pub sweep : Frame → Action W Unit
    sweep f = do
      require (is_clone f) not_a_clone
      k ← gets (λ s. s.clones f.this)
      require (not (k.sweepable_at == 0) && leb k.sweepable_at f.timestamp) not_sweepable_yet
      c ← gets (λ s. s.config)
      balance ← view (n.token.balance_of c.usdc f.this)
      limit ← burn_limit
      let armed = min balance k.sweep_cap
      let amount = if ltb limit armed then limit else armed
      settle f c.usdc amount false
      armed_still ← gets (λ s. s.clones f.this)
      remaining ← unwrap (sub armed_still.sweep_cap amount)
      keep_or_close f c.usdc remaining
