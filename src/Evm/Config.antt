-- ===== src/Evm/Config.antt =====
-- src/Config.sol: the configuration that every deposit address reads. `f` is the frame that the
-- contract runs in.
pub mod Calls
pub mod Effects
pub mod Caps
use crossmesh_ingress_contra.Prelude.{ℕ, Bool, true, false, not, ◌&&◌, leb, ◌==◌, if◌then◌else◌}
use crossmesh_ingress_contra.Exec.{pure, gets, ◌>>=◌, ◌>>◌}
use crossmesh_ingress_contra.Interfaces.{Address}
use crossmesh_ingress_contra.Evm.{
  zero_owner, not_owner, already_initialized, zero_wiring, no_code, not_cctp_v2, usdc_not_burnable,
  no_stellar_route, above_cap, below_floor, factory_has_no_code, factory_not_wired,
  zero_rescue_sink, not_pending_owner, zero_fee_collector, initialized_event,
  ownership_transfer_started, owner_transferred, setup_fee_set, base_fee_set, fee_ppm_set,
  cctp_standard_max_fee_ppm_set, cctp_fast_max_fee_ppm_set, sweep_delay_set, fast_enabled_set,
  public_flush_set, fee_collector_set, factory_set, rescue_sink_set, operator_set, ConfigStorage,
  Frame, State, Action, require, view, store_config, emit,
}
use crossmesh_ingress_contra.Evm.Network.{Network}

abbrev pub stellar_domain : ℕ
stellar_domain = 27

abbrev pub max_setup_fee : ℕ
max_setup_fee = 100_000_000

abbrev pub max_base_fee : ℕ
max_base_fee = 100_000_000

abbrev pub max_fee_ppm : ℕ
max_fee_ppm = 10_000

abbrev pub min_sweep_delay : ℕ
min_sweep_delay = 3_600

abbrev pub max_sweep_delay : ℕ
max_sweep_delay = 604_800

abbrev pub max_cctp_fee_ppm : ℕ
max_cctp_fee_ppm = 10_000

-- The storage of a contract that is not yet constructed.
abbrev pub unset_config : ConfigStorage
unset_config = record {
  usdc = 0;
  token_messenger = 0;
  stellar_forwarder = 0;
  initialized = false;
  owner = 0;
  pending_owner = 0;
  setup_fee = 0;
  base_fee = 0;
  fee_ppm = 0;
  cctp_standard_max_fee_ppm = 0;
  cctp_fast_max_fee_ppm = 0;
  fast_enabled = false;
  public_flush = false;
  fee_collector = 0;
  sweep_delay = 0;
  is_operator = λ _. false;
  factory = 0;
  rescue_sink = 0;
}

module _ {W : Type 0} where
  -- `onlyOwner`
  abbrev pub is_owner : Frame → State W → Bool
  is_owner f s = f.sender == s.config.owner

  unfoldable pub only_owner : Frame → Action W Unit
  only_owner f s = require (is_owner f s) not_owner s

  unfoldable pub constructor : Frame → Address → Action W Unit
  constructor f owner = do
    require (not (owner == 0)) zero_owner
    store_config (λ c. record c { owner = owner })
    emit f (owner_transferred 0 owner)
    store_config (λ c. record c { sweep_delay = min_sweep_delay })
    emit f (sweep_delay_set min_sweep_delay)

  unfoldable pub set_setup_fee : Frame → ℕ → Action W Unit
  set_setup_fee f value = do
    only_owner f
    require (leb value max_setup_fee) above_cap
    store_config (λ c. record c { setup_fee = value })
    emit f (setup_fee_set value)

  unfoldable pub set_base_fee : Frame → ℕ → Action W Unit
  set_base_fee f value = do
    only_owner f
    require (leb value max_base_fee) above_cap
    store_config (λ c. record c { base_fee = value })
    emit f (base_fee_set value)

  unfoldable pub set_fee_ppm : Frame → ℕ → Action W Unit
  set_fee_ppm f value = do
    only_owner f
    require (leb value max_fee_ppm) above_cap
    store_config (λ c. record c { fee_ppm = value })
    emit f (fee_ppm_set value)

  unfoldable pub set_cctp_standard_max_fee_ppm : Frame → ℕ → Action W Unit
  set_cctp_standard_max_fee_ppm f value = do
    only_owner f
    require (leb value max_cctp_fee_ppm) above_cap
    store_config (λ c. record c { cctp_standard_max_fee_ppm = value })
    emit f (cctp_standard_max_fee_ppm_set value)

  unfoldable pub set_cctp_fast_max_fee_ppm : Frame → ℕ → Action W Unit
  set_cctp_fast_max_fee_ppm f value = do
    only_owner f
    require (leb value max_cctp_fee_ppm) above_cap
    store_config (λ c. record c { cctp_fast_max_fee_ppm = value })
    emit f (cctp_fast_max_fee_ppm_set value)

  unfoldable pub set_fast_enabled : Frame → Bool → Action W Unit
  set_fast_enabled f value = do
    only_owner f
    store_config (λ c. record c { fast_enabled = value })
    emit f (fast_enabled_set value)

  unfoldable pub set_public_flush : Frame → Bool → Action W Unit
  set_public_flush f value = do
    only_owner f
    store_config (λ c. record c { public_flush = value })
    emit f (public_flush_set value)

  unfoldable pub set_fee_collector : Frame → Address → Action W Unit
  set_fee_collector f value = do
    only_owner f
    require (not (value == 0)) zero_fee_collector
    store_config (λ c. record c { fee_collector = value })
    emit f (fee_collector_set value)

  unfoldable pub set_sweep_delay : Frame → ℕ → Action W Unit
  set_sweep_delay f value = do
    only_owner f
    require (leb min_sweep_delay value) below_floor
    require (leb value max_sweep_delay) above_cap
    store_config (λ c. record c { sweep_delay = value })
    emit f (sweep_delay_set value)

  unfoldable pub set_operator : Frame → Address → Bool → Action W Unit
  set_operator f value allowed = do
    only_owner f
    store_config
        (λ c. record c { is_operator = λ a. if a == value then allowed else c.is_operator a })
    emit f (operator_set value allowed)

  unfoldable pub set_rescue_sink : Frame → Address → Action W Unit
  set_rescue_sink f value = do
    only_owner f
    require (not (value == 0)) zero_rescue_sink
    store_config (λ c. record c { rescue_sink = value })
    emit f (rescue_sink_set value)

  unfoldable pub transfer_ownership : Frame → Address → Action W Unit
  transfer_ownership f to = do
    only_owner f
    store_config (λ c. record c { pending_owner = to })
    owner ← gets (λ s. s.config.owner)
    emit f (ownership_transfer_started owner to)

  unfoldable pub accept_ownership : Frame → Action W Unit
  accept_ownership f = do
    c ← gets (λ s. s.config)
    require (f.sender == c.pending_owner) not_pending_owner
    emit f (owner_transferred c.owner c.pending_owner)
    store_config (λ c. record c { owner = c.pending_owner })
    store_config (λ c. record c { pending_owner = 0 })

module _ {W : Type 0} (n : Network W) where
  abbrev pub has_code : Address → W → Bool
  has_code a w = not (n.code_length a w == 0)

  -- The limit that the local minter reports; nothing is called where there is no minter.
  unfoldable pub reported_limit : Address → Address → Action W ℕ
  reported_limit minter usdc =
      if minter == 0 then pure 0 else view (n.minter.burn_limits_per_message minter usdc)

  unfoldable pub init : Frame → Address → Address → ℕ → Action W Unit
  init f usdc token_messenger stellar_forwarder = do
    only_owner f
    c ← gets (λ s. s.config)
    require (not c.initialized) already_initialized
    require (not (usdc == 0) && not (token_messenger == 0) && not (stellar_forwarder == 0))
        zero_wiring
    w ← gets (λ s. s.world)
    require (has_code usdc w && has_code token_messenger w) no_code
    version ← view (n.messenger.message_body_version token_messenger)
    require (version == 1) not_cctp_v2
    minter ← view (n.messenger.local_minter token_messenger)
    limit ← reported_limit minter usdc
    require (not (limit == 0)) usdc_not_burnable
    route ← view (n.messenger.remote_token_messengers token_messenger stellar_domain)
    require (not (route == 0)) no_stellar_route
    store_config (λ c. record c {
      usdc = usdc;
      token_messenger = token_messenger;
      stellar_forwarder = stellar_forwarder;
      initialized = true;
    })
    emit f (initialized_event usdc token_messenger stellar_forwarder)

  -- The check that a new factory reports to be wired to this contract.
  unfoldable pub check_wiring : Frame → Address → Action W Unit
  check_wiring f value = do
    w ← gets (λ s. s.world)
    require (has_code value w) factory_has_no_code
    impl ← view (n.implementation value)
    -- an address without code is not called
    config ← if has_code impl w then view (n.config impl) else pure 0
    require (has_code impl w && (config == f.this)) factory_not_wired

  unfoldable pub set_factory : Frame → Address → Action W Unit
  set_factory f value = do
    only_owner f
    if value == 0 then pure tt else check_wiring f value
    store_config (λ c. record c { factory = value })
    emit f (factory_set value)
