-- ===== src/Evm/Config/Calls.antt =====
-- src/Config.sol: a call of any of its functions that change the storage, with what it writes and
-- what it asks for.
use crossmesh_ingress_contra.Prelude.{ℕ, ◌≤◌, ◌≡◌, ◌≢◌, Bool, true, false, ◌==◌, if◌then◌else◌}
use crossmesh_ingress_contra.Interfaces.{Address}
use crossmesh_ingress_contra.Evm.{ConfigStorage, Frame, State, Action}
use crossmesh_ingress_contra.Evm.Network.{Network}
use crossmesh_ingress_contra.Evm.Config.{
  max_setup_fee, max_base_fee, max_fee_ppm, min_sweep_delay, max_sweep_delay, max_cctp_fee_ppm,
  set_setup_fee, set_base_fee, set_fee_ppm, set_cctp_standard_max_fee_ppm,
  set_cctp_fast_max_fee_ppm, set_fast_enabled, set_public_flush, set_fee_collector, set_sweep_delay,
  set_operator, set_rescue_sink, transfer_ownership, accept_ownership, init, set_factory,
}
use crossmesh_ingress_contra.Evm.Forwarder.Allowance.{allowed}

pub data ConfigCall : Type 0 where
  init_call : Address → Address → ℕ → ConfigCall
  setup_fee_call base_fee_call fee_ppm_call : ℕ → ConfigCall
  standard_ppm_call fast_ppm_call sweep_delay_call : ℕ → ConfigCall
  fast_enabled_call public_flush_call : Bool → ConfigCall
  fee_collector_call factory_call rescue_sink_call : Address → ConfigCall
  operator_call : Address → Bool → ConfigCall
  transfer_call : Address → ConfigCall
  accept_call : ConfigCall

module _ {W : Type 0} (n : Network W) where
  unfoldable pub run_config : Frame → ConfigCall → Action W Unit
  run_config f (init_call usdc messenger forwarder) = init n f usdc messenger forwarder
  run_config f (setup_fee_call v) = set_setup_fee f v
  run_config f (base_fee_call v) = set_base_fee f v
  run_config f (fee_ppm_call v) = set_fee_ppm f v
  run_config f (standard_ppm_call v) = set_cctp_standard_max_fee_ppm f v
  run_config f (fast_ppm_call v) = set_cctp_fast_max_fee_ppm f v
  run_config f (sweep_delay_call v) = set_sweep_delay f v
  run_config f (fast_enabled_call v) = set_fast_enabled f v
  run_config f (public_flush_call v) = set_public_flush f v
  run_config f (fee_collector_call v) = set_fee_collector f v
  run_config f (factory_call v) = set_factory n f v
  run_config f (rescue_sink_call v) = set_rescue_sink f v
  run_config f (operator_call v allowed) = set_operator f v allowed
  run_config f (transfer_call to) = transfer_ownership f to
  run_config f accept_call = accept_ownership f

-- The storage after a call that returned.
abbrev pub written : ConfigCall → ConfigStorage → ConfigStorage
written (init_call usdc messenger forwarder) c = record c {
  usdc = usdc;
  token_messenger = messenger;
  stellar_forwarder = forwarder;
  initialized = true;
}
written (setup_fee_call v) c = record c { setup_fee = v }
written (base_fee_call v) c = record c { base_fee = v }
written (fee_ppm_call v) c = record c { fee_ppm = v }
written (standard_ppm_call v) c = record c { cctp_standard_max_fee_ppm = v }
written (fast_ppm_call v) c = record c { cctp_fast_max_fee_ppm = v }
written (sweep_delay_call v) c = record c { sweep_delay = v }
written (fast_enabled_call v) c = record c { fast_enabled = v }
written (public_flush_call v) c = record c { public_flush = v }
written (fee_collector_call v) c = record c { fee_collector = v }
written (factory_call v) c = record c { factory = v }
written (rescue_sink_call v) c = record c { rescue_sink = v }
written (operator_call v allowed) c = record c {
  is_operator = λ a. if a == v then allowed else c.is_operator a;
}
written (transfer_call to) c = record c { pending_owner = to }
written accept_call c = record c { owner = c.pending_owner; pending_owner = 0 }

-- Whose call it has to be: the owner's, or that of the owner proposed.
abbrev pub entitled : ConfigCall → ConfigStorage → Address
entitled accept_call c = c.pending_owner
entitled _ c = c.owner

-- The bounds on the arguments.
abbrev pub Fits : ConfigCall → ConfigStorage → Type 0
Fits (init_call usdc messenger forwarder) c =
    (c.initialized ≡ false) × (usdc ≢ 0) × (messenger ≢ 0) × (forwarder ≢ 0)
Fits (setup_fee_call v) c = v ≤ max_setup_fee
Fits (base_fee_call v) c = v ≤ max_base_fee
Fits (fee_ppm_call v) c = v ≤ max_fee_ppm
Fits (standard_ppm_call v) c = v ≤ max_cctp_fee_ppm
Fits (fast_ppm_call v) c = v ≤ max_cctp_fee_ppm
Fits (sweep_delay_call v) c = (min_sweep_delay ≤ v) × (v ≤ max_sweep_delay)
Fits (fee_collector_call v) c = v ≢ 0
Fits (rescue_sink_call v) c = v ≢ 0
Fits _ c = Unit

-- What a call of Config that returned changed.
pub record Written {W : Type 0} (f : Frame) (made : ConfigCall) (s t : State W) : Type 0 where
  pub by_entitled : f.sender ≡ entitled made s.config
  pub fits : Fits made s.config
  pub config_after : t.config ≡ written made s.config
  pub clones_kept : t.clones ≡ s.clones
  pub world_kept : t.world ≡ s.world
