-- ===== src/Evm/Config/Caps.antt =====
-- src/Config.sol: the limits that a depositor relies on.
use crossmesh_ingress_contra.Prelude.{◌≤◌, ◌≡◌, refl, ◌≢◌, ◌⊎◌, inl, inr, true, arith}
use crossmesh_ingress_contra.Exec.{done, ◌>>=◌}
use crossmesh_ingress_contra.Interfaces.{Address}
use crossmesh_ingress_contra.Evm.{ConfigStorage, Frame, State}
use crossmesh_ingress_contra.Evm.Config.{
  max_setup_fee, max_base_fee, max_fee_ppm, min_sweep_delay, max_sweep_delay, max_cctp_fee_ppm,
  unset_config, constructor,
}
use crossmesh_ingress_contra.Evm.Config.Calls.{
  ConfigCall, init_call, setup_fee_call, base_fee_call, fee_ppm_call, standard_ppm_call,
  fast_ppm_call, sweep_delay_call, fast_enabled_call, public_flush_call, fee_collector_call,
  factory_call, rescue_sink_call, operator_call, transfer_call, accept_call, written, entitled,
  Fits, Written,
}
use crossmesh_ingress_contra.Evm.Forwarder.Allowance.{allowed}

-- Every fee is within its cap, the delay of a sweep is within its range, and the path of the USDC
-- is set once the contract is initialized.
pub record Capped (c : ConfigStorage) : Type 0 where
  pub setup_capped : c.setup_fee ≤ max_setup_fee
  pub base_capped : c.base_fee ≤ max_base_fee
  pub ppm_capped : c.fee_ppm ≤ max_fee_ppm
  pub standard_capped : c.cctp_standard_max_fee_ppm ≤ max_cctp_fee_ppm
  pub fast_capped : c.cctp_fast_max_fee_ppm ≤ max_cctp_fee_ppm
  pub delay_floored : min_sweep_delay ≤ c.sweep_delay
  pub delay_capped : c.sweep_delay ≤ max_sweep_delay
  pub wired :
      c.initialized ≡ true → (c.usdc ≢ 0) × (c.token_messenger ≢ 0) × (c.stellar_forwarder ≢ 0)

pub constructor-Capped :
    {W : Type 0} (f : Frame) (owner : Address) (s t : State W)
    → s.config ≡ unset_config
    → constructor f owner s ≡ done tt t
    → Capped t.config
unfolding constructor ◌>>=◌
constructor-Capped f owner s t fresh h = ground arith

written-Capped :
    (made : ConfigCall) (c : ConfigStorage) → Fits made c → Capped c → Capped (written made c)
written-Capped (init_call usdc messenger forwarder) c h k = ground arith
written-Capped (setup_fee_call v) c h k = ground arith
written-Capped (base_fee_call v) c h k = ground arith
written-Capped (fee_ppm_call v) c h k = ground arith
written-Capped (standard_ppm_call v) c h k = ground arith
written-Capped (fast_ppm_call v) c h k = ground arith
written-Capped (sweep_delay_call v) c h k = ground arith
written-Capped (fast_enabled_call v) c h k = ground arith
written-Capped (public_flush_call v) c h k = ground arith
written-Capped (fee_collector_call v) c h k = ground arith
written-Capped (factory_call v) c h k = ground arith
written-Capped (rescue_sink_call v) c h k = ground arith
written-Capped (operator_call v allowed) c h k = ground arith
written-Capped (transfer_call to) c h k = ground arith
written-Capped accept_call c h k = ground arith

-- The path of the USDC, once set, stays.
pub record SameWiring (c d : ConfigStorage) : Type 0 where
  pub usdc_same : d.usdc ≡ c.usdc
  pub messenger_same : d.token_messenger ≡ c.token_messenger
  pub forwarder_same : d.stellar_forwarder ≡ c.stellar_forwarder
  pub still_initialized : d.initialized ≡ true

written-SameWiring :
    (made : ConfigCall) (c : ConfigStorage)
    → Fits made c
    → c.initialized ≡ true
    → SameWiring c (written made c)
written-SameWiring (init_call usdc messenger forwarder) c h k = ground arith
written-SameWiring made c h k = ground arith

-- Who may change what.
abbrev pub Governed : (caller : Address) (c d : ConfigStorage) → Type 0
Governed caller c d =
    ((caller ≡ c.owner) × (d.owner ≡ c.owner))
    ⊎ ((caller ≡ c.pending_owner) × (d ≡ record c { owner = caller; pending_owner = 0 }))

written-Governed :
    (f : Frame) (made : ConfigCall) (c : ConfigStorage)
    → f.sender ≡ entitled made c
    → Governed f.sender c (written made c)
written-Governed f (init_call usdc messenger forwarder) c h = inl (h, refl)
written-Governed f accept_call c h = inr (h, rw (← h) refl)
written-Governed f (setup_fee_call v) c h = inl (h, refl)
written-Governed f (base_fee_call v) c h = inl (h, refl)
written-Governed f (fee_ppm_call v) c h = inl (h, refl)
written-Governed f (standard_ppm_call v) c h = inl (h, refl)
written-Governed f (fast_ppm_call v) c h = inl (h, refl)
written-Governed f (sweep_delay_call v) c h = inl (h, refl)
written-Governed f (fast_enabled_call v) c h = inl (h, refl)
written-Governed f (public_flush_call v) c h = inl (h, refl)
written-Governed f (fee_collector_call v) c h = inl (h, refl)
written-Governed f (factory_call v) c h = inl (h, refl)
written-Governed f (rescue_sink_call v) c h = inl (h, refl)
written-Governed f (operator_call v allowed) c h = inl (h, refl)
written-Governed f (transfer_call to) c h = inl (h, refl)

module _ {W : Type 0} {f : Frame} {made : ConfigCall} {s t : State W} (w : Written f made s t) where
  pub Written-Capped : Capped s.config → Capped t.config
  Written-Capped k = rw w.config_after (written-Capped made s.config w.fits k)

  pub Written-SameWiring : s.config.initialized ≡ true → SameWiring s.config t.config
  Written-SameWiring k = rw w.config_after (written-SameWiring made s.config w.fits k)

  pub Written-Governed : Governed f.sender s.config t.config
  Written-Governed = rw w.config_after (written-Governed f made s.config w.by_entitled)

pub constructor-clones :
    {W : Type 0} (f : Frame) (owner : Address) (s t : State W)
    → constructor f owner s ≡ done tt t
    → t.clones ≡ s.clones
unfolding constructor ◌>>=◌
constructor-clones f owner s t h = ground arith
