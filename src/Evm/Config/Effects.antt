-- ===== src/Evm/Config/Effects.antt =====
-- src/Config.sol: what a call of any function does when it returns.
use crossmesh_ingress_contra.Prelude.{ℕ, ◌≡◌, Bool, arith}
use crossmesh_ingress_contra.Exec.{done, ◌>>=◌}
use crossmesh_ingress_contra.Interfaces.{Address}
use crossmesh_ingress_contra.Evm.{Frame, State}
use crossmesh_ingress_contra.Evm.Network.{Network}
use crossmesh_ingress_contra.Evm.Config.{
  only_owner, set_setup_fee, set_base_fee, set_fee_ppm, set_cctp_standard_max_fee_ppm,
  set_cctp_fast_max_fee_ppm, set_fast_enabled, set_public_flush, set_fee_collector, set_sweep_delay,
  set_operator, set_rescue_sink, transfer_ownership, accept_ownership, reported_limit, init,
  check_wiring, set_factory,
}
use crossmesh_ingress_contra.Evm.Config.Calls.{
  ConfigCall, init_call, setup_fee_call, base_fee_call, fee_ppm_call, standard_ppm_call,
  fast_ppm_call, sweep_delay_call, fast_enabled_call, public_flush_call, fee_collector_call,
  factory_call, rescue_sink_call, operator_call, transfer_call, accept_call, run_config, Written,
}
use crossmesh_ingress_contra.Evm.Forwarder.Allowance.{allowed}

module _ {W : Type 0} (f : Frame) (s t : State W) where
  set_setup_fee-Written :
      (v : ℕ) → set_setup_fee f v s ≡ done tt t → Written f (setup_fee_call v) s t
  unfolding set_setup_fee only_owner ◌>>=◌
  set_setup_fee-Written v h = ground arith

  set_base_fee-Written : (v : ℕ) → set_base_fee f v s ≡ done tt t → Written f (base_fee_call v) s t
  unfolding set_base_fee only_owner ◌>>=◌
  set_base_fee-Written v h = ground arith

  set_fee_ppm-Written : (v : ℕ) → set_fee_ppm f v s ≡ done tt t → Written f (fee_ppm_call v) s t
  unfolding set_fee_ppm only_owner ◌>>=◌
  set_fee_ppm-Written v h = ground arith

  set_cctp_standard_max_fee_ppm-Written :
      (v : ℕ)
      → set_cctp_standard_max_fee_ppm f v s ≡ done tt t
      → Written f (standard_ppm_call v) s t
  unfolding set_cctp_standard_max_fee_ppm only_owner ◌>>=◌
  set_cctp_standard_max_fee_ppm-Written v h = ground arith

  set_cctp_fast_max_fee_ppm-Written :
      (v : ℕ) → set_cctp_fast_max_fee_ppm f v s ≡ done tt t → Written f (fast_ppm_call v) s t
  unfolding set_cctp_fast_max_fee_ppm only_owner ◌>>=◌
  set_cctp_fast_max_fee_ppm-Written v h = ground arith

  set_sweep_delay-Written :
      (v : ℕ) → set_sweep_delay f v s ≡ done tt t → Written f (sweep_delay_call v) s t
  unfolding set_sweep_delay only_owner ◌>>=◌
  set_sweep_delay-Written v h = ground arith

  set_fast_enabled-Written :
      (v : Bool) → set_fast_enabled f v s ≡ done tt t → Written f (fast_enabled_call v) s t
  unfolding set_fast_enabled only_owner ◌>>=◌
  set_fast_enabled-Written v h = ground arith

  set_public_flush-Written :
      (v : Bool) → set_public_flush f v s ≡ done tt t → Written f (public_flush_call v) s t
  unfolding set_public_flush only_owner ◌>>=◌
  set_public_flush-Written v h = ground arith

  set_fee_collector-Written :
      (v : Address) → set_fee_collector f v s ≡ done tt t → Written f (fee_collector_call v) s t
  unfolding set_fee_collector only_owner ◌>>=◌
  set_fee_collector-Written v h = ground arith

  set_rescue_sink-Written :
      (v : Address) → set_rescue_sink f v s ≡ done tt t → Written f (rescue_sink_call v) s t
  unfolding set_rescue_sink only_owner ◌>>=◌
  set_rescue_sink-Written v h = ground arith

  transfer_ownership-Written :
      (v : Address) → transfer_ownership f v s ≡ done tt t → Written f (transfer_call v) s t
  unfolding transfer_ownership only_owner ◌>>=◌
  transfer_ownership-Written v h = ground arith

  set_operator-Written :
      (v : Address) (allowed : Bool)
      → set_operator f v allowed s ≡ done tt t
      → Written f (operator_call v allowed) s t
  unfolding set_operator only_owner ◌>>=◌
  set_operator-Written v allowed h = ground arith

  accept_ownership-Written : accept_ownership f s ≡ done tt t → Written f accept_call s t
  unfolding accept_ownership only_owner ◌>>=◌
  accept_ownership-Written h = ground arith

module _ {W : Type 0} (n : Network W) (f : Frame) (s t : State W) where
  set_factory-Written :
      (v : Address) → set_factory n f v s ≡ done tt t → Written f (factory_call v) s t
  unfolding set_factory check_wiring only_owner ◌>>=◌
  set_factory-Written v h = ground arith

  init-Written :
      (usdc messenger : Address) (forwarder : ℕ)
      → init n f usdc messenger forwarder s ≡ done tt t
      → Written f (init_call usdc messenger forwarder) s t
  unfolding init reported_limit only_owner ◌>>=◌
  init-Written usdc messenger forwarder h = ground arith

module _ {W : Type 0} (n : Network W) (f : Frame) (s t : State W) where
  pub run_config-Written :
      (made : ConfigCall) → run_config n f made s ≡ done tt t → Written f made s t
  unfolding run_config
  run_config-Written (init_call usdc messenger forwarder) h =
      init-Written n f s t usdc messenger forwarder h
  run_config-Written (setup_fee_call v) h = set_setup_fee-Written f s t v h
  run_config-Written (base_fee_call v) h = set_base_fee-Written f s t v h
  run_config-Written (fee_ppm_call v) h = set_fee_ppm-Written f s t v h
  run_config-Written (standard_ppm_call v) h = set_cctp_standard_max_fee_ppm-Written f s t v h
  run_config-Written (fast_ppm_call v) h = set_cctp_fast_max_fee_ppm-Written f s t v h
  run_config-Written (sweep_delay_call v) h = set_sweep_delay-Written f s t v h
  run_config-Written (fast_enabled_call v) h = set_fast_enabled-Written f s t v h
  run_config-Written (public_flush_call v) h = set_public_flush-Written f s t v h
  run_config-Written (fee_collector_call v) h = set_fee_collector-Written f s t v h
  run_config-Written (factory_call v) h = set_factory-Written n f s t v h
  run_config-Written (rescue_sink_call v) h = set_rescue_sink-Written f s t v h
  run_config-Written (operator_call v allowed) h = set_operator-Written f s t v allowed h
  run_config-Written (transfer_call to) h = transfer_ownership-Written f s t to h
  run_config-Written accept_call h = accept_ownership-Written f s t h
