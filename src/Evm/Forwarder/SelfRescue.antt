-- ===== src/Evm/Forwarder/SelfRescue.antt =====
-- src/DepositForwarder.sol: when a depositor's `requestSweep` and `sweep` return.
use crossmesh_ingress_contra.Prelude.{ℕ, ◌+◌, ◌*◌, ◌^◌, ◌≤◌, ◌<◌, ◌≡◌, ◌∙◌, ◌≢◌, false, some, arith}
use crossmesh_ingress_contra.Exec.{done}
use crossmesh_ingress_contra.Interfaces.{Address}
use crossmesh_ingress_contra.Evm.{Frame, State}
use crossmesh_ingress_contra.Evm.Word.{min}
use crossmesh_ingress_contra.Evm.Network.{Network}
use crossmesh_ingress_contra.Evm.Config.{max_sweep_delay, max_cctp_fee_ppm}
use crossmesh_ingress_contra.Evm.Forwarder.{ppm_denom, min_sweep_amount, request_sweep, sweep}
use crossmesh_ingress_contra.Evm.Forwarder.Allowance.{cctp_params_returns}
use crossmesh_ingress_contra.Evm.Forwarder.Entry.{Limit}
use crossmesh_ingress_contra.Evm.Forwarder.Sweeping.{deadline, with_window, armed_state}
use crossmesh_ingress_contra.Evm.Forwarder.Windows.{late}
use crossmesh_ingress_contra.Evm.Forwarder.Runs.{
  CanBurn, low_below, burn_via_cctp_runs, two_at_least, amount_fits, sweep_runs, request_sweep_runs,
}

module _ {W : Type 0} (n : Network W) (f : Frame) (implementation : Address) where
  -- What the frame and the state have to hold for a sweep to go through.
  pub record CanSweep (s : State W) : Type 0 where
    pub balance : ℕ
    pub balance_read : n.token.balance_of s.config.usdc f.this s.world ≡ some balance
    pub balance_enough : min_sweep_amount ≤ balance
    pub limit : ℕ
    pub limit_read : Limit n implementation f s.config limit s.world
    pub limit_enough : min_sweep_amount ≤ limit
    pub limit_small : limit * max_cctp_fee_ppm + ppm_denom < 2 ^ 256
    pub can_burn :
        CanBurn n f s.config (min limit (min balance (s.clones f.this).sweep_cap)) s.world

  sweep_returns :
      (s : State W)
      → f.this ≢ implementation
      → (s.clones f.this).sweepable_at ≢ 0
      → (s.clones f.this).sweepable_at ≤ f.timestamp
      → min_sweep_amount ≤ (s.clones f.this).sweep_cap
      → CanSweep s
      → (t : State W) × (sweep n implementation f s ≡ done tt t)
  sweep_returns s on_clone armed due cap_enough c =
      let cap = (s.clones f.this).sweep_cap in
      let amount = min c.limit (min c.balance cap) in
      let two : 2 ≤ amount =
        two_at_least n f implementation c.limit c.balance cap c.limit_enough c.balance_enough
          cap_enough in
      let (_, _, under) = amount_fits n f implementation c.limit c.balance cap in
      let (max_fee, runs, allowance) =
        cctp_params_returns n s.config.token_messenger amount false s (omega arith)
          (omega (arith, under, c.limit_small)) in
      let low = c.can_burn.minimum_low in
      let (w, b, burns, left) =
        c.can_burn.accepts max_fee allowance.below_burn
          (allowance.serves (low_below n f amount _ two low) low) in
      sweep_runs n f implementation s c.balance c.limit b w on_clone armed due c.balance_read
        c.limit_read (omega (arith, c.limit_enough)) (omega arith)
        (burn_via_cctp_runs n f s amount c.can_burn max_fee w runs burns) left

in_time :
    (now delay later : ℕ) → now + max_sweep_delay ≤ later → now + min delay max_sweep_delay ≤ later
in_time now delay later h = ground arith

module _ {W : Type 0} (n : Network W) (implementation : Address) where
  armed_clone :
      (f : Frame) (balance : ℕ) (s : State W)
      → (armed_state n implementation f balance s).clones f.this
        ≡ with_window n implementation f
            (deadline n implementation f s.config)
            balance
            (s.clones f.this)
  armed_clone f balance s = ground arith

  -- On a clone that holds two subunits or more and has no window armed, while the delay is an hour
  -- or more, a request for a sweep returns, whoever makes it, and arms the window. In any later
  -- state in which the clone's window is still that one, with any fees, rates and operators, and
  -- for any caller, a sweep at least seven days after the request returns, provided that the clone
  -- then holds two subunits or more, that the limit of one burn is two or more and does not
  -- overflow the fee, and that Circle takes a burn that offers its minimum fee, which is at most
  -- one percent.
  pub self_rescue_returns :
      (f g : Frame) (s u : State W) (balance : ℕ)
      → f.this ≢ implementation
      → n.token.balance_of s.config.usdc f.this s.world ≡ some balance
      → 2 ≤ balance
      → (s.clones f.this).sweepable_at ≡ 0
      → 3600 ≤ s.config.sweep_delay
      → f.timestamp + 604800 < 2 ^ 256
      → g.this ≡ f.this
      → f.timestamp + 604800 ≤ g.timestamp
      → u.clones g.this ≡ (armed_state n implementation f balance s).clones f.this
      → CanSweep n g implementation u
      → (request_sweep n implementation f s ≡ done tt (armed_state n implementation f balance s))
        × ((v : State W) × (sweep n implementation g u ≡ done tt v))
  self_rescue_returns f g s u balance on_clone read enough unarmed floored in_range same_clone later
        kept can =
      let window : u.clones g.this
          ≡ with_window n implementation f (deadline n implementation f s.config) balance
              (s.clones f.this) =
        kept ∙ armed_clone f balance s in
      (
        request_sweep_runs n f implementation s balance on_clone read enough unarmed in_range,
        sweep_returns n g implementation u (rw same_clone on_clone)
            (rw window (late f.timestamp s.config.sweep_delay floored))
            (rw window (in_time f.timestamp s.config.sweep_delay g.timestamp later))
            (rw window enough) can,
      )
