-- ===== src/Evm/Rescue.antt =====
-- src/DepositForwarder.sol: the recovery of native coin and of other tokens. What is called here is
-- not trusted (the sink, and any token), so such a call runs on the whole state: it may call the
-- contracts back.
pub mod Principal
use crossmesh_ingress_contra.Prelude.{ℕ, Bool, true, false, not, ◌||◌, none, some, leb, ◌==◌}
use crossmesh_ingress_contra.Exec.{done, Call, gets, call, ◌>>=◌, ◌>>◌}
use crossmesh_ingress_contra.Interfaces.{Address}
use crossmesh_ingress_contra.Evm.{
  not_operator, sink_unset, not_initialized, rescue_failed, native_is_usdc,
  usdc_only_via_settlement, rescued_native, rescued_erc20, Frame, State, Action, require, view,
  emit,
}
use crossmesh_ingress_contra.Evm.Network.{Network}

pub record Untrusted (W : Type 0) : Type 0 where
  -- `sink.call{value: amount}("")`: the caller, the sink and the amount
  pub send : Address → Address → ℕ → Call (State W) Unit
  -- `safeTransfer` of a token: the caller, the token, the recipient and the amount
  pub safe_transfer : Address → Address → Address → ℕ → Call (State W) Unit

module _ {W : Type 0} where
  -- A low-level call: what failed is undone, and says so.
  unfoldable pub attempt : Call (State W) Unit → Action W Bool
  attempt c s = elim (c s) [ none ↦ done false s | some (_, t) ↦ done true t ]

module _ {W : Type 0} (n : Network W) (out : Untrusted W) where
  unfoldable pub rescue_native : Frame → Action W Unit
  rescue_native f = do
    c ← gets (λ s. s.config)
    require (c.is_operator f.sender) not_operator
    require (not (c.rescue_sink == 0)) sink_unset
    require (not (c.usdc == 0)) not_initialized
    usdc_before ← view (n.token.balance_of c.usdc f.this)
    w ← gets (λ s. s.world)
    let amount = n.native_balance f.this w
    emit f (rescued_native c.rescue_sink amount)
    ok ← attempt (out.send f.this c.rescue_sink amount)
    require ok rescue_failed
    usdc_after ← view (n.token.balance_of c.usdc f.this)
    require (leb usdc_before usdc_after) native_is_usdc

  unfoldable pub rescue_erc20 : Address → Frame → Address → Action W Unit
  rescue_erc20 implementation f token = do
    c ← gets (λ s. s.config)
    require (c.is_operator f.sender) not_operator
    require (not (c.usdc == 0)) not_initialized
    require (not (token == c.usdc) || (f.this == implementation)) usdc_only_via_settlement
    require (not (c.rescue_sink == 0)) sink_unset
    amount ← view (n.token.balance_of token f.this)
    call (out.safe_transfer f.this token c.rescue_sink amount)
    emit f (rescued_erc20 token c.rescue_sink amount)
