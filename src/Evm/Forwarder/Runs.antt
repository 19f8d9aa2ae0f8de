-- ===== src/Evm/Forwarder/Runs.antt =====
-- src/DepositForwarder.sol: the runs of `settle`, `requestSweep` and `sweep` on a clone whose reads,
-- burn and arithmetic all succeed.
use crossmesh_ingress_contra.Prelude.{
  ℕ, ◌+◌, ◌-◌, ◌^◌, ◌≤◌, ◌<◌, ◌≡◌, refl, ◌∙◌, ◌≢◌, Bool, true, false, not, ◌&&◌, some, ◌∷◌, arith,
  ltb, leb, ◌==◌, if◌then◌else◌, lt→ltb,
}
use crossmesh_ingress_contra.Exec.{done, pure, modify}
use crossmesh_ingress_contra.Exec.Steps.{bind_step, unwrap_step, gets_step, if_step}
use crossmesh_ingress_contra.Interfaces.{Address, Bytes}
use crossmesh_ingress_contra.Evm.{settled, ConfigStorage, Frame, State, update_clone}
use crossmesh_ingress_contra.Evm.Rules.{
  view_step, in_world_step, pure_step, last_in_world, require_step,
}
use crossmesh_ingress_contra.Evm.Word.{add, sub, min, last, drop_last, sub_zero, sub_lem, add_lem}
use crossmesh_ingress_contra.Evm.Network.{Network}
use crossmesh_ingress_contra.Evm.Config.{max_sweep_delay, max_cctp_fee_ppm}
use crossmesh_ingress_contra.Evm.Forwarder.{
  min_sweep_amount, settle_window, recipient, cctp_params, burn_limit, burn_via_cctp, settle,
  is_drained, keep_or_close, arm, request_sweep, sweep,
}
use crossmesh_ingress_contra.Evm.Forwarder.Allowance.{ceil_of, reported_minimum}
use crossmesh_ingress_contra.Evm.Forwarder.Settling.{burn_message}
use crossmesh_ingress_contra.Evm.Forwarder.Entry.{Limit}
use crossmesh_ingress_contra.Evm.Forwarder.Sweeping.{armed_state}

module _ {W : Type 0} (n : Network W) (f : Frame) where
  -- What Circle's contracts and USDC have to do for one standard burn of `amount`: the approval is
  -- granted, the minimum fee is within one percent, and a burn that offers the minimum is taken.
  pub record CanBurn (c : ConfigStorage) (amount : ℕ) (v : W) : Type 0 where
    pub minimum_low :
        reported_minimum n c.token_messenger amount v ≤ ceil_of amount max_cctp_fee_ppm
    pub approved_world : W
    pub approves :
        n.token.approve f.this c.usdc c.token_messenger amount v ≡ some (true, approved_world)
    pub args : Bytes
    pub flag : ℕ
    pub args_there : n.clones.fetch_clone_args f.this approved_world ≡ some args
    pub flag_last : last args ≡ some flag
    pub accepts :
        (max_fee : ℕ)
        → max_fee < amount
        → reported_minimum n c.token_messenger amount v ≤ max_fee
        → (w : W) × (b : ℕ) × (n.messenger.deposit_for_burn_with_hook f.this c.token_messenger
              (burn_message c c.usdc amount max_fee false (drop_last args))
              approved_world
            ≡ some (tt, w))
          × (n.token.balance_of c.usdc f.this w ≡ some b)

  pub low_below : (amount m : ℕ) → 2 ≤ amount → m ≤ ceil_of amount max_cctp_fee_ppm → m < amount
  low_below amount m h k = omega arith

  module _ (s : State W) (amount : ℕ) where
    module _ (can : CanBurn s.config amount s.world) where
      -- the state once the burn is approved
      abbrev approved_state : State W
      approved_state = record s { world = can.approved_world }

      recipient_runs : recipient n f approved_state ≡ done (drop_last can.args) approved_state
      unfolding recipient pure
      recipient_runs =
          view_step _ approved_state (n.clones.fetch_clone_args f.this) can.args_there
          ∙ unwrap_step _ approved_state (last can.args) can.flag_last

      pub burn_via_cctp_runs :
          (max_fee : ℕ) (w : W)
          → cctp_params n s.config.token_messenger amount false s ≡ done (2000, max_fee) s
          → n.messenger.deposit_for_burn_with_hook f.this s.config.token_messenger
              (burn_message s.config s.config.usdc amount max_fee false (drop_last can.args))
              can.approved_world
            ≡ some (tt, w)
          → burn_via_cctp n f s.config.usdc amount false s ≡ done tt (record s { world = w })
      unfolding burn_via_cctp
      burn_via_cctp_runs max_fee w runs burns =
          gets_step _ s _
          ∙ bind_step _ s _ runs
          ∙ in_world_step _ s (n.token.approve f.this s.config.usdc s.config.token_messenger amount)
              can.approves
          ∙ require_step _ approved_state true _ refl
          ∙ bind_step _ approved_state _ recipient_runs
          ∙ last_in_world approved_state _ burns

    settle_runs :
        (balance : ℕ) (w : W)
        → n.token.balance_of s.config.usdc f.this s.world ≡ some balance
        → 0 < amount
        → amount ≤ balance
        → burn_via_cctp n f s.config.usdc amount false s ≡ done tt (record s { world = w })
        → settle n f s.config.usdc amount false s
          ≡ done tt (record s {
            world = w;
            log = (f.this, settled f.sender amount 0 0 amount true false) ∷ s.log;
          })
    unfolding settle modify
    settle_runs balance w read positive held burns =
        view_step _ s (n.token.balance_of s.config.usdc f.this) read
        ∙ require_step _ s (ltb 0 amount && leb amount balance) _ (ground arith)
        ∙ pure_step _ s (0, 0)
        ∙ unwrap_step _ s (sub amount 0) (sub_zero amount)
        ∙ unwrap_step _ s (sub amount 0) (sub_zero amount)
        ∙ pure_step _ s false
        ∙ bind_step _ s _ burns
        ∙ refl

  closing_runs :
      (small : Bool) (usdc : Address) (b : ℕ) (s : State W)
      → n.token.balance_of usdc f.this s.world ≡ some b
      → (if small then pure true else is_drained n f usdc) s
        ≡ done (if small then true else b == 0) s
  unfolding is_drained pure
  closing_runs true usdc b s read = refl
  closing_runs false usdc b s read = view_step _ s (n.token.balance_of usdc f.this) read

  keep_or_close_runs :
      (usdc : Address) (remaining b : ℕ) (s : State W)
      → n.token.balance_of usdc f.this s.world ≡ some b
      → keep_or_close n f usdc remaining s
        ≡ done tt (
            update_clone f.this
              (settle_window (if ltb remaining min_sweep_amount then true else b == 0) remaining)
              s)
  unfolding keep_or_close modify
  keep_or_close_runs usdc remaining b s read =
      bind_step _ s _ (closing_runs (ltb remaining min_sweep_amount) usdc b s read)

  module _ (implementation : Address) where
    pub burn_limit_runs :
        (limit : ℕ) (s : State W)
        → Limit n implementation f s.config limit s.world
        → 0 < limit
        → burn_limit n s ≡ done limit s
    unfolding burn_limit pure
    burn_limit_runs limit s (minter, minter_read, limit_read) positive =
        gets_step _ s _
        ∙ view_step _ s (n.messenger.local_minter s.config.token_messenger) minter_read
        ∙ view_step _ s (n.minter.burn_limits_per_message minter s.config.usdc) limit_read
        ∙ require_step _ s (ltb 0 limit) _ (lt→ltb 0 limit positive)

    due_test : (at now : ℕ) → at ≢ 0 → at ≤ now → (not (at == 0) && leb at now) ≡ true
    due_test at now h k = ground arith

    pub clone_test : f.this ≢ implementation → not (f.this == implementation) ≡ true
    clone_test h = ground arith

    pub two_at_least :
        (limit balance cap : ℕ)
        → 2 ≤ limit
        → 2 ≤ balance
        → 2 ≤ cap
        → 2 ≤ min limit (min balance cap)
    two_at_least limit balance cap h k l = ground arith

    pub amount_fits :
        (limit balance cap : ℕ)
        → (min limit (min balance cap) ≤ balance)
          × (min limit (min balance cap) ≤ cap)
          × (min limit (min balance cap) ≤ limit)
    amount_fits limit balance cap = ground arith

    pub sweep_runs :
        (s : State W) (balance limit b : ℕ) (w : W)
        → f.this ≢ implementation
        → (s.clones f.this).sweepable_at ≢ 0
        → (s.clones f.this).sweepable_at ≤ f.timestamp
        → n.token.balance_of s.config.usdc f.this s.world ≡ some balance
        → Limit n implementation f s.config limit s.world
        → 0 < limit
        → 0 < min limit (min balance (s.clones f.this).sweep_cap)
        → burn_via_cctp n f s.config.usdc
            (min limit (min balance (s.clones f.this).sweep_cap))
            false
            s
          ≡ done tt (record s { world = w })
        → n.token.balance_of s.config.usdc f.this w ≡ some b
        → (t : State W) × (sweep n implementation f s ≡ done tt t)
    unfolding sweep
    sweep_runs s balance limit b w on_clone armed due read limit_read limit_set positive burns
          left =
        let cap = (s.clones f.this).sweep_cap in
        let amount = min limit (min balance cap) in
        let (held, within, _) = amount_fits limit balance cap in
        (
          _,
          require_step _ s _ _ (clone_test on_clone)
              ∙ gets_step _ s _
              ∙ require_step _ s _ _ (due_test _ f.timestamp armed due)
              ∙ gets_step _ s _
              ∙ view_step _ s (n.token.balance_of s.config.usdc f.this) read
              ∙ bind_step _ s _ (burn_limit_runs limit s limit_read limit_set)
              ∙ bind_step _ s _ (settle_runs s amount balance w read positive held burns)
              ∙ gets_step _ _ _
              ∙ unwrap_step _ _ _ (sub_lem cap amount within)
              ∙ keep_or_close_runs s.config.usdc (cap - amount) b
                  (record s {
                    world = w;
                    log = (f.this, settled f.sender amount 0 0 amount true false) ∷ s.log;
                  })
                  left,
        )

    deadline_fits :
        (now delay : ℕ)
        → now + max_sweep_delay < 2 ^ 256
        → add now (min delay max_sweep_delay) ≡ some (now + min delay max_sweep_delay)
    deadline_fits now delay h = add_lem now (min delay max_sweep_delay) (ground arith)

    arm_runs :
        (s : State W) (balance : ℕ)
        → f.timestamp + max_sweep_delay < 2 ^ 256
        → arm n f balance s ≡ done tt (armed_state n implementation f balance s)
    unfolding arm modify
    arm_runs s balance in_range =
        gets_step _ s _
        ∙ unwrap_step _ s (add f.timestamp (min s.config.sweep_delay max_sweep_delay))
            (deadline_fits f.timestamp s.config.sweep_delay in_range)
        ∙ bind_step _ s _ refl

    unarmed_test : (at : ℕ) → at ≡ 0 → (at == 0) ≡ true
    unarmed_test at h = ground arith

    enough_test : (a b : ℕ) → a ≤ b → leb a b ≡ true
    enough_test a b h = ground arith

    pub request_sweep_runs :
        (s : State W) (balance : ℕ)
        → f.this ≢ implementation
        → n.token.balance_of s.config.usdc f.this s.world ≡ some balance
        → min_sweep_amount ≤ balance
        → (s.clones f.this).sweepable_at ≡ 0
        → f.timestamp + max_sweep_delay < 2 ^ 256
        → request_sweep n implementation f s ≡ done tt (armed_state n implementation f balance s)
    unfolding request_sweep
    request_sweep_runs s balance on_clone read enough unarmed in_range =
        require_step _ s _ _ (clone_test on_clone)
        ∙ gets_step _ s _
        ∙ view_step _ s (n.token.balance_of s.config.usdc f.this) read
        ∙ require_step _ s (leb min_sweep_amount balance) _
            (enough_test min_sweep_amount balance enough)
        ∙ gets_step _ s _
        ∙ if_step ((s.clones f.this).sweepable_at == 0) (arm n f balance) (pure tt) s
            (unarmed_test (s.clones f.this).sweepable_at unarmed)
        ∙ arm_runs s balance in_range
