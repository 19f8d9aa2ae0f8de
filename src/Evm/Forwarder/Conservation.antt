-- ===== src/Evm/Forwarder/Conservation.antt =====
-- src/DepositForwarder.sol: where the USDC of a settlement goes.
use crossmesh_ingress_contra.Prelude.{
  ℕ, ◌+◌, ◌-◌, ◌*◌, ◌/◌, ◌≤◌, ◌<◌, ◌≡◌, refl, sym, ap, ◌∙◌, ◌≢◌, inl, inr, Bool, true, false, some,
  ◌∷◌, arith, Bool-cases,
}
use crossmesh_ingress_contra.Interfaces.{Address, Bytes}
use crossmesh_ingress_contra.Evm.{ConfigStorage, CloneStorage, Frame, State}
use crossmesh_ingress_contra.Evm.Word.{drop_last}
use crossmesh_ingress_contra.Evm.Network.{Burn, Network}
use crossmesh_ingress_contra.Evm.Config.{max_setup_fee, max_base_fee, max_fee_ppm}
use crossmesh_ingress_contra.Evm.Forwarder.{ppm_denom, hook_data}
use crossmesh_ingress_contra.Evm.Forwarder.Fees.{
  setup_fee_due, per_settle_fee_due, FeesPaid, per_settle_fee_due-le, setup_fee_due-le,
}
use crossmesh_ingress_contra.Evm.Forwarder.Settling.{burn_message, Settles}
use crossmesh_ingress_contra.Evm.Network.Ledger.{Ledger}

-- The most that the fees of a settlement can be.
abbrev pub fee_ceiling : ℕ → ℕ
fee_ceiling amount = max_setup_fee + max_base_fee + amount * max_fee_ppm / ppm_denom

module _ {W : Type 0} (n : Network W) (f : Frame) where
  -- The clone's balance falls by exactly `amount`. The fees, within their caps, went to the
  -- collector; the rest, which is not nothing, was burned by one message, to the Stellar forwarder
  -- and with the recipient that the clone's arguments hold.
  pub record Exact {usdc messenger : Address} (l : Ledger n usdc messenger) (amount : ℕ)
      (charge_fees : Bool) (s : State W) (w : W) : Type 0 where
    pub fees : ℕ
    pub burn : Burn
    pub split : amount ≡ fees + burn.amount
    pub something_burned : 0 < burn.amount
    pub fees_capped : fees ≤ fee_ceiling amount
    pub free : charge_fees ≡ false → fees ≡ 0
    pub balance : ℕ
    pub balance_before : n.token.balance_of usdc f.this s.world ≡ some balance
    pub amount_held : amount ≤ balance
    pub balance_after : n.token.balance_of usdc f.this w ≡ some (balance - amount)
    pub collected :
        (b : ℕ)
        → n.token.balance_of usdc s.config.fee_collector s.world ≡ some b
        → s.config.fee_collector ≢ f.this
        → n.token.balance_of usdc s.config.fee_collector w ≡ some (b + fees)
    pub announced : l.messages w ≡ (f.this, burn) ∷ l.messages s.world
    pub to_stellar :
        (burn.destination_domain ≡ 27)
        × (burn.mint_recipient ≡ s.config.stellar_forwarder)
        × (burn.destination_caller ≡ s.config.stellar_forwarder)
        × (burn.burn_token ≡ usdc)
    pub args : Bytes
    pub args_read : n.clones.fetch_clone_args f.this s.world ≡ some args
    pub to_recipient : burn.hook_data ≡ hook_data (drop_last args)

  module _ {usdc messenger : Address} (l : Ledger n usdc messenger) (s : State W) where
    -- The balance and the messages once the fees are paid.
    record Charged (fees balance : ℕ) (u : State W) : Type 0 where
      pub within : fees ≤ balance
      pub left : n.token.balance_of usdc f.this u.world ≡ some (balance - fees)
      pub collector_paid :
          (b : ℕ)
          → n.token.balance_of usdc s.config.fee_collector s.world ≡ some b
          → s.config.fee_collector ≢ f.this
          → n.token.balance_of usdc s.config.fee_collector u.world ≡ some (b + fees)
      pub silent : l.messages u.world ≡ l.messages s.world
      pub args_same :
          n.clones.fetch_clone_args f.this u.world ≡ n.clones.fetch_clone_args f.this s.world

    paid-Charged :
        (fees balance : ℕ) (u : State W)
        → FeesPaid n f usdc s.config.fee_collector fees s.world u.world
        → n.token.balance_of usdc f.this s.world ≡ some balance
        → Charged fees balance u
    paid-Charged fees balance u (inl (none_due, same)) read = record {
      within = omega arith;
      left = rw same (read ∙ ap some (omega arith));
      collector_paid = λ b p _. rw same (p ∙ ap some (omega arith));
      silent = rw same refl;
      args_same = rw same refl;
    }
    paid-Charged fees balance u (inr (distinct, sent)) read =
        let (within, left) =
          l.transfer_takes f.this s.config.fee_collector fees balance s.world u.world sent distinct
            read in
        record {
          within = within;
          left = left;
          collector_paid = λ b p _.
              l.transfer_gives f.this s.config.fee_collector fees b s.world u.world sent distinct p;
          silent = l.transfer_silent f.this s.config.fee_collector fees s.world u.world sent;
          args_same =
              l.transfer_args f.this s.config.fee_collector f.this fees s.world u.world sent;
        }

    fees-le_ceiling :
        (c : ConfigStorage) (k : CloneStorage) (amount : ℕ)
        → setup_fee_due c k + per_settle_fee_due c amount ≤ fee_ceiling amount
    fees-le_ceiling c k amount =
        let p = setup_fee_due-le c k in let q = per_settle_fee_due-le c amount in omega arith

    free-Charged :
        (balance : ℕ) (u : State W)
        → u ≡ s
        → n.token.balance_of usdc f.this s.world ≡ some balance
        → Charged 0 balance u
    free-Charged balance u same read = record {
      within = omega arith;
      left = rw same (read ∙ ap some (omega arith));
      collector_paid = λ b p _. rw same (p ∙ ap some (omega arith));
      silent = rw same refl;
      args_same = rw same refl;
    }

    module _ {amount : ℕ} {charge_fees : Bool} {t : State W}
        (b : Settles n f usdc amount charge_fees s t) where
      settles-Charged : Charged (b.setup_fee + b.per_settle_fee) b.balance b.charged
      settles-Charged = elim (Bool-cases charge_fees) [
        | inl p ↦ paid-Charged _ b.balance b.charged (b.charges p).paid b.balance_read
        | inr p ↦
            let (no_setup, no_fee, same) = b.charges_nothing p in
            rw (no_setup, no_fee) (free-Charged b.balance b.charged same b.balance_read)
      ]

      settles-fees : b.setup_fee + b.per_settle_fee ≤ fee_ceiling amount
      settles-fees = elim (Bool-cases charge_fees) [
        | inl p ↦
            rw ((b.charges p).setup_is, (b.charges p).per_settle_is)
              (fees-le_ceiling s.config (s.clones f.this) amount)
        | inr p ↦ let (no_setup, no_fee, _) = b.charges_nothing p in omega arith
      ]

      settles-charged_config : b.charged.config ≡ s.config
      settles-charged_config = elim (Bool-cases charge_fees) [
        | inl p ↦ (b.charges p).config_kept
        | inr p ↦ ap (λ (u : State W). u.config) (b.charges_nothing p).2
      ]

      abbrev message_sent : Burn
      message_sent =
          burn_message b.charged.config usdc b.burned b.burns.max_fee b.use_fast
            (drop_last b.burns.args)

      module _ (wired : s.config.token_messenger ≡ messenger) where
        same_messenger : b.charged.config.token_messenger ≡ messenger
        same_messenger =
            ap (λ (x : ConfigStorage). x.token_messenger) settles-charged_config ∙ wired

        approval :
            n.token.approve f.this usdc messenger b.burned b.charged.world
            ≡ some (true, b.burns.approved_world)
        approval = rw (← same_messenger) b.burns.approved

        sending :
            n.messenger.deposit_for_burn_with_hook f.this messenger message_sent
              b.burns.approved_world
            ≡ some (tt, b.burnt.world)
        sending = rw (← same_messenger) b.burns.burned_by

        settles-others :
            (x : ℕ)
            → n.token.balance_of usdc s.config.fee_collector s.world ≡ some x
            → s.config.fee_collector ≢ f.this
            → n.token.balance_of usdc s.config.fee_collector b.burnt.world
              ≡ some (x + (b.setup_fee + b.per_settle_fee))
        settles-others x p q =
            l.burn_keeps f.this s.config.fee_collector message_sent b.burns.approved_world
              b.burnt.world sending q
            ∙ (l.approve_keeps f.this messenger s.config.fee_collector b.burned b.charged.world
                b.burns.approved_world approval).0
            ∙ settles-Charged.collector_paid x p q

        settles-args : n.clones.fetch_clone_args f.this s.world ≡ some b.burns.args
        settles-args =
            sym (
              l.approve_args f.this messenger f.this b.burned b.charged.world b.burns.approved_world
                approval
              ∙ settles-Charged.args_same)
            ∙ b.burns.args_read

        pub Settles-Exact : Exact l amount charge_fees s t.world
        Settles-Exact =
            let c = settles-Charged in
            let (balance_kept, messages_kept) =
              l.approve_keeps f.this messenger f.this b.burned b.charged.world
                b.burns.approved_world approval in
            let (_, taken, announced) =
              l.burn_takes f.this message_sent (b.balance - (b.setup_fee + b.per_settle_fee))
                b.burns.approved_world b.burnt.world sending refl (balance_kept ∙ c.left) in
            let forwarder_same =
              ap (λ (x : ConfigStorage). x.stellar_forwarder) settles-charged_config in
            record {
              fees = b.setup_fee + b.per_settle_fee;
              burn = message_sent;
              split = b.amount_split;
              something_burned = omega (arith, b.burns.allowance.below_burn);
              fees_capped = settles-fees;
              free = λ p. let (no_setup, no_fee, _) = b.charges_nothing p in omega arith;
              balance = b.balance;
              balance_before = b.balance_read;
              amount_held = b.amount_held;
              balance_after =
                  rw b.after (taken ∙ ap some (omega (arith, b.amount_split, b.amount_held)));
              collected = λ x p q. rw b.after (settles-others x p q);
              announced =
                  rw b.after
                    (announced ∙ ap (λ r. (f.this, message_sent) ∷ r) (messages_kept ∙ c.silent));
              to_stellar = (refl, forwarder_same, forwarder_same, refl);
              args = b.burns.args;
              args_read = settles-args;
              to_recipient = refl;
            }
