-- ===== src/Evm/Forwarder/Settling.antt =====
-- src/DepositForwarder.sol: what `_settle` does when it returns.
use crossmesh_ingress_contra.Prelude.{
  ℕ, ◌+◌, ◌≤◌, ◌≡◌, refl, ◌≢◌, Bool, true, false, not, some, ◌∷◌, arith, if◌then◌else◌,
}
use crossmesh_ingress_contra.Exec.{pure}
use crossmesh_ingress_contra.Exec.Ensures.{
  Ensures, Ensures-pure, Ensures-bind, Ensures-unwrap, Ensures-gets,
}
use crossmesh_ingress_contra.Interfaces.{Address, Bytes}
use crossmesh_ingress_contra.Evm.{settled, ConfigStorage, Frame, State}
use crossmesh_ingress_contra.Evm.Rules.{
  Ensures-view, Ensures-in_world, Ensures-read, Ensures-require, Ensures-last_in_world,
  Ensures-last_modify, differ,
}
use crossmesh_ingress_contra.Evm.Word.{last, drop_last, sub-some}
use crossmesh_ingress_contra.Evm.Network.{Burn, Network}
use crossmesh_ingress_contra.Evm.Config.{stellar_domain}
use crossmesh_ingress_contra.Evm.Forwarder.{
  hook_data, recipient, fast, collect_fees, burn_via_cctp, asks_fast, settle,
}
use crossmesh_ingress_contra.Evm.Forwarder.Allowance.{
  reported_minimum, threshold, IsAllowance, cctp_params-IsAllowance,
}
use crossmesh_ingress_contra.Evm.Forwarder.Fees.{Collected, collect_fees-Collected}

abbrev pub burn_message : ConfigStorage → Address → ℕ → ℕ → Bool → Bytes → Burn
burn_message c usdc to_burn max_fee use_fast to = record {
  amount = to_burn;
  destination_domain = stellar_domain;
  mint_recipient = c.stellar_forwarder;
  burn_token = usdc;
  destination_caller = c.stellar_forwarder;
  max_fee = max_fee;
  min_finality_threshold = threshold use_fast;
  hook_data = hook_data to;
}

module _ {W : Type 0} (n : Network W) (f : Frame) where
  -- The clone's arguments end in a flag, and the flag asks for a fast transfer.
  abbrev pub AsksFast : ConfigStorage → W → Type 0
  AsksFast c w =
      (c.fast_enabled ≡ true)
      × ((args : Bytes) × (flag : ℕ) × (n.clones.fetch_clone_args f.this w ≡ some args)
          × (last args ≡ some flag)
          × (flag ≢ 0))

  pub record Burns (usdc : Address) (to_burn : ℕ) (use_fast : Bool) (s t : State W) : Type 0 where
    pub max_fee : ℕ
    pub allowance :
        IsAllowance to_burn (reported_minimum n s.config.token_messenger to_burn s.world) max_fee
    pub approved_world : W
    pub approved :
        n.token.approve f.this usdc s.config.token_messenger to_burn s.world
        ≡ some (true, approved_world)
    pub args : Bytes
    pub flag : ℕ
    pub args_read : n.clones.fetch_clone_args f.this approved_world ≡ some args
    pub flag_last : last args ≡ some flag
    pub burned_by :
        n.messenger.deposit_for_burn_with_hook f.this s.config.token_messenger
          (burn_message s.config usdc to_burn max_fee use_fast (drop_last args))
          approved_world
        ≡ some (tt, t.world)
    pub rest_kept : t ≡ record s { world = t.world }

  pub record Settles (usdc : Address) (amount : ℕ) (charge_fees : Bool) (s t : State W)
      : Type 0 where
    pub setup_fee : ℕ
    pub per_settle_fee : ℕ
    pub burned : ℕ
    pub amount_split : amount ≡ setup_fee + per_settle_fee + burned
    pub balance : ℕ
    pub balance_read : n.token.balance_of usdc f.this s.world ≡ some balance
    pub amount_held : amount ≤ balance
    -- the state once the fees are paid
    pub charged : State W
    pub charges :
        charge_fees ≡ true → Collected n f usdc amount (setup_fee, per_settle_fee) s charged
    pub charges_nothing :
        charge_fees ≡ false → (setup_fee ≡ 0) × (per_settle_fee ≡ 0) × (charged ≡ s)
    pub use_fast : Bool
    pub fast_asked : use_fast ≡ true → (charge_fees ≡ true) × AsksFast charged.config charged.world
    pub burnt : State W
    pub burns : Burns usdc burned use_fast charged burnt
    pub after : t ≡ record burnt {
      log =
          (
            f.this,
            settled f.sender amount setup_fee per_settle_fee burned (not charge_fees) use_fast,
          )
          ∷ burnt.log;
    }

  -- The committed recipient is what the arguments hold before the flag.
  abbrev pub Committed : Bytes → W → Type 0
  Committed to w =
      (args : Bytes) × (flag : ℕ) × (n.clones.fetch_clone_args f.this w ≡ some args)
      × (last args ≡ some flag)
      × (to ≡ drop_last args)

  recipient-Committed :
      (s : State W) → Ensures (λ to t. (t ≡ s) × Committed to s.world) (recipient n f s)
  unfolding recipient
  recipient-Committed s =
      Ensures-view _ _ s _ λ args p.
        Ensures-unwrap _ _ s _ λ flag q. Ensures-pure _ _ s (refl, (args, flag, p, q, refl))

  fast-Ensures :
      (s : State W)
      → Ensures
          (λ b t.
            (t ≡ s)
            × (b ≡ true
                → (args : Bytes) × (flag : ℕ) × (n.clones.fetch_clone_args f.this s.world
                    ≡ some args)
                  × (last args ≡ some flag)
                  × (flag ≢ 0)))
          (fast n f s)
  unfolding fast
  fast-Ensures s = Ensures-view _ _ s _ λ args p.
      Ensures-unwrap _ _ s _
        λ flag q. Ensures-pure _ _ s (refl, λ h. (args, flag, p, q, differ flag 0 h))

  asks_fast-AsksFast :
      (s : State W)
      → Ensures (λ b t. (t ≡ s) × (b ≡ true → AsksFast s.config s.world)) (asks_fast n f s)
  unfolding asks_fast
  asks_fast-AsksFast s = Ensures-read _ _ s _ _ (fast-Ensures s) λ flag h.
      Ensures-gets _ _ s _ (Ensures-pure _ _ s (refl, λ both. (ground arith, h (ground arith))))

  module _ (usdc : Address) where
    burn_via_cctp-Burns :
        (to_burn : ℕ) (use_fast : Bool) (s : State W)
        → Ensures
            (λ _ t. Burns usdc to_burn use_fast s t)
            (burn_via_cctp n f usdc to_burn use_fast s)
    unfolding burn_via_cctp
    burn_via_cctp-Burns to_burn use_fast s = Ensures-gets _ _ s _ (
        Ensures-read _ _ s _ _
          (cctp_params-IsAllowance n s.config.token_messenger to_burn use_fast s)
          λ p h. Ensures-in_world _ _ s _ λ ok w approve_returns.
            Ensures-require _ _ (record s { world = w }) ok _
              λ ok_true.
                Ensures-read _ _ (record s { world = w }) _ _
                  (recipient-Committed (record s { world = w }))
                  λ to c.
                    Ensures-last_in_world _ (record s { world = w }) _
                      λ v burn_returns.
                        (let (args, flag, args_read, flag_last, to_is) = c in
                          record {
                            max_fee = p.1;
                            allowance = h.1;
                            approved_world = w;
                            approved = rw (← ok_true) approve_returns;
                            args = args;
                            flag = flag;
                            args_read = args_read;
                            flag_last = flag_last;
                            burned_by = rw (← h.0, ← to_is) burn_returns;
                            rest_kept = refl;
                          }))

    fees-Charged :
        (amount : ℕ) (charge_fees : Bool) (s : State W)
        → Ensures
            (λ fees u.
              (charge_fees ≡ true → Collected n f usdc amount fees s u)
              × (charge_fees ≡ false → (fees.0 ≡ 0) × (fees.1 ≡ 0) × (u ≡ s)))
            ((if charge_fees then collect_fees n f usdc amount else pure (0, 0)) s)
    fees-Charged amount true s = record {
      at = λ fees u h. (λ _. (collect_fees-Collected n f usdc amount s).at fees u h, λ no. cc);
    }
    fees-Charged amount false s = Ensures-pure _ _ s (λ no. cc, λ _. (refl, refl, refl))

    mode-AsksFast :
        (charge_fees : Bool) (s : State W)
        → Ensures
            (λ b t. (t ≡ s) × (b ≡ true → (charge_fees ≡ true) × AsksFast s.config s.world))
            ((if charge_fees then asks_fast n f else pure false) s)
    mode-AsksFast true s = record {
      at = λ b t h.
          let (same, asks) = (asks_fast-AsksFast s).at b t h in
          (same, λ fast_wanted. (refl, asks fast_wanted));
    }
    mode-AsksFast false s = Ensures-pure _ _ s (refl, λ no. cc)

    pub settle-Settles :
        (amount : ℕ) (charge_fees : Bool) (s : State W)
        → Ensures
            (λ _ t. Settles usdc amount charge_fees s t)
            (settle n f usdc amount charge_fees s)
    unfolding settle
    settle-Settles amount charge_fees s = Ensures-view _ _ s _ λ balance read.
        Ensures-require _ _ s _ _ λ fits.
          Ensures-bind _ _ s _ _ (fees-Charged amount charge_fees s) λ fees u charged.
            Ensures-unwrap _ _ u _ λ left p. Ensures-unwrap _ _ u _ λ to_burn q.
              Ensures-read _ _ u _ _ (mode-AsksFast charge_fees u) λ use_fast asks.
                Ensures-bind _ _ u _ _ (burn_via_cctp-Burns to_burn use_fast u) λ _ v burns.
                  Ensures-last_modify _ v _ (
                    let left_is = sub-some _ _ p in
                    let burn_is = sub-some _ _ q in
                    record {
                      setup_fee = fees.0;
                      per_settle_fee = fees.1;
                      burned = to_burn;
                      amount_split = omega arith;
                      balance = balance;
                      balance_read = read;
                      amount_held = ground arith;
                      charged = u;
                      charges = charged.0;
                      charges_nothing = charged.1;
                      use_fast = use_fast;
                      fast_asked = asks;
                      burnt = v;
                      burns = burns;
                      after = refl;
                    })
