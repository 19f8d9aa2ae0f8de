-- ===== src/Evm/Forwarder/Sweeping.antt =====
-- src/DepositForwarder.sol: what `requestSweep` and `sweep` do when they return.
use crossmesh_ingress_contra.Prelude.{
  ℕ, ◌+◌, ◌-◌, ◌≤◌, ◌≡◌, refl, ◌≢◌, true, false, not, ◌&&◌, some, ◌∷◌, arith, leb, ◌==◌, ==→eq,
  not_==→ne,
}
use crossmesh_ingress_contra.Exec.Ensures.{
  Ensures, Ensures-pure, Ensures-if, Ensures-bind, Ensures-unwrap, Ensures-gets, Ensures-modify,
}
use crossmesh_ingress_contra.Interfaces.{Address}
use crossmesh_ingress_contra.Evm.{
  sweep_requested, ConfigStorage, CloneStorage, Frame, State, update_clone,
}
use crossmesh_ingress_contra.Evm.Rules.{
  Ensures-view, Ensures-read, Ensures-require, Ensures-last_modify, differ, Ensures-weaken, leb→le,
}
use crossmesh_ingress_contra.Evm.Word.{min, add-some, sub-some}
use crossmesh_ingress_contra.Evm.Network.{Network}
use crossmesh_ingress_contra.Evm.Config.{max_sweep_delay}
use crossmesh_ingress_contra.Evm.Forwarder.{min_sweep_amount, arm, request_sweep, sweep}
use crossmesh_ingress_contra.Evm.Forwarder.Settling.{Settles, settle-Settles}
use crossmesh_ingress_contra.Evm.Forwarder.Entry.{
  Closes, Limit, keep_or_close-Closes, burn_limit-Limit,
}

module _ {W : Type 0} (n : Network W) (implementation : Address) (f : Frame) where
  abbrev pub deadline : ConfigStorage → ℕ
  deadline c = f.timestamp + min c.sweep_delay max_sweep_delay

  abbrev pub with_window : ℕ → ℕ → CloneStorage → CloneStorage
  with_window at cap k = record k { sweepable_at = at; sweep_cap = cap }

  abbrev pub armed_state : ℕ → State W → State W
  armed_state balance s = record (update_clone f.this (with_window (deadline s.config) balance) s) {
    log = (f.this, sweep_requested f.sender (deadline s.config)) ∷ s.log;
  }

  pub record Arms (s t : State W) : Type 0 where
    pub on_clone : f.this ≢ implementation
    pub balance : ℕ
    pub balance_read : n.token.balance_of s.config.usdc f.this s.world ≡ some balance
    pub enough : min_sweep_amount ≤ balance
    pub already : (s.clones f.this).sweepable_at ≢ 0 → t ≡ s
    pub arms : (s.clones f.this).sweepable_at ≡ 0 → t ≡ armed_state balance s

  pub record Sweeps (s t : State W) : Type 0 where
    pub on_clone : f.this ≢ implementation
    pub was_armed : (s.clones f.this).sweepable_at ≢ 0
    pub due : (s.clones f.this).sweepable_at ≤ f.timestamp
    pub balance : ℕ
    pub balance_read : n.token.balance_of s.config.usdc f.this s.world ≡ some balance
    pub limit : ℕ
    pub limit_read : Limit n implementation f s.config limit s.world
    pub settled_state : State W
    pub settles :
        Settles n f s.config.usdc
          (min limit (min balance (s.clones f.this).sweep_cap))
          false
          s
          settled_state
    pub within :
        min limit (min balance (s.clones f.this).sweep_cap)
        ≤ (settled_state.clones f.this).sweep_cap
    pub closes :
        Closes n f s.config.usdc
          ((settled_state.clones f.this).sweep_cap
            - min limit (min balance (s.clones f.this).sweep_cap))
          settled_state
          t

  arm-Ensures :
      (balance : ℕ) (s : State W) → Ensures (λ _ t. t ≡ armed_state balance s) (arm n f balance s)
  unfolding arm
  arm-Ensures balance s = Ensures-gets _ _ s _ (
      Ensures-unwrap _ _ s _ λ at p.
        Ensures-modify (λ _ t. t ≡ armed_state balance s) _ s _
          (Ensures-last_modify (λ _ t. t ≡ armed_state balance s)
            (update_clone f.this (with_window at balance) s)
            (λ u. record u { log = (f.this, sweep_requested f.sender at) ∷ u.log })
            (rw (add-some f.timestamp (min s.config.sweep_delay max_sweep_delay) p) refl)))

  pub request_sweep-Arms :
      (s : State W) → Ensures (λ _ t. Arms s t) (request_sweep n implementation f s)
  unfolding request_sweep
  request_sweep-Arms s = Ensures-require _ _ s _ _ λ on_clone. Ensures-gets _ _ s _ (
      Ensures-view _ _ s _ λ balance balance_read. Ensures-require _ _ s _ _ λ enough.
        Ensures-gets _ _ s _ (
          Ensures-if _ _ _ _ s
            (λ none_armed. Ensures-weaken _ _ _ (arm-Ensures balance s) λ _ t after. record {
              on_clone = differ f.this implementation on_clone;
              balance = balance;
              balance_read = balance_read;
              enough = leb→le min_sweep_amount balance enough;
              already = λ armed. absurd (armed (==→eq _ 0 none_armed));
              arms = λ _. after;
            })
            (λ armed. Ensures-pure _ _ s (record {
              on_clone = differ f.this implementation on_clone;
              balance = balance;
              balance_read = balance_read;
              enough = leb→le min_sweep_amount balance enough;
              already = λ _. refl;
              arms = λ none_armed. absurd (not_==→ne _ 0 armed none_armed);
            }))))

  armed_now : (at now : ℕ) → (not (at == 0) && leb at now) ≡ true → at ≢ 0
  armed_now at now h = ground arith

  due_now : (at now : ℕ) → (not (at == 0) && leb at now) ≡ true → at ≤ now
  due_now at now h = ground arith

  pub sweep-Sweeps : (s : State W) → Ensures (λ _ t. Sweeps s t) (sweep n implementation f s)
  unfolding sweep
  sweep-Sweeps s = Ensures-require _ _ s _ _ λ on_clone. Ensures-gets _ _ s _ (
      Ensures-require _ _ s _ _ λ due. Ensures-gets _ _ s _ (
        Ensures-view _ _ s _ λ balance balance_read.
          Ensures-read _ _ s _ _ (burn_limit-Limit n implementation f s) λ limit limit_read.
            Ensures-bind _ _ s _ _
              (settle-Settles n f s.config.usdc
                (min limit (min balance (s.clones f.this).sweep_cap)) false s)
              λ _ u settles. Ensures-gets _ _ u _ (
                Ensures-unwrap _ _ u _ λ remaining p.
                  (let (within, remaining_is) = sub-some _ _ p in
                    Ensures-weaken _ _ _
                      (keep_or_close-Closes n implementation f s.config.usdc remaining u)
                      λ _ t closes. record {
                        on_clone = differ f.this implementation on_clone;
                        was_armed = armed_now (s.clones f.this).sweepable_at f.timestamp due;
                        due = due_now (s.clones f.this).sweepable_at f.timestamp due;
                        balance = balance;
                        balance_read = balance_read;
                        limit = limit;
                        limit_read = limit_read;
                        settled_state = u;
                        settles = settles;
                        within = within;
                        closes = rw (← remaining_is) closes;
                      }))))
