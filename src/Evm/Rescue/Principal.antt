-- ===== src/Evm/Rescue/Principal.antt =====
-- src/DepositForwarder.sol: a rescue and the principal.
use crossmesh_ingress_contra.Prelude.{
  ℕ, ◌≤◌, ◌≡◌, refl, ◌≢◌, ◌⊎◌, inl, inr, true, false, not, ◌||◌, Option, none, some, ◌∷◌, arith,
  ◌==◌,
}
use crossmesh_ingress_contra.Exec.{done, Call, pure}
use crossmesh_ingress_contra.Exec.Ensures.{
  Ensures, Ensures-pure, Ensures-bind, Ensures-call, Ensures-gets, Ensures-modify,
}
use crossmesh_ingress_contra.Interfaces.{Address}
use crossmesh_ingress_contra.Evm.{Revert, rescued_native, rescued_erc20, Frame, State}
use crossmesh_ingress_contra.Evm.Rules.{
  Ensures-view, Ensures-require, Ensures-last_modify, Ensures-last_require, differ, leb→le,
  eq_cases,
}
use crossmesh_ingress_contra.Evm.Network.{Network}
use crossmesh_ingress_contra.Evm.Rescue.{Untrusted, attempt, rescue_native, rescue_erc20}

-- What is called, whatever it is, changes no storage of the contracts: it does not call them back.
pub record Quiet {W : Type 0} (out : Untrusted W) : Type 0 where
  pub send_quiet :
      (a b : Address) (amount : ℕ) (s t : State W)
      → out.send a b amount s ≡ some (tt, t)
      → (t.config ≡ s.config) × (t.clones ≡ s.clones)
  pub transfer_quiet :
      (a b c : Address) (amount : ℕ) (s t : State W)
      → out.safe_transfer a b c amount s ≡ some (tt, t)
      → (t.config ≡ s.config) × (t.clones ≡ s.clones)

module _ {W : Type 0} (n : Network W) (out : Untrusted W) (f : Frame) where
  -- What a rescue of native coin checked: who called, and the balance before and after.
  pub record NativeRescue (s t : State W) : Type 0 where
    pub by_operator : s.config.is_operator f.sender ≡ true
    pub sink_set : s.config.rescue_sink ≢ 0
    pub before : ℕ
    pub before_read : n.token.balance_of s.config.usdc f.this s.world ≡ some before
    pub after : ℕ
    pub after_read : n.token.balance_of s.config.usdc f.this t.world ≡ some after
    pub not_lowered : before ≤ after
    pub sent :
        out.send f.this s.config.rescue_sink (n.native_balance f.this s.world) (record s {
          log =
              (f.this, rescued_native s.config.rescue_sink (n.native_balance f.this s.world))
              ∷ s.log;
        })
        ≡ some (tt, t)

  attempt-Ensures :
      (c : Call (State W) Unit) (s : State W)
      → Ensures (λ b t. b ≡ true → c s ≡ some (tt, t)) (attempt c s)
  unfolding attempt pure
  attempt-Ensures c s = split (c s)
    where
      split :
          (o : Option (Unit × State W))
          → Ensures {E = Revert}
              (λ b t. b ≡ true → o ≡ some (tt, t))
              (elim o [ none ↦ done false s | some (_, t) ↦ done true t ])
      split none = Ensures-pure _ false s (λ no. cc)
      split (some (_, t)) = Ensures-pure _ true t (λ _. refl)

  pub rescue_native-NativeRescue :
      (s : State W) → Ensures (λ _ t. NativeRescue s t) (rescue_native n out f s)
  unfolding rescue_native
  rescue_native-NativeRescue s = Ensures-gets _ _ s _ (
      Ensures-require _ _ s _ _ λ by_operator. Ensures-require _ _ s _ _ λ sink_set.
        Ensures-require _ _ s _ _ λ _. Ensures-view _ _ s _ λ before before_read.
          Ensures-gets _ _ s _ (
            Ensures-modify _ _ s _ (
              Ensures-bind _ _ _ _ _ (attempt-Ensures _ _) λ ok t sent.
                Ensures-require _ _ t ok _ λ ok_true. Ensures-view _ _ t _ λ after after_read.
                  Ensures-last_require _ t _ _ λ kept. record {
                    by_operator = by_operator;
                    sink_set = differ s.config.rescue_sink 0 sink_set;
                    before = before;
                    before_read = before_read;
                    after = after;
                    after_read = after_read;
                    not_lowered = leb→le before after kept;
                    sent = sent ok_true;
                  })))

  pub record TokenRescue (implementation token : Address) (s t : State W) : Type 0 where
    pub by_operator : s.config.is_operator f.sender ≡ true
    pub sink_set : s.config.rescue_sink ≢ 0
    pub not_principal : (token ≢ s.config.usdc) ⊎ (f.this ≡ implementation)
    pub amount : ℕ
    pub amount_read : n.token.balance_of token f.this s.world ≡ some amount
    pub sent_state : State W
    pub sent : out.safe_transfer f.this token s.config.rescue_sink amount s ≡ some (tt, sent_state)
    pub after : t ≡ record sent_state {
      log = (f.this, rescued_erc20 token s.config.rescue_sink amount) ∷ sent_state.log;
    }

  other_or_implementation :
      (token usdc this implementation : Address)
      → (not (token == usdc) || (this == implementation)) ≡ true
      → (token ≢ usdc) ⊎ (this ≡ implementation)
  other_or_implementation token usdc this implementation h = elim (eq_cases token usdc) [
    | inl p ↦ inr (ground arith)
    | inr p ↦ inl p
  ]

  pub rescue_erc20-TokenRescue :
      (implementation token : Address) (s : State W)
      → Ensures
          (λ _ t. TokenRescue implementation token s t)
          (rescue_erc20 n out implementation f token s)
  unfolding rescue_erc20
  rescue_erc20-TokenRescue implementation token s = Ensures-gets _ _ s _ (
      Ensures-require _ _ s _ _ λ by_operator. Ensures-require _ _ s _ _ λ _.
        Ensures-require _ _ s _ _ λ not_principal. Ensures-require _ _ s _ _ λ sink_set.
          Ensures-view _ _ s _ λ amount amount_read. Ensures-call _ _ s _ λ _ u sent.
            Ensures-last_modify _ u _ (record {
              by_operator = by_operator;
              sink_set = differ s.config.rescue_sink 0 sink_set;
              not_principal =
                  other_or_implementation token s.config.usdc f.this implementation not_principal;
              amount = amount;
              amount_read = amount_read;
              sent_state = u;
              sent = sent;
              after = refl;
            }))

  -- A rescue of native coin that returns was made by an operator, sent the clone's native coin to
  -- the sink that the owner set, and left the clone no less USDC than it held before the coin was
  -- sent, whatever the sink did when it was called, calls back into the contracts included.
  pub rescue_native_safe : (s t : State W) → rescue_native n out f s ≡ done tt t → NativeRescue s t
  rescue_native_safe s t h = (rescue_native-NativeRescue s).at tt t h
