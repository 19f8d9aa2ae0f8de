-- ===== src/Evm/Forwarder/Refusals.antt =====
-- src/DepositForwarder.sol: the reasons for which `flush` refuses.
use crossmesh_ingress_contra.Prelude.{
  ℕ, ◌+◌, ◌*◌, ◌/◌, ◌^◌, ◌≤◌, ◌<◌, ◌≡◌, refl, ◌∙◌, ◌≢◌, Bool, true, false, not, ◌&&◌, ◌||◌, some,
  arith, ltb, leb, ◌==◌,
}
use crossmesh_ingress_contra.Exec.{Outcome, err, ◌>>=◌}
use crossmesh_ingress_contra.Exec.Steps.{bind_step, bind_err, unwrap_step, gets_step}
use crossmesh_ingress_contra.Interfaces.{Address}
use crossmesh_ingress_contra.Evm.{
  Revert, not_a_clone, not_operator, bad_amount, fee_exceeds_settled, burn_unsupported, Frame,
  State, Action, require,
}
use crossmesh_ingress_contra.Evm.Rules.{view_step, require_step}
use crossmesh_ingress_contra.Evm.Word.{min, add_lem, mul_lem}
use crossmesh_ingress_contra.Evm.Network.{Network}
use crossmesh_ingress_contra.Evm.Config.{max_base_fee, max_fee_ppm}
use crossmesh_ingress_contra.Evm.Forwarder.{ppm_denom, burn_limit, collect_fees, settle, flush}
use crossmesh_ingress_contra.Evm.Forwarder.Fees.{setup_fee_due, per_settle_fee_due, capped_product}
use crossmesh_ingress_contra.Evm.Forwarder.Entry.{Limit}
use crossmesh_ingress_contra.Evm.Forwarder.Runs.{burn_limit_runs, clone_test}

refused_test : (a : ℕ) (b : ℕ) → a ≡ b → not (a == b) ≡ false
refused_test a b h = ground arith

stranger_test :
    (operator : Bool) (sender factory : ℕ) (everyone : Bool)
    → operator ≡ false
    → sender ≢ factory
    → everyone ≡ false
    → (operator || (sender == factory) || everyone) ≡ false
stranger_test operator sender factory everyone p q r = ground arith

no_amount_test : (limit : ℕ) → (ltb 0 (min limit 0) && leb (min limit 0) 0) ≡ false
no_amount_test limit = ground arith

amount_test :
    (limit balance : ℕ)
    → 0 < min limit balance
    → (ltb 0 (min limit balance) && leb (min limit balance) balance) ≡ true
amount_test limit balance h = ground arith

not_below_test : (total amount : ℕ) → amount ≤ total → ltb total amount ≡ false
not_below_test total amount h = ground arith

require_err :
    {W B : Type 0} (s : State W) (k : Unit → Action W B) (test : Bool) (e : Revert)
    → test ≡ false
    → (require test e >>= k) s ≡ err e
unfolding ◌>>=◌
require_err s k test e h = rw h

module _ {W : Type 0} (n : Network W) (implementation : Address) (f : Frame) (s : State W) where
  -- What has passed when the limit of a burn has been read: the clone, the caller, the balance.
  pub record Started (balance limit : ℕ) : Type 0 where
    pub on_clone : f.this ≢ implementation
    pub permitted :
        (s.config.is_operator f.sender || (f.sender == s.config.factory) || s.config.public_flush)
        ≡ true
    pub balance_read : n.token.balance_of s.config.usdc f.this s.world ≡ some balance
    pub limit_read : Limit n implementation f s.config limit s.world

  -- What the fees come to for a settlement of `amount`.
  abbrev pub total_due : ℕ → ℕ
  total_due amount = setup_fee_due s.config (s.clones f.this) + per_settle_fee_due s.config amount

  pub data FlushFails : Outcome (State W) Revert Unit → Type 0 where
    implementation_called : f.this ≡ implementation → FlushFails (err not_a_clone)
    stranger :
        f.this ≢ implementation
        → s.config.is_operator f.sender ≡ false
        → f.sender ≢ s.config.factory
        → s.config.public_flush ≡ false
        → FlushFails (err not_operator)
    unsupported : (balance : ℕ) → Started balance 0 → FlushFails (err burn_unsupported)
    empty : (limit : ℕ) → Started 0 limit → 0 < limit → FlushFails (err bad_amount)
    too_dear :
        (balance limit : ℕ)
        → Started balance limit
        → 0 < min limit balance
        → total_due (min limit balance) < 2 ^ 256
        → min limit balance * max_fee_ppm < 2 ^ 256
        → min limit balance ≤ total_due (min limit balance)
        → FlushFails (err fee_exceeds_settled)

  limit_missing : (balance : ℕ) → Started balance 0 → burn_limit n s ≡ err burn_unsupported
  unfolding burn_limit
  limit_missing balance b =
      let (minter, minter_read, limit_read) = b.limit_read in
      gets_step _ s _
      ∙ view_step _ s (n.messenger.local_minter s.config.token_messenger) minter_read
      ∙ view_step _ s (n.minter.burn_limits_per_message minter s.config.usdc) limit_read
      ∙ require_err s _ false _ refl

  nothing_settled :
      (limit : ℕ) → Started 0 limit → settle n f s.config.usdc (min limit 0) true s ≡ err bad_amount
  unfolding settle
  nothing_settled limit b =
      view_step _ s (n.token.balance_of s.config.usdc f.this) b.balance_read
      ∙ require_err s _ _ _ (no_amount_test limit)

  fees_refused :
      (amount : ℕ)
      → total_due amount < 2 ^ 256
      → amount * max_fee_ppm < 2 ^ 256
      → amount ≤ total_due amount
      → collect_fees n f s.config.usdc amount s ≡ err fee_exceeds_settled
  unfolding collect_fees
  fees_refused amount fits fits' over =
      gets_step _ s _
      ∙ gets_step _ s _
      ∙ unwrap_step _ s _ (
          mul_lem amount (min s.config.fee_ppm max_fee_ppm)
            (omega (arith, capped_product amount s.config.fee_ppm)))
      ∙ unwrap_step _ s _ (
          add_lem (min s.config.base_fee max_base_fee)
            (amount * min s.config.fee_ppm max_fee_ppm / ppm_denom) (omega arith))
      ∙ unwrap_step _ s _ (
          add_lem (setup_fee_due s.config (s.clones f.this)) (per_settle_fee_due s.config amount)
            fits)
      ∙ require_err s _ _ _ (not_below_test (total_due amount) amount over)

  too_dear_to_settle :
      (balance limit : ℕ)
      → Started balance limit
      → 0 < min limit balance
      → collect_fees n f s.config.usdc (min limit balance) s ≡ err fee_exceeds_settled
      → settle n f s.config.usdc (min limit balance) true s ≡ err fee_exceeds_settled
  unfolding settle
  too_dear_to_settle balance limit b positive refused =
      view_step _ s (n.token.balance_of s.config.usdc f.this) b.balance_read
      ∙ require_step _ s _ _ (amount_test limit balance positive)
      ∙ bind_err _ s _ refused

  -- Once a flush has started it goes as its settlement goes.
  fails_as_settlement :
      (balance limit : ℕ) {e : Revert}
      → Started balance limit
      → 0 < limit
      → settle n f s.config.usdc (min limit balance) true s ≡ err e
      → flush n implementation f s ≡ err e
  unfolding flush
  fails_as_settlement balance limit b positive refused =
      require_step _ s _ _ (clone_test n f implementation b.on_clone)
      ∙ gets_step _ s _
      ∙ require_step _ s _ _ b.permitted
      ∙ view_step _ s (n.token.balance_of s.config.usdc f.this) b.balance_read
      ∙ bind_step _ s _ (burn_limit_runs n f implementation limit s b.limit_read positive)
      ∙ bind_err _ s _ refused

  positive_limit : (limit balance : ℕ) → 0 < min limit balance → 0 < limit
  positive_limit limit balance h = ground arith

  -- A flush is refused, for the reason given: on the implementation; for a caller who is neither an
  -- operator nor the factory, unless flushing is public; where burning is not supported; where
  -- there is nothing to settle; and where the fees are not less than what is settled.
  pub flush_fails :
      (o : Outcome (State W) Revert Unit) → FlushFails o → flush n implementation f s ≡ o
  unfolding flush
  flush_fails _ (implementation_called same) =
      require_err s _ _ _ (refused_test f.this implementation same)
  flush_fails _ (stranger on_clone a b c) =
      require_step _ s _ _ (clone_test n f implementation on_clone)
      ∙ gets_step _ s _
      ∙ require_err s _ _ _ (stranger_test _ f.sender s.config.factory _ a b c)
  flush_fails _ (unsupported balance b) =
      require_step _ s _ _ (clone_test n f implementation b.on_clone)
      ∙ gets_step _ s _
      ∙ require_step _ s _ _ b.permitted
      ∙ view_step _ s (n.token.balance_of s.config.usdc f.this) b.balance_read
      ∙ bind_err _ s _ (limit_missing balance b)
  flush_fails _ (empty limit b positive) =
      fails_as_settlement 0 limit b positive (nothing_settled limit b)
  flush_fails _ (too_dear balance limit b positive fits fits' over) =
      fails_as_settlement balance limit b (positive_limit limit balance positive) (
        too_dear_to_settle balance limit b positive
          (fees_refused (min limit balance) fits fits' over))
