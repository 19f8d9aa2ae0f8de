-- ===== src/Evm/Forwarder/Fees.antt =====
-- src/DepositForwarder.sol: what `_collectFees` charges and pays.
use crossmesh_ingress_contra.Prelude.{
  ℕ, ◌+◌, ◌*◌, ◌/◌, ◌≤◌, ◌<◌, ◌≡◌, refl, ◌≢◌, ◌⊎◌, inl, inr, true, some, arith, ltb, if◌then◌else◌,
  ltb→lt,
}
use crossmesh_ingress_contra.Exec.{pure}
use crossmesh_ingress_contra.Exec.Ensures.{
  Ensures, Ensures-pure, Ensures-if, Ensures-bind, Ensures-unwrap, Ensures-gets, Ensures-modify,
}
use crossmesh_ingress_contra.Interfaces.{Address}
use crossmesh_ingress_contra.Evm.{ConfigStorage, CloneStorage, Frame, State, update_clone}
use crossmesh_ingress_contra.Evm.Rules.{
  Ensures-require, Ensures-last_in_world, differ, not_positive,
}
use crossmesh_ingress_contra.Evm.Word.{min, add-some, mul-some}
use crossmesh_ingress_contra.Evm.Network.{Network}
use crossmesh_ingress_contra.Evm.Config.{max_setup_fee, max_base_fee, max_fee_ppm}
use crossmesh_ingress_contra.Evm.Forwarder.{ppm_denom, send_fees, collect_fees}

abbrev pub setup_fee_due : ConfigStorage → CloneStorage → ℕ
setup_fee_due c k = if k.setup_fee_paid then 0 else min c.setup_fee max_setup_fee

abbrev pub per_settle_fee_due : ConfigStorage → ℕ → ℕ
per_settle_fee_due c amount =
    min c.base_fee max_base_fee + amount * min c.fee_ppm max_fee_ppm / ppm_denom

abbrev pub with_fee_paid : CloneStorage → CloneStorage
with_fee_paid k = record k { setup_fee_paid = true }

-- Nothing was due, or it went to the fee collector, which is another account.
abbrev pub FeesPaid : {W : Type 0} → Network W → Frame → Address → Address → ℕ → W → W → Type 0
FeesPaid n f usdc collector total v w =
    ((total ≡ 0) × (w ≡ v))
    ⊎ ((collector ≢ f.this) × (n.token.safe_transfer f.this usdc collector total v ≡ some (tt, w)))

pub record Collected {W : Type 0} (n : Network W) (f : Frame) (usdc : Address) (amount : ℕ)
    (fees : ℕ × ℕ) (s t : State W) : Type 0 where
  pub setup_is : fees.0 ≡ setup_fee_due s.config (s.clones f.this)
  pub per_settle_is : fees.1 ≡ per_settle_fee_due s.config amount
  pub total_below : fees.0 + fees.1 < amount
  pub paid : FeesPaid n f usdc s.config.fee_collector (fees.0 + fees.1) s.world t.world
  pub config_kept : t.config ≡ s.config
  pub clones_after : t.clones ≡ (update_clone f.this with_fee_paid s).clones
  pub log_kept : t.log ≡ s.log

-- The fees at their highest.
pub capped_product : (a r : ℕ) → a * min r max_fee_ppm ≤ a * max_fee_ppm
capped_product a r =
    let smaller : min r max_fee_ppm ≤ max_fee_ppm = ground arith in
    generalised a (min r max_fee_ppm) smaller
  where
    generalised : (a r : ℕ) → r ≤ max_fee_ppm → a * r ≤ a * max_fee_ppm
    generalised a r p = grind arith

pub per_settle_fee_due-le :
    (c : ConfigStorage) (amount : ℕ)
    → per_settle_fee_due c amount ≤ max_base_fee + amount * max_fee_ppm / ppm_denom
per_settle_fee_due-le c amount =
    let p = capped_product amount c.fee_ppm in
    let q : min c.base_fee max_base_fee ≤ max_base_fee = ground arith in omega arith

pub setup_fee_due-le : (c : ConfigStorage) (k : CloneStorage) → setup_fee_due c k ≤ max_setup_fee
setup_fee_due-le c k = ground arith

module _ {W : Type 0} (n : Network W) (f : Frame) (usdc : Address) (amount : ℕ) (s : State W) where
  abbrev after_fee_paid : State W
  after_fee_paid = update_clone f.this with_fee_paid s

  send_fees-FeesPaid :
      (total : ℕ) (u : State W)
      → Ensures
          (λ _ t.
            (FeesPaid n f usdc u.config.fee_collector total u.world t.world)
            × (t.config ≡ u.config)
            × (t.clones ≡ u.clones)
            × (t.log ≡ u.log))
          ((if ltb 0 total then send_fees n f usdc total else pure tt) u)
  unfolding send_fees
  send_fees-FeesPaid total u =
      Ensures-if _ _ _ _ u
        (λ _. Ensures-gets _ _ u _ (
          Ensures-require _ _ u _ _ λ _. Ensures-require _ _ u _ _ λ other.
            Ensures-last_in_world _ u _
              λ w p. (inr (differ u.config.fee_collector f.this other, p), refl, refl, refl)))
        (λ none_due.
          Ensures-pure _ tt u (inl (not_positive total none_due, refl), refl, refl, refl))

  pub collect_fees-Collected :
      Ensures (λ fees t. Collected n f usdc amount fees s t) (collect_fees n f usdc amount s)
  unfolding collect_fees
  collect_fees-Collected = Ensures-gets _ _ s _ (
      Ensures-gets _ _ s _ (
        Ensures-unwrap _ _ s _ λ product p. Ensures-unwrap _ _ s _ λ per q.
          Ensures-unwrap _ _ s _ λ total r. Ensures-require _ _ s _ _ λ fits.
            Ensures-modify _ _ s _ (
              Ensures-bind _ _ after_fee_paid _ _ (send_fees-FeesPaid total after_fee_paid) λ _ t h.
                Ensures-pure _ _ t (
                  let per_is = add-some _ _ q in
                  let product_is = mul-some _ _ p in
                  let total_is = add-some _ _ r in
                  record {
                    setup_is = refl;
                    per_settle_is = rw (per_is, product_is) refl;
                    total_below = rw (← total_is) (ltb→lt total amount fits);
                    paid = rw (← total_is) h.0;
                    config_kept = h.1;
                    clones_after = h.2;
                    log_kept = h.3;
                  }))))
