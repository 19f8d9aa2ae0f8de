-- ===== src/Evm/Forwarder/Allowance.antt =====
-- src/DepositForwarder.sol: the fee allowance of a burn, `_cctpParams`.
use crossmesh_ingress_contra.Prelude.{
  ℕ, ◌+◌, ◌-◌, ◌*◌, ◌/◌, ◌^◌, ◌≤◌, ◌<◌, ◌≡◌, refl, ◌∙◌, Bool, arith, ltb, leb, if◌then◌else◌,
}
use crossmesh_ingress_contra.Exec.{done, pure, unwrap, ◌>>=◌}
use crossmesh_ingress_contra.Exec.Ensures.{Ensures, Ensures-pure, Ensures-bind, Ensures-gets}
use crossmesh_ingress_contra.Exec.Steps.{bind_step, gets_step}
use crossmesh_ingress_contra.Interfaces.{Address}
use crossmesh_ingress_contra.Evm.{ConfigStorage, State}
use crossmesh_ingress_contra.Evm.Word.{add, mul, sub, min}
use crossmesh_ingress_contra.Evm.Network.{Network}
use crossmesh_ingress_contra.Evm.Config.{max_cctp_fee_ppm}
use crossmesh_ingress_contra.Evm.Forwarder.{
  finality_standard, finality_fast, ppm_denom, decode_min_fee, cctp_min_fee, ceil_ppm, below,
  cctp_params,
}

-- A share of an amount, in millionths, rounded up.
abbrev pub ceil_of : ℕ → ℕ → ℕ
ceil_of amount rate = (amount * rate + ppm_denom - 1) / ppm_denom

-- The minimum that the messenger reports for a burn, where it reports one.
abbrev pub reported_minimum : {W : Type 0} → Network W → Address → ℕ → W → ℕ
reported_minimum n messenger to_burn w =
    decode_min_fee (n.messenger.get_min_fee_amount messenger to_burn w)

-- The allowance before the bounds: the owner's rate, lifted to the messenger's minimum.
abbrev pub wanted : ℕ → ℕ → ℕ → ℕ
wanted to_burn rate chain_min =
    if ltb (ceil_of to_burn (min rate max_cctp_fee_ppm)) chain_min
    then chain_min
    else ceil_of to_burn (min rate max_cctp_fee_ppm)

-- What the bounds make of it.
abbrev pub allowed : ℕ → ℕ → ℕ
allowed to_burn fee =
    if leb to_burn (min fee (ceil_of to_burn max_cctp_fee_ppm))
    then to_burn - 1
    else min fee (ceil_of to_burn max_cctp_fee_ppm)

abbrev pub threshold : Bool → ℕ
threshold use_fast = if use_fast then finality_fast else finality_standard

abbrev pub rate_for : ConfigStorage → Bool → ℕ
rate_for c use_fast = if use_fast then c.cctp_fast_max_fee_ppm else c.cctp_standard_max_fee_ppm

-- An allowance that a burn of `to_burn` can be made with: below the burn, within the cap, and no
-- less than the messenger's minimum unless that is not below the burn or is above the cap.
pub record IsAllowance (to_burn chain_min max_fee : ℕ) : Type 0 where
  pub below_burn : max_fee < to_burn
  pub within_cap : max_fee ≤ ceil_of to_burn max_cctp_fee_ppm
  pub serves :
      chain_min < to_burn → chain_min ≤ ceil_of to_burn max_cctp_fee_ppm → chain_min ≤ max_fee

bounded-IsAllowance :
    (to_burn fee chain_min bound x : ℕ)
    → bound ≡ ceil_of to_burn max_cctp_fee_ppm
    → x ≡ (
        if leb to_burn (min (if ltb fee chain_min then chain_min else fee) bound)
        then to_burn - 1
        else min (if ltb fee chain_min then chain_min else fee) bound)
    → x < to_burn
    → IsAllowance to_burn chain_min x
bounded-IsAllowance to_burn fee chain_min bound x h e k = record {
  below_burn = k;
  within_cap = ground arith;
  serves = λ p q. ground arith;
}

module _ {W : Type 0} (n : Network W) where
  pub ceil_ppm_lem :
      (amount rate : ℕ) (s : State W)
      → amount * rate + ppm_denom < 2 ^ 256
      → ceil_ppm n amount rate s ≡ done (ceil_of amount rate) s
  unfolding ceil_ppm add mul sub ◌>>=◌
  ceil_ppm_lem amount rate s h = ground arith

  pub ceil_ppm-Ensures :
      (amount rate : ℕ) (s : State W)
      → Ensures (λ x t. (t ≡ s) × (x ≡ ceil_of amount rate)) (ceil_ppm n amount rate s)
  unfolding ceil_ppm add mul sub ◌>>=◌
  ceil_ppm-Ensures amount rate s = record { at = λ x t h. ground arith }

  below-Ensures :
      (to_burn fee : ℕ) (s : State W)
      → Ensures
          (λ x t. (t ≡ s) × (x ≡ (if leb to_burn fee then to_burn - 1 else fee)) × (x < to_burn))
          (below n to_burn fee s)
  unfolding below sub unwrap pure
  below-Ensures to_burn fee s = record { at = λ x t h. ground arith }

  pub cctp_params-IsAllowance :
      (messenger : Address) (to_burn : ℕ) (use_fast : Bool) (s : State W)
      → Ensures
          (λ p t.
            (t ≡ s)
            × ((p.0 ≡ threshold use_fast)
                × IsAllowance to_burn (reported_minimum n messenger to_burn s.world) p.1))
          (cctp_params n messenger to_burn use_fast s)
  unfolding cctp_params cctp_min_fee
  cctp_params-IsAllowance messenger to_burn use_fast s = Ensures-gets _ _ s _ (
      Ensures-bind _ _ s _ _ (ceil_ppm-Ensures to_burn _ s) λ fee t p. Ensures-gets _ _ t _ (
        Ensures-bind _ _ t _ _ (ceil_ppm-Ensures to_burn _ t) λ bound u q.
          Ensures-bind _ _ u _ _ (below-Ensures to_burn _ u) λ x v r. Ensures-pure _ _ v (
            r.0 ∙ q.0 ∙ p.0,
            (refl, rw (← p.0) (bounded-IsAllowance to_burn fee _ bound x q.1 r.1 r.2)),
          )))

  below_lem :
      (to_burn fee : ℕ) (s : State W)
      → 0 < to_burn
      → below n to_burn fee s ≡ done (if leb to_burn fee then to_burn - 1 else fee) s
  unfolding below sub unwrap pure
  below_lem to_burn fee s h = ground arith

  below_cap :
      (amount rate : ℕ)
      → amount * max_cctp_fee_ppm + ppm_denom < 2 ^ 256
      → amount * min rate max_cctp_fee_ppm + ppm_denom < 2 ^ 256
  below_cap amount rate h =
      let smaller : min rate max_cctp_fee_ppm ≤ max_cctp_fee_ppm = ground arith in
      omega (arith, generalised amount (min rate max_cctp_fee_ppm) smaller)
    where
      generalised :
          (a r : ℕ) → r ≤ max_cctp_fee_ppm → a * r + ppm_denom ≤ a * max_cctp_fee_ppm + ppm_denom
      generalised a r p = grind arith

  -- For every burn of one subunit or more that does not overflow, in either mode, the parameters
  -- are computed: the threshold is 1000 for a fast transfer and 2000 otherwise, and the allowance
  -- is below the burn, within one percent of it, rounded up, and at least the messenger's minimum
  -- if that is below the burn and within the cap.
  pub cctp_params_returns :
      (messenger : Address) (to_burn : ℕ) (use_fast : Bool) (s : State W)
      → 0 < to_burn
      → to_burn * max_cctp_fee_ppm + ppm_denom < 2 ^ 256
      → (max_fee : ℕ) × (cctp_params n messenger to_burn use_fast s
          ≡ done (if use_fast then 1000 else 2000, max_fee) s)
        × IsAllowance to_burn (reported_minimum n messenger to_burn s.world) max_fee
  unfolding cctp_params cctp_min_fee pure
  cctp_params_returns messenger to_burn use_fast s h k =
      let runs : cctp_params n messenger to_burn use_fast s
          ≡ done
              (
                if use_fast then 1000 else 2000,
                allowed to_burn (
                    wanted to_burn (rate_for s.config use_fast)
                      (reported_minimum n messenger to_burn s.world)),
              )
              s =
        gets_step _ s _
        ∙ bind_step _ s _ (
            ceil_ppm_lem to_burn (min (rate_for s.config use_fast) max_cctp_fee_ppm) s
              (below_cap to_burn (rate_for s.config use_fast) k))
        ∙ gets_step _ s _
        ∙ bind_step _ s _ (ceil_ppm_lem to_burn max_cctp_fee_ppm s k)
        ∙ bind_step _ s _ (below_lem to_burn _ s h) in
      (_, runs, ((cctp_params-IsAllowance messenger to_burn use_fast s).at _ s runs).1.1)
