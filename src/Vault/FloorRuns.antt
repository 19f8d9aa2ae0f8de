-- ===== src/Vault/FloorRuns.antt =====
-- When `oracle_floor` of contracts/vault returns, and the error where it does not.
use native.Mathlib.Decide.{dec_lt}
use crossmesh_ingress_contra.Prelude.{ℕ, ◌-◌, ◌*◌, ◌/◌, ◌^◌, ◌≤◌, ◌<◌, ◌≡◌, ◌∙◌, ◌⊎◌, some, arith}
use crossmesh_ingress_contra.Int.{ℤ, pos, ◌-ℤ◌, -ℤ-pos}
use crossmesh_ingress_contra.Int.Checked.{checked_mul, div}
use crossmesh_ingress_contra.Int.Bounds.{checked_mul-pos_some, checked_mul-pos_none, div-pos}
use crossmesh_ingress_contra.Exec.{Outcome, done, err, pure, unwrap, unwrap_or_panic, ◌>>=◌}
use crossmesh_ingress_contra.Exec.Steps.{
  bind_step, gets_step, panic_if_step, panic_if_err, unwrap_step, unwrap_or_panic_step,
  unwrap_or_panic_err,
}
use crossmesh_ingress_contra.Interfaces.{VaultConfig, ReflectorClient}
use crossmesh_ingress_contra.Host.{Env, World, Host}
use crossmesh_ingress_contra.Vault.{ppm, Floor, VaultError, invalid_config, overflow, oracle_floor}
use crossmesh_ingress_contra.Vault.Config.{IsUsable, unusable-false_of, unusable-true_of}
use crossmesh_ingress_contra.Vault.Price.{IsFresh, fresh_price_iff}

module _ {L : Type 0} (h : Host L) (oracle : ReflectorClient (World L)) where
  -- A configuration outside the bounds that the code fixes is refused before the oracle is asked.
  pub oracle_floor_refuses :
      (e : Env) (config : VaultConfig) (amount : ℤ) (w : World L)
      → ¬ IsUsable config
      → oracle_floor h oracle e config amount w ≡ err invalid_config
  unfolding oracle_floor
  oracle_floor_refuses e config amount w bad = panic_if_err _ _ _ _ (unusable-true_of config bad)

  -- The oracle answers both questions with records that pass.
  pub record Answers (e : Env) (config : VaultConfig) (w : World L) (x u : ℕ) (xt ut : ℕ)
      (w1 w2 : World L) : Type 0 where
    pub xlm_asked :
        oracle.lastprice e.this config.oracle config.xlm_asset w
        ≡ some (some (record { price = pos x; timestamp = xt }), w1)
    pub usdc_asked :
        oracle.lastprice e.this config.oracle config.usdc_asset w1
        ≡ some (some (record { price = pos u; timestamp = ut }), w2)
    pub xlm_fresh :
        IsFresh
          (h.timestamp w.ledger)
          config.max_price_age
          (record { price = pos x; timestamp = xt })
    pub usdc_fresh :
        IsFresh
          (h.timestamp w.ledger)
          config.max_price_age
          (record { price = pos u; timestamp = ut })
    pub xlm_u64 : xt < 2 ^ 64
    pub usdc_u64 : ut < 2 ^ 64

  module _ (e : Env) (config : VaultConfig) (amount : ℕ) (w : World L) (x u : ℕ) (xt ut : ℕ)
      (w1 w2 : World L) (usable : IsUsable config) (a : Answers e config w x u xt ut w1 w2) where
    abbrev keep : ℕ
    keep = ppm - config.discount_ppm

    -- What is left of `oracle_floor` once both prices are read.
    abbrev arithmetic : Outcome (World L) VaultError Floor
    arithmetic =
        (unwrap_or_panic (checked_mul (pos amount) (pos u)) overflow >>= λ product.
        unwrap_or_panic (checked_mul product (pos ppm -ℤ pos config.discount_ppm)) overflow
        >>= λ numerator. unwrap_or_panic (checked_mul (pos x) (pos ppm)) overflow >>= λ denominator.
            unwrap (div numerator denominator) >>= λ floor.
            pure (record { floor = floor; xlm_price = pos x; usdc_price = pos u }))
          w2

    oracle_floor-arithmetic : oracle_floor h oracle e config (pos amount) w ≡ arithmetic
    unfolding oracle_floor
    oracle_floor-arithmetic =
        panic_if_step _ _ _ _ (unusable-false_of config usable)
        ∙ gets_step _ _ _
        ∙ bind_step _ _ _ (
            (fresh_price_iff h oracle e config.oracle config.xlm_asset (h.timestamp w.ledger)
                config.max_price_age w _ w1 a.xlm_u64).1
              (a.xlm_asked, a.xlm_fresh))
        ∙ bind_step _ _ _ (
            (fresh_price_iff h oracle e config.oracle config.usdc_asset (h.timestamp w.ledger)
                config.max_price_age w1 _ w2 a.usdc_u64).1
              (a.usdc_asked, a.usdc_fresh))

    keep_lem : pos ppm -ℤ pos config.discount_ppm ≡ pos keep
    keep_lem = -ℤ-pos ppm config.discount_ppm (omega (arith, usable.discount_capped))

    -- With two fresh prices and products in the range of `i128`, the floor is returned.
    pub oracle_floor_returns :
        amount * u < 2 ^ 127
        → amount * u * (ppm - config.discount_ppm) < 2 ^ 127
        → x * ppm < 2 ^ 127
        → oracle_floor h oracle e config (pos amount) w
          ≡ done
              (record {
                floor = pos (amount * u * (ppm - config.discount_ppm) / (x * ppm));
                xlm_price = pos x;
                usdc_price = pos u;
              })
              w2
    unfolding pure
    oracle_floor_returns fits_product fits_numerator fits_denominator =
        oracle_floor-arithmetic
        ∙ unwrap_or_panic_step _ _ _ _ (checked_mul-pos_some amount u fits_product)
        ∙ unwrap_or_panic_step _ _ _ _
            (rw keep_lem (checked_mul-pos_some (amount * u) keep fits_numerator))
        ∙ unwrap_or_panic_step _ _ _ _ (checked_mul-pos_some x ppm fits_denominator)
        ∙ unwrap_step _ _ _ (
            div-pos (amount * u * keep) (x * ppm) fits_numerator
              (omega (arith, a.xlm_fresh.positive)))

    -- A product beyond the range of `i128` is an error: nothing wraps around.
    pub oracle_floor_overflows :
        (2 ^ 127 ≤ amount * u)
          ⊎ ((2 ^ 127 ≤ amount * u * (ppm - config.discount_ppm)) ⊎ (2 ^ 127 ≤ x * ppm))
        → oracle_floor h oracle e config (pos amount) w ≡ err overflow
    oracle_floor_overflows big = oracle_floor-arithmetic ∙ first (dec_lt (amount * u) (2 ^ 127))
      where
        second :
            amount * u < 2 ^ 127 → Dec (amount * u * keep < 2 ^ 127) → arithmetic ≡ err overflow
        second fits (no over) =
            unwrap_or_panic_step _ _ _ _ (checked_mul-pos_some amount u fits)
            ∙ unwrap_or_panic_err _ _ _ _
                (rw keep_lem (checked_mul-pos_none (amount * u) keep (omega arith)))
        second fits (yes also) =
            unwrap_or_panic_step _ _ _ _ (checked_mul-pos_some amount u fits)
            ∙ unwrap_or_panic_step _ _ _ _ {a = pos (amount * u * keep)}
                (rw keep_lem (checked_mul-pos_some (amount * u) keep also))
            ∙ unwrap_or_panic_err _ _ _ _ (checked_mul-pos_none x ppm (omega arith))

        first : Dec (amount * u < 2 ^ 127) → arithmetic ≡ err overflow
        first (yes fits) = second fits (dec_lt (amount * u * keep) (2 ^ 127))
        first (no over) = unwrap_or_panic_err _ _ _ _ (checked_mul-pos_none amount u (omega arith))
