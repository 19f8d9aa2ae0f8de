-- ===== src/Vault/OracleFloor.antt =====
-- `oracle_floor` of contracts/vault.
use crossmesh_ingress_contra.Prelude.{
  ℕ, suc, ◌-◌, ◌*◌, ◌/◌, ◌^◌, ◌<◌, ◌≡◌, refl, sym, ◌∙◌, false, some, arith,
}
use mathlib.Core.Option.{some-injective}
use crossmesh_ingress_contra.Int.{ℤ, pos, ◌-ℤ◌, ◌≤ℤ◌, -ℤ-pos, pos_of_lt}
use crossmesh_ingress_contra.Int.Checked.{checked_mul, div}
use crossmesh_ingress_contra.Int.Bounds.{checked_mul-pos, div-pos}
use crossmesh_ingress_contra.Exec.Ensures.{
  Ensures, Ensures-bind, Ensures-gets, Ensures-unwrap, Ensures-unwrap_or_panic, Ensures-panic_if,
  Ensures-pure,
}
use crossmesh_ingress_contra.Interfaces.{VaultConfig, PriceData, ReflectorClient}
use crossmesh_ingress_contra.Host.{Env, World, Host}
use crossmesh_ingress_contra.Vault.{ppm, Floor, unusable, oracle_floor}
use crossmesh_ingress_contra.Vault.Config.{IsUsable, unusable-false}
use crossmesh_ingress_contra.Vault.Price.{IsFresh, Answered, fresh_price-Answered}

-- The numbers behind a floor for `amount` at the prices `x` and `u`: the share of a million that is
-- kept, and the quotient, with both products in the range of `i128`.
pub record IsFloor (config : VaultConfig) (amount x u : ℕ) (f : Floor) : Type 0 where
  pub xlm_price : f.xlm_price ≡ pos x
  pub usdc_price : f.usdc_price ≡ pos u
  pub quotient : f.floor ≡ pos (amount * u * (ppm - config.discount_ppm) / (x * ppm))
  pub numerator_fits : amount * u * (ppm - config.discount_ppm) < 2 ^ 127
  pub denominator_fits : x * ppm < 2 ^ 127

-- The feed, asked for both assets one after the other from the state `w`, answered with fresh
-- records at the prices `x` and `u`.
pub record Quoted {L : Type 0} (h : Host L) (oracle : ReflectorClient (World L)) (e : Env)
    (config : VaultConfig) (w : World L) (x u : ℕ) : Type 0 where
  pub xlm_record : PriceData
  pub usdc_record : PriceData
  pub w1 : World L
  pub w2 : World L
  pub xlm_asked :
      oracle.lastprice e.this config.oracle config.xlm_asset w ≡ some (some xlm_record, w1)
  pub usdc_asked :
      oracle.lastprice e.this config.oracle config.usdc_asset w1 ≡ some (some usdc_record, w2)
  pub xlm_fresh : IsFresh (h.timestamp w.ledger) config.max_price_age xlm_record
  pub usdc_fresh : IsFresh (h.timestamp w.ledger) config.max_price_age usdc_record
  pub xlm_read : xlm_record.price ≡ pos x
  pub usdc_read : usdc_record.price ≡ pos u
  pub xlm_positive : 0 < x
  pub usdc_positive : 0 < u

-- What a floor that was returned rests on.
pub record Computed {L : Type 0} (h : Host L) (oracle : ReflectorClient (World L)) (e : Env)
    (config : VaultConfig) (amount : ℕ) (w : World L) (f : Floor) : Type 0 where
  pub xlm : ℕ
  pub usdc : ℕ
  pub usable : IsUsable config
  pub quoted : Quoted h oracle e config w xlm usdc
  pub floor : IsFloor config amount xlm usdc f

-- A positive price, as a number.
pub price_number : (z : ℤ) → pos 1 ≤ℤ z → (n : ℕ) × (z ≡ pos (suc n))
price_number z h = pos_of_lt z (ground arith)

module _ (config : VaultConfig) (amount x u : ℕ) (usable : IsUsable config) where
  abbrev keep : ℕ
  keep = ppm - config.discount_ppm

  keep_lem : pos ppm -ℤ pos config.discount_ppm ≡ pos keep
  keep_lem = -ℤ-pos ppm config.discount_ppm (omega arith)

  IsFloor-of_products :
      {product numerator denominator floor : ℤ}
      → checked_mul (pos amount) (pos (suc u)) ≡ some product
      → checked_mul product (pos ppm -ℤ pos config.discount_ppm) ≡ some numerator
      → checked_mul (pos (suc x)) (pos ppm) ≡ some denominator
      → div numerator denominator ≡ some floor
      → IsFloor config amount
          (suc x)
          (suc u)
          (record { floor = floor; xlm_price = pos (suc x); usdc_price = pos (suc u) })
  IsFloor-of_products {product} {numerator} {denominator} {floor} p n d q = record {
    xlm_price = refl;
    usdc_price = refl;
    quotient = some-injective _ _ (sym q ∙ divided);
    numerator_fits = n_lem.1;
    denominator_fits = d_lem.1;
  }
    where
      p_lem : (product ≡ pos (amount * suc u)) × (amount * suc u < 2 ^ 127)
      p_lem = checked_mul-pos amount (suc u) p

      n_lem : (numerator ≡ pos (amount * suc u * keep)) × (amount * suc u * keep < 2 ^ 127)
      n_lem = checked_mul-pos (amount * suc u) keep (rw (p_lem.0, keep_lem) at n)

      d_lem : (denominator ≡ pos (suc x * ppm)) × (suc x * ppm < 2 ^ 127)
      d_lem = checked_mul-pos (suc x) ppm d

      divided : div numerator denominator ≡ some (pos (amount * suc u * keep / (suc x * ppm)))
      divided = rw (n_lem.0, d_lem.0) (div-pos _ _ n_lem.1 (omega arith))

module _ {L : Type 0} (h : Host L) (oracle : ReflectorClient (World L)) where
  module _ (e : Env) (config : VaultConfig) (amount : ℕ) (w : World L) where
    -- A floor that is returned was computed from two fresh records under a usable configuration.
    pub oracle_floor-Computed :
        Ensures
          (λ f _. Computed h oracle e config amount w f)
          (oracle_floor h oracle e config (pos amount) w)
    unfolding oracle_floor
    oracle_floor-Computed = Ensures-panic_if _ _ _ _ _ λ passed. Ensures-gets _ _ _ _ (
        Ensures-bind _ _ _ _ _ (fresh_price-Answered h oracle e _ _ _ _ _) λ x w1 px.
          Ensures-bind _ _ _ _ _ (fresh_price-Answered h oracle e _ _ _ _ _) λ u w2 pu.
            Ensures-unwrap_or_panic _ _ _ _ _ λ product p.
              Ensures-unwrap_or_panic _ _ _ _ _ λ numerator n.
                Ensures-unwrap_or_panic _ _ _ _ _ λ denominator d.
                  Ensures-unwrap _ _ _ _
                    λ floor q. Ensures-pure _ _ _ (computed passed x u w1 w2 px pu p n d q))
      where
        computed :
            unusable config ≡ false
            → (x u : PriceData) (w1 w2 : World L)
            → Answered h oracle e config.oracle config.xlm_asset
                (h.timestamp w.ledger)
                config.max_price_age
                w
                x
                w1
            → Answered h oracle e config.oracle config.usdc_asset
                (h.timestamp w.ledger)
                config.max_price_age
                w1
                u
                w2
            → {product numerator denominator floor : ℤ}
            → checked_mul (pos amount) u.price ≡ some product
            → checked_mul product (pos ppm -ℤ pos config.discount_ppm) ≡ some numerator
            → checked_mul x.price (pos ppm) ≡ some denominator
            → div numerator denominator ≡ some floor
            → Computed h oracle e config amount w
                (record { floor = floor; xlm_price = x.price; usdc_price = u.price })
        computed passed x u w1 w2 px pu p n d q =
            let usable = unusable-false config passed in
            let (xn, xe) = price_number x.price px.1.positive in
            let (un, ue) = price_number u.price pu.1.positive in
            record {
              xlm = suc xn;
              usdc = suc un;
              usable = usable;
              quoted = record {
                xlm_record = x;
                usdc_record = u;
                w1 = w1;
                w2 = w2;
                xlm_asked = px.0;
                usdc_asked = pu.0;
                xlm_fresh = px.1;
                usdc_fresh = pu.1;
                xlm_read = xe;
                usdc_read = ue;
                xlm_positive = omega arith;
                usdc_positive = omega arith;
              };
              floor =
                  rw (xe, ue)
                    (IsFloor-of_products config amount xn un usable (rw ue at p) n (rw xe at d) q);
            }
