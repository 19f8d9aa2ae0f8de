-- ===== src/Vault/FloorBounds.antt =====
-- How far the oracle floor of contracts/vault can lie from the oracle's own valuation.
use native.Mathlib.Nat.{mul-le-mul_left}
use crossmesh_ingress_contra.Prelude.{ℕ, suc, ◌-◌, ◌*◌, ◌/◌, ◌≤◌, ◌<◌, ◌≡◌, arith}
use crossmesh_ingress_contra.Int.{pos}
use crossmesh_ingress_contra.Exec.{done}
use crossmesh_ingress_contra.Interfaces.{VaultConfig, ReflectorClient}
use crossmesh_ingress_contra.Host.{Env, World, Host}
use crossmesh_ingress_contra.Vault.{ppm, Floor, oracle_floor}
use crossmesh_ingress_contra.Vault.OracleFloor.{Quoted, oracle_floor-Computed}

-- `q` is the quotient of `n` by `d`, rounded down.
div_bounds : (n d : ℕ) → 0 < d → (n / d * d ≤ n) × (n < suc (n / d) * d)
div_bounds n d h = grind arith

-- A floor of `q` XLM for `a` USDC at the prices `x` and `u`, where `k` millionths are kept.
module _ (q x a u k : ℕ) where
  floor_at_most : q * (x * ppm) ≤ a * u * k → k ≤ ppm → 0 < x → q * x ≤ a * u
  floor_at_most low kept px = grind arith

  floor_at_least : a * u * k < suc q * (x * ppm) → 900_000 ≤ k → 9 * (a * u) < 10 * (suc q * x)
  floor_at_least high kept = omega (arith, high, mul-le-mul_left (a * u) kept)

module _ {L : Type 0} (h : Host L) (oracle : ReflectorClient (World L)) where
  module _ (e : Env) (config : VaultConfig) (amount : ℕ) (w w' : World L) (f : Floor) where
    -- A floor that `oracle_floor` returns is amount × usdc_price × (PPM − discount) / (xlm_price ×
    -- PPM), rounded down, at the prices of two fresh records that the feed gave; so it can be
    -- recomputed from the prices that are returned with it.
    pub oracle_floor_rounds_down :
        oracle_floor h oracle e config (pos amount) w ≡ done f w'
        → (q x u : ℕ) × Quoted h oracle e config w x u
          × (f.floor ≡ pos q)
          × (f.xlm_price ≡ pos x)
          × (f.usdc_price ≡ pos u)
          × (q * (x * ppm) ≤ amount * u * (ppm - config.discount_ppm))
          × (amount * u * (ppm - config.discount_ppm) < suc q * (x * ppm))
    oracle_floor_rounds_down p =
        let c = (oracle_floor-Computed h oracle e config amount w).at f w' p in
        let (low, high) =
          div_bounds (amount * c.usdc * (ppm - config.discount_ppm)) (c.xlm * ppm)
            (omega (arith, c.quoted.xlm_positive)) in
        (
          _, c.xlm, c.usdc, c.quoted, c.floor.quotient, c.floor.xlm_price, c.floor.usdc_price, low,
          high,
        )

    -- Whatever configuration is passed, a floor that is returned lies between nine tenths of the
    -- amount's value at two fresh prices of the feed (less one unit, for rounding) and that value.
    pub oracle_floor_band :
        oracle_floor h oracle e config (pos amount) w ≡ done f w'
        → (q x u : ℕ) × Quoted h oracle e config w x u
          × (f.floor ≡ pos q)
          × (q * x ≤ amount * u)
          × (9 * (amount * u) < 10 * (suc q * x))
    oracle_floor_band p =
        let c = (oracle_floor-Computed h oracle e config amount w).at f w' p in
        let (q, x, u, quoted, eq, _, _, low, high) = oracle_floor_rounds_down p in
        (
          q,
          x,
          u,
          quoted,
          eq,
          floor_at_most q x amount u _ low (omega arith) quoted.xlm_positive,
          floor_at_least q x amount u _ high (omega (arith, c.usable.discount_capped)),
        )
