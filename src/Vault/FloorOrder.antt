-- ===== src/Vault/FloorOrder.antt =====
-- How the oracle floor of contracts/vault moves with the amount and the discount.
use native.Mathlib.Nat.{mul-le-mul, mul-le-mul_right, lt_of_mul-lt-mul_right}
use crossmesh_ingress_contra.Prelude.{ℕ, suc, ◌-◌, ◌*◌, ◌≤◌, ◌<◌, ◌≡◌, refl, arith}
use crossmesh_ingress_contra.Int.{pos, ◌≤ℤ◌}
use crossmesh_ingress_contra.Exec.{done}
use crossmesh_ingress_contra.Interfaces.{VaultConfig, ReflectorClient}
use crossmesh_ingress_contra.Host.{Env, World, Host}
use crossmesh_ingress_contra.Vault.{ppm, Floor, oracle_floor}
use crossmesh_ingress_contra.Vault.OracleFloor.{Quoted}
use crossmesh_ingress_contra.Vault.FloorBounds.{oracle_floor_rounds_down}

-- `q` rounds down what is at most what `r` rounds down.
quotient_order : (q r d n m : ℕ) → q * d ≤ n → n ≤ m → m < suc r * d → q ≤ r
quotient_order q r d n m low order high =
    let below : q * d < suc r * d = omega (arith, low, order, high) in
    omega (arith, lt_of_mul-lt-mul_right d below)

-- The two roundings at one pair of prices.
floors_order :
    (q1 q2 x1 x2 u1 u2 a1 a2 d1 d2 : ℕ)
    → x1 ≡ x2
    → u1 ≡ u2
    → a1 ≤ a2
    → d2 ≤ d1
    → q1 * (x1 * ppm) ≤ a1 * u1 * (ppm - d1)
    → a2 * u2 * (ppm - d2) < suc q2 * (x2 * ppm)
    → q1 ≤ q2
floors_order q1 q2 x1 x2 u1 u2 a1 a2 d1 d2 same_x same_u amounts discounts low high =
    quotient_order q1 q2 (x2 * ppm) (a1 * u2 * (ppm - d1)) (a2 * u2 * (ppm - d2))
      (rw (← same_x, ← same_u) low) (mul-le-mul (mul-le-mul_right u2 amounts) (omega arith)) high

module _ {L : Type 0} (h : Host L) (oracle : ReflectorClient (World L)) (e : Env)
    (w : World L) where
  -- The feed gave one pair of prices.
  same_prices :
      (c1 c2 : VaultConfig) (x1 u1 x2 u2 : ℕ)
      → c1.oracle ≡ c2.oracle
      → c1.xlm_asset ≡ c2.xlm_asset
      → c1.usdc_asset ≡ c2.usdc_asset
      → Quoted h oracle e c1 w x1 u1
      → Quoted h oracle e c2 w x2 u2
      → (x1 ≡ x2) × (u1 ≡ u2)
  same_prices c1 c2 x1 u1 x2 u2 feed xlm usdc a b = (cc, cc)

  -- At one moment, a larger amount or a smaller discount never lowers the floor.
  pub oracle_floor_monotone :
      (config : VaultConfig) (d1 d2 a1 a2 : ℕ) (w1 w2 : World L) (f1 f2 : Floor)
      → d2 ≤ d1
      → a1 ≤ a2
      → oracle_floor h oracle e (record config { discount_ppm = d1 }) (pos a1) w ≡ done f1 w1
      → oracle_floor h oracle e (record config { discount_ppm = d2 }) (pos a2) w ≡ done f2 w2
      → f1.floor ≤ℤ f2.floor
  oracle_floor_monotone config d1 d2 a1 a2 w1 w2 f1 f2 discounts amounts p1 p2 =
      let (q1, x1, u1, quoted1, floor1, _, _, low, _) =
        oracle_floor_rounds_down h oracle e (record config { discount_ppm = d1 }) a1 w w1 f1 p1 in
      let (q2, x2, u2, quoted2, floor2, _, _, _, high) =
        oracle_floor_rounds_down h oracle e (record config { discount_ppm = d2 }) a2 w w2 f2 p2 in
      let (same_x, same_u) =
        same_prices (record config { discount_ppm = d1 }) (record config { discount_ppm = d2 }) x1
          u1 x2 u2 refl refl refl quoted1 quoted2 in
      let order =
        floors_order q1 q2 x1 x2 u1 u2 a1 a2 d1 d2 same_x same_u amounts discounts low high in
      rw (floor1, floor2) (omega (arith, order))
