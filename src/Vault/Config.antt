-- ===== src/Vault/Config.antt =====
-- The configurations that a vault accepts.
use crossmesh_ingress_contra.Prelude.{◌≤◌, ◌<◌, ◌≡◌, ◌≢◌, inl, inr, false, true, arith, Bool-cases}
use crossmesh_ingress_contra.Int.{pos, ◌≤ℤ◌}
use crossmesh_ingress_contra.Interfaces.{VaultConfig, discount_cap_ppm, max_price_age_cap}
use crossmesh_ingress_contra.Vault.{unusable}

-- The bounds that the code fixes, on the configuration `config`.
pub record IsUsable (config : VaultConfig) : Type 0 where
  pub discount_capped : config.discount_ppm ≤ discount_cap_ppm
  pub age_positive : 0 < config.max_price_age
  pub age_capped : config.max_price_age ≤ max_price_age_cap
  pub delivery_positive : pos 1 ≤ℤ config.min_delivery
  pub two_assets : config.usdc ≢ config.xlm

pub unusable-false : (config : VaultConfig) → unusable config ≡ false → IsUsable config
unfolding unusable
unusable-false config h = ground arith

pub unusable-false_of : (config : VaultConfig) → IsUsable config → unusable config ≡ false
unfolding unusable
unusable-false_of config u = ground arith

pub unusable-true_of : (config : VaultConfig) → ¬ IsUsable config → unusable config ≡ true
unusable-true_of config u = elim (Bool-cases (unusable config)) [
  | inl refused ↦ refused
  | inr passed ↦ absurd (u (unusable-false config passed))
]
