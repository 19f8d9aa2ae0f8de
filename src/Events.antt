-- ===== src/Events.antt =====
-- The events that the three contracts publish. Each struct stands in the contract's own source.
use crossmesh_ingress_contra.Prelude.{ℕ, Bool}
use crossmesh_ingress_contra.Int.{ℤ}
use crossmesh_ingress_contra.Interfaces.{Address, Bytes}

-- contracts/vault
pub record Swapped : Type 0 where
  pub owner : Address
  pub owner_strkey : Bytes
  pub relayer : Address
  pub filler : Address
  pub amount_in : ℤ
  pub amount_out : ℤ
  pub paid_out : ℤ
  pub floor : ℤ
  pub want : ℤ
  pub xlm_price : ℤ
  pub usdc_price : ℤ
  pub discount_ppm : ℕ

pub record Withdrawn : Type 0 where
  pub owner : Address
  pub owner_strkey : Bytes
  pub token : Address
  pub amount : ℤ

-- contracts/vault-factory
pub record Deployed : Type 0 where
  pub owner : Address
  pub owner_strkey : Bytes
  pub vault : Address

pub record RelayerSet : Type 0 where
  pub relayer : Address
  pub enabled : Bool

pub record DiscountSet : Type 0 where
  pub discount_ppm : ℕ

pub record AdminSet : Type 0 where
  pub admin : Address

-- contracts/aquarius-filler
pub record Filled : Type 0 where
  pub recipient : Address
  pub token_in : Address
  pub token_out : Address
  pub amount_in : ℤ
  pub amount_out : ℤ

pub data Event : Type 0 where
  swapped : Swapped → Event
  withdrawn : Withdrawn → Event
  deployed : Deployed → Event
  relayer_set : RelayerSet → Event
  discount_set : DiscountSet → Event
  admin_set : AdminSet → Event
  filled : Filled → Event
