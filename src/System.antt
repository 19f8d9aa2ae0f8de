-- ===== src/System.antt =====
-- The contracts together: the factory's `swap` with the vaults of contracts/vault behind it.
pub mod Delivery
pub mod Conversion
pub mod Priming
pub mod Fulfilment
pub mod Liveness
use crossmesh_ingress_contra.Prelude.{Option}
use crossmesh_ingress_contra.Int.{ℤ}
use crossmesh_ingress_contra.Interfaces.{Address, Bytes, ReflectorClient, FillerClient}
use crossmesh_ingress_contra.Host.{Env, World, Host}
use crossmesh_ingress_contra.Vault
use crossmesh_ingress_contra.VaultFactory
use crossmesh_ingress_contra.VaultFactory.{Action}

module _ {L : Type 0} (h : Host L) (oracle : ReflectorClient (World L))
    (fillers : FillerClient (World L)) where
  abbrev pub settlement : Env → Address → Bytes → Option ℤ → Address → ℤ → Bytes → Action L ℤ
  settlement = VaultFactory.swap h (Vault.as_client h oracle fillers)
