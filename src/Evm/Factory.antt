-- ===== src/Evm/Factory.antt =====
-- src/DepositFactory.sol: the clones at addresses that their recipients determine. `f` is the frame
-- of the factory, and `implementation` the shared code that its clones run, which reads the
-- contract of Config.antt.
pub mod Deploying
pub mod Relaying
pub mod Delivering
use mathlib.Core.List.{◌++◌}
use crossmesh_ingress_contra.Prelude.{ℕ, ◌-◌, ◌%◌, Bool, ◌||◌, [], ◌∷◌, ltb, ◌==◌, if◌then◌else◌}
use crossmesh_ingress_contra.Exec.{pure, gets, call, ◌>>=◌, ◌>>◌}
use crossmesh_ingress_contra.Interfaces.{Address, Hash, Bytes}
use crossmesh_ingress_contra.Evm.{
  implementation_not_a_contract, not_operator, forwarder_deployed, flush_relayed, Frame, Action,
  require, in_world, emit,
}
use crossmesh_ingress_contra.Evm.Word.{length, replicate, big_endian}
use crossmesh_ingress_contra.Evm.Network.{Network}
use crossmesh_ingress_contra.Evm.Forwarder.{recipient, fast, flush}

unfoldable pub args_of : Bytes → Bool → Bytes
args_of recipient fast = recipient ++ (if fast then 1 else 0) ∷ []

-- `abi.encode(bytes, uint256)`: the offset of the bytes, the index, the length, and the bytes
-- padded to whole words.
unfoldable pub abi_encode : Bytes → ℕ → Bytes
abi_encode recipient index =
    big_endian 32 64
    ++ big_endian 32 index
    ++ big_endian 32 (length recipient)
    ++ recipient
    ++ replicate ((32 - length recipient % 32) % 32) 0

-- The constructor: what it returns is the immutable `implementation`.
unfoldable pub constructor : {W : Type 0} → Network W → Address → Action W Address
constructor n implementation = do
  w ← gets (λ s. s.world)
  require (ltb 0 (n.code_length implementation w)) implementation_not_a_contract
  pure implementation

module _ {W : Type 0} (n : Network W) (implementation : Address) where
  abbrev pub salt_of : Bytes → ℕ → Hash
  salt_of recipient index = n.keccak256 (abi_encode recipient index)

  unfoldable pub compute_address : Frame → Bytes → ℕ → Bool → Address
  compute_address f recipient index fast =
      n.clones.predict implementation (args_of recipient fast) (salt_of recipient index) f.this

  unfoldable pub is_deployed : Frame → Bytes → ℕ → Bool → Action W Bool
  is_deployed f recipient index fast =
      gets (λ s. ltb 0 (n.code_length (compute_address f recipient index fast) s.world))

  -- The part of `deploy` for an address without code.
  unfoldable pub create : Frame → Bytes → ℕ → Bool → Action W Address
  create f recipient index fast = do
    forwarder ← call (
        in_world (
          n.clones.clone_deterministic implementation (args_of recipient fast)
            (salt_of recipient index) f.this))
    emit f (forwarder_deployed forwarder recipient index fast)
    pure forwarder

  unfoldable pub deploy : Frame → Bytes → ℕ → Bool → Action W Address
  deploy f recipient index fast = do
    w ← gets (λ s. s.world)
    let forwarder = compute_address f recipient index fast
    if n.code_length forwarder w == 0 then create f recipient index fast else pure forwarder

  -- The clone sees this factory as its caller.
  unfoldable pub deploy_and_flush : Frame → Bytes → ℕ → Bool → Action W Address
  deploy_and_flush f recipient index fast = do
    forwarder ← deploy f recipient index fast
    c ← gets (λ s. s.config)
    require (c.is_operator f.sender || c.public_flush) not_operator
    emit f (flush_relayed f.sender forwarder)
    flush n implementation (record { this = forwarder; sender = f.this; timestamp = f.timestamp })
    pure forwarder
