-- ===== src/Evm/Network.antt =====
-- What the EVM contracts call outside this repository: token contracts, Circle's CCTP contracts,
-- OpenZeppelin's Clones library, keccak-256, and what the chain says of an address. `W` is the state
-- of all that. A read that reverts is `none`, and so is a call that does.
pub mod Ledger
use crossmesh_ingress_contra.Prelude.{ℕ, Bool, Option}
use crossmesh_ingress_contra.Exec.{Call}
use crossmesh_ingress_contra.Interfaces.{Address, Hash, Bytes}

-- The arguments of `depositForBurnWithHook`.
pub record Burn : Type 0 where
  pub amount : ℕ
  pub destination_domain : ℕ
  pub mint_recipient : ℕ
  pub burn_token : Address
  pub destination_caller : ℕ
  pub max_fee : ℕ
  pub min_finality_threshold : ℕ
  pub hook_data : Bytes

-- `ITokenMessengerV2` and `ITokenMessengerV2MinFee`: the messenger called comes first, and the
-- caller before it where the call changes something.
pub record TokenMessengerV2 (W : Type 0) : Type 0 where
  pub deposit_for_burn_with_hook : Address → Address → Burn → Call W Unit
  pub local_minter : Address → W → Option Address
  pub message_body_version : Address → W → Option ℕ
  pub remote_token_messengers : Address → ℕ → W → Option ℕ
  -- the raw outcome of the `staticcall`: whether it succeeded, and the bytes that it returned
  pub get_min_fee_amount : Address → ℕ → W → Bool × Bytes

-- `ITokenMinter`
pub record TokenMinter (W : Type 0) : Type 0 where
  pub burn_limits_per_message : Address → Address → W → Option ℕ

-- `IERC20`, with `SafeERC20.safeTransfer`: the caller and the token come first.
pub record Erc20 (W : Type 0) : Type 0 where
  pub balance_of : Address → Address → W → Option ℕ
  pub safe_transfer : Address → Address → Address → ℕ → Call W Unit
  pub approve : Address → Address → Address → ℕ → Call W Bool

-- OpenZeppelin's Clones: the implementation, the arguments, the salt and the deployer.
pub record Clones (W : Type 0) : Type 0 where
  pub fetch_clone_args : Address → W → Option Bytes
  pub predict : Address → Bytes → Hash → Address → Address
  pub clone_deterministic : Address → Bytes → Hash → Address → Call W Address

pub record Network (W : Type 0) : Type 0 where
  pub code_length : Address → W → ℕ
  pub native_balance : Address → W → ℕ
  pub keccak256 : Bytes → Hash
  pub token : Erc20 W
  pub messenger : TokenMessengerV2 W
  pub minter : TokenMinter W
  pub clones : Clones W
  -- `IFactoryWiring.implementation` and `IForwarderWiring.config`
  pub implementation : Address → W → Option Address
  pub config : Address → W → Option Address
