-- ===== src/Host.antt =====
-- What the contracts take from the Soroban host and its SDK: the environment of a call, and the
-- host's functions as a parameter. `L` is the host's state: ledger entries, token balances, the
-- storage of other contracts, and the authorizations of the transaction.
pub mod Assets
pub mod Log
use crossmesh_ingress_contra.Prelude.{ℕ, Bool, Option, List, ◌∷◌, none}
use crossmesh_ingress_contra.Int.{ℤ}
use crossmesh_ingress_contra.Interfaces.{Address, Hash, Bytes, RawHop}
use crossmesh_ingress_contra.Events.{Event}
use crossmesh_ingress_contra.Exec.{Call}

-- The frame that a contract function runs in: `current_contract_address()`, and the contract that
-- called it, if one did.
pub record Env : Type 0 where
  pub this : Address
  pub invoker : Option Address

abbrev pub frame : Address → Option Address → Env
frame this invoker = record { this = this; invoker = invoker }

-- A G, M or C strkey: an account or contract, with the id of an M address.
pub record MuxedAddress : Type 0 where
  pub address : Address
  pub id : Option ℕ

-- `MuxedAddress::from`
abbrev pub muxed_from : Address → MuxedAddress
muxed_from a = record { address = a; id = none }

pub data Executable : Type 0 where
  wasm : Hash → Executable
  stellar_asset : Executable
  account : Executable

-- `InvokerContractAuthEntry`: one call of `transfer` with these arguments, and nothing below it.
pub record TransferAuth : Type 0 where
  pub contract : Address
  pub from : Address
  pub to : Address
  pub amount : ℤ

-- What `Vec::from_xdr` makes of bytes.
pub data Decoded : Type 0 where
  not_xdr : Decoded
  other_value : Decoded
  hops : List RawHop → Decoded

-- The host's state, and the events of the transaction with the contract that published each, the
-- newest first.
pub record World (L : Type 0) : Type 0 where
  pub ledger : L
  pub events : List (Address × Event)

abbrev pub publish : {L : Type 0} → Env → Event → World L → World L
publish e event w = record w { events = (e.this, event) ∷ w.events }

-- A token call takes the calling contract, the token, and the call's arguments.
pub record Host (L : Type 0) : Type 0 where
  pub sha256 : Bytes → Hash
  pub deployed_address : Address → Hash → Address
  pub from_string_bytes : Bytes → Option MuxedAddress
  pub timestamp : L → ℕ
  pub exists : Address → L → Bool
  pub executable : Address → L → Option Executable
  pub require_auth : Env → Address → Call (World L) Unit
  pub deploy_contract : Address → Hash → Hash → Call (World L) Address
  pub balance : Address → Address → Address → Call (World L) ℤ
  pub transfer : Address → Address → Address → MuxedAddress → ℤ → Call (World L) Unit
  pub authorize_as_current_contract : Address → List TransferAuth → Call (World L) Unit
  pub from_xdr : Bytes → Decoded
