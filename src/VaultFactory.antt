-- ===== src/VaultFactory.antt =====
-- contracts/vault-factory: the configuration, the relayers, the deployment of vaults, and the only
-- way into a vault's `swap`. `e` is the frame that the factory runs in; the host and the vaults that
-- it calls are parameters. The host forbids re-entry, so a call that the factory makes cannot reach
-- the factory's own storage: it runs on the rest of the state.
pub mod Rules
pub mod Construction
pub mod Administration
pub mod Governance
pub mod Deployment
pub mod Settlement
pub mod Complete
pub mod Refusals
pub mod Reachability
pub mod Log
pub mod Order
use mathlib.Core.Option.{get_or}
use crossmesh_ingress_contra.Prelude.{
  ℕ, Bool, true, false, ◌||◌, not, Option, none, some, ltb, ◌==◌, if◌then◌else◌,
}
use crossmesh_ingress_contra.Int.{ℤ, pos, leb_ℤ}
use crossmesh_ingress_contra.Exec.{
  Exec, Call, pure, gets, panic_if, unwrap, call, modify, ◌>>=◌, ◌>>◌,
}
use crossmesh_ingress_contra.Interfaces.{
  Address, Hash, Bytes, VaultConfig, discount_cap_ppm, max_price_age_cap, VaultClient,
}
use crossmesh_ingress_contra.Events.{deployed, relayer_set, discount_set, admin_set}
use crossmesh_ingress_contra.Host.{Env, World, Host, MuxedAddress}
use crossmesh_ingress_contra.Instance.{Instance, on_world, store, emit}

pub data FactoryError : Type 0 where
  not_relayer invalid_config above_cap : FactoryError

-- The instance storage: one field for each `DataKey`, `none` where nothing is stored.
pub record Storage : Type 0 where
  pub admin : Option Address
  pub config : Option VaultConfig
  pub discount : Option ℕ
  pub relayer : Address → Option Bool

abbrev pub empty_storage : Storage
empty_storage = record { admin = none; config = none; discount = none; relayer = λ _. none }

-- `set(&DataKey::Relayer(addr), &true)` and `remove(&DataKey::Relayer(addr))`
abbrev pub write_relayer : Storage → Address → Option Bool → Storage
write_relayer s addr v = record s { relayer = λ a. if a == addr then v else s.relayer a }

-- The rest of the state, and the factory's own storage.
abbrev pub State : Type 0 → Type 0
State L = Instance L Storage

-- The test that the constructor makes.
unfoldable pub invalid : VaultConfig → Bool
invalid config =
    ltb discount_cap_ppm config.discount_ppm
    || (config.max_price_age == 0)
    || ltb max_price_age_cap config.max_price_age
    || leb_ℤ config.min_delivery (pos 0)
    || (config.usdc == config.xlm)
    || (config.oracle == config.usdc)
    || (config.oracle == config.xlm)

-- The stored configuration with the admin's discount, if one was set.
abbrev pub in_force : VaultConfig → Option ℕ → VaultConfig
in_force config none = config
in_force config (some d) = record config { discount_ppm = d }

abbrev pub Action : Type 0 → Type 0 → Type 0
Action L A = Exec (State L) FactoryError A

module _ {L : Type 0} where
  unfoldable pub read_admin : Action L Address
  read_admin = do stored ← gets (λ s. s.storage.admin); unwrap stored

  unfoldable pub read_config : Action L VaultConfig
  read_config = do
    stored ← gets (λ s. s.storage.config)
    config ← unwrap stored
    discount ← gets (λ s. s.storage.discount)
    pure (in_force config discount)

  unfoldable pub is_relayer : Address → Action L Bool
  is_relayer addr = gets (λ s. get_or (s.storage.relayer addr) false)

  -- `__constructor`
  unfoldable pub constructor : Env → Address → VaultConfig → Action L Unit
  constructor e admin config = do
    panic_if (invalid config) invalid_config
    store (λ s. record s { admin = some admin })
    store (λ s. record s { config = some config })
    pure tt

  -- the entry points `is_relayer`, `admin` and `config`
  unfoldable pub is_relayer_of : Address → Action L Bool
  is_relayer_of addr = is_relayer addr

  unfoldable pub admin_of : Action L Address
  admin_of = read_admin

  unfoldable pub config_of : Action L VaultConfig
  config_of = read_config

module _ {L : Type 0} (h : Host L) where
  abbrev pub salt : Bytes → Hash
  salt owner = h.sha256 owner

  abbrev pub derive_address : Env → Bytes → Address
  derive_address e owner = h.deployed_address e.this (salt owner)

  unfoldable pub parse_owner : Bytes → Action L MuxedAddress
  parse_owner owner = unwrap (h.from_string_bytes owner)

  unfoldable pub vault_address : Env → Bytes → Action L Address
  vault_address e owner = do _parsed ← parse_owner owner; pure (derive_address e owner)

  -- The part of `deploy` for an address where nothing is deployed.
  unfoldable pub deploy_missing : Env → Bytes → VaultConfig → MuxedAddress → Action L Address
  deploy_missing e owner config muxed = do
    vault ← call (on_world (h.deploy_contract e.this (salt owner) config.vault_wasm_hash))
    emit e (deployed (record { owner = muxed.address; owner_strkey = owner; vault = vault }))
    pure vault

  unfoldable pub deploy : Env → Bytes → Action L Address
  deploy e owner = do
    config ← read_config
    muxed ← parse_owner owner
    let address = derive_address e owner
    found ← gets (λ s. h.exists address s.world.ledger)
    if found then pure address else deploy_missing e owner config muxed

  unfoldable pub set_relayer : Env → Address → Bool → Action L Unit
  set_relayer e addr enabled = do
    admin ← read_admin
    call (on_world (h.require_auth e admin))
    store (λ s. write_relayer s addr (if enabled then some true else none))
    emit e (relayer_set (record { relayer = addr; enabled = enabled }))
    pure tt

  unfoldable pub set_discount : Env → ℕ → Action L Unit
  set_discount e discount_ppm = do
    admin ← read_admin
    call (on_world (h.require_auth e admin))
    panic_if (ltb discount_cap_ppm discount_ppm) above_cap
    store (λ s. record s { discount = some discount_ppm })
    emit e (discount_set (record { discount_ppm = discount_ppm }))
    pure tt

  unfoldable pub set_admin : Env → Address → Action L Unit
  set_admin e new_admin = do
    admin ← read_admin
    call (on_world (h.require_auth e admin))
    call (on_world (h.require_auth e new_admin))
    store (λ s. record s { admin = some new_admin })
    emit e (admin_set (record { admin = new_admin }))
    pure tt

  -- `None` stands for the vault's whole balance of the token.
  unfoldable pub amount_or_balance : Env → Address → Address → Option ℤ → Action L ℤ
  amount_or_balance e token vault (some a) = pure a
  amount_or_balance e token vault none = call (on_world (h.balance e.this token vault))

  module _ (vaults : VaultClient (World L)) where
    unfoldable pub settle : Env → Address → Bytes → Option ℤ → Address → ℤ → Bytes → Action L ℤ
    settle e relayer owner amount filler min_out hint = do
      config ← read_config
      vault ← deploy e owner
      n ← amount_or_balance e config.usdc vault amount
      out ←
          call
            (on_world (vaults.swap e.this vault owner e.this relayer filler n min_out hint config))
      pure out

    unfoldable pub swap : Env → Address → Bytes → Option ℤ → Address → ℤ → Bytes → Action L ℤ
    swap e relayer owner amount filler min_out hint = do
      call (on_world (h.require_auth e relayer))
      enabled ← is_relayer relayer
      panic_if (not enabled) not_relayer
      settle e relayer owner amount filler min_out hint
