-- ===== src/VaultFactory/Refusals.antt =====
-- How `deploy` and `swap` of contracts/vault-factory fail.
use mathlib.Core.Path.{subst}
use crossmesh_ingress_contra.Prelude.{◌≡◌, refl, sym, ap, ◌∙◌, not, true, false, Option, none, some}
use crossmesh_ingress_contra.Int.{ℤ}
use crossmesh_ingress_contra.Exec.{Outcome, done, trap, call, ◌>>=◌}
use crossmesh_ingress_contra.Exec.Steps.{
  bind_step, bind_trap, call_step, call_trap, gets_step, unwrap_step, unwrap_trap, panic_if_step,
  if_not_step,
}
use crossmesh_ingress_contra.Interfaces.{Address, Bytes, VaultConfig, VaultClient}
use crossmesh_ingress_contra.Host.{Env, World, Host, MuxedAddress}
use crossmesh_ingress_contra.Instance.Rules.{on_world_returns, on_world_fails}
use crossmesh_ingress_contra.VaultFactory.{
  State, FactoryError, in_force, derive_address, read_config, parse_owner, deploy_missing, deploy,
  is_relayer, amount_or_balance, settle, swap,
}
use crossmesh_ingress_contra.VaultFactory.Complete.{amount_returns}
use crossmesh_ingress_contra.VaultFactory.Deployment.{in_force_wasm}
use crossmesh_ingress_contra.VaultFactory.Rules.{read_config_returns}
use crossmesh_ingress_contra.VaultFactory.Settlement.{
  AmountOf, Refused, swap_refuses_others, in_force_usdc, answer,
}

module _ {L : Type 0} (h : Host L) (e : Env) (owner : Bytes) (s : State L) where
  pub data DeployFails : Type 0 where
    not_set_up : s.storage.config ≡ none → DeployFails
    malformed :
        (c : VaultConfig)
        → s.storage.config ≡ some c
        → h.from_string_bytes owner ≡ none
        → DeployFails
    undeployable :
        (c : VaultConfig) (m : MuxedAddress)
        → s.storage.config ≡ some c
        → h.from_string_bytes owner ≡ some m
        → h.exists (derive_address h e owner) s.world.ledger ≡ false
        → h.deploy_contract e.this (h.sha256 owner) c.vault_wasm_hash s.world ≡ none
        → DeployFails

  unconfigured : s.storage.config ≡ none → read_config s ≡ trap
  unfolding read_config ◌>>=◌
  unconfigured p = rw p refl

  deploy_missing_fails :
      (c : VaultConfig) (m : MuxedAddress)
      → h.deploy_contract e.this (h.sha256 owner) c.vault_wasm_hash s.world ≡ none
      → deploy_missing h e owner c m s ≡ trap
  unfolding deploy_missing
  deploy_missing_fails c m p =
      call_trap _ _ _
        (on_world_fails (h.deploy_contract e.this (h.sha256 owner) c.vault_wasm_hash) s p)

  deploy_fails : DeployFails → deploy h e owner s ≡ trap
  unfolding deploy parse_owner
  deploy_fails (not_set_up p) = bind_trap _ _ _ (unconfigured p)
  deploy_fails (malformed c stored p) =
      bind_step _ _ _ (read_config_returns s stored) ∙ unwrap_trap _ _ _ p
  deploy_fails (undeployable c m stored parsed missing p) =
      bind_step _ _ _ (read_config_returns s stored)
      ∙ unwrap_step _ _ _ parsed
      ∙ gets_step _ _ _
      ∙ if_not_step _ _ _ s missing
      ∙ deploy_missing_fails (in_force c s.storage.discount) m (rw in_force_wasm p)

module _ {L : Type 0} (h : Host L) (vaults : VaultClient (World L)) (e : Env) (relayer : Address)
    (owner : Bytes) (amount : Option ℤ) (filler : Address) (min_out : ℤ) (hint : Bytes) where
  pub data SettleFails (s : State L) : Type 0 where
    no_vault : DeployFails h e owner s → SettleFails s
    unreadable :
        (c : VaultConfig) (vault : Address) (d : State L)
        → s.storage.config ≡ some c
        → deploy h e owner s ≡ done vault d
        → amount ≡ none
        → h.balance e.this c.usdc vault d.world ≡ none
        → SettleFails s
    vault_refuses :
        (c : VaultConfig) (vault : Address) (n : ℤ) (d d' : State L)
        → s.storage.config ≡ some c
        → deploy h e owner s ≡ done vault d
        → AmountOf h vaults e relayer owner amount filler min_out hint amount c.usdc vault d n d'
        → vaults.swap e.this vault owner e.this relayer filler n min_out hint
            (in_force c s.storage.discount)
            d'.world
          ≡ none
        → SettleFails s

  pub data SettlementFails (s : State L) : Outcome (State L) FactoryError ℤ → Type 0 where
    refused :
        (o : Outcome (State L) FactoryError ℤ)
        → Refused h vaults e relayer owner amount filler min_out hint s o
        → SettlementFails s o
    stopped :
        (w : World L)
        → h.require_auth e relayer s.world ≡ some (tt, w)
        → is_relayer relayer s ≡ done true s
        → SettleFails (record s { world = w })
        → SettlementFails s trap

  unread :
      (token vault : Address) (d : State L)
      → h.balance e.this token vault d.world ≡ none
      → amount_or_balance h e token vault none d ≡ trap
  unfolding amount_or_balance call
  unread token vault d p = rw (on_world_fails (h.balance e.this token vault) d p) refl

  settle_fails :
      (s : State L)
      → SettleFails s
      → settle h vaults e relayer owner amount filler min_out hint s ≡ trap
  unfolding settle
  settle_fails s (no_vault (not_set_up p)) = bind_trap _ _ _ (unconfigured h e owner s p)
  settle_fails s (no_vault (malformed c stored p)) =
      bind_step _ _ _ (read_config_returns s stored)
      ∙ bind_trap _ _ _ (deploy_fails h e owner s (malformed c stored p))
  settle_fails s (no_vault (undeployable c m stored parsed missing p)) =
      bind_step _ _ _ (read_config_returns s stored)
      ∙ bind_trap _ _ _ (deploy_fails h e owner s (undeployable c m stored parsed missing p))
  settle_fails s (unreadable c vault d stored deployed whole p) =
      bind_step _ _ _ (read_config_returns s stored)
      ∙ bind_step _ _ _ deployed
      ∙ bind_trap _ _ _ (
          ap (λ a. amount_or_balance h e (in_force c s.storage.discount).usdc vault a d) whole
          ∙ unread (in_force c s.storage.discount).usdc vault d (
              ap (λ token. h.balance e.this token vault d.world)
                (in_force_usdc h vaults e relayer owner amount filler min_out hint c
                  s.storage.discount)
              ∙ p))
  settle_fails s (vault_refuses c vault n d d' stored deployed chosen p) =
      bind_step _ _ _ (read_config_returns s stored)
      ∙ bind_step _ _ _ deployed
      ∙ bind_step _ _ _ (
          amount_returns h vaults e relayer owner amount filler min_out hint amount _ vault d n d' (
            subst
              (λ token.
                AmountOf h vaults e relayer owner amount filler min_out hint amount token vault d n
                  d')
              (sym (
                in_force_usdc h vaults e relayer owner amount filler min_out hint c
                  s.storage.discount))
              chosen))
      ∙ call_trap _ _ _ (
          on_world_fails
            (vaults.swap e.this vault owner e.this relayer filler n min_out hint
              (in_force c s.storage.discount))
            d' p)

  -- How a settlement fails, in the order of its steps. Without the relayer's signature it traps, and
  -- an address that the factory does not call a relayer is refused, whatever else it passes. For an
  -- enabled relayer it traps, and so changes nothing, when the factory is not set up, the owner is no
  -- strkey, the missing vault cannot be deployed, the balance asked for cannot be read, or the vault's
  -- `swap` fails in whatever way.
  pub settlement_fails :
      (s : State L) (o : Outcome (State L) FactoryError ℤ)
      → SettlementFails s o
      → swap h vaults e relayer owner amount filler min_out hint s ≡ o
  unfolding swap is_relayer
  settlement_fails s _ (refused o r) =
      swap_refuses_others h vaults e relayer owner amount filler min_out hint s o r
  settlement_fails s _ (stopped w signed enabled f) =
      call_step _ _ _ (on_world_returns (h.require_auth e relayer) s signed)
      ∙ gets_step _ _ _
      ∙ panic_if_step _ _ _ _
          (ap not (answer h vaults e relayer owner amount filler min_out hint enabled))
      ∙ settle_fails (record s { world = w }) f
