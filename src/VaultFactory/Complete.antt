-- ===== src/VaultFactory/Complete.antt =====
-- `deploy` and `swap` of contracts/vault-factory return exactly when every one of their calls and
-- checks goes through.
use mathlib.Core.Path.{subst}
use crossmesh_ingress_contra.Prelude.{
  ◌≡◌, refl, sym, ap, ◌∙◌, ◌↔◌, inl, inr, not, true, Option, none, some, if◌then◌else◌,
}
use crossmesh_ingress_contra.Int.{ℤ}
use crossmesh_ingress_contra.Exec.{done, pure, gets, call, ◌>>=◌}
use crossmesh_ingress_contra.Exec.Steps.{
  bind_step, call_step, gets_step, unwrap_step, panic_if_step, if_step, if_not_step,
}
use crossmesh_ingress_contra.Interfaces.{Address, Bytes, VaultConfig, VaultClient}
use crossmesh_ingress_contra.Events.{deployed}
use crossmesh_ingress_contra.Host.{Env, World, Host, MuxedAddress, publish}
use crossmesh_ingress_contra.Instance.{emit}
use crossmesh_ingress_contra.Instance.Rules.{on_world_returns}
use crossmesh_ingress_contra.VaultFactory.{
  State, FactoryError, in_force, derive_address, parse_owner, deploy_missing, deploy, is_relayer,
  amount_or_balance, settle, swap,
}
use crossmesh_ingress_contra.VaultFactory.Deployment.{
  DeployWay, DeployRun, deploy-DeployRun, in_force_wasm,
}
use crossmesh_ingress_contra.VaultFactory.Rules.{read_config_returns}
use crossmesh_ingress_contra.VaultFactory.Settlement.{
  AmountOf, SettleRun, swap-SettleRun, in_force_usdc, answer,
}

module _ {L : Type 0} (h : Host L) (e : Env) (owner : Bytes) (s : State L) where
  -- The last two lines of a deployment.
  announced :
      (m : MuxedAddress) (a : Address) (t : State L) (w : World L)
      → t.world
        ≡ publish e (deployed (record { owner = m.address; owner_strkey = owner; vault = a })) w
      → t.storage ≡ s.storage
      → (emit {E = FactoryError} e
              (deployed (record { owner = m.address; owner_strkey = owner; vault = a }))
            >>= λ _. pure a)
          (record s { world = w })
        ≡ done a t
  unfolding ◌>>=◌
  announced m a t w published kept =
      ap (done a) (λ i. record { world = sym published i; storage = sym kept i })

  deploy_missing_returns :
      (config : VaultConfig) (m : MuxedAddress) (a : Address) (t : State L) (w : World L)
      → h.deploy_contract e.this (h.sha256 owner) config.vault_wasm_hash s.world ≡ some (a, w)
      → t.world
        ≡ publish e (deployed (record { owner = m.address; owner_strkey = owner; vault = a })) w
      → t.storage ≡ s.storage
      → deploy_missing h e owner config m s ≡ done a t
  unfolding deploy_missing
  deploy_missing_returns config m a t w landed published kept =
      call_step _ _ _ (
        on_world_returns (h.deploy_contract e.this (h.sha256 owner) config.vault_wasm_hash) s
          landed)
      ∙ announced m a t w published kept

  deploy_by :
      (r : VaultConfig) (m : MuxedAddress) (a : Address) (t : State L)
      → t.storage ≡ s.storage
      → DeployWay h e owner s m r a t
      → (if h.exists (derive_address h e owner) s.world.ledger
            then pure (derive_address h e owner)
            else deploy_missing h e owner (in_force r s.storage.discount) m)
          s
        ≡ done a t
  unfolding pure
  deploy_by r m a t kept (inl (found, at, same)) =
      if_step _ _ _ s found ∙ ap (λ b. done b s) (sym at) ∙ ap (done a) (sym same)
  deploy_by r m a t kept (inr (missing, (w, landed, published))) =
      if_not_step _ _ _ s missing
      ∙ deploy_missing_returns (in_force r s.storage.discount) m a t w (rw in_force_wasm landed)
          published kept

  -- `deploy` returns exactly when the factory is set up, the owner parses as a strkey, and the owner's
  -- vault exists or the host deploys it.
  deploy_iff :
      (a : Address) (t : State L) → (deploy h e owner s ≡ done a t) ↔ DeployRun h e owner s a t
  unfolding deploy parse_owner
  deploy_iff a t = (
    (deploy-DeployRun h e owner s).at a t,
    λ r.
        bind_step _ _ _ (read_config_returns s r.stored)
        ∙ unwrap_step _ _ _ r.parsed
        ∙ gets_step _ _ _
        ∙ deploy_by r.config r.muxed a t r.storage_kept r.way,
  )

module _ {L : Type 0} (h : Host L) (vaults : VaultClient (World L)) (e : Env) (relayer : Address)
    (owner : Bytes) (amount : Option ℤ) (filler : Address) (min_out : ℤ) (hint : Bytes) where
  pub amount_returns :
      (a : Option ℤ) (token vault : Address) (d : State L) (n : ℤ) (d' : State L)
      → AmountOf h vaults e relayer owner amount filler min_out hint a token vault d n d'
      → amount_or_balance h e token vault a d ≡ done n d'
  unfolding amount_or_balance pure call
  amount_returns (some a) token vault d n d' (same, kept) = rw (same, kept) refl
  amount_returns none token vault d n d' (w, read, after) =
      rw (on_world_returns (h.balance e.this token vault) d read, after) refl

  settle_returns :
      (s : State L) (out : ℤ) (t : State L)
      → SettleRun h vaults e relayer owner amount filler min_out hint s out t
      → settle h vaults e relayer owner amount filler min_out hint s ≡ done out t
  unfolding settle pure
  settle_returns s out t r =
      bind_step _ _ _ (read_config_returns s r.stored)
      ∙ bind_step _ _ _ r.deployed
      ∙ bind_step _ _ _ (
          amount_returns amount _ r.vault r.d r.n r.d' (
            subst
              (λ token.
                AmountOf h vaults e relayer owner amount filler min_out hint amount token r.vault
                  r.d r.n r.d')
              (sym (
                in_force_usdc h vaults e relayer owner amount filler min_out hint r.base
                  s.storage.discount))
              r.chosen))
      ∙ call_step _ _ _ (
          on_world_returns
            (vaults.swap e.this r.vault owner e.this relayer filler r.n min_out hint
              (in_force r.base s.storage.discount))
            r.d' r.called)
      ∙ ap (done out) (sym r.after)

  -- A settlement returns exactly when the relayer signed and is enabled, and `settle` goes through:
  -- `SettleRun` names each call of it, in order, the deployment and the vault's `swap` among them.
  pub settlement_iff :
      (s : State L) (out : ℤ) (t : State L)
      → (swap h vaults e relayer owner amount filler min_out hint s ≡ done out t) ↔ (
          (w : World L) × (h.require_auth e relayer s.world ≡ some (tt, w))
          × (is_relayer relayer s ≡ done true s)
          × SettleRun h vaults e relayer owner amount filler min_out hint
              (record s { world = w })
              out
              t)
  unfolding swap is_relayer gets
  settlement_iff s out t = (
    λ p.
        let (w, signed, enabled, r) =
          (swap-SettleRun h vaults e relayer owner amount filler min_out hint s).at out t p in
        (w, signed, ap (λ b. done b s) enabled, r),
    λ (w, signed, enabled, r).
        call_step _ _ _ (on_world_returns (h.require_auth e relayer) s signed)
        ∙ gets_step _ _ _
        ∙ panic_if_step _ _ _ _
            (ap not (answer h vaults e relayer owner amount filler min_out hint enabled))
        ∙ settle_returns (record s { world = w }) out t r,
  )
