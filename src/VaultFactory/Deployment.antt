-- ===== src/VaultFactory/Deployment.antt =====
-- `deploy` and `vault_address` of contracts/vault-factory.
use crossmesh_ingress_contra.Prelude.{
  Bool, ◌≡◌, refl, sym, ap, ◌∙◌, ◌⊎◌, inl, inr, true, false, ℕ, Option, none, some, List, ◌∷◌,
}
use crossmesh_ingress_contra.Exec.{done, pure, unwrap}
use crossmesh_ingress_contra.Exec.Ensures.{
  Ensures, Ensures-gets, Ensures-if, Ensures-unwrap, Ensures-modify, Ensures-pure,
}
use crossmesh_ingress_contra.Exec.Steps.{bind_step, gets_step, unwrap_step, if_step}
use crossmesh_ingress_contra.Interfaces.{Address, Hash, Bytes, VaultConfig}
use crossmesh_ingress_contra.Events.{Event, deployed}
use crossmesh_ingress_contra.Host.{Env, World, Host, MuxedAddress, wasm, publish}
use crossmesh_ingress_contra.VaultFactory.{
  Storage, State, in_force, derive_address, parse_owner, vault_address, deploy_missing, deploy,
}
use crossmesh_ingress_contra.Instance.Rules.{Ensures-on_world}
use crossmesh_ingress_contra.VaultFactory.Rules.{Ensures-read_config, read_config_returns}

-- What the factory relies on in the host's deployer: a contract lands at the derived address, where
-- it exists from then on and runs the code that was named.
pub record Deployer {L : Type 0} (h : Host L) : Type 0 where
  pub lands :
      (c : Address) (salt code : Hash) (a : Address) (w w' : World L)
      → h.deploy_contract c salt code w ≡ some (a, w')
      → (a ≡ h.deployed_address c salt)
        × (h.exists a w'.ledger ≡ true)
        × (h.executable a w'.ledger ≡ some (wasm code))

-- The admin's discount does not touch the code hash.
pub in_force_wasm :
    (base : VaultConfig) (d : Option ℕ) → (in_force base d).vault_wasm_hash ≡ base.vault_wasm_hash
in_force_wasm base none = refl
in_force_wasm base (some d) = refl

module _ {L : Type 0} (h : Host L) (e : Env) (owner : Bytes) (s : State L) where
  abbrev target : Address
  target = derive_address h e owner

  -- Nothing was done at an address where a contract exists, or the fixed code was deployed where
  -- none does.
  abbrev pub DeployWay : MuxedAddress → VaultConfig → Address → State L → Type 0
  DeployWay muxed config a t =
      ((h.exists target s.world.ledger ≡ true) × (a ≡ target) × (t ≡ s))
      ⊎ ((h.exists target s.world.ledger ≡ false)
          × ((w : World L) × (h.deploy_contract e.this (h.sha256 owner) config.vault_wasm_hash
                  s.world
                ≡ some (a, w))
              × (t.world
                  ≡ publish e
                      (deployed (record { owner = muxed.address; owner_strkey = owner; vault = a }))
                      w)))

  -- How a `deploy` that returned `a` in the state `t` went.
  pub record DeployRun (a : Address) (t : State L) : Type 0 where
    pub muxed : MuxedAddress
    pub config : VaultConfig
    pub parsed : h.from_string_bytes owner ≡ some muxed
    pub stored : s.storage.config ≡ some config
    pub storage_kept : t.storage ≡ s.storage
    pub way : DeployWay muxed config a t

  deploy_missing-Ensures :
      (config : VaultConfig) (muxed : MuxedAddress)
      → Ensures
          (λ a t.
            (t.storage ≡ s.storage)
            × ((w : World L) × (h.deploy_contract e.this
                    (h.sha256 owner)
                    config.vault_wasm_hash
                    s.world
                  ≡ some (a, w))
                × (t.world
                    ≡ publish e
                        (deployed
                          (record { owner = muxed.address; owner_strkey = owner; vault = a }))
                        w)))
          (deploy_missing h e owner config muxed s)
  unfolding deploy_missing
  deploy_missing-Ensures config muxed =
      Ensures-on_world _ _ _ _
        λ a w landed. Ensures-modify _ _ _ _ (Ensures-pure _ _ _ (refl, (w, landed, refl)))

  pub deploy-DeployRun : Ensures DeployRun (deploy h e owner s)
  unfolding deploy parse_owner
  deploy-DeployRun = Ensures-read_config _ _ _ λ base stored. Ensures-unwrap _ _ _ _ λ muxed parsed.
      Ensures-gets _ _ _ _ (
        Ensures-if _ _ _ _ _
          (λ found. Ensures-pure _ _ _ (record {
            muxed = muxed;
            config = base;
            parsed = parsed;
            stored = stored;
            storage_kept = refl;
            way = inl (found, refl, refl);
          }))
          (λ missing. record {
            at = λ a t p.
                let (kept, (w, landed, published)) =
                  (deploy_missing-Ensures (in_force base s.storage.discount) muxed).at a t p in
                record {
                  muxed = muxed;
                  config = base;
                  parsed = parsed;
                  stored = stored;
                  storage_kept = kept;
                  way = inr (
                    missing,
                    (w, rw (← in_force_wasm base s.storage.discount) landed, published),
                  );
                };
          }))

module _ {L : Type 0} (h : Host L) (deployer : Deployer h) (e : Env) (owner : Bytes) where
  pub lands_at :
      (s t : State L) (a : Address)
      → DeployRun h e owner s a t
      → (a ≡ derive_address h e owner) × (h.exists a t.world.ledger ≡ true)
  lands_at s t a r = split r.way
    where
      split :
          DeployWay h e owner s r.muxed r.config a t
          → (a ≡ derive_address h e owner) × (h.exists a t.world.ledger ≡ true)
      split (inl (found, at, same)) = (at, rw (at, same) found)
      split (inr (missing, (w, landed, published))) =
          let (at, there, _) = deployer.lands _ _ _ a s.world w landed in
          (at, ap (λ (v : World L). h.exists a v.ledger) published ∙ there)

  -- A `deploy` that returns gives the address that `vault_address` computes, a contract exists
  -- there afterwards, and the factory's storage is as it was. Either one existed there before and
  -- nothing changed, or none did: then the new one runs the configuration's vault code, and the last
  -- event is its `Deployed`.
  pub deploy_lands :
      (s t : State L) (a : Address)
      → deploy h e owner s ≡ done a t
      → (vault_address h e owner s ≡ done a s)
        × (h.exists a t.world.ledger ≡ true)
        × (t.storage ≡ s.storage)
        × (((h.exists a s.world.ledger ≡ true) × (t ≡ s))
            ⊎ ((h.exists a s.world.ledger ≡ false)
                × ((c : VaultConfig) × (m : MuxedAddress) × (before : List (Address × Event))
                    × (s.storage.config ≡ some c)
                    × (h.executable a t.world.ledger ≡ some (wasm c.vault_wasm_hash))
                    × (h.from_string_bytes owner ≡ some m)
                    × (t.world.events
                        ≡ (
                          e.this,
                          deployed (record { owner = m.address; owner_strkey = owner; vault = a }),
                        )
                          ∷ before))))
  unfolding vault_address pure
  deploy_lands s t a p =
      let r = (deploy-DeployRun h e owner s).at a t p in
      let (at, there) = lands_at s t a r in
      (
        bind_step _ _ _ (parsed_lem r.parsed) ∙ ap (λ b. done b s) (sym at),
        there,
        r.storage_kept,
        elim r.way [
          | inl (found, at_target, same) ↦ inl (at_lem at found, same)
          | inr (missing, (w, landed, published)) ↦
              let (_, _, code) = deployer.lands _ _ _ a s.world w landed in
              inr (
                at_lem at missing,
                (
                  r.config,
                  r.muxed,
                  w.events,
                  r.stored,
                  ap (λ (v : World L). h.executable a v.ledger) published ∙ code,
                  r.parsed,
                  ap (λ (v : World L). v.events) published,
                ),
              )
        ],
      )
    where
      at_lem :
          {b : Bool}
          → a ≡ h.deployed_address e.this (h.sha256 owner)
          → h.exists (h.deployed_address e.this (h.sha256 owner)) s.world.ledger ≡ b
          → h.exists a s.world.ledger ≡ b
      at_lem at found = ap (λ b. h.exists b s.world.ledger) at ∙ found

      parsed_lem :
          {m : MuxedAddress} → h.from_string_bytes owner ≡ some m → parse_owner h owner s ≡ done m s
      parsed_lem p = unfold parse_owner unwrap in rw p

  -- Deploying twice is deploying once: the second call returns the same address and changes nothing.
  pub deploy_idempotent :
      (s t : State L) (a : Address) → deploy h e owner s ≡ done a t → deploy h e owner t ≡ done a t
  unfolding deploy parse_owner pure
  deploy_idempotent s t a p =
      let r = (deploy-DeployRun h e owner s).at a t p in
      let (at, there) = lands_at s t a r in
      bind_step _ _ _
        (read_config_returns t (ap (λ (v : Storage). v.config) r.storage_kept ∙ r.stored))
      ∙ unwrap_step _ _ _ r.parsed
      ∙ gets_step _ _ _
      ∙ if_step _ _ _ _ (ap (λ b. h.exists b t.world.ledger) (sym at) ∙ there)
      ∙ ap (λ b. done b t) (sym at)
