-- ===== src/Sandbox/FactoryExamples.antt =====
-- The theorems on the constructor, the administration and the deployments of contracts/vault-factory,
-- at one factory.
use crossmesh_ingress_contra.Prelude.{◌≡◌, ◌↔◌, ◌⊎◌, refl, true, false, none, some, List, [], ◌∷◌}
use crossmesh_ingress_contra.Exec.{Outcome, done, err, ◌>>=◌}
use crossmesh_ingress_contra.Interfaces.{Address, VaultConfig}
use crossmesh_ingress_contra.Events.{Event, deployed}
use crossmesh_ingress_contra.Host.{MuxedAddress, wasm}
use crossmesh_ingress_contra.VaultFactory.{
  FactoryError, invalid_config, empty_storage, State, read_admin, read_config, constructor,
  parse_owner, vault_address, deploy_missing, deploy, set_relayer, set_discount, set_admin,
}
use crossmesh_ingress_contra.VaultFactory.Construction.{IsDeployable, constructor_iff}
use crossmesh_ingress_contra.VaultFactory.Deployment.{deploy_lands}
use crossmesh_ingress_contra.Sandbox.{
  Ledger, sandbox, config, admin, relayer, factory, owner, vault, start, factory_frame,
}
use crossmesh_ingress_contra.Sandbox.Promises.{deployer}

-- No vault is deployed, and the factory has nothing in storage.
abbrev pub blank : State Ledger
blank = record {
  world = record start { ledger = record start.ledger { code = λ _. none } };
  storage = empty_storage;
}

abbrev pub state_of : {A : Type 0} → Outcome (State Ledger) FactoryError A → State Ledger
state_of o = elim o [ done a s ↦ s | _ ↦ blank ]

abbrev pub built : State Ledger
built = record blank { storage = record empty_storage { admin = some admin; config = some config } }

constructor_iff_example :
    ((constructor factory_frame admin config blank ≡ done tt built)
      ↔ (IsDeployable config × (built ≡ built)))
    × ((constructor factory_frame admin config blank ≡ err invalid_config)
        ↔ (¬ IsDeployable config))
constructor_iff_example = constructor_iff factory_frame admin config blank built

abbrev pub governed : State Ledger
governed = state_of (set_relayer sandbox factory_frame relayer true built)

pub relayer_set_ran : set_relayer sandbox factory_frame relayer true built ≡ done tt governed
unfolding set_relayer read_admin ◌>>=◌
relayer_set_ran = refl

abbrev pub discounted : State Ledger
discounted = state_of (set_discount sandbox factory_frame 50_000 governed)

pub discount_set_ran : set_discount sandbox factory_frame 50_000 governed ≡ done tt discounted
unfolding set_discount set_relayer read_admin ◌>>=◌
discount_set_ran = refl

pub governed_config : governed.storage.config ≡ some config
unfolding set_relayer read_admin ◌>>=◌
governed_config = refl

abbrev handed_on : State Ledger
handed_on = state_of (set_admin sandbox factory_frame relayer built)

admin_set_ran : set_admin sandbox factory_frame relayer built ≡ done tt handed_on
unfolding set_admin read_admin ◌>>=◌
admin_set_ran = refl

-- The same factory in a transaction that nobody signed.
abbrev pub unsigned_state : State Ledger
unsigned_state = record built {
  world = record start { ledger = record start.ledger { signers = [] } };
}

abbrev landed : State Ledger
landed = state_of (deploy sandbox factory_frame owner built)

deploy_ran : deploy sandbox factory_frame owner built ≡ done vault landed
unfolding deploy deploy_missing parse_owner read_config ◌>>=◌
deploy_ran = refl

deploy_lands_example :
    (vault_address sandbox factory_frame owner built ≡ done vault built)
    × (sandbox.exists vault landed.world.ledger ≡ true)
    × (landed.storage ≡ built.storage)
    × (((sandbox.exists vault built.world.ledger ≡ true) × (landed ≡ built))
        ⊎ ((sandbox.exists vault built.world.ledger ≡ false)
            × ((c : VaultConfig) × (m : MuxedAddress) × (before : List (Address × Event)) × (some
                    config
                  ≡ some c)
                × (sandbox.executable vault landed.world.ledger ≡ some (wasm c.vault_wasm_hash))
                × (sandbox.from_string_bytes owner ≡ some m)
                × (landed.world.events
                    ≡ (
                      factory,
                      deployed (record { owner = m.address; owner_strkey = owner; vault = vault }),
                    )
                      ∷ before))))
deploy_lands_example =
    deploy_lands sandbox deployer factory_frame owner built landed vault deploy_ran
