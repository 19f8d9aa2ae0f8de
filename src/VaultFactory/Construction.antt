-- ===== src/VaultFactory/Construction.antt =====
-- `__constructor` of contracts/vault-factory.
use crossmesh_ingress_contra.Prelude.{
  ◌↔◌, sym, ap, ◌≡◌, ◌≢◌, refl, ◌∙◌, inl, inr, false, some, arith, Bool-cases,
}
use crossmesh_ingress_contra.Exec.{done, err, ◌>>=◌}
use crossmesh_ingress_contra.Exec.Ensures.{Ensures, Ensures-modify, Ensures-panic_if, Ensures-pure}
use crossmesh_ingress_contra.Exec.Steps.{panic_if_step, panic_if_err}
use crossmesh_ingress_contra.Interfaces.{Address, VaultConfig}
use crossmesh_ingress_contra.Host.{Env}
use crossmesh_ingress_contra.Vault.Config.{IsUsable}
use crossmesh_ingress_contra.VaultFactory.{invalid_config, State, invalid, constructor}

-- A configuration that a vault accepts, with an oracle that is neither of the two tokens.
pub record IsDeployable (config : VaultConfig) : Type 0 where
  pub usable : IsUsable config
  pub oracle_not_usdc : config.oracle ≢ config.usdc
  pub oracle_not_xlm : config.oracle ≢ config.xlm

pub invalid-false : (config : VaultConfig) → invalid config ≡ false → IsDeployable config
unfolding invalid
invalid-false config h = ground arith

pub invalid-false_of : (config : VaultConfig) → IsDeployable config → invalid config ≡ false
unfolding invalid
invalid-false_of config d = ground arith

module _ {L : Type 0} (e : Env) (admin : Address) (config : VaultConfig) (s : State L) where
  builds :
      IsDeployable config
      → constructor e admin config s
        ≡ done tt
            (record s { storage = record (s.storage) { admin = some admin; config = some config } })
  unfolding constructor
  builds good = panic_if_step _ _ _ _ (invalid-false_of config good) ∙ (unfold ◌>>=◌ in refl)

  refuses : ¬ IsDeployable config → constructor e admin config s ≡ err invalid_config
  unfolding constructor
  refuses bad = elim (Bool-cases (invalid config)) [
    | inl refused ↦ panic_if_err _ _ _ _ refused
    | inr passed ↦ absurd (bad (invalid-false config passed))
  ]

  pub constructor-Ensures :
      Ensures
        (λ _ t.
          IsDeployable config
          × (t.storage ≡ record (s.storage) { admin = some admin; config = some config }))
        (constructor e admin config s)
  unfolding constructor
  constructor-Ensures = Ensures-panic_if _ _ _ _ _ λ passed.
      Ensures-modify _ _ _ _
        (Ensures-modify _ _ _ _ (Ensures-pure _ _ _ (invalid-false config passed, refl)))

  -- The constructor returns exactly for a configuration that every vault accepts and whose oracle is
  -- neither token, and has then stored the admin and the configuration, and nothing else; it
  -- refuses exactly the other configurations.
  pub constructor_iff :
      (t : State L)
      → ((constructor e admin config s ≡ done tt t) ↔ (
          IsDeployable config
          × (t ≡ record s {
            storage = record (s.storage) { admin = some admin; config = some config };
          })))
        × ((constructor e admin config s ≡ err invalid_config) ↔ (¬ IsDeployable config))
  constructor_iff t = (
    (
      λ p. let (good, _) = constructor-Ensures.at tt t p in (good, cc (p, builds good)),
      λ (good, same). builds good ∙ ap (done tt) (sym same),
    ),
    ((λ p good. cc (p, builds good)), refuses),
  )
