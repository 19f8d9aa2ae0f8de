-- ===== src/VaultFactory/Rules.antt =====
-- The reads of its storage that the functions of contracts/vault-factory share.
use crossmesh_ingress_contra.Prelude.{◌≡◌, refl, some}
use crossmesh_ingress_contra.Exec.{done, unwrap, ◌>>=◌}
use crossmesh_ingress_contra.Exec.Ensures.{
  Ensures, Ensures-bind, Ensures-gets, Ensures-unwrap, Ensures-last_unwrap, Ensures-pure,
}
use crossmesh_ingress_contra.Interfaces.{Address, VaultConfig}
use crossmesh_ingress_contra.VaultFactory.{State, Action, in_force, read_admin, read_config}

module _ {L : Type 0} (s : State L) where
  pub read_admin-Ensures : Ensures (λ a t. (s.storage.admin ≡ some a) × (t ≡ s)) (read_admin s)
  unfolding read_admin
  read_admin-Ensures = Ensures-gets _ _ _ _ (Ensures-last_unwrap _ _ _ λ a stored. (stored, refl))

  pub read_admin_returns : {a : Address} → s.storage.admin ≡ some a → read_admin s ≡ done a s
  unfolding read_admin unwrap ◌>>=◌
  read_admin_returns p = rw p

  pub read_config-Ensures :
      Ensures
        (λ c t.
          (t ≡ s)
          × ((base : VaultConfig) × (s.storage.config ≡ some base)
              × (c ≡ in_force base s.storage.discount)))
        (read_config s)
  unfolding read_config
  read_config-Ensures = Ensures-gets _ _ _ _ (
      Ensures-unwrap _ _ _ _
        λ base stored. Ensures-gets _ _ _ _ (Ensures-pure _ _ _ (refl, (base, stored, refl))))

  pub read_config_returns :
      {base : VaultConfig}
      → s.storage.config ≡ some base
      → read_config s ≡ done (in_force base s.storage.discount) s
  unfolding read_config ◌>>=◌
  read_config_returns p = rw p

module _ {L B : Type 0} (P : B → State L → Type 0) (s : State L) where
  pub Ensures-read_config :
      (f : VaultConfig → Action L B)
      → ((base : VaultConfig)
          → s.storage.config ≡ some base
          → Ensures P (f (in_force base s.storage.discount) s))
      → Ensures P ((read_config >>= f) s)
  Ensures-read_config f k =
      Ensures-bind P f s _ read_config (read_config-Ensures s)
        λ c t (same, (base, stored, forced)). rw (same, forced) (k base stored)
