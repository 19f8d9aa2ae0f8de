-- ===== src/VaultFactory/Governance.antt =====
-- What a caller of contracts/vault-factory sees after the admin's functions.
use mathlib.Core.Option.{get_or}
use crossmesh_ingress_contra.Prelude.{
  ℕ, ◌≤◌, ◌<◌, ◌≡◌, refl, ◌∙◌, ◌==◌, Bool, true, false, Option, none, some, if◌then◌else◌, lt→ltb,
}
use crossmesh_ingress_contra.Exec.{done, err, trap, gets, call, ◌>>=◌}
use crossmesh_ingress_contra.Exec.Steps.{bind_step, call_step, call_trap, panic_if_err}
use crossmesh_ingress_contra.Interfaces.{Address, VaultConfig, discount_cap_ppm}
use crossmesh_ingress_contra.Host.{Env, World, Host}
use crossmesh_ingress_contra.VaultFactory.{
  Action, above_cap, State, in_force, read_config, read_admin, is_relayer, set_relayer,
  set_discount, set_admin,
}
use crossmesh_ingress_contra.Instance.{on_world}
use crossmesh_ingress_contra.Instance.Rules.{on_world_returns, on_world_fails}
use crossmesh_ingress_contra.VaultFactory.Rules.{read_admin_returns, read_config_returns}
use crossmesh_ingress_contra.VaultFactory.Administration.{
  set_relayer-ByAdmin, set_discount-ByAdmin, set_admin-ByAdmin,
}

module _ {L : Type 0} (h : Host L) (e : Env) where
  abbrev Signed : State L → Address → World L → Type 0
  Signed s a w = (s.storage.admin ≡ some a) × (h.require_auth e a s.world ≡ some (tt, w))

  written :
      (mine enabled : Bool) (old : Option Bool)
      → get_or (if mine then (if enabled then some true else none) else old) false
        ≡ (if mine then enabled else get_or old false)
  written true true old = refl
  written true false old = refl
  written false enabled old = refl

  -- Enabling or disabling a relayer takes the signature of the admin in force. Afterwards that
  -- address is a relayer exactly if it was enabled, every other address is one if it was before, and
  -- the admin and the configuration in force are what they were.
  pub set_relayer_effect :
      (addr : Address) (enabled : Bool) (s t : State L) (base : VaultConfig)
      → s.storage.config ≡ some base
      → set_relayer h e addr enabled s ≡ done tt t
      → ((a : Address) × (w : World L) × Signed s a w × (read_admin t ≡ done a t))
        × (read_config t ≡ done (in_force base s.storage.discount) t)
        × ((a : Address)
            → is_relayer a t
              ≡ done (if a == addr then enabled else get_or (s.storage.relayer a) false) t)
  unfolding is_relayer gets
  set_relayer_effect addr enabled s t base known p =
      let b = (set_relayer-ByAdmin h e addr enabled s).at tt t p in
      rw b.after (
        (b.admin, b.signed, (b.stored, b.authorized), read_admin_returns _ b.stored),
        read_config_returns _ known,
        λ a. rw (written (a == addr) enabled (s.storage.relayer a)),
      )

  -- A new discount takes the signature of the admin in force and is within the cap. Afterwards the
  -- configuration in force is the stored one with that discount, and the admin and the relayers are
  -- what they were.
  pub set_discount_effect :
      (d : ℕ) (s t : State L) (base : VaultConfig)
      → s.storage.config ≡ some base
      → set_discount h e d s ≡ done tt t
      → (d ≤ discount_cap_ppm)
        × ((a : Address) × (w : World L) × Signed s a w × (read_admin t ≡ done a t))
        × (read_config t ≡ done (record base { discount_ppm = d }) t)
        × ((a : Address) → is_relayer a t ≡ done (get_or (s.storage.relayer a) false) t)
  unfolding is_relayer gets
  set_discount_effect d s t base known p =
      let (capped, b) = (set_discount-ByAdmin h e d s).at tt t p in
      rw b.after (
        capped,
        (b.admin, b.signed, (b.stored, b.authorized), read_admin_returns _ b.stored),
        read_config_returns _ known,
        λ a. refl,
      )

  -- The admin role passes on only with the signatures of the admin in force and of the new admin,
  -- and nothing but the role changes.
  pub set_admin_effect :
      (new_admin : Address) (s t : State L) (base : VaultConfig)
      → s.storage.config ≡ some base
      → set_admin h e new_admin s ≡ done tt t
      → ((a : Address) × (w w' : World L) × Signed s a w
          × (h.require_auth e new_admin w ≡ some (tt, w')))
        × (read_admin t ≡ done new_admin t)
        × (read_config t ≡ done (in_force base s.storage.discount) t)
        × ((a : Address) → is_relayer a t ≡ done (get_or (s.storage.relayer a) false) t)
  unfolding is_relayer gets
  set_admin_effect new_admin s t base known p =
      let (b, accepted) = (set_admin-ByAdmin h e new_admin s).at tt t p in
      rw b.after (
        (b.admin, b.signed, b.final, (b.stored, b.authorized), accepted),
        read_admin_returns _ refl,
        read_config_returns _ known,
        λ a. refl,
      )

  -- Without the signature of the admin in force each of the admin's functions fails, for any argument.
  pub admin_gate :
      (s : State L) (a : Address)
      → s.storage.admin ≡ some a
      → h.require_auth e a s.world ≡ none
      → ((addr : Address) (enabled : Bool) → set_relayer h e addr enabled s ≡ trap)
        × ((d : ℕ) → set_discount h e d s ≡ trap)
        × ((b : Address) → set_admin h e b s ≡ trap)
  unfolding set_relayer set_discount set_admin
  admin_gate s a stored denied = (λ addr enabled. gate _, λ d. gate _, λ b. gate _)
    where
      gate :
          {A : Type 0} (k : Unit → Action L A)
          → (read_admin >>= λ x. call (on_world (h.require_auth e x)) >>= k) s ≡ trap
      gate k =
          bind_step _ _ _ (read_admin_returns s stored)
          ∙ call_trap _ _ _ (on_world_fails (h.require_auth e a) s denied)

  -- A discount above the cap is refused even with the signature of the admin in force.
  pub discount_above_cap :
      (s : State L) (a : Address) (w : World L) (d : ℕ)
      → s.storage.admin ≡ some a
      → h.require_auth e a s.world ≡ some (tt, w)
      → discount_cap_ppm < d
      → set_discount h e d s ≡ err above_cap
  unfolding set_discount
  discount_above_cap s a w d stored authorized above =
      bind_step _ _ _ (read_admin_returns s stored)
      ∙ call_step _ _ _ (on_world_returns (h.require_auth e a) s authorized)
      ∙ panic_if_err _ _ _ _ (lt→ltb _ _ above)
