-- ===== src/VaultFactory/Reachability.antt =====
-- The factory's storage over any history of calls.
use crossmesh_ingress_contra.Prelude.{
  ℕ, ◌≤◌, ◌≡◌, refl, ap, ◌∙◌, ◌⊎◌, inl, inr, Bool, Option, none, some, arith,
}
use crossmesh_ingress_contra.Int.{ℤ}
use crossmesh_ingress_contra.Exec.{done}
use crossmesh_ingress_contra.Interfaces.{Address, Bytes, VaultConfig, VaultClient, discount_cap_ppm}
use crossmesh_ingress_contra.Host.{Env, World, Host, frame}
use crossmesh_ingress_contra.Host.Log.{own}
use crossmesh_ingress_contra.Vault.Config.{IsUsable}
use crossmesh_ingress_contra.VaultFactory.{
  Storage, State, empty_storage, in_force, read_config, read_admin, constructor, set_relayer,
  set_discount, set_admin, deploy, swap,
}
use crossmesh_ingress_contra.VaultFactory.Rules.{read_config_returns, read_admin_returns}
use crossmesh_ingress_contra.VaultFactory.Construction.{constructor-Ensures}
use crossmesh_ingress_contra.VaultFactory.Administration.{
  set_relayer-ByAdmin, set_discount-ByAdmin, set_admin-ByAdmin,
}
use crossmesh_ingress_contra.VaultFactory.Deployment.{deploy-DeployRun}
use crossmesh_ingress_contra.VaultFactory.Settlement.{swap-SettleRun}

module _ {L : Type 0} (h : Host L) (vaults : VaultClient (World L)) (this : Address) where
  -- One transaction: a call of the factory at `this` that returned (one that fails is rolled back),
  -- whoever made it, or anything that happens elsewhere, which can neither touch the factory's
  -- storage nor publish in its name.
  pub data Step (s t : State L) : Type 0 where
    relayer_call :
        (invoker : Option Address) (addr : Address) (enabled : Bool)
        → set_relayer h (frame this invoker) addr enabled s ≡ done tt t
        → Step s t
    discount_call :
        (invoker : Option Address) (d : ℕ)
        → set_discount h (frame this invoker) d s ≡ done tt t
        → Step s t
    admin_call :
        (invoker : Option Address) (new_admin : Address)
        → set_admin h (frame this invoker) new_admin s ≡ done tt t
        → Step s t
    deploy_call :
        (invoker : Option Address) (owner : Bytes) (a : Address)
        → deploy h (frame this invoker) owner s ≡ done a t
        → Step s t
    swap_call :
        (invoker : Option Address) (relayer : Address) (owner : Bytes) (amount : Option ℤ)
        (filler : Address) (min_out : ℤ) (hint : Bytes) (out : ℤ)
        → swap h vaults (frame this invoker) relayer owner amount filler min_out hint s ≡ done out t
        → Step s t
    elsewhere : t.storage ≡ s.storage → own this t.world.events ≡ own this s.world.events → Step s t

  pub data Reach (s : State L) : State L → Type 0 where
    here : Reach s s
    next : {t u : State L} → Reach s t → Step t u → Reach s u

  -- Whatever transaction happens, the factory's storage changes only under the signature of the
  -- admin in force.
  pub Step-changes :
      (s t : State L)
      → Step s t
      → (t.storage ≡ s.storage)
        ⊎ ((e : Env) × (a : Address) × (w : World L) × (s.storage.admin ≡ some a)
            × (h.require_auth e a s.world ≡ some (tt, w)))
  Step-changes s t (relayer_call v addr enabled p) =
      let b = (set_relayer-ByAdmin h (frame this v) addr enabled s).at tt t p in
      inr (frame this v, b.admin, b.signed, b.stored, b.authorized)
  Step-changes s t (discount_call v d p) =
      let (_, b) = (set_discount-ByAdmin h (frame this v) d s).at tt t p in
      inr (frame this v, b.admin, b.signed, b.stored, b.authorized)
  Step-changes s t (admin_call v new_admin p) =
      let (b, _) = (set_admin-ByAdmin h (frame this v) new_admin s).at tt t p in
      inr (frame this v, b.admin, b.signed, b.stored, b.authorized)
  Step-changes s t (deploy_call v owner a p) =
      inl ((deploy-DeployRun h (frame this v) owner s).at a t p).storage_kept
  Step-changes s t (swap_call v relayer owner amount filler min_out hint out p) =
      let (_, _, _, r) =
        (swap-SettleRun h vaults (frame this v) relayer owner amount filler min_out hint s).at out t
          p in
      inl r.storage_kept
  Step-changes s t (elsewhere same _) = inl same

  -- The stored configuration is the constructor's, some admin is in force, and a discount that was
  -- set is within the cap.
  pub record Sound (c : VaultConfig) (s : Storage) : Type 0 where
    pub config_kept : s.config ≡ some c
    pub admin : Address
    pub admin_stored : s.admin ≡ some admin
    pub discount_capped : (d : ℕ) → s.discount ≡ some d → d ≤ discount_cap_ppm

  Step-Sound : {c : VaultConfig} {s t : State L} → Step s t → Sound c s.storage → Sound c t.storage
  Step-Sound {c} {s} {t} (relayer_call v addr enabled p) i =
      let b = (set_relayer-ByAdmin h (frame this v) addr enabled s).at tt t p in
      rw b.after (record {
        config_kept = i.config_kept;
        admin = i.admin;
        admin_stored = i.admin_stored;
        discount_capped = i.discount_capped;
      })
  Step-Sound {c} {s} {t} (discount_call v d p) i =
      let (capped, b) = (set_discount-ByAdmin h (frame this v) d s).at tt t p in
      rw b.after (record {
        config_kept = i.config_kept;
        admin = i.admin;
        admin_stored = i.admin_stored;
        discount_capped = λ d' q. ground arith;
      })
  Step-Sound {c} {s} {t} (admin_call v new_admin p) i =
      let (b, _) = (set_admin-ByAdmin h (frame this v) new_admin s).at tt t p in
      rw b.after (record {
        config_kept = i.config_kept;
        admin = new_admin;
        admin_stored = refl;
        discount_capped = i.discount_capped;
      })
  Step-Sound {c} {s} {t} (deploy_call v owner a p) i =
      rw ((deploy-DeployRun h (frame this v) owner s).at a t p).storage_kept i
  Step-Sound {c} {s} {t} (swap_call v relayer owner amount filler min_out hint out p) i =
      let (_, _, _, r) =
        (swap-SettleRun h vaults (frame this v) relayer owner amount filler min_out hint s).at out t
          p in
      rw r.storage_kept i
  Step-Sound (elsewhere same _) i = rw same i

  Reach-Sound :
      {c : VaultConfig} {s t : State L} → Sound c s.storage → Reach s t → Sound c t.storage
  Reach-Sound i here = i
  Reach-Sound i (next r st) = Step-Sound st (Reach-Sound i r)

  forced :
      (c : VaultConfig) (discount : Option ℕ)
      → c.discount_ppm ≤ discount_cap_ppm
      → ((d : ℕ) → discount ≡ some d → d ≤ discount_cap_ppm)
      → (d : ℕ) × (d ≤ discount_cap_ppm) × (in_force c discount ≡ record c { discount_ppm = d })
  forced c none capped kept = (c.discount_ppm, capped, refl)
  forced c (some d) capped kept = (d, kept d refl, refl)

  with_discount :
      (c : VaultConfig) (d : ℕ)
      → IsUsable c
      → d ≤ discount_cap_ppm
      → IsUsable (record c { discount_ppm = d })
  with_discount c d u capped = record {
    discount_capped = capped;
    age_positive = u.age_positive;
    age_capped = u.age_capped;
    delivery_positive = u.delivery_positive;
    two_assets = u.two_assets;
  }

  -- In every state that a constructed factory reaches, an admin is in force and the configuration
  -- in force is the constructor's but for the discount. A vault accepts that configuration: the
  -- discount and the price age are within the caps fixed in code, so a vault called by the factory
  -- never answers `InvalidConfig`.
  pub reachable_config :
      (e : Env) (admin : Address) (c : VaultConfig) (s0 s t : State L)
      → s0.storage ≡ empty_storage
      → constructor e admin c s0 ≡ done tt s
      → Reach s t
      → (d : ℕ) × (read_config t ≡ done (record c { discount_ppm = d }) t)
        × IsUsable (record c { discount_ppm = d })
        × ((a : Address) × (read_admin t ≡ done a t))
  reachable_config e admin c s0 s t empty built r =
      let (good, stored) = (constructor-Ensures e admin c s0).at tt s built in
      let i = Reach-Sound {c = c} (constructed admin c s.storage (rw empty at stored)) r in
      let (d, capped, same) =
        forced c t.storage.discount good.usable.discount_capped i.discount_capped in
      (
        d,
        read_config_returns t i.config_kept ∙ ap (λ v. done v t) same,
        with_discount c d good.usable capped,
        (i.admin, read_admin_returns t i.admin_stored),
      )
    where
      constructed :
          (admin : Address) (c : VaultConfig) (s : Storage)
          → s ≡ record empty_storage { admin = some admin; config = some c }
          → Sound c s
      constructed admin c s p = rw p (record {
        config_kept = refl;
        admin = admin;
        admin_stored = refl;
        discount_capped = λ d q. cc;
      })
