-- ===== src/VaultFactory/Log.antt =====
-- The events of contracts/vault-factory tell its storage.
use crossmesh_ingress_contra.Prelude.{
  ◌≡◌, refl, sym, ap, ◌∙◌, inl, inr, true, Option, none, some, List, [], ◌∷◌, if◌then◌else◌,
}
use crossmesh_ingress_contra.Int.{ℤ}
use crossmesh_ingress_contra.Exec.{done}
use crossmesh_ingress_contra.Interfaces.{Address, Hash, Bytes, VaultConfig, VaultClient}
use crossmesh_ingress_contra.Events.{Event, relayer_set, discount_set, admin_set}
use crossmesh_ingress_contra.Host.{Env, World, Host, frame}
use crossmesh_ingress_contra.Host.Log.{own, own-publish}
use crossmesh_ingress_contra.VaultFactory.{
  Storage, State, empty_storage, write_relayer, in_force, constructor,
}
use crossmesh_ingress_contra.VaultFactory.Construction.{constructor-Ensures}
use crossmesh_ingress_contra.VaultFactory.Administration.{
  ByAdmin, set_relayer-ByAdmin, set_discount-ByAdmin, set_admin-ByAdmin,
}
use crossmesh_ingress_contra.VaultFactory.Deployment.{
  Deployer, DeployRun, deploy-DeployRun, lands_at,
}
use crossmesh_ingress_contra.VaultFactory.Settlement.{SettleRun, swap-SettleRun, AmountOf}
use crossmesh_ingress_contra.VaultFactory.Reachability.{
  Step, relayer_call, discount_call, admin_call, deploy_call, swap_call, elsewhere, Reach, here,
  next,
}

-- What a reader of the events makes of one of them.
abbrev pub note : Event → Storage → Storage
note (relayer_set r) s = write_relayer s r.relayer (if r.enabled then some true else none)
note (discount_set r) s = record s { discount = some r.discount_ppm }
note (admin_set r) s = record s { admin = some r.admin }
note _ s = s

-- The newest event is the last to be noted.
abbrev pub replay : List Event → Storage → Storage
replay [] s = s
replay (event ∷ l) s = note event (replay l s)

module _ {L : Type 0} (h : Host L) (vaults : VaultClient (World L)) (this : Address) where
  abbrev pub Quiet : World L → World L → Type 0
  Quiet w w' = own this w'.events ≡ own this w.events

  -- Nothing that the factory calls publishes in the factory's name.
  pub record Discreet : Type 0 where
    pub auth_quiet :
        (invoker : Option Address) (a : Address) (w w' : World L)
        → h.require_auth (frame this invoker) a w ≡ some (tt, w')
        → Quiet w w'
    pub deploy_quiet :
        (salt code : Hash) (a : Address) (w w' : World L)
        → h.deploy_contract this salt code w ≡ some (a, w')
        → Quiet w w'
    pub balance_quiet :
        (token a : Address) (n : ℤ) (w w' : World L)
        → h.balance this token a w ≡ some (n, w')
        → Quiet w w'
    pub vault_quiet :
        (owner : Bytes) (relayer filler : Address) (n min_out : ℤ) (hint : Bytes)
        (config : VaultConfig) (out : ℤ) (w w' : World L)
        → vaults.swap this
            (h.deployed_address this (h.sha256 owner))
            owner
            this
            relayer
            filler
            n
            min_out
            hint
            config
            w
          ≡ some (out, w')
        → Quiet w w'

  module _ (d : Discreet) (deployer : Deployer h) (x : Storage) where
    abbrev Logged : State L → Type 0
    Logged s = s.storage ≡ replay (own this s.world.events) x

    -- The admin's functions publish what they store.
    by_admin :
        (invoker : Option Address) (event : Event) (storage : Storage) (s t : State L)
        → ByAdmin h (frame this invoker) event storage s t
        → storage ≡ note event s.storage
        → Logged s
        → Logged t
    by_admin invoker event storage s t b noted logged =
        ap (λ (v : State L). v.storage) b.after
        ∙ noted
        ∙ ap (note event) (logged ∙ ap (λ l. replay l x) (sym final_quiet))
        ∙ ap (λ l. replay l x) (sym (own-publish b.final event (frame this invoker)))
        ∙ ap (λ (v : State L). replay (own this v.world.events) x) (sym b.after)
      where
        final_quiet : Quiet s.world b.final
        final_quiet = elim b.accepted [
          | inl same ↦
              ap (λ (v : World L). own this v.events) same
              ∙ d.auth_quiet invoker b.admin s.world b.signed b.authorized
          | inr (c, accepted) ↦
              d.auth_quiet invoker c b.signed b.final accepted
              ∙ d.auth_quiet invoker b.admin s.world b.signed b.authorized
        ]

    Quiet-step :
        (s t : State L) → t.storage ≡ s.storage → Quiet s.world t.world → Logged s → Logged t
    Quiet-step s t kept quiet logged = kept ∙ logged ∙ ap (λ l. replay l x) (sym quiet)

    -- A deployment publishes an event that changes nothing for the reader.
    deploy-Logged :
        (invoker : Option Address) (owner : Bytes) (a : Address) (s t : State L)
        → DeployRun h (frame this invoker) owner s a t
        → Logged s
        → Logged t
    deploy-Logged invoker owner a s t r logged = r.storage_kept ∙ logged ∙ elim r.way [
      | inl (_, _, same) ↦ ap (λ (v : State L). replay (own this v.world.events) x) (sym same)
      | inr (_, (w, landed, published)) ↦
          ap (λ l. replay l x) (sym (d.deploy_quiet _ _ a s.world w landed))
          ∙ ap (λ l. replay l x) (sym (own-publish w _ (frame this invoker)))
          ∙ ap (λ (v : World L). replay (own this v.events) x) (sym published)
    ]

    settle-Logged :
        (invoker : Option Address) (relayer : Address) (owner : Bytes) (amount : Option ℤ)
        (filler : Address) (min_out : ℤ) (hint : Bytes) (s t : State L) (out : ℤ)
        → SettleRun h vaults (frame this invoker) relayer owner amount filler min_out hint s out t
        → Logged s
        → Logged t
    settle-Logged invoker relayer owner amount filler min_out hint s t out r logged =
        let run = (deploy-DeployRun h (frame this invoker) owner s).at r.vault r.d r.deployed in
        let (at, _) = lands_at h deployer (frame this invoker) owner s r.d r.vault run in
        Quiet-step r.d t (r.storage_kept ∙ sym run.storage_kept)
          (ap (λ (v : State L). own this v.world.events) r.after
            ∙ d.vault_quiet owner relayer filler r.n min_out hint
                (in_force r.base s.storage.discount) out r.d'.world r.w (rw at at r.called)
            ∙ chosen_quiet amount r.base.usdc r.vault r.d r.n r.d' r.chosen)
          (deploy-Logged invoker owner r.vault s r.d run logged)
      where
        chosen_quiet :
            (asked : Option ℤ) (token vault : Address) (d1 : State L) (n : ℤ) (d2 : State L)
            → AmountOf h vaults
                (frame this invoker)
                relayer
                owner
                amount
                filler
                min_out
                hint
                asked
                token
                vault
                d1
                n
                d2
            → Quiet d1.world d2.world
        chosen_quiet (some a) token vault d1 n d2 (_, same) =
            ap (λ (v : State L). own this v.world.events) same
        chosen_quiet none token vault d1 n d2 (w, read, same) =
            ap (λ (v : State L). own this v.world.events) same
            ∙ d.balance_quiet token vault n d1.world w read

    Step-Logged : {s t : State L} → Step h vaults this s t → Logged s → Logged t
    Step-Logged {s} {t} (relayer_call v addr enabled p) logged =
        by_admin v _ _ s t ((set_relayer-ByAdmin h (frame this v) addr enabled s).at tt t p) refl
          logged
    Step-Logged {s} {t} (discount_call v n p) logged =
        by_admin v _ _ s t ((set_discount-ByAdmin h (frame this v) n s).at tt t p).1 refl logged
    Step-Logged {s} {t} (admin_call v new_admin p) logged =
        by_admin v _ _ s t ((set_admin-ByAdmin h (frame this v) new_admin s).at tt t p).0 refl
          logged
    Step-Logged {s} {t} (deploy_call v owner a p) logged =
        deploy-Logged v owner a s t ((deploy-DeployRun h (frame this v) owner s).at a t p) logged
    Step-Logged {s} {t} (swap_call v relayer owner amount filler min_out hint out p) logged =
        let (w, signed, _, r) =
          (swap-SettleRun h vaults (frame this v) relayer owner amount filler min_out hint s).at out
            t p in
        settle-Logged v relayer owner amount filler min_out hint (record s { world = w }) t out r
          (Quiet-step s (record s { world = w }) refl (d.auth_quiet v relayer s.world w signed)
            logged)
    Step-Logged {s} {t} (elsewhere kept quiet) logged = Quiet-step s t kept quiet logged

    Reach-Logged : {s t : State L} → Logged s → Reach h vaults this s t → Logged t
    Reach-Logged logged here = logged
    Reach-Logged logged (next r step) = Step-Logged step (Reach-Logged logged r)

  -- Whoever knows the constructor's arguments and the events that the factory published since can
  -- rebuild all of its storage, relayers included: after any history it is the constructor's with
  -- each event noted, in their order. The storage was empty before the constructor ran, nothing
  -- that the factory calls publishes in its name, and deployments land at the derived addresses.
  pub replay_rebuilds :
      Discreet
      → Deployer h
      → (e : Env) (admin : Address) (c : VaultConfig) (s0 s t : State L)
      → s0.storage ≡ empty_storage
      → constructor e admin c s0 ≡ done tt s
      → own this s.world.events ≡ []
      → Reach h vaults this s t
      → t.storage
        ≡ replay
            (own this t.world.events)
            (record empty_storage { admin = some admin; config = some c })
  replay_rebuilds d deployer e admin c s0 s t empty built silent r =
      let (_, stored) = (constructor-Ensures e admin c s0).at tt s built in
      Reach-Logged d deployer (record empty_storage { admin = some admin; config = some c })
        (rw silent (rw empty at stored)) r
