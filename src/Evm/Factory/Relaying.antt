-- ===== src/Evm/Factory/Relaying.antt =====
-- src/DepositFactory.sol: what `deployAndFlush` does when it returns.
use crossmesh_ingress_contra.Prelude.{
  ℕ, ◌≡◌, refl, ◌⊎◌, inl, inr, Bool, true, false, ◌||◌, ◌∷◌, ◌==◌,
}
use crossmesh_ingress_contra.Exec.{done, pure}
use crossmesh_ingress_contra.Exec.Ensures.{
  Ensures, Ensures-pure, Ensures-if, Ensures-bind, Ensures-gets, Ensures-modify,
}
use crossmesh_ingress_contra.Interfaces.{Address, Bytes}
use crossmesh_ingress_contra.Evm.{flush_relayed, Frame, State}
use crossmesh_ingress_contra.Evm.Rules.{Ensures-in_world, Ensures-require}
use crossmesh_ingress_contra.Evm.Network.{Network}
use crossmesh_ingress_contra.Evm.Forwarder.Entry.{Flushes, flush-Flushes}
use crossmesh_ingress_contra.Evm.Factory.{compute_address, create, deploy, deploy_and_flush}

module _ {W : Type 0} (n : Network W) (implementation : Address) (f : Frame) (to : Bytes)
    (index : ℕ) (flag : Bool) where
  pub record Keeps (s t : State W) : Type 0 where
    pub config_kept : t.config ≡ s.config
    pub clones_kept : t.clones ≡ s.clones

  create-Keeps :
      (s : State W) → Ensures (λ _ t. Keeps s t) (create n implementation f to index flag s)
  unfolding create
  create-Keeps s = Ensures-in_world _ _ s _ λ a w _.
      Ensures-modify _ _ _ _
        (Ensures-pure _ a _ (record { config_kept = refl; clones_kept = refl }))

  pub deploy-Keeps :
      (s : State W) → Ensures (λ _ t. Keeps s t) (deploy n implementation f to index flag s)
  unfolding deploy
  deploy-Keeps s = Ensures-gets _ _ s _ (
      Ensures-if _ (n.code_length (compute_address n implementation f to index flag) s.world == 0)
        (create n implementation f to index flag)
        (pure (compute_address n implementation f to index flag)) s (λ _. create-Keeps s)
        (λ _. Ensures-pure _ _ s (record { config_kept = refl; clones_kept = refl })))

  -- the frame of the clone that the factory calls
  abbrev pub relay_frame : Address → Frame
  relay_frame a = record { this = a; sender = f.this; timestamp = f.timestamp }

  abbrev pub with_relay : Address → State W → State W
  with_relay a s = record s { log = (f.this, flush_relayed f.sender a) ∷ s.log }

  pub record Relays (a : Address) (s t : State W) : Type 0 where
    pub deployed_state : State W
    pub deploys : deploy n implementation f to index flag s ≡ done a deployed_state
    pub may_relay :
        (deployed_state.config.is_operator f.sender ≡ true)
        ⊎ (deployed_state.config.public_flush ≡ true)
    pub flushes : Flushes n implementation (relay_frame a) (with_relay a deployed_state) t

  either : (a b : Bool) → (a || b) ≡ true → (a ≡ true) ⊎ (b ≡ true)
  either true b h = inl refl
  either false b h = inr h

  pub deploy_and_flush-Relays :
      (s : State W)
      → Ensures (λ a t. Relays a s t) (deploy_and_flush n implementation f to index flag s)
  unfolding deploy_and_flush
  deploy_and_flush-Relays s =
      Ensures-bind _ _ s (λ a u. deploy n implementation f to index flag s ≡ done a u) _
        (record { at = λ a u h. h })
        λ a u deploys. Ensures-gets _ _ u _ (
          Ensures-require _ _ u _ _ λ may. Ensures-modify _ _ u _ (
            Ensures-bind _ _ _ _ _ (flush-Flushes n implementation (relay_frame a) (with_relay a u))
              λ _ t flushes. Ensures-pure _ a t (record {
                deployed_state = u;
                deploys = deploys;
                may_relay = either _ _ may;
                flushes = flushes;
              })))
