-- ===== src/Evm/Factory/Deploying.antt =====
-- src/DepositFactory.sol: what `deploy` and `deployAndFlush` do, given what OpenZeppelin documents
-- of its Clones.
use mathlib.Core.List.{◌++◌}
use crossmesh_ingress_contra.Prelude.{
  ℕ, ◌<◌, ◌≡◌, refl, ap, ◌∙◌, Bool, true, false, not, some, [], ◌∷◌, arith, ◌==◌, if◌then◌else◌,
  lt→ltb,
}
use crossmesh_ingress_contra.Exec.{done, pure, gets, ◌>>=◌}
use crossmesh_ingress_contra.Exec.Ensures.{
  Ensures, Ensures-pure, Ensures-if, Ensures-gets, Ensures-modify,
}
use crossmesh_ingress_contra.Exec.Steps.{unwrap_step}
use crossmesh_ingress_contra.Interfaces.{Address, Hash, Bytes}
use crossmesh_ingress_contra.Evm.{Frame, State}
use crossmesh_ingress_contra.Evm.Rules.{Ensures-in_world}
use crossmesh_ingress_contra.Evm.Word.{last, drop_last}
use crossmesh_ingress_contra.Evm.Network.{Network}
use crossmesh_ingress_contra.Evm.Forwarder.{recipient, fast}
use crossmesh_ingress_contra.Evm.Factory.{
  args_of, salt_of, compute_address, is_deployed, create, deploy,
}

-- For one implementation, arguments, salt and deployer: the clone is created at the predicted
-- address, with the arguments given; and what has code at that address has those arguments.
pub record Predictable {W : Type 0} (n : Network W) (implementation : Address) (args : Bytes)
    (salt : Hash) (deployer : Address) : Type 0 where
  pub lands :
      (a : Address) (v w : W)
      → n.clones.clone_deterministic implementation args salt deployer v ≡ some (a, w)
      → (a ≡ n.clones.predict implementation args salt deployer)
        × (0 < n.code_length a w)
        × (n.clones.fetch_clone_args a w ≡ some args)
  pub committed :
      (w : W)
      → 0 < n.code_length (n.clones.predict implementation args salt deployer) w
      → n.clones.fetch_clone_args (n.clones.predict implementation args salt deployer) w ≡ some args

last-append : (l : Bytes) (x : ℕ) → last (l ++ x ∷ []) ≡ some x
last-append [] x = refl
last-append (y ∷ []) x = refl
last-append (y ∷ z ∷ l) x = last-append (z ∷ l) x

drop_last-append : (l : Bytes) (x : ℕ) → drop_last (l ++ x ∷ []) ≡ l
drop_last-append [] x = refl
drop_last-append (y ∷ []) x = refl
drop_last-append (y ∷ z ∷ l) x = ap (λ r. y ∷ r) (drop_last-append (z ∷ l) x)

pub drop_last-args : (to : Bytes) (flag : Bool) → drop_last (args_of to flag) ≡ to
unfolding args_of
drop_last-args to flag = drop_last-append to _

not_zero : (l : ℕ) → 0 < l → (l == 0) ≡ false
not_zero l h = ground arith

code_there : (l : ℕ) → (l == 0) ≡ false → 0 < l
code_there l h = ground arith

flag_read : (b : Bool) → not ((if b then 1 else 0) == 0) ≡ b
flag_read true = refl
flag_read false = refl

module _ {W : Type 0} (n : Network W) (f : Frame) (to : Bytes) (flag : Bool) (s : State W)
    (there : n.clones.fetch_clone_args f.this s.world ≡ some (args_of to flag)) where
  pub recipient-args : recipient n f s ≡ done to s
  unfolding recipient args_of pure ◌>>=◌
  recipient-args =
      unwrap_step _ s _ there ∙ unwrap_step _ s _ (last-append to _) ∙ rw (drop_last-append to) refl

  pub fast-args : fast n f s ≡ done flag s
  unfolding fast args_of pure ◌>>=◌
  fast-args =
      unwrap_step _ s _ there ∙ unwrap_step _ s _ (last-append to _) ∙ rw (flag_read flag) refl

module _ {W : Type 0} (n : Network W) (implementation : Address) where
  -- What `deploy` leaves: the address, and code there with the arguments.
  pub record Deploys (f : Frame) (recipient : Bytes) (index : ℕ) (fast : Bool) (a : Address)
      (s t : State W) : Type 0 where
    pub address_is : a ≡ compute_address n implementation f recipient index fast
    pub has_code_after : 0 < n.code_length a t.world
    pub args_after : n.clones.fetch_clone_args a t.world ≡ some (args_of recipient fast)
    pub config_kept : t.config ≡ s.config
    pub clones_kept : t.clones ≡ s.clones

  module _ (f : Frame) (to : Bytes) (index : ℕ) (flag : Bool)
      (laws : Predictable n implementation
        (args_of to flag)
        (salt_of n implementation to index)
        f.this) where
    create-Deploys :
        (s : State W)
        → Ensures (λ a t. Deploys f to index flag a s t) (create n implementation f to index flag s)
    unfolding create compute_address
    create-Deploys s = Ensures-in_world _ _ s _ λ a w p.
        let (address_is, code_after, args_after) = laws.lands a s.world w p in
        Ensures-modify _ _ _ _ (
          Ensures-pure _ a _ (record {
            address_is = address_is;
            has_code_after = code_after;
            args_after = args_after;
            config_kept = refl;
            clones_kept = refl;
          }))

    pub deploy-Deploys :
        (s : State W)
        → Ensures (λ a t. Deploys f to index flag a s t) (deploy n implementation f to index flag s)
    unfolding deploy compute_address args_of
    deploy-Deploys s = Ensures-gets _ _ s _ (
        Ensures-if _ _ _ _ s (λ _. create-Deploys s)
          (λ exists. Ensures-pure _ _ s (record {
            address_is = refl;
            has_code_after = code_there _ exists;
            args_after = laws.committed s.world (code_there _ exists);
            config_kept = refl;
            clones_kept = refl;
          })))

    there_again :
        (t : State W)
        → 0 < n.code_length (compute_address n implementation f to index flag) t.world
        → (is_deployed n implementation f to index flag t ≡ done true t)
          × (deploy n implementation f to index flag t
              ≡ done (compute_address n implementation f to index flag) t)
    unfolding deploy is_deployed gets pure ◌>>=◌
    there_again t h = (rw (lt→ltb 0 _ h) refl, rw (not_zero _ h) refl)

    -- The address that `deploy` returns is the one computed beforehand, it has code afterwards,
    -- the clone there reads back the recipient and the flag that were asked for, and a second
    -- deployment returns the same address and changes nothing.
    pub deploy_commits :
        (s t : State W) (a : Address) (g : Frame)
        → deploy n implementation f to index flag s ≡ done a t
        → g.this ≡ a
        → (a ≡ compute_address n implementation f to index flag)
          × (is_deployed n implementation f to index flag t ≡ done true t)
          × (recipient n g t ≡ done to t)
          × (fast n g t ≡ done flag t)
          × (deploy n implementation f to index flag t ≡ done a t)
    deploy_commits s t a g h p =
        let d = (deploy-Deploys s).at a t h in
        let again = there_again t (rw (← d.address_is) d.has_code_after) in
        (
          d.address_is,
          again.0,
          recipient-args n g to flag t (rw p d.args_after),
          fast-args n g to flag t (rw p d.args_after),
          rw d.address_is again.1,
        )
