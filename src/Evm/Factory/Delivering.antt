-- ===== src/Evm/Factory/Delivering.antt =====
-- src/DepositFactory.sol: where the USDC goes in a `deployAndFlush`.
use mathlib.Core.Path.{subst}
use crossmesh_ingress_contra.Prelude.{ℕ, ◌≡◌, ap, ◌∙◌, ◌⊎◌, Bool, true, some}
use crossmesh_ingress_contra.Exec.{done}
use crossmesh_ingress_contra.Interfaces.{Address, Bytes}
use crossmesh_ingress_contra.Evm.{ConfigStorage, Frame, State}
use crossmesh_ingress_contra.Evm.Word.{min, drop_last}
use crossmesh_ingress_contra.Evm.Network.{Network}
use crossmesh_ingress_contra.Evm.Forwarder.{hook_data}
use crossmesh_ingress_contra.Evm.Forwarder.Settling.{Settles}
use crossmesh_ingress_contra.Evm.Forwarder.Entry.{Limit}
use crossmesh_ingress_contra.Evm.Factory.{
  args_of, salt_of, compute_address, deploy, deploy_and_flush,
}
use crossmesh_ingress_contra.Evm.Factory.Deploying.{Predictable, drop_last-args, deploy-Deploys}
use crossmesh_ingress_contra.Evm.Factory.Relaying.{relay_frame, with_relay, deploy_and_flush-Relays}
use crossmesh_ingress_contra.Evm.Network.Ledger.{Ledger}
use crossmesh_ingress_contra.Evm.Forwarder.Conservation.{Exact, Settles-Exact}
use crossmesh_ingress_contra.Evm.Forwarder.Settlements.{flush-world}

module _ {W : Type 0} (n : Network W) (implementation : Address) (f : Frame) (to : Bytes)
    (index : ℕ) (flag : Bool) where
  -- A relayed flush that returns was asked for by an operator, or by anyone while flushing is
  -- public. It deployed the address computed for the recipient, or found it deployed; and that
  -- address's balance, or the limit of one burn if that is less, was settled exactly, by one
  -- message that carries the very recipient that was asked for.
  pub deploy_and_flush_delivers :
      (laws : Predictable n implementation
        (args_of to flag)
        (salt_of n implementation to index)
        f.this)
      (s t : State W) (a : Address) (l : Ledger n s.config.usdc s.config.token_messenger)
      → deploy_and_flush n implementation f to index flag s ≡ done a t
      → (a ≡ compute_address n implementation f to index flag)
        × ((s.config.is_operator f.sender ≡ true) ⊎ (s.config.public_flush ≡ true))
        × ((u : State W) × (balance limit : ℕ) × (deploy n implementation f to index flag s
              ≡ done a u)
            × (n.token.balance_of s.config.usdc a u.world ≡ some balance)
            × Limit n implementation f s.config limit u.world
            × ((x : Exact n
                  (relay_frame n implementation f to index flag a)
                  l
                  (min limit balance)
                  true
                  (with_relay n implementation f to index flag a u)
                  t.world)
                × (x.burn.hook_data ≡ hook_data to)))
  deploy_and_flush_delivers laws s t a l p =
      let r = (deploy_and_flush-Relays n implementation f to index flag s).at a t p in
      let u = r.deployed_state in
      let d = (deploy-Deploys n implementation f to index flag laws s).at a u r.deploys in
      let b = r.flushes in
      (
        d.address_is,
        rw d.config_kept at r.may_relay,
        (
          u,
          b.balance,
          b.limit,
          r.deploys,
          rw d.config_kept at b.balance_read,
          rw d.config_kept at b.limit_read,
          rw (flush-world n implementation (relay_frame n implementation f to index flag a) b) (
              committed_burn d.args_after (
                Settles-Exact n (relay_frame n implementation f to index flag a) l
                  (with_relay n implementation f to index flag a u)
                  (subst
                    (λ usdc.
                      Settles n (relay_frame n implementation f to index flag a) usdc
                        (min b.limit b.balance) true
                        (with_relay n implementation f to index flag a u) b.settled_state)
                    (ap (λ (c : ConfigStorage). c.usdc) d.config_kept) b.settles)
                  (ap (λ (c : ConfigStorage). c.token_messenger) d.config_kept))),
        ),
      )
    where
      committed_burn :
          {u : State W} {w : W} {amount : ℕ} {a : Address}
          → n.clones.fetch_clone_args a u.world ≡ some (args_of to flag)
          → (x : Exact n
              (relay_frame n implementation f to index flag a)
              l
              amount
              true
              (with_relay n implementation f to index flag a u)
              w)
          → (y : Exact n
              (relay_frame n implementation f to index flag a)
              l
              amount
              true
              (with_relay n implementation f to index flag a u)
              w)
            × (y.burn.hook_data ≡ hook_data to)
      committed_burn stored x =
          let args : x.args ≡ args_of to flag = cc (stored, x.args_read) in
          (
            x,
            x.to_recipient
                ∙ ap (λ r. hook_data (drop_last r)) args
                ∙ ap hook_data (drop_last-args to flag),
          )
