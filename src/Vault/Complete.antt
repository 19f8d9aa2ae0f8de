-- ===== src/Vault/Complete.antt =====
-- A `swap` of contracts/vault returns exactly when every one of its calls and checks goes through.
use crossmesh_ingress_contra.Prelude.{◌≡◌, refl, sym, ◌∙◌, ap, ◌↔◌, false, arith}
use crossmesh_ingress_contra.Int.{not_below, ℤ, pos, leb_ℤ}
use crossmesh_ingress_contra.Exec.{done, pure, modify, ◌>>=◌}
use crossmesh_ingress_contra.Exec.Steps.{bind_step, call_step, panic_if_step, unwrap_or_panic_step}
use crossmesh_ingress_contra.Interfaces.{Address, Bytes, VaultConfig, ReflectorClient, FillerClient}
use crossmesh_ingress_contra.Events.{swapped}
use crossmesh_ingress_contra.Host.{Env, World, Host, publish}
use crossmesh_ingress_contra.Vault.{VaultError, max_ℤ, swap}
use crossmesh_ingress_contra.Vault.Identity.{require_this_vault_returns}
use crossmesh_ingress_contra.Vault.Run.{SwapRun, swap-SwapRun, swap_event}

module _ {L : Type 0} (h : Host L) (oracle : ReflectorClient (World L))
    (fillers : FillerClient (World L)) (e : Env) (owner : Bytes) (factory relayer filler : Address)
    (amount min_out : ℤ) (hint : Bytes) (config : VaultConfig) (w : World L) where
  -- `SwapRun` names every call that `swap` makes, in order, and every check on what it read: a swap
  -- returns `delta` in the state `w'` exactly when such a run exists.
  pub swap_iff :
      (delta : ℤ) (w' : World L)
      → (swap h oracle fillers e owner factory relayer filler amount min_out hint config w
          ≡ done delta w')
        ↔ SwapRun h oracle fillers e owner factory relayer filler amount min_out hint config w delta
            w'
  unfolding swap
  swap_iff delta w' = (
    (swap-SwapRun h oracle fillers e owner factory relayer filler amount min_out hint config w).at
        delta w',
    λ r.
        bind_step _ _ _ (require_this_vault_returns h e owner factory w r.derived r.parsed)
        ∙ call_step _ _ _ r.authorized
        ∙ panic_if_step _ _ _ _ (positive_lem r)
        ∙ call_step _ _ _ r.usdc_read
        ∙ panic_if_step _ _ _ _ (not_below r.usdc_held amount r.covered)
        ∙ bind_step _ _ _ r.floored
        ∙ panic_if_step _ _ _ _ (not_below (max_ℤ min_out r.f.floor) config.min_delivery r.enough)
        ∙ call_step _ _ _ r.before_read
        ∙ call_step _ _ _ r.handed
        ∙ call_step _ _ _ r.filled
        ∙ call_step _ _ _ r.after_read
        ∙ unwrap_or_panic_step _ _ _ _ r.counted
        ∙ panic_if_step _ _ _ _ (not_below delta (max_ℤ min_out r.f.floor) r.delivered)
        ∙ call_step _ _ _ r.forwarded
        ∙ last_event r
        ∙ ap (done delta) (sym r.published),
  )
    where
      positive_lem :
          SwapRun h oracle fillers e owner factory relayer filler amount min_out hint config w delta
            w'
          → leb_ℤ amount (pos 0) ≡ false
      positive_lem r = rw r.positive (ground arith)

      last_event :
          (r : SwapRun h oracle fillers e owner factory relayer filler amount min_out hint config w
            delta w')
          → (modify {E = VaultError} (
                  publish e (
                    swapped (
                      swap_event h oracle fillers e owner factory relayer filler amount min_out hint
                        config w r.owner_muxed r.f delta r.after)))
                >>= λ _. pure delta)
              r.w8
            ≡ done delta (
                publish e
                  (swapped (
                    swap_event h oracle fillers e owner factory relayer filler amount min_out hint
                      config w r.owner_muxed r.f delta r.after))
                  r.w8)
      last_event r = unfold ◌>>=◌ in refl
