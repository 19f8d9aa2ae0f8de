-- ===== src/TestSupport/NativeSac.antt =====
-- `native_sac` of packages/test-support.
use crossmesh_ingress_contra.Prelude.{◌≡◌, refl, ap, sym, ◌∙◌, true, some}
use crossmesh_ingress_contra.Exec.{done, pure, call}
use crossmesh_ingress_contra.Exec.Ensures.{
  Ensures, Ensures-unwrap, Ensures-call, Ensures-gets, Ensures-if, Ensures-pure, Ensures-last_call,
}
use crossmesh_ingress_contra.Exec.Steps.{call_step, unwrap_step, gets_step, if_step}
use crossmesh_ingress_contra.Interfaces.{Address, Bytes}
use crossmesh_ingress_contra.TestSupport.{native, TestEnv, native_sac}
use crossmesh_ingress_contra.TestSupport.Laws.{HasAssets}

module _ {W : Type 0} (env : TestEnv W) (assets : HasAssets env) where
  open assets use {enters, lands}

  -- The contract of the native asset exists, at the asset's address.
  record SacAt (a : Address) (w' : W) : Type 0 where
    pub xdr : Bytes
    pub encoded : env.to_xdr native ≡ some xdr
    pub at_address : a ≡ env.asset_address xdr
    pub there : env.address_exists a w' ≡ true

  native_sac-SacAt : (frame : Address) (w : W) → Ensures SacAt (native_sac env frame w)
  unfolding native_sac
  native_sac-SacAt frame w = Ensures-unwrap _ _ _ _ λ xdr encoded.
      Ensures-call _ _ _ _ λ _ w' entered. Ensures-gets _ _ _ _ (
        Ensures-if _ (env.address_exists (env.asset_address xdr) w') (pure (env.asset_address xdr))
          (call (env.deploy_asset frame xdr)) w'
          (λ found.
            Ensures-pure _ _ _
              (record { xdr = xdr; encoded = encoded; at_address = refl; there = found }))
          (λ missing. Ensures-last_call _ _ _ λ a v did.
            let (same, there) = lands frame a xdr w' v did in
            record { xdr = xdr; encoded = encoded; at_address = same; there = there }))

  -- The native asset has one contract: after one call has returned its address, a call from any
  -- frame that can be entered returns the same, and changes nothing.
  pub native_sac_once :
      (frame other a : Address) (w w' v : W)
      → native_sac env frame w ≡ done a w'
      → env.as_contract other w' ≡ some (tt, v)
      → native_sac env other w' ≡ done a w'
  unfolding native_sac pure
  native_sac_once frame other a w w' v ran entered =
      let r = (native_sac-SacAt frame w).at a w' ran in
      unwrap_step _ _ _ r.encoded
      ∙ call_step _ _ _ entered
      ∙ rw (enters other w' v entered) (
          gets_step _ _ _
          ∙ if_step _ _ _ w' (ap (λ b. env.address_exists b w') (sym r.at_address) ∙ r.there)
          ∙ ap (λ b. done b w') (sym r.at_address))
