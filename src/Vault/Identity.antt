-- ===== src/Vault/Identity.antt =====
-- `require_this_vault` of contracts/vault: who a vault takes for its factory and its owner.
use native.Mathlib.Decide.{ℕ_discrete}
use crossmesh_ingress_contra.Prelude.{
  ◌≡◌, ◌≢◌, refl, sym, ap, ◌∙◌, ◌⊎◌, inl, inr, none, some, arith,
}
use crossmesh_ingress_contra.Exec.{done, err, trap, unwrap}
use crossmesh_ingress_contra.Exec.Ensures.{Ensures, Ensures-panic_if, Ensures-last_unwrap}
use crossmesh_ingress_contra.Exec.Steps.{panic_if_step, panic_if_err}
use crossmesh_ingress_contra.Interfaces.{Address, Bytes}
use crossmesh_ingress_contra.Host.{Env, World, Host, MuxedAddress}
use crossmesh_ingress_contra.Vault.{not_this_vault, require_this_vault}

-- The two owners and factories themselves collide: different owners with one hash, or different
-- pairs of a factory and a hash with one derived address.
pub data Collision {L : Type 0} (h : Host L) (o1 o2 : Bytes) (f1 f2 : Address) : Type 0 where
  of_hash : o1 ≢ o2 → h.sha256 o1 ≡ h.sha256 o2 → Collision h o1 o2 f1 f2
  of_address :
      (f1 ≢ f2) ⊎ (h.sha256 o1 ≢ h.sha256 o2)
      → h.deployed_address f1 (h.sha256 o1) ≡ h.deployed_address f2 (h.sha256 o2)
      → Collision h o1 o2 f1 f2

Bytes-discrete : Discrete Bytes
Bytes-discrete = hlevel ℕ_discrete

module _ {L : Type 0} (h : Host L) where
  pub record Recognised (e : Env) (owner : Bytes) (factory : Address) (w : World L)
      (m : MuxedAddress) (w' : World L) : Type 0 where
    pub derived : h.deployed_address factory (h.sha256 owner) ≡ e.this
    pub parsed : h.from_string_bytes owner ≡ some m
    pub same : w' ≡ w

  module _ (e : Env) (owner : Bytes) (factory : Address) (w : World L) where
    pub require_this_vault-Recognised :
        Ensures (Recognised e owner factory w) (require_this_vault h e owner factory w)
    unfolding require_this_vault
    require_this_vault-Recognised = Ensures-panic_if _ _ _ _ _ λ passed.
        Ensures-last_unwrap _ _ _
          λ m parsed. record { derived = ground arith; parsed = parsed; same = refl }

    pub require_this_vault_returns :
        {m : MuxedAddress}
        → h.deployed_address factory (h.sha256 owner) ≡ e.this
        → h.from_string_bytes owner ≡ some m
        → require_this_vault h e owner factory w ≡ done m w
    unfolding require_this_vault
    require_this_vault_returns derived parsed =
        panic_if_step _ _ _ _ (ground arith) ∙ ap (λ o. unwrap o w) parsed ∙ (unfold unwrap in refl)

    -- Any other factory or owner is refused, whatever the strkey says.
    pub require_this_vault_refuses :
        h.deployed_address factory (h.sha256 owner) ≢ e.this
        → require_this_vault h e owner factory w ≡ err not_this_vault
    unfolding require_this_vault
    require_this_vault_refuses ne = panic_if_err _ _ _ _ (ground arith)

    -- A strkey that names nobody traps.
    pub require_this_vault_nameless :
        h.deployed_address factory (h.sha256 owner) ≡ e.this
        → h.from_string_bytes owner ≡ none
        → require_this_vault h e owner factory w ≡ trap
    unfolding require_this_vault
    require_this_vault_nameless derived nobody =
        panic_if_step _ _ _ _ (ground arith) ∙ ap (λ o. unwrap o w) nobody ∙ (unfold unwrap in refl)

  -- Two calls that one vault recognises name the same factory and the same owner, unless those
  -- factories and owners collide under the hash or under the address derivation.
  pub one_owner :
      (e : Env) (o1 o2 : Bytes) (f1 f2 : Address) (w w1 w2 : World L) (m1 m2 : MuxedAddress)
      → require_this_vault h e o1 f1 w ≡ done m1 w1
      → require_this_vault h e o2 f2 w ≡ done m2 w2
      → ((o1 ≡ o2) × (f1 ≡ f2)) ⊎ Collision h o1 o2 f1 f2
  one_owner e o1 o2 f1 f2 w w1 w2 m1 m2 p1 p2 =
      decide_owner (Bytes-discrete o1 o2) (ℕ_discrete f1 f2)
        (ℕ_discrete (h.sha256 o1) (h.sha256 o2))
    where
      both : h.deployed_address f1 (h.sha256 o1) ≡ h.deployed_address f2 (h.sha256 o2)
      both =
          ((require_this_vault-Recognised e o1 f1 w).at m1 w1 p1).derived
          ∙ sym ((require_this_vault-Recognised e o2 f2 w).at m2 w2 p2).derived

      decide_owner :
          Dec (o1 ≡ o2)
          → Dec (f1 ≡ f2)
          → Dec (h.sha256 o1 ≡ h.sha256 o2)
          → ((o1 ≡ o2) × (f1 ≡ f2)) ⊎ Collision h o1 o2 f1 f2
      decide_owner (yes o) (yes f) _ = inl (o, f)
      decide_owner _ (no f) _ = inr (of_address (inl f) both)
      decide_owner (no o) _ (yes s) = inr (of_hash o s)
      decide_owner (no o) _ (no s) = inr (of_address (inr s) both)
