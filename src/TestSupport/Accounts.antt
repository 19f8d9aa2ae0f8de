-- ===== src/TestSupport/Accounts.antt =====
-- The accounts and trustlines that packages/test-support writes.
use crossmesh_ingress_contra.Prelude.{◌≡◌, ◌≢◌, refl, ◌∙◌, Option, none, some}
use crossmesh_ingress_contra.Int.{ℤ}
use crossmesh_ingress_contra.Exec.{done, trap, call, unwrap}
use crossmesh_ingress_contra.Exec.Steps.{bind_step, unwrap_step, unwrap_trap}
use crossmesh_ingress_contra.Interfaces.{Address}
use crossmesh_ingress_contra.TestSupport.{
  AccountId, TrustLineAsset, native, issued, LedgerKey, trustline_of, LedgerEntry, TestEnv,
  new_account, new_trustline, account_id, create_trustline,
}
use crossmesh_ingress_contra.TestSupport.Laws.{IsLedger}

-- The entry of an account after `create_account`: the one it had, or else a new one.
abbrev pub kept_or_new : AccountId → ℤ → Option LedgerEntry → LedgerEntry
kept_or_new id xlm none = new_account id xlm
kept_or_new id xlm (some e) = e

module _ {W : Type 0} (env : TestEnv W) (ledger : IsLedger env) (address : Address) (id : AccountId)
    (known : env.account_id_of address ≡ some id) where
  open ledger use {entry, get_lem, adds, added, others}

  account_id_returns : (w : W) → account_id env address w ≡ done id w
  unfolding account_id unwrap
  account_id_returns w = rw known refl

  -- The native asset has no trustlines; for another, the account gets an empty, authorized one,
  -- whatever was there, and no other entry changes.
  pub create_trustline_writes :
      (w : W)
      → (create_trustline env address native w ≡ trap)
        × ((a : TrustLineAsset)
            → (w' : W) × (create_trustline env address (issued a) w ≡ done tt w')
              × (entry (trustline_of id a) w' ≡ some (new_trustline id a))
              × ((k : LedgerKey) → k ≢ trustline_of id a → entry k w' ≡ entry k w))
  unfolding create_trustline call
  create_trustline_writes w = (
    bind_step _ _ _ (account_id_returns w) ∙ unwrap_trap _ _ _ refl,
    λ a.
        let (w', did) = adds (trustline_of id a) (new_trustline id a) w in
        (
          w',
          bind_step _ _ _ (account_id_returns w) ∙ unwrap_step _ _ _ refl ∙ rw did refl,
          added (trustline_of id a) (new_trustline id a) w w' did,
          λ k other. others (trustline_of id a) (new_trustline id a) w w' k other did,
        ),
  )
