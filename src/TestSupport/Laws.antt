-- ===== src/TestSupport/Laws.antt =====
-- What packages/test-support relies on in the test environment.
use crossmesh_ingress_contra.Prelude.{◌≡◌, ◌≢◌, true, Option, some}
use crossmesh_ingress_contra.Interfaces.{Address, Bytes}
use crossmesh_ingress_contra.TestSupport.{LedgerKey, LedgerEntry, TestEnv}

-- The ledger is a map from keys to entries, and an addition sets one of them.
pub record IsLedger {W : Type 0} (env : TestEnv W) : Type 1 where
  pub entry : LedgerKey → W → Option LedgerEntry
  pub get_lem : (k : LedgerKey) (w : W) → env.get_ledger_entry k w ≡ some (entry k w, w)
  pub adds :
      (k : LedgerKey) (e : LedgerEntry) (w : W)
      → (w' : W) × (env.add_ledger_entry k e w ≡ some (tt, w'))
  pub added :
      (k : LedgerKey) (e : LedgerEntry) (w w' : W)
      → env.add_ledger_entry k e w ≡ some (tt, w')
      → entry k w' ≡ some e
  pub others :
      (k : LedgerKey) (e : LedgerEntry) (w w' : W) (l : LedgerKey)
      → l ≢ k
      → env.add_ledger_entry k e w ≡ some (tt, w')
      → entry l w' ≡ entry l w

-- Entering a frame changes nothing, and an asset contract lands at the asset's address.
pub record HasAssets {W : Type 0} (env : TestEnv W) : Type 0 where
  pub enters : (frame : Address) (w w' : W) → env.as_contract frame w ≡ some (tt, w') → w' ≡ w
  pub lands :
      (frame a : Address) (xdr : Bytes) (w w' : W)
      → env.deploy_asset frame xdr w ≡ some (a, w')
      → (a ≡ env.asset_address xdr) × (env.address_exists a w' ≡ true)
