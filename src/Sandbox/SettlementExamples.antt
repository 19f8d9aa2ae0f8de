-- ===== src/Sandbox/SettlementExamples.antt =====
-- The theorems on `swap` of contracts/vault-factory, and on the factory's history: the whole balance
-- of an address where no vault is deployed yet is settled.
use crossmesh_ingress_contra.Prelude.{ℕ, suc, ◌*◌, ◌<◌, ◌≡◌, ◌⊎◌, refl, true, none, some, [], arith}
use crossmesh_ingress_contra.Int.{ℤ, pos, ◌+ℤ◌, ◌-ℤ◌, ◌*ℤ◌, ◌≤ℤ◌}
use crossmesh_ingress_contra.Int.Checked.{checked_sub, checked_mul, div, checked, in_i128}
use crossmesh_ingress_contra.Exec.{Outcome, done, trap, ◌>>=◌}
use crossmesh_ingress_contra.Interfaces.{Address, VaultConfig, VaultClient}
use crossmesh_ingress_contra.Host.{Env, World, muxed_from}
use crossmesh_ingress_contra.Vault
use crossmesh_ingress_contra.Vault.{
  unusable, is_stale, require_this_vault, fresh_price, oracle_floor,
}
use crossmesh_ingress_contra.Vault.Config.{IsUsable}
use crossmesh_ingress_contra.Vault.OracleFloor.{Quoted}
use crossmesh_ingress_contra.VaultFactory
use crossmesh_ingress_contra.VaultFactory.{
  FactoryError, above_cap, invalid_config, not_relayer, Storage, empty_storage, State, in_force,
  invalid, read_admin, read_config, is_relayer, constructor, parse_owner, vault_address,
  deploy_missing, deploy, set_relayer, set_discount, set_admin, amount_or_balance, settle,
}
use crossmesh_ingress_contra.VaultFactory.Settlement.{AmountAt, swap_settles}
use crossmesh_ingress_contra.VaultFactory.Refusals.{malformed, no_vault, stopped, settlement_fails}
use crossmesh_ingress_contra.VaultFactory.Reachability.{
  relayer_call, discount_call, here, next, Step-changes, reachable_config,
}
use crossmesh_ingress_contra.System.Delivery.{settlement_delivers, Paid}
use crossmesh_ingress_contra.Mocks.{mock_fill, fill_by, pay_out}
use crossmesh_ingress_contra.Sandbox.{
  Ledger, sandbox, feed, paying, config, admin, relayer, factory, owner, filler, vault, usdc, xlm,
  factory_frame, vault_frame,
}
use crossmesh_ingress_contra.Sandbox.Promises.{assets, is_asset, deployer}
use crossmesh_ingress_contra.Sandbox.FactoryExamples.{
  blank, built, governed, discounted, state_of, relayer_set_ran, discount_set_ran, governed_config,
}

abbrev pub vaults : VaultClient (World Ledger)
vaults = Vault.as_client sandbox feed paying

-- The vault's whole balance is settled.
abbrev settled_at : Outcome (State Ledger) FactoryError ℤ
settled_at =
    VaultFactory.swap sandbox vaults factory_frame relayer owner none filler (pos 150) [] governed

abbrev settled : State Ledger
settled = state_of settled_at

settle_ran : settled_at ≡ done (pos 196) settled
unfolding VaultFactory.swap is_relayer settle amount_or_balance set_relayer read_admin deploy
    deploy_missing parse_owner read_config Vault.swap ◌>>=◌ require_this_vault oracle_floor
    fresh_price is_stale unusable checked_sub checked_mul div checked in_i128 ◌+ℤ◌ ◌-ℤ◌ ◌*ℤ◌
    mock_fill fill_by pay_out
settle_ran = refl

swap_settles_example :
    ((w : World Ledger) × (sandbox.require_auth factory_frame relayer governed.world
        ≡ some (tt, w)))
    × (is_relayer relayer governed ≡ done true governed)
    × (settled.storage ≡ governed.storage)
    × ((base : VaultConfig) × (n : ℤ) × (v : World Ledger) × (governed.storage.config ≡ some base)
        × AmountAt sandbox factory_frame none base.usdc vault n v
        × (vaults.swap factory vault owner factory relayer filler n
              (pos 150)
              []
              (in_force base governed.storage.discount)
              v
            ≡ some (pos 196, settled.world)))
swap_settles_example =
    swap_settles sandbox vaults factory_frame relayer owner none filler (pos 150) [] deployer
      governed settled (pos 196) settle_ran

settlement_delivers_example :
    (pos 150 ≤ℤ pos 196)
    × (pos 10 ≤ℤ pos 196)
    × ((b v : World Ledger) × (n q x u : ℕ) × AmountAt sandbox factory_frame none usdc vault
          (pos (suc n))
          b
        × Quoted sandbox feed vault_frame (in_force config governed.storage.discount) v x u
        × (pos q ≤ℤ pos 196)
        × (9 * (suc n * u) < 10 * (suc q * x)))
    × Paid sandbox feed paying assets deployer factory_frame relayer owner none filler
        (pos 150)
        []
        governed
        settled
        (pos 196)
        config
        xlm
        (muxed_from 7)
settlement_delivers_example =
    settlement_delivers sandbox feed paying assets deployer factory_frame relayer owner none filler
      (pos 150) [] governed settled (pos 196) config (muxed_from 7) governed_config (is_asset xlm)
      refl (omega arith) settle_ran

-- The owner is no strkey.
settlement_fails_example :
    VaultFactory.swap sandbox vaults factory_frame relayer [] none filler (pos 150) [] governed
    ≡ trap
unfolding set_relayer read_admin is_relayer ◌>>=◌
settlement_fails_example =
    settlement_fails sandbox vaults factory_frame relayer [] none filler (pos 150) [] governed trap
      (stopped governed.world refl refl (no_vault (malformed config refl refl)))

Step-changes_example :
    (governed.storage ≡ built.storage)
    ⊎ ((e : Env) × (a : Address) × (w : World Ledger) × (some admin ≡ some a)
        × (sandbox.require_auth e a built.world ≡ some (tt, w)))
Step-changes_example =
    Step-changes sandbox vaults factory built governed
      (relayer_call none relayer true relayer_set_ran)

pub constructed : constructor factory_frame admin config blank ≡ done tt built
unfolding constructor invalid ◌>>=◌
constructed = refl

-- The relayer is enabled, then the discount is changed.
reachable_config_example :
    (d : ℕ) × (read_config discounted ≡ done (record config { discount_ppm = d }) discounted)
    × IsUsable (record config { discount_ppm = d })
    × ((a : Address) × (read_admin discounted ≡ done a discounted))
reachable_config_example =
    reachable_config sandbox vaults factory factory_frame admin config blank built discounted refl
      constructed
      (next (next here (relayer_call none relayer true relayer_set_ran))
        (discount_call none 50_000 discount_set_ran))
