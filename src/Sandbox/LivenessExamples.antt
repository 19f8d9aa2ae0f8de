-- ===== src/Sandbox/LivenessExamples.antt =====
-- The theorems on when a vault's functions return, at the concrete vault.
use crossmesh_ingress_contra.Prelude.{◌≡◌, refl, some, [], arith}
use crossmesh_ingress_contra.Int.{ℤ, pos, negsuc, ◌+ℤ◌, ◌≤ℤ◌, int_laws}
use crossmesh_ingress_contra.Exec.{Outcome, done, ◌>>=◌}
use crossmesh_ingress_contra.Interfaces.{Address}
use crossmesh_ingress_contra.Host.{World, MuxedAddress, muxed_from}
use crossmesh_ingress_contra.Mocks.{mock_fill, fill_by, pay_out}
use crossmesh_ingress_contra.Vault
use crossmesh_ingress_contra.Vault.{withdraw}
use crossmesh_ingress_contra.VaultFactory
use crossmesh_ingress_contra.VaultFactory.{
  State, FactoryError, set_relayer, read_admin, deploy, deploy_missing, parse_owner, read_config,
  is_relayer,
}
use crossmesh_ingress_contra.System.Liveness.{settlement_returns}
use crossmesh_ingress_contra.Sandbox.FactoryExamples.{governed, state_of}
use crossmesh_ingress_contra.Vault.Exit.{Accepts, withdraw_returns}
use crossmesh_ingress_contra.Vault.FloorRuns.{Answers}
use crossmesh_ingress_contra.Vault.Liveness.{Delivers}
use crossmesh_ingress_contra.Sandbox.{
  Ledger, pay, moved, sandbox, feed, paying, config, relayer, factory, factory_frame, owner, filler,
  vault, usdc, xlm, start, vault_frame,
}
use crossmesh_ingress_contra.Sandbox.Promises.{assets, is_asset}
use crossmesh_ingress_contra.Sandbox.PriceExamples.{config-IsUsable}

pub pays :
    (from token to : Address) (n : ℤ) (w : World Ledger)
    → pos 0 ≤ℤ n
    → n ≤ℤ pos (w.ledger.holdings token from)
    → (w' : World Ledger) × (pay from token from to n w ≡ some (tt, w'))
pays from token to (pos n) w nonneg enough = (moved token from to n w, ground arith)
pays from token to (negsuc n) w nonneg enough = absurd (omega arith)

pub accepts : (token : Address) (to : MuxedAddress) → Accepts sandbox assets vault_frame token to
unfolding assets
accepts token to n w nonneg enough = pays vault token to.address n w nonneg enough

withdraw_returns_example :
    (w' : World Ledger) × (withdraw sandbox vault_frame owner factory usdc start
      ≡ done (assets.held usdc vault start.ledger) w')
    × (assets.held usdc vault w'.ledger ≡ pos 0)
    × (assets.held usdc 7 w'.ledger
        ≡ assets.held usdc 7 start.ledger +ℤ assets.held usdc vault start.ledger)
unfolding assets
withdraw_returns_example =
    withdraw_returns sandbox assets vault_frame owner factory usdc (muxed_from 7) start start
      (is_asset usdc) refl refl (omega arith) (accepts usdc (muxed_from 7)) refl (omega arith)

pays_want :
    (v : World Ledger)
    → pos 196 ≤ℤ pos (v.ledger.holdings xlm filler)
    → paying.fill vault filler vault usdc (pos 80) xlm (pos 196) [] v
      ≡ some (pos 196, moved xlm filler vault 196 v)
unfolding mock_fill fill_by pay_out ◌>>=◌
pays_want v stocked = ground arith

-- The filler holds what it is to pay.
abbrev Stocked : World Ledger → Type 0
Stocked v = pos 196 ≤ℤ pos (v.ledger.holdings xlm filler)

delivers :
    Delivers sandbox assets vault_frame feed paying filler usdc xlm
      (pos 80)
      (pos 196)
      (pos 196)
      []
      Stocked
unfolding assets
delivers = record {
  serves = λ v stocked.
      (pos 196, moved xlm filler vault 196 v, pays_want v stocked, omega int_laws, omega int_laws);
}

stays-Stocked :
    (w v : World Ledger)
    → pos 196 ≤ℤ pos (w.ledger.holdings xlm filler)
    → sandbox.transfer vault usdc vault (muxed_from filler) (pos 80) w ≡ some (tt, v)
    → Stocked v
stays-Stocked w v stocked p = ground arith

-- A factory with an enabled relayer, before the vault is deployed.
abbrev deployed_at : Outcome (State Ledger) FactoryError Address
deployed_at = deploy sandbox factory_frame owner governed

abbrev landed : State Ledger
landed = state_of deployed_at

deploy_ran : deployed_at ≡ done vault landed
unfolding set_relayer read_admin deploy deploy_missing parse_owner read_config ◌>>=◌
deploy_ran = refl

Answers-there :
    Answers sandbox feed vault_frame config landed.world 40 100 990 990 landed.world landed.world
unfolding set_relayer read_admin deploy deploy_missing parse_owner read_config ◌>>=◌
Answers-there = record {
  xlm_asked = refl;
  usdc_asked = refl;
  xlm_fresh = record { positive = omega arith; not_ahead = omega arith; not_old = omega arith };
  usdc_fresh = record { positive = omega arith; not_ahead = omega arith; not_old = omega arith };
  xlm_u64 = omega arith;
  usdc_u64 = omega arith;
}

settlement_returns_example :
    (out : ℤ) × (t : State Ledger) × (VaultFactory.swap sandbox
        (Vault.as_client sandbox feed paying)
        factory_frame
        relayer
        owner
        (some (pos 80))
        filler
        (pos 150)
        []
        governed
      ≡ done out t)
    × (pos 196 ≤ℤ out)
unfolding assets set_relayer read_admin deploy deploy_missing parse_owner read_config is_relayer
    ◌>>=◌
settlement_returns_example =
    settlement_returns sandbox feed paying assets factory_frame relayer owner 79 filler (pos 150)
      (pos 196) [] Stocked config (muxed_from 7) 40 100 990 990 governed landed governed.world
      landed.world landed.world landed.world refl refl refl deploy_ran refl (is_asset usdc)
      (is_asset xlm) refl (omega arith) config-IsUsable Answers-there (omega arith) (omega arith)
      (omega arith) (omega arith) (omega arith) (accepts usdc (muxed_from filler))
      (accepts xlm (muxed_from 7)) (λ v. stays-Stocked landed.world v (omega arith)) delivers
      (omega int_laws)
