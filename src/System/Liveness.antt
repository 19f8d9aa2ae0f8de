-- ===== src/System/Liveness.antt =====
-- When a settlement through the factory returns, with the vault's code behind it.
use crossmesh_ingress_contra.Prelude.{ℕ, suc, ◌-◌, ◌*◌, ◌/◌, ◌^◌, ◌<◌, ◌≡◌, refl, true, some}
use crossmesh_ingress_contra.Int.{ℤ, pos, ◌+ℤ◌, ◌≤ℤ◌, ◌<ℤ◌}
use crossmesh_ingress_contra.Exec.{done}
use crossmesh_ingress_contra.Exec.Steps.{as_call-done}
use crossmesh_ingress_contra.Interfaces.{Address, Bytes, VaultConfig, ReflectorClient, FillerClient}
use crossmesh_ingress_contra.Host.{Env, World, Host, MuxedAddress, muxed_from, frame}
use crossmesh_ingress_contra.Host.Assets.{Assets}
use crossmesh_ingress_contra.Vault
use crossmesh_ingress_contra.Vault.{ppm, max_ℤ}
use crossmesh_ingress_contra.Vault.Config.{IsUsable}
use crossmesh_ingress_contra.Vault.Exit.{Accepts}
use crossmesh_ingress_contra.Vault.FloorRuns.{Answers}
use crossmesh_ingress_contra.Vault.Liveness.{Delivers, swap_returns}
use crossmesh_ingress_contra.VaultFactory
use crossmesh_ingress_contra.VaultFactory.{State, in_force, derive_address, is_relayer, deploy}
use crossmesh_ingress_contra.VaultFactory.Complete.{settlement_iff}
use crossmesh_ingress_contra.VaultFactory.Deployment.{deploy-DeployRun}

module _ {L : Type 0} (h : Host L) (oracle : ReflectorClient (World L))
    (fillers : FillerClient (World L)) (assets : Assets h) (e : Env) (relayer : Address)
    (owner : Bytes) (n : ℕ) (filler : Address) (min_out most : ℤ) (hint : Bytes)
    (Ready : World L → Type 0) (base : VaultConfig) (m : MuxedAddress) (x u xt ut : ℕ)
    (s d : State L) (w w1 w2 w3 : World L) where
  open assets use {IsAsset, held}

  abbrev config : VaultConfig
  config = in_force base s.storage.discount

  abbrev vault : Address
  vault = derive_address h e owner

  abbrev vault_frame : Env
  vault_frame = frame vault (some e.this)

  abbrev want : ℤ
  want = max_ℤ min_out (pos (suc n * u * (ppm - config.discount_ppm) / (x * ppm)))

  -- A settlement that an enabled relayer signed returns, and delivers no less than the relayer's
  -- bound and the floor, if: the owner's vault is there or is deployed, accepts the factory's
  -- call, and holds the amount, before and after the oracle is asked; USDC and XLM are asset
  -- contracts, and the configuration in force is usable; the feed answers with two fresh records;
  -- the products fit `i128` and one of the bounds reaches the minimum delivery; the vault can pay
  -- the filler and the owner; the filler is ready once it is paid, and keeps its promise; and the
  -- vault's XLM stays in range.
  pub settlement_returns :
      s.storage.config ≡ some base
      → h.require_auth e relayer s.world ≡ some (tt, w)
      → is_relayer relayer s ≡ done true s
      → deploy h e owner (record s { world = w }) ≡ done vault d
      → h.from_string_bytes owner ≡ some m
      → IsAsset config.usdc
      → IsAsset config.xlm
      → h.require_auth vault_frame e.this d.world ≡ some (tt, w1)
      → pos (suc n) ≤ℤ held config.usdc vault w1.ledger
      → IsUsable config
      → Answers h oracle vault_frame config w1 x u xt ut w2 w3
      → suc n * u < 2 ^ 127
      → suc n * u * (ppm - config.discount_ppm) < 2 ^ 127
      → x * ppm < 2 ^ 127
      → config.min_delivery ≤ℤ want
      → pos (suc n) ≤ℤ held config.usdc vault w3.ledger
      → Accepts h assets vault_frame config.usdc (muxed_from filler)
      → Accepts h assets vault_frame config.xlm m
      → ((v : World L)
          → h.transfer vault config.usdc vault (muxed_from filler) (pos (suc n)) w3 ≡ some (tt, v)
          → Ready v)
      → Delivers h assets vault_frame oracle fillers filler config.usdc config.xlm
          (pos (suc n))
          want
          most
          hint
          Ready
      → (held config.xlm vault w3.ledger +ℤ most) <ℤ pos (2 ^ 127)
      → (out : ℤ) × (t : State L) × (VaultFactory.swap h
            (Vault.as_client h oracle fillers)
            e
            relayer
            owner
            (some (pos (suc n)))
            filler
            min_out
            hint
            s
          ≡ done out t)
        × (want ≤ℤ out)
  settlement_returns stored signed enabled landed parsed usdc xlm called funded usable answers fits1
        fits2 fits3 enough still_funded pays_filler pays_owner ready promise room =
      let (out, w', ran, delivered) =
        swap_returns h assets vault_frame oracle fillers owner e.this relayer filler n min_out most
          hint Ready config m x u xt ut d.world w1 w2 w3 usdc xlm refl parsed called funded usable
          answers fits1 fits2 fits3 enough still_funded pays_filler pays_owner ready promise room in
      (
        out,
        record d { world = w' },
        (settlement_iff h (Vault.as_client h oracle fillers) e relayer owner (some (pos (suc n)))
              filler min_out hint s out (record d { world = w' })).1
            (
              w,
              signed,
              enabled,
              record {
                base = base;
                vault = vault;
                n = pos (suc n);
                d = d;
                d' = d;
                w = w';
                stored = stored;
                deployed = landed;
                chosen = (refl, refl);
                called =
                    as_call-done
                      (Vault.swap h oracle fillers vault_frame owner e.this relayer filler
                        (pos (suc n)) min_out hint config)
                      d.world ran;
                after = refl;
                storage_kept =
                    ((deploy-DeployRun h e owner (record s { world = w })).at vault d
                      landed).storage_kept;
              },
            ),
        delivered,
      )
