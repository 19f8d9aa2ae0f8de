-- ===== src/System/Fulfilment.antt =====
-- The code of the Aquarius filler as the filler that a vault expects.
use crossmesh_ingress_contra.Prelude.{◌≡◌, ◌≢◌, refl, ap, ◌∙◌, Option, some}
use crossmesh_ingress_contra.Int.{ℤ, pos, ◌+ℤ◌, ◌≤ℤ◌, int_laws, parts_of_eq}
use crossmesh_ingress_contra.Interfaces.{Address, Bytes, ReflectorClient, AquariusRouterClient}
use crossmesh_ingress_contra.Host.{World, Host, muxed_from, frame}
use crossmesh_ingress_contra.Host.Assets.{Assets}
use crossmesh_ingress_contra.Vault.Liveness.{Delivers}
use crossmesh_ingress_contra.AquariusFiller.{Storage, as_filler}
use crossmesh_ingress_contra.System.Priming.{Primed, got, payment, after_fill, ran}

module _ {L : Type 0} (h : Host L) (routers : AquariusRouterClient (World L)) (assets : Assets h)
    (storage : Storage) (vault filler usdc xlm : Address) (amount want most : ℤ)
    (hint : Bytes) where
  open assets use {IsAsset, held, transfer_to}

  -- The code of the Aquarius filler does what a vault's swap needs of a filler. In a state where
  -- it is primed, with two asset contracts, a positive amount and a minimum that is not negative,
  -- `fill` returns to the vault that called it, another address, and the vault then has as much
  -- more XLM as the router gave: at least `want`, at most `most`.
  pub aquarius_serves :
      (v : World L)
      → Primed h routers assets storage vault filler usdc xlm amount want most hint v
      → IsAsset usdc
      → IsAsset xlm
      → filler ≢ vault
      → pos 1 ≤ℤ amount
      → pos 0 ≤ℤ want
      → (got : ℤ) × (v' : World L) × ((as_filler h routers storage).fill vault filler vault usdc
            amount xlm want hint v
          ≡ some (got, v'))
        × (want ≤ℤ got)
        × (got ≤ℤ most)
        × (held xlm vault v'.ledger ≡ held xlm vault v.ledger +ℤ got)
  aquarius_serves v p usdc_is xlm_is apart positive nonneg =
      let (w, paid) =
        payment h routers assets storage vault filler usdc xlm amount want most hint usdc_is xlm_is
          positive nonneg v p in
      (
        got h routers assets storage vault filler usdc xlm amount want most hint usdc_is xlm_is
            positive nonneg v p,
        (after_fill h routers assets storage vault filler usdc xlm amount want most hint usdc_is
            xlm_is positive nonneg v p).world,
        rw
            (
              as_filler,
              ran h routers assets storage vault filler usdc xlm amount want most hint usdc_is
                  xlm_is positive nonneg v p,
            )
            refl,
        omega (int_laws, p.gains),
        omega (int_laws, p.limited),
        transfer_to filler xlm filler (muxed_from vault) _ p.v2 w xlm_is apart paid
            ∙ ap
                (λ n.
                  n
                  +ℤ got h routers assets storage vault filler usdc xlm amount want most hint
                      usdc_is xlm_is positive nonneg v p)
                p.aside,
      )

  -- The same, as the promise that `swap_returns` takes.
  pub aquarius-Delivers :
      (oracle : ReflectorClient (World L)) (invoker : Option Address)
      → IsAsset usdc
      → IsAsset xlm
      → filler ≢ vault
      → pos 1 ≤ℤ amount
      → pos 0 ≤ℤ want
      → Delivers h assets
          (frame vault invoker)
          oracle
          (as_filler h routers storage)
          filler
          usdc
          xlm
          amount
          want
          most
          hint
          (Primed h routers assets storage vault filler usdc xlm amount want most hint)
  aquarius-Delivers oracle invoker usdc_is xlm_is apart positive nonneg = record {
    serves = λ v p.
        let (got, v', returned, enough, limited, arrived) =
          aquarius_serves v p usdc_is xlm_is apart positive nonneg in
        (
          got,
          v',
          returned,
          omega (int_laws, enough, parts_of_eq _ _ arrived),
          omega (int_laws, limited, parts_of_eq _ _ arrived),
        );
  }
