-- ===== src/Sandbox/ConversionExamples.antt =====
-- One swap of the concrete vault through the code of the Aquarius filler, with a router that gives
-- five for two.
use crossmesh_ingress_contra.Prelude.{◌≡◌, refl, ap, some, [], ◌∷◌, arith}
use crossmesh_ingress_contra.Int.{ℤ, ◌≤ℤ◌, pos, ◌-ℤ◌, ◌+ℤ◌, ◌*ℤ◌}
use crossmesh_ingress_contra.Int.Checked.{checked_sub, checked_mul, div, checked, in_i128, as_u128}
use crossmesh_ingress_contra.Exec.{Outcome, done, ◌>>=◌}
use crossmesh_ingress_contra.Interfaces.{Address, FillerClient, AquariusRouterClient}
use crossmesh_ingress_contra.Host.{World, muxed_from}
use crossmesh_ingress_contra.Vault.{
  VaultError, unusable, is_stale, require_this_vault, fresh_price, oracle_floor, swap,
}
use crossmesh_ingress_contra.AquariusFiller.{
  Storage, decode, read_router, vault_wasm, convert, fill, as_filler,
}
use crossmesh_ingress_contra.System.Conversion.{Routed, swap_through_aquarius}
use crossmesh_ingress_contra.Mocks.{honest, mock_router, mock_chained, check_hops, pull_input}
use crossmesh_ingress_contra.Sandbox.{
  Ledger, sandbox, feed, config, relayer, factory, owner, filler, router, usdc, xlm, start,
  vault_frame,
}
use crossmesh_ingress_contra.Sandbox.Promises.{assets, is_asset, signs_same}

abbrev pub storage : Storage
storage = record { router = some router; vault_wasm = some 77 }

abbrev pub generous : AquariusRouterClient (World Ledger)
generous = mock_router sandbox (pos 5) (pos 2) honest

abbrev pub aquarius : FillerClient (World Ledger)
aquarius = as_filler sandbox generous storage

abbrev swapped_at : Outcome (World Ledger) VaultError ℤ
swapped_at =
    swap sandbox feed aquarius vault_frame owner factory relayer filler (pos 80) (pos 150)
      (xlm ∷ []) config start

abbrev after_swap : World Ledger
after_swap = elim swapped_at [ done a w ↦ w | _ ↦ start ]

swap_ran : swapped_at ≡ done (pos 200) after_swap
unfolding swap ◌>>=◌ require_this_vault oracle_floor fresh_price is_stale unusable checked_sub
    checked_mul div checked in_i128 as_u128 ◌+ℤ◌ ◌-ℤ◌ ◌*ℤ◌ fill convert decode vault_wasm
    read_router mock_chained check_hops pull_input
swap_ran = refl

same_ledger :
    (token : Address) (w w' : World Ledger)
    → w' ≡ w
    → assets.held token filler w'.ledger ≡ assets.held token filler w.ledger
same_ledger token w w' p = ap (λ (v : World Ledger). assets.held token filler v.ledger) p

swap_through_aquarius_example :
    ((want : ℤ) × (pos 150 ≤ℤ want)
      × Routed sandbox generous feed assets storage vault_frame owner factory relayer filler
          (pos 80)
          (pos 150)
          (xlm ∷ [])
          config
          (muxed_from 7)
          start
          after_swap
          (pos 200)
          want)
    × (assets.held usdc filler after_swap.ledger ≡ assets.held usdc filler start.ledger)
    × (assets.held xlm filler after_swap.ledger ≡ assets.held xlm filler start.ledger)
swap_through_aquarius_example =
    swap_through_aquarius sandbox generous feed assets storage vault_frame owner factory relayer
      filler (pos 80) (pos 150) (xlm ∷ []) config (muxed_from 7) start after_swap (pos 200)
      (λ f a v v' p token _. same_ledger token v v' (signs_same f a v v' p))
      (λ f asset answer v v' p token _. same_ledger token v v' cc) (is_asset usdc) (is_asset xlm)
      refl (omega arith) (omega arith) swap_ran
