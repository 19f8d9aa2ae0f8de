-- ===== src/Sandbox/FulfilmentExamples.antt =====
-- The concrete Aquarius filler serves the concrete vault, and the vault's swap through it returns.
use crossmesh_ingress_contra.Prelude.{◌≡◌, refl, none, some, List, [], ◌∷◌, arith}
use crossmesh_ingress_contra.Int.{ℤ, pos, ◌+ℤ◌, ◌-ℤ◌, ◌*ℤ◌, ◌≤ℤ◌, int_laws}
use crossmesh_ingress_contra.Int.Checked.{checked_sub, checked_mul, div, checked, in_i128, as_u128}
use crossmesh_ingress_contra.Exec.{done, ◌>>=◌}
use crossmesh_ingress_contra.Interfaces.{RawHop}
use crossmesh_ingress_contra.Host.{World, muxed_from}
use crossmesh_ingress_contra.Mocks.{mock_chained, check_hops, pull_input}
use crossmesh_ingress_contra.Vault.{swap}
use crossmesh_ingress_contra.Vault.Liveness.{swap_returns}
use crossmesh_ingress_contra.System.Fulfilment.{aquarius_serves, aquarius-Delivers}
use crossmesh_ingress_contra.System.Priming.{Primed}
use crossmesh_ingress_contra.Sandbox.{
  Ledger, moved, sandbox, feed, config, relayer, factory, owner, filler, router, vault, usdc, xlm,
  start, vault_frame,
}
use crossmesh_ingress_contra.Sandbox.Promises.{assets, is_asset}
use crossmesh_ingress_contra.Sandbox.PriceExamples.{config-IsUsable, answers}
use crossmesh_ingress_contra.Sandbox.ConversionExamples.{storage, generous, aquarius}
use crossmesh_ingress_contra.Sandbox.LivenessExamples.{pays, accepts}

-- The vault has handed its 80 USDC over.
abbrev handed : World Ledger
handed = moved usdc vault filler 80 start

abbrev permitted : World Ledger
permitted = record handed {
  ledger = record handed.ledger {
    granted = record { contract = usdc; from = filler; to = router; amount = pos 80 } ∷ [];
  };
}

abbrev route : List RawHop
route = some ([], 0, xlm) ∷ []

abbrev routed : World Ledger
routed = elim (generous.swap_chained filler router filler route usdc 80 196 permitted) [
  | none ↦ permitted
  | some (n, w) ↦ w
]

abbrev PrimedHere : World Ledger → Type 0
PrimedHere =
    Primed sandbox generous assets storage vault filler usdc xlm (pos 80) (pos 196) (pos 200)
      (xlm ∷ [])

primed : PrimedHere handed
unfolding assets mock_chained check_hops pull_input ◌>>=◌ checked_mul div checked in_i128 as_u128
    ◌*ℤ◌ ◌+ℤ◌ ◌-ℤ◌ checked_sub
primed = record {
  code = 77;
  router = router;
  chain = route;
  hop = ([], 0, xlm);
  reported = 200;
  v1 = permitted;
  v2 = routed;
  signed = refl;
  served = refl;
  running = refl;
  decoded = refl;
  ends = refl;
  ends_in = refl;
  routed = refl;
  permitted = refl;
  converts = refl;
  taken = refl;
  gains = omega arith;
  limited = omega arith;
  aside = refl;
  usdc_small = omega arith;
  xlm_small = omega arith;
  pays = λ n nonneg enough. pays filler xlm vault n routed nonneg enough;
}

aquarius_serves_example :
    (got : ℤ) × (v' : World Ledger) × (aquarius.fill vault filler vault usdc
        (pos 80)
        xlm
        (pos 196)
        (xlm ∷ [])
        handed
      ≡ some (got, v'))
    × (pos 196 ≤ℤ got)
    × (got ≤ℤ pos 200)
    × (assets.held xlm vault v'.ledger ≡ assets.held xlm vault handed.ledger +ℤ got)
aquarius_serves_example =
    aquarius_serves sandbox generous assets storage vault filler usdc xlm (pos 80) (pos 196)
      (pos 200) (xlm ∷ []) handed primed (is_asset usdc) (is_asset xlm) (omega arith) (omega arith)
      (omega arith)

handed_over :
    (v : World Ledger)
    → sandbox.transfer vault usdc vault (muxed_from filler) (pos 80) start ≡ some (tt, v)
    → PrimedHere v
handed_over v p = rw (same v p) primed
  where
    same :
        (v : World Ledger)
        → sandbox.transfer vault usdc vault (muxed_from filler) (pos 80) start ≡ some (tt, v)
        → v ≡ handed
    same v p = cc

through_aquarius :
    (delta : ℤ) × (w' : World Ledger) × (swap sandbox feed aquarius vault_frame owner factory
        relayer filler
        (pos 80)
        (pos 150)
        (xlm ∷ [])
        config
        start
      ≡ done delta w')
    × (pos 196 ≤ℤ delta)
unfolding assets
through_aquarius =
    swap_returns sandbox assets vault_frame feed aquarius owner factory relayer filler 79 (pos 150)
      (pos 200) (xlm ∷ []) PrimedHere config (muxed_from 7) 40 100 990 990 start start start start
      (is_asset usdc) (is_asset xlm) refl refl refl (omega arith) config-IsUsable answers
      (omega arith) (omega arith) (omega arith) (omega arith) (omega arith)
      (accepts usdc (muxed_from filler)) (accepts xlm (muxed_from 7)) handed_over
      (aquarius-Delivers sandbox generous assets storage vault filler usdc xlm (pos 80) (pos 196)
        (pos 200) (xlm ∷ []) feed (some factory) (is_asset usdc) (is_asset xlm) (omega arith)
        (omega arith) (omega arith))
      (omega int_laws)
