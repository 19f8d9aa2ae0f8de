-- ===== src/Sandbox/FillerExamples.antt =====
-- The theorems on contracts/aquarius-filler at one conversion, of 80 USDC that a vault handed over.
use crossmesh_ingress_contra.Prelude.{
  ◌≡◌, refl, true, some, List, [], ◌∷◌, arith, if◌then◌else◌, ◌==◌,
}
use crossmesh_ingress_contra.Int.{ℤ, pos, ◌+ℤ◌, ◌-ℤ◌, ◌*ℤ◌, ◌≤ℤ◌}
use crossmesh_ingress_contra.Int.Checked.{checked_sub, checked_mul, div, checked, in_i128, as_u128}
use crossmesh_ingress_contra.Exec.{Outcome, done, err, ◌>>=◌}
use crossmesh_ingress_contra.Interfaces.{Address}
use crossmesh_ingress_contra.Events.{Event, filled}
use crossmesh_ingress_contra.Host.{Env, World}
use crossmesh_ingress_contra.AquariusFiller.{
  FillerError, route_token_mismatch, State, read_router, vault_wasm, decode, convert, fill,
}
use crossmesh_ingress_contra.AquariusFiller.Run.{fill_event}
use crossmesh_ingress_contra.AquariusFiller.Exactness.{fill_exact}
use crossmesh_ingress_contra.AquariusFiller.Refusals.{other_token, fill_fails}
use crossmesh_ingress_contra.Mocks.{mock_chained, check_hops, pull_input}
use crossmesh_ingress_contra.Sandbox.{
  Ledger, sandbox, exchange, filler, router, vault, usdc, xlm, start,
}
use crossmesh_ingress_contra.Sandbox.Promises.{assets, is_asset}

-- The vault's 80 USDC are with the filler.
abbrev pub handed : State Ledger
handed = record {
  world = record start {
    ledger = record start.ledger {
      holdings = λ t a.
          if t == usdc then (if a == filler then 80 else 0) else (if a == router then 900 else 0);
    };
  };
  storage = record { router = some router; vault_wasm = some 77 };
}

abbrev pub filler_frame : Env
filler_frame = record { this = filler; invoker = some vault }

abbrev filled_at : Outcome (State Ledger) FillerError ℤ
filled_at = fill sandbox exchange filler_frame vault usdc (pos 80) xlm (pos 150) (xlm ∷ []) handed

abbrev after_fill : State Ledger
after_fill = elim filled_at [ done a s ↦ s | _ ↦ handed ]

fill_ran : filled_at ≡ done (pos 160) after_fill
unfolding fill convert decode vault_wasm read_router ◌>>=◌ checked_sub checked in_i128 as_u128 ◌-ℤ◌
    mock_chained check_hops pull_input checked_mul ◌*ℤ◌ div
fill_ran = refl

small : in_i128 (pos 80) ≡ true
unfolding in_i128
small = refl

small_out : in_i128 (pos 150) ≡ true
unfolding in_i128
small_out = refl

fill_exact_example :
    (v u : World Ledger) × (sandbox.require_auth filler_frame vault handed.world ≡ some (tt, v))
    × (pos 150 ≤ℤ pos 160)
    × (assets.held xlm filler after_fill.world.ledger ≡ assets.held xlm filler v.ledger)
    × (assets.held usdc filler after_fill.world.ledger ≡ assets.held usdc filler v.ledger -ℤ pos 80)
    × (assets.held xlm vault after_fill.world.ledger ≡ assets.held xlm vault u.ledger +ℤ pos 160)
    × ((before : List (Address × Event)) × (after_fill.world.events
          ≡ (
            filler,
            filled (
                fill_event sandbox exchange filler_frame vault usdc
                  (pos 80)
                  xlm
                  (pos 150)
                  (pos 160)),
          )
            ∷ before))
fill_exact_example =
    fill_exact sandbox exchange filler_frame vault usdc (pos 80) xlm (pos 150) (xlm ∷ []) handed
      after_fill (pos 160) assets (is_asset usdc) (is_asset xlm) (omega arith) (omega arith)
      fill_ran

-- The route obtains USDC.
fill_fails_example :
    fill sandbox exchange filler_frame vault usdc (pos 80) xlm (pos 150) (usdc ∷ []) handed
    ≡ err route_token_mismatch
fill_fails_example =
    fill_fails sandbox exchange filler_frame vault usdc (pos 80) xlm (pos 150) (usdc ∷ []) handed
      (err route_token_mismatch)
      (other_token handed.world (some ([], 0, usdc) ∷ []) ([], 0, usdc)
        (record {
          code = 77;
          stored = refl;
          signed = refl;
          running = refl;
          positive = omega arith;
          nonneg = omega arith;
        })
        refl refl (omega arith))
