-- ===== src/Sandbox/Scenarios.antt =====
-- Runs of the contracts with the mocks of stellar/contracts/*/src/test.rs in each of their modes.
use crossmesh_ingress_contra.Prelude.{◌≡◌, refl, Option, none, some, [], ◌∷◌}
use crossmesh_ingress_contra.Int.{ℤ, pos, ◌+ℤ◌, ◌-ℤ◌, ◌*ℤ◌}
use crossmesh_ingress_contra.Int.Checked.{checked_sub, checked_mul, div, checked, in_i128, as_u128}
use crossmesh_ingress_contra.Exec.{Exec, Outcome, done, err, trap, as_call, ◌>>=◌, ◌>>◌}
use crossmesh_ingress_contra.Interfaces.{PriceData, other, AquariusRouterClient}
use crossmesh_ingress_contra.Host.{Env, World}
use crossmesh_ingress_contra.Vault
use crossmesh_ingress_contra.Vault.{
  VaultError, fill_shortfall, unusable, is_stale, require_this_vault, fresh_price, oracle_floor,
}
use crossmesh_ingress_contra.AquariusFiller.{
  FillerError, input_not_taken, State, read_router, vault_wasm, decode, convert, fill,
}
use crossmesh_ingress_contra.Instance.{Instance}
use crossmesh_ingress_contra.Mocks.Oracle.{Prices, no_prices, priced, set_price, clear, lastprice}
use crossmesh_ingress_contra.Mocks.{
  FillMode, pay_want, pay_nothing, pay_short, overpay, reenter, steal, honest, skips_input,
  takes_half, RouterError, Withdrawal, mock_deploy, mock_swap, pull, pay_out, take, fill_by,
  mock_fill, check_hops, pull_input, mock_chained, mock_router, require_that, mock_doubled,
  doubling_router, go,
}
use crossmesh_ingress_contra.Sandbox.{
  Ledger, sandbox, feed, filler_in, config, relayer, factory, owner, filler, vault, usdc, xlm,
  start, vault_frame,
}
use crossmesh_ingress_contra.Sandbox.FillerExamples.{handed, filler_frame}

-- A filler in the mode `mode` asked to convert `amount` of the vault's 80 USDC.
abbrev swap_with : FillMode → ℤ → Outcome (World Ledger) VaultError ℤ
swap_with mode amount =
    Vault.swap sandbox feed (filler_in mode) vault_frame owner factory relayer filler amount
      (pos 150) [] config start

abbrev returned : {S E : Type 0} → Outcome S E ℤ → Option ℤ
returned o = elim o [ done a s ↦ some a | _ ↦ none ]

-- What the vault makes of each mode. A payment that is short, or none, is refused. The vault is
-- running, so the host refuses the filler's call of it. The vault authorized no transfer of what is
-- left in it, and with nothing left the same filler pays. The filler holds less than the excess of
-- 5 XLM, counted in the smallest unit.
filler_modes :
    (swap_with pay_short (pos 80) ≡ err fill_shortfall)
    × (swap_with pay_nothing (pos 80) ≡ err fill_shortfall)
    × (returned (swap_with pay_want (pos 80)) ≡ some (pos 196))
    × (swap_with reenter (pos 80) ≡ trap)
    × (swap_with steal (pos 50) ≡ trap)
    × (returned (swap_with steal (pos 80)) ≡ some (pos 196))
    × (swap_with overpay (pos 80) ≡ trap)
unfolding Vault.swap ◌>>=◌ require_this_vault oracle_floor fresh_price is_stale unusable checked_sub
    checked_mul div checked in_i128 ◌+ℤ◌ ◌-ℤ◌ ◌*ℤ◌ mock_fill fill_by pay_out take
filler_modes = (refl, refl, refl, refl, refl, refl, refl)

abbrev fill_with : AquariusRouterClient (World Ledger) → Outcome (State Ledger) FillerError ℤ
fill_with client =
    fill sandbox client filler_frame vault usdc (pos 80) xlm (pos 150) (xlm ∷ []) handed

-- What the filler makes of each router. One that leaves the input is refused; one that takes half
-- fails, since only a transfer of the whole was permitted; and a router itself refuses a rate that
-- gives 80 XLM for a minimum of 150.
router_modes :
    (fill_with (mock_router sandbox (pos 2) (pos 1) skips_input) ≡ err input_not_taken)
    × (fill_with (mock_router sandbox (pos 2) (pos 1) takes_half) ≡ trap)
    × (fill_with (mock_router sandbox (pos 1) (pos 1) honest) ≡ trap)
    × (returned (fill_with (doubling_router sandbox)) ≡ some (pos 160))
unfolding fill convert decode vault_wasm read_router ◌>>=◌ checked_sub checked in_i128 as_u128 ◌-ℤ◌
    mock_chained check_hops pull_input checked_mul ◌*ℤ◌ div mock_doubled require_that
router_modes = (refl, refl, refl, refl)

-- The calls of a vault and of a filler through the tests' own contracts.
abbrev factory_frame : Env
factory_frame = record { this = factory; invoker = none }

abbrev through_factory : Outcome (World Ledger) RouterError ℤ
through_factory =
    mock_swap sandbox (Vault.as_client sandbox feed (filler_in pay_want)) factory_frame vault owner
      relayer filler (pos 80) (pos 150) [] config start

factory_forwards : returned through_factory ≡ some (pos 196)
unfolding Vault.swap ◌>>=◌ require_this_vault oracle_floor fresh_price is_stale unusable checked_sub
    checked_mul div checked in_i128 ◌+ℤ◌ ◌-ℤ◌ ◌*ℤ◌ mock_fill fill_by pay_out mock_swap
factory_forwards = refl

abbrev unsigned_start : World Ledger
unsigned_start = record start { ledger = record start.ledger { signers = [] } }

abbrev withdrawals : Withdrawal (World Ledger)
withdrawals caller vault owner factory token =
    as_call
      (Vault.withdraw sandbox (record { this = vault; invoker = some caller }) owner factory token)

-- The owner's contract is the direct invoker: no signature is needed.
owner_pulls :
    returned (
      pull sandbox withdrawals
        (record { this = 7; invoker = none })
        vault
        owner
        factory
        usdc
        unsigned_start)
    ≡ some (pos 80)
unfolding pull Vault.withdraw ◌>>=◌ require_this_vault
owner_pulls = refl

-- Another contract is not the owner.
stranger_pulls :
    pull sandbox withdrawals
      (record { this = 12; invoker = none })
      vault
      owner
      factory
      usdc
      unsigned_start
    ≡ trap
unfolding pull Vault.withdraw ◌>>=◌ require_this_vault
stranger_pulls = refl

vault_hands_over :
    returned
      (go sandbox (filler_in pay_want) vault_frame filler usdc (pos 80) xlm (pos 150) [] start)
    ≡ some (pos 150)
unfolding go ◌>>=◌ mock_fill fill_by pay_out
vault_hands_over = refl

-- There is a vault at the derived address already.
taken_address : mock_deploy sandbox factory_frame owner 77 start ≡ trap
unfolding mock_deploy ◌>>=◌
taken_address = refl

-- The oracle answers with what was set last, and with nothing once it is cleared.
abbrev asked : Exec (Instance Ledger Prices) RouterError (Option PriceData)
asked = do
  set_price (other "BTC") (pos 7) 980
  set_price (other "ETH") (pos 8) 980
  set_price (other "BTC") (pos 9) 990
  lastprice (other "BTC")

abbrev asked_again : Exec (Instance Ledger Prices) RouterError (Option PriceData)
asked_again = do set_price (other "BTC") (pos 7) 980; clear (other "BTC"); lastprice (other "BTC")

abbrev unpriced : Instance Ledger Prices
unpriced = record { world = start; storage = no_prices }

abbrev answer_of :
    Outcome (Instance Ledger Prices) RouterError (Option PriceData) → Option PriceData
answer_of o = elim o [ done a s ↦ a | _ ↦ none ]

oracle_answers :
    (answer_of (asked unpriced) ≡ some (priced (pos 9) 990))
    × (answer_of (asked_again unpriced) ≡ none)
unfolding ◌>>=◌ set_price clear lastprice
oracle_answers = (refl, refl)
