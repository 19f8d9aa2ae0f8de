-- ===== src/Sandbox/VaultExamples.antt =====
-- The theorems on contracts/vault at one swap, of 80 USDC, and one withdrawal.
use crossmesh_ingress_contra.Prelude.{
  ◌-◌, ℕ, suc, ◌*◌, ◌≤◌, ◌<◌, ◌≡◌, refl, ◌≢◌, ◌↔◌, some, List, [], ◌∷◌, arith,
}
use crossmesh_ingress_contra.Int.{ℤ, pos, ◌+ℤ◌, ◌-ℤ◌, ◌*ℤ◌, ◌≤ℤ◌}
use crossmesh_ingress_contra.Int.Checked.{in_i128, checked, checked_sub, checked_mul, div}
use crossmesh_ingress_contra.Exec.{Outcome, done, err, ◌>>=◌}
use crossmesh_ingress_contra.Interfaces.{Address}
use crossmesh_ingress_contra.Events.{Event, Swapped, swapped, withdrawn}
use crossmesh_ingress_contra.Host.{muxed_from, World}
use crossmesh_ingress_contra.Vault.{
  ppm, VaultError, invalid_amount, nothing_to_withdraw, unusable, is_stale, require_this_vault,
  withdraw, fresh_price, oracle_floor, swap,
}
use crossmesh_ingress_contra.Vault.OracleFloor.{Quoted}
use crossmesh_ingress_contra.Vault.Withdrawal.{withdraw_event, withdraw_returns_all}
use crossmesh_ingress_contra.Vault.WithdrawalErrors.{WithdrawFails, empty, withdraw_fails}
use crossmesh_ingress_contra.Vault.Refusals.{not_positive, swap_fails}
use crossmesh_ingress_contra.Sandbox.{
  Ledger, sandbox, usdc, xlm, feed, paying, config, relayer, factory, owner, filler, vault, start,
  vault_frame,
}
use crossmesh_ingress_contra.Sandbox.Promises.{assets, is_asset}
use crossmesh_ingress_contra.Mocks.{pay_out, fill_by, mock_fill}
use crossmesh_ingress_contra.Vault.Payout.{swap_event_recomputes, swap_delivers, swap_pays_owner}

abbrev world_of : {E A : Type 0} → Outcome (World Ledger) E A → World Ledger
world_of o = elim o [ done a w ↦ w | _ ↦ start ]

abbrev swapped_at : Outcome (World Ledger) VaultError ℤ
swapped_at =
    swap sandbox feed paying vault_frame owner factory relayer filler (pos 80) (pos 150) [] config
      start

abbrev after_swap : World Ledger
after_swap = world_of swapped_at

swap_ran : swapped_at ≡ done (pos 196) after_swap
unfolding swap ◌>>=◌ require_this_vault oracle_floor fresh_price is_stale unusable checked_sub
    checked_mul div checked in_i128 ◌+ℤ◌ ◌-ℤ◌ ◌*ℤ◌ mock_fill fill_by pay_out
swap_ran = refl

-- 80 USDC for at least 150 XLM, and 196 delivered.
swap_delivers_example :
    (pos 150 ≤ℤ pos 196)
    × (pos 10 ≤ℤ pos 196)
    × ((v : World Ledger) × (n q x u : ℕ) × (pos 80 ≡ pos (suc n))
        × Quoted sandbox feed vault_frame config v x u
        × (pos q ≤ℤ pos 196)
        × (q * x ≤ suc n * u)
        × (9 * (suc n * u) < 10 * (suc q * x)))
swap_delivers_example =
    swap_delivers sandbox feed paying assets vault_frame owner factory relayer filler (pos 80)
      (pos 150) [] config start after_swap (pos 196) swap_ran

swap_pays_owner_example :
    (v : World Ledger) × (pos 196 ≤ℤ assets.held xlm vault v.ledger)
    × (assets.held xlm vault after_swap.ledger ≡ pos 0)
    × (assets.held xlm 7 after_swap.ledger
        ≡ assets.held xlm 7 v.ledger +ℤ assets.held xlm vault v.ledger)
swap_pays_owner_example =
    swap_pays_owner sandbox feed paying assets vault_frame owner factory relayer filler (pos 80)
      (pos 150) [] config start after_swap (pos 196) (muxed_from 7) (is_asset xlm) refl
      (omega arith) swap_ran

-- The factory authorized a swap of no USDC.
swap_fails_example :
    swap sandbox feed paying vault_frame owner factory relayer filler
      (pos 0)
      (pos 150)
      []
      config
      start
    ≡ err invalid_amount
swap_fails_example =
    swap_fails sandbox feed paying vault_frame owner factory relayer filler (pos 0) (pos 150) []
      config start (err invalid_amount)
      (not_positive start
        (record { owner_muxed = muxed_from 7; derived = refl; parsed = refl; authorized = refl })
        (omega arith))

abbrev withdrawn_at : Outcome (World Ledger) VaultError ℤ
withdrawn_at = withdraw sandbox vault_frame owner factory usdc start

abbrev after_withdrawal : World Ledger
after_withdrawal = world_of withdrawn_at

withdraw_ran : withdrawn_at ≡ done (pos 80) after_withdrawal
unfolding withdraw ◌>>=◌ require_this_vault
withdraw_ran = refl

abbrev empty_vault : World Ledger
empty_vault = record start { ledger = record start.ledger { holdings = λ t a. 0 } }

-- A vault that holds nothing.
withdraw_fails_example :
    WithdrawFails sandbox vault_frame owner factory usdc empty_vault (err nothing_to_withdraw) ↔ (
      (withdraw sandbox vault_frame owner factory usdc empty_vault ≡ err nothing_to_withdraw)
      × ((n : ℤ) (w' : World Ledger)
          → ◌≢◌ {A = Outcome (World Ledger) VaultError ℤ} (err nothing_to_withdraw) (done n w')))
withdraw_fails_example =
    withdraw_fails sandbox vault_frame owner factory usdc empty_vault (err nothing_to_withdraw)

nothing_held :
    WithdrawFails sandbox vault_frame owner factory usdc empty_vault (err nothing_to_withdraw)
nothing_held =
    empty (muxed_from 7) (pos 0) empty_vault empty_vault
      (record { derived = refl; parsed = refl; authorized = refl }) refl (omega arith)

withdraw_returns_all_example :
    (v : World Ledger) × (sandbox.require_auth vault_frame 7 start ≡ some (tt, v))
    × (pos 80 ≡ assets.held usdc vault v.ledger)
    × (assets.held usdc vault after_withdrawal.ledger ≡ pos 0)
    × (assets.held usdc 7 after_withdrawal.ledger ≡ assets.held usdc 7 v.ledger +ℤ pos 80)
    × ((before : List (Address × Event)) × (after_withdrawal.events
          ≡ (
            vault,
            withdrawn (
                withdraw_event sandbox vault_frame owner factory usdc start
                  (muxed_from 7)
                  (pos 80)),
          )
            ∷ before))
withdraw_returns_all_example =
    withdraw_returns_all sandbox vault_frame owner factory usdc start assets (muxed_from 7) (pos 80)
      after_withdrawal (is_asset usdc) refl (omega arith) withdraw_ran

swap_event_recomputes_example :
    (ev : Swapped) × (before : List (Address × Event)) × (after_swap.events
      ≡ (vault, swapped ev) ∷ before)
    × (ev.owner_strkey ≡ owner)
    × (ev.amount_in ≡ pos 80)
    × (ev.amount_out ≡ pos 196)
    × (ev.floor ≤ℤ ev.want)
    × (ev.want ≤ℤ ev.amount_out)
    × ((n q x u : ℕ) × (ev.amount_in ≡ pos (suc n))
        × (ev.floor ≡ pos q)
        × (ev.xlm_price ≡ pos x)
        × (ev.usdc_price ≡ pos u)
        × (q * (x * ppm) ≤ suc n * u * (ppm - ev.discount_ppm))
        × (suc n * u * (ppm - ev.discount_ppm) < suc q * (x * ppm)))
swap_event_recomputes_example =
    swap_event_recomputes sandbox feed paying assets vault_frame owner factory relayer filler
      (pos 80) (pos 150) [] config start after_swap (pos 196) swap_ran
