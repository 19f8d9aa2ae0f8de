-- ===== src/Vault/AccountMoves.antt =====
-- A swap and a withdrawal of contracts/vault are moves of the account.
use crossmesh_ingress_contra.Prelude.{suc, ℕ, ◌≡◌, ◌≢◌, sym, ap, ◌∙◌, Option, some, ◌∷◌, arith}
use mathlib.Core.Path.{subst}
use crossmesh_ingress_contra.Int.{
  ℤ, pos, ◌+ℤ◌, ◌-ℤ◌, ◌≤ℤ◌, ≤ℤ_trans, int_laws, parts_of_eq, sub_self,
}
use crossmesh_ingress_contra.Int.Bounds.{checked_sub-some}
use crossmesh_ingress_contra.Interfaces.{Address, Bytes, VaultConfig, ReflectorClient, FillerClient}
use crossmesh_ingress_contra.Events.{swapped, withdrawn}
use crossmesh_ingress_contra.Host.{World, Host, MuxedAddress, muxed_from, frame}
use crossmesh_ingress_contra.Host.Assets.{Assets, balance_read}
use crossmesh_ingress_contra.Host.Log.{own, own-publish}
use crossmesh_ingress_contra.Vault.{max_ℤ}
use crossmesh_ingress_contra.Vault.Account.{Priced, Account, Redeemed, Move, exchange, redeem}
use crossmesh_ingress_contra.Vault.Calls.{oracle_floor-Ensures}
use crossmesh_ingress_contra.Vault.Payout.{max_right}
use crossmesh_ingress_contra.Vault.Run.{SwapRun, swap_event}
use crossmesh_ingress_contra.Vault.Withdrawal.{WithdrawRun, withdraw_event}
use crossmesh_ingress_contra.Vault.Shelter.{Kept, Kept-trans, Sheltered, account}

module _ {L : Type 0} (h : Host L) (oracle : ReflectorClient (World L))
    (fillers : FillerClient (World L)) (assets : Assets h) (this : Address)
    (config : VaultConfig) where
  open assets use {IsAsset, held, transfer_from, transfer_elsewhere}

  abbrev view : World L → Account
  view = account h oracle fillers assets this config

  abbrev KeptHere : World L → World L → Type 0
  KeptHere = Kept h oracle fillers assets this config

  module _ (g : Sheltered h oracle fillers assets this config) (usdc_asset : IsAsset config.usdc)
      (xlm_asset : IsAsset config.xlm) (owner : Bytes) (factory : Address) (m : MuxedAddress)
      (parsed : h.from_string_bytes owner ≡ some m) (apart : this ≢ m.address) where
    redeemed :
        (invoker : Option Address) (token : Address) (amount : ℤ) (w w' : World L)
        (r : WithdrawRun h (frame this invoker) owner factory token w amount w') (asset : Address)
        → IsAsset asset
        → held asset this w.ledger ≤ℤ held asset this r.w1.ledger
        → held asset this r.w1.ledger ≤ℤ held asset this r.w2.ledger
        → Redeemed
            (withdraw_event h (frame this invoker) owner factory token w r.owner_muxed amount)
            asset
            (held asset this w.ledger)
            (held asset this r.w3.ledger)
    redeemed invoker token amount w w' r asset is authed read = record {
      emptied = λ same.
          let found = balance_read assets this asset this r.w1 is (rw same at r.read) in
          let left =
            transfer_from this asset this r.owner_muxed amount r.w2 r.w3 is (rw owner_same apart)
              (rw same at r.paid) in
          (
            omega (arith, authed, parts_of_eq amount (held asset this r.w1.ledger) found.0),
            left
                ∙ ap (λ n. held asset this r.w2.ledger -ℤ n)
                    (found.0 ∙ ap (λ (v : World L). held asset this v.ledger) (sym found.1))
                ∙ sub_self (held asset this r.w2.ledger),
          );
      kept = λ other.
          ≤ℤ_trans (held asset this w.ledger) (held asset this r.w1.ledger)
            (held asset this r.w3.ledger) authed
            (≤ℤ_trans (held asset this r.w1.ledger) (held asset this r.w2.ledger)
              (held asset this r.w3.ledger) read
              (g.sent_apart token asset r.owner_muxed amount r.w2 r.w3 is (λ p. other (sym p))
                r.paid));
    }
      where
        owner_same : r.owner_muxed ≡ m
        owner_same = cc (parsed, r.parsed)

    pub withdraw-Move :
        (invoker : Option Address) (token : Address) (amount : ℤ) (w w' : World L)
        → WithdrawRun h (frame this invoker) owner factory token w amount w'
        → Move config.usdc config.xlm (view w) (view w')
    withdraw-Move invoker token amount w w' r =
        let authed = g.auth_kept invoker r.owner_muxed.address w r.w1 r.authorized in
        let read = g.read_kept token amount r.w1 r.w2 r.read in
        let event =
          withdraw_event h (frame this invoker) owner factory token w r.owner_muxed amount in
        subst (λ v. Move config.usdc config.xlm (view w) (view v)) (sym r.published)
          (redeem event
            (own-publish r.w3 (withdrawn event) (frame this invoker)
              ∙ ap (λ l. withdrawn event ∷ l)
                  (g.sent_quiet token r.owner_muxed amount r.w2 r.w3 r.paid
                    ∙ read.log
                    ∙ authed.log))
            (redeemed invoker token amount w w' r config.usdc usdc_asset authed.usdc read.usdc)
            (redeemed invoker token amount w w' r config.xlm xlm_asset authed.xlm read.xlm))

    module _ (invoker : Option Address) (relayer filler : Address) (amount min_out : ℤ)
        (hint : Bytes) (discount : ℕ) (delta : ℤ) (w w' : World L)
        (r : SwapRun h oracle fillers
          (frame this invoker)
          owner
          factory
          relayer
          filler
          amount
          min_out
          hint
          (record config { discount_ppm = discount })
          w
          delta
          w') where
      owner_same : r.owner_muxed ≡ m
      owner_same = cc (parsed, r.parsed)

      -- The calls before the USDC is handed over, and those between the two transfers.
      asked : KeptHere w r.w3
      asked =
          (Kept-trans h oracle fillers assets this config) w r.w1 r.w3
            (g.auth_kept invoker factory w r.w1 r.authorized)
            ((Kept-trans h oracle fillers assets this config) r.w1 r.w2 r.w3
              (g.read_kept config.usdc r.usdc_held r.w1 r.w2 r.usdc_read)
              ((oracle_floor-Ensures h (frame this invoker) KeptHere oracle
                  (Kept-trans h oracle fillers assets this config) g.oracle_kept
                  (record config { discount_ppm = discount }) amount r.w2).at
                r.f r.w3 r.floored))

      before_kept : KeptHere r.w3 r.w4
      before_kept = g.read_kept config.xlm r.before r.w3 r.w4 r.before_read

      served : (this ≢ filler) × KeptHere r.w5 r.w6
      served =
          g.fill_kept filler config.usdc config.xlm amount (max_ℤ min_out r.f.floor) r.reported hint
            r.w5 r.w6 r.filled

      after_kept : KeptHere r.w6 r.w7
      after_kept = g.read_kept config.xlm r.after r.w6 r.w7 r.after_read

      apart_assets : config.usdc ≢ config.xlm
      apart_assets = r.computed.usable.two_assets

      usdc_spent : held config.usdc this w.ledger -ℤ amount ≤ℤ held config.usdc this r.w8.ledger
      usdc_spent = omega (
        int_laws,
        asked.usdc,
        before_kept.usdc,
        parts_of_eq _ _ (
            transfer_from this config.usdc this (muxed_from filler) amount r.w4 r.w5 usdc_asset
              served.0 r.handed),
        served.1.usdc,
        after_kept.usdc,
        g.sent_apart config.xlm config.usdc r.owner_muxed r.after r.w7 r.w8 usdc_asset apart_assets
            r.forwarded,
      )

      xlm_paid : held config.xlm this w.ledger +ℤ delta ≤ℤ r.after
      xlm_paid = omega (
        int_laws,
        asked.xlm,
        parts_of_eq r.before _
            (balance_read assets this config.xlm this r.w3 xlm_asset r.before_read).0,
        parts_of_eq delta _ (checked_sub-some r.after r.before r.counted),
      )

      xlm_gone : held config.xlm this r.w8.ledger ≡ pos 0
      xlm_gone =
          let found = balance_read assets this config.xlm this r.w6 xlm_asset r.after_read in
          transfer_from this config.xlm this r.owner_muxed r.after r.w7 r.w8 xlm_asset
            (rw owner_same apart) r.forwarded
          ∙ ap (λ n. held config.xlm this r.w7.ledger -ℤ n)
              (found.0 ∙ ap (λ (v : World L). held config.xlm this v.ledger) (sym found.1))
          ∙ sub_self (held config.xlm this r.w7.ledger)

      quiet : own this r.w8.events ≡ own this w.events
      quiet =
          g.sent_quiet config.xlm r.owner_muxed r.after r.w7 r.w8 r.forwarded
          ∙ after_kept.log
          ∙ served.1.log
          ∙ g.sent_quiet config.usdc (muxed_from filler) amount r.w4 r.w5 r.handed
          ∙ before_kept.log
          ∙ asked.log

      priced : Priced (
          swap_event h oracle fillers
            (frame this invoker)
            owner
            factory
            relayer
            filler
            amount
            min_out
            hint
            (record config { discount_ppm = discount })
            w
            r.owner_muxed
            r.f
            delta
            r.after)
      priced = record {
        amount = suc r.n;
        xlm = r.computed.xlm;
        usdc = r.computed.usdc;
        amount_in = r.positive;
        xlm_price = r.computed.floor.xlm_price;
        usdc_price = r.computed.floor.usdc_price;
        amount_positive = omega arith;
        xlm_positive = r.computed.quoted.xlm_positive;
        usdc_positive = r.computed.quoted.usdc_positive;
        capped = r.computed.usable.discount_capped;
        floor = r.computed.floor.quotient;
      }

      pub swap-Move : Move config.usdc config.xlm (view w) (view w')
      swap-Move =
          let event =
            swap_event h oracle fillers (frame this invoker) owner factory relayer filler amount
              min_out hint (record config { discount_ppm = discount }) w r.owner_muxed r.f delta
              r.after in
          subst (λ v. Move config.usdc config.xlm (view w) (view v)) (sym r.published)
            (exchange event
              (own-publish r.w8 (swapped event) (frame this invoker)
                ∙ ap (λ l. swapped event ∷ l) quiet)
              usdc_spent priced (max_right min_out r.f.floor) r.delivered xlm_paid xlm_gone)
