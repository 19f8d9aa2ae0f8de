-- ===== src/Vault/Payout.antt =====
-- What the owner gets from a successful `swap` of contracts/vault, whatever the filler does.
use crossmesh_ingress_contra.Prelude.{
  ℕ, suc, ◌-◌, ◌*◌, ◌≤◌, ◌<◌, ◌≡◌, ◌≢◌, refl, sym, ap, ◌∙◌, some, ◌∷◌, List, arith,
}
use crossmesh_ingress_contra.Int.{ℤ, pos, ◌+ℤ◌, ◌-ℤ◌, ◌≤ℤ◌, int_laws, parts_of_eq, sub_self}
use crossmesh_ingress_contra.Int.Bounds.{checked_sub-some}
use crossmesh_ingress_contra.Exec.{done}
use crossmesh_ingress_contra.Interfaces.{Address, Bytes, VaultConfig, ReflectorClient, FillerClient}
use crossmesh_ingress_contra.Events.{Event, Swapped, swapped}
use crossmesh_ingress_contra.Host.{Env, World, Host, MuxedAddress}
use crossmesh_ingress_contra.Host.Assets.{Assets, balance_read}
use crossmesh_ingress_contra.Vault.{ppm, max_ℤ, oracle_floor, swap}
use crossmesh_ingress_contra.Vault.FloorBounds.{oracle_floor_band, oracle_floor_rounds_down}
use crossmesh_ingress_contra.Vault.OracleFloor.{Quoted}
use crossmesh_ingress_contra.Vault.Run.{SwapRun, swap-SwapRun, swap_event}

max_left : (a b : ℤ) → a ≤ℤ max_ℤ a b
max_left a b = ground arith

pub max_right : (a b : ℤ) → b ≤ℤ max_ℤ a b
max_right a b = ground arith

module _ {L : Type 0} (h : Host L) (oracle : ReflectorClient (World L))
    (fillers : FillerClient (World L)) (assets : Assets h) (e : Env) (owner : Bytes)
    (factory relayer filler : Address) (amount min_out : ℤ) (hint : Bytes) (config : VaultConfig)
    (w w' : World L) (delta : ℤ) where
  open assets use {IsAsset, held, held_nonneg, balance_lem, transfer_from, transfer_to}

  abbrev Ran : Type 0
  Ran =
      swap h oracle fillers e owner factory relayer filler amount min_out hint config w
      ≡ done delta w'

  abbrev Run : Type 0
  Run =
      SwapRun h oracle fillers e owner factory relayer filler amount min_out hint config w delta w'

  run : Ran → Run
  run p =
      (swap-SwapRun h oracle fillers e owner factory relayer filler amount min_out hint config w).at
        delta w' p

  above : (r : Run) (z : ℤ) → z ≤ℤ max_ℤ min_out r.f.floor → z ≤ℤ delta
  above r z below = omega (arith, r.delivered)

  floor_ran : (r : Run) → oracle_floor h oracle e config (pos (suc r.n)) r.w2 ≡ done r.f r.w3
  floor_ran r = ap (λ z. oracle_floor h oracle e config z r.w2) (sym r.positive) ∙ r.floored

  -- What the last calls of a swap found, and did.
  module _ (m : MuxedAddress) (xlm : IsAsset config.xlm) (apart : e.this ≢ m.address)
      (r : Run) where
    after_lem : r.after ≡ held config.xlm e.this r.w7.ledger
    after_lem =
        let (read, same) = balance_read assets e.this config.xlm e.this r.w6 xlm r.after_read in
        read ∙ ap (λ (v : World L). held config.xlm e.this v.ledger) (sym same)

    before_nonneg : pos 0 ≤ℤ r.before
    before_nonneg =
        let (read, _) = balance_read assets e.this config.xlm e.this r.w3 xlm r.before_read in
        rw read (held_nonneg config.xlm e.this r.w3.ledger xlm)

    delta-le-held : delta ≤ℤ held config.xlm e.this r.w7.ledger
    delta-le-held = rw (← after_lem) (
        omega
          (int_laws, before_nonneg, parts_of_eq _ _ (checked_sub-some r.after r.before r.counted)))

  -- A swap delivers at least what the relayer asked for, what the configuration asks for, and a
  -- floor that is nine tenths or more (less one unit) of the amount's value at two fresh prices
  -- that the feed gave during the call.
  pub swap_delivers :
      swap h oracle fillers e owner factory relayer filler amount min_out hint config w
        ≡ done delta w'
      → (min_out ≤ℤ delta)
        × (config.min_delivery ≤ℤ delta)
        × ((v : World L) × (n q x u : ℕ) × (amount ≡ pos (suc n))
            × Quoted h oracle e config v x u
            × (pos q ≤ℤ delta)
            × (q * x ≤ suc n * u)
            × (9 * (suc n * u) < 10 * (suc q * x)))
  swap_delivers p =
      let r = run p in
      let (q, x, u, quoted, eq, high, low) =
        oracle_floor_band h oracle e config (suc r.n) r.w2 r.w3 r.f (floor_ran r) in
      (
        above r min_out (max_left min_out r.f.floor),
        above r config.min_delivery r.enough,
        (
          r.w2,
          r.n,
          q,
          x,
          u,
          r.positive,
          quoted,
          omega (arith, parts_of_eq _ _ eq, above r r.f.floor (max_right min_out r.f.floor)),
          high,
          low,
        ),
      )

  -- Whatever the filler does, a swap ends by paying the whole XLM balance of the vault, in which
  -- the delivery is contained, to the owner that the strkey names: the vault's balance is zero
  -- afterwards, and the owner's has grown by that much in the last transfer.
  pub swap_pays_owner :
      (m : MuxedAddress)
      → IsAsset config.xlm
      → h.from_string_bytes owner ≡ some m
      → e.this ≢ m.address
      → swap h oracle fillers e owner factory relayer filler amount min_out hint config w
        ≡ done delta w'
      → (v : World L) × (delta ≤ℤ held config.xlm e.this v.ledger)
        × (held config.xlm e.this w'.ledger ≡ pos 0)
        × (held config.xlm m.address w'.ledger
            ≡ held config.xlm m.address v.ledger +ℤ held config.xlm e.this v.ledger)
  swap_pays_owner m xlm parsed apart p =
      let r = run p in
      let paid = payout r (cc (parsed, r.parsed)) in
      (
        r.w7,
        delta-le-held m xlm apart r,
        ap (λ (v : World L). held config.xlm e.this v.ledger) r.published
            ∙ transfer_from _ _ _ _ _ _ _ xlm apart paid
            ∙ ap (λ n. held config.xlm e.this r.w7.ledger -ℤ n) (after_lem m xlm apart r)
            ∙ sub_self _,
        ap (λ (v : World L). held config.xlm m.address v.ledger) r.published
            ∙ transfer_to _ _ _ _ _ _ _ xlm apart paid
            ∙ ap (λ n. held config.xlm m.address r.w7.ledger +ℤ n) (after_lem m xlm apart r),
      )
    where
      payout :
          (r : Run)
          → r.owner_muxed ≡ m
          → h.transfer e.this config.xlm e.this m r.after r.w7 ≡ some (tt, r.w8)
      payout r e_m =
          ap (λ (o : MuxedAddress). h.transfer e.this config.xlm e.this o r.after r.w7) (sym e_m)
          ∙ r.forwarded

  -- The last event of a swap is its `Swapped`, and the event alone lets anyone recompute the floor:
  -- amount_in × usdc_price × (PPM − discount_ppm) / (xlm_price × PPM), rounded down. The amount
  -- delivered is at least `want`, which is at least that floor.
  pub swap_event_recomputes :
      swap h oracle fillers e owner factory relayer filler amount min_out hint config w
        ≡ done delta w'
      → (ev : Swapped) × (before : List (Address × Event)) × (w'.events
          ≡ (e.this, swapped ev) ∷ before)
        × (ev.owner_strkey ≡ owner)
        × (ev.amount_in ≡ amount)
        × (ev.amount_out ≡ delta)
        × (ev.floor ≤ℤ ev.want)
        × (ev.want ≤ℤ ev.amount_out)
        × ((n q x u : ℕ) × (ev.amount_in ≡ pos (suc n))
            × (ev.floor ≡ pos q)
            × (ev.xlm_price ≡ pos x)
            × (ev.usdc_price ≡ pos u)
            × (q * (x * ppm) ≤ suc n * u * (ppm - ev.discount_ppm))
            × (suc n * u * (ppm - ev.discount_ppm) < suc q * (x * ppm)))
  swap_event_recomputes p =
      let r = run p in
      let (q, x, u, _, eq, ex, eu, low, high) =
        oracle_floor_rounds_down h oracle e config (suc r.n) r.w2 r.w3 r.f (floor_ran r) in
      (
        swap_event h oracle fillers e owner factory relayer filler amount min_out hint config w
            r.owner_muxed r.f delta r.after,
        r.w8.events,
        ap (λ (v : World L). v.events) r.published,
        refl,
        refl,
        refl,
        max_right min_out r.f.floor,
        r.delivered,
        (r.n, q, x, u, r.positive, eq, ex, eu, low, high),
      )
