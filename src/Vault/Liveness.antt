-- ===== src/Vault/Liveness.antt =====
-- When `swap` of contracts/vault returns.
use crossmesh_ingress_contra.Prelude.{
  ℕ, suc, ◌-◌, ◌*◌, ◌/◌, ◌^◌, ◌<◌, ◌≡◌, ◌≢◌, refl, sym, some, arith,
}
use crossmesh_ingress_contra.Int.{ℤ, pos, ◌+ℤ◌, ◌-ℤ◌, ◌≤ℤ◌, ◌<ℤ◌, int_laws}
use crossmesh_ingress_contra.Int.Bounds.{checked_sub-returns}
use crossmesh_ingress_contra.Exec.{done}
use crossmesh_ingress_contra.Interfaces.{Address, Bytes, VaultConfig, ReflectorClient, FillerClient}
use crossmesh_ingress_contra.Host.{Env, World, Host, MuxedAddress, muxed_from}
use crossmesh_ingress_contra.Host.Assets.{Assets}
use crossmesh_ingress_contra.Vault.{ppm, max_ℤ, swap}
use crossmesh_ingress_contra.Vault.Complete.{swap_iff}
use crossmesh_ingress_contra.Vault.Config.{IsUsable}
use crossmesh_ingress_contra.Vault.FloorRuns.{Answers, oracle_floor_returns}
use crossmesh_ingress_contra.Vault.OracleFloor.{oracle_floor-Computed}
use crossmesh_ingress_contra.Vault.Exit.{Accepts}

module _ {L : Type 0} (h : Host L) (assets : Assets h) (e : Env) where
  open assets use {
    IsAsset, held, held_nonneg, balance_lem, transfer_from, transfer_to, transfer_elsewhere,
  }

  abbrev Takes : Address → MuxedAddress → Type 0
  Takes = Accepts h assets e

  module _ (oracle : ReflectorClient (World L)) (fillers : FillerClient (World L)) where
    -- What a filler promises a vault that hands it USDC: in every state that is `Ready` for it, it
    -- serves the call, and the vault then has `want` more XLM, or up to `most` more.
    pub record Delivers (filler usdc xlm : Address) (amount want most : ℤ) (hint : Bytes)
        (Ready : World L → Type 0) : Type 0 where
      pub serves :
          (v : World L)
          → Ready v
          → (reported : ℤ) × (v' : World L) × (fillers.fill e.this filler e.this usdc amount xlm
                want hint v
              ≡ some (reported, v'))
            × (held xlm e.this v.ledger +ℤ want ≤ℤ held xlm e.this v'.ledger)
            × (held xlm e.this v'.ledger ≤ℤ held xlm e.this v.ledger +ℤ most)

    -- The two calls that hand the USDC over and have the filler serve it.
    record Served (filler usdc xlm : Address) (amount want most : ℤ) (hint : Bytes) (v : World L)
        : Type 0 where
      pub reported : ℤ
      pub v1 : World L
      pub v2 : World L
      pub handed : h.transfer e.this usdc e.this (muxed_from filler) amount v ≡ some (tt, v1)
      pub filled :
          fillers.fill e.this filler e.this usdc amount xlm want hint v1 ≡ some (reported, v2)
      pub gained : held xlm e.this v.ledger +ℤ want ≤ℤ held xlm e.this v2.ledger
      pub limited : held xlm e.this v2.ledger ≤ℤ held xlm e.this v.ledger +ℤ most

    module _ (filler usdc xlm : Address) (amount want most : ℤ) (hint : Bytes)
        (Ready : World L → Type 0) (v : World L) where
      serve :
          IsAsset usdc
          → IsAsset xlm
          → usdc ≢ xlm
          → pos 1 ≤ℤ amount
          → amount ≤ℤ held usdc e.this v.ledger
          → Takes usdc (muxed_from filler)
          → ((v1 : World L)
              → h.transfer e.this usdc e.this (muxed_from filler) amount v ≡ some (tt, v1)
              → Ready v1)
          → Delivers filler usdc xlm amount want most hint Ready
          → Served filler usdc xlm amount want most hint v
      serve usdc_is xlm_is two positive funded pays_filler ready promise =
          let (v1, handed) = pays_filler amount v (omega (arith, positive)) funded in
          let kept =
            transfer_elsewhere e.this usdc e.this (muxed_from filler) amount v v1 xlm usdc_is xlm_is
              (λ p. two (sym p)) handed in
          let (reported, v2, filled, gains, limited) = promise.serves v1 (ready v1 handed) in
          record {
            reported = reported;
            v1 = v1;
            v2 = v2;
            handed = handed;
            filled = filled;
            gained = rw (← kept e.this) gains;
            limited = rw (← kept e.this) limited;
          }

    module _ (owner : Bytes) (factory relayer filler : Address) (n : ℕ) (min_out most : ℤ)
        (hint : Bytes) (Ready : World L → Type 0) (config : VaultConfig) (m : MuxedAddress)
        (x u xt ut : ℕ) (w w1 w2 w3 : World L) where
      abbrev floor : ℕ
      floor = suc n * u * (ppm - config.discount_ppm) / (x * ppm)

      -- A swap of a funded vault returns. If the vault recognises the owner and the factory, the
      -- factory signs, the vault holds the amount, the configuration is usable, the feed answers with
      -- two fresh records, the products fit `i128`, one of the bounds reaches the minimum delivery,
      -- the tokens pay out to the filler and to the owner, the filler is ready once it is paid and
      -- keeps its promise, and the vault's XLM stays in range: then the swap returns a delivery that is no less
      -- than the relayer's bound and the floor.
      pub swap_returns :
          IsAsset config.usdc
          → IsAsset config.xlm
          → h.deployed_address factory (h.sha256 owner) ≡ e.this
          → h.from_string_bytes owner ≡ some m
          → h.require_auth e factory w ≡ some (tt, w1)
          → pos (suc n) ≤ℤ held config.usdc e.this w1.ledger
          → IsUsable config
          → Answers h oracle e config w1 x u xt ut w2 w3
          → suc n * u < 2 ^ 127
          → suc n * u * (ppm - config.discount_ppm) < 2 ^ 127
          → x * ppm < 2 ^ 127
          → config.min_delivery ≤ℤ max_ℤ min_out (pos floor)
          → pos (suc n) ≤ℤ held config.usdc e.this w3.ledger
          → Takes config.usdc (muxed_from filler)
          → Takes config.xlm m
          → ((v : World L)
              → h.transfer e.this config.usdc e.this (muxed_from filler) (pos (suc n)) w3
                ≡ some (tt, v)
              → Ready v)
          → Delivers filler config.usdc config.xlm
              (pos (suc n))
              (max_ℤ min_out (pos floor))
              most
              hint
              Ready
          → (held config.xlm e.this w3.ledger +ℤ most) <ℤ pos (2 ^ 127)
          → (delta : ℤ) × (w' : World L) × (swap h oracle fillers e owner factory relayer filler
                (pos (suc n))
                min_out
                hint
                config
                w
              ≡ done delta w')
            × (max_ℤ min_out (pos floor) ≤ℤ delta)
      swap_returns usdc xlm derived parsed signed funded usable answers fits1 fits2 fits3 enough
            still_funded pays_filler pays_owner ready promise room =
          let floored =
            oracle_floor_returns h oracle e config (suc n) w1 x u xt ut w2 w3 usable answers fits1
              fits2 fits3 in
          let r =
            serve filler config.usdc config.xlm (pos (suc n)) (max_ℤ min_out (pos floor)) most hint
              Ready w3 usdc xlm usable.two_assets (omega arith) still_funded pays_filler ready
              promise in
          let before = held config.xlm e.this w3.ledger in
          let after = held config.xlm e.this r.v2.ledger in
          let nonneg = held_nonneg config.xlm e.this w3.ledger xlm in
          let more : before ≤ℤ after =
            omega (int_laws, r.gained, enough, usable.delivery_positive) in
          let (w8, forwarded) = pays_owner after r.v2 (omega (arith, nonneg, more)) (omega arith) in
          let delivered : max_ℤ min_out (pos floor) ≤ℤ (after -ℤ before) =
            omega (int_laws, r.gained) in
          (
            after -ℤ before,
            _,
            (swap_iff h oracle fillers e owner factory relayer filler (pos (suc n)) min_out hint
                  config w (after -ℤ before) _).1
                (record {
                  owner_muxed = m;
                  n = n;
                  usdc_held = held config.usdc e.this w1.ledger;
                  f = record { floor = pos floor; xlm_price = pos x; usdc_price = pos u };
                  before = before;
                  reported = r.reported;
                  after = after;
                  w1 = w1;
                  w2 = w1;
                  w3 = w3;
                  w4 = w3;
                  w5 = r.v1;
                  w6 = r.v2;
                  w7 = r.v2;
                  w8 = w8;
                  derived = derived;
                  parsed = parsed;
                  authorized = signed;
                  positive = refl;
                  usdc_read = balance_lem e.this config.usdc e.this w1 usdc;
                  covered = funded;
                  computed = (oracle_floor-Computed h oracle e config (suc n) w1).at _ w3 floored;
                  floored = floored;
                  enough = enough;
                  before_read = balance_lem e.this config.xlm e.this w3 xlm;
                  handed = r.handed;
                  filled = r.filled;
                  after_read = balance_lem e.this config.xlm e.this r.v2 xlm;
                  counted =
                      checked_sub-returns after before nonneg more (omega (arith, r.limited, room));
                  delivered = delivered;
                  forwarded = forwarded;
                  published = refl;
                }),
            delivered,
          )
