-- ===== src/Vault/Spending.antt =====
-- What a successful `swap` of contracts/vault takes from the vault.
use crossmesh_ingress_contra.Prelude.{◌≡◌, ◌≢◌, ap, Option, some}
use crossmesh_ingress_contra.Int.{ℤ, ◌-ℤ◌, ◌≤ℤ◌, ≤ℤ_trans, int_laws, parts_of_eq}
use crossmesh_ingress_contra.Exec.{done}
use crossmesh_ingress_contra.Exec.Ensures.{Ensures}
use crossmesh_ingress_contra.Interfaces.{
  Address, Bytes, VaultConfig, OracleAsset, PriceData, ReflectorClient, FillerClient,
}
use crossmesh_ingress_contra.Host.{Env, World, Host}
use crossmesh_ingress_contra.Host.Assets.{Assets, balance_read}
use crossmesh_ingress_contra.Vault.{oracle_floor, swap}
use crossmesh_ingress_contra.Vault.Calls.{oracle_floor-Ensures}
use crossmesh_ingress_contra.Vault.Run.{swap-SwapRun}

module _ {L : Type 0} (h : Host L) (oracle : ReflectorClient (World L))
    (fillers : FillerClient (World L)) (assets : Assets h) where
  open assets use {IsAsset, held, balance_lem, transfer_from, transfer_elsewhere}

  -- What the host promises to the contract in the frame `e`: a token leaves an address only under
  -- that address's authorization, and nothing re-enters the contract while it runs. So no call that
  -- it makes, of the host, of the oracle or of a filler, lowers its own balance of `t`; only its
  -- own transfers do.
  pub record Guarded (e : Env) (t : Address) : Type 0 where
    pub auth_keeps :
        (a : Address) (w w' : World L)
        → h.require_auth e a w ≡ some (tt, w')
        → held t e.this w.ledger ≤ℤ held t e.this w'.ledger
    pub oracle_keeps :
        (feed : Address) (asset : OracleAsset) (answer : Option PriceData) (w w' : World L)
        → oracle.lastprice e.this feed asset w ≡ some (answer, w')
        → held t e.this w.ledger ≤ℤ held t e.this w'.ledger
    pub fill_keeps :
        (filler token_in token_out : Address) (amount want reported : ℤ) (hint : Bytes)
        (w w' : World L)
        → fillers.fill e.this filler e.this token_in amount token_out want hint w
          ≡ some (reported, w')
        → held t e.this w.ledger ≤ℤ held t e.this w'.ledger

  module _ (e : Env) (t : Address) (guarded : Guarded e t) (config : VaultConfig) where
    open guarded use {auth_keeps, oracle_keeps, fill_keeps}

    abbrev Kept : World L → World L → Type 0
    Kept w w' = held t e.this w.ledger ≤ℤ held t e.this w'.ledger

    oracle_floor-Kept :
        (amount : ℤ) (w : World L)
        → Ensures (λ _ w'. Kept w w') (oracle_floor h oracle e config amount w)
    oracle_floor-Kept amount w =
        oracle_floor-Ensures h e Kept oracle
          (λ w1 w2 w3.
            ≤ℤ_trans (held t e.this w1.ledger) (held t e.this w2.ledger) (held t e.this w3.ledger))
          oracle_keeps config amount w

  module _ (e : Env) (owner : Bytes) (factory relayer filler : Address) (amount min_out : ℤ)
      (hint : Bytes) (config : VaultConfig) (w w' : World L) (delta : ℤ) where
    abbrev usdc_at : World L → ℤ
    usdc_at v = held config.usdc e.this v.ledger

    same_usdc : {v v' : World L} → v ≡ v' → usdc_at v ≡ usdc_at v'
    same_usdc p = ap usdc_at p

    -- Under the host's guarantees, and with a filler other than the vault, a swap takes no more
    -- than `amount` USDC from the vault.
    pub swap_spends_amount :
        Guarded e config.usdc
        → IsAsset config.usdc
        → IsAsset config.xlm
        → e.this ≢ filler
        → swap h oracle fillers e owner factory relayer filler amount min_out hint config w
          ≡ done delta w'
        → held config.usdc e.this w.ledger -ℤ amount ≤ℤ held config.usdc e.this w'.ledger
    swap_spends_amount g usdc xlm apart p =
        let r =
          (swap-SwapRun h oracle fillers e owner factory relayer filler amount min_out hint config
              w).at
            delta w' p in
        omega (
          int_laws,
          g.auth_keeps factory w r.w1 r.authorized,
          parts_of_eq _ _ (same_usdc (balance_read assets _ _ _ r.w1 usdc r.usdc_read).1),
          (oracle_floor-Kept e config.usdc g config amount r.w2).at r.f r.w3 r.floored,
          parts_of_eq _ _ (same_usdc (balance_read assets _ _ _ r.w3 xlm r.before_read).1),
          parts_of_eq _ _ (transfer_from _ _ _ _ _ _ _ usdc apart r.handed),
          g.fill_keeps filler config.usdc config.xlm amount _ r.reported hint r.w5 r.w6 r.filled,
          parts_of_eq _ _ (same_usdc (balance_read assets _ _ _ r.w6 xlm r.after_read).1),
          parts_of_eq _ _ (
              transfer_elsewhere _ _ _ _ _ _ _ config.usdc xlm usdc r.computed.usable.two_assets
                r.forwarded e.this),
          parts_of_eq _ _ (same_usdc r.published),
        )
