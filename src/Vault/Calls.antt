-- ===== src/Vault/Calls.antt =====
-- What holds across everything that contracts/vault calls: a relation between the states before and
-- after, kept by each call and closed under composition, is kept by the vault's own functions.
use crossmesh_ingress_contra.Prelude.{◌≡◌, sym, Option, some}
use mathlib.Core.Path.{subst}
use crossmesh_ingress_contra.Int.{ℤ}
use crossmesh_ingress_contra.Exec.Ensures.{
  Ensures, Ensures-bind, Ensures-gets, Ensures-unwrap, Ensures-unwrap_or_panic, Ensures-panic_if,
  Ensures-pure,
}
use crossmesh_ingress_contra.Interfaces.{
  Address, Bytes, VaultConfig, OracleAsset, PriceData, ReflectorClient, FillerClient,
}
use crossmesh_ingress_contra.Events.{Event}
use crossmesh_ingress_contra.Host.{Env, World, Host, MuxedAddress, publish}
use crossmesh_ingress_contra.Vault.{oracle_floor, swap, withdraw}
use crossmesh_ingress_contra.Vault.Price.{fresh_price-Answered}
use crossmesh_ingress_contra.Vault.Run.{swap-SwapRun}
use crossmesh_ingress_contra.Vault.Withdrawal.{withdraw-WithdrawRun}

module _ {L : Type 0} (h : Host L) (e : Env) (R : World L → World L → Type 0) where
  module _ (oracle : ReflectorClient (World L)) where
    abbrev pub Asked : Type 0
    Asked =
        (feed : Address) (asset : OracleAsset) (answer : Option PriceData) (w w' : World L)
        → oracle.lastprice e.this feed asset w ≡ some (answer, w')
        → R w w'

    pub oracle_floor-Ensures :
        ((w1 w2 w3 : World L) → R w1 w2 → R w2 w3 → R w1 w3)
        → Asked
        → (config : VaultConfig) (amount : ℤ) (w : World L)
        → Ensures (λ _ w'. R w w') (oracle_floor h oracle e config amount w)
    unfolding oracle_floor
    oracle_floor-Ensures trans asked config amount w = Ensures-panic_if _ _ _ _ _ λ passed.
        Ensures-gets _ _ _ _ (
          Ensures-bind _ _ _ _ _ (fresh_price-Answered h oracle e _ _ _ _ _) λ x w1 px.
            Ensures-bind _ _ _ _ _ (fresh_price-Answered h oracle e _ _ _ _ _) λ u w2 pu.
              Ensures-unwrap_or_panic _ _ _ _ _ λ product p.
                Ensures-unwrap_or_panic _ _ _ _ _ λ numerator n.
                  Ensures-unwrap_or_panic _ _ _ _ _ λ denominator d.
                    Ensures-unwrap _ _ _ _ λ floor q. Ensures-pure _ _ _ (
                      trans w w1 w2 (asked config.oracle config.xlm_asset (some x) w w1 px.0)
                        (asked config.oracle config.usdc_asset (some u) w1 w2 pu.0)))

  -- The calls of the vault in the frame `e`, in the order of its code.
  pub record Calls (oracle : ReflectorClient (World L)) (fillers : FillerClient (World L))
      : Type 0 where
    pub trans : (w1 w2 w3 : World L) → R w1 w2 → R w2 w3 → R w1 w3
    pub authorized : (a : Address) (w w' : World L) → h.require_auth e a w ≡ some (tt, w') → R w w'
    pub read :
        (t : Address) (n : ℤ) (w w' : World L) → h.balance e.this t e.this w ≡ some (n, w') → R w w'
    pub asked : Asked oracle
    pub sent :
        (t : Address) (to : MuxedAddress) (n : ℤ) (w w' : World L)
        → h.transfer e.this t e.this to n w ≡ some (tt, w')
        → R w w'
    pub served :
        (filler token_in token_out : Address) (n want reported : ℤ) (hint : Bytes) (w w' : World L)
        → fillers.fill e.this filler e.this token_in n token_out want hint w ≡ some (reported, w')
        → R w w'
    pub told : (event : Event) (w : World L) → R w (publish e event w)

  module _ (oracle : ReflectorClient (World L)) (fillers : FillerClient (World L))
      (calls : Calls oracle fillers) (owner : Bytes) (factory : Address) (w : World L) where
    open calls use {trans, authorized, read, asked, sent, served, told}

    pub swap-Ensures :
        (relayer filler : Address) (amount min_out : ℤ) (hint : Bytes) (config : VaultConfig)
        → Ensures
            (λ _ w'. R w w')
            (swap h oracle fillers e owner factory relayer filler amount min_out hint config w)
    swap-Ensures relayer filler amount min_out hint config = record {
      at = λ delta w' p.
          let r =
            (swap-SwapRun h oracle fillers e owner factory relayer filler amount min_out hint config
                w).at
              delta w' p in
          subst (R w) (sym r.published) (
            trans _ _ _ (authorized _ _ _ r.authorized) (
              trans _ _ _ (read _ _ _ _ r.usdc_read) (
                trans _ _ _
                  ((oracle_floor-Ensures oracle trans asked config amount r.w2).at r.f r.w3
                    r.floored)
                  (trans _ _ _ (read _ _ _ _ r.before_read) (
                    trans _ _ _ (sent _ _ _ _ _ r.handed) (
                      trans _ _ _ (served _ _ _ _ _ _ _ _ _ r.filled) (
                        trans _ _ _ (read _ _ _ _ r.after_read)
                          (trans _ _ _ (sent _ _ _ _ _ r.forwarded) (told _ r.w8)))))))));
    }

    pub withdraw-Ensures :
        (token : Address) → Ensures (λ _ w'. R w w') (withdraw h e owner factory token w)
    withdraw-Ensures token = record {
      at = λ amount w' p.
          let r = (withdraw-WithdrawRun h e owner factory token w).at amount w' p in
          subst (R w) (sym r.published) (
            trans _ _ _ (authorized _ _ _ r.authorized) (
              trans _ _ _ (read _ _ _ _ r.read)
                (trans _ _ _ (sent _ _ _ _ _ r.paid) (told _ r.w3))));
    }
