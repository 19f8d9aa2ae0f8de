-- ===== src/Vault/Shelter.antt =====
-- What a vault of contracts/vault relies on while it runs, and its view as an account.
use crossmesh_ingress_contra.Prelude.{◌≡◌, ◌≢◌, ◌∙◌, Option, some}
use crossmesh_ingress_contra.Int.{ℤ, ◌≤ℤ◌, ≤ℤ_trans}
use crossmesh_ingress_contra.Interfaces.{
  Address, Bytes, VaultConfig, OracleAsset, PriceData, ReflectorClient, FillerClient,
}
use crossmesh_ingress_contra.Host.{World, Host, MuxedAddress, frame}
use crossmesh_ingress_contra.Host.Assets.{Assets}
use crossmesh_ingress_contra.Host.Log.{own}
use crossmesh_ingress_contra.Vault.Account.{Account}

module _ {L : Type 0} (h : Host L) (oracle : ReflectorClient (World L))
    (fillers : FillerClient (World L)) (assets : Assets h) (this : Address)
    (config : VaultConfig) where
  open assets use {IsAsset, held, transfer_from, transfer_elsewhere}

  -- Nothing of the two assets left the vault, and nobody published in its name.
  pub record Kept (w w' : World L) : Type 0 where
    pub usdc : held config.usdc this w.ledger ≤ℤ held config.usdc this w'.ledger
    pub xlm : held config.xlm this w.ledger ≤ℤ held config.xlm this w'.ledger
    pub log : own this w'.events ≡ own this w.events

  pub Kept-trans : (w1 w2 w3 : World L) → Kept w1 w2 → Kept w2 w3 → Kept w1 w3
  Kept-trans w1 w2 w3 k l = record {
    usdc =
        ≤ℤ_trans (held config.usdc this w1.ledger) (held config.usdc this w2.ledger)
          (held config.usdc this w3.ledger) k.usdc l.usdc;
    xlm =
        ≤ℤ_trans (held config.xlm this w1.ledger) (held config.xlm this w2.ledger)
          (held config.xlm this w3.ledger) k.xlm l.xlm;
    log = l.log ∙ k.log;
  }

  -- What the host promises to the vault: an asset leaves an address only under its authorization,
  -- nobody publishes in the name of another, and nothing re-enters the vault while it runs. A token
  -- whose code is anything has no hold on the assets.
  pub record Sheltered : Type 0 where
    pub auth_kept :
        (invoker : Option Address) (a : Address) (w w' : World L)
        → h.require_auth (frame this invoker) a w ≡ some (tt, w')
        → Kept w w'
    pub oracle_kept :
        (feed : Address) (asset : OracleAsset) (answer : Option PriceData) (w w' : World L)
        → oracle.lastprice this feed asset w ≡ some (answer, w')
        → Kept w w'
    pub fill_kept :
        (filler token_in token_out : Address) (amount want reported : ℤ) (hint : Bytes)
        (w w' : World L)
        → fillers.fill this filler this token_in amount token_out want hint w ≡ some (reported, w')
        → (this ≢ filler) × Kept w w'
    pub read_kept :
        (token : Address) (n : ℤ) (w w' : World L)
        → h.balance this token this w ≡ some (n, w')
        → Kept w w'
    pub sent_quiet :
        (token : Address) (to : MuxedAddress) (n : ℤ) (w w' : World L)
        → h.transfer this token this to n w ≡ some (tt, w')
        → own this w'.events ≡ own this w.events
    pub sent_apart :
        (token asset : Address) (to : MuxedAddress) (n : ℤ) (w w' : World L)
        → IsAsset asset
        → asset ≢ token
        → h.transfer this token this to n w ≡ some (tt, w')
        → held asset this w.ledger ≤ℤ held asset this w'.ledger

  abbrev pub account : World L → Account
  account w = record {
    usdc = held config.usdc this w.ledger;
    xlm = held config.xlm this w.ledger;
    log = own this w.events;
  }
