-- ===== src/Host/Assets.antt =====
-- What the contracts rely on in a token contract (a Stellar Asset Contract): `balance` reads the
-- ledger, `transfer` moves exactly the amount between the two balances and touches no other, and a
-- negative amount, or one that is not there, is refused.
use crossmesh_ingress_contra.Prelude.{◌≡◌, ◌≢◌, some}
use crossmesh_ingress_contra.Int.{ℤ, pos, ◌+ℤ◌, ◌-ℤ◌, ◌≤ℤ◌}
use crossmesh_ingress_contra.Interfaces.{Address}
use crossmesh_ingress_contra.Host.{World, Host, MuxedAddress}

pub record Assets {L : Type 0} (h : Host L) : Type 1 where
  pub IsAsset : Address → Type 0
  pub held : Address → Address → L → ℤ
  pub held_nonneg : (t a : Address) (l : L) → IsAsset t → pos 0 ≤ℤ held t a l
  pub balance_lem :
      (c t a : Address) (w : World L) → IsAsset t → h.balance c t a w ≡ some (held t a w.ledger, w)
  pub transfer_from :
      (c t a : Address) (to : MuxedAddress) (n : ℤ) (w w' : World L)
      → IsAsset t
      → a ≢ to.address
      → h.transfer c t a to n w ≡ some (tt, w')
      → held t a w'.ledger ≡ held t a w.ledger -ℤ n
  pub transfer_to :
      (c t a : Address) (to : MuxedAddress) (n : ℤ) (w w' : World L)
      → IsAsset t
      → a ≢ to.address
      → h.transfer c t a to n w ≡ some (tt, w')
      → held t to.address w'.ledger ≡ held t to.address w.ledger +ℤ n
  pub transfer_elsewhere :
      (c t a : Address) (to : MuxedAddress) (n : ℤ) (w w' : World L) (u : Address)
      → IsAsset t
      → IsAsset u
      → u ≢ t
      → h.transfer c t a to n w ≡ some (tt, w')
      → (b : Address) → held u b w'.ledger ≡ held u b w.ledger
  pub transfer_others :
      (c t a : Address) (to : MuxedAddress) (n : ℤ) (w w' : World L) (b : Address)
      → IsAsset t
      → b ≢ a
      → b ≢ to.address
      → h.transfer c t a to n w ≡ some (tt, w')
      → held t b w'.ledger ≡ held t b w.ledger

module _ {L : Type 0} {h : Host L} (assets : Assets h) (c t a : Address) (w : World L) where
  open assets use {IsAsset, held, balance_lem}

  -- A balance that was read is the one in the ledger, and the read changed nothing.
  pub balance_read :
      {n : ℤ} {w' : World L}
      → IsAsset t
      → h.balance c t a w ≡ some (n, w')
      → (n ≡ held t a w.ledger) × (w' ≡ w)
  balance_read is p = (cc (p, balance_lem c t a w is), cc (p, balance_lem c t a w is))
