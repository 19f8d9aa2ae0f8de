-- ===== src/Mocks/Oracle.antt =====
-- `MockOracle` of contracts/vault/src/test.rs (that of contracts/vault-factory/src/test.rs has the same
-- functions but `clear`): the records that were set, by asset.
use Prim.Native.Nat.{Ordering}
use Prim.Native.String.{String, compare}
use crossmesh_ingress_contra.Prelude.{ℕ, Bool, true, false, Option, none, some, ◌==◌, if◌then◌else◌}
use crossmesh_ingress_contra.Int.{ℤ}
use crossmesh_ingress_contra.Exec.{Exec, pure, gets}
use crossmesh_ingress_contra.Interfaces.{OracleAsset, stellar, other, PriceData, ReflectorClient}
use crossmesh_ingress_contra.Host.{World}
use crossmesh_ingress_contra.Instance.{Instance, store}
use crossmesh_ingress_contra.Mocks.{RouterError}

abbrev pub Prices : Type 0
Prices = OracleAsset → Option PriceData

abbrev pub no_prices : Prices
no_prices asset = none

abbrev same_text : String → String → Bool
same_text s t = elim (compare s t) [ Ordering.eq ↦ true | _ ↦ false ]

abbrev pub same_asset : OracleAsset → OracleAsset → Bool
same_asset (stellar a) (stellar b) = a == b
same_asset (other s) (other t) = same_text s t
same_asset _ _ = false

abbrev pub write : OracleAsset → Option PriceData → Prices → Prices
write asset record_or_none prices a = if same_asset a asset then record_or_none else prices a

abbrev pub priced : ℤ → ℕ → PriceData
priced price timestamp = record { price = price; timestamp = timestamp }

abbrev pub Feed : Type 0 → Type 0 → Type 0
Feed L A = Exec (Instance L Prices) RouterError A

module _ {L : Type 0} where
  unfoldable pub set_price : OracleAsset → ℤ → ℕ → Feed L Unit
  set_price asset price timestamp = store (write asset (some (priced price timestamp)))

  unfoldable pub clear : OracleAsset → Feed L Unit
  clear asset = store (write asset none)

  unfoldable pub lastprice : OracleAsset → Feed L (Option PriceData)
  lastprice asset = gets (λ s. s.storage asset)

  unfoldable pub decimals : Feed L ℕ
  decimals = pure 14

  -- The oracle as other contracts call it, with what was set.
  abbrev pub mock_oracle : Prices → ReflectorClient (World L)
  mock_oracle prices = record { lastprice = λ caller feed asset w. some (prices asset, w) }
