-- ===== src/Interfaces.antt =====
-- packages/interfaces: the configuration, the oracle's records, the caps fixed in code, and the
-- client interfaces through which one contract calls another. Identifiers that the contracts only
-- compare (addresses, 32-byte hashes) are numbers; u32 and u64 values are numbers.
use crossmesh_ingress_contra.Prelude.{ℕ, Bool, Option, List}
use crossmesh_ingress_contra.Int.{ℤ}
use crossmesh_ingress_contra.Exec.{Call}
use Prim.Native.String.{String}

abbrev pub Address : Type 0
Address = ℕ

-- `BytesN<32>`
abbrev pub Hash : Type 0
Hash = ℕ

abbrev pub Bytes : Type 0
Bytes = List ℕ

abbrev pub discount_cap_ppm : ℕ
discount_cap_ppm = 100_000

abbrev pub max_price_age_cap : ℕ
max_price_age_cap = 900

pub data OracleAsset : Type 0 where
  stellar : Address → OracleAsset
  other : String → OracleAsset

pub record VaultConfig : Type 0 where
  pub usdc : Address
  pub xlm : Address
  pub vault_wasm_hash : Hash
  pub oracle : Address
  pub xlm_asset : OracleAsset
  pub usdc_asset : OracleAsset
  pub discount_ppm : ℕ
  pub max_price_age : ℕ
  pub min_delivery : ℤ

pub record PriceData : Type 0 where
  pub price : ℤ
  pub timestamp : ℕ

-- Pool tokens, pool hash, and the token to obtain.
abbrev pub AquariusHop : Type 0
AquariusHop = List Address × Hash × Address

-- An element of a decoded `Vec<AquariusHop>`. The SDK decodes an element only when it is read, so
-- one that is not a hop is `none` until then.
abbrev pub RawHop : Type 0
RawHop = Option AquariusHop

-- Each client takes the calling contract and the address called, then the function's arguments.
-- `W` is the state that the call may change.
pub record ReflectorClient (W : Type 0) : Type 0 where
  pub lastprice : Address → Address → OracleAsset → Call W (Option PriceData)

-- recipient, token_in, amount_in, token_out, min_out, data
pub record FillerClient (W : Type 0) : Type 0 where
  pub fill : Address → Address → Address → Address → ℤ → Address → ℤ → Bytes → Call W ℤ

pub record FactoryClient (W : Type 0) : Type 0 where
  pub is_relayer : Address → Address → Address → Call W Bool

-- owner, factory, relayer, filler, amount, min_out, data, config
pub record VaultClient (W : Type 0) : Type 0 where
  pub swap :
      Address
      → Address
      → Bytes
      → Address
      → Address
      → Address
      → ℤ
      → ℤ
      → Bytes
      → VaultConfig
      → Call W ℤ

-- user, swaps_chain, token_in, in_amount, out_min
pub record AquariusRouterClient (W : Type 0) : Type 0 where
  pub swap_chained : Address → Address → Address → List RawHop → Address → ℕ → ℕ → Call W ℕ
