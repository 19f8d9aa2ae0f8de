-- ===== src/Vault.antt =====
-- contracts/vault: the per-owner vault, which stores nothing. `e` is the frame that the vault runs
-- in; the host, the oracle and the fillers are parameters.
pub mod Price
pub mod Config
pub mod OracleFloor
pub mod FloorBounds
pub mod FloorRuns
pub mod FloorErrors
pub mod FloorOrder
pub mod Identity
pub mod Run
pub mod Payout
pub mod Complete
pub mod Stages
pub mod Refusals
pub mod Calls
pub mod Account
pub mod Shelter
pub mod AccountMoves
pub mod History
pub mod Exit
pub mod Liveness
pub mod Spending
pub mod Withdrawal
pub mod WithdrawalErrors
use crossmesh_ingress_contra.Prelude.{
  ℕ, ◌+◌, ◌-◌, ◌^◌, Bool, ◌||◌, not, some, ltb, ◌==◌, if◌then◌else◌,
}
use crossmesh_ingress_contra.Int.{ℤ, pos, ◌-ℤ◌, ltb_ℤ, leb_ℤ}
use crossmesh_ingress_contra.Int.Checked.{checked_sub, checked_mul, div}
use crossmesh_ingress_contra.Exec.{
  Exec, pure, gets, panic_if, unwrap_or_panic, unwrap, call, as_call, modify, ◌>>=◌, ◌>>◌,
}
use crossmesh_ingress_contra.Interfaces.{
  Address, Bytes, VaultConfig, OracleAsset, PriceData, discount_cap_ppm, max_price_age_cap,
  ReflectorClient, FillerClient, VaultClient,
}
use crossmesh_ingress_contra.Events.{swapped, withdrawn}
use crossmesh_ingress_contra.Host.{Env, World, Host, MuxedAddress, muxed_from, publish}

abbrev pub ppm : ℕ
ppm = 1_000_000

abbrev pub max_clock_skew : ℕ
max_clock_skew = 60

pub data VaultError : Type 0 where
  not_this_vault invalid_amount insufficient_balance oracle_unavailable : VaultError
  oracle_stale below_min_delivery fill_shortfall nothing_to_withdraw : VaultError
  overflow invalid_config : VaultError

pub record Floor : Type 0 where
  pub floor : ℤ
  pub xlm_price : ℤ
  pub usdc_price : ℤ

-- `u64::saturating_add`; `saturating_sub` is the subtraction of ℕ.
abbrev pub saturating_add : ℕ → ℕ → ℕ
saturating_add a b = if ltb (a + b) (2 ^ 64) then a + b else 2 ^ 64 - 1

-- The test on the configuration that `oracle_floor` makes first.
unfoldable pub unusable : VaultConfig → Bool
unusable config =
    ltb discount_cap_ppm config.discount_ppm
    || (config.max_price_age == 0)
    || ltb max_price_age_cap config.max_price_age
    || leb_ℤ config.min_delivery (pos 0)
    || (config.usdc == config.xlm)

-- The age test of `fresh_price`.
unfoldable pub is_stale : PriceData → ℕ → ℕ → Bool
is_stale r now max_age =
    ltb (saturating_add now max_clock_skew) r.timestamp || ltb max_age (now - r.timestamp)

abbrev pub max_ℤ : ℤ → ℤ → ℤ
max_ℤ a b = if ltb_ℤ b a then a else b

module _ {L : Type 0} (h : Host L) where
  -- `require_this_vault`
  unfoldable pub require_this_vault : Env → Bytes → Address → Exec (World L) VaultError MuxedAddress
  require_this_vault e owner factory = do
    let salt = h.sha256 owner
    let expected = h.deployed_address factory salt
    panic_if (not (expected == e.this)) not_this_vault
    unwrap (h.from_string_bytes owner)

  unfoldable pub withdraw : Env → Bytes → Address → Address → Exec (World L) VaultError ℤ
  withdraw e owner factory token = do
    owner_muxed ← require_this_vault e owner factory
    call (h.require_auth e owner_muxed.address)
    amount ← call (h.balance e.this token e.this)
    panic_if (leb_ℤ amount (pos 0)) nothing_to_withdraw
    call (h.transfer e.this token e.this owner_muxed amount)
    modify (
        publish e (
          withdrawn (record {
            owner = owner_muxed.address;
            owner_strkey = owner;
            token = token;
            amount = amount;
          })))
    pure amount

  module _ (oracle : ReflectorClient (World L)) where
    unfoldable pub fresh_price :
        Env → Address → OracleAsset → ℕ → ℕ → Exec (World L) VaultError PriceData
    fresh_price e feed asset now max_age = do
      answer ← call (oracle.lastprice e.this feed asset)
      r ← unwrap_or_panic answer oracle_unavailable
      panic_if (leb_ℤ r.price (pos 0)) oracle_unavailable
      panic_if (is_stale r now max_age) oracle_stale
      pure r

    unfoldable pub oracle_floor : Env → VaultConfig → ℤ → Exec (World L) VaultError Floor
    oracle_floor e config amount = do
      panic_if (unusable config) invalid_config
      now ← gets (λ w. h.timestamp w.ledger)
      xlm ← fresh_price e config.oracle config.xlm_asset now config.max_price_age
      usdc ← fresh_price e config.oracle config.usdc_asset now config.max_price_age
      let keep = pos ppm -ℤ pos config.discount_ppm
      product ← unwrap_or_panic (checked_mul amount usdc.price) overflow
      numerator ← unwrap_or_panic (checked_mul product keep) overflow
      denominator ← unwrap_or_panic (checked_mul xlm.price (pos ppm)) overflow
      floor ← unwrap (div numerator denominator)
      pure (record { floor = floor; xlm_price = xlm.price; usdc_price = usdc.price })

    module _ (fillers : FillerClient (World L)) where
      unfoldable pub swap :
          Env
          → Bytes
          → Address
          → Address
          → Address
          → ℤ
          → ℤ
          → Bytes
          → VaultConfig
          → Exec (World L) VaultError ℤ
      swap e owner factory relayer filler amount min_out hint config = do
        owner_muxed ← require_this_vault e owner factory
        call (h.require_auth e factory)
        panic_if (leb_ℤ amount (pos 0)) invalid_amount
        usdc_held ← call (h.balance e.this config.usdc e.this)
        panic_if (ltb_ℤ usdc_held amount) insufficient_balance
        f ← oracle_floor e config amount
        let want = max_ℤ min_out f.floor
        panic_if (ltb_ℤ want config.min_delivery) below_min_delivery
        before ← call (h.balance e.this config.xlm e.this)
        call (h.transfer e.this config.usdc e.this (muxed_from filler) amount)
        reported ← call (fillers.fill e.this filler e.this config.usdc amount config.xlm want hint)
        after ← call (h.balance e.this config.xlm e.this)
        delta ← unwrap_or_panic (checked_sub after before) overflow
        panic_if (ltb_ℤ delta want) fill_shortfall
        call (h.transfer e.this config.xlm e.this owner_muxed after)
        modify (
            publish e (
              swapped (record {
                owner = owner_muxed.address;
                owner_strkey = owner;
                relayer = relayer;
                filler = filler;
                amount_in = amount;
                amount_out = delta;
                paid_out = after;
                floor = f.floor;
                want = want;
                xlm_price = f.xlm_price;
                usdc_price = f.usdc_price;
                discount_ppm = config.discount_ppm;
              })))
        pure delta

      -- The vault as other contracts call it: the code at `vault` runs in a frame of its own.
      abbrev pub as_client : VaultClient (World L)
      as_client = record {
        swap = λ caller vault owner factory relayer filler amount min_out hint config. as_call (
            swap (record { this = vault; invoker = some caller }) owner factory relayer filler
              amount min_out hint config);
      }
