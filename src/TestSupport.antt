-- ===== src/TestSupport.antt =====
-- packages/test-support: what the contracts' tests write into the ledger of the SDK's test
-- environment before they run. The environment, its ledger and its asset contracts are a parameter.
-- Every failure is a panic. The extension fields of the entries, which are all `V0`, are left out.
pub mod Laws
pub mod Accounts
pub mod NativeSac
use crossmesh_ingress_contra.Prelude.{
  ℕ, ◌-◌, ◌^◌, Bool, Option, none, some, is_some, List, [], ◌∷◌, if◌then◌else◌,
}
use crossmesh_ingress_contra.Int.{ℤ, pos}
use crossmesh_ingress_contra.Exec.{Exec, Call, pure, gets, unwrap, call, ◌>>=◌, ◌>>◌}
use crossmesh_ingress_contra.Interfaces.{Address, Bytes}

-- The public key of a classic account.
abbrev pub AccountId : Type 0
AccountId = ℕ

-- An issued asset: its code and its issuer.
pub data TrustLineAsset : Type 0 where
  credit_alphanum4 credit_alphanum12 : Bytes → AccountId → TrustLineAsset

pub data Asset : Type 0 where
  native : Asset
  issued : TrustLineAsset → Asset

-- The keys that the helpers use; the last is that of a contract's instance.
pub data LedgerKey : Type 0 where
  account_of : AccountId → LedgerKey
  trustline_of : AccountId → TrustLineAsset → LedgerKey
  instance_of : Address → LedgerKey

pub record AccountEntry : Type 0 where
  pub account_id : AccountId
  pub balance : ℤ
  pub flags : ℕ
  pub home_domain : Bytes
  pub inflation_dest : Option AccountId
  pub num_sub_entries : ℕ
  pub seq_num : ℕ
  pub thresholds : List ℕ
  pub signers : List AccountId

pub record TrustLineEntry : Type 0 where
  pub account_id : AccountId
  pub asset : TrustLineAsset
  pub balance : ℤ
  pub limit : ℤ
  pub flags : ℕ

pub data LedgerEntryData : Type 0 where
  account : AccountEntry → LedgerEntryData
  trustline : TrustLineEntry → LedgerEntryData
  contract_data : Bytes → LedgerEntryData

pub record LedgerEntry : Type 0 where
  pub last_modified_ledger_seq : ℕ
  pub body : LedgerEntryData

-- The test environment. `as_contract` enters the frame of a contract; an asset contract is deployed
-- from the frame, for an asset in its XDR form.
pub record TestEnv (W : Type 0) : Type 0 where
  pub account_id_of : Address → Option AccountId
  pub get_ledger_entry : LedgerKey → Call W (Option LedgerEntry)
  pub add_ledger_entry : LedgerKey → LedgerEntry → Call W Unit
  pub to_xdr : Asset → Option Bytes
  pub as_contract : Address → Call W Unit
  pub asset_address : Bytes → Address
  pub address_exists : Address → W → Bool
  pub deploy_asset : Address → Bytes → Call W Address

abbrev pub base_reserve : ℕ
base_reserve = 5_000_000

-- A helper has no error of its own.
abbrev pub Helper : Type 0 → Type 0 → Type 0
Helper W A = Exec W ⊥ A

-- The `match` of `create_trustline`, which panics on the native asset.
abbrev pub trustline_asset : Asset → Option TrustLineAsset
trustline_asset native = none
trustline_asset (issued a) = some a

abbrev pub new_account : AccountId → ℤ → LedgerEntry
new_account id xlm = record {
  last_modified_ledger_seq = 0;
  body = account (record {
    account_id = id;
    balance = xlm;
    flags = 0;
    home_domain = [];
    inflation_dest = none;
    num_sub_entries = 0;
    seq_num = 0;
    thresholds = 1 ∷ 1 ∷ 1 ∷ 1 ∷ [];
    signers = [];
  });
}

-- Authorized, up to `i64::MAX`.
abbrev pub new_trustline : AccountId → TrustLineAsset → LedgerEntry
new_trustline id asset = record {
  last_modified_ledger_seq = 0;
  body = trustline (record {
    account_id = id;
    asset = asset;
    balance = pos 0;
    limit = pos (2 ^ 63 - 1);
    flags = 1;
  });
}

module _ {W : Type 0} (env : TestEnv W) where
  unfoldable pub account_id : Address → Helper W AccountId
  account_id address = unwrap (env.account_id_of address)

  unfoldable pub account_key : Address → Helper W LedgerKey
  account_key address = do id ← account_id address; pure (account_of id)

  unfoldable pub account_exists : Address → Helper W Bool
  account_exists address = do
    key ← account_key address
    entry ← call (env.get_ledger_entry key)
    pure (is_some entry)

  unfoldable pub create_account : Address → ℤ → Helper W Unit
  create_account address xlm = do
    key ← account_key address
    entry ← call (env.get_ledger_entry key)
    (if is_some entry
        then pure tt
        else (account_id address >>= λ id. call (env.add_ledger_entry key (new_account id xlm))))

  -- The asset contract is known by its asset.
  unfoldable pub create_trustline : Address → Asset → Helper W Unit
  create_trustline address sac = do
    id ← account_id address
    asset ← unwrap (trustline_asset sac)
    call (env.add_ledger_entry (trustline_of id asset) (new_trustline id asset))

  unfoldable pub contract_exists : Address → Helper W Bool
  contract_exists address = do
    entry ← call (env.get_ledger_entry (instance_of address))
    pure (is_some entry)

  unfoldable pub native_sac : Address → Helper W Address
  native_sac frame = do
    serialized ← unwrap (env.to_xdr native)
    call (env.as_contract frame)
    let address = env.asset_address serialized
    exists ← gets (env.address_exists address)
    (if exists then pure address else call (env.deploy_asset frame serialized))
