-- ===== src/Mocks.antt =====
-- The contracts that the tests of stellar/contracts put in the place of outside ones: fillers that
-- misbehave (contracts/vault/src/test.rs), routers (contracts/aquarius-filler/src/test.rs and
-- contracts/vault-factory/src/test.rs), a factory without relayers, and callers of a vault or a
-- filler. What a mock keeps in its storage and does not change is an argument.
pub mod Oracle
use crossmesh_ingress_contra.Prelude.{
  ℕ, ◌*◌, ◌/◌, ◌^◌, Bool, false, Option, none, some, List, [], ◌∷◌, ltb, leb, if◌then◌else◌,
}
use crossmesh_ingress_contra.Int.{ℤ, pos, ◌+ℤ◌, ◌-ℤ◌, leb_ℤ}
use crossmesh_ingress_contra.Int.Checked.{checked, checked_sub, checked_mul, div, as_u128}
use crossmesh_ingress_contra.Exec.{
  Exec, Call, pure, panic_if, unwrap, unwrap_or_panic, call, as_call, ◌>>=◌, ◌>>◌,
}
use crossmesh_ingress_contra.Interfaces.{
  Address, Hash, Bytes, VaultConfig, RawHop, FillerClient, VaultClient, AquariusRouterClient,
}
use crossmesh_ingress_contra.Host.{Env, World, Host, muxed_from}
use crossmesh_ingress_contra.AquariusFiller.{last}

pub data FillMode : Type 0 where
  pay_want pay_nothing pay_short overpay reenter steal : FillMode

-- What `__constructor` and `set_target` of `MockFiller` store.
pub record FillerStore : Type 0 where
  pub mode : Option FillMode
  pub target : Option (Bytes × Address)

pub data RouterMode : Type 0 where
  honest skips_input takes_half : RouterMode

pub data RouterError : Type 0 where
  path_is_empty tokens_not_sorted out_min_not_satisfied : RouterError

-- `1_0000000`, one token in its smallest unit
abbrev pub one : ℕ
one = 10_000_000

-- `as i128` on a u128
abbrev pub as_i128 : ℕ → ℤ
as_i128 n = if ltb n (2 ^ 127) then pos n else pos n -ℤ pos (2 ^ 128)

abbrev pub unsorted : List Address → Bool
unsorted (a ∷ b ∷ []) = ltb b a
unsorted _ = false

-- A vault's `withdraw` as a contract calls it: caller, vault, owner, factory, token.
abbrev pub Withdrawal : Type 0 → Type 0
Withdrawal W = Address → Address → Bytes → Address → Address → Call W ℤ

module _ {L : Type 0} (h : Host L) where
  abbrev pub Mock : Type 0 → Type 0
  Mock A = Exec (World L) RouterError A

  -- `MockFactory`
  abbrev pub mock_vault_address : Env → Bytes → Address
  mock_vault_address e owner = h.deployed_address e.this (h.sha256 owner)

  unfoldable pub mock_deploy : Env → Bytes → Hash → Mock Address
  mock_deploy e owner wasm_hash = call (h.deploy_contract e.this (h.sha256 owner) wasm_hash)

  unfoldable pub mock_swap :
      VaultClient (World L)
      → Env
      → Address
      → Bytes
      → Address
      → Address
      → ℤ
      → ℤ
      → Bytes
      → VaultConfig
      → Mock ℤ
  mock_swap vaults e vault owner relayer filler amount min_out hint config =
      call (vaults.swap e.this vault owner e.this relayer filler amount min_out hint config)

  -- `InvokingOwner::pull`
  unfoldable pub pull : Withdrawal (World L) → Env → Address → Bytes → Address → Address → Mock ℤ
  pull withdraw e vault owner factory token = call (withdraw e.this vault owner factory token)

  -- The last transfer of `MockFiller::fill`.
  unfoldable pub pay_out : Env → Address → Address → ℤ → Mock ℤ
  pay_out e recipient token_out amount = do
    call (h.transfer e.this token_out e.this (muxed_from recipient) amount)
    pure amount

  -- The `Steal` arm, for what is left at the recipient.
  unfoldable pub take : Env → Address → Address → ℤ → Mock Unit
  take e recipient token_in remaining =
      if leb_ℤ remaining (pos 0)
      then pure tt
      else call (h.transfer e.this token_in recipient (muxed_from e.this) remaining)

  -- The `match` of `MockFiller::fill` with what follows it, for one mode.
  unfoldable pub fill_by :
      Withdrawal (World L) → FillerStore → FillMode → Env → Address → Address → Address → ℤ → Mock ℤ
  fill_by withdraw store pay_want e recipient token_in token_out min_out =
      pay_out e recipient token_out min_out
  fill_by withdraw store pay_nothing e recipient token_in token_out min_out = pure (pos 0)
  fill_by withdraw store pay_short e recipient token_in token_out min_out = do
    amount ← unwrap (checked_sub min_out (pos 1))
    pay_out e recipient token_out amount
  fill_by withdraw store overpay e recipient token_in token_out min_out = do
    amount ← unwrap (checked (min_out +ℤ pos (5 * one)))
    pay_out e recipient token_out amount
  fill_by withdraw store reenter e recipient token_in token_out min_out = do
    target ← unwrap store.target
    _got ← call (withdraw e.this recipient target.0 target.1 token_out)
    pure (pos 0)
  fill_by withdraw store steal e recipient token_in token_out min_out = do
    remaining ← call (h.balance e.this token_in recipient)
    take e recipient token_in remaining
    pay_out e recipient token_out min_out

  -- `MockFiller` of the vault's tests; that of the factory's tests is its `pay_want`.
  unfoldable pub mock_fill :
      Withdrawal (World L)
      → FillerStore
      → Env
      → Address
      → Address
      → ℤ
      → Address
      → ℤ
      → Bytes
      → Mock ℤ
  mock_fill withdraw store e recipient token_in amount_in token_out min_out hint = do
    mode ← unwrap store.mode
    fill_by withdraw store mode e recipient token_in token_out min_out

  abbrev pub mock_filler : Withdrawal (World L) → FillerStore → FillerClient (World L)
  mock_filler withdraw store = record {
    fill = λ caller filler recipient token_in amount_in token_out min_out hint. as_call (
        mock_fill withdraw store (record { this = filler; invoker = some caller }) recipient
          token_in amount_in token_out min_out hint);
  }

  -- The loop over the hops in `swap_chained` of the filler's tests.
  unfoldable pub check_hops : List RawHop → Mock Unit
  check_hops [] = pure tt
  check_hops (raw ∷ chain) = do
    hop ← unwrap raw
    panic_if (unsorted hop.0) tokens_not_sorted
    check_hops chain

  abbrev pub pulled : RouterMode → ℕ → ℤ
  pulled honest n = as_i128 n
  pulled skips_input n = pos 0
  pulled takes_half n = as_i128 (n / 2)

  unfoldable pub pull_input : Env → Address → Address → ℤ → Mock Unit
  pull_input e user token_in amount =
      if leb_ℤ amount (pos 0)
      then pure tt
      else call (h.transfer e.this token_in user (muxed_from e.this) amount)

  -- `MockRouter::swap_chained` of the filler's tests, with its rate and mode.
  unfoldable pub mock_chained :
      ℤ → ℤ → RouterMode → Env → Address → List RawHop → Address → ℕ → ℕ → Mock ℕ
  mock_chained num den mode e user chain token_in in_amount out_min = do
    call (h.require_auth e user)
    raw ← unwrap_or_panic (last chain) path_is_empty
    hop ← unwrap raw
    check_hops chain
    pull_input e user token_in (pulled mode in_amount)
    product ← unwrap (checked_mul (as_i128 in_amount) num)
    out ← unwrap (div product den)
    panic_if (ltb (as_u128 out) out_min) out_min_not_satisfied
    call (h.transfer e.this hop.2 e.this (muxed_from user) out)
    pure (as_u128 out)

  abbrev pub mock_router : ℤ → ℤ → RouterMode → AquariusRouterClient (World L)
  mock_router num den mode = record {
    swap_chained = λ caller router user chain token_in in_amount out_min. as_call (
        mock_chained num den mode (record { this = router; invoker = some caller }) user chain
          token_in in_amount out_min);
  }

  -- `assert!`
  unfoldable pub require_that : Bool → Mock Unit
  require_that test = unwrap (if test then some tt else none)

  -- `MockRouter::swap_chained` of the factory's tests.
  unfoldable pub mock_doubled : Env → Address → List RawHop → Address → ℕ → ℕ → Mock ℕ
  mock_doubled e user chain token_in in_amount out_min = do
    call (h.require_auth e user)
    raw ← unwrap (last chain)
    hop ← unwrap raw
    call (h.transfer e.this token_in user (muxed_from e.this) (as_i128 in_amount))
    out ← unwrap (checked_mul (as_i128 in_amount) (pos 2))
    require_that (leb out_min (as_u128 out))
    call (h.transfer e.this hop.2 e.this (muxed_from user) out)
    pure (as_u128 out)

  abbrev pub doubling_router : AquariusRouterClient (World L)
  doubling_router = record {
    swap_chained = λ caller router user chain token_in in_amount out_min. as_call (
        mock_doubled (record { this = router; invoker = some caller }) user chain token_in in_amount
          out_min);
  }

  -- `FakeVault::go`
  unfoldable pub go :
      FillerClient (World L) → Env → Address → Address → ℤ → Address → ℤ → Bytes → Mock ℤ
  go fillers e filler token_in amount_in token_out min_out hint = do
    call (h.transfer e.this token_in e.this (muxed_from filler) amount_in)
    call (fillers.fill e.this filler e.this token_in amount_in token_out min_out hint)
