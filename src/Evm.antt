-- ===== src/Evm.antt =====
-- src/*.sol: the EVM side. The storage of the contracts on one chain, their events and their
-- reasons to revert. A call that panics, or whose callee reverts, is `trap`; one that reverts is
-- undone, so it has no state. The trusted contracts that they call (USDC, Circle's) do not call
-- back, so such a call runs on the rest of the state, the `world`.
pub mod Word
pub mod Network
pub mod Rules
pub mod Config
pub mod Forwarder
pub mod Rescue
pub mod Factory
pub mod History
use crossmesh_ingress_contra.Prelude.{
  ℕ, Bool, not, Option, none, some, List, ◌∷◌, ◌==◌, if◌then◌else◌,
}
use crossmesh_ingress_contra.Exec.{Exec, Call, panic_if, unwrap, modify}
use crossmesh_ingress_contra.Interfaces.{Address, Bytes}

-- The reasons of `require`.
pub data Revert : Type 0 where
  -- Config
  zero_owner not_owner already_initialized zero_wiring no_code not_cctp_v2 usdc_not_burnable :
      Revert
  no_stellar_route above_cap below_floor factory_has_no_code factory_not_wired : Revert
  zero_rescue_sink not_pending_owner : Revert
  -- Config and DepositForwarder
  zero_fee_collector : Revert
  -- DepositFactory
  implementation_not_a_contract : Revert
  -- DepositForwarder
  zero_config : Revert
  not_a_clone not_operator below_sweep_minimum not_sweepable_yet sink_unset : Revert
  not_initialized rescue_failed native_is_usdc usdc_only_via_settlement bad_amount : Revert
  approve_failed fee_exceeds_settled fee_collector_is_this_clone burn_unsupported : Revert

pub data Event : Type 0 where
  -- Config
  initialized_event : Address → Address → ℕ → Event
  ownership_transfer_started owner_transferred : Address → Address → Event
  setup_fee_set base_fee_set fee_ppm_set cctp_standard_max_fee_ppm_set : ℕ → Event
  cctp_fast_max_fee_ppm_set sweep_delay_set : ℕ → Event
  fast_enabled_set public_flush_set : Bool → Event
  fee_collector_set factory_set rescue_sink_set : Address → Event
  operator_set : Address → Bool → Event
  -- DepositForwarder: the caller, what was settled, the two fees, what was burned, whether by a
  -- sweep, whether a fast transfer was asked for
  settled : Address → ℕ → ℕ → ℕ → ℕ → Bool → Bool → Event
  sweep_requested : Address → ℕ → Event
  rescued_native : Address → ℕ → Event
  rescued_erc20 : Address → Address → ℕ → Event
  -- DepositFactory
  forwarder_deployed : Address → Bytes → ℕ → Bool → Event
  flush_relayed : Address → Address → Event

-- Config's storage.
pub record ConfigStorage : Type 0 where
  pub usdc : Address
  pub token_messenger : Address
  pub stellar_forwarder : ℕ
  pub initialized : Bool
  pub owner : Address
  pub pending_owner : Address
  pub setup_fee : ℕ
  pub base_fee : ℕ
  pub fee_ppm : ℕ
  pub cctp_standard_max_fee_ppm : ℕ
  pub cctp_fast_max_fee_ppm : ℕ
  pub fast_enabled : Bool
  pub public_flush : Bool
  pub fee_collector : Address
  pub sweep_delay : ℕ
  pub is_operator : Address → Bool
  pub factory : Address
  pub rescue_sink : Address

-- The storage of one DepositForwarder clone; `sweepable_at` is 0 where no sweep is requested.
pub record CloneStorage : Type 0 where
  pub sweepable_at : ℕ
  pub sweep_cap : ℕ
  pub setup_fee_paid : Bool

-- `address(this)`, `msg.sender` and `block.timestamp`
pub record Frame : Type 0 where
  pub this : Address
  pub sender : Address
  pub timestamp : ℕ

pub record State (W : Type 0) : Type 0 where
  pub world : W
  pub config : ConfigStorage
  pub clones : Address → CloneStorage
  -- the newest first, each with the contract that emitted it
  pub log : List (Address × Event)

abbrev pub Action : Type 0 → Type 0 → Type 0
Action W A = Exec (State W) Revert A

module _ {W : Type 0} where
  abbrev pub require : Bool → Revert → Action W Unit
  require test e = panic_if (not test) e

  abbrev pub view : {A : Type 0} → (W → Option A) → Action W A
  view q s = unwrap (q s.world) s

  abbrev pub in_world : {A : Type 0} → Call W A → Call (State W) A
  in_world c s = elim (c s.world) [ none ↦ none | some (a, w) ↦ some (a, record s { world = w }) ]

  abbrev pub store_config : (ConfigStorage → ConfigStorage) → Action W Unit
  store_config g = modify (λ s. record s { config = g s.config })

  abbrev pub update_clone : Address → (CloneStorage → CloneStorage) → State W → State W
  update_clone a g s = record s { clones = λ b. if b == a then g (s.clones b) else s.clones b }

  abbrev pub store_clone : Address → (CloneStorage → CloneStorage) → Action W Unit
  store_clone a g = modify (update_clone a g)

  abbrev pub emit : Frame → Event → Action W Unit
  emit f event = modify (λ s. record s { log = (f.this, event) ∷ s.log })
