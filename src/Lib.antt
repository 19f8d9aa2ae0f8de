-- ===== src/Lib.antt =====
-- The contracts of the CrossMesh ingress: the Soroban contracts, which are the code under stellar/,
-- and the EVM contracts under src/.
--
-- The program. A cross-chain provider delivers USDC to an address that is derived from an owner's
-- strkey; the contract at that address is the owner's vault. A relayer that the factory's admin has
-- enabled asks the factory to settle: the factory deploys the vault if there is none, and calls its
-- `swap`, which hands the USDC to a filler of the relayer's choice and pays the owner the XLM that
-- the filler delivers, at least the floor that a price oracle gives. The owner can withdraw any
-- token instead. The Aquarius filler is one filler; it converts through the Aquarius router.
--
-- On an EVM chain, USDC is sent to a deposit address, a clone that the deposit factory puts at an
-- address that the recipient on Stellar determines. An operator flushes it: fees go to a collector,
-- and the rest is burned through Circle's CCTP toward the recipient. A depositor who is not served
-- asks for a sweep, and after a delay anyone may sweep without a fee. `Config` holds what all
-- deposit addresses of a chain share.
--
-- The parts, and where they are modelled:
-- - stellar/packages/interfaces/src/lib.rs: Interfaces.antt (the shared records, the caps, and the
--   interfaces of the contracts that are called, as records of functions).
-- - stellar/contracts/vault/src/lib.rs: Vault.antt. `swap` is `Vault::swap`, `withdraw` is
--   `Vault::withdraw`; `require_this_vault`, `oracle_floor` and `fresh_price` are the functions of
--   those names. Their theorems are under Vault/: Price (the oracle's records), OracleFloor,
--   FloorBounds, FloorRuns, FloorErrors and FloorOrder (the floor), Identity (who a vault belongs
--   to), Run, Stages and Complete (a swap as the sequence of its calls and checks), Refusals (how it
--   fails), Payout and Spending (what the owner gets and what the vault gives), Withdrawal and
--   WithdrawalErrors, Exit and Liveness (when the two functions return). Account is the
--   specification of a vault as an account with a log; Shelter, AccountMoves and History relate the
--   code to it, over any history. Calls is about what all calls keep.
-- - stellar/contracts/vault-factory/src/lib.rs: VaultFactory.antt, one definition for each
--   function; `constructor` is `__constructor`; `admin_of`, `config_of` and `is_relayer_of` are
--   the entry points `admin`, `config` and `is_relayer`, as `router_of` is the filler's `router`.
--   Under VaultFactory/: Construction, Administration and Governance (the admin's functions),
--   Deployment, Settlement (`swap` and `settle`), Complete, Refusals, Reachability (any history of
--   calls), Log (the events of such a history, against the storage), Order (what of its order
--   matters).
-- - stellar/contracts/aquarius-filler/src/lib.rs: AquariusFiller.antt, with `fill` in two parts,
--   the checks and `convert`. Under AquariusFiller/: Run, Conversion and Complete (a fill as the
--   sequence of its calls and checks), Exactness (what it takes and pays) and Refusals (its errors).
-- - The events of all three contracts: Events.antt; Host/Log.antt picks out those of one contract.
-- - The factory with the vault's own code behind it: System.antt, System/Delivery.antt and
--   System/Liveness.antt; a vault with the Aquarius filler's code behind it:
--   System/Conversion.antt, System/Priming.antt and System/Fulfilment.antt.
-- - stellar/packages/test-support/src/lib.rs: TestSupport.antt, and under TestSupport/ what it
--   relies on (Laws) and what it writes (Accounts, NativeSac).
-- - stellar/contracts/*/src/test.rs: Mocks.antt and Mocks/Oracle.antt (the oracle, fillers,
--   routers and callers of the tests).
-- - src/interfaces.sol, and what the EVM contracts call: Evm/Network.antt, with what is relied on of
--   USDC and Circle in Evm/Network/Ledger.antt. Evm.antt has the storage of the contracts, their
--   events and their reasons to revert; Evm/Word.antt is `uint256`; Evm/Rules.antt has the rules of
--   Exec/ for the steps that these contracts take.
-- - src/Config.sol: Evm/Config.antt, one definition for each function. Under Evm/Config/: Calls (a
--   call of any function), Effects (what it writes) and Caps (the limits on it).
-- - src/DepositForwarder.sol: Evm/Forwarder.antt, where `settle`, `collect_fees`, `cctp_params` and
--   the like are the internal functions of those names, and Evm/Rescue.antt (`rescueNative` and
--   `rescueERC20`). Under Evm/Forwarder/: Allowance (the fee that a burn offers), Fees, Settling,
--   Entry and Sweeping (the functions as the sequence of their calls and checks), Windows (the
--   windows for a sweep), Conservation and Settlements (where the USDC goes), Runs and SelfRescue
--   (when a sweep returns), Refusals (the reasons to revert), HookData (the frame of the
--   recipient). Evm/Rescue/Principal.antt is about rescues.
-- - src/DepositFactory.sol: Evm/Factory.antt; under Evm/Factory/: Deploying, Relaying and
--   Delivering (`deployAndFlush`).
-- - The EVM contracts together, over any history: Evm/History.antt and Evm/History/Limits.antt.
-- - Sandbox.antt and Sandbox/: a small concrete host, the theorems at concrete inputs, and runs
--   with the mocks in each mode. Sandbox/EvmChain.antt is a concrete EVM chain for
--   Sandbox/EvmExamples.antt and Sandbox/EvmHistoryExamples.antt.
--
-- How code is modelled. Exec.antt has the type of an invocation: it returns with a new state,
-- panics with the contract's error, or traps (a host error or a plain panic, as of `unwrap`). The
-- host rolls a failed invocation back, so a failure has no state, and a call of another contract that
-- fails traps the caller. Exec/Ensures.antt has one rule for each step of a do block, about what
-- holds when it returns; Exec/Steps.antt has the equations that run it. Instance.antt adds the storage
-- of a contract to the state; the host forbids re-entry, so what a contract calls cannot reach that
-- storage. The vault has no storage.
--
-- Numbers. `i128` values are the integers of Int.antt. `checked_sub` and `checked_mul` fail outside
-- [-2^127, 2^127), and `div` is the code's truncating division, which also fails on -2^127 / -1;
-- `as_u128` wraps. `u64::saturating_add` is written out. `PPM as i128 - discount_ppm as i128` cannot
-- overflow for `u32` values. The contracts have no loop, so no fuel is needed; the
-- loop over a route in a test's router is structural recursion.
-- Addresses and 32-byte hashes, which the contracts only compare, are numbers.
--
-- On the EVM a call that reverts gives its reason, or `trap` where arithmetic panics or a callee
-- fails. `uint256` sums and products fail from 2^256 on, and differences below zero; the explicit
-- cast to `uint32` wraps. Config is read directly by the clones, as their immutable `config`. The
-- loops over bytes are structural recursion. USDC and Circle's contracts do not call back, so what
-- they do changes the rest of the state only; the rescue sink and a rescued token may do anything
-- to the whole state.
--
-- What is a parameter. The Soroban host and its SDK (Host.antt: hashing, address derivation, strkey
-- parsing, authorization, deployment, XDR decoding, token calls), the oracle, the fillers that a
-- vault calls, and the Aquarius router. The laws of it that some theorems use are named records:
-- - `Assets` of Host/Assets.antt: a Stellar asset contract moves exactly what it is told.
-- - `Deployer` of VaultFactory/Deployment.antt: a deployment lands at the derived address, with
--   the code asked for.
-- - `Guarded` of Vault/Spending.antt: nothing else takes tokens from a vault while it runs.
-- - `Sheltered` of Vault/Shelter.antt: the same for both assets of a vault, in every frame that it
--   runs in, and nobody publishes in its name or calls it back.
-- - `Discreet` of VaultFactory/Log.antt: nothing that the factory calls publishes in its name.
-- - `Accepts` of Vault/Exit.antt and `Delivers` of Vault/Liveness.antt: a recipient can be paid,
--   and a filler that is ready delivers.
-- - `IsLedger` and `HasAssets` of TestSupport/Laws.antt: the test environment's ledger is a map.
-- - `Ledger` of Evm/Network/Ledger.antt: USDC moves exactly what it is told, a burn takes its amount
--   and announces its message.
-- - `Predictable` of Evm/Factory/Deploying.antt: a clone is created at the predicted address, with
--   its arguments, and nothing else has code there.
-- - `Quiet` of Evm/Rescue/Principal.antt: what a rescue calls does not call the contracts back.
-- - `CanSweep` of Evm/Forwarder/SelfRescue.antt: Circle takes a burn that offers its minimum fee.
-- The sandbox fulfils those that a theorem of the list below uses.
--
-- What is not modelled: fees, resource limits, the storage's time to live and its archival, the
-- decoding of arguments, and the contract's `Env` beyond what the code calls. On the EVM: gas, the
-- encoding of calls and events, `delegatecall` (a clone runs the code of the implementation), and
-- several configurations on one chain. Elsewhere: the TypeScript SDK, the deployment scripts and
-- the EVM tests; and under stellar/ the unit tests themselves, and the account with its own
-- signature check that they use.
pub mod Prelude
pub mod Int
pub mod Exec
pub mod Interfaces
pub mod Events
pub mod Host
pub mod Instance
pub mod Vault
pub mod Evm
pub mod VaultFactory
pub mod AquariusFiller
pub mod System
pub mod TestSupport
pub mod Mocks
pub mod Sandbox
