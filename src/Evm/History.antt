-- ===== src/Evm/History.antt =====
-- src/*.sol: any history of the contracts on one chain.
pub mod Limits
use crossmesh_ingress_contra.Prelude.{ℕ, ◌≡◌, Bool, Option, none, some}
use crossmesh_ingress_contra.Exec.{done}
use crossmesh_ingress_contra.Interfaces.{Address, Bytes}
use crossmesh_ingress_contra.Evm.{Frame, State}
use crossmesh_ingress_contra.Evm.Network.{Network}
use crossmesh_ingress_contra.Evm.Config.Calls.{ConfigCall, run_config}
use crossmesh_ingress_contra.Evm.Forwarder.{flush, request_sweep, sweep}
use crossmesh_ingress_contra.Evm.Factory.{deploy, deploy_and_flush}
use crossmesh_ingress_contra.Evm.Rescue.{Untrusted, rescue_native, rescue_erc20}

module _ {W : Type 0} (n : Network W) (out : Untrusted W) (implementation : Address) where
  -- One transaction that was not reverted, by whoever call it, in any frame; or anything that
  -- happens elsewhere: a deposit, a change of Circle's limits, the passing of time.
  pub data Step (s t : State W) : Type 0 where
    configured : (f : Frame) (made : ConfigCall) → run_config n f made s ≡ done tt t → Step s t
    flushed : (f : Frame) → flush n implementation f s ≡ done tt t → Step s t
    requested : (f : Frame) → request_sweep n implementation f s ≡ done tt t → Step s t
    swept : (f : Frame) → sweep n implementation f s ≡ done tt t → Step s t
    native_rescued : (f : Frame) → rescue_native n out f s ≡ done tt t → Step s t
    token_rescued :
        (f : Frame) (token : Address)
        → rescue_erc20 n out implementation f token s ≡ done tt t
        → Step s t
    deployed :
        (f : Frame) (to : Bytes) (index : ℕ) (flag : Bool) (a : Address)
        → deploy n implementation f to index flag s ≡ done a t
        → Step s t
    relayed :
        (f : Frame) (to : Bytes) (index : ℕ) (flag : Bool) (a : Address)
        → deploy_and_flush n implementation f to index flag s ≡ done a t
        → Step s t
    elsewhere : t.config ≡ s.config → t.clones ≡ s.clones → t.log ≡ s.log → Step s t

  -- Who calls Config in a transaction, if it is a call of Config.
  abbrev pub config_caller : {s t : State W} → Step s t → Option Address
  config_caller (configured f made p) = some f.sender
  config_caller _ = none

  pub data Reach (s : State W) : State W → Type 0 where
    here : Reach s s
    next : {t u : State W} → Reach s t → Step t u → Reach s u
