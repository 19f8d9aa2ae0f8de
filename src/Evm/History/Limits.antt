-- ===== src/Evm/History/Limits.antt =====
-- src/*.sol: what holds over any history.
use crossmesh_ingress_contra.Prelude.{◌≡◌, refl, ap, ◌∙◌, ◌⊎◌, inl, inr, true, some}
use crossmesh_ingress_contra.Exec.{done}
use crossmesh_ingress_contra.Interfaces.{Address}
use crossmesh_ingress_contra.Evm.{Frame, State}
use crossmesh_ingress_contra.Evm.Network.{Network}
use crossmesh_ingress_contra.Evm.Config.{unset_config, constructor}
use crossmesh_ingress_contra.Evm.Config.Calls.{ConfigCall, Written}
use crossmesh_ingress_contra.Evm.Config.Caps.{
  Capped, constructor-Capped, SameWiring, Governed, Written-Capped, Written-SameWiring,
  Written-Governed, constructor-clones,
}
use crossmesh_ingress_contra.Evm.Forwarder.Entry.{flush-Flushes}
use crossmesh_ingress_contra.Evm.Forwarder.Sweeping.{request_sweep-Arms, sweep-Sweeps}
use crossmesh_ingress_contra.Evm.Forwarder.Windows.{
  Window, Flushes-config, Flushes-Window, Sweeps-config, Sweeps-Window, Arms-config, Arms-Window,
}
use crossmesh_ingress_contra.Evm.Rescue.{Untrusted}
use crossmesh_ingress_contra.Evm.Rescue.Principal.{
  Quiet, rescue_native-NativeRescue, rescue_erc20-TokenRescue,
}
use crossmesh_ingress_contra.Evm.Factory.Relaying.{deploy-Keeps, deploy_and_flush-Relays}
use crossmesh_ingress_contra.Evm.History.{
  Step, configured, flushed, requested, swept, native_rescued, token_rescued, deployed, relayed,
  elsewhere, config_caller, Reach, here, next,
}
use crossmesh_ingress_contra.Evm.Config.Effects.{run_config-Written}

module _ {W : Type 0} (n : Network W) (out : Untrusted W) (implementation : Address)
    (quiet : Quiet out) where
  -- What one transaction does to the configuration: nothing, or what one call of Config does.
  Step-Written :
      {s t : State W} (st : Step n out implementation s t)
      → (t.config ≡ s.config)
        ⊎ ((f : Frame) × (made : ConfigCall) × (config_caller n out implementation st
              ≡ some f.sender)
            × Written f made s t)
  Step-Written {s} {t} (configured f made p) =
      inr (f, made, refl, run_config-Written n f s t made p)
  Step-Written {s} {t} (flushed f p) =
      inl (Flushes-config n f implementation ((flush-Flushes n implementation f s).at tt t p))
  Step-Written {s} {t} (requested f p) =
      inl (Arms-config n f implementation ((request_sweep-Arms n implementation f s).at tt t p))
  Step-Written {s} {t} (swept f p) =
      inl (Sweeps-config n f implementation ((sweep-Sweeps n implementation f s).at tt t p))
  Step-Written {s} {t} (native_rescued f p) =
      let r = (rescue_native-NativeRescue n out f s).at tt t p in
      inl (quiet.send_quiet _ _ _ _ t r.sent).0
  Step-Written {s} {t} (token_rescued f token p) =
      let r = (rescue_erc20-TokenRescue n out f implementation token s).at tt t p in
      inl (ap (λ (u : State W). u.config) r.after ∙ (quiet.transfer_quiet _ _ _ _ s _ r.sent).0)
  Step-Written {s} {t} (deployed f to index flag a p) =
      inl ((deploy-Keeps n implementation f to index flag s).at a t p).config_kept
  Step-Written {s} {t} (relayed f to index flag a p) =
      let r = (deploy_and_flush-Relays n implementation f to index flag s).at a t p in
      inl (
        Flushes-config n _ implementation r.flushes
        ∙ ((deploy-Keeps n implementation f to index flag s).at a _ r.deploys).config_kept)
  Step-Written (elsewhere same _ _) = inl same

  Step-Capped : {s t : State W} → Step n out implementation s t → Capped s.config → Capped t.config
  Step-Capped st c = elim (Step-Written st) [
    | inl same ↦ rw same c
    | inr (f, made, _, w) ↦ Written-Capped w c
  ]

  Step-SameWiring :
      {s t : State W}
      → Step n out implementation s t
      → s.config.initialized ≡ true
      → SameWiring s.config t.config
  Step-SameWiring st k = elim (Step-Written st) [
    | inl same ↦ rw same (record {
      usdc_same = refl;
      messenger_same = refl;
      forwarder_same = refl;
      still_initialized = k;
    })
    | inr (f, made, _, w) ↦ Written-SameWiring w k
  ]

  Step-Window :
      {s t : State W}
      → Step n out implementation s t
      → Capped s.config
      → ((a : Address) → Window (s.clones a))
      → (a : Address) → Window (t.clones a)
  Step-Window {s} {t} (configured f made p) c w a =
      rw (run_config-Written n f s t made p).clones_kept (w a)
  Step-Window {s} {t} (flushed f p) c w a =
      Flushes-Window n f implementation ((flush-Flushes n implementation f s).at tt t p) w a
  Step-Window {s} {t} (requested f p) c w a =
      Arms-Window n f implementation ((request_sweep-Arms n implementation f s).at tt t p)
        c.delay_floored w a
  Step-Window {s} {t} (swept f p) c w a =
      Sweeps-Window n f implementation ((sweep-Sweeps n implementation f s).at tt t p) w a
  Step-Window {s} {t} (native_rescued f p) c w a =
      let r = (rescue_native-NativeRescue n out f s).at tt t p in
      rw (quiet.send_quiet _ _ _ _ t r.sent).1 (w a)
  Step-Window {s} {t} (token_rescued f token p) c w a =
      let r = (rescue_erc20-TokenRescue n out f implementation token s).at tt t p in
      rw (ap (λ (u : State W). u.clones) r.after ∙ (quiet.transfer_quiet _ _ _ _ s _ r.sent).1)
        (w a)
  Step-Window {s} {t} (deployed f to index flag b p) c w a =
      rw ((deploy-Keeps n implementation f to index flag s).at b t p).clones_kept (w a)
  Step-Window {s} {t} (relayed f to index flag b p) c w a =
      let r = (deploy_and_flush-Relays n implementation f to index flag s).at b t p in
      let kept = ((deploy-Keeps n implementation f to index flag s).at b _ r.deploys).clones_kept in
      Flushes-Window n _ implementation r.flushes (λ x. rw kept (w x)) a
  Step-Window (elsewhere _ same _) c w a = rw same (w a)

  Reach-limits :
      {s t : State W}
      → Reach n out implementation s t
      → Capped s.config
      → ((a : Address) → Window (s.clones a))
      → (Capped t.config) × ((a : Address) → Window (t.clones a))
  Reach-limits here c w = (c, w)
  Reach-limits (next r st) c w =
      let (c', w') = Reach-limits r c w in (Step-Capped st c', Step-Window st c' w')

  -- Once Config is initialized, over any history, the USDC token, the messenger and the forwarder
  -- on Stellar stay the same, and it stays initialized. Whoever is called by a rescue is assumed
  -- not to call the contracts back.
  pub reachable_wiring :
      {s t : State W}
      → Reach n out implementation s t
      → s.config.initialized ≡ true
      → SameWiring s.config t.config
  reachable_wiring here k = record {
    usdc_same = refl;
    messenger_same = refl;
    forwarder_same = refl;
    still_initialized = k;
  }
  reachable_wiring (next r st) k =
      let a = reachable_wiring r k in
      let b = Step-SameWiring st a.still_initialized in
      record {
        usdc_same = b.usdc_same ∙ a.usdc_same;
        messenger_same = b.messenger_same ∙ a.messenger_same;
        forwarder_same = b.forwarder_same ∙ a.forwarder_same;
        still_initialized = b.still_initialized;
      }

  -- Whatever transaction happens, Config's storage stays as it is; or the transaction is a call of
  -- Config by the owner, who is still the owner; or it is a call of Config by the proposed owner,
  -- who is the owner now, with nothing else changed but that no owner is proposed. Whoever is
  -- called by a rescue is assumed not to call the contracts back.
  pub Step-Governed :
      {s t : State W} (st : Step n out implementation s t)
      → (t.config ≡ s.config)
        ⊎ ((caller : Address) × (config_caller n out implementation st ≡ some caller)
            × Governed caller s.config t.config)
  Step-Governed st = elim (Step-Written st) [
    | inl same ↦ inl same
    | inr (f, made, called, w) ↦ inr (f.sender, called, Written-Governed w)
  ]

  -- Over any history from the construction of Config, with no window armed at the start: every fee
  -- is within its cap, the delay of a sweep is between an hour and seven days, the path of the
  -- USDC is set once Config is initialized, and every clone's window is closed with no budget or
  -- armed with a budget of two subunits or more. Whoever is called by a rescue is assumed not to
  -- call the contracts back.
  pub reachable_limits :
      (f : Frame) (owner : Address) (s₀ s t : State W)
      → s₀.config ≡ unset_config
      → ((a : Address) → Window (s₀.clones a))
      → constructor f owner s₀ ≡ done tt s
      → Reach n out implementation s t
      → (Capped t.config) × ((a : Address) → Window (t.clones a))
  reachable_limits f owner s₀ s t fresh w p r =
      Reach-limits r (constructor-Capped f owner s₀ s fresh p)
        (λ a. rw (constructor-clones f owner s₀ s p) (w a))
