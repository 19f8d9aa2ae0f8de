-- ===== src/Sandbox/HistoryExamples.antt =====
-- The factory's events against its storage, at one history of the concrete factory.
use crossmesh_ingress_contra.Prelude.{◌≡◌, ◌≢◌, ◌∙◌, refl, ap, true, none, some, arith}
use crossmesh_ingress_contra.Int.{ℤ}
use crossmesh_ingress_contra.Exec.Ensures.{
  Ensures, Ensures-unwrap, Ensures-call, Ensures-pure, ensured_call,
}
use crossmesh_ingress_contra.Interfaces.{Address, Bytes}
use crossmesh_ingress_contra.Host.{Env, World, frame}
use crossmesh_ingress_contra.Host.Log.{own, own-publish_other}
use crossmesh_ingress_contra.Mocks.{mock_fill, fill_by, pay_out}
use crossmesh_ingress_contra.Vault
use crossmesh_ingress_contra.Vault.Calls.{Calls, swap-Ensures}
use crossmesh_ingress_contra.VaultFactory.{
  State, empty_storage, read_admin, set_relayer, set_discount,
}
use crossmesh_ingress_contra.VaultFactory.Order.{SameLog, reordered, order_forgotten}
use crossmesh_ingress_contra.Exec.{done, ◌>>=◌}
use crossmesh_ingress_contra.VaultFactory.Log.{Discreet, replay, replay_rebuilds}
use crossmesh_ingress_contra.VaultFactory.Reachability.{relayer_call, discount_call, here, next}
use crossmesh_ingress_contra.Sandbox.{
  Ledger, pay, signs, create, derived, sum, sandbox, feed, paying, config, admin, relayer, factory,
  factory_frame,
}
use crossmesh_ingress_contra.Sandbox.Promises.{deployer, pay_moves, pay_mode, runs_fill}
use crossmesh_ingress_contra.Sandbox.FactoryExamples.{
  blank, built, state_of, discounted, relayer_set_ran, discount_set_ran,
}
use crossmesh_ingress_contra.Sandbox.SettlementExamples.{vaults, constructed}

abbrev Quietly : World Ledger → World Ledger → Type 0
Quietly w w' = own factory w'.events ≡ own factory w.events

signs-Quietly :
    (e : Env) (a : Address) (w w' : World Ledger) → signs e a w ≡ some (tt, w') → Quietly w w'
signs-Quietly e a w w' p = ground arith

create-Quietly :
    (salt code a : Address) (w w' : World Ledger)
    → create factory salt code w ≡ some (a, w')
    → Quietly w w'
create-Quietly salt code a w w' p = ground arith

pay-Quietly :
    (c t a b : Address) (n : ℤ) (w w' : World Ledger)
    → pay c t a b n w ≡ some (tt, w')
    → Quietly w w'
pay-Quietly c t a b n w w' p =
    let (k, _, _, after) = pay_moves c t a b n w w' p in
    ap (λ (v : World Ledger). own factory v.events) after

unchanged : (w w' : World Ledger) → w' ≡ w → Quietly w w'
unchanged w w' p = ap (λ (v : World Ledger). own factory v.events) p

pays-Quietly :
    (vault filler token_in token_out : Address) (amount want : ℤ) (hint : Bytes) (w : World Ledger)
    → Ensures (λ _ w'. Quietly w w') (runs_fill vault filler token_in token_out amount want hint w)
unfolding mock_fill fill_by pay_out
pays-Quietly vault filler token_in token_out amount want hint w =
    Ensures-unwrap _ _ _ _ λ mode same. rw (← pay_mode mode same) (
      Ensures-call _ _ _ _
        λ _ w' paid. Ensures-pure _ _ _ (pay-Quietly filler token_out filler vault want w w' paid))

module _ (e : Env) (apart : e.this ≢ factory) where
  quiet-Calls : Calls sandbox e Quietly feed paying
  quiet-Calls = record {
    trans = λ w1 w2 w3 p q. q ∙ p;
    authorized = signs-Quietly e;
    read = λ t n w w' p. unchanged w w' cc;
    asked = λ f asset answer w w' p. unchanged w w' cc;
    sent = λ t to n w w' p. pay-Quietly e.this t e.this to.address n w w' p;
    served = λ f token_in token_out n want reported hint w w' p.
        ensured_call (λ _ w'. Quietly w w') (runs_fill e.this f token_in token_out n want hint) w
          (pays-Quietly e.this f token_in token_out n want hint w) reported w' p;
    told = λ event w. own-publish_other w event e factory apart;
  }

derived_apart : (salt : Address) → derived factory salt ≢ factory
derived_apart salt = λ p. omega (arith, p)

discreet : Discreet sandbox vaults factory
discreet = record {
  auth_quiet = λ invoker. signs-Quietly (frame factory invoker);
  deploy_quiet = create-Quietly;
  balance_quiet = λ t a n w w' p. unchanged w w' cc;
  vault_quiet = λ owner relayer filler n min_out hint config out w w' p.
      let e = frame (derived factory (sum owner)) (some factory) in
      ensured_call (λ _ w'. Quietly w w')
        (Vault.swap sandbox feed paying e owner factory relayer filler n min_out hint config) w
        (swap-Ensures sandbox e Quietly feed paying (quiet-Calls e (derived_apart (sum owner)))
          owner factory w relayer filler n min_out hint config)
        out w' p;
}

-- The relayer is enabled, then the discount is changed.
replay_rebuilds_example :
    discounted.storage
    ≡ replay
        (own factory discounted.world.events)
        (record empty_storage { admin = some admin; config = some config })
replay_rebuilds_example =
    replay_rebuilds sandbox vaults factory discreet deployer factory_frame admin config blank built
      discounted refl constructed refl
      (next (next here (relayer_call none relayer true relayer_set_ran))
        (discount_call none 50_000 discount_set_ran))

-- The same two changes in the other order.
abbrev discounted_first : State Ledger
discounted_first = state_of (set_discount sandbox factory_frame 50_000 built)

abbrev governed_last : State Ledger
governed_last = state_of (set_relayer sandbox factory_frame relayer true discounted_first)

discount_first_ran : set_discount sandbox factory_frame 50_000 built ≡ done tt discounted_first
unfolding set_discount read_admin ◌>>=◌
discount_first_ran = refl

relayer_last_ran :
    set_relayer sandbox factory_frame relayer true discounted_first ≡ done tt governed_last
unfolding set_discount set_relayer read_admin ◌>>=◌
relayer_last_ran = refl

SameLog-here :
    SameLog (own factory discounted.world.events) (own factory governed_last.world.events)
unfolding set_discount set_relayer read_admin ◌>>=◌
SameLog-here = reordered tt

order_forgotten_example : discounted.storage ≡ governed_last.storage
order_forgotten_example =
    order_forgotten sandbox vaults factory discreet deployer factory_frame admin config blank built
      discounted governed_last refl constructed refl
      (next (next here (relayer_call none relayer true relayer_set_ran))
        (discount_call none 50_000 discount_set_ran))
      (next (next here (discount_call none 50_000 discount_first_ran))
        (relayer_call none relayer true relayer_last_ran))
      SameLog-here
