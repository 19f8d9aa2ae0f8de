-- ===== src/Vault/Withdrawal.antt =====
-- `withdraw` of contracts/vault.
use crossmesh_ingress_contra.Prelude.{◌≡◌, refl, sym, ap, ◌∙◌, ◌≢◌, ◌↔◌, some, List, ◌∷◌, arith}
use crossmesh_ingress_contra.Int.{ℤ, pos, ◌+ℤ◌, ◌-ℤ◌, ◌≤ℤ◌, sub_self}
use crossmesh_ingress_contra.Exec.{done, pure, modify, ◌>>=◌}
use crossmesh_ingress_contra.Exec.Ensures.{
  Ensures, Ensures-pure, Ensures-bind, Ensures-call, Ensures-panic_if, Ensures-modify,
}
use crossmesh_ingress_contra.Exec.Steps.{bind_step, call_step, panic_if_step}
use crossmesh_ingress_contra.Interfaces.{Address, Bytes}
use crossmesh_ingress_contra.Events.{Withdrawn, Event, withdrawn}
use crossmesh_ingress_contra.Host.{Env, MuxedAddress, World, publish, Host}
use crossmesh_ingress_contra.Host.Assets.{Assets, balance_read}
use crossmesh_ingress_contra.Vault.{VaultError, withdraw}
use crossmesh_ingress_contra.Vault.Identity.{
  require_this_vault-Recognised, require_this_vault_returns,
}

module _ {L : Type 0} (h : Host L) (e : Env) (owner : Bytes) (factory token : Address)
    (w : World L) where
  abbrev pub withdraw_event : MuxedAddress → ℤ → Withdrawn
  withdraw_event m amount = record {
    owner = m.address;
    owner_strkey = owner;
    token = token;
    amount = amount;
  }

  -- The calls and checks of a withdrawal of `amount` that ends in the state `w'`.
  pub record WithdrawRun (amount : ℤ) (w' : World L) : Type 0 where
    pub owner_muxed : MuxedAddress
    pub w1 : World L
    pub w2 : World L
    pub w3 : World L
    pub derived : h.deployed_address factory (h.sha256 owner) ≡ e.this
    pub parsed : h.from_string_bytes owner ≡ some owner_muxed
    pub authorized : h.require_auth e owner_muxed.address w ≡ some (tt, w1)
    pub read : h.balance e.this token e.this w1 ≡ some (amount, w2)
    pub positive : pos 1 ≤ℤ amount
    pub paid : h.transfer e.this token e.this owner_muxed amount w2 ≡ some (tt, w3)
    pub published : w' ≡ publish e (withdrawn (withdraw_event owner_muxed amount)) w3

  pub withdraw-WithdrawRun : Ensures WithdrawRun (withdraw h e owner factory token w)
  unfolding withdraw
  withdraw-WithdrawRun =
      Ensures-bind _ _ _ _ _ (require_this_vault-Recognised h e owner factory w) λ m w0 known.
        Ensures-call _ _ _ _ λ _ w1 authorized. Ensures-call _ _ _ _ λ amount w2 read.
          Ensures-panic_if _ _ _ _ _ λ positive. Ensures-call _ _ _ _ λ _ w3 paid.
            Ensures-modify _ _ _ _ (
              Ensures-pure _ _ _ (record {
                owner_muxed = m;
                w1 = w1;
                w2 = w2;
                w3 = w3;
                derived = known.derived;
                parsed = known.parsed;
                authorized = rw known.same at authorized;
                read = read;
                positive = ground arith;
                paid = paid;
                published = refl;
              }))

  -- A withdrawal returns exactly when the vault recognises the owner and factory, the owner's
  -- address authorizes the call, the vault holds some of the token, and the token pays it out. The
  -- relayers, the oracle and the configuration have no say.
  pub withdraw_iff :
      (amount : ℤ) (w' : World L)
      → (withdraw h e owner factory token w ≡ done amount w') ↔ WithdrawRun amount w'
  unfolding withdraw
  withdraw_iff amount w' = (
    withdraw-WithdrawRun.at amount w',
    λ r.
        bind_step _ _ _ (require_this_vault_returns h e owner factory w r.derived r.parsed)
        ∙ call_step _ _ _ r.authorized
        ∙ call_step _ _ _ r.read
        ∙ panic_if_step _ _ _ _ (ground (arith, r.positive))
        ∙ call_step _ _ _ r.paid
        ∙ last_event r
        ∙ ap (done amount) (sym r.published),
  )
    where
      last_event :
          (r : WithdrawRun amount w')
          → (modify {E = VaultError} (publish e (withdrawn (withdraw_event r.owner_muxed amount)))
                >>= λ _. pure amount)
              r.w3
            ≡ done amount (publish e (withdrawn (withdraw_event r.owner_muxed amount)) r.w3)
      last_event r = unfold ◌>>=◌ in refl

  -- A withdrawal returns every unit of the token to the owner that the strkey names, under that
  -- owner's authorization: the amount returned is what the vault held once the owner had signed,
  -- the vault holds none afterwards, the owner holds that much more, and the event says so.
  pub withdraw_returns_all :
      (assets : Assets h) (m : MuxedAddress) (amount : ℤ) (w' : World L)
      → assets.IsAsset token
      → h.from_string_bytes owner ≡ some m
      → e.this ≢ m.address
      → withdraw h e owner factory token w ≡ done amount w'
      → (v : World L) × (h.require_auth e m.address w ≡ some (tt, v))
        × (amount ≡ assets.held token e.this v.ledger)
        × (assets.held token e.this w'.ledger ≡ pos 0)
        × (assets.held token m.address w'.ledger ≡ assets.held token m.address v.ledger +ℤ amount)
        × ((before : List (Address × Event)) × (w'.events
              ≡ (e.this, withdrawn (withdraw_event m amount)) ∷ before))
  withdraw_returns_all assets m amount w' is parsed apart p =
      let r = withdraw-WithdrawRun.at amount w' p in
      let (all, same) = balance_read assets e.this token e.this r.w1 is r.read in
      let e_m : r.owner_muxed ≡ m = cc (parsed, r.parsed) in
      let paid =
        ap (λ (o : MuxedAddress). h.transfer e.this token e.this o amount r.w2) (sym e_m)
        ∙ r.paid in
      (
        r.w1,
        ap (λ (o : MuxedAddress). h.require_auth e o.address w) (sym e_m) ∙ r.authorized,
        all,
        ap (λ (v : World L). assets.held token e.this v.ledger) r.published
            ∙ assets.transfer_from _ _ _ _ _ _ _ is apart paid
            ∙ ap (λ (v : World L). assets.held token e.this v.ledger -ℤ amount) same
            ∙ ap (λ n. n -ℤ amount) (sym all)
            ∙ sub_self amount,
        ap (λ (v : World L). assets.held token m.address v.ledger) r.published
            ∙ assets.transfer_to _ _ _ _ _ _ _ is apart paid
            ∙ ap (λ (v : World L). assets.held token m.address v.ledger +ℤ amount) same,
        (
          r.w3.events,
          ap (λ (v : World L). v.events) r.published
              ∙ ap
                  (λ (o : MuxedAddress).
                    (e.this, withdrawn (withdraw_event o amount)) ∷ r.w3.events)
                  e_m,
        ),
      )
