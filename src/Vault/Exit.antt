-- ===== src/Vault/Exit.antt =====
-- `withdraw` of contracts/vault returns: the owner can leave.
use crossmesh_ingress_contra.Prelude.{◌≡◌, ◌≢◌, refl, ◌∙◌, some, arith}
use crossmesh_ingress_contra.Int.{ℤ, pos, ◌+ℤ◌, ◌≤ℤ◌, sub_self}
use crossmesh_ingress_contra.Exec.{done}
use crossmesh_ingress_contra.Interfaces.{Address, Bytes}
use crossmesh_ingress_contra.Events.{withdrawn}
use crossmesh_ingress_contra.Host.{Env, World, Host, MuxedAddress, publish}
use crossmesh_ingress_contra.Host.Assets.{Assets}
use crossmesh_ingress_contra.Vault.{withdraw}
use crossmesh_ingress_contra.Vault.Withdrawal.{withdraw_iff, withdraw_event}

module _ {L : Type 0} (h : Host L) (assets : Assets h) (e : Env) where
  open assets use {
    IsAsset, held, held_nonneg, balance_lem, transfer_from, transfer_to, transfer_elsewhere,
  }

  -- The token pays out what the vault holds to `to`: nothing about the recipient is in the way.
  abbrev pub Accepts : Address → MuxedAddress → Type 0
  Accepts token to =
      (n : ℤ) (w : World L)
      → pos 0 ≤ℤ n
      → n ≤ℤ held token e.this w.ledger
      → (w' : World L) × (h.transfer e.this token e.this to n w ≡ some (tt, w'))

  -- The owner can always leave. In any state, whatever the factory, the relayers, the oracle and
  -- the fillers have done: if the vault recognises its owner, another address, and the owner
  -- signs, and the vault then holds some of an asset that the owner can receive, `withdraw`
  -- returns the whole balance, the vault is left with none of it, and the owner has that much
  -- more.
  pub withdraw_returns :
      (owner : Bytes) (factory token : Address) (m : MuxedAddress) (w v : World L)
      → IsAsset token
      → h.deployed_address factory (h.sha256 owner) ≡ e.this
      → h.from_string_bytes owner ≡ some m
      → e.this ≢ m.address
      → Accepts token m
      → h.require_auth e m.address w ≡ some (tt, v)
      → pos 1 ≤ℤ held token e.this v.ledger
      → (w' : World L) × (withdraw h e owner factory token w ≡ done (held token e.this v.ledger) w')
        × (held token e.this w'.ledger ≡ pos 0)
        × (held token m.address w'.ledger
            ≡ held token m.address v.ledger +ℤ held token e.this v.ledger)
  withdraw_returns owner factory token m w v is derived parsed apart accepts signed some_held =
      let (w3, paid) =
        accepts (held token e.this v.ledger) v (omega (arith, some_held)) (omega arith) in
      let event = withdraw_event h e owner factory token w m (held token e.this v.ledger) in
      (
        publish e (withdrawn event) w3,
        (withdraw_iff h e owner factory token w (held token e.this v.ledger) _).1 (record {
          owner_muxed = m;
          w1 = v;
          w2 = v;
          w3 = w3;
          derived = derived;
          parsed = parsed;
          authorized = signed;
          read = balance_lem e.this token e.this v is;
          positive = some_held;
          paid = paid;
          published = refl;
        }),
        transfer_from e.this token e.this m _ v w3 is apart paid ∙ sub_self _,
        transfer_to e.this token e.this m _ v w3 is apart paid,
      )
