-- ===== src/Vault/WithdrawalErrors.antt =====
-- How `withdraw` of contracts/vault fails.
use native.Mathlib.Decide.{ℕ_discrete}
use mathlib.Core.Path.{subst}
use crossmesh_ingress_contra.Prelude.{
  ◌≡◌, refl, sym, ◌∙◌, ◌≢◌, ◌↔◌, ◌⊎◌, inl, inr, none, some, arith, Bool-cases, Option-cases,
}
use crossmesh_ingress_contra.Int.{ℤ, pos, ◌≤ℤ◌, leb_ℤ}
use crossmesh_ingress_contra.Exec.{Outcome, done, err, trap, Exec, call, ◌>>=◌}
use crossmesh_ingress_contra.Exec.Steps.{
  bind_step, bind_err, bind_trap, call_step, call_trap, panic_if_step, panic_if_err,
}
use crossmesh_ingress_contra.Interfaces.{Address, Bytes}
use crossmesh_ingress_contra.Events.{withdrawn}
use crossmesh_ingress_contra.Host.{Env, MuxedAddress, World, publish, Host}
use crossmesh_ingress_contra.Vault.{
  VaultError, not_this_vault, nothing_to_withdraw, require_this_vault, withdraw,
}
use crossmesh_ingress_contra.Vault.Identity.{
  require_this_vault_returns, require_this_vault_refuses, require_this_vault_nameless,
}
use crossmesh_ingress_contra.Vault.Withdrawal.{withdraw_event, WithdrawRun, withdraw_iff}

module _ {L : Type 0} (h : Host L) (e : Env) (owner : Bytes) (factory token : Address)
    (w : World L) where
  -- The vault recognised its owner, who authorized the call.
  pub record Signed (m : MuxedAddress) (w1 : World L) : Type 0 where
    pub derived : h.deployed_address factory (h.sha256 owner) ≡ e.this
    pub parsed : h.from_string_bytes owner ≡ some m
    pub authorized : h.require_auth e m.address w ≡ some (tt, w1)

  module _ {A : Type 0} (k : MuxedAddress → Exec (World L) VaultError A) where
    sign :
        {m : MuxedAddress} {w1 : World L} (r : Signed m w1)
        → (require_this_vault h e owner factory >>= λ m.
              call (h.require_auth e m.address) >>= λ _. k m)
            w
          ≡ k m w1
    sign r =
        bind_step _ _ _ (require_this_vault_returns h e owner factory w r.derived r.parsed)
        ∙ call_step _ _ _ r.authorized

  pub data WithdrawFails : Outcome (World L) VaultError ℤ → Type 0 where
    not_ours :
        h.deployed_address factory (h.sha256 owner) ≢ e.this → WithdrawFails (err not_this_vault)
    nameless :
        h.deployed_address factory (h.sha256 owner) ≡ e.this
        → h.from_string_bytes owner ≡ none
        → WithdrawFails trap
    unsigned :
        (m : MuxedAddress)
        → h.deployed_address factory (h.sha256 owner) ≡ e.this
        → h.from_string_bytes owner ≡ some m
        → h.require_auth e m.address w ≡ none
        → WithdrawFails trap
    unread :
        (m : MuxedAddress) (w1 : World L)
        → Signed m w1
        → h.balance e.this token e.this w1 ≡ none
        → WithdrawFails trap
    empty :
        (m : MuxedAddress) (n : ℤ) (w1 w2 : World L)
        → Signed m w1
        → h.balance e.this token e.this w1 ≡ some (n, w2)
        → n ≤ℤ pos 0
        → WithdrawFails (err nothing_to_withdraw)
    unpaid :
        (m : MuxedAddress) (n : ℤ) (w1 w2 : World L)
        → Signed m w1
        → h.balance e.this token e.this w1 ≡ some (n, w2)
        → pos 1 ≤ℤ n
        → h.transfer e.this token e.this m n w2 ≡ none
        → WithdrawFails trap

  failing :
      (o : Outcome (World L) VaultError ℤ)
      → WithdrawFails o
      → withdraw h e owner factory token w ≡ o
  unfolding withdraw
  failing _ (not_ours foreign) =
      bind_err _ _ _ (require_this_vault_refuses h e owner factory w foreign)
  failing _ (nameless derived nobody) =
      bind_trap _ _ _ (require_this_vault_nameless h e owner factory w derived nobody)
  failing _ (unsigned m derived parsed denied) =
      bind_step _ _ _ (require_this_vault_returns h e owner factory w derived parsed)
      ∙ call_trap _ _ _ denied
  failing _ (unread m w1 signed unread_balance) = sign _ signed ∙ call_trap _ _ _ unread_balance
  failing _ (empty m n w1 w2 signed read low) =
      sign _ signed ∙ call_step _ _ _ read ∙ panic_if_err _ _ _ _ (ground arith)
  failing _ (unpaid m n w1 w2 signed read positive refused) =
      sign _ signed
      ∙ call_step _ _ _ read
      ∙ panic_if_step _ _ _ _ (ground arith)
      ∙ call_trap _ _ _ refused

  abbrev Paid : Type 0
  Paid = (n : ℤ) × (w' : World L) × WithdrawRun h e owner factory token w n w'

  abbrev Refused : Type 0
  Refused = (o : Outcome (World L) VaultError ℤ) × WithdrawFails o

  -- Once the owner has signed.
  signed_ends : (m : MuxedAddress) (w1 : World L) → Signed m w1 → Paid ⊎ Refused
  signed_ends m w1 s = elim (Option-cases (h.balance e.this token e.this w1)) [
    | inl unread_balance ↦ inr (_, unread m w1 s unread_balance)
    | inr ((n, w2), read) ↦ elim (Bool-cases (leb_ℤ n (pos 0))) [
      | inl low ↦ inr (_, empty m n w1 w2 s read (ground arith))
      | inr high ↦ elim (Option-cases (h.transfer e.this token e.this m n w2)) [
        | inl refused ↦ inr (_, unpaid m n w1 w2 s read (ground arith) refused)
        | inr ((_, w3), paid) ↦ inl (
          n,
          publish e (withdrawn (withdraw_event h e owner factory token w m n)) w3,
          record {
            owner_muxed = m;
            w1 = w1;
            w2 = w2;
            w3 = w3;
            derived = s.derived;
            parsed = s.parsed;
            authorized = s.authorized;
            read = read;
            positive = ground arith;
            paid = paid;
            published = refl;
          },
        )
      ]
    ]
  ]

  ends : Paid ⊎ Refused
  ends = elim (ℕ_discrete (h.deployed_address factory (h.sha256 owner)) e.this) [
    | no foreign ↦ inr (_, not_ours foreign)
    | yes derived ↦ elim (Option-cases (h.from_string_bytes owner)) [
      | inl nobody ↦ inr (_, nameless derived nobody)
      | inr (m, parsed) ↦ elim (Option-cases (h.require_auth e m.address w)) [
        | inl denied ↦ inr (_, unsigned m derived parsed denied)
        | inr ((_, w1), authorized) ↦
            signed_ends m w1
              (record { derived = derived; parsed = parsed; authorized = authorized })
      ]
    ]
  ]

  -- How a withdrawal fails, and that it fails in no other way: an outcome that is not a return is
  -- that of a withdrawal exactly when one of these holds. The owner or the factory is another
  -- vault's, which is refused; the strkey names nobody, the owner's address did not authorize the
  -- call, the vault's balance cannot be read, or the token does not pay it out, and each of these
  -- traps; or, with the owner's authorization, the vault holds none of the token, and says so.
  pub withdraw_fails :
      (o : Outcome (World L) VaultError ℤ)
      → WithdrawFails o
        ↔ ((withdraw h e owner factory token w ≡ o) × ((n : ℤ) (w' : World L) → o ≢ done n w'))
  withdraw_fails o = (
    λ f. (failing o f, λ n w' p. fails_not_done o f n w' p),
    λ (p, failed). elim ends [
      | inl (n, w', r) ↦
          absurd (failed n w' (sym p ∙ (withdraw_iff h e owner factory token w n w').1 r))
      | inr (o', f) ↦ subst WithdrawFails (sym (failing o' f) ∙ p) f
    ],
  )
    where
      fails_not_done :
          (o : Outcome (World L) VaultError ℤ)
          → WithdrawFails o
          → (n : ℤ) (w' : World L) → o ≢ done n w'
      fails_not_done _ (not_ours _) n w' p = cc
      fails_not_done _ (nameless _ _) n w' p = cc
      fails_not_done _ (unsigned _ _ _ _) n w' p = cc
      fails_not_done _ (unread _ _ _ _) n w' p = cc
      fails_not_done _ (empty _ _ _ _ _ _ _) n w' p = cc
      fails_not_done _ (unpaid _ _ _ _ _ _ _ _) n w' p = cc
