-- ===== src/Evm/Forwarder/Entry.antt =====
-- src/DepositForwarder.sol: what `flush` does when it returns.
use crossmesh_ingress_contra.Prelude.{
  ℕ, ◌-◌, ◌≤◌, ◌<◌, ◌≡◌, refl, ◌≢◌, ◌⊎◌, inl, inr, Bool, true, false, ◌||◌, some, arith, ltb, ◌==◌,
  if◌then◌else◌, ltb→lt, not_ltb→le, ==→eq, not_==→ne, Bool-cases,
}
use crossmesh_ingress_contra.Exec.{pure}
use crossmesh_ingress_contra.Exec.Ensures.{
  Ensures, Ensures-pure, Ensures-if, Ensures-bind, Ensures-gets,
}
use crossmesh_ingress_contra.Interfaces.{Address}
use crossmesh_ingress_contra.Evm.{ConfigStorage, Frame, State, update_clone}
use crossmesh_ingress_contra.Evm.Rules.{
  Ensures-view, Ensures-read, Ensures-require, Ensures-last_modify, differ, Ensures-weaken,
}
use crossmesh_ingress_contra.Evm.Word.{min}
use crossmesh_ingress_contra.Evm.Network.{Network}
use crossmesh_ingress_contra.Evm.Forwarder.{
  min_sweep_amount, settle_window, burn_limit, is_drained, keep_or_close, is_clone, flush,
}
use crossmesh_ingress_contra.Evm.Forwarder.Settling.{Settles, settle-Settles}

-- What a settlement leaves of a window's budget: nothing if less than two subunits remain or the
-- balance is gone, and what remains otherwise.
pub record Closes {W : Type 0} (n : Network W) (f : Frame) (usdc : Address) (remaining : ℕ)
    (s t : State W) : Type 0 where
  pub close : Bool
  pub kept_open : close ≡ false → min_sweep_amount ≤ remaining
  pub kept_held : close ≡ false → n.token.balance_of usdc f.this s.world ≢ some 0
  pub closed_for :
      close ≡ true
      → (remaining < min_sweep_amount) ⊎ (n.token.balance_of usdc f.this s.world ≡ some 0)
  pub after : t ≡ update_clone f.this (settle_window close remaining) s

module _ {W : Type 0} (n : Network W) (implementation : Address) (f : Frame) where
  abbrev pub MayFlush : ConfigStorage → Type 0
  MayFlush c = (c.is_operator f.sender ≡ true) ⊎ ((f.sender ≡ c.factory) ⊎ (c.public_flush ≡ true))

  -- The limit that the messenger's minter reports.
  abbrev pub Limit : ConfigStorage → ℕ → W → Type 0
  Limit c limit w =
      (minter : Address) × (n.messenger.local_minter c.token_messenger w ≡ some minter)
      × (n.minter.burn_limits_per_message minter c.usdc w ≡ some limit)

  pub record Flushes (s t : State W) : Type 0 where
    pub on_clone : f.this ≢ implementation
    pub may_flush : MayFlush s.config
    pub balance : ℕ
    pub balance_read : n.token.balance_of s.config.usdc f.this s.world ≡ some balance
    pub limit : ℕ
    pub limit_read : Limit s.config limit s.world
    pub settled_state : State W
    pub settles : Settles n f s.config.usdc (min limit balance) true s settled_state
    pub unarmed : (settled_state.clones f.this).sweepable_at ≡ 0 → t ≡ settled_state
    pub armed :
        (settled_state.clones f.this).sweepable_at ≢ 0
        → Closes n f s.config.usdc
            ((settled_state.clones f.this).sweep_cap - min limit balance)
            settled_state
            t

  is_drained-Ensures :
      (usdc : Address) (s : State W)
      → Ensures
          (λ b t.
            (t ≡ s)
            × ((b ≡ false → n.token.balance_of usdc f.this s.world ≢ some 0)
                × (b ≡ true → n.token.balance_of usdc f.this s.world ≡ some 0)))
          (is_drained n f usdc s)
  unfolding is_drained
  is_drained-Ensures usdc s = Ensures-view _ _ s _ λ balance read. Ensures-pure _ _ s (
    refl,
    (
      λ some_held gone. not_==→ne balance 0 some_held cc,
      λ zero_held. rw (← ==→eq balance 0 zero_held) read,
    ),
  )

  close-Ensures :
      (usdc : Address) (remaining : ℕ) (s : State W)
      → Ensures
          (λ close t.
            (t ≡ s)
            × ((close ≡ false
                  → (min_sweep_amount ≤ remaining)
                    × (n.token.balance_of usdc f.this s.world ≢ some 0))
                × (close ≡ true
                    → (remaining < min_sweep_amount)
                      ⊎ (n.token.balance_of usdc f.this s.world ≡ some 0))))
          ((if ltb remaining min_sweep_amount then pure true else is_drained n f usdc) s)
  close-Ensures usdc remaining s =
      Ensures-if _ _ _ _ s
        (λ small.
          Ensures-pure _ _ s (refl, (λ no. cc, λ _. inl (ltb→lt remaining min_sweep_amount small))))
        (λ large. record {
          at = λ b t h.
              let (same, (holds, drained)) = (is_drained-Ensures usdc s).at b t h in
              (
                same,
                (λ p. (not_ltb→le remaining min_sweep_amount large, holds p), λ p. inr (drained p)),
              );
        })

  pub keep_or_close-Closes :
      (usdc : Address) (remaining : ℕ) (s : State W)
      → Ensures (λ _ t. Closes n f usdc remaining s t) (keep_or_close n f usdc remaining s)
  unfolding keep_or_close
  keep_or_close-Closes usdc remaining s =
      Ensures-read _ _ s _ _ (close-Ensures usdc remaining s) λ close h.
        Ensures-last_modify _ s _ (record {
          close = close;
          kept_open = λ p. (h.0 p).0;
          kept_held = λ p. (h.0 p).1;
          closed_for = h.1;
          after = refl;
        })

  pub burn_limit-Limit :
      (s : State W) → Ensures (λ limit t. (t ≡ s) × Limit s.config limit s.world) (burn_limit n s)
  unfolding burn_limit
  burn_limit-Limit s = Ensures-gets _ _ s _ (
      Ensures-view _ _ s _ λ minter p.
        Ensures-view _ _ s _
          λ limit q. Ensures-require _ _ s _ _ λ _. Ensures-pure _ _ s (refl, (minter, p, q)))

  permitted-MayFlush :
      (c : ConfigStorage)
      → (c.is_operator f.sender || (f.sender == c.factory) || c.public_flush) ≡ true
      → MayFlush c
  permitted-MayFlush c h = elim (Bool-cases (c.is_operator f.sender)) [
    | inl p ↦ inl p
    | inr p ↦ elim (Bool-cases (f.sender == c.factory)) [
      | inl q ↦ inr (inl (==→eq f.sender c.factory q))
      | inr q ↦ inr (inr (rw (p, q) at h))
    ]
  ]

  flush_remaining : (cap amount : ℕ) → (if ltb amount cap then cap - amount else 0) ≡ cap - amount
  flush_remaining cap amount = ground arith

  flush-Closes :
      {usdc : Address} {u t : State W} (cap amount : ℕ)
      → Closes n f usdc (if ltb amount cap then cap - amount else 0) u t
      → Closes n f usdc (cap - amount) u t
  flush-Closes cap amount c = rw flush_remaining at c

  flushed :
      {s t u : State W} {balance limit : ℕ}
      → is_clone n implementation f ≡ true
      → (s.config.is_operator f.sender || (f.sender == s.config.factory) || s.config.public_flush)
        ≡ true
      → n.token.balance_of s.config.usdc f.this s.world ≡ some balance
      → Limit s.config limit s.world
      → Settles n f s.config.usdc (min limit balance) true s u
      → ((u.clones f.this).sweepable_at ≡ 0 → t ≡ u)
      → ((u.clones f.this).sweepable_at ≢ 0
          → Closes n f s.config.usdc ((u.clones f.this).sweep_cap - min limit balance) u t)
      → Flushes s t
  flushed {s} {t} {u} {balance} {limit} on_clone may balance_read limit_read settles unarmed armed =
      record {
        on_clone = differ f.this implementation on_clone;
        may_flush = permitted-MayFlush s.config may;
        balance = balance;
        balance_read = balance_read;
        limit = limit;
        limit_read = limit_read;
        settled_state = u;
        settles = settles;
        unarmed = unarmed;
        armed = armed;
      }

  pub flush-Flushes : (s : State W) → Ensures (λ _ t. Flushes s t) (flush n implementation f s)
  unfolding flush
  flush-Flushes s = Ensures-require _ _ s _ _ λ on_clone. Ensures-gets _ _ s _ (
      Ensures-require _ _ s _ _ λ may. Ensures-view _ _ s _ λ balance balance_read.
        Ensures-read _ _ s _ _ (burn_limit-Limit s) λ limit limit_read.
          Ensures-bind _ _ s _ _ (settle-Settles n f s.config.usdc (min limit balance) true s)
            λ _ u settles. Ensures-gets _ _ u _ (
              Ensures-if _ _ _ _ u
                (λ none_armed. Ensures-pure _ _ u (
                  flushed on_clone may balance_read limit_read settles (λ _. refl)
                    (λ armed. absurd (armed (==→eq _ 0 none_armed)))))
                (λ armed.
                  Ensures-weaken _ _ _ (keep_or_close-Closes s.config.usdc _ u) λ _ t closes.
                    flushed {t = t} on_clone may balance_read limit_read settles
                      (λ none_armed. absurd (not_==→ne _ 0 armed none_armed))
                      (λ _. flush-Closes (u.clones f.this).sweep_cap (min limit balance) closes))))
