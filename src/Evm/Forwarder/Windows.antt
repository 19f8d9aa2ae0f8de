-- ===== src/Evm/Forwarder/Windows.antt =====
-- src/DepositForwarder.sol: the windows of the clones, across each function.
use crossmesh_ingress_contra.Prelude.{
  ℕ, ◌+◌, ◌≤◌, ◌≡◌, refl, ap, ◌∙◌, ◌≢◌, inl, inr, Bool, true, false, arith, ◌==◌, if◌then◌else◌,
  ==→eq, Bool-cases,
}
use crossmesh_ingress_contra.Interfaces.{Address}
use crossmesh_ingress_contra.Evm.{CloneStorage, Frame, State}
use crossmesh_ingress_contra.Evm.Rules.{eq_cases}
use crossmesh_ingress_contra.Evm.Word.{min}
use crossmesh_ingress_contra.Evm.Network.{Network}
use crossmesh_ingress_contra.Evm.Config.{min_sweep_delay, max_sweep_delay}
use crossmesh_ingress_contra.Evm.Forwarder.{min_sweep_amount, settle_window}
use crossmesh_ingress_contra.Evm.Forwarder.Fees.{with_fee_paid}
use crossmesh_ingress_contra.Evm.Forwarder.Settling.{Settles}
use crossmesh_ingress_contra.Evm.Forwarder.Entry.{Closes, Flushes}
use crossmesh_ingress_contra.Evm.Forwarder.Sweeping.{deadline, Arms, Sweeps}

-- A window that is closed has no budget, and one that is armed has a budget that can be burned.
pub record Window (k : CloneStorage) : Type 0 where
  pub closed_empty : k.sweepable_at ≡ 0 → k.sweep_cap ≡ 0
  pub armed_enough : k.sweepable_at ≢ 0 → min_sweep_amount ≤ k.sweep_cap

pub record SameWindow (k l : CloneStorage) : Type 0 where
  pub at_same : l.sweepable_at ≡ k.sweepable_at
  pub cap_same : l.sweep_cap ≡ k.sweep_cap

pub Window-same : {k l : CloneStorage} → SameWindow k l → Window k → Window l
Window-same m w = ground arith

update-SameWindow : (b : Bool) (k : CloneStorage) → SameWindow k (if b then with_fee_paid k else k)
update-SameWindow true k = record { at_same = refl; cap_same = refl }
update-SameWindow false k = record { at_same = refl; cap_same = refl }

same : (k : CloneStorage) → SameWindow k k
same k = record { at_same = refl; cap_same = refl }

module _ {W : Type 0} (n : Network W) (f : Frame) where
  module _ {usdc : Address} {amount : ℕ} {charge_fees : Bool} {s t : State W}
      (b : Settles n f usdc amount charge_fees s t) where
    after_clones : t.clones ≡ b.charged.clones
    after_clones = rw b.after (ap (λ (u : State W). u.clones) b.burns.rest_kept)

    after_config : t.config ≡ b.charged.config
    after_config = rw b.after (ap (λ (u : State W). u.config) b.burns.rest_kept)

    pub Settles-config : t.config ≡ s.config
    Settles-config = elim (Bool-cases charge_fees) [
      | inl p ↦ after_config ∙ (b.charges p).config_kept
      | inr p ↦ after_config ∙ ap (λ (u : State W). u.config) (b.charges_nothing p).2
    ]

    pub Settles-clones_free : charge_fees ≡ false → t.clones ≡ s.clones
    Settles-clones_free p = after_clones ∙ ap (λ (u : State W). u.clones) (b.charges_nothing p).2

    pub Settles-SameWindow : (a : Address) → SameWindow (s.clones a) (t.clones a)
    Settles-SameWindow a = elim (Bool-cases charge_fees) [
      | inl p ↦
          rw (after_clones, (b.charges p).clones_after)
            (update-SameWindow (a == f.this) (s.clones a))
      | inr p ↦ rw (Settles-clones_free p) (same (s.clones a))
    ]

-- The window that a settlement leaves, if it was armed.
settled_Window :
    (close here : Bool) (remaining : ℕ) (k : CloneStorage)
    → (here ≡ true → k.sweepable_at ≢ 0)
    → (close ≡ false → min_sweep_amount ≤ remaining)
    → Window k
    → Window (if here then settle_window close remaining k else k)
settled_Window close false remaining k armed kept w = w
settled_Window true true remaining k armed kept w = record {
  closed_empty = λ _. refl;
  armed_enough = λ p. absurd (p refl);
}
settled_Window false true remaining k armed kept w = record {
  closed_empty = λ p. absurd (armed refl p);
  armed_enough = λ _. kept refl;
}

pub late : (now delay : ℕ) → min_sweep_delay ≤ delay → now + min delay max_sweep_delay ≢ 0
late now delay h = ground arith

armed_Window :
    (here : Bool) (at cap : ℕ) (k : CloneStorage)
    → at ≢ 0
    → min_sweep_amount ≤ cap
    → Window k
    → Window (if here then record k { sweepable_at = at; sweep_cap = cap } else k)
armed_Window false at cap k p q w = w
armed_Window true at cap k p q w = record {
  closed_empty = λ r. absurd (p r);
  armed_enough = λ _. q;
}

module _ {W : Type 0} (n : Network W) (f : Frame) where
  Closes-Window :
      {usdc : Address} {remaining : ℕ} {s t : State W}
      → Closes n f usdc remaining s t
      → ((a : Address) → Window (s.clones a))
      → (s.clones f.this).sweepable_at ≢ 0
      → (a : Address) → Window (t.clones a)
  Closes-Window {usdc} {remaining} {s} {t} c w armed a = rw c.after (
      settled_Window c.close (a == f.this) remaining (s.clones a) (λ h. rw (==→eq a f.this h) armed)
        c.kept_open (w a))

  Closes-config :
      {usdc : Address} {remaining : ℕ} {s t : State W}
      → Closes n f usdc remaining s t
      → t.config ≡ s.config
  Closes-config c = rw c.after refl

  module _ (implementation : Address) {s t : State W} where
    pub Flushes-config : Flushes n implementation f s t → t.config ≡ s.config
    Flushes-config b = elim (eq_cases (b.settled_state.clones f.this).sweepable_at 0) [
      | inl p ↦ rw (b.unarmed p) (Settles-config n f b.settles)
      | inr p ↦ Closes-config (b.armed p) ∙ Settles-config n f b.settles
    ]

    pub Flushes-Window :
        Flushes n implementation f s t
        → ((a : Address) → Window (s.clones a))
        → (a : Address) → Window (t.clones a)
    Flushes-Window b w a =
        let settled_windows : (x : Address) → Window (b.settled_state.clones x) =
          λ x. Window-same (Settles-SameWindow n f b.settles x) (w x) in
        elim (eq_cases (b.settled_state.clones f.this).sweepable_at 0) [
          | inl p ↦ rw (b.unarmed p) (settled_windows a)
          | inr p ↦ Closes-Window (b.armed p) settled_windows p a
        ]

    pub Sweeps-config : Sweeps n implementation f s t → t.config ≡ s.config
    Sweeps-config b = Closes-config b.closes ∙ Settles-config n f b.settles

    pub Sweeps-Window :
        Sweeps n implementation f s t
        → ((a : Address) → Window (s.clones a))
        → (a : Address) → Window (t.clones a)
    Sweeps-Window b w a =
        let kept = Settles-clones_free n f b.settles refl in
        Closes-Window b.closes (λ x. rw kept (w x)) (rw kept b.was_armed) a

    pub Arms-config : Arms n implementation f s t → t.config ≡ s.config
    Arms-config b = elim (eq_cases (s.clones f.this).sweepable_at 0) [
      | inl p ↦ rw (b.arms p) refl
      | inr p ↦ rw (b.already p) refl
    ]

    pub Arms-Window :
        Arms n implementation f s t
        → min_sweep_delay ≤ s.config.sweep_delay
        → ((a : Address) → Window (s.clones a))
        → (a : Address) → Window (t.clones a)
    Arms-Window b floored w a = elim (eq_cases (s.clones f.this).sweepable_at 0) [
      | inl p ↦ rw (b.arms p) (
          armed_Window (a == f.this) (deadline n implementation f s.config) b.balance (s.clones a)
            (late f.timestamp s.config.sweep_delay floored) b.enough (w a))
      | inr p ↦ rw (b.already p) (w a)
    ]
