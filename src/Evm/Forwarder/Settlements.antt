-- ===== src/Evm/Forwarder/Settlements.antt =====
-- src/DepositForwarder.sol: what a flush and a sweep do with the USDC of a clone.
use crossmesh_ingress_contra.Prelude.{
  ℕ, ◌+◌, ◌-◌, ◌≤◌, ◌<◌, ◌≡◌, refl, ap, ◌≢◌, ◌⊎◌, inl, inr, Bool, true, false, Option, some, arith,
  ◌==◌, if◌then◌else◌,
}
use crossmesh_ingress_contra.Exec.{done}
use crossmesh_ingress_contra.Interfaces.{Address}
use crossmesh_ingress_contra.Evm.{CloneStorage, Frame, State}
use crossmesh_ingress_contra.Evm.Rules.{eq_cases}
use crossmesh_ingress_contra.Evm.Word.{min}
use crossmesh_ingress_contra.Evm.Network.{Network}
use crossmesh_ingress_contra.Evm.Forwarder.{min_sweep_amount, settle_window, flush, sweep}
use crossmesh_ingress_contra.Evm.Forwarder.Entry.{Closes, MayFlush, Limit, Flushes, flush-Flushes}
use crossmesh_ingress_contra.Evm.Forwarder.Sweeping.{Sweeps, sweep-Sweeps}
use crossmesh_ingress_contra.Evm.Forwarder.Windows.{Settles-clones_free}
use crossmesh_ingress_contra.Evm.Network.Ledger.{Ledger}
use crossmesh_ingress_contra.Evm.Forwarder.Conservation.{Exact, Settles-Exact}

module _ {W : Type 0} (n : Network W) (implementation : Address) (f : Frame) where
  Closes-world :
      {usdc : Address} {remaining : ℕ} {s t : State W}
      → Closes n f usdc remaining s t
      → t.world ≡ s.world
  Closes-world c = rw c.after refl

  pub flush-world :
      {s t : State W} (b : Flushes n implementation f s t) → t.world ≡ b.settled_state.world
  flush-world b = elim (eq_cases (b.settled_state.clones f.this).sweepable_at 0) [
    | inl p ↦ ap (λ (u : State W). u.world) (b.unarmed p)
    | inr p ↦ Closes-world (b.armed p)
  ]

  -- A flush that returns ran on a clone, for an operator, the factory or anyone while flushing is
  -- public. It settled the clone's balance, or the limit of one burn if that is less, exactly: the
  -- balance fell by that; the fees, within the caps, went to the collector; and the rest, at least
  -- one subunit, was burned by one message to the Stellar forwarder and the committed recipient.
  pub flush_settles :
      (s t : State W) (l : Ledger n s.config.usdc s.config.token_messenger)
      → flush n implementation f s ≡ done tt t
      → (f.this ≢ implementation)
        × MayFlush n implementation f s.config
        × ((balance : ℕ) × (limit : ℕ) × (n.token.balance_of s.config.usdc f.this s.world
              ≡ some balance)
            × Limit n implementation f s.config limit s.world
            × Exact n f l (min limit balance) true s t.world)
  flush_settles s t l p =
      let b = (flush-Flushes n implementation f s).at tt t p in
      (
        b.on_clone,
        b.may_flush,
        (
          b.balance,
          b.limit,
          b.balance_read,
          b.limit_read,
          rw (flush-world b) (Settles-Exact n f l s b.settles refl),
        ),
      )

  -- What a sweep that settled `amount` leaves of the window, if the clone then holds USDC as `held`
  -- says: less than two subunits of the budget remain or the clone holds nothing, and the window is
  -- closed; or neither is so, and the window stays as it was with the rest of its budget.
  abbrev pub LeavesWindow : ℕ → Option ℕ → CloneStorage → CloneStorage → Type 0
  LeavesWindow amount held k k' =
      (((k.sweep_cap < amount + min_sweep_amount) ⊎ (held ≡ some 0))
        × (k'.sweepable_at ≡ 0)
        × (k'.sweep_cap ≡ 0))
      ⊎ ((held ≢ some 0)
          × (k'.sweepable_at ≡ k.sweepable_at)
          × (k'.sweep_cap + amount ≡ k.sweep_cap)
          × (min_sweep_amount ≤ k'.sweep_cap))

  leaves-window :
      (close : Bool) (cap amount : ℕ) (held : Option ℕ) (k : CloneStorage)
      → k.sweep_cap ≡ cap
      → amount ≤ cap
      → (close ≡ false → min_sweep_amount ≤ cap - amount)
      → (close ≡ false → held ≢ some 0)
      → (close ≡ true → (cap - amount < min_sweep_amount) ⊎ (held ≡ some 0))
      → LeavesWindow amount held k (settle_window close (cap - amount) k)
  leaves-window true cap amount held k e h kept left gone = inl (
    elim (gone refl) [ inl small ↦ inl (omega arith) | inr none_left ↦ inr none_left ],
    refl,
    refl,
  )
  leaves-window false cap amount held k e h kept left gone =
      inr (left refl, refl, omega arith, kept refl)

  at_self : (a b : CloneStorage) → (if f.this == f.this then a else b) ≡ a
  at_self a b = ground arith

  sweep-window :
      {s t : State W} (b : Sweeps n implementation f s t)
      → LeavesWindow
          (min b.limit (min b.balance (s.clones f.this).sweep_cap))
          (n.token.balance_of s.config.usdc f.this t.world)
          (s.clones f.this)
          (t.clones f.this)
  sweep-window {s} {t} b =
      let kept : (b.settled_state.clones f.this) ≡ (s.clones f.this) =
        ap (λ (k : Address → CloneStorage). k f.this) (Settles-clones_free n f b.settles refl) in
      let amount : ℕ = min b.limit (min b.balance (s.clones f.this).sweep_cap) in
      let left : (b.closes.close ≡ false
          → min_sweep_amount ≤ (s.clones f.this).sweep_cap - amount) =
        rw kept at b.closes.kept_open in
      let held : Option ℕ = n.token.balance_of s.config.usdc f.this b.settled_state.world in
      let gone : (b.closes.close ≡ true
          → ((s.clones f.this).sweep_cap - amount < min_sweep_amount) ⊎ (held ≡ some 0)) =
        rw kept at b.closes.closed_for in
      rw (b.closes.after, at_self, kept)
        (leaves-window b.closes.close (s.clones f.this).sweep_cap amount held (s.clones f.this) refl
          (rw kept at b.within) left b.closes.kept_held gone)

  -- A sweep that returns, whoever called it, ran on a clone whose window was armed and had run
  -- out. It settled the least of the balance, the window's budget and the limit of one burn,
  -- exactly, and without a fee. If less than two subunits of the budget remain, or the clone then
  -- holds no USDC, the window is closed; otherwise it stays open from the same time, with what was
  -- settled taken off its budget.
  pub sweep_settles :
      (s t : State W) (l : Ledger n s.config.usdc s.config.token_messenger)
      → sweep n implementation f s ≡ done tt t
      → (f.this ≢ implementation)
        × ((s.clones f.this).sweepable_at ≢ 0)
        × ((s.clones f.this).sweepable_at ≤ f.timestamp)
        × ((balance : ℕ) × (limit : ℕ) × (n.token.balance_of s.config.usdc f.this s.world
              ≡ some balance)
            × Limit n implementation f s.config limit s.world
            × Exact n f l (min limit (min balance (s.clones f.this).sweep_cap)) false s t.world
            × LeavesWindow
                (min limit (min balance (s.clones f.this).sweep_cap))
                (n.token.balance_of s.config.usdc f.this t.world)
                (s.clones f.this)
                (t.clones f.this))
  sweep_settles s t l p =
      let b = (sweep-Sweeps n implementation f s).at tt t p in
      (
        b.on_clone,
        b.was_armed,
        b.due,
        (
          b.balance,
          b.limit,
          b.balance_read,
          b.limit_read,
          rw (Closes-world b.closes) (Settles-Exact n f l s b.settles refl),
          sweep-window b,
        ),
      )
