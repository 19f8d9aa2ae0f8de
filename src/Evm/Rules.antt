-- ===== src/Evm/Rules.antt =====
-- One rule for each way that a block of the EVM contracts begins, about what holds when it returns.
use crossmesh_ingress_contra.Prelude.{
  ℕ, ◌≤◌, ◌≡◌, refl, ◌≢◌, ◌⊎◌, inl, inr, Bool, true, false, not, Option, none, some, arith, ltb,
  leb, ◌==◌, ==→eq, not_==→ne, not-false, Bool-cases,
}
use crossmesh_ingress_contra.Exec.{Outcome, done, Call, pure, call, panic_if, modify, ◌>>=◌}
use crossmesh_ingress_contra.Exec.Ensures.{
  Ensures, Ensures-pure, Ensures-bind, Ensures-unwrap, Ensures-panic_if,
}
use crossmesh_ingress_contra.Exec.Steps.{call_step, unwrap_step}
use crossmesh_ingress_contra.Evm.{Revert, State, Action, require, view, in_world}

module _ {W A B : Type 0} (P : B → State W → Type 0) (g : A → Action W B) (s : State W) where
  pub Ensures-view :
      (q : W → Option A)
      → ((a : A) → q s.world ≡ some a → Ensures P (g a s))
      → Ensures P ((view q >>= g) s)
  unfolding ◌>>=◌
  Ensures-view q h = Ensures-unwrap P g s (q s.world) h

  pub Ensures-in_world :
      (c : Call W A)
      → ((a : A) (w : W) → c s.world ≡ some (a, w) → Ensures P (g a (record s { world = w })))
      → Ensures P ((call (in_world c) >>= g) s)
  unfolding ◌>>=◌
  Ensures-in_world c h = split (c s.world) h
    where
      split :
          (o : Option (A × W))
          → ((a : A) (w : W) → o ≡ some (a, w) → Ensures P (g a (record s { world = w })))
          → Ensures P ((call (in_world (λ _. o)) >>= g) s)
      split none q = record { at = λ b t e. cc }
      split (some (a, w)) q = q a w refl

  -- a step that changes nothing
  pub Ensures-read :
      (Q : A → Type 0) (m : Action W A)
      → Ensures (λ a t. (t ≡ s) × Q a) (m s)
      → ((a : A) → Q a → Ensures P (g a s))
      → Ensures P ((m >>= g) s)
  Ensures-read Q m h k = Ensures-bind P g s _ m h (λ a t q. rw q.0 (k a q.1))

module _ {W B : Type 0} (P : B → State W → Type 0) (g : Unit → Action W B) (s : State W) where
  pub Ensures-require :
      (test : Bool) (e : Revert)
      → (test ≡ true → Ensures P (g tt s))
      → Ensures P ((require test e >>= g) s)
  Ensures-require test e h = Ensures-panic_if P g s (not test) e (λ p. h (not-false test p))

module _ {W : Type 0} (P : Unit → State W → Type 0) (s : State W) where
  -- a block that ends in such a call, or in a write
  pub Ensures-last_in_world :
      (c : Call W Unit)
      → ((w : W) → c s.world ≡ some (tt, w) → P tt (record s { world = w }))
      → Ensures {E = Revert} P (call (in_world c) s)
  unfolding call
  Ensures-last_in_world c h = split (c s.world) h
    where
      split :
          (o : Option (Unit × W))
          → ((w : W) → o ≡ some (tt, w) → P tt (record s { world = w }))
          → Ensures {E = Revert} P (call (in_world (λ _. o)) s)
      split none q = record { at = λ b t e. cc }
      split (some (a, w)) q = unfold pure in Ensures-pure P tt (record s { world = w }) (q w refl)

  pub Ensures-last_modify :
      (g : State W → State W) → P tt (g s) → Ensures {E = Revert} P (modify g s)
  unfolding modify
  Ensures-last_modify g h = unfold pure in Ensures-pure P tt (g s) h

  pub Ensures-last_require :
      (test : Bool) (e : Revert) → (test ≡ true → P tt s) → Ensures P (require test e s)
  unfolding panic_if
  Ensures-last_require true e h = unfold pure in Ensures-pure P tt s (h refl)
  Ensures-last_require false e h = record { at = λ b t e. cc }

-- What a test that passed says.
pub differ : (a b : ℕ) → not (a == b) ≡ true → a ≢ b
differ a b h = ground arith

pub not_positive : (a : ℕ) → ltb 0 a ≡ false → a ≡ 0
not_positive a h = ground arith

pub Ensures-weaken :
    {W A : Type 0} (P Q : A → State W → Type 0) (o : Outcome (State W) Revert A)
    → Ensures Q o
    → ((a : A) (t : State W) → Q a t → P a t)
    → Ensures P o
Ensures-weaken P Q o h k = record { at = λ a t e. k a t (h.at a t e) }

pub leb→le : (a b : ℕ) → leb a b ≡ true → a ≤ b
leb→le a b h = ground arith

pub eq_cases : (a b : ℕ) → (a ≡ b) ⊎ (a ≢ b)
eq_cases a b = elim (Bool-cases (a == b)) [
  | inl p ↦ inl (==→eq a b p)
  | inr p ↦ inr (not_==→ne a b p)
]

-- How such a block runs.
module _ {W A B : Type 0} (g : A → Action W B) (s : State W) where
  pub view_step : (q : W → Option A) {a : A} → q s.world ≡ some a → (view q >>= g) s ≡ g a s
  unfolding ◌>>=◌
  view_step q h = unwrap_step g s (q s.world) h

  pub in_world_step :
      (c : Call W A) {a : A} {w : W}
      → c s.world ≡ some (a, w)
      → (call (in_world c) >>= g) s ≡ g a (record s { world = w })
  unfolding ◌>>=◌
  in_world_step c h = call_step g s (in_world c) (rw (h, in_world))

pub pure_step :
    {W A B : Type 0} (g : A → Action W B) (s : State W) (a : A) → (pure a >>= g) s ≡ g a s
unfolding ◌>>=◌
pure_step g s a = refl

pub last_in_world :
    {W A : Type 0} (s : State W) (c : Call W A) {a : A} {w : W}
    → c s.world ≡ some (a, w)
    → ◌≡◌ {A = Outcome (State W) Revert A} (call (in_world c) s) (done a (record s { world = w }))
unfolding call
last_in_world s c h = rw (h, in_world)

pub require_step :
    {W B : Type 0} (g : Unit → Action W B) (s : State W) (test : Bool) (e : Revert)
    → test ≡ true
    → (require test e >>= g) s ≡ g tt s
unfolding ◌>>=◌
require_step g s test e h = rw h
