-- ===== src/Exec/Ensures.antt =====
-- What a successful invocation says of its steps: a postcondition, and one rule for each way to
-- begin a block. The rule hands on what the step found.
use crossmesh_ingress_contra.Prelude.{
  ◌≡◌, refl, Bool, true, false, Option, none, some, if◌then◌else◌,
}
use crossmesh_ingress_contra.Exec.{
  Outcome, done, err, trap, Exec, Call, pure, gets, modify, panic_if, unwrap, unwrap_or_panic, call,
  as_call, finish, ◌>>=◌,
}

-- If the invocation returns `a` in the state `s`, then `P a s`.
pub record Ensures {ℓ} {S E A : Type ℓ} (P : A → S → Type ℓ) (o : Outcome S E A) : Type ℓ where
  pub at : (a : A) (s : S) → o ≡ done a s → P a s

module _ {ℓ} {S E A : Type ℓ} {a b : A} {s t : S} where
  done_value : ◌≡◌ {A = Outcome S E A} (done a s) (done b t) → a ≡ b
  done_value e = cc

  done_state : ◌≡◌ {A = Outcome S E A} (done a s) (done b t) → s ≡ t
  done_state e = cc

module _ {ℓ} {S E A : Type ℓ} (P : A → S → Type ℓ) where
  pub Ensures-pure : (a : A) (s : S) → P a s → Ensures {E = E} P (pure a s)
  unfolding pure
  Ensures-pure a s h = record { at = λ b t e. rw (← done_state e) (rw (← done_value e) h) }

  Ensures-err : (e : E) → Ensures {S = S} P (err e)
  Ensures-err e = record { at = λ a s h. cc }

  Ensures-trap : Ensures {S = S} {E = E} P trap
  Ensures-trap = record { at = λ a s h. cc }

  -- a block that ends in an `unwrap()`
  pub Ensures-last_unwrap :
      (o : Option A) (s : S) → ((a : A) → o ≡ some a → P a s) → Ensures {E = E} P (unwrap o s)
  unfolding unwrap pure
  Ensures-last_unwrap none s h = Ensures-trap
  Ensures-last_unwrap (some a) s h = Ensures-pure a s (h a refl)

  -- a block that ends in a call
  pub Ensures-last_call :
      (c : Call S A) (s : S)
      → ((a : A) (t : S) → c s ≡ some (a, t) → P a t)
      → Ensures {E = E} P (call c s)
  unfolding call
  Ensures-last_call c s h = split (c s) h
    where
      split :
          (o : Option (A × S))
          → ((a : A) (t : S) → o ≡ some (a, t) → P a t)
          → Ensures {E = E} P (finish o)
      split none q = Ensures-trap
      split (some (a, t)) q = record {
        at = λ b u e. rw (← done_state e) (rw (← done_value e) (q a t refl));
      }

  pub Ensures-if :
      (test : Bool) (m n : Exec S E A) (s : S)
      → (test ≡ true → Ensures P (m s))
      → (test ≡ false → Ensures P (n s))
      → Ensures P ((if test then m else n) s)
  Ensures-if true m n s hm hn = hm refl
  Ensures-if false m n s hm hn = hn refl

  -- A call of another contract's function that returned.
  pub ensured_call :
      (m : Exec S E A) (s : S)
      → Ensures P (m s)
      → (a : A) (t : S) → as_call m s ≡ some (a, t)
      → P a t
  ensured_call m s h a t e = h.at a t (as_call_outcome (m s) e)
    where
      as_call_outcome :
          (o : Outcome S E A)
          → ◌≡◌ {A = Option (A × S)}
              (elim o [ done a s' ↦ some (a, s') | err e ↦ none | trap ↦ none ])
              (some (a, t))
          → o ≡ done a t
      as_call_outcome (done a s) h = cc
      as_call_outcome (err e) h = cc
      as_call_outcome trap h = cc

module _ {ℓ} {S E A B : Type ℓ} (P : B → S → Type ℓ) (f : A → Exec S E B) (s : S) where
  pub Ensures-bind :
      (Q : A → S → Type ℓ) (m : Exec S E A)
      → Ensures Q (m s)
      → ((a : A) (t : S) → Q a t → Ensures P (f a t))
      → Ensures P ((m >>= f) s)
  unfolding ◌>>=◌
  Ensures-bind Q m hm hf = split (m s) hm.at
    where
      split :
          (o : Outcome S E A)
          → ((a : A) (t : S) → o ≡ done a t → Q a t)
          → Ensures P (elim o [ done a t ↦ f a t | err e ↦ err e | trap ↦ trap ])
      split (done a t) q = hf a t (q a t refl)
      split (err e) q = Ensures-err P e
      split trap q = Ensures-trap P

  pub Ensures-call :
      (c : Call S A)
      → ((a : A) (t : S) → c s ≡ some (a, t) → Ensures P (f a t))
      → Ensures P ((call c >>= f) s)
  unfolding ◌>>=◌
  Ensures-call c h = split (c s) h
    where
      split :
          (o : Option (A × S))
          → ((a : A) (t : S) → o ≡ some (a, t) → Ensures P (f a t))
          → Ensures P ((call (λ _. o) >>= f) s)
      split none q = Ensures-trap P
      split (some (a, t)) q = q a t refl

  pub Ensures-unwrap :
      (o : Option A) → ((a : A) → o ≡ some a → Ensures P (f a s)) → Ensures P ((unwrap o >>= f) s)
  unfolding ◌>>=◌
  Ensures-unwrap none h = Ensures-trap P
  Ensures-unwrap (some a) h = h a refl

  pub Ensures-unwrap_or_panic :
      (o : Option A) (e : E)
      → ((a : A) → o ≡ some a → Ensures P (f a s))
      → Ensures P ((unwrap_or_panic o e >>= f) s)
  unfolding ◌>>=◌
  Ensures-unwrap_or_panic none e h = Ensures-err P e
  Ensures-unwrap_or_panic (some a) e h = h a refl

  pub Ensures-gets : (g : S → A) → Ensures P (f (g s) s) → Ensures P ((gets g >>= f) s)
  unfolding ◌>>=◌
  Ensures-gets g h = h

module _ {ℓ} {S E B : Type ℓ} (P : B → S → Type ℓ) (f : Unit → Exec S E B) (s : S) where
  pub Ensures-panic_if :
      (test : Bool) (e : E)
      → (test ≡ false → Ensures P (f tt s))
      → Ensures P ((panic_if test e >>= f) s)
  unfolding ◌>>=◌
  Ensures-panic_if true e h = Ensures-err P e
  Ensures-panic_if false e h = h refl

  pub Ensures-modify : (g : S → S) → Ensures P (f tt (g s)) → Ensures P ((modify g >>= f) s)
  unfolding ◌>>=◌
  Ensures-modify g h = h
