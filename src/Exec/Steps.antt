-- ===== src/Exec/Steps.antt =====
-- How an invocation runs: one rule for each way that a block's first step can end.
use crossmesh_ingress_contra.Prelude.{
  ◌≡◌, refl, Bool, true, false, Option, none, some, if◌then◌else◌,
}
use crossmesh_ingress_contra.Exec.{
  done, err, trap, Exec, Call, gets, panic_if, unwrap, unwrap_or_panic, call, as_call, ◌>>=◌,
}

module _ {ℓ} {S E A B : Type ℓ} (f : A → Exec S E B) (s : S) where
  pub bind_step : (m : Exec S E A) {a : A} {t : S} → m s ≡ done a t → (m >>= f) s ≡ f a t
  unfolding ◌>>=◌
  bind_step m h = rw (h, ◌>>=◌)

  pub bind_err : (m : Exec S E A) {e : E} → m s ≡ err e → (m >>= f) s ≡ err e
  unfolding ◌>>=◌
  bind_err m h = rw (h, ◌>>=◌)

  pub bind_trap : (m : Exec S E A) → m s ≡ trap → (m >>= f) s ≡ trap
  unfolding ◌>>=◌
  bind_trap m h = rw (h, ◌>>=◌)

  pub call_step : (c : Call S A) {a : A} {t : S} → c s ≡ some (a, t) → (call c >>= f) s ≡ f a t
  unfolding ◌>>=◌
  call_step c h = rw (h, ◌>>=◌, call)

  pub call_trap : (c : Call S A) → c s ≡ none → (call c >>= f) s ≡ trap
  unfolding ◌>>=◌
  call_trap c h = rw (h, ◌>>=◌, call)

  pub unwrap_step : (o : Option A) {a : A} → o ≡ some a → (unwrap o >>= f) s ≡ f a s
  unfolding ◌>>=◌
  unwrap_step o h = rw h

  pub unwrap_trap : (o : Option A) → o ≡ none → (unwrap o >>= f) s ≡ trap
  unfolding ◌>>=◌
  unwrap_trap o h = rw h

  pub unwrap_or_panic_step :
      (o : Option A) (e : E) {a : A} → o ≡ some a → (unwrap_or_panic o e >>= f) s ≡ f a s
  unfolding ◌>>=◌
  unwrap_or_panic_step o e h = rw h

  pub unwrap_or_panic_err :
      (o : Option A) (e : E) → o ≡ none → (unwrap_or_panic o e >>= f) s ≡ err e
  unfolding ◌>>=◌
  unwrap_or_panic_err o e h = rw h

  pub gets_step : (g : S → A) → (gets g >>= f) s ≡ f (g s) s
  unfolding ◌>>=◌
  gets_step g = refl

module _ {ℓ} {S E B : Type ℓ} (f : Unit → Exec S E B) (s : S) where
  pub panic_if_step : (test : Bool) (e : E) → test ≡ false → (panic_if test e >>= f) s ≡ f tt s
  unfolding ◌>>=◌
  panic_if_step test e h = rw h

  pub panic_if_err : (test : Bool) (e : E) → test ≡ true → (panic_if test e >>= f) s ≡ err e
  unfolding ◌>>=◌
  panic_if_err test e h = rw h

module _ {ℓ} {S E A : Type ℓ} where
  pub if_step :
      (test : Bool) (m n : Exec S E A) (s : S) → test ≡ true → (if test then m else n) s ≡ m s
  if_step true m n s h = refl
  if_step false m n s h = cc

  pub if_not_step :
      (test : Bool) (m n : Exec S E A) (s : S) → test ≡ false → (if test then m else n) s ≡ n s
  if_not_step true m n s h = cc
  if_not_step false m n s h = refl

  pub as_call-done :
      (m : Exec S E A) (s : S) {a : A} {t : S} → m s ≡ done a t → as_call m s ≡ some (a, t)
  as_call-done m s h = rw (h, as_call)
