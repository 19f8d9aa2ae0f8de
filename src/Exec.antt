-- ===== src/Exec.antt =====
-- A contract invocation: it returns with a new state, panics with a contract error, or traps (a
-- host error or a plain panic). A failed invocation is rolled back by the host, so it has no state.
pub mod Ensures
pub mod Steps
use crossmesh_ingress_contra.Prelude.{Bool, Option, none, some, if◌then◌else◌}

pub data Outcome {ℓ} (S E A : Type ℓ) : Type ℓ where
  done : A → S → Outcome S E A
  err : E → Outcome S E A
  trap : Outcome S E A

abbrev pub Exec {ℓ} : Type ℓ → Type ℓ → Type ℓ → Type ℓ
Exec S E A = S → Outcome S E A

-- A call of other code, which returns with a new state or fails. A failed call fails the caller
-- with a host error, whatever the callee's own error was.
abbrev pub Call {ℓ} : Type ℓ → Type ℓ → Type ℓ
Call S A = S → Option (A × S)

module _ {ℓ} {S E A : Type ℓ} where
  unfoldable pub pure : A → Exec S E A
  pure a s = done a s

  unfoldable pub gets : (S → A) → Exec S E A
  gets f s = done (f s) s

  -- `unwrap_or_else(|| panic_with_error!(..))`
  unfoldable pub unwrap_or_panic : Option A → E → Exec S E A
  unwrap_or_panic (some a) e s = done a s
  unwrap_or_panic none e s = err e

  -- `unwrap()`, and a host function that may fail and changes nothing
  unfoldable pub unwrap : Option A → Exec S E A
  unwrap (some a) s = done a s
  unwrap none s = trap

  abbrev pub finish : Option (A × S) → Outcome S E A
  finish none = trap
  finish (some (a, s)) = done a s

  unfoldable pub call : Call S A → Exec S E A
  call f s = finish (f s)

  -- The call that another contract makes of this function.
  abbrev pub as_call : Exec S E A → Call S A
  as_call m s = elim (m s) [ done a s' ↦ some (a, s') | err e ↦ none | trap ↦ none ]

module _ {ℓ} {S E : Type ℓ} where
  -- `if test { panic_with_error!(..) }`
  unfoldable pub panic_if : Bool → E → Exec S E Unit
  panic_if test e s = if test then err e else done tt s

  unfoldable pub modify : (S → S) → Exec S E Unit
  modify f s = done tt (f s)

infixl 5 ◌>>=◌ ◌>>◌
-- Opening this opens every step.
unfoldable pub ◌>>=◌ {ℓ} : {S E A B : Type ℓ} → Exec S E A → (A → Exec S E B) → Exec S E B
unfolding pure gets unwrap_or_panic unwrap call panic_if modify
◌>>=◌ m f s = elim (m s) [ done a s' ↦ f a s' | err e ↦ err e | trap ↦ trap ]

abbrev pub ◌>>◌ {ℓ} : {S E B : Type ℓ} → Exec S E Unit → Exec S E B → Exec S E B
m >> k = m >>= λ _. k
