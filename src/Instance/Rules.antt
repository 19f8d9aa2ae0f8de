-- ===== src/Instance/Rules.antt =====
-- The steps of a contract with storage: calls that leave the storage alone.
use crossmesh_ingress_contra.Prelude.{◌≡◌, refl, Option, none, some}
use crossmesh_ingress_contra.Exec.{Exec, Call, pure, call, ◌>>=◌}
use crossmesh_ingress_contra.Exec.Ensures.{Ensures, Ensures-pure}
use crossmesh_ingress_contra.Host.{World}
use crossmesh_ingress_contra.Instance.{Instance, on_world}

module _ {L S A : Type 0} (c : Call (World L) A) (s : Instance L S) where
  pub on_world_returns :
      {a : A} {w : World L}
      → c s.world ≡ some (a, w)
      → on_world c s ≡ some (a, record s { world = w })
  on_world_returns p = rw (p, on_world)

  pub on_world_fails : c s.world ≡ none → on_world c s ≡ none
  on_world_fails p = rw (p, on_world)

module _ {L S E A B : Type 0} (P : B → Instance L S → Type 0) (f : A → Exec (Instance L S) E B)
    (s : Instance L S) where
  pub Ensures-on_world :
      (c : Call (World L) A)
      → ((a : A) (w : World L) → c s.world ≡ some (a, w) → Ensures P (f a (record s { world = w })))
      → Ensures P ((call (on_world c) >>= f) s)
  unfolding ◌>>=◌
  Ensures-on_world c k = split (c s.world) k
    where
      split :
          (o : Option (A × World L))
          → ((a : A) (w : World L) → o ≡ some (a, w) → Ensures P (f a (record s { world = w })))
          → Ensures P ((call (on_world (λ _. o)) >>= f) s)
      split none q = record { at = λ b t e. cc }
      split (some (a, w)) q = q a w refl

module _ {L S E A : Type 0} (P : A → Instance L S → Type 0) (s : Instance L S) where
  -- a block that ends in such a call
  pub Ensures-last_on_world :
      (c : Call (World L) A)
      → ((a : A) (w : World L) → c s.world ≡ some (a, w) → P a (record s { world = w }))
      → Ensures {E = E} P (call (on_world c) s)
  unfolding call
  Ensures-last_on_world c k = split (c s.world) k
    where
      split :
          (o : Option (A × World L))
          → ((a : A) (w : World L) → o ≡ some (a, w) → P a (record s { world = w }))
          → Ensures {E = E} P (call (on_world (λ _. o)) s)
      split none q = record { at = λ b t e. cc }
      split (some (a, w)) q = unfold pure in Ensures-pure P a (record s { world = w }) (q a w refl)
