-- ===== src/Instance.antt =====
-- A contract that has instance storage: the storage, and the rest of the state. The host forbids
-- re-entry, so a call that the contract makes cannot reach its storage: it runs on the rest.
pub mod Rules
use crossmesh_ingress_contra.Prelude.{none, some}
use crossmesh_ingress_contra.Exec.{Exec, Call, modify}
use crossmesh_ingress_contra.Events.{Event}
use crossmesh_ingress_contra.Host.{Env, World, publish}

pub record Instance (L S : Type 0) : Type 0 where
  pub world : World L
  pub storage : S

module _ {L S : Type 0} where
  abbrev pub on_world : {A : Type 0} → Call (World L) A → Call (Instance L S) A
  on_world c s = elim (c s.world) [ none ↦ none | some (a, w) ↦ some (a, record s { world = w }) ]

  abbrev pub store : {E : Type 0} → (S → S) → Exec (Instance L S) E Unit
  store f = modify (λ s. record s { storage = f s.storage })

  abbrev pub emit : {E : Type 0} → Env → Event → Exec (Instance L S) E Unit
  emit e event = modify (λ s. record s { world = publish e event s.world })
