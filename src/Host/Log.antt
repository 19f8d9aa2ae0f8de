-- ===== src/Host/Log.antt =====
-- The events of one contract among those of a transaction: the host records who published each, and
-- nobody publishes in the name of another.
use crossmesh_ingress_contra.Prelude.{◌≡◌, ◌≢◌, List, [], ◌∷◌, arith, ◌==◌, if◌then◌else◌}
use crossmesh_ingress_contra.Interfaces.{Address}
use crossmesh_ingress_contra.Events.{Event}
use crossmesh_ingress_contra.Host.{Env, World, publish}

-- What `a` published, the newest first.
abbrev pub own : Address → List (Address × Event) → List Event
own a [] = []
own a ((b, event) ∷ l) = if b == a then event ∷ own a l else own a l

module _ {L : Type 0} (w : World L) (event : Event) where
  pub own-publish : (e : Env) → own e.this (publish e event w).events ≡ event ∷ own e.this w.events
  own-publish e = ground arith

  pub own-publish_other :
      (e : Env) (a : Address) → e.this ≢ a → own a (publish e event w).events ≡ own a w.events
  own-publish_other e a other = ground arith
