-- ===== src/VaultFactory/Order.antt =====
-- What of the order of the factory's transactions matters to the storage of contracts/vault-factory.
use crossmesh_ingress_contra.Prelude.{
  ℕ, ◌≡◌, ◌≢◌, refl, sym, ap, ◌∙◌, Bool, true, Option, none, some, List, [], ◌∷◌, arith,
  if◌then◌else◌,
}
use crossmesh_ingress_contra.Exec.{done}
use crossmesh_ingress_contra.Interfaces.{Address, VaultConfig, VaultClient}
use crossmesh_ingress_contra.Events.{
  Event, relayer_set, discount_set, admin_set, swapped, withdrawn, deployed, filled,
}
use crossmesh_ingress_contra.Host.{Env, World, Host}
use crossmesh_ingress_contra.Host.Log.{own}
use crossmesh_ingress_contra.VaultFactory.{
  Storage, State, empty_storage, write_relayer, constructor,
}
use crossmesh_ingress_contra.VaultFactory.Deployment.{Deployer}
use crossmesh_ingress_contra.VaultFactory.Log.{note, replay, Discreet, replay_rebuilds}
use crossmesh_ingress_contra.VaultFactory.Reachability.{Reach}

-- What an event says was stored.
pub data Change : Type 0 where
  relayer_to : Address → Option Bool → Change
  discount_to : ℕ → Change
  admin_to : Address → Change
  no_change : Change

abbrev pub change : Event → Change
change (relayer_set r) = relayer_to r.relayer (if r.enabled then some true else none)
change (discount_set r) = discount_to r.discount_ppm
change (admin_set r) = admin_to r.admin
change _ = no_change

abbrev apply : Change → Storage → Storage
apply (relayer_to a v) s = write_relayer s a v
apply (discount_to d) s = record s { discount = some d }
apply (admin_to a) s = record s { admin = some a }
apply no_change s = s

-- The two are about different entries.
abbrev pub Apart : Change → Change → Type 0
Apart (relayer_to a _) (relayer_to b _) = a ≢ b
Apart (discount_to _) (discount_to _) = ⊥
Apart (admin_to _) (admin_to _) = ⊥
Apart _ _ = Unit

-- The first is about the same entry as the second, or the second about none.
abbrev pub Covers : Change → Change → Type 0
Covers (relayer_to a _) (relayer_to b _) = a ≡ b
Covers (discount_to _) (discount_to _) = Unit
Covers (admin_to _) (admin_to _) = Unit
Covers _ no_change = Unit
Covers _ _ = ⊥

-- Logs, the newest event first, that differ in the order of events about different entries, in events
-- that a later one overwrites, and in events that change nothing.
pub data SameLog : List Event → List Event → Type 0 where
  same : {l : List Event} → SameLog l l
  before : {e : Event} {l k : List Event} → SameLog l k → SameLog (e ∷ l) (e ∷ k)
  reordered :
      {e f : Event} {l : List Event} → Apart (change e) (change f) → SameLog (e ∷ f ∷ l) (f ∷ e ∷ l)
  overwritten :
      {e f : Event} {l : List Event} → Covers (change e) (change f) → SameLog (e ∷ f ∷ l) (e ∷ l)
  silent : {e : Event} {l : List Event} → change e ≡ no_change → SameLog (e ∷ l) l
  back : {l k : List Event} → SameLog l k → SameLog k l
  joined : {l k j : List Event} → SameLog l k → SameLog k j → SameLog l j

note-apply : (e : Event) (s : Storage) → note e s ≡ apply (change e) s
note-apply (relayer_set r) s = refl
note-apply (discount_set r) s = refl
note-apply (admin_set r) s = refl
note-apply (swapped r) s = refl
note-apply (withdrawn r) s = refl
note-apply (deployed r) s = refl
note-apply (filled r) s = refl

module _ (s : Storage) (a b : Address) (v w : Option Bool) where
  apart_relayers :
      a ≢ b
      → (c : Address)
      → (write_relayer (write_relayer s b w) a v).relayer c
        ≡ (write_relayer (write_relayer s a v) b w).relayer c
  apart_relayers apart c = ground arith

  same_relayer :
      a ≡ b
      → (c : Address)
      → (write_relayer (write_relayer s b w) a v).relayer c ≡ (write_relayer s a v).relayer c
  same_relayer p c = ground arith

Apart-apply : (x y : Change) (s : Storage) → Apart x y → apply x (apply y s) ≡ apply y (apply x s)
Apart-apply (relayer_to a v) (relayer_to b w) s p =
    λ i. record s { relayer = λ c. apart_relayers s a b v w p c i }
Apart-apply (relayer_to a v) (discount_to d) s p = refl
Apart-apply (relayer_to a v) (admin_to d) s p = refl
Apart-apply (relayer_to a v) no_change s p = refl
Apart-apply (discount_to a) (relayer_to b w) s p = refl
Apart-apply (discount_to a) (discount_to b) s p = absurd p
Apart-apply (discount_to a) (admin_to b) s p = refl
Apart-apply (discount_to a) no_change s p = refl
Apart-apply (admin_to a) (relayer_to b w) s p = refl
Apart-apply (admin_to a) (discount_to b) s p = refl
Apart-apply (admin_to a) (admin_to b) s p = absurd p
Apart-apply (admin_to a) no_change s p = refl
Apart-apply no_change y s p = refl

Covers-apply : (x y : Change) (s : Storage) → Covers x y → apply x (apply y s) ≡ apply x s
Covers-apply (relayer_to a v) (relayer_to b w) s p =
    λ i. record s { relayer = λ c. same_relayer s a b v w p c i }
Covers-apply (discount_to a) (discount_to b) s p = refl
Covers-apply (admin_to a) (admin_to b) s p = refl
Covers-apply (relayer_to a v) no_change s p = refl
Covers-apply (discount_to a) no_change s p = refl
Covers-apply (admin_to a) no_change s p = refl
Covers-apply no_change no_change s p = refl
Covers-apply (relayer_to a v) (discount_to d) s p = absurd p
Covers-apply (relayer_to a v) (admin_to d) s p = absurd p
Covers-apply (discount_to a) (relayer_to b w) s p = absurd p
Covers-apply (discount_to a) (admin_to b) s p = absurd p
Covers-apply (admin_to a) (relayer_to b w) s p = absurd p
Covers-apply (admin_to a) (discount_to b) s p = absurd p
Covers-apply no_change (relayer_to b w) s p = absurd p
Covers-apply no_change (discount_to b) s p = absurd p
Covers-apply no_change (admin_to b) s p = absurd p

-- Noting two events, through what they changed.
note_twice : (e f : Event) (s : Storage) → note e (note f s) ≡ apply (change e) (apply (change f) s)
note_twice e f s = note-apply e (note f s) ∙ ap (apply (change e)) (note-apply f s)

replay-SameLog : {l k : List Event} (s : Storage) → SameLog l k → replay l s ≡ replay k s
replay-SameLog s same = refl
replay-SameLog s (before {e} r) = ap (note e) (replay-SameLog s r)
replay-SameLog s (reordered {e} {f} {l} apart) =
    note_twice e f (replay l s)
    ∙ Apart-apply (change e) (change f) (replay l s) apart
    ∙ sym (note_twice f e (replay l s))
replay-SameLog s (overwritten {e} {f} {l} covers) =
    note_twice e f (replay l s)
    ∙ Covers-apply (change e) (change f) (replay l s) covers
    ∙ sym (note-apply e (replay l s))
replay-SameLog s (silent {e} {l} p) = note-apply e (replay l s) ∙ ap (λ x. apply x (replay l s)) p
replay-SameLog s (back r) = sym (replay-SameLog s r)
replay-SameLog s (joined r t) = replay-SameLog s r ∙ replay-SameLog s t

module _ {L : Type 0} (h : Host L) (vaults : VaultClient (World L)) (this : Address) where
  -- Only the last word on each entry counts. After two histories of the same factory whose logs
  -- are the same up to the order of events about different entries (two relayers, the discount,
  -- the admin), events that a later one overwrites, and events that store nothing, the storage is
  -- the same. As for `replay_rebuilds`, nothing that the factory calls publishes in its name.
  pub order_forgotten :
      Discreet h vaults this
      → Deployer h
      → (e : Env) (admin : Address) (c : VaultConfig) (s0 s t u : State L)
      → s0.storage ≡ empty_storage
      → constructor e admin c s0 ≡ done tt s
      → own this s.world.events ≡ []
      → Reach h vaults this s t
      → Reach h vaults this s u
      → SameLog (own this t.world.events) (own this u.world.events)
      → t.storage ≡ u.storage
  order_forgotten d deployer e admin c s0 s t u empty built quiet to_t to_u alike =
      replay_rebuilds h vaults this d deployer e admin c s0 s t empty built quiet to_t
      ∙ replay-SameLog (record empty_storage { admin = some admin; config = some c }) alike
      ∙ sym (replay_rebuilds h vaults this d deployer e admin c s0 s u empty built quiet to_u)
