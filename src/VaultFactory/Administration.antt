-- ===== src/VaultFactory/Administration.antt =====
-- The admin's functions of contracts/vault-factory: who may call them, and what they change.
use crossmesh_ingress_contra.Prelude.{
  ℕ, ◌≤◌, ◌≡◌, refl, ap, ◌⊎◌, inl, inr, Bool, true, none, some, arith, if◌then◌else◌,
}
use crossmesh_ingress_contra.Exec.Ensures.{
  Ensures, Ensures-bind, Ensures-modify, Ensures-panic_if, Ensures-pure,
}
use crossmesh_ingress_contra.Interfaces.{Address, discount_cap_ppm}
use crossmesh_ingress_contra.Events.{Event, relayer_set, discount_set, admin_set}
use crossmesh_ingress_contra.Host.{Env, World, Host, publish}
use crossmesh_ingress_contra.VaultFactory.{
  Storage, State, write_relayer, set_relayer, set_discount, set_admin,
}
use crossmesh_ingress_contra.Instance.Rules.{Ensures-on_world}
use crossmesh_ingress_contra.VaultFactory.Rules.{read_admin-Ensures}

module _ {L : Type 0} (h : Host L) (e : Env) where
  -- The admin in force authorized the call, which stored `storage` and published `event`.
  pub record ByAdmin (event : Event) (storage : Storage) (s t : State L) : Type 0 where
    pub admin : Address
    pub signed : World L
    pub final : World L
    pub stored : s.storage.admin ≡ some admin
    pub authorized : h.require_auth e admin s.world ≡ some (tt, signed)
    pub accepted :
        (final ≡ signed) ⊎ ((b : Address) × (h.require_auth e b signed ≡ some (tt, final)))
    pub after : t ≡ record { world = publish e event final; storage = storage }

  pub set_relayer-ByAdmin :
      (addr : Address) (enabled : Bool) (s : State L)
      → Ensures
          (λ _ t.
            ByAdmin
              (relayer_set (record { relayer = addr; enabled = enabled }))
              (write_relayer s.storage addr (if enabled then some true else none))
              s
              t)
          (set_relayer h e addr enabled s)
  unfolding set_relayer
  set_relayer-ByAdmin addr enabled s =
      Ensures-bind _ _ _ _ _ (read_admin-Ensures s) λ admin s1 (stored, same).
        Ensures-on_world _ _ _ _ λ _ w1 authorized. Ensures-modify _ _ _ _ (
          Ensures-modify _ _ _ _ (
            Ensures-pure _ _ _ (record {
              admin = admin;
              signed = w1;
              final = w1;
              stored = stored;
              authorized = rw same at authorized;
              accepted = inl refl;
              after =
                  ap
                    (λ (v : State L). record {
                      world =
                          publish e (relayer_set (record { relayer = addr; enabled = enabled })) w1;
                      storage = write_relayer v.storage addr (if enabled then some true else none);
                    })
                    same;
            })))

  pub set_discount-ByAdmin :
      (d : ℕ) (s : State L)
      → Ensures
          (λ _ t.
            (d ≤ discount_cap_ppm)
            × ByAdmin
                (discount_set (record { discount_ppm = d }))
                (record (s.storage) { discount = some d })
                s
                t)
          (set_discount h e d s)
  unfolding set_discount
  set_discount-ByAdmin d s =
      Ensures-bind _ _ _ _ _ (read_admin-Ensures s) λ admin s1 (stored, same).
        Ensures-on_world _ _ _ _ λ _ w1 authorized. Ensures-panic_if _ _ _ _ _ λ capped.
          Ensures-modify _ _ _ _ (
            Ensures-modify _ _ _ _ (
              Ensures-pure _ _ _ (
                ground arith,
                record {
                  admin = admin;
                  signed = w1;
                  final = w1;
                  stored = stored;
                  authorized = rw same at authorized;
                  accepted = inl refl;
                  after =
                      ap
                        (λ (v : State L). record {
                          world = publish e (discount_set (record { discount_ppm = d })) w1;
                          storage = record (v.storage) { discount = some d };
                        })
                        same;
                },
              )))

  pub set_admin-ByAdmin :
      (new_admin : Address) (s : State L)
      → Ensures
          (λ _ t.
            (b : ByAdmin
              (admin_set (record { admin = new_admin }))
              (record (s.storage) { admin = some new_admin })
              s
              t)
            × (h.require_auth e new_admin b.signed ≡ some (tt, b.final)))
          (set_admin h e new_admin s)
  unfolding set_admin
  set_admin-ByAdmin new_admin s =
      Ensures-bind _ _ _ _ _ (read_admin-Ensures s) λ admin s1 (stored, same).
        Ensures-on_world _ _ _ _ λ _ w1 authorized. Ensures-on_world _ _ _ _ λ _ w2 accepted.
          Ensures-modify _ _ _ _ (
            Ensures-modify _ _ _ _ (
              Ensures-pure _ _ _ (
                record {
                  admin = admin;
                  signed = w1;
                  final = w2;
                  stored = stored;
                  authorized = rw same at authorized;
                  accepted = inr (new_admin, accepted);
                  after =
                      ap
                        (λ (v : State L). record {
                          world = publish e (admin_set (record { admin = new_admin })) w2;
                          storage = record (v.storage) { admin = some new_admin };
                        })
                        same;
                },
                accepted,
              )))
