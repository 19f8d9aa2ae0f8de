-- ===== src/System/Delivery.antt =====
-- What a settlement through the factory guarantees to the owner.
use mathlib.Core.Path.{subst}
use crossmesh_ingress_contra.Prelude.{ℕ, suc, ◌*◌, ◌<◌, ◌≡◌, ◌≢◌, refl, sym, Option, none, some}
use crossmesh_ingress_contra.Int.{ℤ, pos, ◌+ℤ◌, ◌≤ℤ◌}
use crossmesh_ingress_contra.Exec.{Exec, done}
use crossmesh_ingress_contra.Exec.Ensures.{ensured_call}
use crossmesh_ingress_contra.Interfaces.{Address, Bytes, VaultConfig, ReflectorClient, FillerClient}
use crossmesh_ingress_contra.Host.{Env, World, Host, MuxedAddress}
use crossmesh_ingress_contra.Host.Assets.{Assets}
use crossmesh_ingress_contra.Vault
use crossmesh_ingress_contra.Vault.OracleFloor.{Quoted}
use crossmesh_ingress_contra.Vault.Payout.{swap_delivers, swap_pays_owner}
use crossmesh_ingress_contra.VaultFactory
use crossmesh_ingress_contra.VaultFactory.{State, in_force, derive_address}
use crossmesh_ingress_contra.VaultFactory.Deployment.{Deployer}
use crossmesh_ingress_contra.VaultFactory.Settlement.{AmountAt, swap_settles}

in_force_xlm : (base : VaultConfig) (x : Option ℕ) → (in_force base x).xlm ≡ base.xlm
in_force_xlm base none = refl
in_force_xlm base (some x) = refl

in_force_min_delivery :
    (base : VaultConfig) (x : Option ℕ) → (in_force base x).min_delivery ≡ base.min_delivery
in_force_min_delivery base none = refl
in_force_min_delivery base (some x) = refl

module _ {L : Type 0} (h : Host L) (oracle : ReflectorClient (World L))
    (fillers : FillerClient (World L)) (assets : Assets h) (deployer : Deployer h) (e : Env)
    (relayer : Address) (owner : Bytes) (amount : Option ℤ) (filler : Address) (min_out : ℤ)
    (hint : Bytes) (s t : State L) (out : ℤ) (base : VaultConfig) where
  abbrev vault : Address
  vault = derive_address h e owner

  abbrev frame : Env
  frame = record { this = vault; invoker = some e.this }

  -- In the world `v`, where the delivery had arrived, the vault paid its whole balance of `xlm` to
  -- the owner.
  abbrev pub Paid : Address → MuxedAddress → Type 0
  Paid xlm m =
      (v : World L) × (out ≤ℤ assets.held xlm vault v.ledger)
      × (assets.held xlm vault t.world.ledger ≡ pos 0)
      × (assets.held xlm m.address t.world.ledger
          ≡ assets.held xlm m.address v.ledger +ℤ assets.held xlm vault v.ledger)

  abbrev VaultCall : VaultConfig → ℤ → World L → Type 0
  VaultCall c n b =
      (Vault.as_client h oracle fillers).swap e.this vault owner e.this relayer filler n min_out
        hint (in_force c s.storage.discount) b
      ≡ some (out, t.world)

  abbrev vault_swap : ℤ → Exec (World L) Vault.VaultError ℤ
  vault_swap n =
      Vault.swap h oracle fillers frame owner e.this relayer filler n min_out hint
        (in_force base s.storage.discount)

  vault_ran : (n : ℤ) (b : World L) → VaultCall base n b → vault_swap n b ≡ done out t.world
  vault_ran n b called =
      ensured_call (λ a w. vault_swap n b ≡ done a w) (vault_swap n) b (record { at = λ a w p. p })
        out t.world called

  -- What a settlement that returns guarantees, whoever the relayer is and whatever the filler does.
  -- It delivered at least the relayer's minimum and the configuration's; and at least some `q` such
  -- that nine tenths of the worth of the amount settled (the one asked for, or the vault's whole
  -- balance) is less than the worth of q + 1 XLM, at two fresh prices of the configured feed. And the
  -- vault at the owner's derived address has paid its whole XLM balance, the delivery included, to
  -- the owner that the strkey names.
  pub settlement_delivers :
      (m : MuxedAddress)
      → s.storage.config ≡ some base
      → assets.IsAsset base.xlm
      → h.from_string_bytes owner ≡ some m
      → derive_address h e owner ≢ m.address
      → VaultFactory.swap h
          (Vault.as_client h oracle fillers)
          e
          relayer
          owner
          amount
          filler
          min_out
          hint
          s
        ≡ done out t
      → (min_out ≤ℤ out)
        × (base.min_delivery ≤ℤ out)
        × ((b v : World L) × (n q x u : ℕ) × AmountAt h e amount base.usdc
              (derive_address h e owner)
              (pos (suc n))
              b
            × Quoted h oracle
                (record { this = derive_address h e owner; invoker = some e.this })
                (in_force base s.storage.discount)
                v
                x
                u
            × (pos q ≤ℤ out)
            × (9 * (suc n * u) < 10 * (suc q * x)))
        × Paid base.xlm m
  settlement_delivers m stored xlm parsed apart p =
      let (_, _, _, (base', n, b, stored', settled, called)) =
        swap_settles h (Vault.as_client h oracle fillers) e relayer owner amount filler min_out hint
          deployer s t out p in
      let same : base' ≡ base = cc (stored, stored') in
      let ran = vault_ran n b (subst (λ c. VaultCall c n b) same called) in
      let (enough, minimum, (v, k, q, x, u, whole, quoted, above, _, low)) =
        swap_delivers h oracle fillers assets frame owner e.this relayer filler n min_out hint
          (in_force base s.storage.discount) b t.world out ran in
      let paid =
        swap_pays_owner h oracle fillers assets frame owner e.this relayer filler n min_out hint
          (in_force base s.storage.discount) b t.world out m
          (subst assets.IsAsset (sym (in_force_xlm base s.storage.discount)) xlm) parsed apart
          ran in
      (
        enough,
        subst (λ z. z ≤ℤ out) (in_force_min_delivery base s.storage.discount) minimum,
        (
          b,
          v,
          k,
          q,
          x,
          u,
          subst (λ z. AmountAt h e amount base.usdc vault z b) whole
              (subst (λ c. AmountAt h e amount c.usdc vault n b) same settled),
          quoted,
          above,
          low,
        ),
        subst (λ a. Paid a m) (in_force_xlm base s.storage.discount) paid,
      )
