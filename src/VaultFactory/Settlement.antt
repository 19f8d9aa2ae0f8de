-- ===== src/VaultFactory/Settlement.antt =====
-- `swap` and `settle` of contracts/vault-factory: who may call, and what the vault is called with.
use mathlib.Core.Option.{get_or}
use mathlib.Core.Path.{subst}
use crossmesh_ingress_contra.Prelude.{
  ℕ, ◌≡◌, refl, sym, ap, ◌∙◌, Bool, true, false, not, Option, none, some, arith,
}
use crossmesh_ingress_contra.Int.{ℤ}
use crossmesh_ingress_contra.Exec.{Outcome, done, err, trap, gets}
use crossmesh_ingress_contra.Exec.Ensures.{
  Ensures, Ensures-bind, Ensures-gets, Ensures-panic_if, Ensures-pure,
}
use crossmesh_ingress_contra.Exec.Steps.{call_step, call_trap, gets_step, panic_if_err}
use crossmesh_ingress_contra.Interfaces.{Address, Bytes, VaultConfig, VaultClient}
use crossmesh_ingress_contra.Host.{Env, World, Host}
use crossmesh_ingress_contra.VaultFactory.{
  State, FactoryError, not_relayer, in_force, derive_address, deploy, is_relayer, amount_or_balance,
  settle, swap,
}
use crossmesh_ingress_contra.Instance.Rules.{
  on_world_returns, on_world_fails, Ensures-on_world, Ensures-last_on_world,
}
use crossmesh_ingress_contra.VaultFactory.Rules.{Ensures-read_config}
use crossmesh_ingress_contra.VaultFactory.Deployment.{Deployer, deploy-DeployRun, lands_at}

-- The amount of a settlement as a caller sees it: the amount given, or, with none, the balance of
-- `token` that the factory read at the vault, in the world `v` in which it then called the vault.
module _ {L : Type 0} (h : Host L) (e : Env) where
  abbrev pub AmountAt : Option ℤ → Address → Address → ℤ → World L → Type 0
  AmountAt (some a) token vault n v = n ≡ a
  AmountAt none token vault n v = (u : World L) × (h.balance e.this token vault u ≡ some (n, v))

module _ {L : Type 0} (h : Host L) (vaults : VaultClient (World L)) (e : Env) (relayer : Address)
    (owner : Bytes) (amount : Option ℤ) (filler : Address) (min_out : ℤ) (hint : Bytes) where
  -- The amount that is swapped: the one asked for, or the vault's balance.
  abbrev pub AmountOf : Option ℤ → Address → Address → State L → ℤ → State L → Type 0
  AmountOf (some a) token vault d n d' = (n ≡ a) × (d' ≡ d)
  AmountOf none token vault d n d' =
      (w : World L) × (h.balance e.this token vault d.world ≡ some (n, w))
      × (d' ≡ record d { world = w })

  -- How a settlement from `s` that returned `out` in the state `t` went.
  pub record SettleRun (s : State L) (out : ℤ) (t : State L) : Type 0 where
    pub base : VaultConfig
    pub vault : Address
    pub n : ℤ
    pub d : State L
    pub d' : State L
    pub w : World L
    pub stored : s.storage.config ≡ some base
    pub deployed : deploy h e owner s ≡ done vault d
    pub chosen : AmountOf amount base.usdc vault d n d'
    pub called :
        vaults.swap e.this vault owner e.this relayer filler n min_out hint
          (in_force base s.storage.discount)
          d'.world
        ≡ some (out, w)
    pub after : t ≡ record d' { world = w }
    pub storage_kept : t.storage ≡ s.storage

  amount_seen :
      (a : Option ℤ) (token vault : Address) (d : State L) (n : ℤ) (d' : State L)
      → AmountOf a token vault d n d'
      → AmountAt h e a token vault n d'.world
  amount_seen (some a) token vault d n d' (same, _) = same
  amount_seen none token vault d n d' (w, read, same) =
      (d.world, read ∙ ap (λ (v : State L). some (n, v.world)) (sym same))

  amount-AmountOf :
      (token vault : Address) (d : State L)
      → (a : Option ℤ)
      → Ensures (λ n d'. AmountOf a token vault d n d') (amount_or_balance h e token vault a d)
  unfolding amount_or_balance
  amount-AmountOf token vault d (some a) = Ensures-pure _ _ _ (refl, refl)
  amount-AmountOf token vault d none = Ensures-last_on_world _ _ _ λ n w read. (w, read, refl)

  amount_storage :
      (a : Option ℤ) (token vault : Address) (d : State L) (n : ℤ) (d' : State L)
      → AmountOf a token vault d n d'
      → d'.storage ≡ d.storage
  amount_storage (some a) token vault d n d' (_, same) = ap (λ (v : State L). v.storage) same
  amount_storage none token vault d n d' (w, _, same) = ap (λ (v : State L). v.storage) same

  pub in_force_usdc : (base : VaultConfig) (x : Option ℕ) → (in_force base x).usdc ≡ base.usdc
  in_force_usdc base none = refl
  in_force_usdc base (some x) = refl

  pub settle-SettleRun :
      (s : State L)
      → Ensures (SettleRun s) (settle h vaults e relayer owner amount filler min_out hint s)
  unfolding settle
  settle-SettleRun s = Ensures-read_config _ _ _ λ base stored.
      Ensures-bind _ _ _ (λ vault d. deploy h e owner s ≡ done vault d) _
        (record { at = λ a t p. p })
        λ vault d deployed.
          Ensures-bind _ _ _ _ _
            (amount-AmountOf (in_force base s.storage.discount).usdc vault d amount)
            λ n d' chosen. Ensures-on_world _ _ _ _ λ out w called. Ensures-pure _ _ _ (record {
              base = base;
              vault = vault;
              n = n;
              d = d;
              d' = d';
              w = w;
              stored = stored;
              deployed = deployed;
              chosen = rw in_force_usdc at chosen;
              called = called;
              after = refl;
              storage_kept =
                  amount_storage amount (in_force base s.storage.discount).usdc vault d n d' chosen
                  ∙ ((deploy-DeployRun h e owner s).at vault d deployed).storage_kept;
            })

  pub data Refused (s : State L) : Outcome (State L) FactoryError ℤ → Type 0 where
    unsigned : h.require_auth e relayer s.world ≡ none → Refused s trap
    disabled :
        (w : World L)
        → h.require_auth e relayer s.world ≡ some (tt, w)
        → is_relayer relayer s ≡ done false s
        → Refused s (err not_relayer)

  pub answer :
      {s : State L} {b : Bool}
      → is_relayer relayer s ≡ done b s
      → get_or (s.storage.relayer relayer) false ≡ b
  unfolding is_relayer gets
  answer p = cc

  -- Only a relayer that signed gets through, whatever else it passes: without the signature the
  -- call fails, and an address that the factory does not call a relayer is refused.
  pub swap_refuses_others :
      (s : State L) (o : Outcome (State L) FactoryError ℤ)
      → Refused s o
      → swap h vaults e relayer owner amount filler min_out hint s ≡ o
  unfolding swap is_relayer
  swap_refuses_others s _ (unsigned denied) =
      call_trap _ _ _ (on_world_fails (h.require_auth e relayer) s denied)
  swap_refuses_others s _ (disabled w signed not_enabled) =
      call_step _ _ _ (on_world_returns (h.require_auth e relayer) s signed)
      ∙ gets_step _ _ _
      ∙ panic_if_err _ _ _ _ (ap not (answer not_enabled))

  pub swap-SettleRun :
      (s : State L)
      → Ensures
          (λ out t.
            (w : World L) × (h.require_auth e relayer s.world ≡ some (tt, w))
            × (get_or (s.storage.relayer relayer) false ≡ true)
            × SettleRun (record s { world = w }) out t)
          (swap h vaults e relayer owner amount filler min_out hint s)
  unfolding swap is_relayer
  swap-SettleRun s = Ensures-on_world _ _ _ _ λ _ w signed. Ensures-gets _ _ _ _ (
      Ensures-panic_if _ _ _ _ _ λ enabled. record {
        at = λ out t p.
            (w, signed, ground arith, (settle-SettleRun (record s { world = w })).at out t p);
      })

  -- A swap that returns came from an enabled relayer that signed. It made one call of a vault, the
  -- one at the address derived from the owner, as that vault's factory, for the amount asked for or
  -- the vault's whole balance, under the configuration in force; its result is the vault's, and the
  -- factory's storage is as it was.
  pub swap_settles :
      Deployer h
      → (s t : State L) (out : ℤ)
      → swap h vaults e relayer owner amount filler min_out hint s ≡ done out t
      → ((w : World L) × (h.require_auth e relayer s.world ≡ some (tt, w)))
        × (is_relayer relayer s ≡ done true s)
        × (t.storage ≡ s.storage)
        × ((base : VaultConfig) × (n : ℤ) × (v : World L) × (s.storage.config ≡ some base)
            × AmountAt h e amount base.usdc (derive_address h e owner) n v
            × (vaults.swap e.this
                  (derive_address h e owner)
                  owner
                  e.this
                  relayer
                  filler
                  n
                  min_out
                  hint
                  (in_force base s.storage.discount)
                  v
                ≡ some (out, t.world)))
  unfolding is_relayer gets
  swap_settles deployer s t out p =
      let (w, signed, enabled, r) = (swap-SettleRun s).at out t p in
      let run = (deploy-DeployRun h e owner (record s { world = w })).at r.vault r.d r.deployed in
      let (at, _) = lands_at h deployer e owner (record s { world = w }) r.d r.vault run in
      (
        (w, signed),
        ap (λ b. done b s) enabled,
        r.storage_kept,
        (
          r.base,
          r.n,
          r.d'.world,
          r.stored,
          subst (λ b. AmountAt h e amount r.base.usdc b r.n r.d'.world) at
              (amount_seen amount r.base.usdc r.vault r.d r.n r.d' r.chosen),
          ap
                (λ b.
                  vaults.swap e.this b owner e.this relayer filler r.n min_out hint
                    (in_force r.base s.storage.discount) r.d'.world)
                (sym at)
              ∙ r.called
              ∙ ap (λ (v : State L). some (out, v.world)) (sym r.after),
        ),
      )
