-- ===== src/Vault/Stages.antt =====
-- How far a `swap` of contracts/vault gets: what it has read and called after each group of steps,
-- and what is left to run.
use crossmesh_ingress_contra.Prelude.{◌≡◌, ◌∙◌, false, some, arith}
use crossmesh_ingress_contra.Int.{ℤ, pos, ◌≤ℤ◌, ltb_ℤ, leb_ℤ, not_below}
use crossmesh_ingress_contra.Exec.{done, Exec, call, panic_if, ◌>>=◌}
use crossmesh_ingress_contra.Exec.Steps.{bind_step, call_step, panic_if_step}
use crossmesh_ingress_contra.Interfaces.{Address, Bytes, VaultConfig, ReflectorClient, FillerClient}
use crossmesh_ingress_contra.Host.{Env, MuxedAddress, muxed_from, World, Host}
use crossmesh_ingress_contra.Vault.{
  VaultError, invalid_amount, insufficient_balance, below_min_delivery, Floor, max_ℤ,
  require_this_vault, oracle_floor,
}
use crossmesh_ingress_contra.Vault.Identity.{require_this_vault_returns}

not_leb : (a : ℤ) → pos 1 ≤ℤ a → leb_ℤ a (pos 0) ≡ false
not_leb a h = ground arith

module _ {L : Type 0} (h : Host L) (oracle : ReflectorClient (World L))
    (fillers : FillerClient (World L)) (e : Env) (owner : Bytes) (factory relayer filler : Address)
    (amount min_out : ℤ) (hint : Bytes) (config : VaultConfig) (w : World L) where
  -- The vault recognised its owner and factory, and the factory authorized the call.
  pub record Entered (w1 : World L) : Type 0 where
    pub owner_muxed : MuxedAddress
    pub derived : h.deployed_address factory (h.sha256 owner) ≡ e.this
    pub parsed : h.from_string_bytes owner ≡ some owner_muxed
    pub authorized : h.require_auth e factory w ≡ some (tt, w1)

  -- It also holds the amount, which is positive.
  pub record Covered (w2 : World L) : Type 0 where
    pub w1 : World L
    pub usdc_held : ℤ
    pub entered : Entered w1
    pub positive : pos 1 ≤ℤ amount
    pub usdc_read : h.balance e.this config.usdc e.this w1 ≡ some (usdc_held, w2)
    pub enough_usdc : amount ≤ℤ usdc_held

  -- It also has a floor, and what it wants is not below the minimum.
  pub record Priced (f : Floor) (w3 : World L) : Type 0 where
    pub w2 : World L
    pub covered : Covered w2
    pub floored : oracle_floor h oracle e config amount w2 ≡ done f w3
    pub enough : config.min_delivery ≤ℤ max_ℤ min_out f.floor

  -- It also took `before` as its XLM, and handed the amount to the filler.
  pub record Handed (f : Floor) (before : ℤ) (w5 : World L) : Type 0 where
    pub w3 : World L
    pub w4 : World L
    pub priced : Priced f w3
    pub before_read : h.balance e.this config.xlm e.this w3 ≡ some (before, w4)
    pub handed : h.transfer e.this config.usdc e.this (muxed_from filler) amount w4 ≡ some (tt, w5)

  -- The filler ran as well.
  pub record Ran (f : Floor) (before : ℤ) (w6 : World L) : Type 0 where
    pub w5 : World L
    pub reported : ℤ
    pub given : Handed f before w5
    pub filled :
        fillers.fill e.this filler e.this config.usdc amount config.xlm
          (max_ℤ min_out f.floor)
          hint
          w5
        ≡ some (reported, w6)

  -- The vault's XLM went from `before` to `after`.
  pub record Served (f : Floor) (before after : ℤ) (w7 : World L) : Type 0 where
    pub w6 : World L
    pub ran : Ran f before w6
    pub after_read : h.balance e.this config.xlm e.this w6 ≡ some (after, w7)

  -- The first steps, in front of whatever follows.
  module _ {A : Type 0} (k : MuxedAddress → Exec (World L) VaultError A) where
    pub enter :
        {w1 : World L} (r : Entered w1)
        → (require_this_vault h e owner factory >>= λ m.
              call (h.require_auth e factory) >>= λ _. k m)
            w
          ≡ k r.owner_muxed w1
    enter r =
        bind_step _ _ _ (require_this_vault_returns h e owner factory w r.derived r.parsed)
        ∙ call_step _ _ _ r.authorized

  module _ {A : Type 0} (k : MuxedAddress → Exec (World L) VaultError A) where
    pub cover :
        {w2 : World L} (r : Covered w2)
        → (require_this_vault h e owner factory >>= λ m. call (h.require_auth e factory) >>= λ _.
              panic_if (leb_ℤ amount (pos 0)) invalid_amount >>= λ _.
              call (h.balance e.this config.usdc e.this) >>= λ n.
              panic_if (ltb_ℤ n amount) insufficient_balance >>= λ _. k m)
            w
          ≡ k r.entered.owner_muxed w2
    cover r =
        enter _ r.entered
        ∙ panic_if_step _ _ _ _ (not_leb amount r.positive)
        ∙ call_step _ _ _ r.usdc_read
        ∙ panic_if_step _ _ _ _ (not_below r.usdc_held amount r.enough_usdc)

  module _ {A : Type 0} (k : MuxedAddress → Floor → Exec (World L) VaultError A) where
    pub price :
        {f : Floor} {w3 : World L} (r : Priced f w3)
        → (require_this_vault h e owner factory >>= λ m. call (h.require_auth e factory) >>= λ _.
              panic_if (leb_ℤ amount (pos 0)) invalid_amount >>= λ _.
              call (h.balance e.this config.usdc e.this) >>= λ n.
              panic_if (ltb_ℤ n amount) insufficient_balance >>= λ _.
              oracle_floor h oracle e config amount >>= λ f.
              panic_if (ltb_ℤ (max_ℤ min_out f.floor) config.min_delivery) below_min_delivery
              >>= λ _. k m f)
            w
          ≡ k r.covered.entered.owner_muxed f w3
    price {f} r =
        cover _ r.covered
        ∙ bind_step _ _ _ r.floored
        ∙ panic_if_step _ _ _ _ (not_below (max_ℤ min_out f.floor) config.min_delivery r.enough)

  module _ {A : Type 0} (k : ℤ → Exec (World L) VaultError A) where
    pub hand :
        {f : Floor} {before : ℤ} {w5 : World L} (r : Handed f before w5)
        → (call (h.balance e.this config.xlm e.this) >>= λ b.
              call (h.transfer e.this config.usdc e.this (muxed_from filler) amount) >>= λ _. k b)
            r.w3
          ≡ k before w5
    hand r = call_step _ _ _ r.before_read ∙ call_step _ _ _ r.handed

    pub serve :
        {f : Floor} {before after : ℤ} {w7 : World L} (r : Served f before after w7)
        → (call (
                fillers.fill e.this filler e.this config.usdc amount config.xlm
                  (max_ℤ min_out f.floor)
                  hint)
              >>= λ _. call (h.balance e.this config.xlm e.this) >>= λ a. k a)
            r.ran.w5
          ≡ k after w7
    serve r = call_step _ _ _ r.ran.filled ∙ call_step _ _ _ r.after_read

  -- All the steps up to the second reading of the vault's XLM.
  module _ {A : Type 0} (k : MuxedAddress → Floor → ℤ → ℤ → Exec (World L) VaultError A) where
    pub reach :
        {f : Floor} {before after : ℤ} {w7 : World L} (r : Served f before after w7)
        → (require_this_vault h e owner factory >>= λ m. call (h.require_auth e factory) >>= λ _.
              panic_if (leb_ℤ amount (pos 0)) invalid_amount >>= λ _.
              call (h.balance e.this config.usdc e.this) >>= λ n.
              panic_if (ltb_ℤ n amount) insufficient_balance >>= λ _.
              oracle_floor h oracle e config amount >>= λ f.
              panic_if (ltb_ℤ (max_ℤ min_out f.floor) config.min_delivery) below_min_delivery
              >>= λ _. call (h.balance e.this config.xlm e.this) >>= λ b.
                  call (h.transfer e.this config.usdc e.this (muxed_from filler) amount) >>= λ _.
                  call (
                    fillers.fill e.this filler e.this config.usdc amount config.xlm
                      (max_ℤ min_out f.floor)
                      hint)
                  >>= λ _. call (h.balance e.this config.xlm e.this) >>= λ a. k m f b a)
            w
          ≡ k r.ran.given.priced.covered.entered.owner_muxed f before after w7
    reach r = price _ r.ran.given.priced ∙ hand _ r.ran.given ∙ serve _ r
