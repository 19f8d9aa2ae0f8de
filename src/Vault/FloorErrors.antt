-- ===== src/Vault/FloorErrors.antt =====
-- How `oracle_floor` of contracts/vault fails.
use crossmesh_ingress_contra.Prelude.{ℕ, ◌-◌, ◌*◌, ◌^◌, ◌≤◌, ◌<◌, ◌≡◌, refl, ◌∙◌, ◌⊎◌}
use crossmesh_ingress_contra.Int.{pos}
use crossmesh_ingress_contra.Exec.{Outcome, done, err, trap, Exec, ◌>>=◌}
use crossmesh_ingress_contra.Exec.Steps.{bind_step, bind_err, bind_trap, gets_step, panic_if_step}
use crossmesh_ingress_contra.Interfaces.{
  Address, OracleAsset, VaultConfig, PriceData, ReflectorClient,
}
use crossmesh_ingress_contra.Host.{Env, World, Host}
use crossmesh_ingress_contra.Vault.{
  ppm, VaultError, overflow, invalid_config, Floor, fresh_price, oracle_floor,
}
use crossmesh_ingress_contra.Vault.Config.{IsUsable, unusable-false_of}
use crossmesh_ingress_contra.Vault.FloorRuns.{oracle_floor_refuses, Answers, oracle_floor_overflows}
use crossmesh_ingress_contra.Vault.Price.{
  Answered, fresh_price_iff, PriceFails, unreachable, no_record, no_price, off_date,
  fresh_price_fails,
}

-- The same failure, of a computation of something else.
abbrev pub failure {ℓ} : {S E A B : Type ℓ} → Outcome S E A → Outcome S E B
failure (done a s) = trap
failure (err e) = err e
failure trap = trap

pub bind_failure {ℓ} :
    {S E A B : Type ℓ} (f : A → Exec S E B) (s : S) (m : Exec S E A) (o : Outcome S E A)
    → m s ≡ o
    → o ≡ failure o
    → (m >>= f) s ≡ failure o
bind_failure f s m (done a t) p failed = absurd cc
bind_failure f s m (err e) p failed = bind_err f s m p
bind_failure f s m trap p failed = bind_trap f s m p

module _ {L : Type 0} (h : Host L) (oracle : ReflectorClient (World L)) (e : Env) where
  price_stops :
      (feed : Address) (asset : OracleAsset) (now max_age : ℕ) (w : World L)
      (k : PriceData → Exec (World L) VaultError Floor) (o : Outcome (World L) VaultError PriceData)
      → PriceFails h oracle e feed asset now max_age w o
      → (fresh_price h oracle e feed asset now max_age >>= k) w ≡ failure o
  price_stops feed asset now max_age w k o f =
      stops o f (fresh_price_fails h oracle e feed asset now max_age w o f)
    where
      stops :
          (o : Outcome (World L) VaultError PriceData)
          → PriceFails h oracle e feed asset now max_age w o
          → fresh_price h oracle e feed asset now max_age w ≡ o
          → (fresh_price h oracle e feed asset now max_age >>= k) w ≡ failure o
      stops _ (unreachable _) p = bind_trap _ _ _ p
      stops _ (no_record _ _) p = bind_err _ _ _ p
      stops _ (no_price _ _ _ _) p = bind_err _ _ _ p
      stops _ (off_date _ _ _ _ _ _) p = bind_err _ _ _ p

  module _ (config : VaultConfig) (amount : ℕ) (w : World L) where
    pub data FloorFails : Outcome (World L) VaultError Floor → Type 0 where
      bad_config : ¬ IsUsable config → FloorFails (err invalid_config)
      no_xlm_price :
          (o : Outcome (World L) VaultError PriceData)
          → IsUsable config
          → PriceFails h oracle e config.oracle config.xlm_asset
              (h.timestamp w.ledger)
              config.max_price_age
              w
              o
          → FloorFails (failure o)
      no_usdc_price :
          (r : PriceData) (w1 : World L) (o : Outcome (World L) VaultError PriceData)
          → IsUsable config
          → Answered h oracle e config.oracle config.xlm_asset
              (h.timestamp w.ledger)
              config.max_price_age
              w
              r
              w1
          → r.timestamp < 2 ^ 64
          → PriceFails h oracle e config.oracle config.usdc_asset
              (h.timestamp w.ledger)
              config.max_price_age
              w1
              o
          → FloorFails (failure o)
      too_large :
          (x u xt ut : ℕ) (w1 w2 : World L)
          → IsUsable config
          → Answers h oracle e config w x u xt ut w1 w2
          → (2 ^ 127 ≤ amount * u)
            ⊎ ((2 ^ 127 ≤ amount * u * (ppm - config.discount_ppm)) ⊎ (2 ^ 127 ≤ x * ppm))
          → FloorFails (err overflow)

    -- How a floor is refused, in the order of the checks. A configuration outside the bounds that the
    -- code fixes is refused before the oracle is asked. A feed that cannot be called, for XLM or then
    -- for USDC, traps; with no record, or a price that is not positive, it is unavailable; a price
    -- dated too far ahead or too far back is stale (a timestamp is a `u64`). A product out of the
    -- range of `i128` is an overflow: nothing wraps around.
    pub oracle_floor_fails :
        (o : Outcome (World L) VaultError Floor)
        → FloorFails o
        → oracle_floor h oracle e config (pos amount) w ≡ o
    unfolding oracle_floor
    oracle_floor_fails _ (bad_config bad) =
        oracle_floor_refuses h oracle e config (pos amount) w bad
    oracle_floor_fails _ (no_xlm_price o usable f) =
        panic_if_step _ _ _ _ (unusable-false_of config usable)
        ∙ gets_step _ _ _
        ∙ price_stops _ _ _ _ _ _ o f
    oracle_floor_fails _ (no_usdc_price r w1 o usable answered small f) =
        panic_if_step _ _ _ _ (unusable-false_of config usable)
        ∙ gets_step _ _ _
        ∙ bind_step _ _ _ (
            (fresh_price_iff h oracle e config.oracle config.xlm_asset (h.timestamp w.ledger)
                config.max_price_age w r w1 small).1
              answered)
        ∙ price_stops _ _ _ _ _ _ o f
    oracle_floor_fails _ (too_large x u xt ut w1 w2 usable answers big) =
        oracle_floor_overflows h oracle e config amount w x u xt ut w1 w2 usable answers big

    failure_twice :
        (o : Outcome (World L) VaultError PriceData)
        → failure {B = Floor} o ≡ failure {A = Floor} {B = Floor} (failure {B = Floor} o)
    failure_twice (done r w) = refl
    failure_twice (err x) = refl
    failure_twice trap = refl

    pub FloorFails-failure : (o : Outcome (World L) VaultError Floor) → FloorFails o → o ≡ failure o
    FloorFails-failure _ (bad_config _) = refl
    FloorFails-failure _ (no_xlm_price o _ _) = failure_twice o
    FloorFails-failure _ (no_usdc_price _ _ o _ _ _ _) = failure_twice o
    FloorFails-failure _ (too_large _ _ _ _ _ _ _ _ _) = refl
