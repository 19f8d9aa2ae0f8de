-- ===== src/Vault/Price.antt =====
-- `fresh_price` of contracts/vault: which oracle records pass, and the error for each that does not.
use crossmesh_ingress_contra.Prelude.{
  ℕ, ◌+◌, ◌^◌, ◌≤◌, ◌<◌, ◌≡◌, refl, ◌∙◌, ◌↔◌, ◌⊎◌, false, Option, none, some, arith,
}
use crossmesh_ingress_contra.Int.{pos, ◌≤ℤ◌, leb_ℤ}
use crossmesh_ingress_contra.Exec.{Outcome, done, err, trap, pure}
use crossmesh_ingress_contra.Exec.Ensures.{
  Ensures, Ensures-call, Ensures-unwrap_or_panic, Ensures-panic_if, Ensures-pure,
}
use crossmesh_ingress_contra.Exec.Steps.{
  call_trap, call_step, unwrap_or_panic_step, unwrap_or_panic_err, panic_if_step, panic_if_err,
}
use crossmesh_ingress_contra.Interfaces.{Address, OracleAsset, PriceData, ReflectorClient}
use crossmesh_ingress_contra.Host.{Env, World, Host}
use crossmesh_ingress_contra.Vault.{
  max_clock_skew, VaultError, oracle_unavailable, oracle_stale, is_stale, fresh_price,
}

-- A positive price, dated at most `max_clock_skew` ahead and at most `max_age` back.
pub record IsFresh (now max_age : ℕ) (r : PriceData) : Type 0 where
  pub positive : pos 1 ≤ℤ r.price
  pub not_ahead : r.timestamp ≤ now + max_clock_skew
  pub not_old : now ≤ r.timestamp + max_age

module _ {L : Type 0} (h : Host L) (oracle : ReflectorClient (World L)) where
  module _ (e : Env) (feed : Address) (asset : OracleAsset) (now max_age : ℕ) (w : World L) where
    -- What a record that passed says of the oracle's answer.
    abbrev pub Answered : PriceData → World L → Type 0
    Answered r w' =
        (oracle.lastprice e.this feed asset w ≡ some (some r, w')) × IsFresh now max_age r

    pub fresh_price-Answered : Ensures Answered (fresh_price h oracle e feed asset now max_age w)
    unfolding fresh_price is_stale
    fresh_price-Answered = Ensures-call _ _ _ _ λ answer w' asked.
        Ensures-unwrap_or_panic _ _ _ _ _ λ r got. Ensures-panic_if _ _ _ _ _ λ priced.
          Ensures-panic_if _ _ _ _ _ λ aged. Ensures-pure _ _ _ (rw (← got) asked, ground arith)

    abbrev asking : Option (Option PriceData × World L)
    asking = oracle.lastprice e.this feed asset w

    -- `fresh_price` returns the oracle's record exactly when the record is fresh (its timestamp is
    -- a `u64`).
    pub fresh_price_iff :
        (r : PriceData) (w' : World L)
        → r.timestamp < 2 ^ 64
        → (fresh_price h oracle e feed asset now max_age w ≡ done r w')
          ↔ ((oracle.lastprice e.this feed asset w ≡ some (some r, w')) × IsFresh now max_age r)
    unfolding fresh_price is_stale
    fresh_price_iff r w' small = (
      λ p. fresh_price-Answered.at r w' p,
      λ (asked, fresh).
          call_step _ _ _ asked
          ∙ unwrap_or_panic_step _ _ (some r) _ refl
          ∙ panic_if_step _ _ _ _ (not_refused fresh)
          ∙ panic_if_step _ _ _ _ (not_stale fresh)
          ∙ returned,
    )
      where
        not_refused : IsFresh now max_age r → leb_ℤ r.price (pos 0) ≡ false
        not_refused f = ground arith

        not_stale : IsFresh now max_age r → is_stale r now max_age ≡ false
        not_stale f = ground arith

        returned : pure {E = VaultError} r w' ≡ done r w'
        returned = unfold pure in refl

    pub data PriceFails : Outcome (World L) VaultError PriceData → Type 0 where
      unreachable : oracle.lastprice e.this feed asset w ≡ none → PriceFails trap
      no_record :
          (w' : World L)
          → oracle.lastprice e.this feed asset w ≡ some (none, w')
          → PriceFails (err oracle_unavailable)
      no_price :
          (r : PriceData) (w' : World L)
          → oracle.lastprice e.this feed asset w ≡ some (some r, w')
          → r.price ≤ℤ pos 0
          → PriceFails (err oracle_unavailable)
      off_date :
          (r : PriceData) (w' : World L)
          → oracle.lastprice e.this feed asset w ≡ some (some r, w')
          → pos 1 ≤ℤ r.price
          → (now + max_clock_skew < r.timestamp) ⊎ (r.timestamp + max_age < now)
          → r.timestamp < 2 ^ 64
          → PriceFails (err oracle_stale)

    -- A feed that cannot be called traps; one with no record, or with a price that is not positive,
    -- is unavailable; a positive price dated too far ahead or too far back is stale (its timestamp
    -- is a `u64`).
    pub fresh_price_fails :
        (o : Outcome (World L) VaultError PriceData)
        → PriceFails o
        → fresh_price h oracle e feed asset now max_age w ≡ o
    unfolding fresh_price is_stale
    fresh_price_fails _ (unreachable failed) = call_trap _ _ _ failed
    fresh_price_fails _ (no_record w' asked) =
        call_step _ _ _ asked ∙ unwrap_or_panic_err _ _ none _ refl
    fresh_price_fails _ (no_price r w' asked low) =
        call_step _ _ _ asked
        ∙ unwrap_or_panic_step _ _ (some r) _ refl
        ∙ panic_if_err _ _ _ _ (ground arith)
    fresh_price_fails _ (off_date r w' asked priced off small) =
        call_step _ _ _ asked
        ∙ unwrap_or_panic_step _ _ (some r) _ refl
        ∙ panic_if_step _ _ _ _ (ground arith)
        ∙ panic_if_err _ _ _ _ (ground arith)
