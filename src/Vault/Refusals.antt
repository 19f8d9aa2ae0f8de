-- ===== src/Vault/Refusals.antt =====
-- Where a `swap` of contracts/vault stops short, and with which error.
use crossmesh_ingress_contra.Prelude.{ℕ, ◌≡◌, refl, ap, ◌∙◌, ◌≢◌, false, none, some, arith, lt→ltb}
use crossmesh_ingress_contra.Int.{ℤ, pos, ◌-ℤ◌, ◌≤ℤ◌, ◌<ℤ◌, not_below}
use crossmesh_ingress_contra.Int.Checked.{in_i128, checked, checked_sub}
use crossmesh_ingress_contra.Exec.{Outcome, done, err, trap}
use crossmesh_ingress_contra.Exec.Steps.{
  bind_step, bind_err, bind_trap, call_step, call_trap, unwrap_or_panic_step, unwrap_or_panic_err,
  panic_if_step, panic_if_err,
}
use crossmesh_ingress_contra.Interfaces.{Address, Bytes, VaultConfig, ReflectorClient, FillerClient}
use crossmesh_ingress_contra.Host.{Env, MuxedAddress, muxed_from, World, Host}
use crossmesh_ingress_contra.Vault.{
  VaultError, not_this_vault, invalid_amount, insufficient_balance, below_min_delivery,
  fill_shortfall, overflow, Floor, max_ℤ, oracle_floor, swap,
}
use crossmesh_ingress_contra.Vault.Identity.{
  require_this_vault_returns, require_this_vault_refuses, require_this_vault_nameless,
}
use crossmesh_ingress_contra.Vault.FloorErrors.{
  failure, bind_failure, FloorFails, oracle_floor_fails, FloorFails-failure,
}
use crossmesh_ingress_contra.Vault.Stages.{
  Entered, Covered, Priced, Handed, Ran, Served, enter, cover, price, hand, reach,
}

uncounted : (after before : ℤ) → in_i128 (after -ℤ before) ≡ false → checked_sub after before ≡ none
unfolding checked_sub checked
uncounted after before out = rw out refl

module _ {L : Type 0} (h : Host L) (oracle : ReflectorClient (World L))
    (fillers : FillerClient (World L)) (e : Env) (owner : Bytes) (factory relayer filler : Address)
    (amount min_out : ℤ) (hint : Bytes) (config : VaultConfig) (w : World L) where
  abbrev EnteredAt : World L → Type 0
  EnteredAt = Entered h oracle fillers e owner factory relayer filler amount min_out hint config w

  abbrev CoveredAt : World L → Type 0
  CoveredAt = Covered h oracle fillers e owner factory relayer filler amount min_out hint config w

  abbrev PricedAt : Floor → World L → Type 0
  PricedAt = Priced h oracle fillers e owner factory relayer filler amount min_out hint config w

  abbrev HandedAt : Floor → ℤ → World L → Type 0
  HandedAt = Handed h oracle fillers e owner factory relayer filler amount min_out hint config w

  abbrev RanAt : Floor → ℤ → World L → Type 0
  RanAt = Ran h oracle fillers e owner factory relayer filler amount min_out hint config w

  abbrev ServedAt : Floor → ℤ → ℤ → World L → Type 0
  ServedAt = Served h oracle fillers e owner factory relayer filler amount min_out hint config w

  pub data SwapFails : Outcome (World L) VaultError ℤ → Type 0 where
    other_vault :
        h.deployed_address factory (h.sha256 owner) ≢ e.this → SwapFails (err not_this_vault)
    nameless :
        h.deployed_address factory (h.sha256 owner) ≡ e.this
        → h.from_string_bytes owner ≡ none
        → SwapFails trap
    unauthorized :
        (m : MuxedAddress)
        → h.deployed_address factory (h.sha256 owner) ≡ e.this
        → h.from_string_bytes owner ≡ some m
        → h.require_auth e factory w ≡ none
        → SwapFails trap
    not_positive : (w1 : World L) → EnteredAt w1 → amount ≤ℤ pos 0 → SwapFails (err invalid_amount)
    unread_usdc :
        (w1 : World L)
        → EnteredAt w1
        → pos 1 ≤ℤ amount
        → h.balance e.this config.usdc e.this w1 ≡ none
        → SwapFails trap
    too_much :
        (n : ℤ) (w1 w2 : World L)
        → EnteredAt w1
        → pos 1 ≤ℤ amount
        → h.balance e.this config.usdc e.this w1 ≡ some (n, w2)
        → n <ℤ amount
        → SwapFails (err insufficient_balance)
    unpriced :
        (n : ℕ) (w2 : World L) (o : Outcome (World L) VaultError Floor)
        → CoveredAt w2
        → amount ≡ pos n
        → FloorFails h oracle e config n w2 o
        → SwapFails (failure o)
    too_little :
        (f : Floor) (w2 w3 : World L)
        → CoveredAt w2
        → oracle_floor h oracle e config amount w2 ≡ done f w3
        → max_ℤ min_out f.floor <ℤ config.min_delivery
        → SwapFails (err below_min_delivery)
    unread_xlm :
        (f : Floor) (w3 : World L)
        → PricedAt f w3
        → h.balance e.this config.xlm e.this w3 ≡ none
        → SwapFails trap
    not_handed :
        (f : Floor) (before : ℤ) (w3 w4 : World L)
        → PricedAt f w3
        → h.balance e.this config.xlm e.this w3 ≡ some (before, w4)
        → h.transfer e.this config.usdc e.this (muxed_from filler) amount w4 ≡ none
        → SwapFails trap
    not_filled :
        (f : Floor) (before : ℤ) (w5 : World L)
        → HandedAt f before w5
        → fillers.fill e.this filler e.this config.usdc amount config.xlm
            (max_ℤ min_out f.floor)
            hint
            w5
          ≡ none
        → SwapFails trap
    unread_after :
        (f : Floor) (before : ℤ) (w6 : World L)
        → RanAt f before w6
        → h.balance e.this config.xlm e.this w6 ≡ none
        → SwapFails trap
    uncountable :
        (f : Floor) (before after : ℤ) (w7 : World L)
        → ServedAt f before after w7
        → in_i128 (after -ℤ before) ≡ false
        → SwapFails (err overflow)
    short :
        (f : Floor) (before after delta : ℤ) (w7 : World L)
        → ServedAt f before after w7
        → checked_sub after before ≡ some delta
        → delta <ℤ max_ℤ min_out f.floor
        → SwapFails (err fill_shortfall)
    unpaid :
        (f : Floor) (before after delta : ℤ) (w7 : World L)
        → (r : ServedAt f before after w7) → checked_sub after before ≡ some delta
        → max_ℤ min_out f.floor ≤ℤ delta
        → h.transfer e.this config.xlm e.this r.ran.given.priced.covered.entered.owner_muxed after
            w7
          ≡ none
        → SwapFails trap

  -- How a swap fails at each of its calls and checks, in their order. It is refused for another
  -- vault's owner or factory; it traps on a strkey that names nobody and without the factory's
  -- authorization; an amount that is not positive, or above the vault's USDC, is refused; whatever
  -- makes the oracle floor fail makes the swap fail in the same way; a minimum above what the
  -- relayer and the floor ask for is refused. A balance that cannot be read, a transfer that
  -- cannot be made and a filler that fails trap. Whatever the filler reports, a change of the
  -- vault's XLM out of the range of `i128` is an overflow, and one below what was asked for is a
  -- shortfall.
  pub swap_fails :
      (o : Outcome (World L) VaultError ℤ)
      → SwapFails o
      → swap h oracle fillers e owner factory relayer filler amount min_out hint config w ≡ o
  unfolding swap
  swap_fails _ (other_vault foreign) =
      bind_err _ _ _ (require_this_vault_refuses h e owner factory w foreign)
  swap_fails _ (nameless derived none_read) =
      bind_trap _ _ _ (require_this_vault_nameless h e owner factory w derived none_read)
  swap_fails _ (unauthorized m derived parsed denied) =
      bind_step _ _ _ (require_this_vault_returns h e owner factory w derived parsed)
      ∙ call_trap _ _ _ denied
  swap_fails _ (not_positive w1 entered low) =
      enter h oracle fillers e owner factory relayer filler amount min_out hint config w _ entered
      ∙ panic_if_err _ _ _ _ (ground arith)
  swap_fails _ (unread_usdc w1 entered positive unread) =
      enter h oracle fillers e owner factory relayer filler amount min_out hint config w _ entered
      ∙ panic_if_step _ _ _ _ (ground arith)
      ∙ call_trap _ _ _ unread
  swap_fails _ (too_much n w1 w2 entered positive read much) =
      enter h oracle fillers e owner factory relayer filler amount min_out hint config w _ entered
      ∙ panic_if_step _ _ _ _ (ground arith)
      ∙ call_step _ _ _ read
      ∙ panic_if_err _ _ _ _ (ground arith)
  swap_fails _ (unpriced n w2 o covered whole failed) =
      cover h oracle fillers e owner factory relayer filler amount min_out hint config w _ covered
      ∙ bind_failure _ _ _ o
          (ap (λ z. oracle_floor h oracle e config z w2) whole
            ∙ oracle_floor_fails h oracle e config n w2 o failed)
          (FloorFails-failure h oracle e config n w2 o failed)
  swap_fails _ (too_little f w2 w3 covered floored low) =
      cover h oracle fillers e owner factory relayer filler amount min_out hint config w _ covered
      ∙ bind_step _ _ _ floored
      ∙ panic_if_err _ _ _ _ (lt→ltb _ _ low)
  swap_fails _ (unread_xlm f w3 priced unread) =
      price h oracle fillers e owner factory relayer filler amount min_out hint config w _ priced
      ∙ call_trap _ _ _ unread
  swap_fails _ (not_handed f before w3 w4 priced read refused) =
      price h oracle fillers e owner factory relayer filler amount min_out hint config w _ priced
      ∙ call_step _ _ _ read
      ∙ call_trap _ _ _ refused
  swap_fails _ (not_filled f before w5 given failed) =
      price h oracle fillers e owner factory relayer filler amount min_out hint config w _
        given.priced
      ∙ hand h oracle fillers e owner factory relayer filler amount min_out hint config w _ given
      ∙ call_trap _ _ _ failed
  swap_fails _ (unread_after f before w6 ran unread) =
      price h oracle fillers e owner factory relayer filler amount min_out hint config w _
        ran.given.priced
      ∙ hand h oracle fillers e owner factory relayer filler amount min_out hint config w _
          ran.given
      ∙ call_step _ _ _ ran.filled
      ∙ call_trap _ _ _ unread
  swap_fails _ (uncountable f before after w7 served out) =
      reach h oracle fillers e owner factory relayer filler amount min_out hint config w _ served
      ∙ unwrap_or_panic_err _ _ _ _ (uncounted after before out)
  swap_fails _ (short f before after delta w7 served counted low) =
      reach h oracle fillers e owner factory relayer filler amount min_out hint config w _ served
      ∙ unwrap_or_panic_step _ _ _ _ counted
      ∙ panic_if_err _ _ _ _ (lt→ltb _ _ low)
  swap_fails _ (unpaid f before after delta w7 served counted high refused) =
      reach h oracle fillers e owner factory relayer filler amount min_out hint config w _ served
      ∙ unwrap_or_panic_step _ _ _ _ counted
      ∙ panic_if_step _ _ _ _ (not_below delta (max_ℤ min_out f.floor) high)
      ∙ call_trap _ _ _ refused
