-- ===== src/Sandbox/AccountExamples.antt =====
-- The theorems on the account of a vault, at a history of the concrete vault: 50 USDC are swapped,
-- then the owner withdraws the 30 that are left.
use crossmesh_ingress_contra.Prelude.{
  ◌≡◌, ◌≢◌, refl, sym, ap, inl, inr, Bool-cases, not_==→ne, none, some, arith, [], ◌==◌,
  if◌then◌else◌,
}
use crossmesh_ingress_contra.Int.{ℤ, pos, ◌+ℤ◌, ◌-ℤ◌, ◌*ℤ◌, ◌≤ℤ◌}
use crossmesh_ingress_contra.Int.Checked.{checked_sub, checked_mul, div, checked, in_i128}
use crossmesh_ingress_contra.Exec.{Outcome, done, ◌>>=◌}
use crossmesh_ingress_contra.Exec.Ensures.{
  Ensures, Ensures-unwrap, Ensures-call, Ensures-pure, ensured_call,
}
use crossmesh_ingress_contra.Interfaces.{Address, Bytes, FillerClient}
use crossmesh_ingress_contra.Host.{World, muxed_from, frame}
use crossmesh_ingress_contra.Host.Log.{own}
use crossmesh_ingress_contra.Mocks.{mock_fill, fill_by, pay_out}
use crossmesh_ingress_contra.Vault.{
  VaultError, unusable, is_stale, require_this_vault, fresh_price, oracle_floor, swap, withdraw,
}
use crossmesh_ingress_contra.Vault.Account.{Moves, usdc_out, xlm_out}
use crossmesh_ingress_contra.Vault.Shelter.{Kept, Sheltered, account}
use crossmesh_ingress_contra.Vault.History.{
  Reach, here, next, swap_call, withdraw_call, history_refines, history_accounts,
}
use crossmesh_ingress_contra.Sandbox.{
  Ledger, pay, sandbox, feed, paying, config, relayer, factory, owner, filler, vault, usdc, xlm,
  start,
}
use crossmesh_ingress_contra.Sandbox.Promises.{
  assets, is_asset, pay_moves, pay_mode, runs_fill, signs_same,
}

-- The host refuses to call a contract that is running.
abbrev outside : FillerClient (World Ledger)
outside = record {
  fill = λ caller filler recipient token_in n token_out want hint w.
      if caller == filler
      then none
      else paying.fill caller filler recipient token_in n token_out want hint w;
}

abbrev KeptHere : World Ledger → World Ledger → Type 0
KeptHere = Kept sandbox feed outside assets vault config

untouched : (w w' : World Ledger) → w' ≡ w → KeptHere w w'
unfolding assets
untouched w w' p = rw p (record { usdc = omega arith; xlm = omega arith; log = refl })

received :
    (token from : Address) (n : ℤ) (w w' : World Ledger)
    → from ≢ vault
    → pay from token from vault n w ≡ some (tt, w')
    → KeptHere w w'
unfolding assets
received token from n w w' other p =
    let (k, _, _, after) = pay_moves from token from vault n w w' p in
    rw after (record { usdc = ground arith; xlm = ground arith; log = refl })

served :
    (filler token_in token_out : Address) (amount want : ℤ) (hint : Bytes) (w : World Ledger)
    → filler ≢ vault
    → Ensures (λ _ w'. KeptHere w w') (runs_fill vault filler token_in token_out amount want hint w)
unfolding mock_fill fill_by pay_out
served filler token_in token_out amount want hint w other = Ensures-unwrap _ _ _ _ λ mode same.
    rw (← pay_mode mode same) (
      Ensures-call _ _ _ _
        λ _ w' paid. Ensures-pure _ _ _ (received token_out filler want w w' other paid))

sheltered : Sheltered sandbox feed outside assets vault config
unfolding assets
sheltered = record {
  auth_kept = λ invoker a w w' p. untouched w w' (signs_same (frame vault invoker) a w w' p);
  oracle_kept = λ f asset answer w w' p. untouched w w' cc;
  fill_kept = λ f token_in token_out n want reported hint w w' p.
      let (other, called) = ran f token_in token_out n want reported hint w w' p in
      (
        λ same. other (sym same),
        ensured_call (λ _ v. KeptHere w v) (runs_fill vault f token_in token_out n want hint) w
            (served f token_in token_out n want hint w other) reported w' called,
      );
  read_kept = λ token n w w' p. untouched w w' cc;
  sent_quiet = λ token to n w w' p.
      let (k, _, _, after) = pay_moves vault token vault to.address n w w' p in
      ap (λ (v : World Ledger). own vault v.events) after;
  sent_apart = λ token asset to n w w' _ other p.
      let (k, _, _, after) = pay_moves vault token vault to.address n w w' p in
      rw after (ground arith);
}
  where
    impossible : {x : ℤ × World Ledger} → none ≡ some x → ⊥
    impossible p = cc

    ran :
        (f token_in token_out : Address) (n want reported : ℤ) (hint : Bytes) (w w' : World Ledger)
        → outside.fill vault f vault token_in n token_out want hint w ≡ some (reported, w')
        → (f ≢ vault)
          × (paying.fill vault f vault token_in n token_out want hint w ≡ some (reported, w'))
    ran f token_in token_out n want reported hint w w' p = elim (Bool-cases (vault == f)) [
      | inl same ↦ absurd (impossible (rw same at p))
      | inr other ↦ (λ q. not_==→ne vault f other (sym q), rw other at p)
    ]

abbrev world_of : {E A : Type 0} → Outcome (World Ledger) E A → World Ledger
world_of o = elim o [ done a w ↦ w | _ ↦ start ]

abbrev swapped_at : Outcome (World Ledger) VaultError ℤ
swapped_at =
    swap sandbox feed outside (frame vault (some factory)) owner factory relayer filler (pos 50)
      (pos 100) [] (record config { discount_ppm = 50_000 }) start

abbrev after_swap : World Ledger
after_swap = world_of swapped_at

swap_ran : swapped_at ≡ done (pos 118) after_swap
unfolding swap ◌>>=◌ require_this_vault oracle_floor fresh_price is_stale unusable checked_sub
    checked_mul div checked in_i128 ◌+ℤ◌ ◌-ℤ◌ ◌*ℤ◌ mock_fill fill_by pay_out
swap_ran = refl

abbrev withdrawn_at : Outcome (World Ledger) VaultError ℤ
withdrawn_at = withdraw sandbox (frame vault none) owner factory usdc after_swap

abbrev at_last : World Ledger
at_last = world_of withdrawn_at

withdraw_ran : withdrawn_at ≡ done (pos 30) at_last
unfolding swap withdraw ◌>>=◌ require_this_vault oracle_floor fresh_price is_stale unusable
    checked_sub checked_mul div checked in_i128 ◌+ℤ◌ ◌-ℤ◌ ◌*ℤ◌ mock_fill fill_by pay_out
withdraw_ran = refl

history : Reach sandbox feed outside assets vault config owner factory start at_last
history =
    next
      (next here
        (swap_call (some factory) relayer filler (pos 50) (pos 100) [] 50_000 (pos 118) swap_ran))
      (withdraw_call none usdc (pos 30) withdraw_ran)

history_refines_example :
    Moves usdc xlm
      (account sandbox feed outside assets vault config start)
      (account sandbox feed outside assets vault config at_last)
history_refines_example =
    history_refines sandbox feed outside assets vault config sheltered (is_asset usdc)
      (is_asset xlm) owner factory (muxed_from 7) refl (omega arith) history

history_accounts_example :
    (assets.held usdc vault start.ledger +ℤ usdc_out usdc xlm (own vault start.events)
      ≤ℤ assets.held usdc vault at_last.ledger +ℤ usdc_out usdc xlm (own vault at_last.events))
    × (assets.held xlm vault start.ledger +ℤ xlm_out usdc xlm (own vault start.events)
        ≤ℤ assets.held xlm vault at_last.ledger +ℤ xlm_out usdc xlm (own vault at_last.events))
history_accounts_example =
    history_accounts sandbox feed outside assets vault config sheltered (is_asset usdc)
      (is_asset xlm) owner factory (muxed_from 7) refl (omega arith) history
