-- ===== src/Vault/Account.antt =====
-- What a vault of contracts/vault is to its owner: an account with two balances, and a log of the
-- vault's events. Anyone may pay in; only an exchange and a withdrawal take out.
use crossmesh_ingress_contra.Prelude.{
  ◌<◌, ◌≤◌, ◌/◌, ◌*◌, ◌-◌, ℕ, ◌≡◌, ◌≢◌, inl, inr, List, [], ◌∷◌, arith, ◌==◌, ==→eq, not_==→ne,
  Bool-cases, if◌then◌else◌,
}
use crossmesh_ingress_contra.Int.{ℤ, pos, ◌+ℤ◌, ◌-ℤ◌, ◌≤ℤ◌, int_laws, ≤ℤ_trans, parts_of_eq}
use crossmesh_ingress_contra.Interfaces.{Address, discount_cap_ppm}
use crossmesh_ingress_contra.Vault.{ppm}
use crossmesh_ingress_contra.Events.{Event, Swapped, Withdrawn, swapped, withdrawn}

-- The log has the newest event first.
pub record Account : Type 0 where
  pub usdc : ℤ
  pub xlm : ℤ
  pub log : List Event

-- The floor of an exchange is the worth of its amount at the two prices, less a discount within the
-- cap, rounded down.
pub record Priced (r : Swapped) : Type 0 where
  pub amount : ℕ
  pub xlm : ℕ
  pub usdc : ℕ
  pub amount_in : r.amount_in ≡ pos amount
  pub xlm_price : r.xlm_price ≡ pos xlm
  pub usdc_price : r.usdc_price ≡ pos usdc
  pub amount_positive : 0 < amount
  pub xlm_positive : 0 < xlm
  pub usdc_positive : 0 < usdc
  pub capped : r.discount_ppm ≤ discount_cap_ppm
  pub floor : r.floor ≡ pos (amount * usdc * (ppm - r.discount_ppm) / (xlm * ppm))

-- A withdrawal takes the whole balance of its token and leaves any other.
pub record Redeemed (r : Withdrawn) (token : Address) (before after : ℤ) : Type 0 where
  pub emptied : r.token ≡ token → (before ≤ℤ r.amount) × (after ≡ pos 0)
  pub kept : r.token ≢ token → before ≤ℤ after

abbrev pub share : Address → Withdrawn → ℤ
share token r = if r.token == token then r.amount else pos 0

module _ (usdc xlm : Address) where
  pub data Move (s t : Account) : Type 0 where
    receive : s.usdc ≤ℤ t.usdc → s.xlm ≤ℤ t.xlm → t.log ≡ s.log → Move s t
    exchange :
        (r : Swapped)
        → t.log ≡ swapped r ∷ s.log
        → s.usdc -ℤ r.amount_in ≤ℤ t.usdc
        → Priced r
        → r.floor ≤ℤ r.want
        → r.want ≤ℤ r.amount_out
        → s.xlm +ℤ r.amount_out ≤ℤ r.paid_out
        → t.xlm ≡ pos 0
        → Move s t
    redeem :
        (r : Withdrawn)
        → t.log ≡ withdrawn r ∷ s.log
        → Redeemed r usdc s.usdc t.usdc
        → Redeemed r xlm s.xlm t.xlm
        → Move s t

  pub data Moves (s : Account) : Account → Type 0 where
    still : Moves s s
    more : {t u : Account} → Moves s t → Move t u → Moves s u

  -- What the log says was taken of each asset.
  abbrev pub usdc_out : List Event → ℤ
  usdc_out [] = pos 0
  usdc_out (swapped r ∷ l) = r.amount_in +ℤ usdc_out l
  usdc_out (withdrawn r ∷ l) = share usdc r +ℤ usdc_out l
  usdc_out (_ ∷ l) = usdc_out l

  abbrev pub xlm_out : List Event → ℤ
  xlm_out [] = pos 0
  xlm_out (swapped r ∷ l) = r.paid_out +ℤ xlm_out l
  xlm_out (withdrawn r ∷ l) = share xlm r +ℤ xlm_out l
  xlm_out (_ ∷ l) = xlm_out l

  abbrev pub usdc_seen : Account → ℤ
  usdc_seen s = s.usdc +ℤ usdc_out s.log

  abbrev pub xlm_seen : Account → ℤ
  xlm_seen s = s.xlm +ℤ xlm_out s.log

  Redeemed-share :
      (r : Withdrawn) (token : Address) (before after rest : ℤ)
      → Redeemed r token before after
      → before +ℤ rest ≤ℤ after +ℤ (share token r +ℤ rest)
  Redeemed-share r token before after rest d = elim (Bool-cases (r.token == token)) [
    | inl same ↦
        let (enough, gone) = d.emptied (==→eq r.token token same) in
        rw (same, gone) (omega (int_laws, enough))
    | inr other ↦ rw other (omega (int_laws, d.kept (not_==→ne r.token token other)))
  ]

  Move-accounts :
      {s t : Account} → Move s t → (usdc_seen s ≤ℤ usdc_seen t) × (xlm_seen s ≤ℤ xlm_seen t)
  Move-accounts {s} {t} (receive more_usdc more_xlm same) =
      (rw same (omega (int_laws, more_usdc)), rw same (omega (int_laws, more_xlm)))
  Move-accounts {s} {t} (exchange r logged spent priced floored enough paid gone) = (
    rw logged (omega (int_laws, spent)),
    rw (logged, gone) (omega (int_laws, parts_of_eq r.floor _ priced.floor, floored, enough, paid)),
  )
  Move-accounts {s} {t} (redeem r logged usdc_left xlm_left) = (
    rw logged (Redeemed-share r usdc s.usdc t.usdc (usdc_out s.log) usdc_left),
    rw logged (Redeemed-share r xlm s.xlm t.xlm (xlm_out s.log) xlm_left),
  )

  -- What an account holds and what its log says was taken never get less together.
  pub Moves-account :
      {s u : Account} → Moves s u → (usdc_seen s ≤ℤ usdc_seen u) × (xlm_seen s ≤ℤ xlm_seen u)
  Moves-account still = (omega arith, omega arith)
  Moves-account {s} {u} (more {t} l m) =
      let (usdc_kept, xlm_kept) = Moves-account l in
      let (usdc_next, xlm_next) = Move-accounts m in
      (
        ≤ℤ_trans (usdc_seen s) (usdc_seen t) (usdc_seen u) usdc_kept usdc_next,
        ≤ℤ_trans (xlm_seen s) (xlm_seen t) (xlm_seen u) xlm_kept xlm_next,
      )
