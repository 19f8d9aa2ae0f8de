-- ===== src/Sandbox/Promises.antt =====
-- The concrete host keeps what the contracts rely on.
use crossmesh_ingress_contra.Prelude.{ℕ, ◌≤◌, ◌≡◌, ◌≢◌, refl, [], ◌∷◌, none, some, arith}
use crossmesh_ingress_contra.Int.{ℤ, pos, negsuc, ◌+ℤ◌, ◌-ℤ◌}
use crossmesh_ingress_contra.Interfaces.{Address}
use crossmesh_ingress_contra.Host.{Env, World}
use crossmesh_ingress_contra.Host.Assets.{Assets}
use crossmesh_ingress_contra.VaultFactory.Deployment.{Deployer}
use crossmesh_ingress_contra.Exec.{Exec}
use crossmesh_ingress_contra.Interfaces.{Bytes}
use crossmesh_ingress_contra.Mocks.{FillMode, pay_want, RouterError, mock_fill}
use crossmesh_ingress_contra.Sandbox.{Ledger, pay, moved, sandbox, signs, vault}

pub pay_moves :
    (c t a b : Address) (n : ℤ) (w w' : World Ledger)
    → pay c t a b n w ≡ some (tt, w')
    → (k : ℕ) × (n ≡ pos k) × (k ≤ w.ledger.holdings t a) × (w' ≡ moved t a b k w)
pay_moves c t a b (pos k) w w' p = (k, refl, ground arith, ground arith)
pay_moves c t a b (negsuc k) w w' p = cc

abbrev balance_of : Address → Address → World Ledger → ℤ
balance_of t a w = pos (w.ledger.holdings t a)

module _ (t a b : Address) (k : ℕ) (w : World Ledger) where
  pub moved_from :
      a ≢ b
      → k ≤ w.ledger.holdings t a
      → balance_of t a (moved t a b k w) ≡ balance_of t a w -ℤ pos k
  unfolding ◌-ℤ◌
  moved_from apart enough = ground arith

  pub moved_to : a ≢ b → balance_of t b (moved t a b k w) ≡ balance_of t b w +ℤ pos k
  unfolding ◌+ℤ◌
  moved_to apart = ground arith

  pub moved_elsewhere :
      (u c : Address) → u ≢ t → balance_of u c (moved t a b k w) ≡ balance_of u c w
  moved_elsewhere u c other = ground arith

  pub moved_others :
      (c : Address) → c ≢ a → c ≢ b → balance_of t c (moved t a b k w) ≡ balance_of t c w
  moved_others c not_from not_to = ground arith

unfoldable pub assets : Assets sandbox
assets = record {
  IsAsset = λ _. Unit;
  held = λ t a l. pos (l.holdings t a);
  held_nonneg = λ t a l _. ground arith;
  balance_lem = λ c t a w _. refl;
  transfer_from = λ c t a to n w w' _ apart p.
      let (k, same, enough, after) = pay_moves c t a to.address n w w' p in
      rw (same, after) (moved_from t a to.address k w apart enough);
  transfer_to = λ c t a to n w w' _ apart p.
      let (k, same, enough, after) = pay_moves c t a to.address n w w' p in
      rw (same, after) (moved_to t a to.address k w apart);
  transfer_elsewhere = λ c t a to n w w' u _ _ other p b.
      let (k, same, enough, after) = pay_moves c t a to.address n w w' p in
      rw after (moved_elsewhere t a to.address k w u b other);
  transfer_others = λ c t a to n w w' b _ not_from not_to p.
      let (k, same, enough, after) = pay_moves c t a to.address n w w' p in
      rw after (moved_others t a to.address k w b not_from not_to);
}

pub is_asset : (t : Address) → assets.IsAsset t
unfolding assets
is_asset t = tt

pub deployer : Deployer sandbox
deployer = record { lands = λ c salt code a w w' p. ground arith }

pub signs_same :
    (e : Env) (a : Address) (w w' : World Ledger) → signs e a w ≡ some (tt, w') → w' ≡ w
signs_same e a w w' p = ground arith

pub pay_mode : (mode : FillMode) → some pay_want ≡ some mode → pay_want ≡ mode
pay_mode mode p = cc

abbrev pub runs_fill :
    Address → Address → Address → Address → ℤ → ℤ → Bytes → Exec (World Ledger) RouterError ℤ
runs_fill vault filler token_in token_out amount want hint =
    mock_fill sandbox (λ caller vault owner factory token w. none)
      (record { mode = some pay_want; target = some (7 ∷ [], 6) })
      (record { this = filler; invoker = some vault }) vault token_in amount token_out want hint
