-- ===== src/Evm/Network/Ledger.antt =====
-- What USDC and Circle's messenger do with balances, as they are documented.
use crossmesh_ingress_contra.Prelude.{ℕ, ◌+◌, ◌-◌, ◌≤◌, ◌≡◌, ◌≢◌, true, some, List, ◌∷◌}
use crossmesh_ingress_contra.Interfaces.{Address}
use crossmesh_ingress_contra.Evm.Network.{Burn, Network}

-- `messages` are the burns that the messenger has announced, the newest first, each with the
-- account that burned.
pub record Ledger {W : Type 0} (n : Network W) (usdc messenger : Address) : Type 0 where
  pub messages : W → List (Address × Burn)
  -- a transfer to another account takes the amount from the caller and gives it to the recipient
  pub transfer_takes :
      (from to : Address) (amount b : ℕ) (v w : W)
      → n.token.safe_transfer from usdc to amount v ≡ some (tt, w)
      → to ≢ from
      → n.token.balance_of usdc from v ≡ some b
      → (amount ≤ b) × (n.token.balance_of usdc from w ≡ some (b - amount))
  pub transfer_gives :
      (from to : Address) (amount b : ℕ) (v w : W)
      → n.token.safe_transfer from usdc to amount v ≡ some (tt, w)
      → to ≢ from
      → n.token.balance_of usdc to v ≡ some b
      → n.token.balance_of usdc to w ≡ some (b + amount)
  pub transfer_silent :
      (from to : Address) (amount : ℕ) (v w : W)
      → n.token.safe_transfer from usdc to amount v ≡ some (tt, w)
      → messages w ≡ messages v
  -- an approval moves nothing
  pub approve_keeps :
      (owner spender a : Address) (amount : ℕ) (v w : W)
      → n.token.approve owner usdc spender amount v ≡ some (true, w)
      → (n.token.balance_of usdc a w ≡ n.token.balance_of usdc a v) × (messages w ≡ messages v)
  -- a burn takes the amount from the caller, and announces the message
  pub burn_takes :
      (from : Address) (burn : Burn) (b : ℕ) (v w : W)
      → n.messenger.deposit_for_burn_with_hook from messenger burn v ≡ some (tt, w)
      → burn.burn_token ≡ usdc
      → n.token.balance_of usdc from v ≡ some b
      → (burn.amount ≤ b)
        × (n.token.balance_of usdc from w ≡ some (b - burn.amount))
        × (messages w ≡ (from, burn) ∷ messages v)
  pub burn_keeps :
      (from a : Address) (burn : Burn) (v w : W)
      → n.messenger.deposit_for_burn_with_hook from messenger burn v ≡ some (tt, w)
      → a ≢ from
      → n.token.balance_of usdc a w ≡ n.token.balance_of usdc a v
  -- the arguments of a clone are part of its code, which these calls do not change
  pub transfer_args :
      (from to a : Address) (amount : ℕ) (v w : W)
      → n.token.safe_transfer from usdc to amount v ≡ some (tt, w)
      → n.clones.fetch_clone_args a w ≡ n.clones.fetch_clone_args a v
  pub approve_args :
      (owner spender a : Address) (amount : ℕ) (v w : W)
      → n.token.approve owner usdc spender amount v ≡ some (true, w)
      → n.clones.fetch_clone_args a w ≡ n.clones.fetch_clone_args a v
