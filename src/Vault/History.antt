-- ===== src/Vault/History.antt =====
-- The vault of contracts/vault over any history of transactions, as the account that it is meant to
-- be.
use crossmesh_ingress_contra.Prelude.{ℕ, ◌≡◌, ◌≢◌, Option, some}
use crossmesh_ingress_contra.Int.{ℤ, ◌+ℤ◌, ◌≤ℤ◌}
use crossmesh_ingress_contra.Exec.{done}
use crossmesh_ingress_contra.Interfaces.{Address, Bytes, VaultConfig, ReflectorClient, FillerClient}
use crossmesh_ingress_contra.Host.{World, Host, MuxedAddress, frame}
use crossmesh_ingress_contra.Host.Assets.{Assets}
use crossmesh_ingress_contra.Host.Log.{own}
use crossmesh_ingress_contra.Vault.{swap, withdraw}
use crossmesh_ingress_contra.Vault.Account.{
  Account, Move, Moves, receive, still, more, usdc_out, xlm_out, Moves-account,
}
use crossmesh_ingress_contra.Vault.Run.{swap-SwapRun}
use crossmesh_ingress_contra.Vault.Withdrawal.{withdraw-WithdrawRun}
use crossmesh_ingress_contra.Vault.Shelter.{Kept, Sheltered, account}
use crossmesh_ingress_contra.Vault.AccountMoves.{swap-Move, withdraw-Move}

module _ {L : Type 0} (h : Host L) (oracle : ReflectorClient (World L))
    (fillers : FillerClient (World L)) (assets : Assets h) (this : Address)
    (config : VaultConfig) where
  open assets use {IsAsset, held, transfer_from, transfer_elsewhere}

  abbrev view : World L → Account
  view = account h oracle fillers assets this config

  module _ (owner : Bytes) (factory : Address) where
    -- One transaction: a swap or a withdrawal of the vault that returned, for its owner and factory
    -- (with others it fails) and with the factory's two assets, or anything else, which takes none
    -- of the assets from the vault and publishes nothing in its name.
    pub data Step (w w' : World L) : Type 0 where
      swap_call :
          (invoker : Option Address) (relayer filler : Address) (amount min_out : ℤ) (hint : Bytes)
          (discount : ℕ) (delta : ℤ)
          → swap h oracle fillers
              (frame this invoker)
              owner
              factory
              relayer
              filler
              amount
              min_out
              hint
              (record config { discount_ppm = discount })
              w
            ≡ done delta w'
          → Step w w'
      withdraw_call :
          (invoker : Option Address) (token : Address) (amount : ℤ)
          → withdraw h (frame this invoker) owner factory token w ≡ done amount w'
          → Step w w'
      elsewhere : Kept h oracle fillers assets this config w w' → Step w w'

    pub data Reach (w : World L) : World L → Type 0 where
      here : Reach w w
      next : {v w' : World L} → Reach w v → Step v w' → Reach w w'

  module _ (g : Sheltered h oracle fillers assets this config) (usdc_asset : IsAsset config.usdc)
      (xlm_asset : IsAsset config.xlm) (owner : Bytes) (factory : Address) (m : MuxedAddress)
      (parsed : h.from_string_bytes owner ≡ some m) (apart : this ≢ m.address) where
    Step-Move :
        {w w' : World L} → Step owner factory w w' → Move config.usdc config.xlm (view w) (view w')
    Step-Move {w} {w'} (swap_call invoker relayer filler amount min_out hint discount delta p) =
        swap-Move h oracle fillers assets this config g usdc_asset xlm_asset owner factory m parsed
          apart invoker relayer filler amount min_out hint discount delta w w'
          ((swap-SwapRun h oracle fillers (frame this invoker) owner factory relayer filler amount
              min_out hint (record config { discount_ppm = discount }) w).at
            delta w' p)
    Step-Move {w} {w'} (withdraw_call invoker token amount p) =
        withdraw-Move h oracle fillers assets this config g usdc_asset xlm_asset owner factory m
          parsed apart invoker token amount w w'
          ((withdraw-WithdrawRun h (frame this invoker) owner factory token w).at amount w' p)
    Step-Move (elsewhere kept) = receive kept.usdc kept.xlm kept.log

    -- For a vault that the host shelters, of two asset contracts, and whose owner is another
    -- address: over any history, what the vault's code does to its balances and publishes is what
    -- the account allows. That is payments in; exchanges, each of which takes at most its
    -- `amount_in` of USDC and pays out all XLM, which is at least what was there and a delivery no
    -- less than the floor; and withdrawals of a whole balance. The floor of each exchange is the
    -- one that its event lets anyone recompute, with a discount within the cap.
    pub history_refines :
        {w w' : World L}
        → Reach owner factory w w'
        → Moves config.usdc config.xlm (view w) (view w')
    history_refines here = still
    history_refines (next r step) = more (history_refines r) (Step-Move step)

    -- For the same vaults, nothing leaves a vault without an event of its own: what is missing
    -- from its USDC, and from its XLM, after any history is at most what its `Swapped` and
    -- `Withdrawn` events since then add up to.
    pub history_accounts :
        {w w' : World L}
        → Reach owner factory w w'
        → (held config.usdc this w.ledger +ℤ usdc_out config.usdc config.xlm (own this w.events)
            ≤ℤ held config.usdc this w'.ledger
              +ℤ usdc_out config.usdc config.xlm (own this w'.events))
          × (held config.xlm this w.ledger +ℤ xlm_out config.usdc config.xlm (own this w.events)
              ≤ℤ held config.xlm this w'.ledger
                +ℤ xlm_out config.usdc config.xlm (own this w'.events))
    history_accounts r = Moves-account config.usdc config.xlm (history_refines r)
