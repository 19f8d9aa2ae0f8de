-- ===== src/System/Conversion.antt =====
-- A swap of a vault with the code of the Aquarius filler behind it.
use crossmesh_ingress_contra.Prelude.{
  ℕ, ◌≡◌, sym, ap, ◌∙◌, ◌≢◌, Option, none, some, List, [], ◌∷◌, arith,
}
use crossmesh_ingress_contra.Int.{ℤ, ◌≤ℤ◌, eq_of_parts, parts_of_eq, int_laws}
use crossmesh_ingress_contra.Int.Checked.{as_u128}
use crossmesh_ingress_contra.Exec.{Outcome, done, err, trap}
use crossmesh_ingress_contra.Interfaces.{
  Address, Bytes, OracleAsset, VaultConfig, PriceData, RawHop, ReflectorClient,
  AquariusRouterClient,
}
use crossmesh_ingress_contra.Host.{Env, frame, MuxedAddress, muxed_from, hops, World, Host}
use crossmesh_ingress_contra.Host.Assets.{Assets, balance_read}
use crossmesh_ingress_contra.Vault.{max_ℤ, swap}
use crossmesh_ingress_contra.Vault.Calls.{oracle_floor-Ensures}
use crossmesh_ingress_contra.Vault.Run.{SwapRun, swap-SwapRun}
use crossmesh_ingress_contra.AquariusFiller.{FillerError, Storage, State, fill, as_filler}
use crossmesh_ingress_contra.AquariusFiller.Run.{convert-ConvertRun, fill-FillRun}
use crossmesh_ingress_contra.AquariusFiller.Exactness.{fill_exact}

module _ {L : Type 0} (h : Host L) (routers : AquariusRouterClient (World L)) where
  returned :
      (o : Outcome (State L) FillerError ℤ) (got : ℤ) (w : World L)
      → ◌≡◌ {A = Option (ℤ × World L)}
          (elim o [ done a t ↦ some (a, t.world) | err e ↦ none | trap ↦ none ])
          (some (got, w))
      → (t : State L) × (o ≡ done got t) × (t.world ≡ w)
  returned (done a t) got w p = (t, cc, cc)
  returned (err e) got w p = absurd cc
  returned trap got w p = absurd cc

  -- `fill` leaves the storage of the filler as it is.
  fill_keeps_storage :
      (e : Env) (recipient token_in : Address) (amount_in : ℤ) (token_out : Address) (min_out : ℤ)
      (hint : Bytes) (s t : State L) (got : ℤ)
      → fill h routers e recipient token_in amount_in token_out min_out hint s ≡ done got t
      → t.storage ≡ s.storage
  fill_keeps_storage e recipient token_in amount_in token_out min_out hint s t got p =
      let r =
        (fill-FillRun h routers e recipient token_in amount_in token_out min_out hint s).at got t
          p in
      let c =
        (convert-ConvertRun h routers e recipient token_in amount_in token_out min_out r.chain
            (record s { world = r.w })).at
          got t r.converted in
      ap (λ (v : State L). v.storage) c.published

  module _ (oracle : ReflectorClient (World L)) (assets : Assets h) (storage : Storage) (e : Env)
      (owner : Bytes) (factory relayer filler : Address) (amount min_out : ℤ) (hint : Bytes)
      (config : VaultConfig) (m : MuxedAddress) (w w' : World L) (delta : ℤ) where
    open assets use {IsAsset, held, transfer_from, transfer_to, transfer_elsewhere, transfer_others}

    abbrev pub Unmoved : World L → World L → Type 0
    Unmoved v v' =
        (token : Address) → IsAsset token → held token filler v'.ledger ≡ held token filler v.ledger

    unmoved : (v v' : World L) → v' ≡ v → Unmoved v v'
    unmoved v v' p token is = ap (λ (u : World L). held token filler u.ledger) p

    module _
        (auth : (f : Env) (a : Address) (v v' : World L)
          → h.require_auth f a v ≡ some (tt, v')
          → Unmoved v v')
        (quoted : (feed : Address) (asset : OracleAsset) (answer : Option PriceData)
            (v v' : World L)
          → oracle.lastprice e.this feed asset v ≡ some (answer, v')
          → Unmoved v v')
        (usdc : IsAsset config.usdc) (xlm : IsAsset config.xlm)
        (parsed : h.from_string_bytes owner ≡ some m) (apart : e.this ≢ filler)
        (stranger : filler ≢ m.address)
        (r : SwapRun h oracle
          (as_filler h routers storage)
          e
          owner
          factory
          relayer
          filler
          amount
          min_out
          hint
          config
          w
          delta
          w') where
      before_handing : Unmoved w r.w4
      before_handing token is =
          unmoved r.w3 r.w4 (balance_read assets e.this config.xlm e.this r.w3 xlm r.before_read).1
            token is
          ∙ (oracle_floor-Ensures h e Unmoved oracle
                (λ w1 w2 w3 p q token is. q token is ∙ p token is) quoted config amount r.w2).at
              r.f r.w3 r.floored token is
          ∙ unmoved r.w1 r.w2
              (balance_read assets e.this config.usdc e.this r.w1 usdc r.usdc_read).1 token is
          ∙ auth e factory w r.w1 r.authorized token is

      after_fill : Unmoved r.w6 r.w7
      after_fill =
          unmoved r.w6 r.w7 (balance_read assets e.this config.xlm e.this r.w6 xlm r.after_read).1

      published : Unmoved r.w8 w'
      published token is = ap (λ (v : World L). held token filler v.ledger) r.published

      -- The XLM that the vault forwards passes the filler by.
      forwarded :
          (held config.usdc filler r.w8.ledger ≡ held config.usdc filler r.w7.ledger)
          × (held config.xlm filler r.w8.ledger ≡ held config.xlm filler r.w7.ledger)
      forwarded = (
        transfer_elsewhere e.this config.xlm e.this r.owner_muxed r.after r.w7 r.w8 config.usdc xlm
            usdc r.computed.usable.two_assets r.forwarded filler,
        transfer_others e.this config.xlm e.this r.owner_muxed r.after r.w7 r.w8 filler xlm
            (λ p. apart (sym p))
            (λ p. stranger (p ∙ ap (λ (o : MuxedAddress). o.address) owner_same)) r.forwarded,
      )
        where
          owner_same : r.owner_muxed ≡ m
          owner_same = cc (parsed, r.parsed)

      converted :
          (held config.usdc filler r.w6.ledger ≡ held config.usdc filler r.w4.ledger)
          × (held config.xlm filler r.w6.ledger ≡ held config.xlm filler r.w4.ledger)
      converted =
          let (t, ran, same) = returned _ r.reported r.w6 r.filled in
          let (v, _, signed, _, kept, given, _, _) =
            fill_exact h routers (frame filler (some e.this)) e.this config.usdc amount config.xlm
              (max_ℤ min_out r.f.floor) hint (record { world = r.w5; storage = storage }) t
              r.reported assets usdc xlm r.computed.usable.two_assets (λ p. apart (sym p)) ran in
          let accepted = auth (frame filler (some e.this)) e.this r.w5 v signed in
          let world = unmoved t.world r.w6 (sym same) in
          (
            eq_of_parts (held config.usdc filler r.w6.ledger) (held config.usdc filler r.w4.ledger)
                (omega (
                  int_laws,
                  parts_of_eq _ _ (world config.usdc usdc),
                  parts_of_eq _ _ given,
                  parts_of_eq _ _ (accepted config.usdc usdc),
                  parts_of_eq _ _ (
                      transfer_to e.this config.usdc e.this (muxed_from filler) amount r.w4 r.w5
                        usdc apart r.handed),
                )),
            world config.xlm xlm
                ∙ kept
                ∙ accepted config.xlm xlm
                ∙ transfer_elsewhere e.this config.usdc e.this (muxed_from filler) amount r.w4 r.w5
                    config.xlm usdc xlm (λ p. r.computed.usable.two_assets (sym p)) r.handed filler,
          )

    -- The filler called the router of its storage, along the route of the hint, with the amount and
    -- for `want`, under a permission for one transfer of exactly the amount.
    pub record Routed (want : ℤ) : Type 0 where
      pub router : Address
      pub chain : List RawHop
      pub reported : ℕ
      pub w2 : World L
      pub w3 : World L
      pub w4 : World L
      pub stored : storage.router ≡ some router
      pub decoded : h.from_xdr hint ≡ hops chain
      pub permitted :
          h.authorize_as_current_contract filler
            (record { contract = config.usdc; from = filler; to = router; amount = amount } ∷ [])
            w2
          ≡ some (tt, w3)
      pub called :
          routers.swap_chained filler router filler chain config.usdc
            (as_u128 amount)
            (as_u128 want)
            w3
          ≡ some (reported, w4)

    routed :
        (r : SwapRun h oracle
          (as_filler h routers storage)
          e
          owner
          factory
          relayer
          filler
          amount
          min_out
          hint
          config
          w
          delta
          w')
        → Routed (max_ℤ min_out r.f.floor)
    routed r =
        let (t, ran, _) = returned _ r.reported r.w6 r.filled in
        let want = max_ℤ min_out r.f.floor in
        let s : State L = record { world = r.w5; storage = storage } in
        let f = frame filler (some e.this) in
        let a =
          (fill-FillRun h routers f e.this config.usdc amount config.xlm want hint s).at r.reported
            t ran in
        let c =
          (convert-ConvertRun h routers f e.this config.usdc amount config.xlm want a.chain
              (record s { world = a.w })).at
            r.reported t a.converted in
        record {
          router = c.router;
          chain = a.chain;
          reported = c.reported;
          w2 = c.w2;
          w3 = c.w3;
          w4 = c.w4;
          stored = c.routed;
          decoded = a.decoded;
          permitted = c.permitted;
          called = c.swapped;
        }

    above : (a b : ℤ) → a ≤ℤ max_ℤ a b
    above a b = ground arith

    -- The Aquarius filler keeps nothing of a swap, and pays nothing for it. When a swap through it
    -- returns, the router of its storage was called along the route of the hint, with the whole
    -- amount and for the relayer's minimum or more, under a permission for one transfer of exactly
    -- the amount; and the filler's balances of USDC and of XLM are those that it had before. The
    -- host's signature checks and the oracle move no balance of the filler, and the vault and the
    -- owner are other addresses.
    pub swap_through_aquarius :
        ((f : Env) (a : Address) (v v' : World L)
          → h.require_auth f a v ≡ some (tt, v')
          → Unmoved v v')
        → ((feed : Address) (asset : OracleAsset) (answer : Option PriceData) (v v' : World L)
            → oracle.lastprice e.this feed asset v ≡ some (answer, v')
            → Unmoved v v')
        → IsAsset config.usdc
        → IsAsset config.xlm
        → h.from_string_bytes owner ≡ some m
        → e.this ≢ filler
        → filler ≢ m.address
        → swap h oracle
            (as_filler h routers storage)
            e
            owner
            factory
            relayer
            filler
            amount
            min_out
            hint
            config
            w
          ≡ done delta w'
        → ((want : ℤ) × (min_out ≤ℤ want) × Routed want)
          × (held config.usdc filler w'.ledger ≡ held config.usdc filler w.ledger)
          × (held config.xlm filler w'.ledger ≡ held config.xlm filler w.ledger)
    swap_through_aquarius auth quoted usdc xlm parsed apart stranger p =
        let r =
          (swap-SwapRun h oracle (as_filler h routers storage) e owner factory relayer filler amount
              min_out hint config w).at
            delta w' p in
        let first = before_handing auth quoted usdc xlm parsed apart stranger r in
        let (usdc_even, xlm_even) = converted auth quoted usdc xlm parsed apart stranger r in
        let after = after_fill auth quoted usdc xlm parsed apart stranger r in
        let (usdc_by, xlm_by) = forwarded auth quoted usdc xlm parsed apart stranger r in
        let last = published auth quoted usdc xlm parsed apart stranger r in
        (
          (max_ℤ min_out r.f.floor, above min_out r.f.floor, routed r),
          last config.usdc usdc
              ∙ usdc_by
              ∙ after config.usdc usdc
              ∙ usdc_even
              ∙ first config.usdc usdc,
          last config.xlm xlm ∙ xlm_by ∙ after config.xlm xlm ∙ xlm_even ∙ first config.xlm xlm,
        )
