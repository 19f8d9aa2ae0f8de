-- ===== src/AquariusFiller/Exactness.antt =====
-- What a successful `fill` of contracts/aquarius-filler takes, gives and keeps.
use crossmesh_ingress_contra.Prelude.{
  ℕ, ◌≡◌, ◌≢◌, refl, sym, ap, ◌∙◌, true, some, List, [], ◌∷◌, arith,
}
use crossmesh_ingress_contra.Int.{
  ℤ, pos, negsuc, ◌+ℤ◌, ◌-ℤ◌, ◌≤ℤ◌, eq_ℤ, int_laws, parts_of_eq, eq_of_parts,
}
use crossmesh_ingress_contra.Int.Checked.{in_i128, as_u128}
use crossmesh_ingress_contra.Int.Bounds.{checked_sub-some, as_u128-pos, in_i128-pos}
use crossmesh_ingress_contra.Exec.{done}
use crossmesh_ingress_contra.Interfaces.{
  Address, Hash, Bytes, AquariusHop, RawHop, AquariusRouterClient,
}
use crossmesh_ingress_contra.Events.{Event, filled}
use crossmesh_ingress_contra.Host.{Env, World, Host, wasm, hops}
use crossmesh_ingress_contra.Host.Assets.{Assets, balance_read}
use crossmesh_ingress_contra.AquariusFiller.{State, last, fill}
use crossmesh_ingress_contra.AquariusFiller.Run.{
  FillRun, fill-FillRun, ConvertRun, convert-ConvertRun, fill_event,
}

eq_ℤ-true : (a b : ℤ) → eq_ℤ a b ≡ true → a ≡ b
eq_ℤ-true a b h = eq_of_parts a b (ground arith)

module _ {L : Type 0} (h : Host L) (routers : AquariusRouterClient (World L)) (e : Env)
    (recipient token_in : Address) (amount_in : ℤ) (token_out : Address) (min_out : ℤ)
    (hint : Bytes) (s t : State L) (got : ℤ) where
  abbrev Converted :
      FillRun h routers e recipient token_in amount_in token_out min_out hint s got t → Type 0
  Converted r =
      ConvertRun h routers e recipient token_in amount_in token_out min_out r.chain
        (record s { world = r.w }) got t

  parts :
      fill h routers e recipient token_in amount_in token_out min_out hint s ≡ done got t
      → (r : FillRun h routers e recipient token_in amount_in token_out min_out hint s got t)
        × Converted r
  parts p =
      let r =
        (fill-FillRun h routers e recipient token_in amount_in token_out min_out hint s).at got t
          p in
      (
        r,
        (convert-ConvertRun h routers e recipient token_in amount_in token_out min_out r.chain
              (record s { world = r.w })).at
            got t r.converted,
      )

  -- Only a recipient that authorized the call and runs the vault code that the filler was
  -- constructed with is served, with a positive amount and a minimum that is not negative, along a
  -- decoded route whose last hop obtains the token asked for.
  pub fill_serves_vaults :
      fill h routers e recipient token_in amount_in token_out min_out hint s ≡ done got t
      → (w : World L) × (code : Hash) × (h.require_auth e recipient s.world ≡ some (tt, w))
        × (s.storage.vault_wasm ≡ some code)
        × (h.executable recipient w.ledger ≡ some (wasm code))
        × (pos 1 ≤ℤ amount_in)
        × (pos 0 ≤ℤ min_out)
        × ((chain : List RawHop) × (hop : AquariusHop) × (h.from_xdr hint ≡ hops chain)
            × (last chain ≡ some (some hop))
            × (hop.2 ≡ token_out))
  fill_serves_vaults p =
      let (r, _) = parts p in
      (
        r.w,
        r.code,
        r.signed,
        r.served,
        r.running,
        r.positive,
        r.nonneg,
        (r.chain, r.hop, r.decoded, r.ends, r.ends_in),
      )

  -- The router of the storage is called once, for this contract, with the decoded route, under a
  -- permission for exactly one transfer of exactly `amount_in`; for `i128` values the casts to
  -- `u128` hand it the same two numbers.
  pub fill_calls_router :
      in_i128 amount_in ≡ true
      → in_i128 min_out ≡ true
      → fill h routers e recipient token_in amount_in token_out min_out hint s ≡ done got t
      → (router : Address) × (chain : List RawHop) × (a m reported : ℕ) × (v w w' : World L)
        × (s.storage.router ≡ some router)
        × (h.from_xdr hint ≡ hops chain)
        × (amount_in ≡ pos a)
        × (min_out ≡ pos m)
        × (h.authorize_as_current_contract e.this
              (record { contract = token_in; from = e.this; to = router; amount = amount_in } ∷ [])
              v
            ≡ some (tt, w))
        × (routers.swap_chained e.this router e.this chain token_in a m w ≡ some (reported, w'))
  fill_calls_router small_in small_out p =
      let (r, c) = parts p in
      let (a, ea, ca) = cast amount_in (omega (arith, r.positive)) small_in in
      let (m, em, cm) = cast min_out r.nonneg small_out in
      (
        c.router,
        r.chain,
        a,
        m,
        c.reported,
        c.w2,
        c.w3,
        c.w4,
        c.routed,
        r.decoded,
        ea,
        em,
        c.permitted,
        ap (λ n. routers.swap_chained e.this c.router e.this r.chain token_in n m c.w3) (sym ca)
            ∙ ap
                (λ n.
                  routers.swap_chained e.this c.router e.this r.chain token_in (as_u128 amount_in) n
                    c.w3)
                (sym cm)
            ∙ c.swapped,
      )
    where
      cast : (z : ℤ) → pos 0 ≤ℤ z → in_i128 z ≡ true → (n : ℕ) × (z ≡ pos n) × (as_u128 z ≡ n)
      cast (pos n) sign small = (n, refl, as_u128-pos n (in_i128-pos n small))
      cast (negsuc n) sign small = absurd (omega arith)

  -- Whatever the router does and reports, a fill that returns has paid the recipient all that it
  -- got, at least `min_out`, has given up exactly `amount_in` of the input while the router ran, and
  -- keeps none of the output: its balance of that token is what it was before. `v` and `u` are the
  -- states at the start of the conversion and before the payment.
  pub fill_exact :
      (assets : Assets h)
      → assets.IsAsset token_in
      → assets.IsAsset token_out
      → token_in ≢ token_out
      → e.this ≢ recipient
      → fill h routers e recipient token_in amount_in token_out min_out hint s ≡ done got t
      → (v u : World L) × (h.require_auth e recipient s.world ≡ some (tt, v))
        × (min_out ≤ℤ got)
        × (assets.held token_out e.this t.world.ledger ≡ assets.held token_out e.this v.ledger)
        × (assets.held token_in e.this t.world.ledger
            ≡ assets.held token_in e.this v.ledger -ℤ amount_in)
        × (assets.held token_out recipient t.world.ledger
            ≡ assets.held token_out recipient u.ledger +ℤ got)
        × ((before : List (Address × Event)) × (t.world.events
              ≡ (
                e.this,
                filled (fill_event h routers e recipient token_in amount_in token_out min_out got),
              )
                ∷ before))
  fill_exact assets is_in is_out differ apart p =
      let (r, c) = parts p in
      let (b, w1) = balance_read assets e.this token_out e.this r.w is_out c.before_read in
      let (ib, _) = balance_read assets e.this token_in e.this c.w1 is_in c.input_read in
      let (ia, w5) = balance_read assets e.this token_in e.this c.w4 is_in c.input_reread in
      let (a, w6) = balance_read assets e.this token_out e.this c.w5 is_out c.after_read in
      let world : t.world ≡ _ = ap (λ (v : State L). v.world) c.published in
      (
        r.w,
        c.w6,
        r.signed,
        c.enough,
        omega (
          int_laws,
          parts_of_eq _ _ (ap (λ (v : World L). assets.held token_out e.this v.ledger) world),
          parts_of_eq _ _ (assets.transfer_from _ _ _ _ _ _ _ is_out apart c.paid),
          parts_of_eq _ _ (ap (λ (v : World L). assets.held token_out e.this v.ledger) w6),
          parts_of_eq _ _ a,
          parts_of_eq _ _ b,
          parts_of_eq _ _ (checked_sub-some c.after c.before c.gained),
        ),
        omega (
          int_laws,
          parts_of_eq _ _ (ap (λ (v : World L). assets.held token_in e.this v.ledger) world),
          parts_of_eq _ _
              (assets.transfer_elsewhere _ _ _ _ _ _ _ token_in is_out is_in differ c.paid e.this),
          parts_of_eq _ _ (ap (λ (v : World L). assets.held token_in e.this v.ledger) (w6 ∙ w5)),
          parts_of_eq _ _ ia,
          parts_of_eq _ _ ib,
          parts_of_eq _ _ (ap (λ (v : World L). assets.held token_in e.this v.ledger) w1),
          parts_of_eq _ _ (checked_sub-some c.input_before c.input_after c.subtracted),
          parts_of_eq _ _ (eq_ℤ-true c.taken amount_in c.exact),
        ),
        ap (λ (v : World L). assets.held token_out recipient v.ledger) world
            ∙ assets.transfer_to _ _ _ _ _ _ _ is_out apart c.paid,
        (c.w7.events, ap (λ (v : World L). v.events) world),
      )
