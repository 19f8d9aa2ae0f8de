-- ===== src/AquariusFiller/Conversion.antt =====
-- How `fill` of contracts/aquarius-filler starts: the checks, and the calls up to the router's.
use crossmesh_ingress_contra.Prelude.{
  ℕ, ◌≡◌, refl, ◌∙◌, false, not, some, List, [], ◌∷◌, arith, ◌==◌,
}
use crossmesh_ingress_contra.Int.{ℤ}
use crossmesh_ingress_contra.Int.Checked.{as_u128}
use crossmesh_ingress_contra.Exec.{done, call, ◌>>=◌}
use crossmesh_ingress_contra.Exec.Steps.{
  bind_step, call_step, panic_if_step, unwrap_step, unwrap_or_panic_step,
}
use crossmesh_ingress_contra.Interfaces.{Address, Bytes, AquariusHop, RawHop, AquariusRouterClient}
use crossmesh_ingress_contra.Host.{Env, World, Host, hops}
use crossmesh_ingress_contra.Instance.{on_world}
use crossmesh_ingress_contra.Instance.Rules.{on_world_returns}
use crossmesh_ingress_contra.AquariusFiller.{State, Action, last, read_router, convert, fill}
use crossmesh_ingress_contra.AquariusFiller.Refusals.{Accepted, accept, reads}

same_token : (a b : ℕ) → a ≡ b → not (a == b) ≡ false
same_token a b h = ground arith

module _ {L : Type 0} (h : Host L) (routers : AquariusRouterClient (World L)) (e : Env)
    (recipient token_in : Address) (amount_in : ℤ) (token_out : Address) (min_out : ℤ)
    (hint : Bytes) (s : State L) where
  -- The checks passed in the world `w`, and the hint is the route `chain`.
  pub record Started (chain : List RawHop) (w : World L) : Type 0 where
    pub accepted : Accepted h routers e recipient token_in amount_in token_out min_out hint s w
    pub hop : AquariusHop
    pub decoded : h.from_xdr hint ≡ hops chain
    pub ends : last chain ≡ some (some hop)
    pub ends_in : hop.2 ≡ token_out

  abbrev at_world : World L → State L
  at_world w = record s { world = w }

  pub started :
      {chain : List RawHop} {w : World L}
      → Started chain w
      → fill h routers e recipient token_in amount_in token_out min_out hint s
        ≡ convert h routers e recipient token_in amount_in token_out min_out chain
            (record s { world = w })
  unfolding fill
  started {chain} {w} r =
      accept h routers e recipient token_in amount_in token_out min_out hint s _ r.accepted
      ∙ reads h routers e recipient token_in amount_in token_out min_out hint s _ w r.decoded
      ∙ unwrap_or_panic_step _ _ _ _ r.ends
      ∙ unwrap_step _ _ _ refl
      ∙ panic_if_step _ _ _ _ (same_token _ _ r.ends_in)

  read_router_returns :
      (w : World L) {router : Address}
      → s.storage.router ≡ some router
      → read_router (record s { world = w }) ≡ done router (record s { world = w })
  unfolding read_router ◌>>=◌
  read_router_returns w p = rw p

  -- The router ran: `before` and `input_before` were read, and `w` is the state it left.
  pub record Converted (chain : List RawHop) (s0 : World L) (before input_before : ℤ) (w : World L)
      : Type 0 where
    pub router : Address
    pub reported : ℕ
    pub w1 : World L
    pub w2 : World L
    pub w3 : World L
    pub routed : s.storage.router ≡ some router
    pub before_read : h.balance e.this token_out e.this s0 ≡ some (before, w1)
    pub input_read : h.balance e.this token_in e.this w1 ≡ some (input_before, w2)
    pub permitted :
        h.authorize_as_current_contract e.this
          (record { contract = token_in; from = e.this; to = router; amount = amount_in } ∷ [])
          w2
        ≡ some (tt, w3)
    pub swapped :
        routers.swap_chained e.this router e.this chain token_in
          (as_u128 amount_in)
          (as_u128 min_out)
          w3
        ≡ some (reported, w)

  module _ {A : Type 0} (k : ℤ → ℤ → Action L A) where
    pub converted :
        {chain : List RawHop} {s0 : World L} {before input_before : ℤ} {w : World L}
        → Converted chain s0 before input_before w
        → (read_router >>= λ router.
              call (on_world (h.balance e.this token_out e.this)) >>= λ before.
              call (on_world (h.balance e.this token_in e.this)) >>= λ input_before.
              call (
                on_world (
                  h.authorize_as_current_contract e.this (
                    record { contract = token_in; from = e.this; to = router; amount = amount_in }
                    ∷ [])))
              >>= λ _.
                  call (
                    on_world (
                      routers.swap_chained e.this router e.this chain token_in
                        (as_u128 amount_in)
                        (as_u128 min_out)))
                  >>= λ _. k before input_before)
            (record s { world = s0 })
          ≡ k before input_before (record s { world = w })
    converted {chain} {s0} r =
        bind_step _ _ _ (read_router_returns s0 r.routed)
        ∙ call_step _ _ _
            (on_world_returns (h.balance e.this token_out e.this) (at_world s0) r.before_read)
        ∙ call_step _ _ _
            (on_world_returns (h.balance e.this token_in e.this) (at_world r.w1) r.input_read)
        ∙ call_step _ _ _ (
            on_world_returns
              (h.authorize_as_current_contract e.this (
                record { contract = token_in; from = e.this; to = r.router; amount = amount_in }
                ∷ []))
              (at_world r.w2) r.permitted)
        ∙ call_step _ _ _ (
            on_world_returns
              (routers.swap_chained e.this r.router e.this chain token_in (as_u128 amount_in)
                (as_u128 min_out))
              (at_world r.w3) r.swapped)
