-- ===== src/AquariusFiller/Complete.antt =====
-- `fill` of contracts/aquarius-filler as the sequence of its calls and checks.
use crossmesh_ingress_contra.Prelude.{◌≡◌, refl, sym, ap, ◌∙◌, ◌↔◌, not, List}
use crossmesh_ingress_contra.Int.{not_below, ℤ}
use crossmesh_ingress_contra.Exec.{done, pure, ◌>>=◌}
use crossmesh_ingress_contra.Exec.Steps.{call_step, panic_if_step, unwrap_step}
use crossmesh_ingress_contra.Interfaces.{Address, Bytes, RawHop, AquariusRouterClient}
use crossmesh_ingress_contra.Events.{filled}
use crossmesh_ingress_contra.Host.{Env, World, Host, muxed_from, publish}
use crossmesh_ingress_contra.Instance.{emit}
use crossmesh_ingress_contra.Instance.Rules.{on_world_returns}
use crossmesh_ingress_contra.AquariusFiller.{State, FillerError, convert, fill}
use crossmesh_ingress_contra.AquariusFiller.Run.{
  ConvertRun, convert-ConvertRun, FillRun, fill-FillRun, fill_event,
}
use crossmesh_ingress_contra.AquariusFiller.Conversion.{Started, started, Converted, converted}

module _ {L : Type 0} (h : Host L) (routers : AquariusRouterClient (World L)) (e : Env)
    (recipient token_in : Address) (amount_in : ℤ) (token_out : Address) (min_out : ℤ)
    (hint : Bytes) (s : State L) where
  abbrev at_world : World L → State L
  at_world w = record s { world = w }

  module _ (got : ℤ) (t : State L) where
    abbrev Checks : Type 0
    Checks = FillRun h routers e recipient token_in amount_in token_out min_out hint s got t

    abbrev Calls : List RawHop → World L → Type 0
    Calls chain w =
        ConvertRun h routers e recipient token_in amount_in token_out min_out chain (at_world w) got
          t

    FillRun-Started :
        (r : Checks)
        → Started h routers e recipient token_in amount_in token_out min_out hint s r.chain r.w
    FillRun-Started r = record {
      accepted = record {
        code = r.code;
        stored = r.served;
        signed = r.signed;
        running = r.running;
        positive = r.positive;
        nonneg = r.nonneg;
      };
      hop = r.hop;
      decoded = r.decoded;
      ends = r.ends;
      ends_in = r.ends_in;
    }

    ConvertRun-Converted :
        {chain : List RawHop} {w : World L} (c : Calls chain w)
        → Converted h routers e recipient token_in amount_in token_out min_out hint s chain w
            c.before c.input_before c.w4
    ConvertRun-Converted c = record {
      router = c.router;
      reported = c.reported;
      w1 = c.w1;
      w2 = c.w2;
      w3 = c.w3;
      routed = c.routed;
      before_read = c.before_read;
      input_read = c.input_read;
      permitted = c.permitted;
      swapped = c.swapped;
    }

    last_event :
        (w : World L)
        → (emit {E = FillerError} e
                (filled (fill_event h routers e recipient token_in amount_in token_out min_out got))
              >>= λ _. pure got)
            (at_world w)
          ≡ done got (
              at_world (
                publish e
                  (filled
                    (fill_event h routers e recipient token_in amount_in token_out min_out got))
                  w))
    last_event w = unfold ◌>>=◌ in refl

    -- `Started` names the checks in front of a conversion and `ConvertRun` every call and check of
    -- the conversion, in order: a fill returns `got` in the state `t` exactly when there is a route
    -- for which both hold.
    pub fill_iff :
        (fill h routers e recipient token_in amount_in token_out min_out hint s ≡ done got t) ↔ (
          (chain : List RawHop) × (w : World L) × Started h routers e recipient token_in amount_in
            token_out min_out hint s chain w
          × ConvertRun h routers e recipient token_in amount_in token_out min_out chain
              (record s { world = w })
              got
              t)
    unfolding convert
    fill_iff = (
      λ p.
          let r =
            (fill-FillRun h routers e recipient token_in amount_in token_out min_out hint s).at got
              t p in
          (
            r.chain,
            r.w,
            FillRun-Started r,
            (convert-ConvertRun h routers e recipient token_in amount_in token_out min_out r.chain
                  (record s { world = r.w })).at
                got t r.converted,
          ),
      λ (chain, w, start, c).
          started h routers e recipient token_in amount_in token_out min_out hint s start
          ∙ converted h routers e recipient token_in amount_in token_out min_out hint s _
              (ConvertRun-Converted c)
          ∙ call_step _ _ _
              (on_world_returns (h.balance e.this token_in e.this) (at_world c.w4) c.input_reread)
          ∙ unwrap_step _ _ _ c.subtracted
          ∙ panic_if_step _ _ _ _ (ap not c.exact)
          ∙ call_step _ _ _
              (on_world_returns (h.balance e.this token_out e.this) (at_world c.w5) c.after_read)
          ∙ unwrap_step _ _ _ c.gained
          ∙ panic_if_step _ _ _ _ (not_below got min_out c.enough)
          ∙ call_step _ _ _ (
              on_world_returns (h.transfer e.this token_out e.this (muxed_from recipient) got)
                (at_world c.w6) c.paid)
          ∙ last_event c.w7
          ∙ ap (done got) (sym c.published),
    )
