-- ===== src/AquariusFiller/Refusals.antt =====
-- The calls that `fill` of contracts/aquarius-filler refuses before it touches any token.
use crossmesh_ingress_contra.Prelude.{
  ◌≡◌, ◌≢◌, refl, ap, ◌∙◌, ◌⊎◌, true, false, not, ◌||◌, none, some, List, arith, Option,
}
use crossmesh_ingress_contra.Int.{ℤ, pos, ◌≤ℤ◌, ◌<ℤ◌, ltb_ℤ, leb_ℤ}
use crossmesh_ingress_contra.Exec.{Outcome, done, err, trap, call, gets, panic_if, ◌>>=◌}
use crossmesh_ingress_contra.Exec.Steps.{
  bind_step, bind_err, bind_trap, call_step, call_trap, gets_step, panic_if_step, panic_if_err,
  unwrap_step, unwrap_trap, unwrap_or_panic_step, unwrap_or_panic_err,
}
use crossmesh_ingress_contra.Interfaces.{
  Address, Hash, Bytes, AquariusHop, RawHop, AquariusRouterClient,
}
use crossmesh_ingress_contra.Host.{Env, World, Host, Executable, wasm, not_xdr, other_value, hops}
use crossmesh_ingress_contra.Instance.{on_world}
use crossmesh_ingress_contra.Instance.Rules.{on_world_returns, on_world_fails}
use crossmesh_ingress_contra.AquariusFiller.{
  State, Action, FillerError, invalid_amount, invalid_route, empty_route, route_token_mismatch,
  not_a_vault, runs_code, last, vault_wasm, decode, fill,
}

runs_code-false :
    (running : Option Executable) (code : Hash)
    → running ≢ some (wasm code)
    → runs_code running code ≡ false
runs_code-false running code ne = ground arith

runs_code_self : (code : Hash) → runs_code (some (wasm code)) code ≡ true
runs_code_self code = ground arith

module _ {L : Type 0} (h : Host L) (routers : AquariusRouterClient (World L)) (e : Env)
    (recipient token_in : Address) (amount_in : ℤ) (token_out : Address) (min_out : ℤ)
    (hint : Bytes) (s : State L) where
  vault_wasm_returns :
      (w : World L) {code : Hash}
      → s.storage.vault_wasm ≡ some code
      → vault_wasm (record s { world = w }) ≡ done code (record s { world = w })
  unfolding vault_wasm ◌>>=◌
  vault_wasm_returns w p = rw p

  passes :
      {running : Option Executable} {code : Hash}
      → running ≡ some (wasm code)
      → not (runs_code running code) ≡ false
  passes {running} {code} p = ap (λ x. not (runs_code x code)) p ∙ ap not (runs_code_self code)

  abbrev at_world : World L → State L
  at_world w = record s { world = w }

  bounds :
      pos 1 ≤ℤ amount_in
      → pos 0 ≤ℤ min_out
      → (leb_ℤ amount_in (pos 0) || ltb_ℤ min_out (pos 0)) ≡ false
  bounds positive nonneg = ground arith

  decode_returns :
      (w : World L) {chain : List RawHop}
      → h.from_xdr hint ≡ hops chain
      → decode (h.from_xdr hint) (at_world w) ≡ done chain (at_world w)
  unfolding decode
  decode_returns w p = ap (λ d. decode d (at_world w)) p

  -- The recipient authorized the call and runs the vault code, and the amounts pass.
  pub record Accepted (w : World L) : Type 0 where
    pub code : Hash
    pub stored : s.storage.vault_wasm ≡ some code
    pub signed : h.require_auth e recipient s.world ≡ some (tt, w)
    pub running : h.executable recipient w.ledger ≡ some (wasm code)
    pub positive : pos 1 ≤ℤ amount_in
    pub nonneg : pos 0 ≤ℤ min_out

  -- The first steps, in front of whatever follows.
  module _ {A : Type 0} (k : Hash → Option Executable → Action L A) where
    pub look :
        (w : World L) {code : Hash}
        → s.storage.vault_wasm ≡ some code
        → h.require_auth e recipient s.world ≡ some (tt, w)
        → (call (on_world (h.require_auth e recipient)) >>= λ _.
              vault_wasm >>= λ c. gets (λ t. h.executable recipient t.world.ledger) >>= k c)
            s
          ≡ k code (h.executable recipient w.ledger) (at_world w)
    look w stored signed =
        call_step _ _ _ (on_world_returns (h.require_auth e recipient) s signed)
        ∙ bind_step _ _ _ (vault_wasm_returns w stored)
        ∙ gets_step _ _ _

  module _ {A : Type 0} (k : Action L A) where
    pub accept :
        {w : World L}
        → Accepted w
        → (call (on_world (h.require_auth e recipient)) >>= λ _. vault_wasm >>= λ c.
              gets (λ t. h.executable recipient t.world.ledger) >>= λ r.
              panic_if (not (runs_code r c)) not_a_vault >>= λ _.
              panic_if (leb_ℤ amount_in (pos 0) || ltb_ℤ min_out (pos 0)) invalid_amount >>= λ _. k)
            s
          ≡ k (at_world w)
    accept {w} r =
        look _ w r.stored r.signed
        ∙ panic_if_step _ _ _ _ (passes r.running)
        ∙ panic_if_step _ _ _ _ (bounds r.positive r.nonneg)

  module _ {A : Type 0} (k : List RawHop → Action L A) where
    pub reads :
        (w : World L) {chain : List RawHop}
        → h.from_xdr hint ≡ hops chain
        → (decode (h.from_xdr hint) >>= k) (at_world w) ≡ k chain (at_world w)
    reads w decoded = bind_step _ _ _ (decode_returns w decoded)

  pub data FillFails : Outcome (State L) FillerError ℤ → Type 0 where
    unsigned : h.require_auth e recipient s.world ≡ none → FillFails trap
    stranger :
        (code : Hash) (w : World L)
        → s.storage.vault_wasm ≡ some code
        → h.require_auth e recipient s.world ≡ some (tt, w)
        → h.executable recipient w.ledger ≢ some (wasm code)
        → FillFails (err not_a_vault)
    bad_amount :
        (code : Hash) (w : World L)
        → s.storage.vault_wasm ≡ some code
        → h.require_auth e recipient s.world ≡ some (tt, w)
        → h.executable recipient w.ledger ≡ some (wasm code)
        → (amount_in ≤ℤ pos 0) ⊎ (min_out <ℤ pos 0)
        → FillFails (err invalid_amount)
    garbled : (w : World L) → Accepted w → h.from_xdr hint ≡ not_xdr → FillFails trap
    no_route :
        (w : World L) → Accepted w → h.from_xdr hint ≡ other_value → FillFails (err invalid_route)
    no_hops :
        (w : World L) (chain : List RawHop)
        → Accepted w
        → h.from_xdr hint ≡ hops chain
        → last chain ≡ none
        → FillFails (err empty_route)
    no_hop :
        (w : World L) (chain : List RawHop)
        → Accepted w
        → h.from_xdr hint ≡ hops chain
        → last chain ≡ some none
        → FillFails trap
    other_token :
        (w : World L) (chain : List RawHop) (hop : AquariusHop)
        → Accepted w
        → h.from_xdr hint ≡ hops chain
        → last chain ≡ some (some hop)
        → hop.2 ≢ token_out
        → FillFails (err route_token_mismatch)

  -- The calls that are refused before any token is touched. Without its authorization no recipient
  -- is served; nor is one that does not run the vault code, whoever signed; nor an amount that is
  -- not positive, or a negative minimum. After that the route decides: bytes that are not XDR trap
  -- and another value is refused, as is a route with no hops; a last element that is no hop traps,
  -- and one that obtains another token is refused.
  pub fill_fails :
      (o : Outcome (State L) FillerError ℤ)
      → FillFails o
      → fill h routers e recipient token_in amount_in token_out min_out hint s ≡ o
  unfolding fill decode
  fill_fails _ (unsigned denied) =
      call_trap _ _ _ (on_world_fails (h.require_auth e recipient) s denied)
  fill_fails _ (stranger code w stored signed other) =
      look _ w stored signed ∙ panic_if_err _ _ _ _ (ap not (runs_code-false _ code other))
  fill_fails _ (bad_amount code w stored signed running bad) =
      look _ w stored signed
      ∙ panic_if_step _ _ _ _ (passes running)
      ∙ panic_if_err _ _ _ _ (ground arith)
  fill_fails _ (garbled w r bad) =
      accept _ r ∙ bind_trap _ _ _ (ap (λ d. decode d (record s { world = w })) bad)
  fill_fails _ (no_route w r bad) =
      accept _ r ∙ bind_err _ _ _ (ap (λ d. decode d (record s { world = w })) bad)
  fill_fails _ (no_hops w chain r decoded empty) =
      accept _ r ∙ reads _ w decoded ∙ unwrap_or_panic_err _ _ _ _ empty
  fill_fails _ (no_hop w chain r decoded raw) =
      accept _ r ∙ reads _ w decoded ∙ unwrap_or_panic_step _ _ _ _ raw ∙ unwrap_trap _ _ _ refl
  fill_fails _ (other_token w chain hop r decoded ends other) =
      accept _ r
      ∙ reads _ w decoded
      ∙ unwrap_or_panic_step _ _ _ _ ends
      ∙ unwrap_step _ _ _ refl
      ∙ panic_if_err _ _ _ _ (ground arith)
