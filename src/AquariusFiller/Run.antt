-- ===== src/AquariusFiller/Run.antt =====
-- What a successful `fill` of contracts/aquarius-filler did, call by call.
use crossmesh_ingress_contra.Prelude.{
  ℕ, ◌≡◌, refl, true, Option, some, List, [], ◌∷◌, arith, not-false, ==→eq,
}
use crossmesh_ingress_contra.Int.{ℤ, pos, ◌≤ℤ◌, eq_ℤ}
use crossmesh_ingress_contra.Int.Checked.{checked_sub, as_u128}
use crossmesh_ingress_contra.Exec.{done}
use crossmesh_ingress_contra.Exec.Ensures.{
  Ensures, Ensures-bind, Ensures-gets, Ensures-last_unwrap, Ensures-modify, Ensures-panic_if,
  Ensures-pure, Ensures-unwrap, Ensures-unwrap_or_panic,
}
use crossmesh_ingress_contra.Interfaces.{
  Address, Hash, Bytes, AquariusHop, RawHop, AquariusRouterClient,
}
use crossmesh_ingress_contra.Events.{Filled, filled}
use crossmesh_ingress_contra.Host.{
  Env, World, Host, Executable, wasm, Decoded, not_xdr, other_value, hops, muxed_from, publish,
}
use crossmesh_ingress_contra.Instance.Rules.{Ensures-on_world}
use crossmesh_ingress_contra.AquariusFiller.{
  State, runs_code, last, read_router, vault_wasm, decode, convert, fill,
}

module _ {L : Type 0} where
  pub read_router-Ensures :
      (s : State L) → Ensures (λ r t. (s.storage.router ≡ some r) × (t ≡ s)) (read_router s)
  unfolding read_router
  read_router-Ensures s =
      Ensures-gets _ _ _ _ (Ensures-last_unwrap _ _ _ λ r stored. (stored, refl))

  pub vault_wasm-Ensures :
      (s : State L) → Ensures (λ c t. (s.storage.vault_wasm ≡ some c) × (t ≡ s)) (vault_wasm s)
  unfolding vault_wasm
  vault_wasm-Ensures s = Ensures-gets _ _ _ _ (Ensures-last_unwrap _ _ _ λ c stored. (stored, refl))

  pub decode-Ensures :
      (d : Decoded) (s : State L) → Ensures (λ chain t. (d ≡ hops chain) × (t ≡ s)) (decode d s)
  unfolding decode
  decode-Ensures not_xdr s = record { at = λ c t p. cc }
  decode-Ensures other_value s = record { at = λ c t p. cc }
  decode-Ensures (hops chain) s = record { at = λ c t p. (cc, cc) }

pub runs_code-true :
    (running : Option Executable) (code : Hash)
    → runs_code running code ≡ true
    → running ≡ some (wasm code)
runs_code-true running code h = ground arith

module _ {L : Type 0} (h : Host L) (routers : AquariusRouterClient (World L)) (e : Env)
    (recipient token_in : Address) (amount_in : ℤ) (token_out : Address) (min_out : ℤ) where
  abbrev pub fill_event : ℤ → Filled
  fill_event got = record {
    recipient = recipient;
    token_in = token_in;
    token_out = token_out;
    amount_in = amount_in;
    amount_out = got;
  }

  pub record ConvertRun (chain : List RawHop) (s : State L) (got : ℤ) (t : State L) : Type 0 where
    pub router : Address
    pub before : ℤ
    pub input_before : ℤ
    pub reported : ℕ
    pub input_after : ℤ
    pub taken : ℤ
    pub after : ℤ
    pub w1 : World L
    pub w2 : World L
    pub w3 : World L
    pub w4 : World L
    pub w5 : World L
    pub w6 : World L
    pub w7 : World L
    pub routed : s.storage.router ≡ some router
    pub before_read : h.balance e.this token_out e.this s.world ≡ some (before, w1)
    pub input_read : h.balance e.this token_in e.this w1 ≡ some (input_before, w2)
    pub permitted :
        h.authorize_as_current_contract e.this
          (record { contract = token_in; from = e.this; to = router; amount = amount_in } ∷ [])
          w2
        ≡ some (tt, w3)
    pub swapped :
        routers.swap_chained e.this router e.this chain token_in
          (as_u128 amount_in)
          (as_u128 min_out)
          w3
        ≡ some (reported, w4)
    pub input_reread : h.balance e.this token_in e.this w4 ≡ some (input_after, w5)
    pub subtracted : checked_sub input_before input_after ≡ some taken
    pub exact : eq_ℤ taken amount_in ≡ true
    pub after_read : h.balance e.this token_out e.this w5 ≡ some (after, w6)
    pub gained : checked_sub after before ≡ some got
    pub enough : min_out ≤ℤ got
    pub paid : h.transfer e.this token_out e.this (muxed_from recipient) got w6 ≡ some (tt, w7)
    pub published : t ≡ record s { world = publish e (filled (fill_event got)) w7 }

  pub convert-ConvertRun :
      (chain : List RawHop) (s : State L)
      → Ensures
          (ConvertRun chain s)
          (convert h routers e recipient token_in amount_in token_out min_out chain s)
  unfolding convert
  convert-ConvertRun chain s =
      Ensures-bind _ _ _ _ _ (read_router-Ensures s) λ router s1 (routed, same). rw same (
        Ensures-on_world _ _ _ _ λ before w1 before_read.
          Ensures-on_world _ _ _ _ λ input_before w2 input_read.
            Ensures-on_world _ _ _ _ λ _ w3 permitted.
              Ensures-on_world _ _ _ _ λ reported w4 swapped.
                Ensures-on_world _ _ _ _ λ input_after w5 input_reread.
                  Ensures-unwrap _ _ _ _ λ taken subtracted. Ensures-panic_if _ _ _ _ _ λ exact.
                    Ensures-on_world _ _ _ _ λ after w6 after_read.
                      Ensures-unwrap _ _ _ _ λ got gained. Ensures-panic_if _ _ _ _ _ λ enough.
                        Ensures-on_world _ _ _ _ λ _ w7 paid. Ensures-modify _ _ _ _ (
                          Ensures-pure _ _ _ (record {
                            router = router;
                            before = before;
                            input_before = input_before;
                            reported = reported;
                            input_after = input_after;
                            taken = taken;
                            after = after;
                            w1 = w1;
                            w2 = w2;
                            w3 = w3;
                            w4 = w4;
                            w5 = w5;
                            w6 = w6;
                            w7 = w7;
                            routed = routed;
                            before_read = before_read;
                            input_read = input_read;
                            permitted = permitted;
                            swapped = swapped;
                            input_reread = input_reread;
                            subtracted = subtracted;
                            exact = ground arith;
                            after_read = after_read;
                            gained = gained;
                            enough = ground arith;
                            paid = paid;
                            published = refl;
                          })))

  -- The checks in front of the conversion, and the conversion.
  pub record FillRun (hint : Bytes) (s : State L) (got : ℤ) (t : State L) : Type 0 where
    pub code : Hash
    pub chain : List RawHop
    pub hop : AquariusHop
    pub w : World L
    pub signed : h.require_auth e recipient s.world ≡ some (tt, w)
    pub served : s.storage.vault_wasm ≡ some code
    pub running : h.executable recipient w.ledger ≡ some (wasm code)
    pub positive : pos 1 ≤ℤ amount_in
    pub nonneg : pos 0 ≤ℤ min_out
    pub decoded : h.from_xdr hint ≡ hops chain
    pub ends : last chain ≡ some (some hop)
    pub ends_in : hop.2 ≡ token_out
    pub converted :
        convert h routers e recipient token_in amount_in token_out min_out chain
          (record s { world = w })
        ≡ done got t

  pub fill-FillRun :
      (hint : Bytes) (s : State L)
      → Ensures
          (FillRun hint s)
          (fill h routers e recipient token_in amount_in token_out min_out hint s)
  unfolding fill
  fill-FillRun hint s = Ensures-on_world _ _ _ _ λ _ w signed.
      Ensures-bind _ _ _ _ _ (vault_wasm-Ensures _) λ code s1 (served, same). rw same (
        Ensures-gets _ _ _ _ (
          Ensures-panic_if _ _ _ _ _ λ vault. Ensures-panic_if _ _ _ _ _ λ amounts.
            Ensures-bind _ _ _ _ _ (decode-Ensures _ _) λ chain s2 (decoded, unchanged).
              rw unchanged (
                Ensures-unwrap_or_panic _ _ _ _ _ λ raw ends. Ensures-unwrap _ _ _ _ λ hop read.
                  Ensures-panic_if _ _ _ _ _ λ matching. record {
                    at = λ got t converted. record {
                      code = code;
                      chain = chain;
                      hop = hop;
                      w = w;
                      signed = signed;
                      served = served;
                      running = runs_code-true _ _ (not-false _ vault);
                      positive = ground arith;
                      nonneg = ground arith;
                      decoded = decoded;
                      ends = rw read at ends;
                      ends_in = ==→eq _ _ (not-false _ matching);
                      converted = converted;
                    };
                  })))
