-- ===== src/AquariusFiller.antt =====
-- contracts/aquarius-filler: converts the tokens that a vault hands over through the Aquarius
-- router. `e` is the frame that the filler runs in; the host and the router are parameters.
pub mod Run
pub mod Exactness
pub mod Refusals
pub mod Conversion
pub mod Complete
use crossmesh_ingress_contra.Prelude.{
  ℕ, Bool, false, ◌||◌, not, Option, none, some, List, [], ◌∷◌, ◌==◌,
}
use crossmesh_ingress_contra.Int.{ℤ, pos, ltb_ℤ, leb_ℤ, eq_ℤ}
use crossmesh_ingress_contra.Int.Checked.{checked_sub, as_u128}
use crossmesh_ingress_contra.Exec.{
  Exec, Outcome, done, err, trap, pure, gets, panic_if, unwrap, unwrap_or_panic, call, ◌>>=◌, ◌>>◌,
}
use crossmesh_ingress_contra.Interfaces.{
  Address, Hash, Bytes, AquariusHop, RawHop, FillerClient, AquariusRouterClient,
}
use crossmesh_ingress_contra.Events.{filled}
use crossmesh_ingress_contra.Host.{
  Env, World, Host, Executable, wasm, Decoded, not_xdr, other_value, hops, muxed_from,
}
use crossmesh_ingress_contra.Instance.{Instance, on_world, store, emit}

pub data FillerError : Type 0 where
  invalid_amount invalid_route empty_route route_token_mismatch : FillerError
  shortfall not_a_vault input_not_taken : FillerError

-- One field for each `DataKey`.
pub record Storage : Type 0 where
  pub router : Option Address
  pub vault_wasm : Option Hash

abbrev pub State : Type 0 → Type 0
State L = Instance L Storage

abbrev pub Action : Type 0 → Type 0 → Type 0
Action L A = Exec (State L) FillerError A

-- The arm of the `match` on `recipient.executable()` that passes.
abbrev pub runs_code : Option Executable → Hash → Bool
runs_code (some (wasm code)) vault_wasm = code == vault_wasm
runs_code _ vault_wasm = false

-- `chain.last()`
abbrev pub last {ℓ} : {A : Type ℓ} → List A → Option A
last [] = none
last (x ∷ []) = some x
last (x ∷ y ∷ l) = last (y ∷ l)

module _ {L : Type 0} where
  -- `__constructor`
  unfoldable pub constructor : Env → Address → Hash → Action L Unit
  constructor e router vault_wasm_hash = do
    store (λ s. record s { router = some router })
    store (λ s. record s { vault_wasm = some vault_wasm_hash })
    pure tt

  unfoldable pub read_router : Action L Address
  read_router = do stored ← gets (λ s. s.storage.router); unwrap stored

  -- the entry point `router`
  unfoldable pub router_of : Action L Address
  router_of = read_router

  unfoldable pub vault_wasm : Action L Hash
  vault_wasm = do stored ← gets (λ s. s.storage.vault_wasm); unwrap stored

  -- `Vec::from_xdr(..).unwrap_or_else(..)`
  unfoldable pub decode : Decoded → Action L (List RawHop)
  decode not_xdr s = trap
  decode other_value s = err invalid_route
  decode (hops chain) s = done chain s

module _ {L : Type 0} (h : Host L) (routers : AquariusRouterClient (World L)) where
  -- `fill` from the read of the router on, for a call that passed the checks.
  unfoldable pub convert : Env → Address → Address → ℤ → Address → ℤ → List RawHop → Action L ℤ
  convert e recipient token_in amount_in token_out min_out chain = do
    router ← read_router
    before ← call (on_world (h.balance e.this token_out e.this))
    input_before ← call (on_world (h.balance e.this token_in e.this))
    call (
        on_world (
          h.authorize_as_current_contract e.this
            (record { contract = token_in; from = e.this; to = router; amount = amount_in } ∷ [])))
    reported ← call (
        on_world (
          routers.swap_chained e.this router e.this chain token_in (as_u128 amount_in)
            (as_u128 min_out)))
    input_after ← call (on_world (h.balance e.this token_in e.this))
    taken ← unwrap (checked_sub input_before input_after)
    panic_if (not (eq_ℤ taken amount_in)) input_not_taken
    after ← call (on_world (h.balance e.this token_out e.this))
    got ← unwrap (checked_sub after before)
    panic_if (ltb_ℤ got min_out) shortfall
    call (on_world (h.transfer e.this token_out e.this (muxed_from recipient) got))
    emit e (
        filled (record {
          recipient = recipient;
          token_in = token_in;
          token_out = token_out;
          amount_in = amount_in;
          amount_out = got;
        }))
    pure got

  unfoldable pub fill : Env → Address → Address → ℤ → Address → ℤ → Bytes → Action L ℤ
  fill e recipient token_in amount_in token_out min_out hint = do
    call (on_world (h.require_auth e recipient))
    code ← vault_wasm
    running ← gets (λ s. h.executable recipient s.world.ledger)
    panic_if (not (runs_code running code)) not_a_vault
    panic_if (leb_ℤ amount_in (pos 0) || ltb_ℤ min_out (pos 0)) invalid_amount
    chain ← decode (h.from_xdr hint)
    raw ← unwrap_or_panic (last chain) empty_route
    hop ← unwrap raw
    panic_if (not (hop.2 == token_out)) route_token_mismatch
    convert e recipient token_in amount_in token_out min_out chain

  -- The filler as a vault calls it: the code at `filler` runs in a frame of its own, on its storage.
  abbrev pub as_filler : Storage → FillerClient (World L)
  as_filler storage = record {
    fill = λ caller filler recipient token_in amount_in token_out min_out hint w.
        elim (fill (record { this = filler; invoker = some caller }) recipient token_in amount_in
          token_out min_out hint (record { world = w; storage = storage })) [
            | done got t ↦ some (got, t.world)
            | err e ↦ none
            | trap ↦ none
          ];
  }
