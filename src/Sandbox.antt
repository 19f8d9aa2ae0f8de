-- ===== src/Sandbox.antt =====
-- A small concrete host for the examples: a ledger in memory, with an oracle, a filler and a router
-- that behave. The addresses and amounts are made up.
pub mod Promises
pub mod VaultExamples
pub mod PriceExamples
pub mod FactoryExamples
pub mod SettlementExamples
pub mod HistoryExamples
pub mod AccountExamples
pub mod ConversionExamples
pub mod FulfilmentExamples
pub mod LivenessExamples
pub mod LedgerExamples
pub mod FillerExamples
pub mod Scenarios
pub mod EvmChain
pub mod EvmExamples
pub mod EvmHistoryExamples
use crossmesh_ingress_contra.Prelude.{
  ℕ, ◌+◌, ◌-◌, ◌*◌, ◌&&◌, ◌||◌, Bool, true, false, Option, none, some, is_some, List, [], ◌∷◌, ltb,
  leb, ◌==◌, if◌then◌else◌,
}
use crossmesh_ingress_contra.Int.{ℤ, pos, negsuc, eq_ℤ}
use crossmesh_ingress_contra.Exec.{Call}
use crossmesh_ingress_contra.Interfaces.{
  Address, Hash, Bytes, OracleAsset, stellar, other, VaultConfig, PriceData, ReflectorClient,
  FillerClient, AquariusRouterClient,
}
use crossmesh_ingress_contra.Host.{
  Env, World, Host, TransferAuth, MuxedAddress, muxed_from, Executable, wasm, account, Decoded,
  not_xdr, other_value, hops,
}
use crossmesh_ingress_contra.Mocks.Oracle.{Prices, no_prices, write, priced, mock_oracle}
use crossmesh_ingress_contra.Mocks.{FillMode, pay_want, mock_filler, honest, mock_router}

pub record Ledger : Type 0 where
  -- the token first, then the holder
  pub holdings : Address → Address → ℕ
  pub code : Address → Option Hash
  pub now : ℕ
  pub signers : List Address
  -- the transfers that a contract permitted for the call that it makes next
  pub granted : List TransferAuth

abbrev pub among : Address → List Address → Bool
among a [] = false
among a (x ∷ l) = (a == x) || among a l

abbrev pub sum : List ℕ → ℕ
sum [] = 0
sum (x ∷ l) = x + sum l

abbrev pub derived : Address → Hash → Address
derived factory salt = factory * 1000 + salt

abbrev pub parse : Bytes → Option MuxedAddress
parse [] = none
parse (x ∷ l) = some (muxed_from x)

abbrev pub executable_of : Option Hash → Option Executable
executable_of none = some account
executable_of (some code) = some (wasm code)

abbrev pub move : Address → Address → ℕ → (Address → ℕ) → Address → ℕ
move from to n old a =
    if a == to
    then (if a == from then old a else old a + n)
    else (if a == from then old a - n else old a)

abbrev pub moved : Address → Address → Address → ℕ → World Ledger → World Ledger
moved token from to n w = record w {
  ledger = record w.ledger {
    holdings =
        λ t. if t == token then move from to n (w.ledger.holdings t) else w.ledger.holdings t;
  };
}

abbrev pub permits : Address → Address → Address → ℕ → List TransferAuth → Bool
permits token from to n [] = false
permits token from to n (a ∷ l) =
    ((a.contract == token) && (a.from == from) && (a.to == to) && eq_ℤ a.amount (pos n))
    || permits token from to n l

abbrev pub pay : Address → Address → Address → Address → ℤ → Call (World Ledger) Unit
pay c token from to (negsuc n) w = none
pay c token from to (pos n) w =
    if ((c == from) || permits token from to n w.ledger.granted)
      && leb n (w.ledger.holdings token from)
    then some (tt, moved token from to n w)
    else none

abbrev pub signs : Env → Address → Call (World Ledger) Unit
signs e a w =
    if (a == e.this)
      || among a w.ledger.signers
      || elim e.invoker [ none ↦ false | some c ↦ a == c ]
    then some (tt, w)
    else none

abbrev pub land : Address → Hash → World Ledger → World Ledger
land a code w = record w {
  ledger = record w.ledger { code = λ b. if b == a then some code else w.ledger.code b };
}

abbrev pub create : Address → Hash → Hash → Call (World Ledger) Address
create c salt code w =
    if is_some (w.ledger.code (derived c salt))
    then none
    else some (derived c salt, land (derived c salt) code w)

abbrev pub decoded : Bytes → Decoded
decoded [] = not_xdr
decoded (x ∷ []) = hops (some ([], 0, x) ∷ [])
decoded (x ∷ y ∷ l) = other_value

abbrev pub sandbox : Host Ledger
sandbox = record {
  sha256 = sum;
  deployed_address = derived;
  from_string_bytes = parse;
  timestamp = λ l. l.now;
  exists = λ a l. is_some (l.code a);
  executable = λ a l. executable_of (l.code a);
  require_auth = signs;
  deploy_contract = create;
  balance = λ c t a w. some (pos (w.ledger.holdings t a), w);
  transfer = λ c t a to n w. pay c t a to.address n w;
  authorize_as_current_contract =
      λ c auths w. some (tt, record w { ledger = record w.ledger { granted = auths } });
  from_xdr = decoded;
}

abbrev pub usdc : Address
usdc = 1

abbrev pub xlm : Address
xlm = 2

abbrev pub quotes : Prices
quotes =
    write (stellar usdc) (some (priced (pos 100) 990))
      (write (stellar xlm) (some (priced (pos 40) 990)) no_prices)

abbrev pub feed : ReflectorClient (World Ledger)
feed = mock_oracle quotes

-- The tests' filler, in one mode; the host refuses its call of a vault that is running.
abbrev pub filler_in : FillMode → FillerClient (World Ledger)
filler_in mode =
    mock_filler sandbox (λ caller vault owner factory token w. none)
      (record { mode = some mode; target = some (7 ∷ [], 6) })

abbrev pub paying : FillerClient (World Ledger)
paying = filler_in pay_want

-- Two for one.
abbrev pub exchange : AquariusRouterClient (World Ledger)
exchange = mock_router sandbox (pos 2) (pos 1) honest

abbrev pub config : VaultConfig
config = record {
  usdc = usdc;
  xlm = xlm;
  vault_wasm_hash = 77;
  oracle = 3;
  xlm_asset = stellar xlm;
  usdc_asset = stellar usdc;
  discount_ppm = 20_000;
  max_price_age = 300;
  min_delivery = pos 10;
}

abbrev pub admin : Address
admin = 4

abbrev pub relayer : Address
relayer = 5

abbrev pub factory : Address
factory = 6

abbrev pub owner : Bytes
owner = 7 ∷ []

abbrev pub filler : Address
filler = 8

abbrev pub router : Address
router = 9

-- the address that the factory derives for the owner
abbrev pub vault : Address
vault = 6007

-- The vault holds 80 USDC and 5 XLM, the filler 1000 XLM.
abbrev pub start : World Ledger
start = record {
  ledger = record {
    holdings = λ t a.
        if t == usdc
        then (if a == vault then 80 else 0)
        else (if a == vault
            then 5
            else (if a == filler then 1000 else (if a == router then 900 else 0)));
    code = λ a. if a == vault then some 77 else none;
    now = 1000;
    signers = admin ∷ relayer ∷ 7 ∷ [];
    granted = [];
  };
  events = [];
}

abbrev pub vault_frame : Env
vault_frame = record { this = vault; invoker = some factory }

abbrev pub factory_frame : Env
factory_frame = record { this = factory; invoker = none }
