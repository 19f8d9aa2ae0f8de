-- ===== src/Vault/Run.antt =====
-- What a successful `swap` of contracts/vault did, call by call.
use crossmesh_ingress_contra.Prelude.{ℕ, suc, ◌≡◌, refl, false, some, arith}
use crossmesh_ingress_contra.Int.{ℤ, pos, ◌≤ℤ◌, leb_ℤ, pos_of_lt}
use crossmesh_ingress_contra.Int.Checked.{checked_sub}
use crossmesh_ingress_contra.Exec.{done}
use crossmesh_ingress_contra.Exec.Ensures.{
  Ensures, Ensures-bind, Ensures-call, Ensures-unwrap_or_panic, Ensures-panic_if, Ensures-modify,
  Ensures-pure,
}
use crossmesh_ingress_contra.Interfaces.{Address, Bytes, VaultConfig, ReflectorClient, FillerClient}
use crossmesh_ingress_contra.Events.{Swapped, swapped}
use crossmesh_ingress_contra.Host.{Env, World, Host, MuxedAddress, muxed_from, publish}
use crossmesh_ingress_contra.Vault.{Floor, max_ℤ, oracle_floor, swap}
use crossmesh_ingress_contra.Vault.OracleFloor.{Computed, oracle_floor-Computed}
use crossmesh_ingress_contra.Vault.Identity.{require_this_vault-Recognised}

module _ {L : Type 0} (h : Host L) (oracle : ReflectorClient (World L))
    (fillers : FillerClient (World L)) (e : Env) (owner : Bytes) (factory relayer filler : Address)
    (amount min_out : ℤ) (hint : Bytes) (config : VaultConfig) (w : World L) where
  -- The event of a swap.
  abbrev pub swap_event : MuxedAddress → Floor → ℤ → ℤ → Swapped
  swap_event m f delta after = record {
    owner = m.address;
    owner_strkey = owner;
    relayer = relayer;
    filler = filler;
    amount_in = amount;
    amount_out = delta;
    paid_out = after;
    floor = f.floor;
    want = max_ℤ min_out f.floor;
    xlm_price = f.xlm_price;
    usdc_price = f.usdc_price;
    discount_ppm = config.discount_ppm;
  }

  pub record SwapRun (delta : ℤ) (w' : World L) : Type 0 where
    pub owner_muxed : MuxedAddress
    pub n : ℕ
    pub usdc_held : ℤ
    pub f : Floor
    pub before : ℤ
    pub reported : ℤ
    pub after : ℤ
    pub w1 : World L
    pub w2 : World L
    pub w3 : World L
    pub w4 : World L
    pub w5 : World L
    pub w6 : World L
    pub w7 : World L
    pub w8 : World L
    pub derived : h.deployed_address factory (h.sha256 owner) ≡ e.this
    pub parsed : h.from_string_bytes owner ≡ some owner_muxed
    pub authorized : h.require_auth e factory w ≡ some (tt, w1)
    pub positive : amount ≡ pos (suc n)
    pub usdc_read : h.balance e.this config.usdc e.this w1 ≡ some (usdc_held, w2)
    pub covered : amount ≤ℤ usdc_held
    pub computed : Computed h oracle e config (suc n) w2 f
    pub floored : oracle_floor h oracle e config amount w2 ≡ done f w3
    pub enough : config.min_delivery ≤ℤ max_ℤ min_out f.floor
    pub before_read : h.balance e.this config.xlm e.this w3 ≡ some (before, w4)
    pub handed : h.transfer e.this config.usdc e.this (muxed_from filler) amount w4 ≡ some (tt, w5)
    pub filled :
        fillers.fill e.this filler e.this config.usdc amount config.xlm
          (max_ℤ min_out f.floor)
          hint
          w5
        ≡ some (reported, w6)
    pub after_read : h.balance e.this config.xlm e.this w6 ≡ some (after, w7)
    pub counted : checked_sub after before ≡ some delta
    pub delivered : max_ℤ min_out f.floor ≤ℤ delta
    pub forwarded : h.transfer e.this config.xlm e.this owner_muxed after w7 ≡ some (tt, w8)
    pub published : w' ≡ publish e (swapped (swap_event owner_muxed f delta after)) w8

  abbrev Floored : World L → Floor → World L → Type 0
  Floored w2 f w3 =
      (n : ℕ) × (amount ≡ pos (suc n))
      × Computed h oracle e config (suc n) w2 f
      × (oracle_floor h oracle e config amount w2 ≡ done f w3)

  floor-Floored :
      (w2 : World L)
      → leb_ℤ amount (pos 0) ≡ false
      → Ensures (Floored w2) (oracle_floor h oracle e config amount w2)
  floor-Floored w2 paid = record {
    at = λ f w3 p.
        let (n, en) = pos_of_lt amount paid in
        (n, en, (oracle_floor-Computed h oracle e config (suc n) w2).at f w3 (rw en at p), p);
  }

  pub swap-SwapRun :
      Ensures SwapRun
        (swap h oracle fillers e owner factory relayer filler amount min_out hint config w)
  unfolding swap
  swap-SwapRun =
      Ensures-bind _ _ _ _ _ (require_this_vault-Recognised h e owner factory w) λ m w0 known.
        Ensures-call _ _ _ _ λ _ w1 authorized. Ensures-panic_if _ _ _ _ _ λ paid.
          Ensures-call _ _ _ _ λ usdc_held w2 usdc_read. Ensures-panic_if _ _ _ _ _ λ covered.
            Ensures-bind _ _ _ _ _ (floor-Floored w2 paid) λ f w3 (n, en, computed, floored).
              Ensures-panic_if _ _ _ _ _ λ enough. Ensures-call _ _ _ _ λ before w4 before_read.
                Ensures-call _ _ _ _ λ _ w5 handed. Ensures-call _ _ _ _ λ reported w6 filled.
                  Ensures-call _ _ _ _ λ after w7 after_read.
                    Ensures-unwrap_or_panic _ _ _ _ _ λ delta counted.
                      Ensures-panic_if _ _ _ _ _ λ delivered. Ensures-call _ _ _ _ λ _ w8 forwarded.
                        Ensures-modify _ _ _ _ (
                          Ensures-pure _ _ _ (record {
                            owner_muxed = m;
                            n = n;
                            usdc_held = usdc_held;
                            f = f;
                            before = before;
                            reported = reported;
                            after = after;
                            w1 = w1;
                            w2 = w2;
                            w3 = w3;
                            w4 = w4;
                            w5 = w5;
                            w6 = w6;
                            w7 = w7;
                            w8 = w8;
                            derived = known.derived;
                            parsed = known.parsed;
                            authorized = rw known.same at authorized;
                            positive = en;
                            usdc_read = usdc_read;
                            covered = ground arith;
                            computed = computed;
                            floored = floored;
                            enough = ground arith;
                            before_read = before_read;
                            handed = handed;
                            filled = filled;
                            after_read = after_read;
                            counted = counted;
                            delivered = ground arith;
                            forwarded = forwarded;
                            published = refl;
                          }))
