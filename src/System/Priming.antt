-- ===== src/System/Priming.antt =====
-- A `fill` of the Aquarius filler, call by call, in a state where it can serve a vault.
use crossmesh_ingress_contra.Prelude.{◌≡◌, refl, true, ◌^◌, some, List, [], ◌∷◌, ℕ, arith}
use crossmesh_ingress_contra.Int.{
  ℤ, pos, ◌+ℤ◌, ◌-ℤ◌, ◌≤ℤ◌, ◌<ℤ◌, eq_ℤ, int_laws, parts_of_eq, eq_of_parts,
}
use crossmesh_ingress_contra.Int.Bounds.{checked_sub-returns}
use crossmesh_ingress_contra.Int.Checked.{as_u128}
use crossmesh_ingress_contra.Exec.{done}
use crossmesh_ingress_contra.Interfaces.{
  Address, Hash, Bytes, AquariusHop, RawHop, AquariusRouterClient,
}
use crossmesh_ingress_contra.Events.{filled}
use crossmesh_ingress_contra.Host.{World, Host, wasm, hops, muxed_from, frame, publish}
use crossmesh_ingress_contra.Host.Assets.{Assets}
use crossmesh_ingress_contra.AquariusFiller.{Storage, State, last, fill}
use crossmesh_ingress_contra.AquariusFiller.Complete.{fill_iff}
use crossmesh_ingress_contra.AquariusFiller.Run.{ConvertRun, fill_event}

module _ {L : Type 0} (h : Host L) (routers : AquariusRouterClient (World L)) (assets : Assets h)
    (storage : Storage) (vault filler usdc xlm : Address) (amount want most : ℤ)
    (hint : Bytes) where
  open assets use {IsAsset, held, held_nonneg, balance_lem, transfer_to}

  -- What the filler needs in the state `v` to serve the vault: the vault signs and runs the code that
  -- it was constructed with, the hint is a route to XLM, and the router takes the amount and gives
  -- `want` or up to `most`, to nobody else; the filler's balances are in range, and it can pay.
  pub record Primed (v : World L) : Type 0 where
    pub code : Hash
    pub router : Address
    pub chain : List RawHop
    pub hop : AquariusHop
    pub reported : ℕ
    pub v1 : World L
    pub v2 : World L
    pub signed : h.require_auth (frame filler (some vault)) vault v ≡ some (tt, v)
    pub served : storage.vault_wasm ≡ some code
    pub running : h.executable vault v.ledger ≡ some (wasm code)
    pub decoded : h.from_xdr hint ≡ hops chain
    pub ends : last chain ≡ some (some hop)
    pub ends_in : hop.2 ≡ xlm
    pub routed : storage.router ≡ some router
    pub permitted :
        h.authorize_as_current_contract filler
          (record { contract = usdc; from = filler; to = router; amount = amount } ∷ [])
          v
        ≡ some (tt, v1)
    pub converts :
        routers.swap_chained filler router filler chain usdc (as_u128 amount) (as_u128 want) v1
        ≡ some (reported, v2)
    pub taken : held usdc filler v2.ledger ≡ held usdc filler v.ledger -ℤ amount
    pub gains : held xlm filler v.ledger +ℤ want ≤ℤ held xlm filler v2.ledger
    pub limited : held xlm filler v2.ledger ≤ℤ held xlm filler v.ledger +ℤ most
    pub aside : held xlm vault v2.ledger ≡ held xlm vault v.ledger
    pub usdc_small : held usdc filler v.ledger <ℤ pos (2 ^ 127)
    pub xlm_small : held xlm filler v2.ledger <ℤ pos (2 ^ 127)
    pub pays :
        (n : ℤ)
        → pos 0 ≤ℤ n
        → n ≤ℤ held xlm filler v2.ledger
        → (w : World L) × (h.transfer filler xlm filler (muxed_from vault) n v2 ≡ some (tt, w))

  exact_lem : (before after n : ℤ) → after ≡ before -ℤ n → eq_ℤ (before -ℤ after) n ≡ true
  exact_lem before after n p =
      let same : before -ℤ after ≡ n =
        eq_of_parts (before -ℤ after) n (omega (int_laws, parts_of_eq after _ p)) in
      rw same (self n)
    where
      self : (z : ℤ) → eq_ℤ z z ≡ true
      self z = ground arith

  module _ (usdc_is : IsAsset usdc) (xlm_is : IsAsset xlm) (positive : pos 1 ≤ℤ amount)
      (nonneg : pos 0 ≤ℤ want) (v : World L) (p : Primed v) where
    abbrev pub got : ℤ
    got = held xlm filler p.v2.ledger -ℤ held xlm filler v.ledger

    got_nonneg : pos 0 ≤ℤ got
    got_nonneg = omega (int_laws, nonneg, p.gains)

    pub payment :
        (w : World L) × (h.transfer filler xlm filler (muxed_from vault) got p.v2 ≡ some (tt, w))
    payment = p.pays got got_nonneg (omega (int_laws, held_nonneg xlm filler v.ledger xlm_is))

    abbrev pub after_fill : State L
    after_fill = record {
      world =
          publish (frame filler (some vault))
            (filled
              (fill_event h routers (frame filler (some vault)) vault usdc amount xlm want got))
            payment.0;
      storage = storage;
    }

    convert_run :
        ConvertRun h routers
          (frame filler (some vault))
          vault
          usdc
          amount
          xlm
          want
          p.chain
          (record { world = v; storage = storage })
          got
          after_fill
    convert_run = record {
      router = p.router;
      before = held xlm filler v.ledger;
      input_before = held usdc filler v.ledger;
      reported = p.reported;
      input_after = held usdc filler p.v2.ledger;
      taken = held usdc filler v.ledger -ℤ held usdc filler p.v2.ledger;
      after = held xlm filler p.v2.ledger;
      w1 = v;
      w2 = v;
      w3 = p.v1;
      w4 = p.v2;
      w5 = p.v2;
      w6 = p.v2;
      w7 = payment.0;
      routed = p.routed;
      before_read = balance_lem filler xlm filler v xlm_is;
      input_read = balance_lem filler usdc filler v usdc_is;
      permitted = p.permitted;
      swapped = p.converts;
      input_reread = balance_lem filler usdc filler p.v2 usdc_is;
      subtracted =
          checked_sub-returns _ _ (held_nonneg usdc filler p.v2.ledger usdc_is)
            (omega (int_laws, positive, parts_of_eq _ _ p.taken)) p.usdc_small;
      exact = exact_lem _ _ amount p.taken;
      after_read = balance_lem filler xlm filler p.v2 xlm_is;
      gained =
          checked_sub-returns _ _ (held_nonneg xlm filler v.ledger xlm_is)
            (omega (int_laws, nonneg, p.gains)) p.xlm_small;
      enough = omega (int_laws, p.gains);
      paid = payment.1;
      published = refl;
    }

    pub ran :
        fill h routers
          (frame filler (some vault))
          vault
          usdc
          amount
          xlm
          want
          hint
          (record { world = v; storage = storage })
        ≡ done got after_fill
    ran =
        (fill_iff h routers (frame filler (some vault)) vault usdc amount xlm want hint
            (record { world = v; storage = storage }) got after_fill).1
          (
            p.chain,
            v,
            record {
              accepted = record {
                code = p.code;
                stored = p.served;
                signed = p.signed;
                running = p.running;
                positive = positive;
                nonneg = nonneg;
              };
              hop = p.hop;
              decoded = p.decoded;
              ends = p.ends;
              ends_in = p.ends_in;
            },
            convert_run,
          )
