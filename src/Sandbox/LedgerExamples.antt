-- ===== src/Sandbox/LedgerExamples.antt =====
-- The helpers of packages/test-support on a ledger in memory.
use crossmesh_ingress_contra.Prelude.{
  ◌≡◌, refl, Bool, true, false, ◌&&◌, Option, none, some, is_some, List, [], ◌∷◌, inl, inr,
  Bool-cases, arith, ◌==◌, if◌then◌else◌,
}
use crossmesh_ingress_contra.Interfaces.{Bytes}
use crossmesh_ingress_contra.TestSupport.{
  TrustLineAsset, credit_alphanum4, credit_alphanum12, LedgerKey, account_of, trustline_of,
  instance_of, LedgerEntry, TestEnv,
}
use crossmesh_ingress_contra.TestSupport.Laws.{IsLedger}

abbrev eq_bytes : Bytes → Bytes → Bool
eq_bytes [] [] = true
eq_bytes (x ∷ l) (y ∷ k) = (x == y) && eq_bytes l k
eq_bytes _ _ = false

abbrev eq_asset : TrustLineAsset → TrustLineAsset → Bool
eq_asset (credit_alphanum4 c i) (credit_alphanum4 d j) = eq_bytes c d && (i == j)
eq_asset (credit_alphanum12 c i) (credit_alphanum12 d j) = eq_bytes c d && (i == j)
eq_asset _ _ = false

abbrev eq_key : LedgerKey → LedgerKey → Bool
eq_key (account_of a) (account_of b) = a == b
eq_key (trustline_of a c) (trustline_of b d) = (a == b) && eq_asset c d
eq_key (instance_of a) (instance_of b) = a == b
eq_key _ _ = false

abbrev Entries : Type 0
Entries = List (LedgerKey × LedgerEntry)

abbrev find : LedgerKey → Entries → Option LedgerEntry
find k [] = none
find k ((l, e) ∷ w) = if eq_key k l then some e else find k w

abbrev in_memory : TestEnv Entries
in_memory = record {
  account_id_of = λ a. if a == 6 then none else some a;
  get_ledger_entry = λ k w. some (find k w, w);
  add_ledger_entry = λ k e w. some (tt, (k, e) ∷ w);
  to_xdr = λ _. some (1 ∷ []);
  as_contract = λ _ w. some (tt, w);
  asset_address = λ _. 2;
  address_exists = λ a w. is_some (find (instance_of a) w);
  deploy_asset = λ _ _ w. none;
}

eq_bytes_refl : (l : Bytes) → eq_bytes l l ≡ true
eq_bytes_refl [] = refl
eq_bytes_refl (x ∷ l) = let ih = eq_bytes_refl l in ground arith

eq_bytes-eq : (l k : Bytes) → eq_bytes l k ≡ true → l ≡ k
eq_bytes-eq [] [] p = refl
eq_bytes-eq (x ∷ l) (y ∷ k) p = let ih = eq_bytes-eq l k in ground arith
eq_bytes-eq [] (y ∷ k) p = cc
eq_bytes-eq (x ∷ l) [] p = cc

eq_key_refl : (k : LedgerKey) → eq_key k k ≡ true
eq_key_refl (account_of a) = ground arith
eq_key_refl (trustline_of a (credit_alphanum4 c i)) = let p = eq_bytes_refl c in ground arith
eq_key_refl (trustline_of a (credit_alphanum12 c i)) = let p = eq_bytes_refl c in ground arith
eq_key_refl (instance_of a) = ground arith

eq_asset-eq : (a b : TrustLineAsset) → eq_asset a b ≡ true → a ≡ b
eq_asset-eq (credit_alphanum4 c i) (credit_alphanum4 d j) p =
    let q = eq_bytes-eq c d in ground arith
eq_asset-eq (credit_alphanum12 c i) (credit_alphanum12 d j) p =
    let q = eq_bytes-eq c d in ground arith
eq_asset-eq (credit_alphanum4 c i) (credit_alphanum12 d j) p = cc
eq_asset-eq (credit_alphanum12 c i) (credit_alphanum4 d j) p = cc

eq_key-eq : (k l : LedgerKey) → eq_key k l ≡ true → k ≡ l
eq_key-eq (account_of a) (account_of b) p = ground arith
eq_key-eq (trustline_of a c) (trustline_of b d) p = let q = eq_asset-eq c d in ground arith
eq_key-eq (instance_of a) (instance_of b) p = ground arith
eq_key-eq (account_of a) (trustline_of b d) p = cc
eq_key-eq (account_of a) (instance_of b) p = cc
eq_key-eq (trustline_of a c) (account_of b) p = cc
eq_key-eq (trustline_of a c) (instance_of b) p = cc
eq_key-eq (instance_of a) (account_of b) p = cc
eq_key-eq (instance_of a) (trustline_of b d) p = cc

unfoldable is_ledger : IsLedger in_memory
is_ledger = record {
  entry = find;
  get_lem = λ k w. refl;
  adds = λ k e w. ((k, e) ∷ w, refl);
  added = λ k e w w' p. let q = eq_key_refl k in ground arith;
  others = λ k e w w' l other p. elim (Bool-cases (eq_key l k)) [
    | inl same ↦ absurd (other (eq_key-eq l k same))
    | inr apart ↦ ground arith
  ];
}
