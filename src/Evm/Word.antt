-- ===== src/Evm/Word.antt =====
-- Solidity's `uint256`, with the arithmetic that panics out of range, and the big-endian bytes of a
-- word.
use mathlib.Core.List.{◌++◌}
use crossmesh_ingress_contra.Prelude.{
  ℕ, zero, suc, ◌+◌, ◌-◌, ◌*◌, ◌/◌, ◌%◌, ◌^◌, ◌≤◌, ◌<◌, ◌≡◌, Option, none, some, List, [], ◌∷◌,
  arith, ltb, leb, if◌then◌else◌,
}

unfoldable pub in_word : ℕ → Option ℕ
in_word n = if ltb n (2 ^ 256) then some n else none

unfoldable pub add : ℕ → ℕ → Option ℕ
unfolding in_word
add a b = in_word (a + b)

unfoldable pub mul : ℕ → ℕ → Option ℕ
unfolding in_word
mul a b = in_word (a * b)

unfoldable pub sub : ℕ → ℕ → Option ℕ
sub a b = if leb b a then some (a - b) else none

abbrev pub min : ℕ → ℕ → ℕ
min first second = if ltb first second then first else second

abbrev pub length {ℓ} : {A : Type ℓ} → List A → ℕ
length [] = 0
length (x ∷ xs) = suc (length xs)

abbrev pub replicate : ℕ → ℕ → List ℕ
replicate zero x = []
replicate (suc n) x = x ∷ replicate n x

abbrev pub take : ℕ → List ℕ → List ℕ
take zero l = []
take (suc n) [] = []
take (suc n) (x ∷ l) = x ∷ take n l

abbrev pub drop : ℕ → List ℕ → List ℕ
drop zero l = l
drop (suc n) [] = []
drop (suc n) (x ∷ l) = drop n l

-- the last element, and all but the last
abbrev pub last {ℓ} : {A : Type ℓ} → List A → Option A
last [] = none
last (x ∷ []) = some x
last (x ∷ y ∷ l) = last (y ∷ l)

abbrev pub drop_last {ℓ} : {A : Type ℓ} → List A → List A
drop_last [] = []
drop_last (x ∷ []) = []
drop_last (x ∷ y ∷ l) = x ∷ drop_last (y ∷ l)

-- The number that the bytes write, most significant first, after `acc`.
abbrev pub value_from : ℕ → List ℕ → ℕ
value_from acc [] = acc
value_from acc (b ∷ l) = value_from (acc * 256 + b) l

-- The last `n` bytes of a number, most significant first.
unfoldable pub big_endian : ℕ → ℕ → List ℕ
big_endian zero x = []
big_endian (suc n) x = big_endian n (x / 256) ++ x % 256 ∷ []

pub add-some : (a b : ℕ) {c : ℕ} → add a b ≡ some c → c ≡ a + b
unfolding add
add-some a b h = ground arith

pub mul-some : (a b : ℕ) {c : ℕ} → mul a b ≡ some c → c ≡ a * b
unfolding mul
mul-some a b h = ground arith

pub sub-some : (a b : ℕ) {c : ℕ} → sub a b ≡ some c → (b ≤ a) × (c ≡ a - b)
unfolding sub
sub-some a b h = ground arith

pub sub_zero : (a : ℕ) → sub a 0 ≡ some a
unfolding sub
sub_zero a = ground arith

pub sub_lem : (a b : ℕ) → b ≤ a → sub a b ≡ some (a - b)
unfolding sub
sub_lem a b h = ground arith

pub add_lem : (a b : ℕ) → a + b < 2 ^ 256 → add a b ≡ some (a + b)
unfolding add
add_lem a b h = ground arith

pub mul_lem : (a b : ℕ) → a * b < 2 ^ 256 → mul a b ≡ some (a * b)
unfolding mul
mul_lem a b h = ground arith
