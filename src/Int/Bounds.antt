-- ===== src/Int/Bounds.antt =====
-- The checked operations at numbers: when they return, and what.
use crossmesh_ingress_contra.Prelude.{
  ℕ, ◌*◌, ◌/◌, ◌^◌, ◌≤◌, ◌<◌, ◌≡◌, true, some, none, arith, lt→ltb,
}
use crossmesh_ingress_contra.Int.{ℤ, pos, negsuc, ◌-ℤ◌, ◌≤ℤ◌, ◌<ℤ◌, *ℤ-pos}
use crossmesh_ingress_contra.Int.Checked.{in_i128, checked, checked_mul, checked_sub, div, as_u128}

pub checked-pos : (n : ℕ) → n < 2 ^ 127 → checked (pos n) ≡ some (pos n)
unfolding checked in_i128
checked-pos n h = ground arith

pub checked-pos_none : (n : ℕ) → 2 ^ 127 ≤ n → checked (pos n) ≡ none
unfolding checked in_i128
checked-pos_none n h = ground arith

pub checked-some : (z : ℤ) {c : ℤ} → checked z ≡ some c → (c ≡ z) × (in_i128 z ≡ true)
unfolding checked
checked-some z h = ground arith

pub in_i128-pos : (n : ℕ) → in_i128 (pos n) ≡ true → n < 2 ^ 127
unfolding in_i128
in_i128-pos n h = ground arith

pub checked_mul-pos :
    (a b : ℕ) {c : ℤ} → checked_mul (pos a) (pos b) ≡ some c → (c ≡ pos (a * b)) × (a * b < 2 ^ 127)
unfolding checked_mul
checked_mul-pos a b h =
    let (e, fits) = checked-some _ (rw *ℤ-pos at h) in (e, in_i128-pos (a * b) fits)

pub checked_mul-pos_some :
    (a b : ℕ) → a * b < 2 ^ 127 → checked_mul (pos a) (pos b) ≡ some (pos (a * b))
unfolding checked_mul
checked_mul-pos_some a b h = rw *ℤ-pos (checked-pos (a * b) h)

pub checked_mul-pos_none : (a b : ℕ) → 2 ^ 127 ≤ a * b → checked_mul (pos a) (pos b) ≡ none
unfolding checked_mul
checked_mul-pos_none a b h = rw *ℤ-pos (checked-pos_none (a * b) h)

div-le : (a b : ℕ) → 0 < b → a / b ≤ a
div-le a b k = grind arith

-- Two numbers in range: the quotient is in range too, and the division does not panic.
pub div-pos : (a b : ℕ) → a < 2 ^ 127 → 0 < b → div (pos a) (pos b) ≡ some (pos (a / b))
unfolding div
div-pos a b h k = rw (lt→ltb 0 b k) (checked-pos (a / b) (omega (arith, h, div-le a b k)))

-- A value that is not negative keeps its meaning under the cast.
pub as_u128-pos : (n : ℕ) → n < 2 ^ 127 → as_u128 (pos n) ≡ n
unfolding as_u128
as_u128-pos n h = omega arith

pub checked_sub-some : (a b : ℤ) {c : ℤ} → checked_sub a b ≡ some c → c ≡ a -ℤ b
unfolding checked_sub
checked_sub-some a b h = (checked-some _ h).0

pub checked_sub-returns :
    (a b : ℤ) → pos 0 ≤ℤ b → b ≤ℤ a → a <ℤ pos (2 ^ 127) → checked_sub a b ≡ some (a -ℤ b)
unfolding checked_sub checked in_i128 ◌-ℤ◌
checked_sub-returns (pos a) (pos b) h k l = ground arith
checked_sub-returns (pos a) (negsuc b) h k l = absurd (omega arith)
checked_sub-returns (negsuc a) b h k l = absurd (omega arith)
