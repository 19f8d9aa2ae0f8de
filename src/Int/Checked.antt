-- ===== src/Int/Checked.antt =====
-- Rust's `i128`: a value in range, the checked operations, truncating division, and casts.
use crossmesh_ingress_contra.Prelude.{
  ℕ, suc, ◌-◌, ◌/◌, ◌%◌, ◌^◌, Bool, Option, none, some, ltb, if◌then◌else◌,
}
use crossmesh_ingress_contra.Int.{ℤ, pos, negsuc, ◌-ℤ◌, ◌*ℤ◌}

-- Two's complement: -2^127 up to 2^127 - 1.
unfoldable pub in_i128 : ℤ → Bool
in_i128 (pos n) = ltb n (2 ^ 127)
in_i128 (negsuc n) = ltb n (2 ^ 127)

unfoldable pub checked : ℤ → Option ℤ
checked z = if in_i128 z then some z else none

unfoldable pub checked_sub : ℤ → ℤ → Option ℤ
checked_sub a b = checked (a -ℤ b)

unfoldable pub checked_mul : ℤ → ℤ → Option ℤ
checked_mul a b = checked (a *ℤ b)

-- The negation of a number.
abbrev pub neg : ℕ → ℤ
neg n = pos 0 -ℤ pos n

-- Rust's `/` truncates towards zero.
abbrev pub quotient : ℤ → ℤ → ℤ
quotient (pos a) (pos b) = pos (a / b)
quotient (pos a) (negsuc b) = neg (a / suc b)
quotient (negsuc a) (pos b) = neg (suc a / b)
quotient (negsuc a) (negsuc b) = pos (suc a / suc b)

-- It panics on a zero divisor and on `i128::MIN / -1`.
unfoldable pub div : ℤ → ℤ → Option ℤ
div a b = elim b [
  | pos n ↦ if ltb 0 n then checked (quotient a (pos n)) else none
  | negsuc n ↦ checked (quotient a (negsuc n))
]

-- `as u128`: the same bits, read without a sign.
unfoldable pub as_u128 : ℤ → ℕ
as_u128 (pos n) = n % 2 ^ 128
as_u128 (negsuc n) = 2 ^ 128 - 1 - n % 2 ^ 128
