-- ===== src/Evm/Forwarder/HookData.antt =====
-- src/DepositForwarder.sol: the frame of the committed recipient in a message, `_hookData`.
use crossmesh_ingress_contra.Prelude.{
  ℕ, ◌%◌, ◌^◌, ◌<◌, ◌≡◌, Bool, true, ◌&&◌, Option, none, some, [], ◌∷◌, arith, ◌==◌, if◌then◌else◌,
}
use crossmesh_ingress_contra.Interfaces.{Bytes}
use crossmesh_ingress_contra.Evm.Word.{length, take, drop, value_from, big_endian}
use crossmesh_ingress_contra.Evm.Forwarder.{hook_data, recipient}

-- What the forwarder on Stellar reads from it: a magic field of 24 zero bytes, the version 0, the
-- length, and as many bytes.
abbrev pub all_zero : Bytes → Bool
all_zero [] = true
all_zero (b ∷ l) = (b == 0) && all_zero l

unfoldable pub read_hook_data : Bytes → Option Bytes
read_hook_data bytes =
    if all_zero (take 24 bytes)
      && (value_from 0 (take 4 (drop 24 bytes)) == 0)
      && (value_from 0 (take 4 (drop 28 bytes)) == length (drop 32 bytes))
    then some (drop 32 bytes)
    else none

length_written : (x : ℕ) → x < 2 ^ 32 → value_from 0 (big_endian 4 (x % 2 ^ 32)) ≡ x
unfolding big_endian
length_written x h = omega arith

-- Reading what was written gives the recipient back, for every recipient of less than 2^32 bytes.
pub read_hook_data-hook_data :
    (recipient : Bytes)
    → length recipient < 2 ^ 32
    → read_hook_data (hook_data recipient) ≡ some recipient
unfolding read_hook_data hook_data big_endian
read_hook_data-hook_data recipient h = rw (length_written (length recipient) h) (ground arith)
