-- ===== src/Sandbox/PriceExamples.antt =====
-- The theorems on the oracle floor and on the identity of a vault, at concrete prices and names.
use crossmesh_ingress_contra.Prelude.{ℕ, ◌^◌, ◌≡◌, ◌⊎◌, inl, refl, [], ◌∷◌, arith}
use crossmesh_ingress_contra.Int.{◌≤ℤ◌, pos, ◌-ℤ◌, ◌*ℤ◌}
use crossmesh_ingress_contra.Int.Checked.{checked_mul, div, checked, in_i128}
use crossmesh_ingress_contra.Exec.{done, err, ◌>>=◌}
use crossmesh_ingress_contra.Interfaces.{Bytes, PriceData}
use crossmesh_ingress_contra.Host.{muxed_from}
use crossmesh_ingress_contra.Vault.{
  overflow, Floor, unusable, is_stale, require_this_vault, fresh_price, oracle_floor,
}
use crossmesh_ingress_contra.Vault.Config.{IsUsable}
use crossmesh_ingress_contra.Vault.FloorOrder.{oracle_floor_monotone}
use crossmesh_ingress_contra.Vault.FloorRuns.{Answers}
use crossmesh_ingress_contra.Vault.FloorErrors.{oracle_floor_fails, too_large}
use crossmesh_ingress_contra.Vault.Identity.{one_owner, Collision}
use crossmesh_ingress_contra.Sandbox.{sandbox, feed, config, factory, owner, start, vault_frame}

abbrev record_of : ℕ → PriceData
record_of price = record { price = pos price; timestamp = 990 }

abbrev floor_196 : Floor
floor_196 = record { floor = pos 196; xlm_price = pos 40; usdc_price = pos 100 }

floor_ran : oracle_floor sandbox feed vault_frame config (pos 80) start ≡ done floor_196 start
unfolding ◌>>=◌ oracle_floor fresh_price is_stale unusable checked_mul div checked in_i128 ◌-ℤ◌ ◌*ℤ◌
floor_ran = refl

pub config-IsUsable : IsUsable config
config-IsUsable = record {
  discount_capped = omega arith;
  age_positive = omega arith;
  age_capped = omega arith;
  delivery_positive = omega arith;
  two_assets = omega arith;
}

pub answers : Answers sandbox feed vault_frame config start 40 100 990 990 start start
answers = record {
  xlm_asked = refl;
  usdc_asked = refl;
  xlm_fresh = record { positive = omega arith; not_ahead = omega arith; not_old = omega arith };
  usdc_fresh = record { positive = omega arith; not_ahead = omega arith; not_old = omega arith };
  xlm_u64 = omega arith;
  usdc_u64 = omega arith;
}

-- More USDC than an `i128` can price.
oracle_floor_fails_example :
    oracle_floor sandbox feed vault_frame config (pos (2 ^ 127)) start ≡ err overflow
oracle_floor_fails_example =
    oracle_floor_fails sandbox feed vault_frame config (2 ^ 127) start (err overflow)
      (too_large 40 100 990 990 start start config-IsUsable answers (inl (omega arith)))

-- Another strkey with the sandbox's hash of the first one.
abbrev twin : Bytes
twin = 0 ∷ 7 ∷ []

known : require_this_vault sandbox vault_frame owner factory start ≡ done (muxed_from 7) start
unfolding require_this_vault ◌>>=◌
known = refl

twin_known : require_this_vault sandbox vault_frame twin factory start ≡ done (muxed_from 0) start
unfolding require_this_vault ◌>>=◌
twin_known = refl

one_owner_example :
    ((owner ≡ twin) × (factory ≡ factory)) ⊎ Collision sandbox owner twin factory factory
one_owner_example =
    one_owner sandbox vault_frame owner twin factory factory start start start (muxed_from 7)
      (muxed_from 0) known twin_known

-- 40 USDC at a discount of 5% are worth 95 XLM.
abbrev floor_95 : Floor
floor_95 = record { floor = pos 95; xlm_price = pos 40; usdc_price = pos 100 }

lower_floor_ran :
    oracle_floor sandbox feed vault_frame (record config { discount_ppm = 50_000 }) (pos 40) start
    ≡ done floor_95 start
unfolding ◌>>=◌ oracle_floor fresh_price is_stale unusable checked_mul div checked in_i128 ◌-ℤ◌ ◌*ℤ◌
lower_floor_ran = refl

oracle_floor_monotone_example : pos 95 ≤ℤ pos 196
oracle_floor_monotone_example =
    oracle_floor_monotone sandbox feed vault_frame start config 50_000 20_000 40 80 start start
      floor_95 floor_196 (omega arith) (omega arith) lower_floor_ran floor_ran
