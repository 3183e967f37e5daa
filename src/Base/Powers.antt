-- ===== src/Base/Powers.antt =====
-- Powers of two, products and order.
use Prim.Native.Nat.{ℕ, zero, suc, ◌+◌, ◌*◌, ◌%◌, ◌-◌, ◌^◌, ◌≤◌}
use mathlib.Core.Path.{◌≡◌, sym, ap, ◌∙◌}
use native.Mathlib.Decide.{dec_lt}
use native.Mathlib.Omega.{arith}
use native.Mathlib.Nat.{mul_assoc, mod-mod_of_dvd, dvd-mul_left}
use nasdaq_itch_order_book_e.Base.BitLaws.{pow-double, pow_mono}

pub pow-split : (j k : ℕ) → 2 ^ (j + k) ≡ 2 ^ j * 2 ^ k
pow-split zero k = let e : 0 + k ≡ k = omega arith in rw e (omega arith)
pow-split (suc j) k =
    let e : suc j + k ≡ suc (j + k) = omega arith in
    rw (e, pow-double (j + k), pow-double j, pow-split j k) (sym (mul_assoc 2 (2 ^ j) (2 ^ k)))

pub pow_le : (i j : ℕ) → i ≤ j → 2 ^ i ≤ 2 ^ j
pow_le i j h = elim (dec_lt i j) [
  | yes l ↦ let strict = pow_mono i j l in omega arith
  | no l ↦ let e : i ≡ j = omega arith in rw e (omega arith)
]

pub mod-pow : (n w k : ℕ) → k ≤ w → n % 2 ^ w % 2 ^ k ≡ n % 2 ^ k
mod-pow n w k h =
    let e : 2 ^ w ≡ 2 ^ (w - k) * 2 ^ k =
      ap (λ (j : ℕ). 2 ^ j) (omega arith) ∙ pow-split (w - k) k in
    rw e (mod-mod_of_dvd (2 ^ k) n (dvd-mul_left (2 ^ k) (2 ^ (w - k))))
