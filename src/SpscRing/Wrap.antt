-- ===== src/SpscRing/Wrap.antt =====
-- The ring as a circular array: which indices share a slot, and what a write keeps.
use native.Mathlib.Nat.{add-mod_right, mul-add-mod_self_left, mod-lt, div-add-mod, mod-eq_of_lt}
use Prim.Native.Nat.{bit_and}
use native.Mathlib.Decide.{dec_lt}
use nasdaq_itch_order_book_e.Base.{
  ℕ, suc, ◌+◌, ◌-◌, ◌*◌, ◌/◌, ◌%◌, ◌^◌, ◌≤◌, ◌<◌, ◌≡◌, ◌≢◌, refl, sym, arith, ◌==◌, sub64,
}
use nasdaq_itch_order_book_e.Base.Powers.{mod-pow}
use nasdaq_itch_order_book_e.Base.BitLaws.{and-ones, pow_mono}

apart_once : (c a d : ℕ) → 0 < d → d < c → (a + d) % c ≢ a % c
apart_once c a d p h e = grind (arith)

-- Two indices less than the capacity apart have different slots.
pub mod_apart : (c a i j : ℕ) → i < j → j < c + i → (a + i) % c ≢ (a + j) % c
mod_apart c a i j p h e =
    let sum : a + i + (j - i) ≡ a + j = omega arith in
    apart_once c (a + i) (j - i) (omega arith) (omega arith) (rw (sum, e) refl)

-- Going on from an index by less than the capacity does not come back to it.
pub back : (c a d : ℕ) → suc d < c → (suc a + d) % c ≢ a % c
back c a d h f =
    let none_more : a + 0 ≡ a = omega arith in
    let more : a + suc d ≡ suc a + d = omega arith in
    mod_apart c a 0 (suc d) (omega arith) (omega arith) (rw (none_more, more) (sym f))

pub pow-64 : (k : ℕ) → k < 64 → 2 ^ k < 2 ^ 64
pow-64 k h = pow_mono k 64 h

pub same_index : (t n : ℕ) → n < 2 ^ 64 → (t % 2 ^ 64 == (t + n) % 2 ^ 64) ≡ (n == 0)
same_index t n h = ground arith

pub round_trip : (c t i : ℕ) → i < c → (t + (i + c - t % c) % c) % c ≡ i
round_trip c t i h =
    let m : t % c < c = mod-lt t (omega arith) in
    let whole : c * (t / c) + t % c ≡ t = div-add-mod t c in
    elim (dec_lt i (t % c)) [
      | yes l ↦
          let d : (i + c - t % c) % c ≡ i + c - t % c = mod-eq_of_lt (omega arith) in
          let sum : t + (i + c - t % c) ≡ c * (t / c) + i + c = omega (arith, whole) in
          rw (d, sum, add-mod_right (c * (t / c) + i) c, mul-add-mod_self_left c (t / c) i)
            (mod-eq_of_lt h)
      | no l ↦
          let d : (i + c - t % c) % c ≡ i - t % c =
            let e : i + c - t % c ≡ i - t % c + c = omega arith in
            rw (e, add-mod_right (i - t % c) c) (mod-eq_of_lt (omega arith)) in
          let sum : t + (i - t % c) ≡ c * (t / c) + i = omega (arith, whole) in
          rw (d, sum, mul-add-mod_self_left c (t / c) i) (mod-eq_of_lt h)
    ]

pub slot_of_index : (k n : ℕ) → k < 64 → bit_and (n % 2 ^ 64) (2 ^ k - 1) ≡ n % 2 ^ k
slot_of_index k n h = rw (and-ones k (n % 2 ^ 64)) (mod-pow n 64 k (omega arith))

-- The wrapped difference of the two indices is the number of objects between them.
pub used_of_indices : (k t n : ℕ) → k < 64 → n ≤ 2 ^ k → sub64 ((t + n) % 2 ^ 64) (t % 2 ^ 64) ≡ n
used_of_indices k t n h l = grind (arith, pow-64 k h)
