-- ===== src/Latency/Bins.antt =====
-- The bins of the histogram: which values share one, and the value that a bin stands for.
use native.Mathlib.Nat.{
  le-div_iff_mul-le, div-lt_iff_lt-mul, div-eq_of_lt-le, mul-le-mul_right, div-mul-le_self,
}
use native.Mathlib.Decide.{dec_lt}
use nasdaq_itch_order_book_e.Base.{
  ℕ, suc, ◌+◌, ◌-◌, ◌*◌, ◌/◌, ◌%◌, ◌^◌, ◌≤◌, ◌<◌, ◌≡◌, refl, true, false, ltb, leb, ◌==◌,
  if◌then◌else◌, arith,
}
use nasdaq_itch_order_book_e.Base.Bits.{bit_width}
use nasdaq_itch_order_book_e.Base.BitLaws.{
  pow-double, pow-pos, bit_width-upper, bit_width-lower, bit_width-le, bit_width-zero,
}
use nasdaq_itch_order_book_e.Base.Powers.{pow-split, pow_le}
use nasdaq_itch_order_book_e.Latency.{index_for, value_for_index, k_bin_count}

-- A value between two powers of two has their bit width.
bit_width_unique : (v e : ℕ) → v < 2 ^ 64 → 2 ^ e ≤ v → v < 2 ^ suc e → bit_width 64 v ≡ suc e
bit_width_unique v e h low high =
    let p = pow-pos e in
    let (some_bit, lower) = bit_width-lower 64 v (λ z. omega arith) h in
    let upper = bit_width-upper 64 v h in
    let not_less : ¬ (bit_width 64 v < suc e) =
      λ l. let m = pow_le (bit_width 64 v) e (omega arith) in omega arith in
    let not_more : ¬ (suc e < bit_width 64 v) =
      λ l. let m = pow_le (suc (suc e)) (bit_width 64 v) l in omega (arith, pow-double (suc e)) in
    omega arith

-- A bin of the upper part: the s low bits are dropped, and a is the rest.
pub record Bin (s a v : ℕ) : Type 0 where
  pub some_shift : 1 ≤ s
  pub shift_bound : s ≤ 53
  pub half_full : 1024 ≤ a
  pub rest_bound : a < 2048
  pub above : a * 2 ^ s ≤ v
  pub below : v < (a + 1) * 2 ^ s

pub every-Bin : (v : ℕ) → 2048 ≤ v → v < 2 ^ 64 → (s : ℕ) × (a : ℕ) × Bin s a v
every-Bin v big h =
    let (some_bit, lower) = bit_width-lower 64 v (λ z. omega arith) h in
    let upper = bit_width-upper 64 v h in
    let top = bit_width-le 64 v in
    let wide : ¬ (bit_width 64 v < 12) =
      λ l. let m = pow_le (bit_width 64 v) 11 (omega arith) in omega arith in
    let s : ℕ = bit_width 64 v - 11 in
    let e : bit_width 64 v ≡ s + 11 = omega arith in
    let p = pow-pos s in
    let lower' : 2 ^ (s + 11) ≤ 2 * v = rw e at lower in
    let upper' : v < 2 ^ (s + 11) = rw e at upper in
    let split : 2 ^ (s + 11) ≡ 2 ^ s * 2048 = pow-split s 11 in
    (
      s,
      v / 2 ^ s,
      record {
        some_shift = omega arith;
        shift_bound = omega arith;
        half_full = (le-div_iff_mul-le {k = 2 ^ s} {x = 1024} {y = v} p).1 (omega arith);
        rest_bound = (div-lt_iff_lt-mul {k = 2 ^ s} {x = v} {y = 2048} p).1 (omega arith);
        above = div-mul-le_self v (2 ^ s);
        below = (div-lt_iff_lt-mul {k = 2 ^ s} {x = v} {y = v / 2 ^ s + 1} p).0 (omega arith);
      },
    )

narrow : (v : ℕ) → v < 2048 → bit_width 64 v ≤ 11
narrow v h = elim (dec_lt 0 v) [
  | no l ↦ let z : v ≡ 0 = omega arith in rw (z, bit_width-zero 64) (omega arith)
  | yes l ↦
      let (some_bit, lower) = bit_width-lower 64 v (λ z. omega arith) (omega arith) in
      let wide : ¬ (11 < bit_width 64 v) =
        λ w. let m = pow_le 12 (bit_width 64 v) w in omega arith in
      omega arith
]

pub low_index : (v : ℕ) → v < 2048 → index_for v ≡ v
unfolding index_for
low_index v h =
    let n = narrow v h in
    let small : leb (if v == 0 then 0 else bit_width 64 v - 1) 10 ≡ true = ground arith in
    let no_shift : ltb 10 (if v == 0 then 0 else bit_width 64 v - 1) ≡ false = ground arith in
    rw (small, no_shift) (omega arith)

pub high_index : {s a v : ℕ} → Bin s a v → v < 2 ^ 64 → index_for v ≡ s * 1024 + a
unfolding index_for
high_index {s} {a} {v} b h =
    let p = pow-pos s in
    let least = mul-le-mul_right (2 ^ s) b.half_full in
    let most : (a + 1) * 2 ^ s ≤ 2048 * 2 ^ s =
      mul-le-mul_right (2 ^ s) (let r = b.rest_bound in omega arith) in
    let (above, below) : (a * 2 ^ s ≤ v) × (v < (a + 1) * 2 ^ s) = (b.above, b.below) in
    let shift = b.some_shift in
    let shift' = b.shift_bound in
    let width : bit_width 64 v ≡ suc (s + 10) =
      bit_width_unique v (s + 10) h (omega (arith, pow-split s 10))
        (omega (arith, pow-split s 10, pow-double (s + 10))) in
    let nz : (v == 0) ≡ false = ground arith in
    let wide : leb (s + 10) 10 ≡ false = ground arith in
    let wide' : ltb 10 (s + 10) ≡ true = ground arith in
    let exponent : suc (s + 10) - 1 ≡ s + 10 = omega arith in
    let dropped : s + 10 - 10 ≡ s = omega arith in
    let sub : v / 2 ^ s ≡ a = div-eq_of_lt-le (2 ^ s) above below in
    rw (nz, width, exponent, wide, wide', dropped, sub)
      (let r = b.rest_bound in let q = b.half_full in omega arith)

pub low_value : (i : ℕ) → i < 2048 → value_for_index i ≡ i
unfolding value_for_index
low_value i h = let l : ltb i 2048 ≡ true = ground arith in rw l refl

pub high_value :
    {s a : ℕ} → 1 ≤ s → s ≤ 53 → 1024 ≤ a → a < 2048 → value_for_index (s * 1024 + a) ≡ a * 2 ^ s
unfolding value_for_index
high_value {s} {a} p q l u =
    let big : ltb (s * 1024 + a) 2048 ≡ false = ground arith in
    let sub : 1024 + (s * 1024 + a - 2048) % 1024 ≡ a = omega arith in
    let shift : ((11 + (s * 1024 + a - 2048) / 1024) % 2 ^ 32 + 2 ^ 32 - 10) % 2 ^ 32 ≡ s =
      omega arith in
    let most : suc a * 2 ^ s ≤ 2048 * 2 ^ s = mul-le-mul_right (2 ^ s) u in
    let top = pow_le (s + 11) 64 (omega arith) in
    let fits : a * 2 ^ s < 2 ^ 64 = omega (arith, pow-split s 11, pow-pos s) in
    rw (big, sub, shift) (omega arith)

-- For a value of 64 bits, the bin is in the array, the value reported for the bin is not above the value
-- and off by at most one part in 1024, and it is the value itself below 2048.
pub index_for_lem :
    (v : ℕ)
    → v < 2 ^ 64
    → let bin = index_for v in
      let reported = value_for_index bin in
      (bin < k_bin_count) × (reported ≤ v) × ((v - reported) * 1024 ≤ v) × (v < 2048 → reported ≡ v)
index_for_lem v h = elim (dec_lt v 2048) [
  | yes l ↦ rw (low_index v l, low_value v l) (omega arith, omega arith, omega arith, λ z. refl)
  | no l ↦
      let (s, a, b) = every-Bin v (omega arith) h in
      let least = mul-le-mul_right (2 ^ s) b.half_full in
      rw (high_index b h, high_value b.some_shift b.shift_bound b.half_full b.rest_bound)
        (
          (let q = b.shift_bound in let r = b.rest_bound in omega arith),
          b.above,
          (let q = b.above in let r = b.below in omega arith),
          λ z. absurd (l z),
        )
]

-- The value reported for a bin of the array is of 64 bits and belongs to that bin.
pub index_for-value_for_index :
    (bin : ℕ)
    → bin < k_bin_count
    → (value_for_index bin < 2 ^ 64) × (index_for (value_for_index bin) ≡ bin)
index_for-value_for_index bin h = elim (dec_lt bin 2048) [
  | yes l ↦ rw (low_value bin l) (omega arith, low_index bin l)
  | no l ↦
      let s : ℕ = bin / 1024 - 1 in
      let a : ℕ = bin % 1024 + 1024 in
      let split : bin ≡ s * 1024 + a = omega arith in
      let p = pow-pos s in
      let most : suc a * 2 ^ s ≤ 2048 * 2 ^ s = mul-le-mul_right (2 ^ s) (omega arith) in
      let top = pow_le (s + 11) 64 (omega arith) in
      let fits : a * 2 ^ s < 2 ^ 64 = omega (arith, pow-split s 11) in
      let b : Bin s a (a * 2 ^ s) = record {
        some_shift = omega arith;
        shift_bound = omega arith;
        half_full = omega arith;
        rest_bound = omega arith;
        above = omega arith;
        below = omega arith;
      } in
      let value : value_for_index (s * 1024 + a) ≡ a * 2 ^ s =
        high_value b.some_shift b.shift_bound b.half_full b.rest_bound in
      rw (split, value) (fits, high_index b fits)
]
