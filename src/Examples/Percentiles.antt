-- ===== src/Examples/Percentiles.antt =====
-- A percentile in fixed-point numbers: percentages in tenths, and thousandths in place of the wide type.
use native.Mathlib.Nat.{mul-le-mul_right, div-mul-le_self, le-div_iff_mul-le, div-eq_of_eq-mul_left}
use nasdaq_itch_order_book_e.Base.{ℕ, ◌*◌, ◌/◌, ◌^◌, ◌≡◌, ◌≤◌, ◌<◌, false, [], ◌∷◌, arith, ltb}
use nasdaq_itch_order_book_e.Latency.{FloatingPoint, record_value, reset, value_at_percentile}
use nasdaq_itch_order_book_e.Latency.Percentiles.{IsRounding, NearestRank, value_at_percentile_lem}
use nasdaq_itch_order_book_e.Examples.Histogram.{one_value-Recorded}

abbrev fixed : FloatingPoint ℕ ℕ
fixed = record {
  tenths = λ n. n;
  below = ltb;
  widen = λ n. n * 100;
  from_count = λ n. n * 1000;
  less = ltb;
  times = λ a b. a * b / 1000;
  divided = λ a b. a * 1000 / b;
  truncate = λ a. a / 1000;
}

div_order : (a b k : ℕ) → 0 < k → a ≤ b → a / k ≤ b / k
div_order a b k positive h =
    let low = div-mul-le_self a k in (le-div_iff_mul-le positive).1 (omega arith)

not_less : (a b : ℕ) → a ≤ b → ltb b a ≡ false
not_less a b h = ground arith

le_of_not_less : (a b : ℕ) → ltb b a ≡ false → a ≤ b
le_of_not_less a b h = ground arith

product_counts : (m n : ℕ) → m * 1000 * (n * 1000) / 1000 ≡ m * n * 1000
product_counts m n = div-eq_of_eq-mul_left (omega arith) (grind arith)

quotient_counts : (m n : ℕ) → 0 < n → n * m * 1000 * 1000 / (n * 1000) ≡ m * 1000
quotient_counts m n positive = div-eq_of_eq-mul_left (omega arith) (grind arith)

fixed-IsRounding : IsRounding fixed (2 ^ 64)
fixed-IsRounding = record {
  tenths_order = λ m n h k. not_less m n h;
  less-asym = λ x y h. ground arith;
  less-le = λ x y z h k. ground arith;
  le-less = λ x y z h k. ground arith;
  counts = λ m n h k. ground arith;
  widen_order = λ x y h. ground arith;
  widen_tenths = λ m h. omega arith;
  times_order = λ x y n h.
      not_less _ _
        (div_order _ _ 1000 (omega arith) (mul-le-mul_right (n * 1000) (le_of_not_less x y h)));
  divided_order = λ x y n positive h.
      not_less _ _
        (div_order _ _ (n * 1000) (omega arith) (mul-le-mul_right 1000 (le_of_not_less x y h)));
  times_counts = λ m n h. product_counts m n;
  divided_counts = λ m n positive h. quotient_counts m n positive;
  truncated = λ x n h low high. (ground arith, ground arith, ground arith);
}

value_at_percentile_lem_example :
    NearestRank fixed 999 (5000 ∷ []) (value_at_percentile fixed (record_value reset 5000) 999)
value_at_percentile_lem_example =
    value_at_percentile_lem fixed (2 ^ 64) fixed-IsRounding (omega arith) 5000 [] one_value-Recorded
      (omega arith) 999
