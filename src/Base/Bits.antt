-- ===== src/Base/Bits.antt =====
-- The standard library's <bit> functions on unsigned words, and the laws of single bits.
use Prim.Native.Nat.{min, max, digits, bit_and-bitwise, bit_or-bitwise}
use Prim.Native.Nat.{ℕ, zero, suc, ◌+◌, ◌-◌, ◌*◌, ◌/◌, ◌%◌, ◌≤◌, bit_and, bit_or}
use mathlib.Core.Path.{◌≡◌, refl, sym, ◌∙◌}
use mathlib.Core.Bool.{Bool}
use native.Mathlib.Omega.{arith}
use nasdaq_itch_order_book_e.Base.Tests.{◌==◌, if◌then◌else◌}

-- Bit k of a word.
unfoldable pub test_bit : ℕ → ℕ → Bool
test_bit zero n = n % 2 == 1
test_bit (suc k) n = test_bit k (n / 2)

-- `std::countr_zero` of a word of the given width: the number of zero bits below the lowest one.
unfoldable pub countr_zero : ℕ → ℕ → ℕ
countr_zero zero n = 0
countr_zero (suc w) n = if n % 2 == 1 then 0 else suc (countr_zero w (n / 2))

-- `std::bit_width` of a word of the given width: the number of bits needed for its value.
unfoldable pub bit_width : ℕ → ℕ → ℕ
bit_width zero n = 0
bit_width (suc w) n = if n == 0 then 0 else suc (bit_width w (n / 2))

-- `std::countl_zero` of a word of the given width.
unfoldable pub countl_zero : ℕ → ℕ → ℕ
unfolding bit_width
countl_zero w n = w - bit_width w n

-- Any operation that works bit by bit: fuel beyond the left word is not used, and the lowest bit
-- splits off.
module _ (rest : ℕ → ℕ) (bit : ℕ → ℕ → ℕ) where
  digits-zero : (k y : ℕ) → digits rest bit k 0 y ≡ rest y
  digits-zero zero y = refl
  digits-zero (suc k) y = refl

  same_digits : (k l x y : ℕ) → x ≤ k → x ≤ l → digits rest bit k x y ≡ digits rest bit l x y
  same_digits k l zero y hk hl = digits-zero k y ∙ sym (digits-zero l y)
  same_digits zero l (suc x) y hk hl = absurd (omega arith)
  same_digits k zero (suc x) y hk hl = absurd (omega arith)
  same_digits (suc k) (suc l) (suc x) y hk hl =
      let halves = same_digits k l (suc x / 2) (y / 2) (omega arith) (omega arith) in omega arith

  split_digit :
      (x y : ℕ)
      → digits rest bit (suc x) (suc x) y
        ≡ digits rest bit (suc x / 2) (suc x / 2) (y / 2) * 2 + bit (suc x % 2) (y % 2)
  split_digit x y =
      let halves = same_digits x (suc x / 2) (suc x / 2) (y / 2) (omega arith) (omega arith) in
      omega arith

pub bit_and_step : (x y : ℕ) → bit_and x y ≡ bit_and (x / 2) (y / 2) * 2 + min (x % 2) (y % 2)
bit_and_step zero y = omega (arith, bit_and-bitwise 0 y, bit_and-bitwise 0 (y / 2))
bit_and_step (suc x) y =
    rw (bit_and-bitwise (suc x) y, bit_and-bitwise (suc x / 2) (y / 2))
      (split_digit (λ y. zero) min x y)

pub bit_or_step : (x y : ℕ) → bit_or x y ≡ bit_or (x / 2) (y / 2) * 2 + max (x % 2) (y % 2)
bit_or_step zero y = omega (arith, bit_or-bitwise 0 y, bit_or-bitwise 0 (y / 2))
bit_or_step (suc x) y =
    rw (bit_or-bitwise (suc x) y, bit_or-bitwise (suc x / 2) (y / 2)) (split_digit (λ y. y) max x y)
