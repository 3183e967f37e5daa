-- ===== src/Base/BitLaws.antt =====
-- Single bits of words: what `|`, `&`, `~` and `1 << k` do to them, and what the scans find.
use Prim.Native.Nat.{max, min, bit_and-bitwise, bit_or-bitwise}
use Prim.Native.Nat.{ℕ, zero, suc, ◌+◌, ◌-◌, ◌*◌, ◌/◌, ◌%◌, ◌^◌, ◌≤◌, ◌<◌, bit_and, bit_or}
use mathlib.Core.Path.{◌≡◌, refl, ap}
use mathlib.Core.Logic.{◌≢◌, inl, inr}
use mathlib.Core.Bool.{true, false, not, ◌&&◌, ◌||◌}
use native.Mathlib.Omega.{arith}
use native.Mathlib.Nat.{pow-suc, div-add-mod, div-div-eq-div-mul}
use nasdaq_itch_order_book_e.Base.Tests.{◌==◌, Bool-cases}
use nasdaq_itch_order_book_e.Base.Bits.{test_bit, countr_zero, bit_width, bit_and_step, bit_or_step}

or-half : (a b : ℕ) → bit_or a b / 2 ≡ bit_or (a / 2) (b / 2)
or-half a b = omega (arith, bit_or_step a b)

or-parity : (a b : ℕ) → bit_or a b % 2 ≡ max (a % 2) (b % 2)
or-parity a b = omega (arith, bit_or_step a b)

and-half : (a b : ℕ) → bit_and a b / 2 ≡ bit_and (a / 2) (b / 2)
and-half a b = omega (arith, bit_and_step a b)

and-parity : (a b : ℕ) → bit_and a b % 2 ≡ min (a % 2) (b % 2)
and-parity a b = omega (arith, bit_and_step a b)

odd_or : (a b : ℕ) → (max (a % 2) (b % 2) == 1) ≡ ((a % 2 == 1) || (b % 2 == 1))
odd_or a b = ground arith

odd_and : (a b : ℕ) → (min (a % 2) (b % 2) == 1) ≡ ((a % 2 == 1) && (b % 2 == 1))
odd_and a b = ground arith

pub test_bit-or : (k a b : ℕ) → test_bit k (bit_or a b) ≡ (test_bit k a || test_bit k b)
unfolding test_bit
test_bit-or zero a b = rw (or-parity a b) (odd_or a b)
test_bit-or (suc k) a b = rw (or-half a b) (test_bit-or k (a / 2) (b / 2))

pub test_bit-and : (k a b : ℕ) → test_bit k (bit_and a b) ≡ (test_bit k a && test_bit k b)
unfolding test_bit
test_bit-and zero a b = rw (and-parity a b) (odd_and a b)
test_bit-and (suc k) a b = rw (and-half a b) (test_bit-and k (a / 2) (b / 2))

pub pow-double : (k : ℕ) → 2 ^ suc k ≡ 2 * 2 ^ k
pow-double k = omega (arith, pow-suc 2 k)

pub pow-pos : (k : ℕ) → 0 < 2 ^ k
pow-pos zero = omega arith
pow-pos (suc k) = omega (arith, pow-double k, pow-pos k)

pub test_bit-zero : (k : ℕ) → test_bit k 0 ≡ false
unfolding test_bit
test_bit-zero zero = refl
test_bit-zero (suc k) = test_bit-zero k

pub pow_mono : (i j : ℕ) → i < j → 2 ^ i < 2 ^ j
pow_mono i zero h = absurd (omega arith)
pow_mono zero (suc j) h = omega (arith, pow-double j, pow-pos j)
pow_mono (suc i) (suc j) h = omega (arith, pow-double i, pow-double j, pow_mono i j (omega arith))

pub test_bit-pow : (j k : ℕ) → test_bit j (2 ^ k) ≡ (k == j)
unfolding test_bit
test_bit-pow zero zero = refl
test_bit-pow zero (suc k) = ground (arith, pow-double k)
test_bit-pow (suc j) zero = ground (arith, test_bit-zero j)
test_bit-pow (suc j) (suc k) =
    let half : 2 ^ suc k / 2 ≡ 2 ^ k = omega (arith, pow-double k) in
    rw half (ground (arith, test_bit-pow j k))

-- `~m` on a word of width w is `2 ^ w - 1 - m`.
pub test_bit-complement :
    (j w m : ℕ) → j < w → m < 2 ^ w → test_bit j (2 ^ w - 1 - m) ≡ not (test_bit j m)
unfolding test_bit
test_bit-complement j zero m h k = absurd (omega arith)
test_bit-complement zero (suc w) m h k = ground (arith, pow-double w, pow-pos w)
test_bit-complement (suc j) (suc w) m h k =
    let half : (2 ^ suc w - 1 - m) / 2 ≡ 2 ^ w - 1 - m / 2 = omega (arith, pow-double w) in
    rw half (test_bit-complement j w (m / 2) (omega arith) (omega (arith, pow-double w)))

pub or-bounded : (w a b : ℕ) → a < 2 ^ w → b < 2 ^ w → bit_or a b < 2 ^ w
or-bounded zero a b p q =
    let a0 : a ≡ 0 = omega arith in let b0 : b ≡ 0 = omega arith in rw (a0, b0) (omega arith)
or-bounded (suc w) a b p q = omega (
  arith,
  bit_or_step a b,
  pow-double w,
  or-bounded w (a / 2) (b / 2) (omega (arith, pow-double w)) (omega (arith, pow-double w)),
)

pub and-le : (w a b : ℕ) → a < 2 ^ w → bit_and a b ≤ a
and-le zero a b p = let a0 : a ≡ 0 = omega arith in rw (a0, bit_and-bitwise 0 b) (omega arith)
and-le (suc w) a b p =
    omega (arith, bit_and_step a b, and-le w (a / 2) (b / 2) (omega (arith, pow-double w)))

or-zero : (w a : ℕ) → a ≤ w → bit_or a 0 ≡ a
or-zero zero a h = let a0 : a ≡ 0 = omega arith in rw a0
or-zero (suc w) zero h = refl
or-zero (suc w) (suc a) h =
    omega (arith, bit_or_step (suc a) 0, or-zero w (suc a / 2) (omega arith))

shift-double : (k a : ℕ) → a * 2 ^ suc k ≡ 2 * (a * 2 ^ k)
shift-double k a = rw (pow-double k) (omega arith)

-- `(a << k) | b` is a sum where b fits below bit k.
pub or-shifted : (k a b : ℕ) → b < 2 ^ k → bit_or (a * 2 ^ k) b ≡ a * 2 ^ k + b
or-shifted zero a b h =
    let b0 : b ≡ 0 = omega arith in rw (b0, or-zero (a * 1) (a * 1) (omega arith)) (omega arith)
or-shifted (suc k) a b h =
    let half : a * 2 ^ suc k / 2 ≡ a * 2 ^ k = omega (arith, shift-double k a) in
    omega (
      arith,
      bit_or_step (a * 2 ^ suc k) b,
      shift-double k a,
      ap (λ (t : ℕ). bit_or t (b / 2)) half,
      or-shifted k a (b / 2) (omega (arith, pow-double k)),
    )

-- A union is zero only if both sides are.
or-eq-zero_fuel : (w a b : ℕ) → a ≤ w → bit_or a b ≡ 0 → (a ≡ 0) × (b ≡ 0)
or-eq-zero_fuel w zero b h e = (refl, omega (arith, bit_or-bitwise 0 b))
or-eq-zero_fuel zero (suc a) b h e = absurd (omega arith)
or-eq-zero_fuel (suc w) (suc a) b h e =
    let step = bit_or_step (suc a) b in
    let rest = or-eq-zero_fuel w (suc a / 2) (b / 2) (omega arith) (omega arith) in
    (omega arith, omega arith)

pub or-eq-zero : (a b : ℕ) → bit_or a b ≡ 0 → (a ≡ 0) × (b ≡ 0)
or-eq-zero a b = or-eq-zero_fuel a a b (omega arith)

-- The scan from the low end stops at the lowest set bit.
pub countr_zero-lt : (w n : ℕ) → n ≢ 0 → n < 2 ^ w → countr_zero w n < w
unfolding countr_zero
countr_zero-lt zero n h k = absurd (h (omega arith))
countr_zero-lt (suc w) n h k =
    let small : n / 2 < 2 ^ w = omega (arith, pow-double w) in
    elim (Bool-cases (n % 2 == 1)) [
      | inl odd ↦ rw odd (omega arith)
      | inr even ↦ rw even (omega (arith, countr_zero-lt w (n / 2) (λ e. h (ground arith)) small))
    ]

pub test_bit-countr_zero : (w n : ℕ) → n ≢ 0 → n < 2 ^ w → test_bit (countr_zero w n) n ≡ true
unfolding countr_zero test_bit
test_bit-countr_zero zero n h k = absurd (h (omega arith))
test_bit-countr_zero (suc w) n h k =
    let small : n / 2 < 2 ^ w = omega (arith, pow-double w) in
    elim (Bool-cases (n % 2 == 1)) [
      | inl odd ↦ rw (odd, test_bit) odd
      | inr even ↦
          rw (even, test_bit) (test_bit-countr_zero w (n / 2) (λ e. h (ground arith)) small)
    ]

pub countr_zero-le : (w n j : ℕ) → test_bit j n ≡ true → countr_zero w n ≤ j
unfolding countr_zero test_bit
countr_zero-le zero n j b = omega arith
countr_zero-le (suc w) n zero b = rw b (omega arith)
countr_zero-le (suc w) n (suc j) b = elim (Bool-cases (n % 2 == 1)) [
  | inl odd ↦ rw odd (omega arith)
  | inr even ↦ rw even (omega (arith, countr_zero-le w (n / 2) j b))
]

-- The value lies between two powers of two.
pub bit_width-upper : (w n : ℕ) → n < 2 ^ w → n < 2 ^ bit_width w n
unfolding bit_width
bit_width-upper zero n h = h
bit_width-upper (suc w) n h = elim (Bool-cases (n == 0)) [
  | inl z ↦ rw z (ground arith)
  | inr s ↦ rw s (
      omega (
        arith,
        pow-double (bit_width w (n / 2)),
        bit_width-upper w (n / 2) (omega (arith, pow-double w)),
      ))
]

pub bit_width-zero : (w : ℕ) → bit_width w 0 ≡ 0
unfolding bit_width
bit_width-zero zero = refl
bit_width-zero (suc w) = refl

pub bit_width-lower :
    (w n : ℕ) → n ≢ 0 → n < 2 ^ w → (0 < bit_width w n) × (2 ^ bit_width w n ≤ 2 * n)
unfolding bit_width
bit_width-lower zero n h k = absurd (h (omega arith))
bit_width-lower (suc w) n h k =
    let small : n / 2 < 2 ^ w = omega (arith, pow-double w) in
    elim (Bool-cases (n == 0)) [
      | inl z ↦ absurd (h (ground arith))
      | inr s ↦ elim (Bool-cases (n / 2 == 0)) [
        | inl one ↦
            let e : n / 2 ≡ 0 = ground arith in rw (s, e, bit_width-zero) (omega arith, omega arith)
        | inr more ↦
            let rest = bit_width-lower w (n / 2) (λ e. cc (e, more)) small in
            rw s (omega arith, omega (arith, rest.1, pow-double (bit_width w (n / 2))))
      ]
    ]

pub bit_width-le : (w n : ℕ) → bit_width w n ≤ w
unfolding bit_width
bit_width-le zero n = omega arith
bit_width-le (suc w) n = ground (arith, bit_width-le w (n / 2))

test_bit-suc : (k n : ℕ) → 0 < k → test_bit (k - 1) (n / 2) ≡ true → test_bit k n ≡ true
unfolding test_bit
test_bit-suc zero n h b = absurd (omega arith)
test_bit-suc (suc k) n h b = let e : suc k - 1 ≡ k = omega arith in rw e at b

-- The scan from the high end stops at the highest set bit.
pub test_bit-bit_width : (w n : ℕ) → n ≢ 0 → n < 2 ^ w → test_bit (bit_width w n - 1) n ≡ true
unfolding bit_width
test_bit-bit_width zero n h k = absurd (h (omega arith))
test_bit-bit_width (suc w) n h k =
    let small : n / 2 < 2 ^ w = omega (arith, pow-double w) in
    elim (Bool-cases (n == 0)) [
      | inl z ↦ absurd (h (ground arith))
      | inr s ↦ elim (Bool-cases (n / 2 == 0)) [
        | inl one ↦
            let e : n / 2 ≡ 0 = ground arith in
            let n1 : n ≡ 1 = ground arith in rw (s, e, bit_width-zero, n1) (test_bit-pow 0 0)
        | inr more ↦
            let ne : n / 2 ≢ 0 = λ e. ground arith in
            let same : suc (bit_width w (n / 2)) - 1 ≡ bit_width w (n / 2) = omega arith in
            rw (s, same)
              (test_bit-suc (bit_width w (n / 2)) n (bit_width-lower w (n / 2) ne small).0
                (test_bit-bit_width w (n / 2) ne small))
      ]
    ]

pub bit_width-gt : (w n j : ℕ) → n < 2 ^ w → test_bit j n ≡ true → j < bit_width w n
unfolding bit_width test_bit
bit_width-gt zero n j h b =
    let n0 : n ≡ 0 = omega arith in let c = (rw n0 at b) in cc (c, test_bit-zero j)
bit_width-gt (suc w) n zero h b = ground (arith, b)
bit_width-gt (suc w) n (suc j) h b = elim (Bool-cases (n == 0)) [
  | inl z ↦
      let n0 : n / 2 ≡ 0 = ground arith in
      let c : test_bit j 0 ≡ true = rw n0 at b in cc (c, test_bit-zero j)
  | inr s ↦ rw s (omega (arith, bit_width-gt w (n / 2) j (omega (arith, pow-double w)) b))
]

-- A word with no bit set is zero.
pub test_bit_ext_zero : (w n : ℕ) → n < 2 ^ w → ((j : ℕ) → j < w → test_bit j n ≡ false) → n ≡ 0
test_bit_ext_zero w n h none_set = elim (Bool-cases (n == 0)) [
  | inl z ↦ ground arith
  | inr s ↦
      let ne : n ≢ 0 = λ e. ground arith in
      cc (none_set (countr_zero w n) (countr_zero-lt w n ne h), test_bit-countr_zero w n ne h)
]

and-zero : (w a : ℕ) → a ≤ w → bit_and a 0 ≡ 0
and-zero w zero h = refl
and-zero zero (suc a) h = absurd (omega arith)
and-zero (suc w) (suc a) h =
    omega (arith, bit_and_step (suc a) 0, and-zero w (suc a / 2) (omega arith))

mod-double : (a p : ℕ) → 0 < p → a % (2 * p) ≡ a / 2 % p * 2 + a % 2
mod-double a p h =
    let e : a / 2 / p ≡ a / (2 * p) = div-div-eq-div-mul a 2 p in
    omega (arith, div-add-mod a (2 * p), div-add-mod (a / 2) p, ap (λ (t : ℕ). p * t) e)

-- A mask of k ones keeps the low k bits.
pub and-ones : (k a : ℕ) → bit_and a (2 ^ k - 1) ≡ a % 2 ^ k
and-ones zero a = rw (and-zero a a (omega arith)) (omega arith)
and-ones (suc k) a =
    let half : (2 ^ suc k - 1) / 2 ≡ 2 ^ k - 1 = omega (arith, pow-double k, pow-pos k) in
    let odd : (2 ^ suc k - 1) % 2 ≡ 1 = omega (arith, pow-double k, pow-pos k) in
    rw
      (
        bit_and_step a (2 ^ suc k - 1),
        half,
        odd,
        and-ones k (a / 2),
        pow-double k,
        mod-double a (2 ^ k) (pow-pos k),
      )
      (omega arith)
