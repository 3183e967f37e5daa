-- ===== src/Itch/Words.antt =====
-- `read_be` of src/itch/itch.cpp against big-endian notation.
use nasdaq_itch_order_book_e.Base.{
  ℕ, zero, suc, ◌+◌, ◌*◌, ◌%◌, ◌^◌, ◌≤◌, ◌<◌, ◌≡◌, refl, ap, List, [], ◌∷◌, ◌++◌, arith, length,
  get_or, drop, bit_or,
}
use Prim.Native.Nat.{compare, Ordering}
use native.Mathlib.Nat.{mod-eq_of_lt}
use native.Mathlib.Numerals.{unary_clauses}
use nasdaq_itch_order_book_e.Base.BitLaws.{or-shifted, pow_mono, pow-double}
use nasdaq_itch_order_book_e.Itch.Decoder.{byte_at, read_be, read_be_from}

-- The number that a list of bytes is in big-endian notation, after the digits read so far.
abbrev pub big_endian : ℕ → List ℕ → ℕ
big_endian value [] = value
big_endian value (b ∷ bytes) = big_endian (value * 2 ^ 8 + b) bytes

abbrev pub Bytes : List ℕ → Type 0
Bytes [] = Unit {0}
Bytes (b ∷ bytes) = (b < 2 ^ 8) × Bytes bytes

power_order : (a b : ℕ) → a ≤ b → 2 ^ a ≤ 2 ^ b
power_order a b h =
    elim (compare a b) as (λ o. compare a b ≡ o → 2 ^ a ≤ 2 ^ b) [
      | Ordering.lt ↦ λ e. let m = pow_mono a b (ground arith) in omega arith
      | Ordering.eq ↦ λ e. let same : a ≡ b = ground arith in rw same (omega arith)
      | Ordering.gt ↦ λ e. ground arith
    ]
      refl

byte_power : (n : ℕ) → 2 ^ (8 * (n + 1)) ≡ 2 ^ 8 * 2 ^ (8 * n)
byte_power n =
    let e : 8 * (n + 1) ≡ suc (suc (suc (suc (suc (suc (suc (suc (8 * n)))))))) = omega arith in
    rw e (omega (arith, power_step))
  where
    power_step : (k : ℕ) → 2 ^ suc k ≡ 2 * 2 ^ k
    power_step k = pow-double k

byte-drop :
    (offset : ℕ) (bytes : List ℕ) (b : ℕ) (rest : List ℕ)
    → drop offset bytes ≡ b ∷ rest
    → (byte_at bytes offset ≡ b) × (drop (suc offset) bytes ≡ rest)
unfolding byte_at
byte-drop zero [] b rest h = cc
byte-drop zero (x ∷ bytes) b rest h = (ap (λ t. get_or t 0 b) h, ap (drop 1) h)
byte-drop (suc offset) [] b rest h = cc
byte-drop (suc offset) (x ∷ bytes) b rest h = byte-drop offset bytes b rest h

-- A round does not lose a digit while the word has room for it.
round :
    (total value b done : ℕ)
    → b < 2 ^ 8
    → value < 2 ^ (8 * done)
    → done + 1 ≤ total
    → (bit_or (value * 2 ^ 8 % 2 ^ (8 * total)) b % 2 ^ (8 * total) ≡ value * 2 ^ 8 + b)
      × (value * 2 ^ 8 + b < 2 ^ (8 * (done + 1)))
round total value b done small fits room =
    let more = byte_power done in
    let order = power_order (8 * (done + 1)) (8 * total) (omega arith) in
    let below : value * 2 ^ 8 + b < 2 ^ (8 * (done + 1)) = omega arith in
    let shifted : value * 2 ^ 8 % 2 ^ (8 * total) ≡ value * 2 ^ 8 = mod-eq_of_lt (omega arith) in
    (rw (shifted, or-shifted 8 value b small) (mod-eq_of_lt (omega arith)), below)

read-digits :
    (total : ℕ) (digits : List ℕ) (done value : ℕ) (bytes : List ℕ) (offset : ℕ) (rest : List ℕ)
    → Bytes digits
    → value < 2 ^ (8 * done)
    → done + length digits ≤ total
    → drop offset bytes ≡ digits ++ rest
    → read_be_from (length digits) (8 * total) value bytes offset ≡ big_endian value digits
unfolding read_be_from
read-digits total [] done value bytes offset rest d fits room h = refl
read-digits total (b ∷ digits) done value bytes offset rest d fits room h =
    let (first, others) = byte-drop offset bytes b (digits ++ rest) h in
    let others' : drop (offset + 1) bytes ≡ digits ++ rest = simp unary_clauses others in
    let (same, below) = round total value b done d.0 fits (omega arith) in
    rw (read_be_from, first, same)
      (read-digits total digits (done + 1) (value * 2 ^ 8 + b) bytes (offset + 1) rest d.1 below
        (omega arith) others')

-- Where the input has the given bytes at the offset, `read_be` on a word of as many bytes is the
-- number that they are in big-endian notation; no round drops a digit.
pub read_be_lem :
    (digits bytes : List ℕ) (offset : ℕ) (rest : List ℕ)
    → Bytes digits
    → drop offset bytes ≡ digits ++ rest
    → read_be (length digits) bytes offset ≡ big_endian 0 digits
unfolding read_be
read_be_lem digits bytes offset rest d h =
    read-digits (length digits) digits 0 0 bytes offset rest d (omega arith) (omega arith) h
