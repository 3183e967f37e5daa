-- ===== src/Mask.antt =====
-- The occupancy masks of src/book/order_book.cpp: 256 bits in four 64-bit words, with the scans for
-- the lowest and the highest set bit.
pub mod Laws
use nasdaq_itch_order_book_e.Base.{
  ℕ, zero, suc, ◌+◌, ◌-◌, ◌*◌, ◌/◌, ◌%◌, ◌^◌, bit_and, bit_or, Bool, not, ◌==◌, if◌then◌else◌,
  update,
}
use nasdaq_itch_order_book_e.Base.Bits.{countr_zero, countl_zero}

-- `std::array<std::uint64_t, 4>`: the word at each index below 4.
abbrev pub Mask : Type 0
Mask = ℕ → ℕ

abbrev pub empty_mask : Mask
empty_mask word = 0

abbrev pub mask_word : ℕ → ℕ
mask_word value = value / 64

abbrev pub mask_bit : ℕ → ℕ
mask_bit value = 2 ^ (value % 64)

unfoldable pub set : Mask → ℕ → Mask
set mask value = update mask (mask_word value) (bit_or (mask (mask_word value)) (mask_bit value))

-- `~b` on 64 bits is `2 ^ 64 - 1 - b`.
unfoldable pub clear : Mask → ℕ → Mask
clear mask value =
    update mask (mask_word value) (bit_and (mask (mask_word value)) (2 ^ 64 - 1 - mask_bit value))

unfoldable pub any : Mask → Bool
any mask = not (bit_or (bit_or (bit_or (mask 0) (mask 1)) (mask 2)) (mask 3) == 0)

-- The rounds of `lowest` from `word` on, with the number of rounds left.
unfoldable pub lowest_from : ℕ → ℕ → Mask → ℕ
lowest_from zero word mask = 0
lowest_from (suc rounds) word mask =
    let rest = lowest_from rounds (word + 1) mask in
    if mask word == 0 then rest else (word * 64 + countr_zero 64 (mask word)) % 256

unfoldable pub lowest : Mask → ℕ
unfolding lowest_from countr_zero
lowest mask = lowest_from 4 0 mask

-- The rounds of `highest` below `word`.
unfoldable pub highest_from : ℕ → Mask → ℕ
highest_from zero mask = 0
highest_from (suc word) mask =
    let rest = highest_from word mask in
    if mask word == 0 then rest else (word * 64 + (63 - countl_zero 64 (mask word))) % 256

unfoldable pub highest : Mask → ℕ
unfolding highest_from countl_zero
highest mask = highest_from 4 mask
