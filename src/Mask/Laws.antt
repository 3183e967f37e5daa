-- ===== src/Mask/Laws.antt =====
-- Which bits of a mask are set after `set` and `clear`, and what `any`, `lowest` and `highest` find.
use nasdaq_itch_order_book_e.Base.{
  ℕ, zero, suc, ◌+◌, ◌-◌, ◌*◌, ◌/◌, ◌%◌, ◌^◌, ◌≤◌, ◌<◌, ◌≡◌, ◌≢◌, refl, Bool, true, false, not,
  ◌&&◌, ◌||◌, bit_or, bit_and, arith, ◌==◌, Bool-cases, inl, inr,
}
use nasdaq_itch_order_book_e.Base.Bits.{test_bit, countr_zero, countl_zero, bit_width}
use nasdaq_itch_order_book_e.Base.BitLaws.{
  test_bit-or, test_bit-and, test_bit-pow, test_bit-complement, or-bounded, and-le, countr_zero-lt,
  countr_zero-le, test_bit-countr_zero, bit_width-gt, bit_width-le, bit_width-lower,
  test_bit-bit_width, test_bit-zero, pow_mono, or-eq-zero,
}
use nasdaq_itch_order_book_e.Mask.{
  Mask, empty_mask, mask_bit, set, clear, any, lowest_from, lowest, highest_from, highest,
}

-- Whether the mask holds the byte.
unfoldable pub mem : Mask → ℕ → Bool
unfolding test_bit
mem mask v = test_bit (v % 64) (mask (v / 64))

-- Every word fits 64 bits.
abbrev pub IsMask : Mask → Type 0
IsMask mask = (word : ℕ) → mask word < 2 ^ 64

same_byte : (v u : ℕ) → v / 64 ≡ u / 64 → (v % 64 == u % 64) ≡ (v == u)
same_byte v u e = ground arith

or_comm : (a b : Bool) → (a || b) ≡ (b || a)
or_comm a b = ground arith

and_comm : (a b : Bool) → (a && b) ≡ (b && a)
and_comm a b = ground arith

bit-IsWord : (v : ℕ) → mask_bit v < 2 ^ 64
bit-IsWord v = pow_mono (v % 64) 64 (omega arith)

module _ (m : Mask) (v u : ℕ) where
  bit-set :
      v / 64 ≡ u / 64 → test_bit (u % 64) (bit_or (m (v / 64)) (mask_bit v)) ≡ ((v == u) || mem m u)
  unfolding mem
  bit-set e =
      rw (test_bit-or, test_bit-pow, same_byte v u e, e)
        (or_comm (test_bit (u % 64) (m (u / 64))) (v == u))

  pub mem-set : mem (set m v) u ≡ ((v == u) || mem m u)
  unfolding mem set
  mem-set = elim (Bool-cases (v / 64 == u / 64)) [
    | inl e ↦ rw e (bit-set (ground arith))
    | inr d ↦ let ne : (v == u) ≡ false = ground arith in rw (d, ne)
  ]

  bit-clear :
      IsMask m
      → v / 64 ≡ u / 64
      → test_bit (u % 64) (bit_and (m (v / 64)) (2 ^ 64 - 1 - mask_bit v))
        ≡ (not (v == u) && mem m u)
  unfolding mem
  bit-clear h e =
      rw
        (
          test_bit-and,
          test_bit-complement (u % 64) 64 (mask_bit v) (omega arith) (bit-IsWord v),
          test_bit-pow,
          same_byte v u e,
          e,
        )
        (and_comm (test_bit (u % 64) (m (u / 64))) (not (v == u)))

  pub mem-clear : IsMask m → mem (clear m v) u ≡ (not (v == u) && mem m u)
  unfolding mem clear
  mem-clear h = elim (Bool-cases (v / 64 == u / 64)) [
    | inl e ↦ rw e (bit-clear h (ground arith))
    | inr d ↦ let ne : (v == u) ≡ false = ground arith in rw (d, ne)
  ]

pub set-IsMask : (m : Mask) (v : ℕ) → IsMask m → IsMask (set m v)
unfolding set
set-IsMask m v h w =
    ground (arith, h w, or-bounded 64 (m (v / 64)) (mask_bit v) (h (v / 64)) (bit-IsWord v))

pub clear-IsMask : (m : Mask) (v : ℕ) → IsMask m → IsMask (clear m v)
unfolding clear
clear-IsMask m v h w =
    ground (arith, h w, h (v / 64), and-le 64 (m (v / 64)) (2 ^ 64 - 1 - mask_bit v) (h (v / 64)))

pub empty_mask-IsMask : IsMask empty_mask
empty_mask-IsMask w = omega arith

pub mem-empty_mask : (v : ℕ) → mem empty_mask v ≡ false
unfolding mem
mem-empty_mask v = test_bit-zero (v % 64)

-- A member stands in a word that is not zero.
word_of_mem : (m : Mask) (u : ℕ) → mem m u ≡ true → m (u / 64) ≢ 0
unfolding mem
word_of_mem m u b e = let c = (rw e at b) in cc (c, test_bit-zero (u % 64))

-- The member of a word that a scan finds at bit `c` of it.
mem-at : (m : Mask) (w c : ℕ) → c < 64 → mem m (w * 64 + c) ≡ test_bit c (m w)
unfolding mem
mem-at m w c h =
    let q : (w * 64 + c) / 64 ≡ w = omega arith in
    let r : (w * 64 + c) % 64 ≡ c = omega arith in rw (q, r)

module _ (m : Mask) (h : IsMask m) (u : ℕ) (in_range : u < 256) (member : mem m u ≡ true) where
  member_bit : (w : ℕ) → w ≡ u / 64 → test_bit (u % 64) (m w) ≡ true
  unfolding mem
  member_bit w e = rw e member

  skipped : (w : ℕ) → m w ≡ 0 → w ≢ u / 64
  skipped w z e = word_of_mem m u member (rw e at z)

  first_le : (w : ℕ) → w ≤ u / 64 → countr_zero 64 (m w) < 64 → w * 64 + countr_zero 64 (m w) ≤ u
  first_le w le lt = elim (Bool-cases (w == u / 64)) [
    | inl e ↦
        let same : w ≡ u / 64 = ground arith in
        omega (arith, countr_zero-le 64 (m w) (u % 64) (member_bit w same))
    | inr d ↦ let ne : w ≢ u / 64 = λ e. ground arith in omega arith
  ]

  first_in_word :
      (w : ℕ)
      → w ≤ u / 64
      → m w ≢ 0
      → let r = (w * 64 + countr_zero 64 (m w)) % 256 in (mem m r ≡ true) × (r ≤ u)
  first_in_word w le ne =
      let c = countr_zero 64 (m w) in
      let lt = countr_zero-lt 64 (m w) ne (h w) in
      let e : (w * 64 + c) % 256 ≡ w * 64 + c = omega arith in
      rw e (rw (mem-at m w c lt) (test_bit-countr_zero 64 (m w) ne (h w)), first_le w le lt)

  lowest_from_lem :
      (rounds w : ℕ)
      → w + rounds ≡ 4
      → w ≤ u / 64
      → (mem m (lowest_from rounds w m) ≡ true) × (lowest_from rounds w m ≤ u)
  unfolding lowest_from
  lowest_from_lem zero w e le = absurd (omega arith)
  lowest_from_lem (suc n) w e le = elim (Bool-cases (m w == 0)) [
    | inl z ↦
        let ne : w ≢ u / 64 = skipped w (ground arith) in
        rw z (lowest_from_lem n (w + 1) (omega arith) (omega arith))
    | inr nz ↦ rw nz (first_in_word w le (λ z. ground arith))
  ]

  last_ge : (w b : ℕ) → u / 64 ≤ w → bit_width 64 (m w) ≡ suc b → u ≤ w * 64 + b
  last_ge w b le eb = elim (Bool-cases (w == u / 64)) [
    | inl e ↦
        let same : w ≡ u / 64 = ground arith in
        omega (arith, bit_width-gt 64 (m w) (u % 64) (h w) (member_bit w same))
    | inr d ↦ let ne : w ≢ u / 64 = λ e. ground arith in omega arith
  ]

  last_in_word :
      (w : ℕ)
      → w < 4
      → u / 64 ≤ w
      → m w ≢ 0
      → let r = (w * 64 + (63 - countl_zero 64 (m w))) % 256 in
        (mem m r ≡ true) × (u ≤ r) × (r < 256)
  unfolding countl_zero
  last_in_word w small le ne =
      let bw = bit_width 64 (m w) in
      let pos = (bit_width-lower 64 (m w) ne (h w)).0 in
      let most = bit_width-le 64 (m w) in
      let e : (w * 64 + (63 - (64 - bw))) % 256 ≡ w * 64 + (bw - 1) = omega arith in
      rw e (
        rw (mem-at m w (bw - 1) (omega arith)) (test_bit-bit_width 64 (m w) ne (h w)),
        last_ge w (bw - 1) le (omega arith),
        omega arith,
      )

  highest_from_lem :
      (w : ℕ)
      → w ≤ 4
      → u / 64 < w
      → let r = highest_from w m in (mem m r ≡ true) × (u ≤ r) × (r < 256)
  unfolding highest_from
  highest_from_lem zero small lt = absurd (omega arith)
  highest_from_lem (suc w) small lt = elim (Bool-cases (m w == 0)) [
    | inl z ↦
        let ne : w ≢ u / 64 = skipped w (ground arith) in
        rw z (highest_from_lem w (omega arith) (omega arith))
    | inr nz ↦ rw nz (last_in_word w (omega arith) (omega arith) (λ z. ground arith))
  ]

  -- If a mask of 64-bit words has a member below 256, the scan from the low end returns a member that
  -- is not above it.
  pub lowest_least : (mem m (lowest m) ≡ true) × (lowest m ≤ u)
  unfolding lowest
  lowest_least = lowest_from_lem 4 0 refl (omega arith)

  -- If a mask of 64-bit words has a member below 256, the scan from the high end returns a member that
  -- is below 256 and not below it.
  pub highest_greatest : (mem m (highest m) ≡ true) × (u ≤ highest m) × (highest m < 256)
  unfolding highest
  highest_greatest = highest_from_lem 4 (omega arith) (omega arith)

union : Mask → ℕ
union m = bit_or (bit_or (bit_or (m 0) (m 1)) (m 2)) (m 3)

words_of_union : (m : Mask) → union m ≡ 0 → (w : ℕ) → w < 4 → m w ≡ 0
unfolding union
words_of_union m e w h =
    let c = or-eq-zero (bit_or (bit_or (m 0) (m 1)) (m 2)) (m 3) e in
    let b = or-eq-zero (bit_or (m 0) (m 1)) (m 2) c.0 in
    let a = or-eq-zero (m 0) (m 1) b.0 in pick w h a.0 a.1 b.1 c.1
  where
    pick : (w : ℕ) → w < 4 → m 0 ≡ 0 → m 1 ≡ 0 → m 2 ≡ 0 → m 3 ≡ 0 → m w ≡ 0
    pick zero h a b c d = a
    pick (suc zero) h a b c d = b
    pick (suc (suc zero)) h a b c d = c
    pick (suc (suc (suc zero))) h a b c d = d
    pick (suc (suc (suc (suc w)))) h a b c d = absurd (omega arith)

union_of_words : (m : Mask) → m 0 ≡ 0 → m 1 ≡ 0 → m 2 ≡ 0 → m 3 ≡ 0 → union m ≡ 0
unfolding union
union_of_words m a b c d = rw (a, b, c, d)

-- `any` holds as soon as one byte is a member.
pub any_of_mem : (m : Mask) (u : ℕ) → u < 256 → mem m u ≡ true → any m ≡ true
unfolding any union
any_of_mem m u h b = elim (Bool-cases (union m == 0)) [
  | inl z ↦ absurd (word_of_mem m u b (words_of_union m (ground arith) (u / 64) (omega arith)))
  | inr nz ↦ rw nz
]

mem_of_word :
    (m : Mask) (w : ℕ)
    → w < 4
    → IsMask m
    → (m w == 0) ≡ false
    → (u : ℕ) × (u < 256) × (mem m u ≡ true)
mem_of_word m w small h nz =
    let ne : m w ≢ 0 = λ z. ground arith in
    let lt = countr_zero-lt 64 (m w) ne (h w) in
    (
      w * 64 + countr_zero 64 (m w),
      omega arith,
      rw (mem-at m w (countr_zero 64 (m w)) lt) (test_bit-countr_zero 64 (m w) ne (h w)),
    )

-- If `any` holds, some byte is a member.
pub mem_of_any : (m : Mask) → IsMask m → any m ≡ true → (u : ℕ) × (u < 256) × (mem m u ≡ true)
unfolding any union
mem_of_any m h a = elim (Bool-cases (m 0 == 0)) [
  | inr n ↦ mem_of_word m 0 (omega arith) h n
  | inl z0 ↦ elim (Bool-cases (m 1 == 0)) [
    | inr n ↦ mem_of_word m 1 (omega arith) h n
    | inl z1 ↦ elim (Bool-cases (m 2 == 0)) [
      | inr n ↦ mem_of_word m 2 (omega arith) h n
      | inl z2 ↦ elim (Bool-cases (m 3 == 0)) [
        | inr n ↦ mem_of_word m 3 (omega arith) h n
        | inl z3 ↦
            let z = union_of_words m (ground arith) (ground arith) (ground arith) (ground arith) in
            absurd (ground arith)
      ]
    ]
  ]
]

-- A mask that `any` calls empty has no member.
pub none_of_any : (m : Mask) (u : ℕ) → u < 256 → any m ≡ false → mem m u ≡ false
none_of_any m u h a = elim (Bool-cases (mem m u)) [ inl t ↦ cc (any_of_mem m u h t) | inr f ↦ f ]
