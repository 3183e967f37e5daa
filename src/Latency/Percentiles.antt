-- ===== src/Latency/Percentiles.antt =====
-- `value_at_percentile` over a unit of floating-point numbers.
use Prim.Native.Nat.{max}
use nasdaq_itch_order_book_e.Base.{
  ℕ, suc, ◌+◌, ◌*◌, ◌^◌, ◌≤◌, ◌<◌, ◌≡◌, refl, ap, ◌∙◌, Bool, true, false, ltb, ◌==◌, if◌then◌else◌,
  List, ◌∷◌, inl, inr, Bool-cases, arith, length, add64,
}
use nasdaq_itch_order_book_e.Latency.{
  HdrHistogram, FloatingPoint, value_for_index, k_bin_count, value_at_rank, clamp_percentile,
  rank_of, value_at_percentile,
}
use nasdaq_itch_order_book_e.Latency.Counts.{before, before-zero, Recorded, value_at_rank_lem}

-- What the source relies on: an order, whole numbers up to some bound without error, products and
-- quotients that are exact on them and keep the order, and a conversion that drops the fraction.
pub record IsRounding {Double LongDouble : Type 0} (fp : FloatingPoint Double LongDouble)
    (exact : ℕ) : Type 0 where
  pub tenths_order : (m n : ℕ) → m ≤ n → n ≤ 1000 → fp.below (fp.tenths n) (fp.tenths m) ≡ false
  pub less-asym : (x y : LongDouble) → fp.less x y ≡ true → fp.less y x ≡ false
  pub less-le : (x y z : LongDouble) → fp.less x y ≡ true → fp.less z y ≡ false → fp.less x z ≡ true
  pub le-less : (x y z : LongDouble) → fp.less y x ≡ false → fp.less y z ≡ true → fp.less x z ≡ true
  pub counts : (m n : ℕ) → m < n → n ≤ exact → fp.less (fp.from_count m) (fp.from_count n) ≡ true
  pub widen_order :
      (x y : Double) → fp.below y x ≡ false → fp.less (fp.widen y) (fp.widen x) ≡ false
  pub widen_tenths : (m : ℕ) → m ≤ 100 → fp.widen (fp.tenths (10 * m)) ≡ fp.from_count m
  pub times_order :
      (x y : LongDouble) (n : ℕ)
      → fp.less y x ≡ false
      → fp.less (fp.times y (fp.from_count n)) (fp.times x (fp.from_count n)) ≡ false
  pub divided_order :
      (x y : LongDouble) (n : ℕ)
      → 0 < n
      → fp.less y x ≡ false
      → fp.less (fp.divided y (fp.from_count n)) (fp.divided x (fp.from_count n)) ≡ false
  pub times_counts :
      (m n : ℕ)
      → m * n ≤ exact
      → fp.times (fp.from_count m) (fp.from_count n) ≡ fp.from_count (m * n)
  pub divided_counts :
      (m n : ℕ)
      → 0 < n
      → n * m ≤ exact
      → fp.divided (fp.from_count (n * m)) (fp.from_count n) ≡ fp.from_count m
  pub truncated :
      (x : LongDouble) (n : ℕ)
      → n < exact
      → fp.less x (fp.from_count 0) ≡ false
      → fp.less (fp.from_count n) x ≡ false
      → (fp.truncate x ≤ n)
        × (fp.less x (fp.from_count (fp.truncate x)) ≡ false)
        × (fp.less x (fp.from_count (fp.truncate x + 1)) ≡ true)

module _ {Double LongDouble : Type 0} {fp : FloatingPoint Double LongDouble} {exact : ℕ}
    (laws : IsRounding fp exact) (word : exact ≤ 2 ^ 64) where
  -- Between a whole number and the next one.
  module _ (x : LongDouble) (floor n : ℕ) (small : n < exact) (le : floor ≤ n)
      (low : fp.less x (fp.from_count floor) ≡ false)
      (high : fp.less x (fp.from_count (floor + 1)) ≡ true) where
    under : (r : ℕ) → r < floor → fp.less (fp.from_count r) x ≡ true
    under r h = laws.less-le _ _ _ (laws.counts r floor h (omega arith)) low

    above : (r : ℕ) → r ≤ n → floor < r → fp.less (fp.from_count r) x ≡ false
    above r h k = laws.less-asym _ _ (elim (Bool-cases (r == floor + 1)) [
      | inl next ↦ let same : r ≡ floor + 1 = ground arith in rw same high
      | inr later ↦
          laws.less-le _ _ _ high
            (laws.less-asym _ _ (laws.counts (floor + 1) r (ground arith) (omega arith)))
    ])

    less_at :
        (r : ℕ)
        → r ≤ n
        → fp.less (fp.from_count r) x
          ≡ (if r == floor then fp.less (fp.from_count floor) x else ltb r floor)
    less_at r h = elim (Bool-cases (r == floor)) [
      | inl here ↦ let same : r ≡ floor = ground arith in rw (here, same) refl
      | inr apart ↦ elim (Bool-cases (ltb r floor)) [
        | inl lower ↦ rw (apart, lower) (under r (ground arith))
        | inr higher ↦ rw (apart, higher) (above r h (ground arith))
      ]
    ]

    ceil-less :
        (b : Bool)
        → fp.less (fp.from_count floor) x ≡ b
        → fp.less (fp.from_count n) x ≡ false
        → let rank = if b then add64 floor 1 else floor in
          (rank ≤ n) × ((r : ℕ) → r ≤ n → fp.less (fp.from_count r) x ≡ ltb r rank)
    ceil-less true e top =
        let apart : (n == floor) ≡ false = elim (Bool-cases (n == floor)) [
          | inl here ↦
              let same : n ≡ floor = ground arith in
              let e' : fp.less (fp.from_count n) x ≡ true = rw same e in cc
          | inr d ↦ d
        ] in
        let less : floor < n = ground arith in
        let next : add64 floor 1 ≡ floor + 1 = omega arith in
        (rw next (ground arith), λ r h. less_at r h ∙ rw (e, next) (ground arith))
    ceil-less false e top = (le, λ r h. less_at r h ∙ rw e (ground arith))

  -- The source's product and quotient of a percentage between 0 and 100.
  module _ (p : Double) (n : ℕ) (room : 100 * n < exact) (low : fp.below p (fp.tenths 0) ≡ false)
      (high : fp.below (fp.tenths 1000) p ≡ false) where
    abbrev share : LongDouble
    share = fp.divided (fp.times (fp.widen p) (fp.from_count n)) (fp.from_count 100)

    share_low : fp.less share (fp.from_count 0) ≡ false
    share_low =
        let start : fp.less (fp.widen p) (fp.from_count 0) ≡ false =
          rw (laws.widen_tenths 0 (omega arith)) at (laws.widen_order _ _ low) in
        let product = laws.times_order _ _ n start in
        let quotient =
          laws.divided_order _ _ 100 (omega arith)
            (rw (laws.times_counts 0 n (omega arith)) at product) in
        let nought : 0 * n ≡ 100 * 0 = omega arith in
        rw (nought, laws.divided_counts 0 100 (omega arith) (omega arith)) at quotient

    share_high : fp.less (fp.from_count n) share ≡ false
    share_high =
        let end : fp.less (fp.from_count 100) (fp.widen p) ≡ false =
          rw (laws.widen_tenths 100 (omega arith)) at (laws.widen_order _ _ high) in
        let product = laws.times_order _ _ n end in
        let quotient =
          laws.divided_order _ _ 100 (omega arith)
            (rw (laws.times_counts 100 n (omega arith)) at product) in
        rw (laws.divided_counts n 100 (omega arith) (omega arith)) at quotient

  clamp-ends :
      (p : Double)
      → (fp.below (clamp_percentile fp p) (fp.tenths 0) ≡ false)
        × (fp.below (fp.tenths 1000) (clamp_percentile fp p) ≡ false)
  unfolding clamp_percentile
  clamp-ends p = elim (Bool-cases (fp.below p (fp.tenths 0))) [
    | inl low ↦ rw low (
      laws.tenths_order 0 0 (omega arith) (omega arith),
      laws.tenths_order 0 1000 (omega arith) (omega arith),
    )
    | inr fine ↦ elim (Bool-cases (fp.below (fp.tenths 1000) p)) [
      | inl high ↦
          rw (fine, high)
            (
              laws.tenths_order 0 1000 (omega arith) (omega arith),
              laws.tenths_order 1000 1000 (omega arith) (omega arith),
            )
      | inr between ↦ rw (fine, between) (fine, between)
    ]
  ]

  rank_of-ceil :
      (p : Double) (n : ℕ)
      → 100 * n < exact
      → let share =
          fp.divided
            (fp.times (fp.widen (clamp_percentile fp p)) (fp.from_count n))
            (fp.from_count 100) in
        (rank_of fp p n ≤ n)
        × ((r : ℕ) → r ≤ n → fp.less (fp.from_count r) share ≡ ltb r (rank_of fp p n))
  unfolding rank_of
  rank_of-ceil p n room =
      let c = clamp_percentile fp p in
      let (bottom, top) = clamp-ends p in
      let low = share_low c n room bottom top in
      let high = share_high c n room bottom top in
      let (le, floor, next) = laws.truncated _ n (omega arith) low high in
      ceil-less (share c n room bottom top) _ n (omega arith) le floor next _ refl high

-- The percentage that counts: one outside of 0 to 100 is taken to the nearer end.
pub record Clamped {Double LongDouble : Type 0} (fp : FloatingPoint Double LongDouble)
    (percentile used : Double) : Type 0 where
  pub low : fp.below percentile (fp.tenths 0) ≡ true → used ≡ fp.tenths 0
  pub high :
      fp.below percentile (fp.tenths 0) ≡ false
      → fp.below (fp.tenths 1000) percentile ≡ true
      → used ≡ fp.tenths 1000
  pub inside :
      fp.below percentile (fp.tenths 0) ≡ false
      → fp.below (fp.tenths 1000) percentile ≡ false
      → used ≡ percentile

-- The nearest rank of a percentage, and the bin of the value that has it.
pub record NearestRank {Double LongDouble : Type 0} (fp : FloatingPoint Double LongDouble)
    (percentile : Double) (xs : List ℕ) (value : ℕ) : Type 0 where
  pub used : Double
  pub clamped : Clamped fp percentile used
  pub rank : ℕ
  pub in_range : rank ≤ length xs
  pub ceil :
      (r : ℕ)
      → r ≤ length xs
      → fp.less
          (fp.from_count r)
          (fp.divided (fp.times (fp.widen used) (fp.from_count (length xs))) (fp.from_count 100))
        ≡ ltb r rank
  pub bin : ℕ
  pub in_array : bin < k_bin_count
  pub reported : value ≡ value_for_index bin
  pub earlier : before bin xs < max rank 1
  pub reached : max rank 1 ≤ before (suc bin) xs

clamp_percentile-Clamped :
    {Double LongDouble : Type 0} (fp : FloatingPoint Double LongDouble) (p : Double)
    → Clamped fp p (clamp_percentile fp p)
unfolding clamp_percentile
clamp_percentile-Clamped fp p = record {
  low = λ h. rw h refl;
  high = λ h k. rw (h, k) refl;
  inside = λ h k. rw (h, k) refl;
}

-- With floating-point numbers that are ordered, hold whole numbers up to some bound of at most 2 ^ 64
-- without error, round products and quotients in order and exactly on whole numbers, and drop the
-- fraction in a conversion, `value_at_percentile` of a histogram of some values, where 100 times their
-- number is below that bound, takes a percentile outside of 0 to 100 to the nearer end and reports the
-- value of a bin of the array. That is the bin of the nearest rank: the rank is the least whole number
-- not below percentile * count / 100, and not above the number of values; with at least one for the
-- rank, fewer values are in earlier bins, and at least as many are in that bin or earlier ones.
pub value_at_percentile_lem :
    {Double LongDouble : Type 0} (fp : FloatingPoint Double LongDouble) (exact : ℕ)
    → IsRounding fp exact
    → exact ≤ 2 ^ 64
    → {histogram : HdrHistogram} (x : ℕ) (xs : List ℕ) → Recorded histogram (x ∷ xs)
    → 100 * length (x ∷ xs) < exact
    → (percentile : Double)
    → NearestRank fp percentile (x ∷ xs) (value_at_percentile fp histogram percentile)
unfolding value_at_percentile
value_at_percentile_lem fp exact laws word {histogram} x xs r room percentile =
    let total : histogram.count ≡ length (x ∷ xs) = r.total in
    let some_left : (histogram.count == 0) ≡ false = ground arith in
    let zero_before = before-zero (x ∷ xs) in
    let (le, ceil) = rank_of-ceil laws word percentile (length (x ∷ xs)) room in
    let (bin, bound, value, low, high) =
      value_at_rank_lem r (max (rank_of fp percentile (length (x ∷ xs))) 1) k_bin_count 0
        (ground arith) (omega arith) (ground arith) in
    record {
      used = clamp_percentile fp percentile;
      clamped = clamp_percentile-Clamped fp percentile;
      rank = rank_of fp percentile (length (x ∷ xs));
      in_range = le;
      ceil = ceil;
      bin = bin;
      in_array = bound;
      reported = rw some_left (
          ap (λ (n : ℕ). value_at_rank k_bin_count 0 0 (max (rank_of fp percentile n) 1) histogram)
            total
          ∙ rw zero_before at value);
      earlier = low;
      reached = high;
    }
