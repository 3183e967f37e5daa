-- ===== src/Latency/Counts.antt =====
-- The histogram as a summary of the values recorded in it.
use Prim.Native.Nat.{min, max}
use nasdaq_itch_order_book_e.Base.{
  ℕ, zero, suc, ◌+◌, ◌^◌, ◌≤◌, ◌<◌, ◌≡◌, refl, ap, ◌∙◌, Bool, false, ltb, leb, ◌==◌, if◌then◌else◌,
  List, [], ◌∷◌, inl, inr, Bool-cases, arith, length, update, add64,
}
use nasdaq_itch_order_book_e.Latency.{
  HdrHistogram, index_for, value_for_index, k_bin_count, record_value, reset, count, min_ns, max_ns,
  value_at_rank,
}
use nasdaq_itch_order_book_e.Latency.Bins.{index_for_lem}

abbrev pub tally : (ℕ → Bool) → List ℕ → ℕ
tally test [] = 0
tally test (x ∷ xs) = if test x then suc (tally test xs) else tally test xs

-- How many values went to an earlier bin.
abbrev pub before : ℕ → List ℕ → ℕ
before bin xs = tally (λ x. ltb (index_for x) bin) xs

abbrev pub least : List ℕ → ℕ
least [] = 0
least (x ∷ []) = x
least (x ∷ (y ∷ xs)) = min x (least (y ∷ xs))

abbrev pub greatest : List ℕ → ℕ
greatest [] = 0
greatest (x ∷ xs) = max x (greatest xs)

tally-le : (test : ℕ → Bool) (xs : List ℕ) → tally test xs ≤ length xs
tally-le test [] = omega arith
tally-le test (x ∷ xs) = elim (Bool-cases (test x)) [
  | inl t ↦ rw t (omega (arith, tally-le test xs))
  | inr f ↦ rw f (omega (arith, tally-le test xs))
]

before-suc :
    (bin : ℕ) (xs : List ℕ)
    → before (suc bin) xs ≡ before bin xs + tally (λ x. index_for x == bin) xs
before-suc bin [] = refl
before-suc bin (x ∷ xs) = let rest = before-suc bin xs in ground arith

pub before-zero : (xs : List ℕ) → before 0 xs ≡ 0
before-zero [] = refl
before-zero (x ∷ xs) = let rest = before-zero xs in ground arith

-- The histogram after these values, the last one first.
pub record Recorded (histogram : HdrHistogram) (xs : List ℕ) : Type 0 where
  pub short : length xs < 2 ^ 64
  pub tallies : (bin : ℕ) → histogram.counts bin ≡ tally (λ x. index_for x == bin) xs
  pub in_range : before k_bin_count xs ≡ length xs
  pub total : count histogram ≡ length xs
  pub smallest : min_ns histogram ≡ least xs
  pub largest : max_ns histogram ≡ greatest xs
  pub stored : histogram.max ≡ greatest xs

pub reset-Recorded : Recorded reset []
reset-Recorded = record {
  short = omega arith;
  tallies = λ bin. refl;
  in_range = refl;
  total = refl;
  smallest = refl;
  largest = refl;
  stored = refl;
}

tallies-update :
    (counts : ℕ → ℕ) (xs : List ℕ) (value bin : ℕ)
    → counts bin ≡ tally (λ x. index_for x == bin) xs
    → counts (index_for value) ≡ tally (λ x. index_for x == index_for value) xs
    → length xs + 1 < 2 ^ 64
    → update counts (index_for value) (add64 (counts (index_for value)) 1) bin
      ≡ tally (λ x. index_for x == bin) (value ∷ xs)
tallies-update counts xs value bin here there room =
    let few = tally-le (λ x. index_for x == index_for value) xs in
    elim (Bool-cases (index_for value == bin)) [
      | inl t ↦
          let e : index_for value ≡ bin = ground arith in
          rw (t, there)
            (let same = ap (λ (b : ℕ). tally (λ x. index_for x == b) xs) e in omega arith)
      | inr f ↦ rw f here
    ]

smallest-record :
    {histogram : HdrHistogram} (xs : List ℕ)
    → Recorded histogram xs
    → (value : ℕ) → length xs + 1 < 2 ^ 64
    → min_ns (record_value histogram value) ≡ least (value ∷ xs)
unfolding record_value
smallest-record {histogram} [] r value room =
    let total = r.total in let one : add64 histogram.count 1 ≡ 1 = omega arith in rw one refl
smallest-record {histogram} (y ∷ ys) r value room =
    let total = r.total in
    let smallest = r.smallest in
    let many : (add64 histogram.count 1 == 1) ≡ false = ground arith in
    let some_left : (add64 histogram.count 1 == 0) ≡ false = ground arith in
    let before : (histogram.count == 0) ≡ false = ground arith in
    let least_so_far : histogram.min ≡ least (y ∷ ys) =
      (let known : (if histogram.count == 0 then 0 else histogram.min) ≡ least (y ∷ ys) =
          smallest in
        rw before at known) in
    rw (some_left, many) (ground arith)

largest-record :
    {histogram : HdrHistogram} {xs : List ℕ}
    → Recorded histogram xs
    → (value : ℕ) → length xs + 1 < 2 ^ 64
    → max_ns (record_value histogram value) ≡ greatest (value ∷ xs)
unfolding record_value
largest-record {histogram} {xs} r value room =
    let total = r.total in
    let stored = r.stored in
    let some_left : (add64 histogram.count 1 == 0) ≡ false = ground arith in
    rw some_left (ground arith)

-- `record` of a value of 64 bits, where fewer than 2 ^ 64 values are recorded with it, keeps the
-- histogram a summary of the values: each counter is the number of values in its bin, and `count`, `min`
-- and `max` are their number, the least and the greatest.
pub record_value_lem :
    {histogram : HdrHistogram} {xs : List ℕ}
    → Recorded histogram xs
    → (value_ns : ℕ) → value_ns < 2 ^ 64
    → length xs + 1 < 2 ^ 64
    → Recorded (record_value histogram value_ns) (value_ns ∷ xs)
unfolding record_value
record_value_lem {histogram} {xs} r value_ns h room =
    let total = r.total in
    let counted : add64 histogram.count 1 ≡ suc (length xs) = omega arith in
    let (bound, under, close, exact) = index_for_lem value_ns h in
    record {
      short = omega arith;
      tallies = λ bin.
          tallies-update histogram.counts xs value_ns bin (r.tallies bin)
            (r.tallies (index_for value_ns)) room;
      in_range = let all = r.in_range in ground arith;
      total = counted;
      smallest = smallest-record xs r value_ns room;
      largest = largest-record r value_ns room;
      stored = let stored = r.stored in ground arith;
    }

-- The loop ends in the bin of the value of that rank.
pub value_at_rank_lem :
    {histogram : HdrHistogram} {xs : List ℕ}
    → Recorded histogram xs
    → (rank bins index : ℕ) → rank ≤ length xs
    → bins + index ≡ k_bin_count
    → before index xs < rank
    → (bin : ℕ) × (bin < k_bin_count)
      × (value_at_rank bins index (before index xs) rank histogram ≡ value_for_index bin)
      × (before bin xs < rank)
      × (rank ≤ before (suc bin) xs)
unfolding value_at_rank
value_at_rank_lem {histogram} {xs} r rank zero index le e lt =
    let last : index ≡ k_bin_count = omega arith in
    let all : before index xs ≡ length xs = ap (λ (b : ℕ). before b xs) last ∙ r.in_range in
    absurd (omega arith)
value_at_rank_lem {histogram} {xs} r rank (suc bins) index le e lt =
    let few = tally-le (λ x. ltb (index_for x) (suc index)) xs in
    let short = r.short in
    let step = before-suc index xs in
    let seen : add64 (before index xs) (histogram.counts index) ≡ before (suc index) xs =
      rw (r.tallies index) (omega arith) in
    let next : index + 1 ≡ suc index = omega arith in
    elim (Bool-cases (leb rank (before (suc index) xs))) [
      | inl t ↦ (index, omega arith, rw (seen, t) refl, lt, ground arith)
      | inr f ↦
          let (bin, bound, value, low, high) =
            value_at_rank_lem r rank bins (suc index) le (omega arith) (ground arith) in
          (bin, bound, rw (seen, f, next) value, low, high)
    ]
