-- ===== src/Latency.antt =====
-- The histogram of src/metrics/latency.cpp and include/lob/latency.hpp.
pub mod Bins
pub mod Counts
pub mod Percentiles
use nasdaq_itch_order_book_e.Base.{
  ℕ, zero, suc, ◌+◌, ◌-◌, ◌*◌, ◌/◌, ◌%◌, ◌^◌, Bool, ◌||◌, ◌==◌, ltb, leb, if◌then◌else◌, update,
  add64, sub64, sub32,
}
use nasdaq_itch_order_book_e.Base.Bits.{bit_width}
use Prim.Native.Nat.{max}

abbrev pub k_significant_bits : ℕ
k_significant_bits = 10

abbrev pub k_sub_bucket_count : ℕ
k_sub_bucket_count = 2 ^ (k_significant_bits + 1)

abbrev pub k_sub_bucket_half_count : ℕ
k_sub_bucket_half_count = k_sub_bucket_count / 2

abbrev pub k_bucket_count : ℕ
k_bucket_count = 64

abbrev pub k_bin_count : ℕ
k_bin_count =
    k_sub_bucket_count + (k_bucket_count - (k_significant_bits + 1)) * k_sub_bucket_half_count

pub record HdrHistogram : Type 0 where
  pub counts : ℕ → ℕ
  pub count : ℕ
  pub min : ℕ
  pub max : ℕ

pub record LatencySummary : Type 0 where
  pub count : ℕ
  pub min_ns : ℕ
  pub max_ns : ℕ
  pub p50_ns : ℕ
  pub p99_ns : ℕ
  pub p999_ns : ℕ

unfoldable pub index_for : ℕ → ℕ
index_for value_ns =
    let exponent = if value_ns == 0 then 0 else bit_width 64 value_ns - 1 in
    let shift = if ltb k_significant_bits exponent then exponent - k_significant_bits else 0 in
    let sub_bucket = value_ns / 2 ^ shift in
    if leb exponent k_significant_bits
    then sub_bucket
    else let compact_bucket = sub32 exponent (k_significant_bits + 1) in
      add64 (add64 k_sub_bucket_count (compact_bucket * k_sub_bucket_half_count % 2 ^ 64))
        (sub64 sub_bucket k_sub_bucket_half_count)

unfoldable pub value_for_index : ℕ → ℕ
value_for_index index =
    if ltb index k_sub_bucket_count
    then index
    else let compact_index = index - k_sub_bucket_count in
      let exponent = (k_significant_bits + 1 + compact_index / k_sub_bucket_half_count) % 2 ^ 32 in
      let sub_bucket = k_sub_bucket_half_count + compact_index % k_sub_bucket_half_count in
      let shift = sub32 exponent k_significant_bits in sub_bucket * 2 ^ shift % 2 ^ 64

-- `record`.
unfoldable pub record_value : HdrHistogram → ℕ → HdrHistogram
record_value histogram value_ns =
    let bin = index_for value_ns in
    let count = add64 histogram.count 1 in
    record {
      counts = update histogram.counts bin (add64 (histogram.counts bin) 1);
      count = count;
      min = if count == 1 || ltb value_ns histogram.min then value_ns else histogram.min;
      max = if ltb histogram.max value_ns then value_ns else histogram.max;
    }

-- `reset`, which the constructor calls.
abbrev pub reset : HdrHistogram
reset = record { counts = λ index. 0; count = 0; min = 0; max = 0 }

abbrev pub count : HdrHistogram → ℕ
count histogram = histogram.count

abbrev pub min_ns : HdrHistogram → ℕ
min_ns histogram = if histogram.count == 0 then 0 else histogram.min

abbrev pub max_ns : HdrHistogram → ℕ
max_ns histogram = if histogram.count == 0 then 0 else histogram.max

-- The loop of `value_at_percentile`, on fuel: `bins` bins are left from `index` on.
unfoldable pub value_at_rank : ℕ → ℕ → ℕ → ℕ → HdrHistogram → ℕ
value_at_rank zero index observed rank histogram = histogram.max
value_at_rank (suc bins) index observed rank histogram =
    let seen = add64 observed (histogram.counts index) in
    let later = value_at_rank bins (index + 1) seen rank histogram in
    if leb rank seen then value_for_index index else later

-- What the source does with a `double` and a `long double` that is no NaN: constants in tenths, tests,
-- conversions, a product and a quotient.
pub record FloatingPoint (Double LongDouble : Type 0) : Type 0 where
  pub tenths : ℕ → Double
  pub below : Double → Double → Bool
  pub widen : Double → LongDouble
  pub from_count : ℕ → LongDouble
  pub less : LongDouble → LongDouble → Bool
  pub times : LongDouble → LongDouble → LongDouble
  pub divided : LongDouble → LongDouble → LongDouble
  pub truncate : LongDouble → ℕ

module _ {Double LongDouble : Type 0} (fp : FloatingPoint Double LongDouble) where
  -- `std::clamp(percentile, 0.0, 100.0)`
  unfoldable pub clamp_percentile : Double → Double
  clamp_percentile percentile =
      if fp.below percentile (fp.tenths 0)
      then fp.tenths 0
      else if fp.below (fp.tenths 1000) percentile
      then fp.tenths 1000
      else percentile

  unfoldable pub rank_of : Double → ℕ → ℕ
  rank_of percentile count =
      let scaled =
        fp.divided (fp.times (fp.widen (clamp_percentile percentile)) (fp.from_count count))
          (fp.from_count 100) in
      let rank = fp.truncate scaled in
      if fp.less (fp.from_count rank) scaled then add64 rank 1 else rank

  unfoldable pub value_at_percentile : HdrHistogram → Double → ℕ
  value_at_percentile histogram percentile =
      if histogram.count == 0
      then 0
      else value_at_rank k_bin_count 0 0 (max (rank_of percentile histogram.count) 1) histogram

  unfoldable pub summary : HdrHistogram → LatencySummary
  summary histogram = record {
    count = count histogram;
    min_ns = min_ns histogram;
    max_ns = max_ns histogram;
    p50_ns = value_at_percentile histogram (fp.tenths 500);
    p99_ns = value_at_percentile histogram (fp.tenths 990);
    p999_ns = value_at_percentile histogram (fp.tenths 999);
  }
