-- ===== src/Replay.antt =====
-- `ItchFrameReader::next_frame`, `record_latency` and the arguments of src/app/itch_replay.cpp. The
-- stream, a file or a gzip file, is a parameter.
pub mod Frames
pub mod Decoding
pub mod Arguments
pub mod Pipeline
pub mod Fetched
pub mod Progress
pub mod Turns
pub mod Pushing
pub mod Popping
pub mod Runs
pub mod Report
pub mod Work
pub mod Nearing
pub mod Ending
use Prim.Native.String.{String, compare}
use Prim.Native.Nat.{Ordering}
use nasdaq_itch_order_book_e.Base.{
  ℕ, zero, suc, ◌+◌, ◌-◌, ◌*◌, ◌^◌, bit_and, bit_or, ◌||◌, not, ltb, Bool, true, false, Option,
  none, some, List, [], ◌∷◌, ◌++◌, ◌==◌, if◌then◌else◌, length, get_or, ◌>>=◌,
}
use nasdaq_itch_order_book_e.MatchingEngine.{
  EngineLimits, ApplyAction, added, cancelled, executed, replaced,
}
use nasdaq_itch_order_book_e.Latency.{HdrHistogram, record_value}

-- The result of `read_at_most`: bytes, the end of the input, or a failure.
pub data Read (Stream : Type 0) : Type 0 where
  received : (bytes : List ℕ) (rest : Stream) → Read Stream
  end_of_input : Read Stream
  read_failed : Read Stream

pub data FrameRead (Stream : Type 0) : Type 0 where
  frame : (bytes : List ℕ) (rest : Stream) → FrameRead Stream
  end_of_file : FrameRead Stream
  read_error : FrameRead Stream

module _ {Stream : Type 0} (read_at_most : Stream → ℕ → Read Stream) where
  -- The two loops that fill a buffer, on fuel: `missing` bytes are to come, and `none` is an error.
  unfoldable pub read_rest : ℕ → ℕ → List ℕ → Stream → Option (Option (List ℕ × Stream))
  read_rest zero missing got stream = none
  read_rest (suc fuel) missing got stream = elim (missing == 0) [
    | true ↦ some (some (got, stream))
    | false ↦ elim (read_at_most stream missing) [
      | received bytes rest ↦ read_rest fuel (missing - length bytes) (got ++ bytes) rest
      | end_of_input ↦ some none
      | read_failed ↦ some none
    ]
  ]

  unfoldable pub read_payload : List ℕ → Stream → Option (FrameRead Stream)
  read_payload prefix stream =
      let payload_size = bit_or (get_or prefix 0 0 * 2 ^ 8) (get_or prefix 1 0) in
      do
        payload ← read_rest (suc payload_size) payload_size prefix stream
        elim payload [ some (bytes, rest) ↦ some (frame bytes rest) | none ↦ some read_error ]

  unfoldable pub next_frame : Stream → Option (FrameRead Stream)
  next_frame stream = elim (read_at_most stream 2) [
    | read_failed ↦ some read_error
    | end_of_input ↦ some end_of_file
    | received bytes rest ↦ do
      prefix ← read_rest 2 (2 - length bytes) bytes rest
      elim prefix [ some (whole, after) ↦ read_payload whole after | none ↦ some read_error ]
  ]

pub record OperationLatency : Type 0 where
  pub add : HdrHistogram
  pub cancel : HdrHistogram
  pub execution : HdrHistogram
  pub replace : HdrHistogram

unfoldable pub record_latency : OperationLatency → ApplyAction → ℕ → OperationLatency
record_latency latency added duration_ns = record latency {
  add = record_value latency.add duration_ns;
}
record_latency latency cancelled duration_ns = record latency {
  cancel = record_value latency.cancel duration_ns;
}
record_latency latency executed duration_ns = record latency {
  execution = record_value latency.execution duration_ns;
}
record_latency latency replaced duration_ns = record latency {
  replace = record_value latency.replace duration_ns;
}
record_latency latency other duration_ns = latency

-- `==` on strings.
abbrev pub string_eq : String → String → Bool
string_eq a b = elim (compare a b) [ Ordering.eq ↦ true | _ ↦ false ]

pub record ReplayConfig : Type 0 where
  pub input_path : String
  pub ring_capacity : ℕ
  pub engine_limits : EngineLimits
  pub checkpoint_every : ℕ
  pub snapshot_locate : Option ℕ
  pub fail_on_reject : Bool

abbrev pub default_config : ReplayConfig
default_config = record {
  input_path = "";
  ring_capacity = 2 ^ 16;
  engine_limits = record { max_instruments = 2 ^ 64 - 1; max_resting_orders = 2 ^ 64 - 1 };
  checkpoint_every = 0;
  snapshot_locate = none;
  fail_on_reject = false;
}

-- `std::stoull`, a number of 64 bits, or nothing where it throws.
module _ (stoull : String → Option ℕ) where
  unfoldable pub parse_capacity : String → ℕ
  parse_capacity input = elim (stoull input) [
    | some value ↦ if value == 0 || not (bit_and value (value - 1) == 0) then 0 else value
    | none ↦ 0
  ]

  unfoldable pub parse_positive_size : String → Option ℕ
  parse_positive_size input = elim (stoull input) [
    | some value ↦ if value == 0 || ltb (2 ^ 64 - 1) value then none else some value
    | none ↦ none
  ]

  -- The branches of the options that take a value; nothing is the source's `return false`.
  unfoldable pub set_ring_capacity : String → ReplayConfig → Option ReplayConfig
  set_ring_capacity value config =
      let capacity = parse_capacity value in
      if capacity == 0 then none else some (record config { ring_capacity = capacity })

  unfoldable pub set_max_instruments : String → ReplayConfig → Option ReplayConfig
  set_max_instruments value config = do
    limit ← parse_positive_size value
    some (record config { engine_limits = record config.engine_limits { max_instruments = limit } })

  unfoldable pub set_max_resting_orders : String → ReplayConfig → Option ReplayConfig
  set_max_resting_orders value config = do
    limit ← parse_positive_size value
    some (record config {
      engine_limits = record config.engine_limits { max_resting_orders = limit };
    })

  unfoldable pub set_checkpoint_every : String → ReplayConfig → Option ReplayConfig
  set_checkpoint_every value config = do
    interval ← parse_positive_size value
    some (record config { checkpoint_every = interval })

  unfoldable pub set_snapshot_locate : String → ReplayConfig → Option ReplayConfig
  set_snapshot_locate value config = do
    locate ← parse_positive_size value
    if ltb (2 ^ 16 - 1) locate then none else some (record config { snapshot_locate = some locate })

  unfoldable pub parse_option : String → String → ReplayConfig → Option ReplayConfig
  parse_option option value config =
      if string_eq option "--ring-capacity"
      then set_ring_capacity value config
      else if string_eq option "--max-instruments"
      then set_max_instruments value config
      else if string_eq option "--max-resting-orders"
      then set_max_resting_orders value config
      else if string_eq option "--checkpoint-every"
      then set_checkpoint_every value config
      else if string_eq option "--snapshot-locate"
      then set_snapshot_locate value config
      else none

  unfoldable pub parse_options : List String → ReplayConfig → Option ReplayConfig
  parse_options [] config = some config
  parse_options (option ∷ []) config =
      if string_eq option "--fail-on-reject"
      then some (record config { fail_on_reject = true })
      else none
  parse_options (option ∷ (value ∷ options)) config =
      let flag = parse_options (value ∷ options) (record config { fail_on_reject = true }) in
      if string_eq option "--fail-on-reject"
      then flag
      else (do next ← parse_option option value config; parse_options options next)

  -- The arguments after the program's name.
  unfoldable pub parse_arguments : List String → ReplayConfig → Option ReplayConfig
  parse_arguments [] config = none
  parse_arguments (path ∷ options) config =
      parse_options options (record config { input_path = path })
