-- ===== src/Examples/Reader.antt =====
-- A stream that delivers one byte at a time, and a few arguments.
use Prim.Native.String.{String}
use nasdaq_itch_order_book_e.Base.{
  ℕ, ◌^◌, ◌≡◌, ◌≤◌, ◌<◌, refl, ap, true, Option, none, some, List, [], ◌∷◌, inl, inr, Bool-cases,
  arith, length, take, drop, if◌then◌else◌,
}
use nasdaq_itch_order_book_e.Replay.{
  Read, received, end_of_input, next_frame, ReplayConfig, default_config, parse_arguments,
  string_eq, parse_options, parse_option, set_ring_capacity, parse_capacity,
}
use nasdaq_itch_order_book_e.Replay.Frames.{Delivers}
use nasdaq_itch_order_book_e.Replay.Decoding.{Framed, frame_decodes_lem}
use nasdaq_itch_order_book_e.Replay.Arguments.{Usable, parse_arguments_lem}

abbrev pub one_byte : List ℕ → ℕ → Read (List ℕ)
one_byte [] capacity = end_of_input
one_byte (b ∷ bytes) capacity = received (b ∷ []) bytes

abbrev pub Is : List ℕ → List ℕ → Type 0
Is stream file = stream ≡ file

pub one_byte-Delivers : Delivers one_byte Is
one_byte-Delivers = record {
  at_end = λ s capacity e room. ap (λ (t : List ℕ). one_byte t capacity) e;
  some_left = λ s capacity file e some_bytes room. next_byte s capacity file e some_bytes room;
}
  where
    next_byte :
        (s : List ℕ) (capacity : ℕ) (file : List ℕ)
        → s ≡ file
        → 0 < length file
        → 0 < capacity
        → (n : ℕ) × (rest : List ℕ) × (0 < n)
          × (n ≤ capacity)
          × (n ≤ length file)
          × (one_byte s capacity ≡ received (take n file) rest)
          × (rest ≡ drop n file)
    next_byte s capacity [] e p q = absurd (omega arith)
    next_byte s capacity (b ∷ file) e p q = (
      1,
      file,
      omega arith,
      omega arith,
      omega arith,
      ap (λ (t : List ℕ). one_byte t capacity) e,
      refl,
    )

-- A message of one byte, and the prefix of the next one.
abbrev two_frames : List ℕ
two_frames = 0 ∷ (1 ∷ (83 ∷ (0 ∷ (12 ∷ []))))

frame_decodes_lem_example : Framed Is two_frames (next_frame one_byte two_frames)
frame_decodes_lem_example =
    frame_decodes_lem one_byte-Delivers two_frames two_frames refl
      (omega arith, (omega arith, (omega arith, (omega arith, (omega arith, tt)))))

-- A reader of numbers that knows one.
abbrev eight : String → Option ℕ
eight s = if string_eq s "8" then some 8 else none

eight_word : (s : String) (n : ℕ) → eight s ≡ some n → n < 2 ^ 64
eight_word s n h = elim (Bool-cases (string_eq s "8")) [
  | inl t ↦ let e : some 8 ≡ some n = rw t at h in let same : 8 ≡ n = cc e in omega arith
  | inr f ↦ let e : none ≡ some n = rw f at h in cc e
]

abbrev eight_slots : ReplayConfig
eight_slots = record default_config {
  input_path = "sample.itch";
  ring_capacity = 8;
  fail_on_reject = true;
}

eight_parsed :
    parse_arguments eight
      ("sample.itch" ∷ ("--fail-on-reject" ∷ ("--ring-capacity" ∷ ("8" ∷ []))))
      default_config
    ≡ some eight_slots
unfolding parse_arguments parse_options parse_option set_ring_capacity parse_capacity
eight_parsed = refl

parse_arguments_lem_example : Usable eight_slots
parse_arguments_lem_example =
    parse_arguments_lem eight eight_word
      ("sample.itch" ∷ ("--fail-on-reject" ∷ ("--ring-capacity" ∷ ("8" ∷ [])))) eight_slots
      eight_parsed
