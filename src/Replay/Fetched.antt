-- ===== src/Replay/Fetched.antt =====
-- What the producer gets for a file, and the events of a file taken one after the other.
use nasdaq_itch_order_book_e.Base.{
  ℕ, zero, suc, ◌+◌, ◌≤◌, ◌<◌, ◌≡◌, refl, ◌∙◌, true, false, some, Bool, List, [], ◌∷◌, inl, inr,
  arith, length, take, drop,
}
use nasdaq_itch_order_book_e.Itch.{
  ItchEvent, DecodedMessage, DecodeResult, complete, need_more_data, failed,
}
use nasdaq_itch_order_book_e.Itch.Decoder.{decode_next}
use nasdaq_itch_order_book_e.Itch.Framing.{frame_length, waits, taken_or, taken_lem, waits_lem}
use nasdaq_itch_order_book_e.Itch.Words.{Bytes}
use nasdaq_itch_order_book_e.MatchingEngine.Apply.{AllFit}
use nasdaq_itch_order_book_e.MatchingEngine.Feed.{next-Fits}
use nasdaq_itch_order_book_e.Replay.{Read, frame, end_of_file, read_error, next_frame}
use nasdaq_itch_order_book_e.Replay.Frames.{
  Delivers, payload_size_of, next_frame_lem, length-take, length-drop,
}
use nasdaq_itch_order_book_e.Replay.Decoding.{same_size, cut_short, whole_frame}

-- The decoder on a whole file, one message after the other: the events up to the first message that
-- is cut off or that fails, and whether there is none. The fuel is one unit for each message.
unfoldable pub file_events : ℕ → List ℕ → List ItchEvent × Bool
file_events zero file = ([], true)
file_events (suc fuel) [] = ([], true)
file_events (suc fuel) (b ∷ file) = elim (decode_next (b ∷ file)) [
  | complete message ↦
      let (events, ok) = file_events fuel (drop message.bytes_consumed (b ∷ file)) in
      (message.event ∷ events, ok)
  | need_more_data ↦ ([], false)
  | failed error ↦ ([], false)
]

pub data Fetch {Stream : Type 0} (read_at_most : Stream → ℕ → Read Stream)
    (Holds : Stream → List ℕ → Type 0) (file : List ℕ) (s : Stream) : Type 0 where
  at_end :
      (file ≡ []) → next_frame read_at_most s ≡ some end_of_file → Fetch read_at_most Holds file s
  cut_off :
      0 < length file
      → waits (decode_next file) ≡ true
      → next_frame read_at_most s ≡ some read_error
      → Fetch read_at_most Holds file s
  whole :
      (bytes : List ℕ) (rest : Stream)
      → 2 ≤ length bytes
      → length bytes ≤ length file
      → next_frame read_at_most s ≡ some (frame bytes rest)
      → decode_next bytes ≡ decode_next file
      → taken_or (length bytes) (decode_next file) ≡ length bytes
      → Holds rest (drop (length bytes) file)
      → Fetch read_at_most Holds file s

taken_whole :
    (file : List ℕ)
    → Bytes file
    → 2 + payload_size_of file ≤ length file
    → taken_or (2 + payload_size_of file) (decode_next file) ≡ 2 + payload_size_of file
taken_whole [] bytes h = absurd (omega arith)
taken_whole (b0 ∷ []) bytes h = absurd (omega arith)
taken_whole (b0 ∷ (b1 ∷ body)) (h0, (h1, rest)) h =
    let size = same_size b0 b1 body h0 h1 in rw size at (taken_lem (b0 ∷ (b1 ∷ body)))

module _ {Stream : Type 0} {read_at_most : Stream → ℕ → Read Stream}
    {Holds : Stream → List ℕ → Type 0} (d : Delivers read_at_most Holds) where
  pub fetch_lem :
      (file : List ℕ) (s : Stream) → Holds s file → Bytes file → Fetch read_at_most Holds file s
  fetch_lem file s holds bytes = elim (next_frame_lem d file s holds) [
    | inl (empty, run) ↦ at_end empty run
    | inr (inl (some_bytes, short, run)) ↦
        cut_off some_bytes (waits_lem file ∙ cut_short file bytes short) run
    | inr (inr (rest, enough, run, holds')) ↦
        let len = length-take (2 + payload_size_of file) file enough in
        whole (take (2 + payload_size_of file) file) rest (omega arith) (omega arith) run
          (whole_frame file bytes enough) (rw len (taken_whole file bytes enough)) (rw len holds')
  ]

-- Every event of the file has prices and quantities of 32 bits.
pub file_events-AllFit : (fuel : ℕ) (file : List ℕ) → AllFit (file_events fuel file).0
unfolding file_events
file_events-AllFit zero file = tt
file_events-AllFit (suc fuel) [] = tt
file_events-AllFit (suc fuel) (b ∷ file) =
    go (decode_next (b ∷ file)) refl (λ n. file_events-AllFit fuel (drop n (b ∷ file)))
  where
    go :
        (r : DecodeResult)
        → decode_next (b ∷ file) ≡ r
        → ((n : ℕ) → AllFit (file_events fuel (drop n (b ∷ file))).0)
        → AllFit (file_events (suc fuel) (b ∷ file)).0
    go (complete m) e rest = rw (file_events, e) (next-Fits (b ∷ file) m e, rest m.bytes_consumed)
    go need_more_data e rest = rw (file_events, e) tt
    go (failed error) e rest = rw (file_events, e) tt

-- A message takes some bytes off the file, so that one unit of fuel for each byte is enough.
taken_some :
    (b : ℕ) (file : List ℕ) (m : DecodedMessage)
    → decode_next (b ∷ file) ≡ complete m
    → length (drop m.bytes_consumed (b ∷ file)) ≤ length file
taken_some b file m e =
    let taken : m.bytes_consumed ≡ 2 + frame_length (b ∷ file) = rw e at (taken_lem (b ∷ file)) in
    omega (arith, length-drop m.bytes_consumed (b ∷ file))

pub file_events-enough :
    (n m : ℕ) (file : List ℕ)
    → length file ≤ n
    → length file ≤ m
    → file_events n file ≡ file_events m file
unfolding file_events
file_events-enough zero zero file h k = refl
file_events-enough zero (suc m) [] h k = refl
file_events-enough zero (suc m) (b ∷ file) h k = absurd (omega arith)
file_events-enough (suc n) zero [] h k = refl
file_events-enough (suc n) zero (b ∷ file) h k = absurd (omega arith)
file_events-enough (suc n) (suc m) [] h k = refl
file_events-enough (suc n) (suc m) (b ∷ file) h k =
    go (decode_next (b ∷ file)) refl
      (λ x le. file_events-enough n m (drop x (b ∷ file)) (omega arith) (omega arith))
  where
    go :
        (r : DecodeResult)
        → decode_next (b ∷ file) ≡ r
        → ((x : ℕ)
            → length (drop x (b ∷ file)) ≤ length file
            → file_events n (drop x (b ∷ file)) ≡ file_events m (drop x (b ∷ file)))
        → file_events (suc n) (b ∷ file) ≡ file_events (suc m) (b ∷ file)
    go (complete message) e same =
        rw (file_events, e, same message.bytes_consumed (taken_some b file message e)) refl
    go need_more_data e same = rw (file_events, e) refl
    go (failed error) e same = rw (file_events, e) refl
