-- ===== src/Replay/Decoding.antt =====
-- The frames that the reader hands to the decoder, and the decoder on the file as a whole.
use mathlib.Core.Logic.{◌⊎◌}
use nasdaq_itch_order_book_e.Base.{
  ℕ, zero, suc, ◌+◌, ◌*◌, ◌^◌, ◌≤◌, ◌<◌, ◌≡◌, refl, sym, ap, ◌∙◌, bit_or, true, false, Option, some,
  List, get_or, [], ◌∷◌, ◌++◌, inl, inr, arith, length, take, drop,
}
use nasdaq_itch_order_book_e.Base.BitLaws.{or-shifted}
use nasdaq_itch_order_book_e.Itch.Decoder.{decode_next}
use nasdaq_itch_order_book_e.Itch.Framing.{waits, is_short, frame_length, waits_lem, next-append}
use nasdaq_itch_order_book_e.Itch.Words.{Bytes, read_be_lem}
use nasdaq_itch_order_book_e.Replay.{Read, FrameRead, frame, end_of_file, read_error, next_frame}
use nasdaq_itch_order_book_e.Replay.Frames.{Delivers, payload_size_of, next_frame_lem, length-take}

take-drop : (n : ℕ) (xs : List ℕ) → take n xs ++ drop n xs ≡ xs
take-drop zero xs = refl
take-drop (suc n) [] = refl
take-drop (suc n) (x ∷ xs) = ap (λ (t : List ℕ). x ∷ t) (take-drop n xs)

-- The reader's size of a frame is the decoder's.
pub same_size :
    (b0 b1 : ℕ) (body : List ℕ)
    → b0 < 2 ^ 8
    → b1 < 2 ^ 8
    → frame_length (b0 ∷ (b1 ∷ body)) ≡ bit_or (b0 * 2 ^ 8) b1
same_size b0 b1 body h0 h1 =
    read_be_lem (b0 ∷ (b1 ∷ [])) (b0 ∷ (b1 ∷ body)) 0 body (h0, (h1, tt)) refl
    ∙ omega (arith, or-shifted 8 b0 b1 h1)

pub cut_short :
    (file : List ℕ)
    → Bytes file
    → (length file < 2) ⊎ (length file < 2 + payload_size_of file)
    → is_short file ≡ true
cut_short [] bytes h = refl
cut_short (b0 ∷ []) bytes h = refl
cut_short (b0 ∷ (b1 ∷ body)) (h0, (h1, rest)) h =
    let size = same_size b0 b1 body h0 h1 in ground arith

pub whole_frame :
    (file : List ℕ)
    → Bytes file
    → 2 + payload_size_of file ≤ length file
    → decode_next (take (2 + payload_size_of file) file) ≡ decode_next file
whole_frame [] bytes h = absurd (omega arith)
whole_frame (b0 ∷ []) bytes h = absurd (omega arith)
whole_frame (b0 ∷ (b1 ∷ body)) (h0, (h1, rest)) h =
    let size : ℕ = bit_or (b0 * 2 ^ 8) b1 in
    let two : 2 + size ≡ suc (suc size) = omega arith in
    let inside = same_size b0 b1 (take size body) h0 h1 in
    let len = length-take size body (omega arith) in
    let long : is_short (b0 ∷ (b1 ∷ take size body)) ≡ false = ground arith in
    let same = next-append (b0 ∷ (b1 ∷ take size body)) (drop size body) long in
    let joined : take size body ++ drop size body ≡ body = take-drop size body in
    rw two (sym same ∙ ap (λ (t : List ℕ). decode_next (b0 ∷ (b1 ∷ t))) joined)

-- The two bytes of the prefix and the length that they are in big-endian notation.
abbrev pub frame_size : List ℕ → ℕ
frame_size file = 2 + (get_or file 0 0 * 2 ^ 8 + get_or file 1 0)

-- What the reader may do with a file; one case only fits a file.
pub data Framed {Stream : Type 0} (Holds : Stream → List ℕ → Type 0) (file : List ℕ)
    (run : Option (FrameRead Stream)) : Type 0 where
  no_more : file ≡ [] → run ≡ some end_of_file → Framed Holds file run
  short_of :
      0 < length file
      → (length file < 2) ⊎ (length file < frame_size file)
      → waits (decode_next file) ≡ true
      → run ≡ some read_error
      → Framed Holds file run
  framed :
      (rest : Stream)
      → 2 ≤ length file
      → frame_size file ≤ length file
      → waits (decode_next file) ≡ false
      → run ≡ some (frame (take (frame_size file) file) rest)
      → decode_next (take (frame_size file) file) ≡ decode_next file
      → Holds rest (drop (frame_size file) file)
      → Framed Holds file run

size_sum :
    (b0 b1 : ℕ) (body : List ℕ)
    → b1 < 2 ^ 8
    → 2 + payload_size_of (b0 ∷ (b1 ∷ body)) ≡ frame_size (b0 ∷ (b1 ∷ body))
size_sum b0 b1 body h = omega (arith, or-shifted 8 b0 b1 h)

short_frame :
    (file : List ℕ)
    → Bytes file
    → (length file < 2) ⊎ (length file < 2 + payload_size_of file)
    → (length file < 2) ⊎ (length file < frame_size file)
short_frame [] bytes h = inl (omega arith)
short_frame (b0 ∷ []) bytes h = inl (omega arith)
short_frame (b0 ∷ (b1 ∷ body)) (h0, (h1, rest)) h = rw (size_sum b0 b1 body h1) at h

-- The prefix and its message are there.
record Whole (file : List ℕ) : Type 0 where
  prefix : 2 ≤ length file
  size : 2 + payload_size_of file ≡ frame_size file
  ready : waits (decode_next file) ≡ false

Whole-of : (file : List ℕ) → Bytes file → 2 + payload_size_of file ≤ length file → Whole file
Whole-of [] bytes h = absurd (omega arith)
Whole-of (b0 ∷ []) bytes h = absurd (omega arith)
Whole-of (b0 ∷ (b1 ∷ body)) (h0, (h1, rest)) h = record {
  prefix = omega arith;
  size = size_sum b0 b1 body h1;
  ready = (let size = same_size b0 b1 body h0 h1 in waits_lem (b0 ∷ (b1 ∷ body)) ∙ ground arith);
}

module _ {Stream : Type 0} {read_at_most : Stream → ℕ → Read Stream}
    {Holds : Stream → List ℕ → Type 0} (d : Delivers read_at_most Holds) where
  -- On a stream that does not fail and delivers the bytes of a file in reads of any positive length,
  -- `next_frame` does one of three things, of which no two fit the same file. It reports the end of an
  -- empty file; it reports an error where the file ends within the prefix or before the length that the
  -- prefix gives in big-endian notation, and there the decoder on the whole file would wait for more; else
  -- it hands over just the prefix and as many bytes, the decoder does not wait and answers on the frame as
  -- on the whole file, and the stream is left behind that frame.
  pub frame_decodes_lem :
      (file : List ℕ) (s : Stream)
      → Holds s file
      → Bytes file
      → Framed Holds file (next_frame read_at_most s)
  frame_decodes_lem file s holds bytes = elim (next_frame_lem d file s holds) [
    | inl (nothing, run) ↦ no_more nothing run
    | inr (inl (some_bytes, short, run)) ↦
        short_of some_bytes (short_frame file bytes short)
          (waits_lem file ∙ cut_short file bytes short) run
    | inr (inr (rest, enough, run, holds')) ↦
        let w = Whole-of file bytes enough in
        framed rest w.prefix (rw w.size at enough) w.ready (rw w.size at run)
          (rw w.size at (whole_frame file bytes enough)) (rw w.size at holds')
  ]
