-- ===== src/Itch/Framing.antt =====
-- `ItchDecoder::decode_next` as the reader of a stream: what it takes off the input, and when it waits.
use nasdaq_itch_order_book_e.Base.{
  ℕ, zero, suc, ◌+◌, ◌≤◌, ◌<◌, ◌≡◌, refl, sym, ap, ◌∙◌, Bool, true, false, not, ◌||◌, ◌&&◌, List,
  [], ◌∷◌, ◌++◌, arith, ◌==◌, ltb, if◌then◌else◌, Bool-cases, inl, inr, length, get_or, take, drop,
  length-append,
}
use nasdaq_itch_order_book_e.Itch.{
  ItchEvent, DecodedMessage, DecodeError, DecodeResult, complete, need_more_data, failed,
}
use nasdaq_itch_order_book_e.Itch.Decoder.{
  byte_at, done, sized, sided, read_be, read_be_from, decode_message, decode_next,
}

-- Whether the caller is told to wait for more input.
abbrev pub waits : DecodeResult → Bool
waits (complete m) = false
waits need_more_data = true
waits (failed e) = false

-- What a result takes off the input, for a result that takes something.
abbrev pub taken_or : ℕ → DecodeResult → ℕ
taken_or n (complete m) = m.bytes_consumed
taken_or n need_more_data = n
taken_or n (failed e) = n

-- The two-byte prefix of a frame, and whether the frame is all there.
abbrev pub frame_length : List ℕ → ℕ
frame_length input = read_be 2 input 0

record Answers (n : ℕ) (r : DecodeResult) : Type 0 where
  taken : taken_or n r ≡ n
  answered : waits r ≡ false

module _ (n : ℕ) where
  either :
      (b : Bool) (x y : DecodeResult) → Answers n x → Answers n y → Answers n (if b then x else y)
  either true x y p q = p
  either false x y p q = q

  failed-Answers : (e : DecodeError) → Answers n (failed e)
  failed-Answers e = record { taken = refl; answered = refl }

  done-Answers : (event : ItchEvent) → Answers n (done event n)
  done-Answers event = record { taken = refl; answered = refl }

  sized-Answers :
      (message : List ℕ) (expected : ℕ) (event : ItchEvent)
      → Answers n (sized message expected (done event n))
  sized-Answers message expected event = either _ _ _ (done-Answers event) (failed-Answers _)

  sided-Answers :
      (message : List ℕ) (expected : ℕ) (event : ItchEvent)
      → Answers n (sided message expected (done event n))
  sided-Answers message expected event =
      either _ _ _ (either _ _ _ (done-Answers event) (failed-Answers _)) (failed-Answers _)

  message-Answers : (message : List ℕ) → Answers n (decode_message message n)
  unfolding decode_message
  message-Answers message =
      search (either, sized-Answers, sided-Answers, done-Answers) depth 20 fits 2000

get_or-append : (xs ys : List ℕ) (n d : ℕ) → n < length xs → get_or (xs ++ ys) n d ≡ get_or xs n d
get_or-append [] ys n d h = omega arith
get_or-append (x ∷ xs) ys zero d h = refl
get_or-append (x ∷ xs) ys (suc n) d h = get_or-append xs ys n d (omega arith)

take-append : (n : ℕ) (xs ys : List ℕ) → n ≤ length xs → take n (xs ++ ys) ≡ take n xs
take-append zero xs ys h = refl
take-append (suc n) [] ys h = ground arith
take-append (suc n) (x ∷ xs) ys h = ap (λ t. x ∷ t) (take-append n xs ys (omega arith))

drop-append : (n : ℕ) (xs ys : List ℕ) → n ≤ length xs → drop n (xs ++ ys) ≡ drop n xs ++ ys
drop-append zero xs ys h = refl
drop-append (suc n) [] ys h = ground arith
drop-append (suc n) (x ∷ xs) ys h = drop-append n xs ys (omega arith)

length-drop : (n : ℕ) (xs : List ℕ) → n ≤ length xs → length (drop n xs) + n ≡ length xs
length-drop zero xs h = omega arith
length-drop (suc n) [] h = omega arith
length-drop (suc n) (x ∷ xs) h = let rec = length-drop n xs (omega arith) in omega arith

frame_length-append :
    (input more : List ℕ) → 2 ≤ length input → frame_length (input ++ more) ≡ frame_length input
unfolding read_be read_be_from byte_at
frame_length-append input more h =
    rw (get_or-append input more 0 0 (omega arith), get_or-append input more 1 0 (omega arith)) refl

-- The source's two waits: no prefix yet, or a message that is not all there.
abbrev pub is_short : List ℕ → Bool
is_short input =
    ltb (length input) 2
    || (not (frame_length input == 0) && ltb (length input) (2 + frame_length input))

-- `decode_next` asks for more input just when the prefix is not there, or when its length is not zero
-- and the message is not there as a whole; no message type waits for more.
pub waits_lem : (input : List ℕ) → waits (decode_next input) ≡ is_short input
unfolding decode_next
waits_lem input =
    let h = message-Answers (2 + frame_length input) (take (frame_length input) (drop 2 input)) in
    ground (arith, h.answered)

pub taken_lem :
    (input : List ℕ)
    → taken_or (2 + frame_length input) (decode_next input) ≡ 2 + frame_length input
unfolding decode_next
taken_lem input =
    let h = message-Answers (2 + frame_length input) (take (frame_length input) (drop 2 input)) in
    ground (arith, h.taken)

-- If the prefix and the message of a frame are there, the result of `decode_next` does not depend on
-- the input that follows the frame.
pub next-append :
    (input more : List ℕ) → is_short input ≡ false → decode_next (input ++ more) ≡ decode_next input
unfolding decode_next
next-append input more h =
    let prefix : 2 ≤ length input = ground arith in
    let same = frame_length-append input more prefix in
    let longer = length-append input more in
    elim (Bool-cases (frame_length input == 0)) [
      | inl z ↦ rw (same, longer, z) (ground arith)
      | inr p ↦
          let there : 2 + frame_length input ≤ length input = ground arith in
          let rest = length-drop 2 input prefix in
          let message : take (frame_length input) (drop 2 (input ++ more))
              ≡ take (frame_length input) (drop 2 input) =
            rw (drop-append 2 input more prefix)
              (take-append (frame_length input) (drop 2 input) more (omega arith)) in
          rw (same, longer, message) (ground arith)
    ]

-- A decoded message consumes the two bytes of the prefix and the length that the prefix gives, and no
-- more than the input has.
pub complete_lem :
    (input : List ℕ) (m : DecodedMessage)
    → decode_next input ≡ complete m
    → (m.bytes_consumed ≡ 2 + frame_length input) × (m.bytes_consumed ≤ length input)
complete_lem input m h =
    let taken : m.bytes_consumed ≡ 2 + frame_length input =
      ap (taken_or (2 + frame_length input)) (sym h) ∙ taken_lem input in
    let long : is_short input ≡ false = sym (waits_lem input) ∙ ap waits h in (taken, ground arith)
