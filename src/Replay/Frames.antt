-- ===== src/Replay/Frames.antt =====
-- What `next_frame` reads, however the stream divides the file into reads.
use mathlib.Core.List.{append-nil, append_assoc}
use native.Mathlib.Decide.{dec_lt}
use mathlib.Core.Logic.{◌⊎◌}
use nasdaq_itch_order_book_e.Base.{
  ℕ, zero, suc, ◌+◌, ◌-◌, ◌*◌, ◌^◌, ◌≤◌, ◌<◌, ◌≡◌, refl, sym, ap, ◌∙◌, bit_or, false, none, some,
  List, [], ◌∷◌, ◌++◌, ◌==◌, inl, inr, Bool-cases, arith, length, get_or, take, drop,
}
use nasdaq_itch_order_book_e.Replay.{
  Read, received, end_of_input, frame, end_of_file, read_error, read_rest, read_payload, next_frame,
}

take_nil : (n : ℕ) → take {A = ℕ} n [] ≡ []
take_nil zero = refl
take_nil (suc n) = refl

drop_nil : (n : ℕ) → drop {A = ℕ} n [] ≡ []
drop_nil zero = refl
drop_nil (suc n) = refl

take-split : (n m : ℕ) (xs : List ℕ) → n ≤ m → take n xs ++ take (m - n) (drop n xs) ≡ take m xs
take-split zero m xs h = let e : m - 0 ≡ m = omega arith in rw e refl
take-split (suc n) m [] h = take_nil (m - suc n) ∙ sym (take_nil m)
take-split (suc n) (suc m) (x ∷ xs) h =
    let e : suc m - suc n ≡ m - n = omega arith in
    rw e (ap (λ (t : List ℕ). x ∷ t) (take-split n m xs (omega arith)))
take-split (suc n) zero (x ∷ xs) h = absurd (omega arith)

drop-split : (n m : ℕ) (xs : List ℕ) → n ≤ m → drop (m - n) (drop n xs) ≡ drop m xs
drop-split zero m xs h = let e : m - 0 ≡ m = omega arith in rw e refl
drop-split (suc n) m [] h = drop_nil (m - suc n) ∙ sym (drop_nil m)
drop-split (suc n) (suc m) (x ∷ xs) h =
    let e : suc m - suc n ≡ m - n = omega arith in rw e (drop-split n m xs (omega arith))
drop-split (suc n) zero (x ∷ xs) h = absurd (omega arith)

pub length-take : (n : ℕ) (xs : List ℕ) → n ≤ length xs → length (take n xs) ≡ n
length-take zero xs h = refl
length-take (suc n) [] h = absurd (omega arith)
length-take (suc n) (x ∷ xs) h = ap suc (length-take n xs (omega arith))

pub length-drop : (n : ℕ) (xs : List ℕ) → length (drop n xs) ≡ length xs - n
length-drop zero xs = omega arith
length-drop (suc n) [] = omega arith
length-drop (suc n) (x ∷ xs) = omega (arith, length-drop n xs)

-- The size that a whole prefix gives.
abbrev pub payload_size_of : List ℕ → ℕ
payload_size_of file = bit_or (get_or file 0 0 * 2 ^ 8) (get_or file 1 0)

-- A stream that delivers the rest of a file, in reads of any length that is positive while bytes are
-- left, and does not fail.
pub record Delivers {Stream : Type 0} (read_at_most : Stream → ℕ → Read Stream)
    (Holds : Stream → List ℕ → Type 0) : Type 0 where
  pub at_end :
      (s : Stream) (capacity : ℕ)
      → Holds s []
      → 0 < capacity
      → read_at_most s capacity ≡ end_of_input
  pub some_left :
      (s : Stream) (capacity : ℕ) (file : List ℕ)
      → Holds s file
      → 0 < length file
      → 0 < capacity
      → (n : ℕ) × (rest : Stream) × (0 < n)
        × (n ≤ capacity)
        × (n ≤ length file)
        × (read_at_most s capacity ≡ received (take n file) rest)
        × Holds rest (drop n file)

module _ {Stream : Type 0} {read_at_most : Stream → ℕ → Read Stream}
    {Holds : Stream → List ℕ → Type 0} (d : Delivers read_at_most Holds) where
  no_bytes : (xs : List ℕ) → length xs ≡ 0 → xs ≡ []
  no_bytes [] h = refl
  no_bytes (x ∷ xs) h = absurd (omega arith)

  -- One round of the loop.
  round_lem :
      (fuel missing : ℕ) (got bytes : List ℕ) (s rest : Stream)
      → (missing == 0) ≡ false
      → read_at_most s missing ≡ received bytes rest
      → read_rest read_at_most (suc fuel) missing got s
        ≡ read_rest read_at_most fuel (missing - length bytes) (got ++ bytes) rest
  unfolding read_rest
  round_lem fuel missing got bytes s rest more run = rw (read_rest, more, run) refl

  rounds :
      (fuel missing n : ℕ) (got file : List ℕ) (s rest end : Stream)
      → (missing == 0) ≡ false
      → read_at_most s missing ≡ received (take n file) rest
      → length (take n file) ≡ n
      → n ≤ missing
      → read_rest read_at_most fuel (missing - n) (got ++ take n file) rest
        ≡ some (some ((got ++ take n file) ++ take (missing - n) (drop n file), end))
      → read_rest read_at_most (suc fuel) missing got s
        ≡ some (some (got ++ take missing file, end))
  rounds fuel missing n got file s rest end more run len le run' =
      let whole : (got ++ take n file) ++ take (missing - n) (drop n file)
          ≡ got ++ take missing file =
        append_assoc got (take n file) (take (missing - n) (drop n file))
        ∙ ap (λ (t : List ℕ). got ++ t) (take-split n missing file le) in
      let step = round_lem fuel missing got (take n file) s rest more run in
      let short : missing - length (take n file) ≡ missing - n = ap (λ (k : ℕ). missing - k) len in
      step
      ∙ ap (λ (k : ℕ). read_rest read_at_most fuel k (got ++ take n file) rest) short
      ∙ run'
      ∙ ap (λ (t : List ℕ). some (some (t, end))) whole

  read_rest_lem :
      (fuel missing : ℕ) (got file : List ℕ) (s : Stream)
      → missing < fuel
      → Holds s file
      → missing ≤ length file
      → (rest : Stream) × (read_rest read_at_most fuel missing got s
          ≡ some (some (got ++ take missing file, rest)))
        × Holds rest (drop missing file)
  unfolding read_rest
  read_rest_lem zero missing got file s h holds enough = absurd (omega arith)
  read_rest_lem (suc fuel) missing got file s h holds enough = elim (Bool-cases (missing == 0)) [
    | inl z ↦
        let e : missing ≡ 0 = ground arith in
        rw (e, read_rest) (s, ap (λ (t : List ℕ). some (some (t, s))) (sym (append-nil got)), holds)
    | inr more ↦
        let positive : 0 < missing = ground arith in
        let (n, rest, p, le, lf, run, holds') =
          d.some_left s missing file holds (omega arith) positive in
        let len = length-take n file lf in
        let left = length-drop n file in
        let (end, run', holds'') =
          read_rest_lem fuel (missing - n) (got ++ take n file) (drop n file) rest (omega arith)
            holds' (omega arith) in
        (
          end,
          rounds fuel missing n got file s rest end more run len le run',
          rw (drop-split n missing file le) at holds'',
        )
  ]

  read_rest_short :
      (fuel missing : ℕ) (got file : List ℕ) (s : Stream)
      → missing < fuel
      → Holds s file
      → length file < missing
      → read_rest read_at_most fuel missing got s ≡ some none
  unfolding read_rest
  read_rest_short zero missing got file s h holds short = absurd (omega arith)
  read_rest_short (suc fuel) missing got file s h holds short =
      let more : (missing == 0) ≡ false = ground arith in
      elim (Bool-cases (length file == 0)) [
        | inl z ↦
            let empty_file = no_bytes file (ground arith) in
            rw (read_rest, more, d.at_end s missing (rw empty_file at holds) (ground arith)) refl
        | inr some_bytes ↦
            let (n, rest, p, le, lf, run, holds') =
              d.some_left s missing file holds (ground arith) (omega arith) in
            let len = length-take n file lf in
            let left = length-drop n file in
            round_lem fuel missing got (take n file) s rest more run
            ∙ ap (λ (k : ℕ). read_rest read_at_most fuel (missing - k) (got ++ take n file) rest)
                len
            ∙ (read_rest_short fuel (missing - n) (got ++ take n file) (drop n file) rest
                (omega arith) holds' (omega arith))
      ]

  first_read :
      (s rest end : Stream) (bytes whole : List ℕ)
      → read_at_most s 2 ≡ received bytes rest
      → read_rest read_at_most 2 (2 - length bytes) bytes rest ≡ some (some (whole, end))
      → next_frame read_at_most s ≡ read_payload read_at_most whole end
  unfolding next_frame
  first_read s rest end bytes whole run run' = rw (next_frame, run, run') refl

  prefix_lem :
      (file : List ℕ) (s : Stream)
      → Holds s file
      → 2 ≤ length file
      → (rest : Stream) × (next_frame read_at_most s ≡ read_payload read_at_most (take 2 file) rest)
        × Holds rest (drop 2 file)
  prefix_lem file s holds enough =
      let (n, rest, p, le, lf, run, holds') =
        d.some_left s 2 file holds (omega arith) (omega arith) in
      let len = length-take n file lf in
      let left = length-drop n file in
      let (end, run', holds'') =
        read_rest_lem 2 (2 - n) (take n file) (drop n file) rest (omega arith) holds'
          (omega arith) in
      (
        end,
        first_read s rest end (take n file) (take 2 file) run (
            ap (λ (k : ℕ). read_rest read_at_most 2 (2 - k) (take n file) rest) len
            ∙ run'
            ∙ ap (λ (t : List ℕ). some (some (t, end))) (take-split n 2 file le)),
        rw (drop-split n 2 file le) at holds'',
      )

  last_read :
      (b0 b1 : ℕ) (whole : List ℕ) (rest end : Stream)
      → read_rest read_at_most
          (suc (bit_or (b0 * 2 ^ 8) b1))
          (bit_or (b0 * 2 ^ 8) b1)
          (b0 ∷ (b1 ∷ []))
          rest
        ≡ some (some (whole, end))
      → read_payload read_at_most (b0 ∷ (b1 ∷ [])) rest ≡ some (frame whole end)
  unfolding read_payload
  last_read b0 b1 whole rest end run = rw (read_payload, run) refl

  -- `next_frame` on a stream that holds a file: the end of the file, an error where the file ends
  -- within the prefix or the payload, and else the frame, with the rest of the file left.
  pub next_frame_lem :
      (file : List ℕ) (s : Stream)
      → Holds s file
      → ((file ≡ []) × (next_frame read_at_most s ≡ some end_of_file))
        ⊎ (((0 < length file)
              × (length file < 2 ⊎ length file < 2 + payload_size_of file)
              × (next_frame read_at_most s ≡ some read_error))
            ⊎ ((rest : Stream) × (2 + payload_size_of file ≤ length file)
                × (next_frame read_at_most s
                    ≡ some (frame (take (2 + payload_size_of file) file) rest))
                × Holds rest (drop (2 + payload_size_of file) file)))
  unfolding next_frame read_payload
  next_frame_lem [] s holds = inl (refl, rw (next_frame, d.at_end s 2 holds (omega arith)) refl)
  next_frame_lem (b0 ∷ []) s holds =
      let (n, rest, p, le, lf, run, holds') =
        d.some_left s 2 (b0 ∷ []) holds (omega arith) (omega arith) in
      let one : n ≡ 1 = omega arith in
      let run1 : read_at_most s 2 ≡ received (b0 ∷ []) rest = rw one at run in
      let holds1 : Holds rest [] = rw one at holds' in
      inr (
        inl (
          omega arith,
          inl (omega arith),
          rw
              (
                next_frame,
                run1,
                read_rest_short 2 1 (b0 ∷ []) [] rest (omega arith) holds1 (omega arith),
              )
              refl,
        ))
  next_frame_lem (b0 ∷ (b1 ∷ body)) s holds =
      let size : ℕ = bit_or (b0 * 2 ^ 8) b1 in
      let (rest, run, holds') = prefix_lem (b0 ∷ (b1 ∷ body)) s holds (omega arith) in
      elim (dec_lt (length body) size) [
        | yes short ↦ inr (
            inl (
              omega arith,
              inr (omega arith),
              run
                  ∙ rw
                      (
                        read_payload,
                        read_rest_short (suc size) size (b0 ∷ (b1 ∷ [])) body rest (omega arith)
                            holds' short,
                      )
                      refl,
            ))
        | no long ↦
            let (end, run', holds'') =
              read_rest_lem (suc size) size (b0 ∷ (b1 ∷ [])) body rest (omega arith) holds'
                (omega arith) in
            let two : 2 + size ≡ suc (suc size) = omega arith in
            inr (
              inr (
                end,
                omega arith,
                run
                    ∙ last_read b0 b1 (b0 ∷ (b1 ∷ take size body)) rest end run'
                    ∙ ap (λ (k : ℕ). some (frame (take k (b0 ∷ (b1 ∷ body))) end)) (sym two),
                rw two holds'',
              ))
      ]
