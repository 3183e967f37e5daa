-- ===== src/Replay/Turns.antt =====
-- Every turn of a thread keeps what holds between the turns.
use mathlib.Core.List.{append-nil}
use nasdaq_itch_order_book_e.Base.{
  ℕ, zero, suc, ◌≤◌, ◌<◌, ◌≡◌, refl, ◌∙◌, true, false, some, Option, Bool, List, [], ◌∷◌, ◌++◌,
  arith, length, drop, ◌>>=◌,
}
use nasdaq_itch_order_book_e.Itch.{
  ItchEvent, DecodedMessage, DecodeResult, complete, need_more_data,
}
use nasdaq_itch_order_book_e.Itch
use nasdaq_itch_order_book_e.Itch.Decoder.{decode_next}
use nasdaq_itch_order_book_e.Itch.Framing.{waits, taken_or}
use nasdaq_itch_order_book_e.Itch.Words.{Bytes}
use nasdaq_itch_order_book_e.MatchingEngine.{Engine}
use nasdaq_itch_order_book_e.Replay.{Read, next_frame}
use nasdaq_itch_order_book_e.Replay.Frames.{Delivers, length-drop}
use nasdaq_itch_order_book_e.Replay.Pipeline.{
  QueuedEvent, ProducerPlace, reading, pushing, closing, ConsumerPlace, checking, checking_empty,
  popping, left, Pipeline, fail, decoded, fetched, produce,
}
use nasdaq_itch_order_book_e.Replay.Fetched.{file_events, at_end, cut_off, whole, fetch_lem}
use nasdaq_itch_order_book_e.Replay.Progress.{events, Ahead, has_joined, Learnt, Underway}

-- A turn that ends.
pub record Moves {Stream : Type 0} (Holds : Stream → List ℕ → Type 0) (start : Engine)
    (total : List ItchEvent × Bool) (run : Option (Pipeline Stream)) : Type 0 where
  pub state : Pipeline Stream
  pub ended : run ≡ some state
  pub underway : Underway Holds start total state

-- The consumer may know that the producer is at its end, which is then so for good.
pub Learnt-produced :
    (consumer : ConsumerPlace) (p p' : ProducerPlace) (q q' : List QueuedEvent)
    → has_joined p ≡ false
    → Learnt consumer p q
    → Learnt consumer p' q'
Learnt-produced checking p p' q q' h l = tt
Learnt-produced checking_empty p p' q q' h l = cc
Learnt-produced popping p p' q q' h l = tt
Learnt-produced left p p' q q' h l = let joined_now = l.0 in cc

Bytes-drop : (n : ℕ) (file : List ℕ) → Bytes file → Bytes (drop n file)
Bytes-drop zero file b = b
Bytes-drop (suc n) [] b = tt
Bytes-drop (suc n) (x ∷ file) b = Bytes-drop n file b.1

abbrev has_message : DecodeResult → Bool
has_message (complete m) = true
has_message need_more_data = false
has_message (Itch.failed error) = false

waits-has_message : (r : DecodeResult) → waits r ≡ true → has_message r ≡ false
waits-has_message (complete m) h = cc
waits-has_message need_more_data h = refl
waits-has_message (Itch.failed error) h = refl

-- A frame that is no message ends the file's events.
Ahead-fail :
    (rest rest' : List ℕ) (total : List ItchEvent × Bool) (sent : List ItchEvent)
    → 0 < length rest
    → has_message (decode_next rest) ≡ false
    → Ahead reading false rest total sent
    → Ahead closing true rest' total sent
unfolding file_events
Ahead-fail [] rest' total sent h no_message a = absurd (omega arith)
Ahead-fail (b ∷ rest) rest' total sent h no_message (zero, f, le, all, ok) = absurd (omega arith)
Ahead-fail (b ∷ rest) rest' total sent h no_message (suc fuel, f, le, all, ok) =
    go (decode_next (b ∷ rest)) refl
  where
    go : (r : DecodeResult) → decode_next (b ∷ rest) ≡ r → Ahead closing true rest' total sent
    go (complete m) e = cc
    go need_more_data e =
        (all ∙ rw (file_events, e) (append-nil sent), ok ∙ rw (file_events, e) refl)
    go (Itch.failed error) e =
        (all ∙ rw (file_events, e) (append-nil sent), ok ∙ rw (file_events, e) refl)

Ahead-end :
    (failure : Bool) (rest rest' : List ℕ) (total : List ItchEvent × Bool) (sent : List ItchEvent)
    → failure ≡ false
    → rest ≡ []
    → Ahead reading false rest total sent
    → Ahead closing failure rest' total sent
unfolding file_events
Ahead-end failure (b ∷ rest) rest' total sent f e a = cc
Ahead-end failure [] rest' total sent f e (zero, g, le, all, ok) = (all ∙ append-nil sent, rw f ok)
Ahead-end failure [] rest' total sent f e (suc fuel, g, le, all, ok) =
    (all ∙ append-nil sent, rw f ok)

Ahead-complete :
    (rest : List ℕ) (total : List ItchEvent × Bool) (sent : List ItchEvent) (queued : QueuedEvent)
    (m : DecodedMessage) (n : ℕ)
    → 2 ≤ n
    → n ≤ length rest
    → queued.event ≡ m.event
    → decode_next rest ≡ complete m
    → m.bytes_consumed ≡ n
    → Ahead reading false rest total sent
    → Ahead (pushing queued) false (drop n rest) total sent
unfolding file_events
Ahead-complete [] total sent queued m n two h same e used a = absurd (omega arith)
Ahead-complete (b ∷ rest) total sent queued m n two h same e used (zero, f, le, all, ok) =
    absurd (omega arith)
Ahead-complete (b ∷ rest) total sent queued m n two h same e used (suc fuel, f, le, all, ok) = (
  fuel,
  refl,
  omega (arith, length-drop n (b ∷ rest)),
  all ∙ rw (file_events, e, used, same) refl,
  ok ∙ rw (file_events, e, used) refl,
)

module _ {Stream : Type 0} {read_at_most : Stream → ℕ → Read Stream}
    {Holds : Stream → List ℕ → Type 0} (d : Delivers read_at_most Holds) (start : Engine)
    (total : List ItchEvent × Bool) where
  abbrev Moved : Option (Pipeline Stream) → Type 0
  Moved run = Moves Holds start total run

  -- The producer after its call of the reader.
  module _ (now : ℕ) (p : Pipeline Stream) (u : Underway Holds start total p)
      (from : p.producer ≡ reading) where
    going : Ahead reading false u.rest total (u.applied ++ events u.waiting)
    going =
        let here : Ahead reading p.producer_failed u.rest total (u.applied ++ events u.waiting) =
          rw from at u.ahead in
        let same = here.1 in rw same at here

    not_joined : has_joined p.producer ≡ false
    not_joined = rw from refl

    -- The reading loop ends.
    close-Underway :
        (failure : Bool)
        → Ahead closing failure u.rest total (u.applied ++ events u.waiting)
        → Underway Holds start total (record p { producer_failed = failure; producer = closing })
    close-Underway failure a = record {
      rest = u.rest;
      holds = u.holds;
      bytes = u.bytes;
      taken = u.taken;
      waiting = u.waiting;
      represents = u.represents;
      applied = u.applied;
      engine = u.engine;
      books = u.books;
      ahead = a;
      done = u.done ∙ not_joined;
      learnt =
          Learnt-produced p.consumer p.producer closing u.waiting u.waiting not_joined u.learnt;
      decoded_count = u.decoded_count;
      applied_count = u.applied_count;
    }

    failed_frame :
        (n : ℕ) (rest : Stream)
        → 2 ≤ n
        → n ≤ length u.rest
        → has_message (decode_next u.rest) ≡ false
        → Holds rest (drop n u.rest)
        → Underway Holds start total (fail (record p { input = rest }))
    failed_frame n rest two le none_there holds = record {
      rest = drop n u.rest;
      holds = holds;
      bytes = Bytes-drop n u.rest u.bytes;
      taken = u.taken;
      waiting = u.waiting;
      represents = u.represents;
      applied = u.applied;
      engine = u.engine;
      books = u.books;
      ahead = Ahead-fail u.rest (drop n u.rest) total _ (omega arith) none_there going;
      done = u.done ∙ not_joined;
      learnt =
          Learnt-produced p.consumer p.producer closing u.waiting u.waiting not_joined u.learnt;
      decoded_count = u.decoded_count;
      applied_count = u.applied_count;
    }

    fine : p.producer_failed ≡ false
    fine =
        let here : Ahead reading p.producer_failed u.rest total (u.applied ++ events u.waiting) =
          rw from at u.ahead in
        here.1

    decoded-Underway :
        (r : DecodeResult) (n : ℕ) (rest : Stream)
        → 2 ≤ n
        → n ≤ length u.rest
        → decode_next u.rest ≡ r
        → taken_or n r ≡ n
        → Holds rest (drop n u.rest)
        → Underway Holds start total (decoded now r (record p { input = rest }))
    unfolding decoded
    decoded-Underway (complete m) n rest two le e used holds = record {
      rest = drop n u.rest;
      holds = holds;
      bytes = Bytes-drop n u.rest u.bytes;
      taken = u.taken;
      waiting = u.waiting;
      represents = u.represents;
      applied = u.applied;
      engine = u.engine;
      books = u.books;
      ahead = rw fine (
          Ahead-complete u.rest total (u.applied ++ events u.waiting)
            (record { event = m.event; enqueued_at = now }) m n two le refl e used going);
      done = u.done ∙ not_joined;
      learnt = Learnt-produced p.consumer p.producer _ u.waiting u.waiting not_joined u.learnt;
      decoded_count = u.decoded_count;
      applied_count = u.applied_count;
    }
    decoded-Underway need_more_data n rest two le e used holds =
        failed_frame n rest two le (rw e refl) holds
    decoded-Underway (Itch.failed error) n rest two le e used holds =
        failed_frame n rest two le (rw e refl) holds

    produce_reading :
        produce read_at_most now p
        ≡ (do read ← next_frame read_at_most p.input; some (fetched now read p))
    unfolding produce
    produce_reading = simp (produce, from) refl

    pub reading-Moves : Moved (produce read_at_most now p)
    unfolding produce fetched
    reading-Moves = elim (fetch_lem d u.rest p.input u.holds u.bytes) [
      | at_end nothing run ↦ record {
        state = record p { producer = closing };
        ended = rw (produce, from, run) refl;
        underway =
            close-Underway p.producer_failed
              (Ahead-end p.producer_failed u.rest u.rest total _ fine nothing going);
      }
      | cut_off some_bytes waiting run ↦ record {
        state = fail p;
        ended = rw (produce, from, run) refl;
        underway = close-Underway true (
            Ahead-fail u.rest u.rest total _ some_bytes
              (waits-has_message (decode_next u.rest) waiting) going);
      }
      | whole bytes rest two le run same used holds ↦ record {
        state = decoded now (decode_next u.rest) (record p { input = rest });
        ended = produce_reading ∙ rw (run, same) refl;
        underway = decoded-Underway (decode_next u.rest) (length bytes) rest two le refl used holds;
      }
    ]
