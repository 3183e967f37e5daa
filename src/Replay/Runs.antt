-- ===== src/Replay/Runs.antt =====
-- The two threads from the start of the replay, with their turns in any order.
use mathlib.Core.List.{append-nil, append_assoc}
use nasdaq_itch_order_book_e.Base.{
  ℕ, ◌^◌, ◌<◌, ◌≡◌, refl, ap, ◌∙◌, true, not, some, Option, Bool, List, [], ◌∷◌, ◌++◌, arith,
  length,
}
use nasdaq_itch_order_book_e.Itch.{ItchEvent}
use nasdaq_itch_order_book_e.Itch.Words.{Bytes}
use nasdaq_itch_order_book_e.MatchingEngine.{Engine, EngineLimits, new_engine}
use nasdaq_itch_order_book_e.MatchingEngine.Apply.{AllFit, apply_all}
use nasdaq_itch_order_book_e.MatchingEngine.Books.{Books}
use nasdaq_itch_order_book_e.MatchingEngine.Calls.{none-Books}
use nasdaq_itch_order_book_e.SpscRing.{SpscRing, new_ring}
use nasdaq_itch_order_book_e.SpscRing.Lifetime.{new_ring-Represents}
use nasdaq_itch_order_book_e.SpscRing.Laws.{Represents}
use nasdaq_itch_order_book_e.Replay.{Read}
use nasdaq_itch_order_book_e.Replay.Frames.{Delivers}
use nasdaq_itch_order_book_e.Replay.Pipeline.{
  QueuedEvent, ProducerPlace, reading, closing, joined, pushing, left, Pipeline, new_pipeline, Turn,
  producer_turn, consumer_turn, take_turn, take_turns,
}
use nasdaq_itch_order_book_e.Replay.Fetched.{file_events, file_events-AllFit}
use nasdaq_itch_order_book_e.Replay.Progress.{
  events, Ahead, Learnt, Underway, Ahead-prefix, has_joined,
}
use nasdaq_itch_order_book_e.Replay.Turns.{Moves}
use nasdaq_itch_order_book_e.Replay.Pushing.{produce-Moves}
use nasdaq_itch_order_book_e.Replay.Popping.{consume-Moves}

-- A replay so far: the events applied are a first part of those of the file, and all of them once the
-- consumer's loop is over.
pub record Replays (limits : EngineLimits) (total : List ItchEvent × Bool) {Stream : Type 0}
    (run : Option (Pipeline Stream)) : Type 0 where
  pub state : Pipeline Stream
  pub ended : run ≡ some state
  pub applied : List ItchEvent
  pub more : List ItchEvent
  pub parted : total.0 ≡ applied ++ more
  pub engine : apply_all (new_engine limits) applied ≡ some state.engine
  pub books : Books (length applied) state.engine.books
  pub counted : state.applied_messages ≡ length applied
  pub all : state.consumer ≡ left → apply_all (new_engine limits) total.0 ≡ some state.engine
  pub verdict : state.consumer ≡ left → state.producer_failed ≡ not total.1
  pub messages : state.consumer ≡ left → state.decoded_messages ≡ state.applied_messages

Ahead-joined :
    (producer : ProducerPlace) (failure : Bool) (rest : List ℕ) (total : List ItchEvent × Bool)
    (sent : List ItchEvent)
    → has_joined producer ≡ true
    → Ahead producer failure rest total sent
    → (total.0 ≡ sent) × (total.1 ≡ not failure)
Ahead-joined reading failure rest total sent h a = cc
Ahead-joined (pushing queued) failure rest total sent h a = cc
Ahead-joined closing failure rest total sent h a = a
Ahead-joined joined failure rest total sent h a = a

not-not : (b c : Bool) → b ≡ not c → c ≡ not b
not-not b c h = ground arith

module _ {Stream : Type 0} {read_at_most : Stream → ℕ → Read Stream}
    {Holds : Stream → List ℕ → Type 0} (d : Delivers read_at_most Holds) where
  module _ (start : Engine) (total : List ItchEvent × Bool) (fit : AllFit total.0)
      (few : length total.0 < 2 ^ 64) where
    take_turn-Moves :
        (turn : Turn) (p : Pipeline Stream)
        → Underway Holds start total p
        → Moves Holds start total (take_turn read_at_most turn p)
    unfolding take_turn
    take_turn-Moves (producer_turn now) p u = produce-Moves d start total few now p u
    take_turn-Moves (consumer_turn a b) p u = consume-Moves read_at_most start total fit few p u a b

    pub take_turns-Moves :
        (turns : List Turn) (p : Pipeline Stream)
        → Underway Holds start total p
        → Moves Holds start total (take_turns read_at_most turns p)
    unfolding take_turns
    take_turns-Moves [] p u = record { state = p; ended = refl; underway = u }
    take_turns-Moves (turn ∷ turns) p u =
        let first = take_turn-Moves turn p u in
        let rest = take_turns-Moves turns first.state first.underway in
        record { state = rest.state; ended = rw first.ended rest.ended; underway = rest.underway }

  -- Once the consumer has left, the producer is at its end and the queue is empty.
  pub left_all :
      (start : Engine) (total : List ItchEvent × Bool) (p : Pipeline Stream)
      (u : Underway Holds start total p)
      → p.consumer ≡ left
      → (total.0 ≡ u.applied) × (total.1 ≡ not p.producer_failed) × (u.waiting ≡ [])
  left_all start total p u gone =
      let (finished, empty_queue) : Learnt left p.producer u.waiting = rw gone at u.learnt in
      let (all, ok) = Ahead-joined p.producer p.producer_failed u.rest total _ finished u.ahead in
      (all ∙ rw empty_queue (append-nil u.applied), ok, empty_queue)

  pub left_engine :
      (start : Engine) (total : List ItchEvent × Bool) (p : Pipeline Stream)
      (u : Underway Holds start total p)
      → p.consumer ≡ left
      → apply_all start total.0 ≡ some p.engine
  left_engine start total p u gone =
      let same : total.0 ≡ u.applied = (left_all start total p u gone).0 in
      ap (apply_all start) same ∙ u.engine

  pub new_pipeline-Underway :
      (ring : SpscRing QueuedEvent) (limits : EngineLimits) (file : List ℕ) (s : Stream)
      → Represents ring 0 []
      → Holds s file
      → Bytes file
      → Underway Holds
          (new_engine limits)
          (file_events (length file) file)
          (new_pipeline s ring limits)
  unfolding apply_all
  new_pipeline-Underway ring limits file s r holds bytes = record {
    rest = file;
    holds = holds;
    bytes = bytes;
    taken = 0;
    waiting = [];
    represents = r;
    applied = [];
    engine = refl;
    books = none-Books 0;
    ahead = (length file, refl, omega arith, refl, refl);
    done = refl;
    learnt = tt;
    decoded_count = refl;
    applied_count = refl;
  }

  -- On a stream that delivers the bytes of a file without failing, with a new ring and fewer than 2 ^ 64
  -- events in the file, the two threads of the replay never follow a null or dangling pointer, read a
  -- slot without an object or run out of fuel, whatever the order of their turns. The events applied so
  -- far are a first part of those that the decoder finds in the file, in their order. Once the consumer
  -- has left its loop the engine is as after applying all of them one after the other, as many events
  -- were decoded as applied, and `producer_failed` says whether a message is cut off or fails.
  pub take_turns_lem :
      (capacity : ℕ) (ring : SpscRing QueuedEvent) (limits : EngineLimits) (file : List ℕ)
      (s : Stream) (turns : List Turn)
      → capacity < 2 ^ 64
      → new_ring capacity ≡ some ring
      → Holds s file
      → Bytes file
      → length (file_events (length file) file).0 < 2 ^ 64
      → Replays limits
          (file_events (length file) file)
          (take_turns read_at_most turns (new_pipeline s ring limits))
  take_turns_lem capacity ring limits file s turns small made holds bytes few =
      let total = file_events (length file) file in
      let fit = file_events-AllFit (length file) file in
      let u =
        new_pipeline-Underway ring limits file s (new_ring-Represents capacity ring small made)
          holds bytes in
      let run = take_turns-Moves (new_engine limits) total fit few turns _ u in
      let v = run.underway in
      let (more, parted) =
        Ahead-prefix run.state.producer run.state.producer_failed v.rest total _ v.ahead in
      record {
        state = run.state;
        ended = run.ended;
        applied = v.applied;
        more = events v.waiting ++ more;
        parted = parted ∙ append_assoc v.applied (events v.waiting) more;
        engine = v.engine;
        books = v.books;
        counted = v.applied_count;
        all = left_engine (new_engine limits) total run.state v;
        verdict = λ gone. not-not _ _ (left_all (new_engine limits) total run.state v gone).1;
        messages = λ gone.
            let empty_queue = (left_all (new_engine limits) total run.state v gone).2 in
            let none_left : length v.waiting ≡ 0 = ap length empty_queue in
            let decoded = v.decoded_count in let applied = v.applied_count in omega arith;
      }
