-- ===== src/Replay/Popping.antt =====
-- The consumer's turns.
use mathlib.Core.List.{append_assoc}
use Prim.Native.Nat.{min}
use nasdaq_itch_order_book_e.Base.{
  ℕ, suc, ◌+◌, ◌^◌, ◌<◌, ◌≡◌, refl, sym, ap, ◌∙◌, true, false, some, Option, Bool, List, [], ◌∷◌,
  ◌++◌, ◌==◌, if◌then◌else◌, arith, length, length-append, add64, sub64,
}
use nasdaq_itch_order_book_e.Itch.{ItchEvent}
use nasdaq_itch_order_book_e.MatchingEngine.{Engine, ApplyResult}
use nasdaq_itch_order_book_e.MatchingEngine.Books.{Books}
use nasdaq_itch_order_book_e.MatchingEngine.Apply.{Fits, AllFit, apply_lem, apply_all}
use nasdaq_itch_order_book_e.SpscRing.{SpscRing, empty}
use nasdaq_itch_order_book_e.SpscRing.Laws.{Represents, try_pop_lem, empty-Represents}
use nasdaq_itch_order_book_e.Replay.Pipeline.{
  QueuedEvent, ConsumerPlace, checking, checking_empty, popping, left, Pipeline, apply_event,
  pop_event, consume,
}
use nasdaq_itch_order_book_e.Latency.{HdrHistogram, record_value}
use nasdaq_itch_order_book_e.Replay.{Read, OperationLatency, record_latency}
use nasdaq_itch_order_book_e.Replay.Progress.{
  events, Ahead, has_joined, Learnt, Underway, Ahead-prefix, apply_all-append, AllFit-middle,
}
use nasdaq_itch_order_book_e.Replay.Turns.{Moves}

is_nil : (q : List QueuedEvent) → (length q == 0) ≡ true → q ≡ []
is_nil [] h = refl
is_nil (x ∷ q) h = absurd (ground arith)

module _ {Stream : Type 0} (read_at_most : Stream → ℕ → Read Stream)
    {Holds : Stream → List ℕ → Type 0} (start : Engine) (total : List ItchEvent × Bool)
    (fit : AllFit total.0) (few : length total.0 < 2 ^ 64) where
  module _ (p : Pipeline Stream) (u : Underway Holds start total p) where
    -- The consumer at another place, with nothing popped.
    at-Underway :
        (consumer : ConsumerPlace)
        → Learnt consumer p.producer u.waiting
        → Underway Holds start total (record p { consumer = consumer })
    at-Underway consumer l = record {
      rest = u.rest;
      holds = u.holds;
      bytes = u.bytes;
      taken = u.taken;
      waiting = u.waiting;
      represents = u.represents;
      applied = u.applied;
      engine = u.engine;
      books = u.books;
      ahead = u.ahead;
      done = u.done;
      learnt = l;
      decoded_count = u.decoded_count;
      applied_count = u.applied_count;
    }

    checked :
        (b : Bool)
        → b ≡ has_joined p.producer
        → Learnt (if b then checking_empty else popping) p.producer u.waiting
    checked true e = sym e
    checked false e = tt

    checked_empty :
        (b : Bool)
        → has_joined p.producer ≡ true
        → b ≡ (length u.waiting == 0)
        → Learnt (if b then left else popping) p.producer u.waiting
    checked_empty true l e = (l, is_nil u.waiting (sym e))
    checked_empty false l e = tt

    -- The first event in the queue fits, and there is room for its messages.
    front-Fits :
        (x : QueuedEvent) (q : List QueuedEvent)
        → u.waiting ≡ x ∷ q
        → Fits x.event × (length u.applied + 1 < 2 ^ 64)
    front-Fits x q e =
        let (more, all) = Ahead-prefix p.producer p.producer_failed u.rest total _ u.ahead in
        let sent : total.0 ≡ u.applied ++ (x.event ∷ (events q ++ more)) =
          all ∙ rw e (append_assoc u.applied (x.event ∷ events q) more) in
        let count = ap length sent in
        (
          AllFit-middle u.applied x.event (events q ++ more) (rw sent at fit),
          omega (arith, length-append u.applied (x.event ∷ (events q ++ more))),
        )

    popped-Underway :
        (x : QueuedEvent) (q : List QueuedEvent) (taken : ℕ) (queue : SpscRing QueuedEvent)
        (engine : Engine) (latency : OperationLatency) (end_to_end : HdrHistogram)
        → u.waiting ≡ x ∷ q
        → Represents queue taken q
        → apply_all p.engine (x.event ∷ []) ≡ some engine
        → Books (length u.applied + 1) engine.books
        → Underway Holds start total (record p {
          queue = queue;
          engine = engine;
          latency = latency;
          end_to_end = end_to_end;
          applied_messages = add64 p.applied_messages 1;
          consumer = checking;
        })
    popped-Underway x q taken queue engine latency end_to_end e r run books =
        let one = length-append u.applied (x.event ∷ []) in
        let room = (front-Fits x q e).1 in
        let decoded = u.decoded_count in
        let applied = u.applied_count in
        let parted : length u.waiting ≡ suc (length q) = ap length e in
        record {
          rest = u.rest;
          holds = u.holds;
          bytes = u.bytes;
          taken = taken;
          waiting = q;
          represents = r;
          applied = u.applied ++ (x.event ∷ []);
          engine = apply_all-append start u.applied (x.event ∷ []) ∙ rw u.engine run;
          books = rw length-append books;
          ahead =
              (let here : Ahead p.producer p.producer_failed u.rest total
                    (u.applied ++ (x.event ∷ events q)) =
                  rw e at u.ahead in
                rw (append_assoc u.applied (x.event ∷ []) (events q)) here);
          done = u.done;
          learnt = tt;
          decoded_count = omega arith;
          applied_count = omega arith;
        }

    -- What a pop leaves as it was, and how many events it takes.
    pub record Popped (run : Option (Pipeline Stream)) : Type 0 where
      pub moves : Moves Holds start total run
      pub producer : moves.state.producer ≡ p.producer
      pub consumer : moves.state.consumer ≡ checking
      pub sent : moves.state.decoded_messages ≡ p.decoded_messages
      pub applied : moves.state.applied_messages ≡ p.applied_messages + min 1 (length u.waiting)

    module _ (operation_start operation_end : ℕ) where
      abbrev after_event :
          QueuedEvent → SpscRing QueuedEvent → ApplyResult × Engine → Pipeline Stream
      after_event x queue (result, engine) = record p {
        queue = queue;
        engine = engine;
        latency = record_latency p.latency result.action (sub64 operation_end operation_start);
        end_to_end = record_value p.end_to_end (sub64 operation_end x.enqueued_at);
        applied_messages = add64 p.applied_messages 1;
        consumer = checking;
      }

      pub pop_event-Popped :
          (waiting : List QueuedEvent)
          → u.waiting ≡ waiting
          → Popped (pop_event operation_start operation_end p)
      unfolding pop_event apply_event apply_all
      pop_event-Popped [] e =
          let (queue, run, r) = try_pop_lem u.waiting u.represents in
          let none_left : length u.waiting ≡ 0 = ap length e in
          record {
            moves = record {
              state = record p { queue = queue; consumer = checking };
              ended = simp (pop_event, run, e) refl;
              underway = record {
                rest = u.rest;
                holds = u.holds;
                bytes = u.bytes;
                taken = _;
                waiting = [];
                represents = rw e at r;
                applied = u.applied;
                engine = u.engine;
                books = u.books;
                ahead = rw e at u.ahead;
                done = u.done;
                learnt = tt;
                decoded_count =
                    u.decoded_count ∙ ap (λ (q : List QueuedEvent). length u.applied + length q) e;
                applied_count = u.applied_count;
              };
            };
            producer = refl;
            consumer = refl;
            sent = refl;
            applied = omega arith;
          }
      pop_event-Popped (x ∷ q) e =
          let (queue, run, r) = try_pop_lem u.waiting u.represents in
          let (fits, room) = front-Fits x q e in
          let step = apply_lem (length u.applied) p.engine room u.books x.event fits in
          let some_left : length u.waiting ≡ suc (length q) = ap length e in
          let count = u.applied_count in
          record {
            moves = record {
              state = after_event x queue (step.result, step.engine);
              ended = simp (pop_event, run, e, apply_event, step.ended) refl;
              underway =
                  popped-Underway x q _ queue step.engine _ _ e (rw e at r) (rw step.ended refl)
                    step.books;
            };
            producer = refl;
            consumer = refl;
            sent = refl;
            applied = omega arith;
          }

      pub consume-Moves :
          Moves Holds start total (consume read_at_most operation_start operation_end p)
      unfolding consume
      consume-Moves = go p.consumer refl u.learnt
        where
          go :
              (place : ConsumerPlace)
              → p.consumer ≡ place
              → Learnt place p.producer u.waiting
              → Moves Holds start total (consume read_at_most operation_start operation_end p)
          go checking from l = record {
            state = record p { consumer = if p.producer_done then checking_empty else popping };
            ended = simp (consume, from) refl;
            underway = at-Underway _ (checked p.producer_done u.done);
          }
          go checking_empty from l = record {
            state = record p { consumer = if empty p.queue then left else popping };
            ended = simp (consume, from) refl;
            underway =
                at-Underway _ (checked_empty (empty p.queue) l (empty-Represents u.represents));
          }
          go popping from l =
              let moved = (pop_event-Popped u.waiting refl).moves in
              record {
                state = moved.state;
                ended = simp (consume, from) moved.ended;
                underway = moved.underway;
              }
          go left from l = record { state = p; ended = simp (consume, from) refl; underway = u }
