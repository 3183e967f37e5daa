-- ===== src/Replay/Pipeline.antt =====
-- The two threads of `main` in src/app/itch_replay.cpp: the producer reads, decodes and pushes, the
-- consumer pops and applies. A turn runs one thread up to its next use of what the threads share,
-- and turns come in any order; the ring's calls are whole turns.
use nasdaq_itch_order_book_e.Base.{
  ℕ, Bool, true, false, Option, none, some, List, [], ◌∷◌, ◌>>=◌, if◌then◌else◌, add64, sub64,
}
use nasdaq_itch_order_book_e.SpscRing.{SpscRing, emplace, try_pop, empty}
use nasdaq_itch_order_book_e.Itch.{ItchEvent, DecodeResult, complete, need_more_data, failed}
use nasdaq_itch_order_book_e.Itch.Decoder.{decode_next}
use nasdaq_itch_order_book_e.MatchingEngine.{Engine, EngineLimits, new_engine, apply}
use nasdaq_itch_order_book_e.Latency.{HdrHistogram, record_value, reset}
use nasdaq_itch_order_book_e.Replay.{
  Read, FrameRead, frame, end_of_file, read_error, next_frame, OperationLatency, record_latency,
}

pub record QueuedEvent : Type 0 where
  pub event : ItchEvent
  pub enqueued_at : ℕ

-- Where the producer stands: before a frame, with an event to push, after its loop, or at its end.
pub data ProducerPlace : Type 0 where
  reading : ProducerPlace
  pushing : (queued : QueuedEvent) → ProducerPlace
  closing : ProducerPlace
  joined : ProducerPlace

-- Where the consumer stands: before the test of `producer_done`, before the test of `queue.empty`,
-- before `try_pop`, or after its loop.
pub data ConsumerPlace : Type 0 where
  checking : ConsumerPlace
  checking_empty : ConsumerPlace
  popping : ConsumerPlace
  left : ConsumerPlace

pub record Pipeline (Stream : Type 0) : Type 0 where
  pub input : Stream
  pub queue : SpscRing QueuedEvent
  pub producer_done : Bool
  pub producer_failed : Bool
  pub decoded_messages : ℕ
  pub producer : ProducerPlace
  pub engine : Engine
  pub latency : OperationLatency
  pub end_to_end : HdrHistogram
  pub applied_messages : ℕ
  pub consumer : ConsumerPlace

abbrev pub no_latency : OperationLatency
no_latency = record { add = reset; cancel = reset; execution = reset; replace = reset }

abbrev pub new_pipeline :
    {Stream : Type 0} → Stream → SpscRing QueuedEvent → EngineLimits → Pipeline Stream
new_pipeline input queue limits = record {
  input = input;
  queue = queue;
  producer_done = false;
  producer_failed = false;
  decoded_messages = 0;
  producer = reading;
  engine = new_engine limits;
  latency = no_latency;
  end_to_end = reset;
  applied_messages = 0;
  consumer = checking;
}

-- A turn, with what the clock shows in it.
pub data Turn : Type 0 where
  producer_turn : (now : ℕ) → Turn
  consumer_turn : (operation_start operation_end : ℕ) → Turn

abbrev pub fail : {Stream : Type 0} → Pipeline Stream → Pipeline Stream
fail p = record p { producer_failed = true; producer = closing }

-- The producer with the decoder's answer.
unfoldable pub decoded : {Stream : Type 0} → ℕ → DecodeResult → Pipeline Stream → Pipeline Stream
decoded now (complete message) p = record p {
  producer = pushing (record { event = message.event; enqueued_at = now });
}
decoded now need_more_data p = fail p
decoded now (failed error) p = fail p

unfoldable pub fetched :
    {Stream : Type 0} → ℕ → FrameRead Stream → Pipeline Stream → Pipeline Stream
fetched now end_of_file p = record p { producer = closing }
fetched now read_error p = fail p
fetched now (frame bytes rest) p = decoded now (decode_next bytes) (record p { input = rest })

unfoldable pub push_event : {Stream : Type 0} → QueuedEvent → Pipeline Stream → Pipeline Stream
push_event queued p =
    let (ok, queue) = emplace p.queue queued in
    if ok
    then record p {
      queue = queue;
      decoded_messages = add64 p.decoded_messages 1;
      producer = reading;
    }
    else p

-- The consumer with what `try_pop` gave out.
unfoldable pub apply_event :
    {Stream : Type 0} → ℕ → ℕ → QueuedEvent → Pipeline Stream → Option (Pipeline Stream)
apply_event operation_start operation_end queued p = do
  (result, engine) ← apply p.engine queued.event
  some (record p {
    engine = engine;
    latency = record_latency p.latency result.action (sub64 operation_end operation_start);
    end_to_end = record_value p.end_to_end (sub64 operation_end queued.enqueued_at);
    applied_messages = add64 p.applied_messages 1;
    consumer = checking;
  })

unfoldable pub pop_event : {Stream : Type 0} → ℕ → ℕ → Pipeline Stream → Option (Pipeline Stream)
pop_event operation_start operation_end p = do
  (out, queue) ← try_pop p.queue
  elim out [
    | none ↦ some (record p { queue = queue; consumer = checking })
    | some queued ↦ apply_event operation_start operation_end queued (record p { queue = queue })
  ]

module _ {Stream : Type 0} (read_at_most : Stream → ℕ → Read Stream) where
  -- A turn of a thread at its end changes nothing.
  unfoldable pub produce : ℕ → Pipeline Stream → Option (Pipeline Stream)
  produce now p = elim p.producer [
    | reading ↦ do read ← next_frame read_at_most p.input; some (fetched now read p)
    | pushing queued ↦ some (push_event queued p)
    | closing ↦ some (record p { producer_done = true; producer = joined })
    | joined ↦ some p
  ]

  unfoldable pub consume : ℕ → ℕ → Pipeline Stream → Option (Pipeline Stream)
  consume operation_start operation_end p = elim p.consumer [
    | checking ↦ some (record p { consumer = if p.producer_done then checking_empty else popping })
    | checking_empty ↦ some (record p { consumer = if empty p.queue then left else popping })
    | popping ↦ pop_event operation_start operation_end p
    | left ↦ some p
  ]

  unfoldable pub take_turn : Turn → Pipeline Stream → Option (Pipeline Stream)
  take_turn (producer_turn now) p = produce now p
  take_turn (consumer_turn operation_start operation_end) p =
      consume operation_start operation_end p

  unfoldable pub take_turns : List Turn → Pipeline Stream → Option (Pipeline Stream)
  take_turns [] p = some p
  take_turns (turn ∷ turns) p = do p' ← take_turn turn p; take_turns turns p'
