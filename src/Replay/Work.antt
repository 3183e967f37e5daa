-- ===== src/Replay/Work.antt =====
-- How far the two threads are from their end.
use nasdaq_itch_order_book_e.Base.{ℕ, ◌+◌, ◌-◌, ◌*◌, ◌≤◌, ◌<◌, ◌≡◌, ◌==◌, if◌then◌else◌, arith}
use nasdaq_itch_order_book_e.Itch.{ItchEvent, DecodeResult, complete, need_more_data}
use nasdaq_itch_order_book_e.Itch
use nasdaq_itch_order_book_e.Itch.Decoder.{decode_next}
use nasdaq_itch_order_book_e.Replay.{FrameRead, frame, end_of_file, read_error}
use nasdaq_itch_order_book_e.Replay.Pipeline.{
  ProducerPlace, reading, pushing, closing, joined, ConsumerPlace, checking, checking_empty,
  popping, left, Pipeline, decoded, fetched,
}

abbrev pub producer_work : ProducerPlace → ℕ → ℕ
producer_work reading unsent = 5 * unsent + 2
producer_work (pushing queued) unsent = 5 * unsent + 1
producer_work closing unsent = 1
producer_work joined unsent = 0

abbrev pub consumer_work : ConsumerPlace → ℕ → ℕ
consumer_work checking queued = 3
consumer_work checking_empty queued = 2
consumer_work popping queued = if queued == 0 then 4 else 1
consumer_work left queued = 0

-- A bound on the turns to the end: with so many events in all, of which some are sent and some applied.
abbrev pub work_of : ℕ → ProducerPlace → ConsumerPlace → ℕ → ℕ → ℕ
work_of total producer consumer sent applied =
    producer_work producer (total - sent)
    + 3 * (sent - applied)
    + consumer_work consumer (sent - applied)

abbrev pub work : {Stream : Type 0} → ℕ → Pipeline Stream → ℕ
work total p = work_of total p.producer p.consumer p.decoded_messages p.applied_messages

-- A frame is followed by an event to push or by the end of the loop.
pub fetched-work :
    {Stream : Type 0} (total now : ℕ) (read : FrameRead Stream) (p : Pipeline Stream)
    → p.producer ≡ reading
    → work total (fetched now read p) < work total p
unfolding fetched decoded
fetched-work total now end_of_file p from = rw from (omega arith)
fetched-work total now read_error p from = rw from (omega arith)
fetched-work {Stream} total now (frame bytes rest) p from = go (decode_next bytes)
  where
    go : (r : DecodeResult) → work total (decoded now r (record p { input = rest })) < work total p
    go (complete m) = rw from (omega arith)
    go need_more_data = rw from (omega arith)
    go (Itch.failed error) = rw from (omega arith)

pub pushed-work :
    (total sent applied : ℕ) (consumer : ConsumerPlace)
    → applied ≤ sent
    → sent < total
    → work_of total reading consumer (sent + 1) applied
      < 5 * (total - sent) + 1 + 3 * (sent - applied) + consumer_work consumer (sent - applied)
pushed-work total sent applied checking le lt = omega arith
pushed-work total sent applied checking_empty le lt = omega arith
pushed-work total sent applied popping le lt = ground arith
pushed-work total sent applied left le lt = omega arith
