-- ===== src/Replay/Nearing.antt =====
-- Unless the consumer has left, some turn brings the two threads nearer to their end.
use nasdaq_itch_order_book_e.Base.{
  ℕ, ◌+◌, ◌-◌, ◌^◌, ◌<◌, ◌≡◌, refl, sym, ◌∙◌, true, false, some, none, Option, Bool, List, ◌==◌,
  if◌then◌else◌, inl, inr, ◌⊎◌, arith, Bool-cases, length, add64,
}
use nasdaq_itch_order_book_e.Base.BitLaws.{pow-pos}
use nasdaq_itch_order_book_e.Itch.{ItchEvent}
use nasdaq_itch_order_book_e.MatchingEngine.{Engine}
use nasdaq_itch_order_book_e.MatchingEngine.Apply.{AllFit}
use nasdaq_itch_order_book_e.SpscRing.{emplace, empty}
use nasdaq_itch_order_book_e.SpscRing.Laws.{emplace_lem, empty-Represents}
use nasdaq_itch_order_book_e.Replay.{Read, FrameRead, next_frame}
use nasdaq_itch_order_book_e.Replay.Frames.{Delivers}
use nasdaq_itch_order_book_e.Replay.Pipeline.{
  QueuedEvent, ProducerPlace, reading, pushing, closing, joined, ConsumerPlace, checking,
  checking_empty, popping, left, Pipeline, Turn, producer_turn, consumer_turn, fetched, push_event,
  produce, consume, take_turn,
}
use nasdaq_itch_order_book_e.Replay.Progress.{Underway}
use nasdaq_itch_order_book_e.Replay.Turns.{Moves}
use nasdaq_itch_order_book_e.Replay.Pushing.{count_bound, produce-Moves}
use nasdaq_itch_order_book_e.Replay.Popping.{pop_event-Popped, consume-Moves}
use nasdaq_itch_order_book_e.Replay.Work.{work, fetched-work, pushed-work}

module _ {Stream : Type 0} {read_at_most : Stream → ℕ → Read Stream}
    {Holds : Stream → List ℕ → Type 0} (d : Delivers read_at_most Holds) (start : Engine)
    (total : List ItchEvent × Bool) (fit : AllFit total.0) (few : length total.0 < 2 ^ 64) where
  -- A turn that ends with less work left.
  pub record Nearer (p : Pipeline Stream) (run : Option (Pipeline Stream)) : Type 0 where
    pub moves : Moves Holds start total run
    pub less : work (length total.0) moves.state < work (length total.0) p

  nearer :
      (p p' : Pipeline Stream) (run : Option (Pipeline Stream))
      → Moves Holds start total run
      → run ≡ some p'
      → work (length total.0) p' < work (length total.0) p
      → Nearer p run
  nearer p p' run m e h =
      let both : some p' ≡ some m.state = sym e ∙ m.ended in
      let same : p' ≡ m.state = cc both in record { moves = m; less = rw same at h }

  module _ (p : Pipeline Stream) (u : Underway Holds start total p) where
    reading-Nearer : p.producer ≡ reading → Nearer p (produce read_at_most 0 p)
    unfolding produce
    reading-Nearer from = go (next_frame read_at_most p.input) refl
      where
        go :
            (run : Option (FrameRead Stream))
            → next_frame read_at_most p.input ≡ run
            → Nearer p (produce read_at_most 0 p)
        go none e =
            let m = produce-Moves d start total few 0 p u in
            let stuck : produce read_at_most 0 p ≡ none = simp (produce, from, e) refl in
            let moved = m.ended in cc
        go (some read) e =
            nearer p (fetched 0 read p) _ (produce-Moves d start total few 0 p u)
              (simp (produce, from, e) refl) (fetched-work (length total.0) 0 read p from)

    closing-Nearer : p.producer ≡ closing → Nearer p (produce read_at_most 0 p)
    unfolding produce
    closing-Nearer from =
        nearer p (record p { producer_done = true; producer = joined }) _
          (produce-Moves d start total few 0 p u) (simp (produce, from) refl)
          (rw from (omega arith))

    pushing-Nearer :
        (queued : QueuedEvent)
        → p.producer ≡ pushing queued
        → (length u.waiting == p.queue.capacity) ≡ false
        → Nearer p (produce read_at_most 0 p)
    unfolding produce push_event
    pushing-Nearer queued from room =
        let t = emplace_lem u.represents queued in
        nearer p
          (record p {
            queue = (emplace p.queue queued).1;
            decoded_messages = add64 p.decoded_messages 1;
            producer = reading;
          })
          _ (produce-Moves d start total few 0 p u)
          (simp (produce, from, push_event, t.0, room) refl)
          (let bound = count_bound d start total few p u queued from in
            let sent = u.decoded_count in
            let applied = u.applied_count in
            let next : add64 p.decoded_messages 1 ≡ p.decoded_messages + 1 = omega arith in
            rw (from, next)
              (pushed-work (length total.0) p.decoded_messages p.applied_messages p.consumer
                (omega arith) (omega arith)))

    waiting_count : p.decoded_messages - p.applied_messages ≡ length u.waiting
    waiting_count = let sent = u.decoded_count in let applied = u.applied_count in omega arith

    -- The consumer's turn gets nearer unless it waits for the producer.
    checking-Nearer :
        p.consumer ≡ checking
        → (p.producer_done ≡ true) ⊎ (0 < length u.waiting)
        → Nearer p (consume read_at_most 0 0 p)
    unfolding consume
    checking-Nearer from h =
        nearer p (record p { consumer = if p.producer_done then checking_empty else popping }) _
          (consume-Moves read_at_most start total fit few p u 0 0) (simp (consume, from) refl)
          (let count = waiting_count in
            rw from (elim (Bool-cases p.producer_done) [
              | inl over ↦ rw over (omega arith)
              | inr yet ↦ rw yet (elim h [ inl over ↦ cc | inr busy ↦ ground arith ])
            ]))

    checking_empty-Nearer : p.consumer ≡ checking_empty → Nearer p (consume read_at_most 0 0 p)
    unfolding consume
    checking_empty-Nearer from =
        nearer p (record p { consumer = if empty p.queue then left else popping }) _
          (consume-Moves read_at_most start total fit few p u 0 0) (simp (consume, from) refl)
          (let count = waiting_count in
            let seen = empty-Represents u.represents in
            rw from (elim (Bool-cases (empty p.queue)) [
              | inl nothing ↦ rw nothing (omega arith)
              | inr busy ↦ rw busy (ground arith)
            ]))

    popping-Nearer : p.consumer ≡ popping → Nearer p (consume read_at_most 0 0 p)
    unfolding consume
    popping-Nearer from =
        let pop = pop_event-Popped read_at_most start total fit few p u 0 0 u.waiting refl in
        nearer p pop.moves.state _ (consume-Moves read_at_most start total fit few p u 0 0)
          (simp (consume, from) pop.moves.ended)
          (let count = waiting_count in
            rw (from, pop.producer, pop.consumer, pop.sent, pop.applied) (ground arith))

    consumer-Nearer :
        (p.producer_done ≡ true) ⊎ (0 < length u.waiting)
        → (p.consumer ≡ left) ⊎ Nearer p (consume read_at_most 0 0 p)
    consumer-Nearer h = go p.consumer refl
      where
        go :
            (place : ConsumerPlace)
            → p.consumer ≡ place
            → (p.consumer ≡ left) ⊎ Nearer p (consume read_at_most 0 0 p)
        go checking from = inr (checking-Nearer from h)
        go checking_empty from = inr (checking_empty-Nearer from)
        go popping from = inr (popping-Nearer from)
        go left from = inl from

    full_waits : length u.waiting ≡ p.queue.capacity → 0 < length u.waiting
    full_waits full =
        let cap = u.represents.cap in let positive = pow-pos u.represents.power in omega arith

    -- Some turn gets nearer to the end.
    pub turn-Nearer :
        (p.consumer ≡ left) ⊎ ((turn : Turn) × Nearer p (take_turn read_at_most turn p))
    unfolding take_turn
    turn-Nearer = go p.producer refl
      where
        by_consumer :
            (p.producer_done ≡ true) ⊎ (0 < length u.waiting)
            → (p.consumer ≡ left) ⊎ ((turn : Turn) × Nearer p (take_turn read_at_most turn p))
        by_consumer h = elim (consumer-Nearer h) [
          | inl gone ↦ inl gone
          | inr near ↦ inr (consumer_turn 0 0, near)
        ]

        go :
            (place : ProducerPlace)
            → p.producer ≡ place
            → (p.consumer ≡ left) ⊎ ((turn : Turn) × Nearer p (take_turn read_at_most turn p))
        go reading from = inr (producer_turn 0, reading-Nearer from)
        go closing from = inr (producer_turn 0, closing-Nearer from)
        go joined from = by_consumer (inl (u.done ∙ rw from refl))
        go (pushing queued) from = elim (Bool-cases (length u.waiting == p.queue.capacity)) [
          | inr room ↦ inr (producer_turn 0, pushing-Nearer queued from room)
          | inl full ↦ by_consumer (inr (full_waits (ground arith)))
        ]
