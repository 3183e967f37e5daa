-- ===== src/Replay/Pushing.antt =====
-- The producer's turns.
use mathlib.Core.List.{append_assoc}
use nasdaq_itch_order_book_e.Base.{
  ℕ, ◌+◌, ◌^◌, ◌≤◌, ◌<◌, ◌≡◌, refl, sym, ap, ◌∙◌, true, Bool, List, [], ◌∷◌, ◌++◌, ◌==◌, inl, inr,
  arith, Bool-cases, length, length-append, add64,
}
use nasdaq_itch_order_book_e.Itch.{ItchEvent}
use nasdaq_itch_order_book_e.MatchingEngine.{Engine}
use nasdaq_itch_order_book_e.SpscRing.{SpscRing, emplace}
use nasdaq_itch_order_book_e.SpscRing.Laws.{Represents, emplace_lem}
use nasdaq_itch_order_book_e.Replay.{Read}
use nasdaq_itch_order_book_e.Replay.Frames.{Delivers}
use nasdaq_itch_order_book_e.Replay.Pipeline.{
  QueuedEvent, ProducerPlace, reading, pushing, closing, joined, Pipeline, push_event, produce,
}
use nasdaq_itch_order_book_e.Replay.Fetched.{file_events}
use nasdaq_itch_order_book_e.Replay.Progress.{events, events-append, Ahead, Underway, length-events}
use nasdaq_itch_order_book_e.Replay.Turns.{Moves, Learnt-produced, reading-Moves}

Ahead-pushed :
    (queued : QueuedEvent) (failure : Bool) (rest : List ℕ) (total : List ItchEvent × Bool)
    (applied : List ItchEvent) (q : List QueuedEvent)
    → Ahead (pushing queued) failure rest total (applied ++ events q)
    → Ahead reading failure rest total (applied ++ events (q ++ (queued ∷ [])))
Ahead-pushed queued failure rest total applied q (fuel, f, le, all, ok) = (
  fuel,
  f,
  le,
  all
      ∙ sym (append_assoc (applied ++ events q) (queued.event ∷ []) (file_events fuel rest).0)
      ∙ ap (λ (l : List ItchEvent). l ++ (file_events fuel rest).0)
          (append_assoc applied (events q) (queued.event ∷ [])
            ∙ ap (λ (l : List ItchEvent). applied ++ l) (sym (events-append q (queued ∷ [])))),
  ok,
)

module _ {Stream : Type 0} {read_at_most : Stream → ℕ → Read Stream}
    {Holds : Stream → List ℕ → Type 0} (d : Delivers read_at_most Holds) (start : Engine)
    (total : List ItchEvent × Bool) (few : length total.0 < 2 ^ 64) where
  pub count_bound :
      (p : Pipeline Stream) (u : Underway Holds start total p) (queued : QueuedEvent)
      → p.producer ≡ pushing queued
      → length u.applied + length u.waiting + 1 ≤ length total.0
  count_bound p u queued from =
      let a : Ahead (pushing queued) p.producer_failed u.rest total
          (u.applied ++ events u.waiting) =
        rw from at u.ahead in
      let all = ap length a.3 in
      omega (
        arith,
        length-append (u.applied ++ events u.waiting) (queued.event ∷ (file_events a.0 u.rest).0),
        length-append u.applied (events u.waiting),
        length-events u.waiting,
      )

  module _ (now : ℕ) (p : Pipeline Stream) (u : Underway Holds start total p) where
    pushed-Underway :
        (queued : QueuedEvent) (queue : SpscRing QueuedEvent)
        → p.producer ≡ pushing queued
        → Represents queue u.taken (u.waiting ++ (queued ∷ []))
        → Underway Holds start total (record p {
          queue = queue;
          decoded_messages = add64 p.decoded_messages 1;
          producer = reading;
        })
    pushed-Underway queued queue from r = record {
      rest = u.rest;
      holds = u.holds;
      bytes = u.bytes;
      taken = u.taken;
      waiting = u.waiting ++ (queued ∷ []);
      represents = r;
      applied = u.applied;
      engine = u.engine;
      books = u.books;
      ahead =
          Ahead-pushed queued p.producer_failed u.rest total u.applied u.waiting
            (rw from at u.ahead);
      done = u.done ∙ rw from refl;
      learnt = Learnt-produced p.consumer p.producer reading u.waiting _ (rw from refl) u.learnt;
      decoded_count =
          (let bound = count_bound p u queued from in
            let count = u.decoded_count in omega (arith, length-append u.waiting (queued ∷ [])));
      applied_count = u.applied_count;
    }

    pushing-Moves :
        (queued : QueuedEvent)
        → p.producer ≡ pushing queued
        → Moves Holds start total (produce read_at_most now p)
    unfolding produce push_event
    pushing-Moves queued from =
        let t = emplace_lem u.represents queued in
        elim (Bool-cases (length u.waiting == p.queue.capacity)) [
          | inl full ↦ record {
            state = p;
            ended = simp (produce, from, push_event, t.0, full) refl;
            underway = u;
          }
          | inr room ↦ record {
            state = record p {
              queue = (emplace p.queue queued).1;
              decoded_messages = add64 p.decoded_messages 1;
              producer = reading;
            };
            ended = simp (produce, from, push_event, t.0, room) refl;
            underway = pushed-Underway queued (emplace p.queue queued).1 from (rw room at t.1);
          }
        ]

    closing-Moves : p.producer ≡ closing → Moves Holds start total (produce read_at_most now p)
    unfolding produce
    closing-Moves from = record {
      state = record p { producer_done = true; producer = joined };
      ended = simp (produce, from) refl;
      underway = record {
        rest = u.rest;
        holds = u.holds;
        bytes = u.bytes;
        taken = u.taken;
        waiting = u.waiting;
        represents = u.represents;
        applied = u.applied;
        engine = u.engine;
        books = u.books;
        ahead = rw from at u.ahead;
        done = refl;
        learnt =
            Learnt-produced p.consumer p.producer joined u.waiting u.waiting (rw from refl)
              u.learnt;
        decoded_count = u.decoded_count;
        applied_count = u.applied_count;
      };
    }

    pub produce-Moves : Moves Holds start total (produce read_at_most now p)
    unfolding produce
    produce-Moves = go p.producer refl
      where
        go :
            (at : ProducerPlace)
            → p.producer ≡ at
            → Moves Holds start total (produce read_at_most now p)
        go reading from = reading-Moves d start total now p u from
        go (pushing queued) from = pushing-Moves queued from
        go closing from = closing-Moves from
        go joined from = record { state = p; ended = simp (produce, from) refl; underway = u }
