-- ===== src/Replay/Ending.antt =====
-- The two threads can always come to their end.
use nasdaq_itch_order_book_e.Base.{
  ℕ, zero, suc, ◌^◌, ◌<◌, ◌≡◌, refl, sym, ◌∙◌, some, Bool, List, [], ◌∷◌, inl, inr, arith, length,
}
use nasdaq_itch_order_book_e.Itch.{ItchEvent}
use nasdaq_itch_order_book_e.Itch.Words.{Bytes}
use nasdaq_itch_order_book_e.MatchingEngine.{Engine, EngineLimits, new_engine}
use nasdaq_itch_order_book_e.MatchingEngine.Apply.{AllFit, apply_all}
use nasdaq_itch_order_book_e.SpscRing.{SpscRing, new_ring}
use nasdaq_itch_order_book_e.SpscRing.Lifetime.{new_ring-Represents}
use nasdaq_itch_order_book_e.Replay.{Read}
use nasdaq_itch_order_book_e.Replay.Frames.{Delivers}
use nasdaq_itch_order_book_e.Replay.Pipeline.{
  QueuedEvent, left, Pipeline, new_pipeline, Turn, take_turns,
}
use nasdaq_itch_order_book_e.Replay.Progress.{Underway}
use nasdaq_itch_order_book_e.Replay.Fetched.{file_events, file_events-AllFit}
use nasdaq_itch_order_book_e.Replay.Runs.{take_turns-Moves, left_engine, new_pipeline-Underway}
use nasdaq_itch_order_book_e.Replay.Work.{work}
use nasdaq_itch_order_book_e.Replay.Nearing.{turn-Nearer}

module _ {Stream : Type 0} {read_at_most : Stream → ℕ → Read Stream}
    {Holds : Stream → List ℕ → Type 0} (d : Delivers read_at_most Holds) (start : Engine)
    (total : List ItchEvent × Bool) (fit : AllFit total.0) (few : length total.0 < 2 ^ 64) where
  -- Turns to the end.
  pub record Ending (p : Pipeline Stream) : Type 0 where
    pub turns : List Turn
    pub last : Pipeline Stream
    pub ended : take_turns read_at_most turns p ≡ some last
    pub gone : last.consumer ≡ left
    pub underway : Underway Holds start total last

  Ending-within :
      (bound : ℕ) (p : Pipeline Stream) (u : Underway Holds start total p)
      → work (length total.0) p < bound
      → Ending p
  unfolding take_turns
  Ending-within zero p u h = absurd (omega arith)
  Ending-within (suc bound) p u h = elim (turn-Nearer d start total fit few p u) [
    | inl gone ↦ record { turns = []; last = p; ended = refl; gone = gone; underway = u }
    | inr (turn, near) ↦
        let less = near.less in
        let rest = Ending-within bound near.moves.state near.moves.underway (omega arith) in
        record {
          turns = turn ∷ rest.turns;
          last = rest.last;
          ended = rw near.moves.ended rest.ended;
          gone = rest.gone;
          underway = rest.underway;
        }
  ]

-- The turns that are left, and what they lead to.
pub record Completes {Stream : Type 0} (read_at_most : Stream → ℕ → Read Stream)
    (limits : EngineLimits) (total : List ItchEvent × Bool) (p : Pipeline Stream) : Type 0 where
  pub turns : List Turn
  pub last : Pipeline Stream
  pub ended : take_turns read_at_most turns p ≡ some last
  pub gone : last.consumer ≡ left
  pub engine : apply_all (new_engine limits) total.0 ≡ some last.engine

-- On a stream that delivers the bytes of a file without failing, with a new ring and fewer than 2 ^ 64
-- events in the file, the replay never gets stuck: whatever turns were taken, there are turns to take
-- from there after which the consumer has left its loop, and the engine is as after applying all events
-- that the decoder finds in the file.
pub take_turns_ending :
    {Stream : Type 0} {read_at_most : Stream → ℕ → Read Stream} {Holds : Stream → List ℕ → Type 0}
    (d : Delivers read_at_most Holds) (capacity : ℕ) (ring : SpscRing QueuedEvent)
    (limits : EngineLimits) (file : List ℕ) (s : Stream) (turns : List Turn) (p : Pipeline Stream)
    → capacity < 2 ^ 64
    → new_ring capacity ≡ some ring
    → Holds s file
    → Bytes file
    → length (file_events (length file) file).0 < 2 ^ 64
    → take_turns read_at_most turns (new_pipeline s ring limits) ≡ some p
    → Completes read_at_most limits (file_events (length file) file) p
take_turns_ending d capacity ring limits file s turns p small made holds bytes few run =
    let total = file_events (length file) file in
    let fit = file_events-AllFit (length file) file in
    let u0 =
      new_pipeline-Underway d ring limits file s (new_ring-Represents capacity ring small made)
        holds bytes in
    let m = take_turns-Moves d (new_engine limits) total fit few turns _ u0 in
    let both : some m.state ≡ some p = sym m.ended ∙ run in
    let same : m.state ≡ p = cc both in
    let u : Underway _ (new_engine limits) total p = rw same at m.underway in
    let end =
      Ending-within d (new_engine limits) total fit few (suc (work (length total.0) p)) p u
        (omega arith) in
    record {
      turns = end.turns;
      last = end.last;
      ended = end.ended;
      gone = end.gone;
      engine = left_engine d (new_engine limits) total end.last end.underway end.gone;
    }
