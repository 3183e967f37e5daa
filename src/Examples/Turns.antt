-- ===== src/Examples/Turns.antt =====
-- A replay of a file with one message, through a ring of two slots.
use mathlib.Core.Option.{some-injective}
use nasdaq_itch_order_book_e.Base.{
  ℕ, ◌^◌, ◌≡◌, ◌<◌, refl, sym, ap, ◌∙◌, true, none, some, List, [], ◌∷◌, arith, length,
}
use nasdaq_itch_order_book_e.Itch.Words.{Bytes}
use nasdaq_itch_order_book_e.SpscRing.{SpscRing, new_ring, empty}
use nasdaq_itch_order_book_e.Replay.{ReplayConfig, default_config, next_frame}
use nasdaq_itch_order_book_e.Replay.Report.{Finished, finish_replay, finish_replay_lem}
use nasdaq_itch_order_book_e.Replay.Pipeline.{
  QueuedEvent, new_pipeline, Turn, producer_turn, consumer_turn, Pipeline, take_turns, take_turn,
  produce, consume, fetched, joined, left,
}
use nasdaq_itch_order_book_e.Replay.Fetched.{file_events}
use nasdaq_itch_order_book_e.Replay.Runs.{Replays, take_turns_lem}
use nasdaq_itch_order_book_e.Replay.Ending.{Completes, take_turns_ending}
use nasdaq_itch_order_book_e.Examples.{event_frame, event_message, event_decoded, some_limits}
use nasdaq_itch_order_book_e.Examples.Reader.{one_byte, one_byte-Delivers}

abbrev new_two : SpscRing QueuedEvent
new_two = record { capacity = 2; mask = 1; slots = λ i. none; write_index = 0; read_index = 0 }

new_two-new_ring : new_ring 2 ≡ some new_two
unfolding new_ring
new_two-new_ring = refl

one_event : (file_events 14 event_frame).0 ≡ event_message.event ∷ []
unfolding file_events
one_event = rw (file_events, event_decoded) refl

few_events : length (file_events 14 event_frame).0 < 2 ^ 64
few_events = rw one_event (omega arith)

event_frame-Bytes : Bytes event_frame
event_frame-Bytes = (
  omega arith,
  (
    omega arith,
    (
      omega arith,
      (
        omega arith,
        (
          omega arith,
          (
            omega arith,
            (
              omega arith,
              (
                omega arith,
                (
                  omega arith,
                  (omega arith, (omega arith, (omega arith, (omega arith, (omega arith, tt))))),
                ),
              ),
            ),
          ),
        ),
      ),
    ),
  ),
)

abbrev some_turns : List Turn
some_turns =
    producer_turn 5
    ∷ consumer_turn 6 7
    ∷ producer_turn 8
    ∷ producer_turn 9
    ∷ consumer_turn 10 11
    ∷ []

take_turns_lem_example :
    Replays some_limits
      (file_events 14 event_frame)
      (take_turns one_byte some_turns (new_pipeline event_frame new_two some_limits))
take_turns_lem_example =
    take_turns_lem one_byte-Delivers 2 new_two some_limits event_frame event_frame some_turns
      (omega arith) new_two-new_ring refl event_frame-Bytes few_events

first_turns :
    Replays some_limits
      (file_events 14 event_frame)
      (take_turns one_byte some_turns (new_pipeline event_frame new_two some_limits))
first_turns =
    take_turns_lem one_byte-Delivers 2 new_two some_limits event_frame event_frame some_turns
      (omega arith) new_two-new_ring refl event_frame-Bytes few_events

take_turns_ending_example :
    Completes one_byte some_limits (file_events 14 event_frame) first_turns.state
take_turns_ending_example =
    take_turns_ending one_byte-Delivers 2 new_two some_limits event_frame event_frame some_turns
      first_turns.state (omega arith) new_two-new_ring refl event_frame-Bytes few_events
      first_turns.ended

abbrev asking : ReplayConfig
asking = record default_config { snapshot_locate = some 1; fail_on_reject = true }

-- All turns of the replay of a file without a message.
abbrev all_turns : List Turn
all_turns = producer_turn 1 ∷ (producer_turn 2 ∷ (consumer_turn 3 4 ∷ (consumer_turn 5 6 ∷ [])))

abbrev empty_start : Pipeline (List ℕ)
empty_start = new_pipeline [] new_two default_config.engine_limits

abbrev at_last : Pipeline (List ℕ)
at_last = record empty_start { producer_done = true; producer = joined; consumer = left }

all_taken : take_turns one_byte all_turns empty_start ≡ some at_last
unfolding take_turns take_turn produce consume next_frame fetched empty
all_taken = refl

empty_replay :
    Replays default_config.engine_limits ([], true) (take_turns one_byte all_turns empty_start)
unfolding file_events
empty_replay =
    take_turns_lem one_byte-Delivers 2 new_two default_config.engine_limits [] [] all_turns
      (omega arith) new_two-new_ring refl tt (omega arith)

empty_replay-left : empty_replay.state.consumer ≡ left
empty_replay-left =
    let both : some empty_replay.state ≡ some at_last = sym empty_replay.ended ∙ all_taken in
    ap (λ (p : Pipeline (List ℕ)). p.consumer) (some-injective empty_replay.state at_last both)

finish_replay_lem_example :
    Finished asking true empty_replay.state.engine (finish_replay asking empty_replay.state)
finish_replay_lem_example =
    finish_replay_lem asking ([], true) (take_turns one_byte all_turns empty_start) empty_replay
      empty_replay-left
