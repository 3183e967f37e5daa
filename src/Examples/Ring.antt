-- ===== src/Examples/Ring.antt =====
-- A ring for four numbers, in which two wait across the wrap of the slots.
use nasdaq_itch_order_book_e.Base.{
  ℕ, ◌+◌, ◌%◌, ◌≡◌, ◌≤◌, ◌<◌, refl, true, none, some, List, [], ◌∷◌, ◌++◌, arith, length, update,
}
use nasdaq_itch_order_book_e.SpscRing.{SpscRing, new_ring, slot_at, emplace, try_pop}
use nasdaq_itch_order_book_e.SpscRing.Objects.{stop, object}
use nasdaq_itch_order_book_e.SpscRing.Laws.{Represents, emplace_lem, try_pop_lem}
use nasdaq_itch_order_book_e.SpscRing.Threads.{
  Producer, resting, has_room, constructed, Consumer, waiting, has_object, System, load_write,
  find_room, construct, publish, load_read, find_object, Steps, still, further, at_rest,
}
use nasdaq_itch_order_book_e.SpscRing.Threads.Safety.{threads_fifo, threads_safe}

abbrev two_waiting : SpscRing ℕ
two_waiting = record {
  capacity = 4;
  mask = 3;
  slots = update (update (λ i. none) 3 (some 10)) 0 (some 20);
  write_index = 5;
  read_index = 3;
}

two_waiting-Represents : Represents two_waiting 3 (10 ∷ (20 ∷ []))
two_waiting-Represents = record {
  power = 2;
  small = omega arith;
  cap = refl;
  ones = refl;
  reads = refl;
  writes = refl;
  objects = record {
    fits = omega arith;
    held = object refl (object refl stop);
    free = λ d above below. free_slot d above below;
  };
}
  where
    free_slot : (d : ℕ) → 2 ≤ d → d < 4 → two_waiting.slots ((3 + d) % 4) ≡ none
    free_slot d a b = ground arith

emplace_lem_example :
    let (ok, after) = emplace two_waiting 30 in
    (ok ≡ true) × Represents after 3 (10 ∷ (20 ∷ (30 ∷ [])))
emplace_lem_example = emplace_lem two_waiting-Represents 30

try_pop_lem_example :
    (after : SpscRing ℕ) × (try_pop two_waiting ≡ some (some 10, after))
    × Represents after 4 (20 ∷ [])
try_pop_lem_example = try_pop_lem (10 ∷ (20 ∷ [])) two_waiting-Represents

abbrev new_four : SpscRing ℕ
new_four = record { capacity = 4; mask = 3; slots = λ i. none; write_index = 0; read_index = 0 }

new_four-new_ring : new_ring 4 ≡ some new_four
unfolding new_ring
new_four-new_ring = refl

-- The producer has published 7 and constructed 8, and the consumer has seen the first.
abbrev mid_flight : System ℕ
mid_flight = record {
  ring = record {
    capacity = 4;
    mask = 3;
    slots = update (update (λ i. none) 0 (some 7)) 1 (some 8);
    write_index = 1;
    read_index = 0;
  };
  producer = constructed 8 1;
  consumer = has_object 0;
  pushed = 7 ∷ [];
  popped = [];
}

abbrev part_way : ℕ → Producer ℕ → Consumer ℕ → List ℕ → System ℕ
part_way write producer consumer pushed = record {
  ring = record {
    capacity = 4;
    mask = 3;
    slots = update (λ i. none) 0 (some 7);
    write_index = write;
    read_index = 0;
  };
  producer = producer;
  consumer = consumer;
  pushed = pushed;
  popped = [];
}

to_mid_flight : Steps (at_rest new_four [] []) mid_flight
unfolding slot_at
to_mid_flight =
    let first : Steps (at_rest new_four [] [])
        (record (at_rest new_four [] []) { producer = has_room 7 0 }) =
      further (further still (load_write 7 refl))
        (find_room 7 0 refl (λ e. absurd (omega arith))) in
    let second : Steps (at_rest new_four [] []) (part_way 1 resting waiting (7 ∷ [])) =
      further (further first (construct 7 0 refl)) (publish 7 0 refl) in
    let third : Steps (at_rest new_four [] []) (part_way 1 resting (has_object 0) (7 ∷ [])) =
      further (further second (load_read refl)) (find_object 0 refl (λ e. absurd (omega arith))) in
    let fourth : Steps (at_rest new_four [] [])
        (part_way 1 (has_room 8 1) (has_object 0) (7 ∷ [])) =
      further (further third (load_write 8 refl))
        (find_room 8 1 refl (λ e. absurd (omega arith))) in
    further fourth (construct 8 1 refl)

threads_fifo_example :
    (waiting_objects : List ℕ) × (mid_flight.pushed ≡ mid_flight.popped ++ waiting_objects)
    × (length waiting_objects ≤ 4)
threads_fifo_example = threads_fifo 4 new_four (omega arith) new_four-new_ring to_mid_flight

threads_safe_example :
    ((read : ℕ)
      → mid_flight.consumer ≡ has_object read
      → (out : ℕ) × (mid_flight.ring.slots (slot_at mid_flight.ring read) ≡ some out))
    × ((value : ℕ) (write : ℕ)
        → mid_flight.producer ≡ has_room value write
        → mid_flight.ring.slots (slot_at mid_flight.ring write) ≡ none)
threads_safe_example = threads_safe 4 new_four (omega arith) new_four-new_ring to_mid_flight
