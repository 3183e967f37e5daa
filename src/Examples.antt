-- ===== src/Examples.antt =====
-- Concrete inputs on which the theorems hold: a book with an order, an engine, an index, a mask and a
-- frame.
pub mod Ring
pub mod Histogram
pub mod Percentiles
pub mod Reader
pub mod Orders
pub mod Turns
use nasdaq_itch_order_book_e.Base.{
  ℕ, ◌+◌, ◌≡◌, ◌≤◌, ◌<◌, ◌^◌, refl, Bool, true, false, not, ◌&&◌, ◌||◌, Option, none, some, List,
  [], ◌∷◌, ◌++◌, arith, ◌==◌, if◌then◌else◌, length, drop,
}
use nasdaq_itch_order_book_e.Common.{buy, sell}
use nasdaq_itch_order_book_e.Base.Assoc.{find, insert}
use nasdaq_itch_order_book_e.OrderBook.{
  Impl, OrderNode, level_ref, node_at, empty_book, contains, add, cancel, erase_book, execute,
  modify, replace, add_node, level_at, put_node, get_or_create_level, put_level, append,
  index_price, write_node, write_level,
}
use nasdaq_itch_order_book_e.OrderBook.Queue.{entry, remove, set_quantity}
use nasdaq_itch_order_book_e.OrderBook.Valid.{Queues, set_queue, IsValid}
use nasdaq_itch_order_book_e.OrderBook.Operations.{
  Ends, add_lem, cancel_lem, erase_lem, empty_book-IsValid,
}
use nasdaq_itch_order_book_e.OrderBook.Queries.{depth, front_order, best_bid, best_ask}
use nasdaq_itch_order_book_e.OrderBook.Reads.{
  IsTop, depth_lem, front_order_lem, best_bid_lem, best_ask_lem,
}
use nasdaq_itch_order_book_e.PriceIndex
use nasdaq_itch_order_book_e.PriceIndex.{PriceIndex, new_node}
use nasdaq_itch_order_book_e.PriceIndex.Contents.{
  IsWell, has, new_node-IsWell, add-IsWell, has-add, remove-lem,
}
use nasdaq_itch_order_book_e.PriceIndex.Best.{IsBest, find-IsBest}
use nasdaq_itch_order_book_e.Mask.{Mask, empty_mask, set, lowest, highest}
use nasdaq_itch_order_book_e.Mask.Laws.{
  mem, mem-set, set-IsMask, empty_mask-IsMask, lowest_least, highest_greatest,
}
use nasdaq_itch_order_book_e.Itch.{
  DecodedMessage, complete, system_event, MessageHeader, ItchEvent, order_replace,
}
use nasdaq_itch_order_book_e.Itch.Decoder.{decode_next, read_be, decode_message, system_event_of}
use nasdaq_itch_order_book_e.Itch.Framing.{
  is_short, waits, frame_length, next-append, waits_lem, complete_lem,
}
use nasdaq_itch_order_book_e.Itch.Words.{read_be_lem}
use nasdaq_itch_order_book_e.MatchingEngine.{
  Engine, EngineLimits, no_stats, new_engine, added, executed, cancelled, deleted, apply_add,
  apply_reduce, apply_delete, apply_replace, replaced, apply,
}
use nasdaq_itch_order_book_e.OrderBook.Lengths.{Within, Within-append}
use nasdaq_itch_order_book_e.OrderBook.Modifying.{modified, modify_lem, replace_lem}
use nasdaq_itch_order_book_e.MatchingEngine.Books.{Books, Books-insert, Handled, holds}
use nasdaq_itch_order_book_e.MatchingEngine.Apply.{
  Fits, Applied, Replayed, apply_lem, apply_all, apply_all_lem,
}
use nasdaq_itch_order_book_e.MatchingEngine.Feed.{next-Fits}
use nasdaq_itch_order_book_e.MatchingEngine.Handlers.{
  covers, may_add, may_replace, apply_replace_lem, reduce_lem, execute_lem, delete_lem,
  apply_add_lem,
}
use nasdaq_itch_order_book_e.MatchingEngine.Matching.{
  MatchState, no_result, match_from, match, submit_market,
}
use nasdaq_itch_order_book_e.MatchingEngine.Orders.{Marketed, match_lem, submit_market_lem}
use nasdaq_itch_order_book_e.MatchingEngine.Filling.{Filling, Matched, match_from_lem}

abbrev book_of : Option (Bool × Impl) → Impl
book_of none = empty_book
book_of (some (b, im)) = im

ended_book :
    (run : Option (Bool × Impl)) (answer : Bool) (qs : Queues)
    → Ends run answer qs
    → IsValid (book_of run) qs
ended_book run answer qs e = rw e.ended e.valid

abbrev no_queues : Queues
no_queues r = []

unfoldable one_order : Impl
unfolding add add_node
one_order = book_of (add empty_book 7 buy 1000 50)

abbrev one_queue : Queues
one_queue = set_queue no_queues (level_ref buy 1000) (entry 7 50 ∷ [])

one_order-IsValid : IsValid one_order one_queue
unfolding one_order contains node_at find
one_order-IsValid =
    ended_book _ _ _
      (add_lem empty_book-IsValid 7 buy 1000 50 (omega arith) (omega arith) (omega arith))

abbrev order_seven : OrderNode
order_seven = record {
  id = 7;
  side = buy;
  price = 1000;
  quantity = 50;
  level = some (level_ref buy 1000);
  previous = none;
  next = none;
}

seven_at : node_at one_order 7 ≡ some order_seven
unfolding one_order node_at find contains level_at put_node get_or_create_level put_level insert
    append index_price write_node write_level
seven_at = refl

add_lem_example :
    Ends
      (add one_order 8 buy 1000 20)
      true
      (set_queue one_queue (level_ref buy 1000) (entry 7 50 ∷ entry 8 20 ∷ []))
unfolding one_order node_at find contains level_at put_node get_or_create_level put_level insert
    append index_price write_node write_level
add_lem_example = add_lem one_order-IsValid 8 buy 1000 20 (omega arith) (omega arith) (omega arith)

cancel_lem_example :
    Ends (cancel one_order 7 20) true (set_queue one_queue (level_ref buy 1000) (entry 7 30 ∷ []))
unfolding set_quantity
cancel_lem_example = cancel_lem one_order-IsValid 7 20 order_seven seven_at

erase_lem_example : Ends (erase_book one_order 7) true (set_queue one_queue (level_ref buy 1000) [])
unfolding remove
erase_lem_example = erase_lem one_order-IsValid 7 order_seven seven_at

depth_lem_example :
    depth one_order buy 1000 ≡ some (record { price = 1000; quantity = 50; order_count = 1 })
depth_lem_example = depth_lem one_order-IsValid buy 1000

best_bid_lem_example : IsTop true buy one_queue (best_bid one_order)
best_bid_lem_example = best_bid_lem one_order-IsValid

best_ask_lem_example : IsTop false sell one_queue (best_ask one_order)
best_ask_lem_example = best_ask_lem one_order-IsValid

abbrev thirty_left : MatchState
thirty_left = record {
  book = one_order;
  resting_order_count = 1;
  remaining = 30;
  result = no_result;
}

one_queue-Within : Within 1 one_queue
one_queue-Within = Within-append 0 no_queues (λ r. omega arith) (level_ref buy 1000) (entry 7 50)

abbrev thirty_left-Filling : Filling 1 30 thirty_left
thirty_left-Filling = record {
  queues = one_queue;
  valid = one_order-IsValid;
  bounded = one_queue-Within;
  accepted = refl;
  whole = refl;
  unfilled = refl;
}

match_from_lem_example :
    Matched 1 30 (omega arith) sell 900 true 4 (match_from sell 900 true 4 31 thirty_left)
match_from_lem_example =
    match_from_lem 1 30 (omega arith) sell 900 true 4 31 thirty_left thirty_left-Filling
      (omega arith)

abbrev one_index : PriceIndex
one_index = PriceIndex.add new_node 1000

abbrev one_index-IsWell : IsWell one_index
one_index-IsWell = add-IsWell new_node 1000 new_node-IsWell

find-IsBest_example : IsBest true one_index (PriceIndex.find one_index true)
find-IsBest_example = find-IsBest true one_index one_index-IsWell

remove-lem_example :
    (index' : PriceIndex) × (PriceIndex.remove one_index 1000 ≡ some index')
    × IsWell index'
    × ((q : ℕ) → q < 2 ^ 32 → has index' q ≡ (not (1000 == q) && has one_index q))
remove-lem_example =
    remove-lem one_index 1000 (omega arith) one_index-IsWell
      (has-add new_node 1000 1000 (omega arith) (omega arith))

abbrev one_mask : Mask
one_mask = set empty_mask 70

highest_greatest_example :
    (mem one_mask (highest one_mask) ≡ true) × (70 ≤ highest one_mask) × (highest one_mask < 256)
highest_greatest_example =
    highest_greatest one_mask (set-IsMask empty_mask 70 empty_mask-IsMask) 70 (omega arith)
      (mem-set empty_mask 70 70)

-- A system event: the prefix, the type, the header and the event code.
abbrev event_frame : List ℕ
event_frame = 0 ∷ 12 ∷ b'S' ∷ 0 ∷ 1 ∷ 0 ∷ 2 ∷ 0 ∷ 0 ∷ 0 ∷ 0 ∷ 1 ∷ 0 ∷ b'O' ∷ []

abbrev event_message : DecodedMessage
event_message = record {
  event = system_event (record {
    header = record { stock_locate = 1; tracking_number = 2; timestamp = 256 };
    event_code = b'O';
  });
  bytes_consumed = 14;
}

event_decoded : decode_next event_frame ≡ complete event_message
unfolding decode_next read_be decode_message system_event_of
event_decoded = refl

next-append_example : decode_next (event_frame ++ 0 ∷ []) ≡ decode_next event_frame
unfolding read_be
next-append_example = next-append event_frame (0 ∷ []) refl

waits_lem_example : waits (decode_next event_frame) ≡ is_short event_frame
waits_lem_example = waits_lem event_frame

complete_lem_example : (14 ≡ 2 + frame_length event_frame) × (14 ≤ length event_frame)
complete_lem_example = complete_lem event_frame event_message event_decoded

read_be_lem_example : read_be 2 event_frame 3 ≡ 1
read_be_lem_example =
    read_be_lem (0 ∷ 1 ∷ []) event_frame 3 (drop 5 event_frame) ((omega arith), ((omega arith), tt))
      refl

abbrev some_limits : EngineLimits
some_limits = record { max_instruments = 2; max_resting_orders = 3 }

abbrev one_engine : Engine
one_engine = record {
  books = (5, one_order) ∷ [];
  limits = some_limits;
  resting_order_count = 1;
  stats = no_stats;
}

no-Books : (k : ℕ) → Books k []
unfolding find
no-Books k locate book h = cc

one_book : Books 1 one_engine.books
unfolding insert
one_book = Books-insert 1 [] 5 one_order one_queue (no-Books 1) one_order-IsValid one_queue-Within

reduce_lem_example :
    Handled 1 one_engine 5
      (holds one_engine 5 7 (covers 20))
      cancelled
      (apply_reduce cancel cancelled one_engine 5 7 20)
reduce_lem_example = reduce_lem 1 one_engine one_book 5 7 20 cancelled

delete_lem_example :
    Handled 1 one_engine 5 (holds one_engine 5 7 (λ n. true)) deleted (apply_delete one_engine 5 7)
delete_lem_example = delete_lem 1 one_engine one_book 5 7

apply_add_lem_example :
    Handled 1
      (new_engine some_limits)
      5
      (may_add (new_engine some_limits) 5 9 40)
      added
      (apply_add (new_engine some_limits) 5 9 sell 1200 40)
apply_add_lem_example =
    apply_add_lem 0 (omega arith) (new_engine some_limits) (no-Books 0) 5 9 sell 1200 40
      (omega arith) (omega arith)

apply_replace_lem_example :
    Handled 2 one_engine 5
      (may_replace one_engine 5 7 8 60)
      replaced
      (apply_replace one_engine 5 7 8 1100 60)
apply_replace_lem_example =
    apply_replace_lem 1 (omega arith) one_engine one_book 5 8 1100 60 (omega arith) (omega arith) 7

abbrev some_header : MessageHeader
some_header = record { stock_locate = 5; tracking_number = 0; timestamp = 9 }

abbrev replace_seven : ItchEvent
replace_seven = order_replace (record {
  header = some_header;
  original_order_reference = 7;
  new_order_reference = 8;
  shares = 60;
  price = 1100;
})

apply_lem_example : Applied 2 one_engine replace_seven (apply one_engine replace_seven)
apply_lem_example =
    apply_lem 1 one_engine (omega arith) one_book replace_seven (omega arith, omega arith)

apply_all_lem_example :
    Replayed 3 one_engine
      (replace_seven ∷ replace_seven ∷ [])
      (apply_all one_engine (replace_seven ∷ replace_seven ∷ []))
apply_all_lem_example =
    apply_all_lem (replace_seven ∷ replace_seven ∷ []) 1 one_engine
      ((omega arith, omega arith), ((omega arith, omega arith), tt)) one_book (omega arith)
      (omega arith)

modify_lem_example :
    Ends
      (modify one_order 7 1100 60)
      true
      (if 60 == 0 then one_queue else modified one_queue 7 order_seven 1100 60)
modify_lem_example =
    modify_lem one_order-IsValid 7 order_seven seven_at 1100 60 (omega arith) (omega arith)
      (omega arith)

replace_lem_example :
    Ends (replace one_order 7 7 1000 20) true (modified one_queue 7 order_seven 1000 20)
replace_lem_example =
    replace_lem one_order-IsValid 7 7 order_seven seven_at 1000 20 (omega arith) (omega arith)
      (omega arith)

submit_market_lem_example : Marketed 1 one_engine 5 sell 80 (submit_market one_engine 5 sell 80 4)
submit_market_lem_example = submit_market_lem 1 one_engine one_book 5 sell 80 4 (omega arith)
