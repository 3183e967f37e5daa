-- ===== src/Lib.antt =====
-- Verification library of the limit order book of the TotalView-ITCH 5.0 feed.
--
-- The program decodes framed ITCH messages (src/itch/itch.cpp) into typed events, which the matching
-- engine (src/engine/matching_engine.cpp) applies to one order book for each stock locate number
-- (src/book/order_book.cpp). The engine can also match simulated orders against a book.
--
--   Common           include/lob/common.hpp: the sides.
--   Mask             src/book/order_book.cpp, 256-bit occupancy masks and their scans.
--   PriceIndex       src/book/order_book.cpp, class PriceIndex: a trie over the bytes of a price.
--   OrderBook        src/book/order_book.cpp, OrderBook::Impl and the operations that change a book.
--                    OrderBook/Queries has those that read it. `erase_book` is OrderBook::erase,
--                    `cancel_found`, `modify_found`, `requeue` and `replace_new` are parts of
--                    OrderBook::cancel, modify and replace.
--   Itch             include/lob/itch.hpp: events and decoder results; Itch/Decoder is
--                    src/itch/itch.cpp.
--   MatchingEngine   include/lob/matching_engine.hpp and src/engine/matching_engine.cpp:
--                    MatchingEngine::apply with its handlers; MatchingEngine/Matching has match,
--                    submit_limit and submit_market.
--   SpscRing         include/lob/spsc_ring.hpp, the ring between two threads; SpscRing/Threads
--                    has the interleavings.
--   Latency          include/lob/latency.hpp and src/metrics/latency.cpp, the histogram;
--                    `record_value`, `min_ns`, `max_ns` are record, min and max.
--   Replay           src/app/itch_replay.cpp: the frame reader, `record_latency` and the arguments.
--                    The stream that `read_at_most` reads from and `std::stoull` are parameters.
--                    Replay/Pipeline is the producer thread and the consumer loop of main, after
--                    the arguments and the file are taken; Replay/Report is what follows them.
--   Base             Boolean tests, lists, association lists, machine words and the laws of their bits.
--   Examples         concrete inputs for the theorems.
--
-- State. A mask is a function from the index of a word; the children of a trie node are a function
-- from a byte to an optional child. `std::unordered_map` is an association list with one entry per
-- key. The book's order nodes are owned by the map of orders and its levels by the maps of levels, so
-- the pointers `previous`, `next`, `head`, `tail` and `level` are modelled by the keys that own what
-- they point to, and a write through a pointer is a write to the map. A pointer that is null or
-- dangling where the source follows it ends the run with `none`.
--
-- Abstract view. OrderBook/Valid relates a book to one FIFO queue of orders per side and price: the
-- links of the list of a level, its head, tail, count and total, the level maps, and the price index
-- agree with the queues. The theorems on
-- `add`, `cancel`, `erase`, `modify`, `replace` and the queries are about that view.
--
-- Numbers. Prices and quantities are below 2 ^ 32, order numbers below 2 ^ 64; additions and
-- subtractions wrap around as written in Base/Words. The total of a level is kept modulo 2 ^ 64.
--
-- Fuel. The matching loop takes a unit of fuel for each fill. `match` gives it one more than the
-- shares of the order, and each fill takes at least one share.
--
-- Events. `apply` is taken from any engine whose books are valid with queues no longer than some k; each
-- event makes queues longer by at most one, so that k and the number of events bound them.
--
-- Reader. The loops of `next_frame` take one unit of fuel more than the bytes that are to come, and each
-- read that delivers gives at least one.
--
-- Calls. MatchingEngine/Settled relates `resting_order_count` to the orders in the books, and both
-- limits to the engine; MatchingEngine/Calls has lists of calls of the engine's operations.
--
-- Threads. A turn of Replay/Pipeline runs the producer or the consumer up to its next use of what they
-- share: the ring, `producer_done` and `producer_failed`. A call of the ring is one turn. The clock's
-- values are given with each turn. `file_events` in Replay/Fetched is the decoder on a whole file, with
-- one unit of fuel for each byte.
--
-- Ring. SpscRing has the calls of the ring run without interruption; a slot holds an object or nothing.
-- SpscRing/Threads has both threads as a step relation, one shared access at a time. The release stores
-- and acquire loads are taken to order what each thread does with the slots, so that accesses interleave.
--
-- Histogram. The bins are a function from their index. `double` and `long double` are a parameter, the
-- record FloatingPoint with the constants, tests, conversions, product and quotient that the source uses,
-- on numbers that are no NaN. The theorem on percentiles takes the rules of rounding as a hypothesis,
-- IsRounding, with a bound up to which whole numbers are exact: 2 ^ 64 for a significand of 64 bits,
-- 2 ^ 53 where `long double` is `double`.
--
-- Not modelled: failing allocations (the source's `catch` in OrderBook::add), the texts of decoder
-- errors, move construction, and of src/app/itch_replay.cpp the opening of files, the checkpoints and
-- the latencies that are printed.
pub mod Base
pub mod Common
pub mod Mask
pub mod PriceIndex
pub mod OrderBook
pub mod Itch
pub mod MatchingEngine
pub mod Latency
pub mod Replay
pub mod SpscRing
pub mod Examples
