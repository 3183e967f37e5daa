-- ===== src/MatchingEngine/Calls.antt =====
-- Sequences of calls of the public operations of `MatchingEngine`.
use nasdaq_itch_order_book_e.Base.{
  ℕ, suc, ◌+◌, ◌^◌, ◌<◌, ◌≡◌, refl, Option, some, List, [], ◌∷◌, ◌>>=◌, arith, length,
}
use nasdaq_itch_order_book_e.Base.Assoc.{find, size}
use nasdaq_itch_order_book_e.Common.{Side}
use nasdaq_itch_order_book_e.Itch.{ItchEvent}
use nasdaq_itch_order_book_e.MatchingEngine.{Engine, EngineLimits, new_engine, clear, apply}
use nasdaq_itch_order_book_e.MatchingEngine.Matching.{submit_limit, submit_market}
use nasdaq_itch_order_book_e.MatchingEngine.Books.{Books, Books-mono}
use nasdaq_itch_order_book_e.MatchingEngine.Apply.{Fits, apply_lem}
use nasdaq_itch_order_book_e.MatchingEngine.Orders.{submit_market_lem}
use nasdaq_itch_order_book_e.MatchingEngine.Limits.{submit_limit_lem}
use nasdaq_itch_order_book_e.MatchingEngine.Settled.{Settled}
use nasdaq_itch_order_book_e.MatchingEngine.Settling.{apply-Settled}
use nasdaq_itch_order_book_e.MatchingEngine.Trading.{submit_limit-Settled, submit_market-Settled}

-- A call of an operation that may change the engine.
pub data Call : Type 0 where
  event : (event : ItchEvent) → Call
  limit : (locate id : ℕ) (side : Side) (price quantity capacity : ℕ) → Call
  market : (locate : ℕ) (side : Side) (quantity capacity : ℕ) → Call
  clear_all : Call

unfoldable pub run_call : Engine → Call → Option Engine
run_call e (event m) = do (r, e') ← apply e m; some e'
run_call e (limit locate id side price quantity capacity) = do
  (r, e') ← submit_limit e locate id side price quantity capacity
  some e'
run_call e (market locate side quantity capacity) = do
  (r, e') ← submit_market e locate side quantity capacity
  some e'
run_call e clear_all = some (clear e)

unfoldable pub run_calls : Engine → List Call → Option Engine
run_calls e [] = some e
run_calls e (call ∷ calls) = do e' ← run_call e call; run_calls e' calls

-- The words of a call that are used as prices and quantities are of 32 bits.
abbrev pub CallFits : Call → Type 0
CallFits (event m) = Fits m
CallFits (limit locate id side price quantity capacity) = (quantity < 2 ^ 32) × (price < 2 ^ 32)
CallFits (market locate side quantity capacity) = quantity < 2 ^ 32
CallFits clear_all = Unit {0}

abbrev pub CallsFit : List Call → Type 0
CallsFit [] = Unit {0}
CallsFit (call ∷ calls) = CallFits call × CallsFit calls

-- A run that ends, with valid books, the right count and both limits kept.
pub record Sound (k : ℕ) (run : Option Engine) : Type 0 where
  pub engine : Engine
  pub ended : run ≡ some engine
  pub books : Books k engine.books
  pub settled : Settled engine

pub new_engine-Settled :
    (limits : EngineLimits) → limits.max_resting_orders < 2 ^ 64 → Settled (new_engine limits)
unfolding find size
new_engine-Settled limits word = record {
  keys = λ locate book h. cc;
  counted = refl;
  capped = omega arith;
  instruments = omega arith;
  word = word;
}

clear-Settled : (e : Engine) → Settled e → Settled (clear e)
unfolding clear find size
clear-Settled e s = record {
  keys = λ locate book h. cc;
  counted = refl;
  capped = omega arith;
  instruments = omega arith;
  word = s.word;
}

pub none-Books : (k : ℕ) → Books k []
unfolding find
none-Books k locate book h = cc

run_call-Sound :
    (k : ℕ) (e : Engine) (call : Call)
    → k + 1 < 2 ^ 64
    → CallFits call
    → Books k e.books
    → Settled e
    → Sound (k + 1) (run_call e call)
unfolding run_call clear
run_call-Sound k e (event m) room f b s =
    let run = apply_lem k e room b m f in
    record {
      engine = run.engine;
      ended = rw run.ended refl;
      books = run.books;
      settled = (apply-Settled e m s).result (run.result, run.engine) run.ended;
    }
run_call-Sound k e (limit locate id side price quantity capacity) room f b s =
    let run = submit_limit_lem k room e b locate id side price quantity f.0 f.1 capacity in
    record {
      engine = run.engine;
      ended = rw run.ended refl;
      books = run.books;
      settled =
          (submit_limit-Settled k e locate id side price quantity capacity b f.0 s).result
            (run.result, run.engine) run.ended;
    }
run_call-Sound k e (market locate side quantity capacity) room f b s =
    let run = submit_market_lem k e b locate side quantity capacity f in
    record {
      engine = run.engine;
      ended = rw run.ended refl;
      books = Books-mono k (k + 1) run.engine.books (omega arith) run.books;
      settled =
          (submit_market-Settled k e locate side quantity capacity b f s).result
            (run.result, run.engine) run.ended;
    }
run_call-Sound k e clear_all room f b s = record {
  engine = clear e;
  ended = refl;
  books = none-Books (k + 1);
  settled = clear-Settled e s;
}

-- From an engine whose books are valid with queues no longer than k, whose `resting_order_count` is the
-- number of orders in all books and whose two limits are kept, any list of calls of `apply`,
-- `submit_limit`, `submit_market` and `clear`, with words of 32 bits and with k and the number of calls
-- together below 2 ^ 64, runs to its end: no null or dangling pointer is followed, and the books are
-- valid, the count is right and the limits are kept again.
pub run_calls-Sound :
    (calls : List Call) (k : ℕ) (e : Engine)
    → CallsFit calls
    → k + length calls < 2 ^ 64
    → Books k e.books
    → Settled e
    → Sound (k + length calls) (run_calls e calls)
unfolding run_calls
run_calls-Sound [] k e f room b s = record {
  engine = e;
  ended = refl;
  books = Books-mono k (k + 0) e.books (omega arith) b;
  settled = s;
}
run_calls-Sound (call ∷ calls) k e f room b s =
    let run = run_call-Sound k e call (omega arith) f.0 b s in
    let all = run_calls-Sound calls (k + 1) run.engine f.1 (omega arith) run.books run.settled in
    record {
      engine = all.engine;
      ended = rw run.ended all.ended;
      books =
          Books-mono (k + 1 + length calls) (k + suc (length calls)) all.engine.books (omega arith)
            all.books;
      settled = all.settled;
    }
