-- ===== src/Examples/Orders.antt =====
-- Calls of an engine's operations.
use nasdaq_itch_order_book_e.Base.{List, [], ◌∷◌, ◌==◌, ◌||◌, arith}
use nasdaq_itch_order_book_e.Common.{buy, sell}
use nasdaq_itch_order_book_e.MatchingEngine.{new_engine}
use nasdaq_itch_order_book_e.MatchingEngine.Matching.{book_contains, submit_limit}
use nasdaq_itch_order_book_e.MatchingEngine.Resting.{Submitted}
use nasdaq_itch_order_book_e.MatchingEngine.Limits.{submit_limit_lem}
use nasdaq_itch_order_book_e.MatchingEngine.Calls.{
  Call, event, limit, market, clear_all, run_calls, Sound, run_calls-Sound, new_engine-Settled,
}
use nasdaq_itch_order_book_e.Examples.{one_engine, one_book, some_limits, no-Books, replace_seven}

submit_limit_lem_example :
    Submitted 2 one_engine 5 8 sell 900 80
      (80 == 0 || book_contains one_engine 5 8)
      (submit_limit one_engine 5 8 sell 900 80 4)
submit_limit_lem_example =
    submit_limit_lem 1 (omega arith) one_engine one_book 5 8 sell 900 80 (omega arith) (omega arith)
      4

abbrev some_calls : List Call
some_calls =
    limit 5 7 buy 1000 50 4
    ∷ limit 5 8 sell 900 80 4
    ∷ market 5 buy 10 4
    ∷ event replace_seven
    ∷ clear_all
    ∷ []

run_calls-Sound_example : Sound 5 (run_calls (new_engine some_limits) some_calls)
run_calls-Sound_example =
    run_calls-Sound some_calls 0 (new_engine some_limits)
      (
        (omega arith, omega arith),
        ((omega arith, omega arith), (omega arith, ((omega arith, omega arith), (tt, tt)))),
      )
      (omega arith) (no-Books 0) (new_engine-Settled some_limits (omega arith))
