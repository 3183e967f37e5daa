-- ===== src/MatchingEngine/Limits.antt =====
-- `submit_limit` on an engine whose books are valid.
use nasdaq_itch_order_book_e.Base.{
  ℕ, ◌+◌, ◌^◌, ◌<◌, ◌≡◌, refl, true, false, ◌||◌, ◌==◌, inl, inr, arith, Bool-cases,
}
use nasdaq_itch_order_book_e.Common.{Side}
use nasdaq_itch_order_book_e.MatchingEngine.{Engine}
use nasdaq_itch_order_book_e.MatchingEngine.Matching.{refused, book_contains, submit_limit}
use nasdaq_itch_order_book_e.MatchingEngine.Books.{Books, Books-mono}
use nasdaq_itch_order_book_e.MatchingEngine.Orders.{match-Executed}
use nasdaq_itch_order_book_e.MatchingEngine.Resting.{Submitted, either, rest_order_lem, worked}

module _ (k : ℕ) (room : k + 1 < 2 ^ 64) (e : Engine) (books : Books k e.books) (locate id : ℕ)
    (side : Side) (limit_price quantity : ℕ) (small : quantity < 2 ^ 32)
    (in_range : limit_price < 2 ^ 32) (capacity : ℕ) where
  submit_found :
      (quantity == 0 || book_contains e locate id) ≡ false
      → Submitted
          (k + 1)
          e
          locate
          id
          side
          limit_price
          quantity
          false
          (submit_limit e locate id side limit_price quantity capacity)
  unfolding submit_limit
  submit_found fine =
      let run = match-Executed k e books locate side limit_price quantity true capacity small in
      let trade = run.trade in
      let whole : trade.result.filled + trade.result.resting ≡ quantity = trade.whole in
      elim (Bool-cases (trade.result.resting == 0)) [
        | inl done ↦ record {
          result = trade.result;
          engine = trade.engine;
          ended = rw (submit_limit, fine, trade.ended, done) refl;
          books = Books-mono k (k + 1) trade.engine.books (omega arith) trade.books;
          others = trade.others;
          kept = λ h. cc;
          whole = (let none_left = run.unfilled in omega arith);
          accepted = λ h. run.unfilled;
          given_up = λ h. ground arith;
          rests = λ h. absurd (ground arith);
        }
        | inr left ↦
            let rest =
              rest_order_lem k room trade.engine trade.books locate id side limit_price quantity
                small in_range trade.result whole run.unfilled trade.accepted
                (run.apart (ground arith)) in
            rw (submit_limit, fine, trade.ended, left)
              (worked k room e books locate id side limit_price quantity small in_range capacity
                trade.engine _ trade.others rest)
      ]

  -- If all books of the engine are valid with queues no longer than k, k + 1 is below 2 ^ 64, and shares and
  -- price are of 32 bits, a limit order ends. For zero shares or an order number in use it changes
  -- nothing; else the shares filled, resting and unfilled make the order, none are unfilled if it is
  -- accepted and none rest if it is not. What rests is in the book under the order's number, side and
  -- price, and that book holds no order of the other side that the limit price crosses. The other books
  -- are as they were, and all books are valid again with queues no longer than k + 1.
  pub submit_limit_lem :
      Submitted
        (k + 1)
        e
        locate
        id
        side
        limit_price
        quantity
        (quantity == 0 || book_contains e locate id)
        (submit_limit e locate id side limit_price quantity capacity)
  unfolding submit_limit
  submit_limit_lem =
      either (k + 1) e locate id side limit_price quantity
        (quantity == 0 || book_contains e locate id) _
        (λ turned. record {
          result = refused;
          engine = e;
          ended = rw (submit_limit, turned) refl;
          books = Books-mono k (k + 1) e.books (omega arith) books;
          others = λ j h. refl;
          kept = λ h. refl;
          whole = refl;
          accepted = λ h. cc;
          given_up = λ h. refl;
          rests = λ h. absurd (omega arith);
        })
        submit_found
