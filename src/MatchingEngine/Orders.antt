-- ===== src/MatchingEngine/Orders.antt =====
-- `match` and `submit_market` on an engine whose books are valid.
use nasdaq_itch_order_book_e.Base.{
  ℕ, suc, ◌+◌, ◌^◌, ◌<◌, ◌≡◌, refl, sym, ◌∙◌, Bool, true, false, ◌&&◌, not, Option, some, [], ◌∷◌,
  ◌==◌, inl, inr, arith, Bool-cases, Option-cases,
}
use mathlib.Core.Option.{some-injective}
use nasdaq_itch_order_book_e.Base.Assoc.{Assoc, find, insert, find-insert}
use nasdaq_itch_order_book_e.Common.{Side, opposite}
use nasdaq_itch_order_book_e.OrderBook.{Impl, OrderNode, node_at, level_ref}
use nasdaq_itch_order_book_e.OrderBook.Queue.{Queue, has_id, is_empty}
use nasdaq_itch_order_book_e.OrderBook.Valid.{Queues, IsValid}
use nasdaq_itch_order_book_e.MatchingEngine.{Engine, MatchResult, find_book}
use nasdaq_itch_order_book_e.MatchingEngine.Matching.{
  MatchState, no_result, crosses, refused, match, after_match, submit_market,
}
use nasdaq_itch_order_book_e.MatchingEngine.Filling.{Filling, match_from_lem}
use nasdaq_itch_order_book_e.MatchingEngine.Books.{Books, Books-insert, find_book-put}

-- A simulated order that ends, with the shares it filled and those it did not.
pub record Traded (k : ℕ) (e : Engine) (locate quantity : ℕ) (left : MatchResult → ℕ)
    (accept : Bool) (run : Option (MatchResult × Engine)) : Type 0 where
  pub result : MatchResult
  pub engine : Engine
  pub ended : run ≡ some (result, engine)
  pub whole : result.filled + left result ≡ quantity
  pub accepted : result.accepted ≡ accept
  pub books : Books k engine.books
  pub others : (j : ℕ) → (locate == j) ≡ false → find_book engine j ≡ find_book e j

has_id-is_empty : (id : ℕ) (es : Queue) → has_id id es ≡ true → is_empty es ≡ false
has_id-is_empty id [] h = cc
has_id-is_empty id (x ∷ es) h = refl

-- The order may not trade with an order of the other side that the book holds.
abbrev pub Apart : Side → ℕ → Bool → Impl → Type 0
Apart side limit_price has_limit book =
    (id : ℕ) (n : OrderNode)
    → node_at book id ≡ some n
    → n.side ≡ opposite side
    → (has_limit && not (crosses side limit_price n.price)) ≡ true

pub Apart-of :
    (side : Side) (limit_price : ℕ) (has_limit : Bool) (book : Impl) (qs : Queues)
    → IsValid book qs
    → ((q : ℕ)
        → q < 2 ^ 32
        → is_empty (qs (level_ref (opposite side) q)) ≡ false
        → (has_limit && not (crosses side limit_price q)) ≡ true)
    → Apart side limit_price has_limit book
Apart-of side limit_price has_limit book qs v h id n e same =
    let r = level_ref (opposite side) n.price in
    let there : has_id id (qs r) ≡ true = rw same at (v.owned id n e) in
    let busy = has_id-is_empty id (qs r) there in h n.price (v.priced r busy) busy

only_book :
    (locate : ℕ) (book b : Impl) (m : Assoc Impl)
    → find locate (insert locate book m) ≡ some b
    → (P : Impl → Type 0) → P book
    → P b
only_book locate book b m found P p =
    let hit : (locate == locate) ≡ true = ground arith in
    let here : some book ≡ some b = rw hit at (sym (find-insert locate locate book m) ∙ found) in
    rw (← some-injective book b here) p

-- A matching that ends: nothing is given up, and what remains may not trade with the book.
pub record Executed (k : ℕ) (e : Engine) (locate : ℕ) (side : Side) (limit_price quantity : ℕ)
    (has_limit : Bool) (run : Option (MatchResult × Engine)) : Type 0 where
  pub trade : Traded k e locate quantity (λ r. r.resting) true run
  pub unfilled : trade.result.unfilled ≡ 0
  pub apart :
      0 < trade.result.resting
      → (book : Impl) → find_book trade.engine locate ≡ some book
      → Apart side limit_price has_limit book

module _ (k : ℕ) (e : Engine) (books : Books k e.books) (locate : ℕ) (side : Side)
    (limit_price quantity : ℕ) (has_limit : Bool) (capacity : ℕ) (small : quantity < 2 ^ 32) where
  match_in :
      (book : Impl)
      → find locate e.books ≡ some book
      → Executed k e locate side limit_price quantity has_limit
          (match e locate side limit_price quantity has_limit capacity)
  unfolding match find_book
  match_in book here =
      let (qs, v, w) = books locate book here in
      let start : MatchState = record {
        book = book;
        resting_order_count = e.resting_order_count;
        remaining = quantity;
        result = no_result;
      } in
      let filling : Filling k quantity start = record {
        queues = qs;
        valid = v;
        bounded = w;
        accepted = refl;
        whole = omega arith;
        unfilled = refl;
      } in
      let run =
        match_from_lem k quantity small side limit_price has_limit capacity (suc quantity) start
          filling (omega arith) in
      let (r, e') = after_match e locate run.state in
      let trade : Traded k e locate quantity (λ r. r.resting) true
          (match e locate side limit_price quantity has_limit capacity) =
        record {
          result = r;
          engine = e';
          ended = rw (here, match, run.ended) refl;
          whole = run.filling.whole;
          accepted = run.filling.accepted;
          books =
              Books-insert k e.books locate run.state.book _ books run.filling.valid
                run.filling.bounded;
          others = λ j h. find_book-put e locate run.state.book j h;
        } in
      record {
        trade = trade;
        unfilled = run.filling.unfilled;
        apart = λ left b found.
            only_book locate run.state.book b e.books found (Apart side limit_price has_limit)
              (elim run.rest [
                | inl done ↦ absurd (omega arith)
                | inr far ↦
                    Apart-of side limit_price has_limit run.state.book _ run.filling.valid far
              ]);
      }

  pub match-Executed :
      Executed k e locate side limit_price quantity has_limit
        (match e locate side limit_price quantity has_limit capacity)
  unfolding match find_book
  match-Executed = elim (Option-cases (find locate e.books)) [
    | inr (book, here) ↦ match_in book here
    | inl missing ↦ record {
      trade = record {
        result = record no_result { resting = quantity };
        engine = e;
        ended = rw (missing, match) refl;
        whole = omega arith;
        accepted = refl;
        books = books;
        others = λ j h. refl;
      };
      unfilled = refl;
      apart = λ left b found. cc;
    }
  ]

  -- If all books of the engine are valid with queues no longer than k, matching an order below 2 ^ 32 shares
  -- ends and is accepted: the shares filled and the shares that rest make the order, the other books are
  -- as they were, and all books are valid again with queues no longer than k.
  pub match_lem :
      Traded k e locate quantity
        (λ r. r.resting)
        true
        (match e locate side limit_price quantity has_limit capacity)
  match_lem = match-Executed.trade

-- A market order that ends: nothing of it rests, and what is unfilled found no order of the other side.
pub record Marketed (k : ℕ) (e : Engine) (locate : ℕ) (side : Side) (quantity : ℕ)
    (run : Option (MatchResult × Engine)) : Type 0 where
  pub result : MatchResult
  pub engine : Engine
  pub ended : run ≡ some (result, engine)
  pub accepted : result.accepted ≡ not (quantity == 0)
  pub whole : result.filled + result.unfilled ≡ quantity
  pub resting : result.resting ≡ 0
  pub swept :
      0 < result.unfilled
      → (book : Impl) → find_book engine locate ≡ some book
      → (id : ℕ) (n : OrderNode) → node_at book id ≡ some n
      → ¬ (n.side ≡ opposite side)
  pub books : Books k engine.books
  pub others : (j : ℕ) → (locate == j) ≡ false → find_book engine j ≡ find_book e j

module _ (k : ℕ) (e : Engine) (books : Books k e.books) (locate : ℕ) (side : Side)
    (quantity capacity : ℕ) (small : quantity < 2 ^ 32) where
  -- If all books of the engine are valid with queues no longer than k, a market order below 2 ^ 32 shares
  -- ends: it is refused just when it is for zero shares, nothing of it rests, and the shares filled and
  -- those unfilled make the order. If some are unfilled, the book that is left holds no order of the other
  -- side. The other books are as they were, and all books are valid again with queues no longer than k.
  pub submit_market_lem :
      Marketed k e locate side quantity (submit_market e locate side quantity capacity)
  unfolding submit_market
  submit_market_lem = elim (Bool-cases (quantity == 0)) [
    | inl zero_shares ↦ record {
      result = refused;
      engine = e;
      ended = rw zero_shares refl;
      accepted = rw zero_shares refl;
      whole = ground arith;
      resting = refl;
      swept = λ left. absurd (omega arith);
      books = books;
      others = λ j h. refl;
    }
    | inr some_shares ↦
        let run = match-Executed k e books locate side 0 quantity false capacity small in
        let trade = run.trade in
        record {
          result = record trade.result { unfilled = trade.result.resting; resting = 0 };
          engine = trade.engine;
          ended = rw (some_shares, trade.ended) refl;
          accepted = rw some_shares trade.accepted;
          whole = trade.whole;
          resting = refl;
          swept = λ left book found id n here same.
              let crossed = run.apart left book found id n here same in cc crossed;
          books = trade.books;
          others = trade.others;
        }
  ]
