-- ===== src/MatchingEngine/Matching.antt =====
-- `match`, `submit_limit` and `submit_market` of src/engine/matching_engine.cpp. The loop runs on
-- fuel, one unit for each fill.
use nasdaq_itch_order_book_e.Base.{
  ℕ, zero, suc, Bool, true, false, ◌||◌, ◌&&◌, not, Option, none, some, [], ◌∷◌, ◌++◌, ◌>>=◌, ◌==◌,
  ltb, leb, if◌then◌else◌, add64, sub64, add32, sub32,
}
use nasdaq_itch_order_book_e.Common.{Side, opposite, is_buy}
use nasdaq_itch_order_book_e.OrderBook.{Impl, contains, add, execute, OrderView}
use nasdaq_itch_order_book_e.OrderBook.Queries.{best_bid, best_ask, front_order}
use nasdaq_itch_order_book_e.MatchingEngine.{
  Engine, Fill, MatchResult, find_book, put_book, ensure_book, can_create_order, one_more,
}

-- What the loop changes: the book, the engine's count of resting orders, and its locals.
pub record MatchState : Type 0 where
  pub book : Impl
  pub resting_order_count : ℕ
  pub remaining : ℕ
  pub result : MatchResult

abbrev pub no_result : MatchResult
no_result = record {
  filled = 0;
  resting = 0;
  unfilled = 0;
  fill_count = 0;
  fills_truncated = false;
  accepted = true;
  fill_output = [];
}

abbrev pub refused : MatchResult
refused = record no_result { accepted = false }

abbrev pub refuse : MatchState → MatchState
refuse s = record s { result = record s.result { accepted = false } }

abbrev pub best_opposite : Side → Impl → Option (Option ℕ)
best_opposite side book = if is_buy side then best_ask book else best_bid book

abbrev pub crosses : Side → ℕ → ℕ → Bool
crosses side limit_price price =
    if is_buy side then leb price limit_price else leb limit_price price

abbrev pub fill_quantity : ℕ → OrderView → ℕ
fill_quantity remaining view = if ltb remaining view.quantity then remaining else view.quantity

-- The bookkeeping of one fill.
abbrev pub add_fill : ℕ → Fill → MatchResult → MatchResult
add_fill capacity fill r =
    let fits = ltb r.fill_count capacity in
    record r {
      fill_output = if fits then r.fill_output ++ fill ∷ [] else r.fill_output;
      fills_truncated = if fits then r.fills_truncated else true;
      fill_count = add64 r.fill_count 1;
      filled = add32 r.filled fill.quantity;
    }

abbrev pub after_fill : ℕ → MatchState → Impl → ℕ → OrderView → MatchState
after_fill capacity s book price view =
    let quantity = fill_quantity s.remaining view in
    let fill : Fill = record {
      resting_order = view.order_id;
      price = price;
      quantity = quantity;
    } in
    record {
      book = book;
      resting_order_count =
          if quantity == view.quantity
          then sub64 s.resting_order_count 1
          else s.resting_order_count;
      remaining = sub32 s.remaining quantity;
      result = add_fill capacity fill s.result;
    }

module _ (side : Side) (limit_price : ℕ) (has_limit : Bool) (capacity : ℕ) where
  -- The round against the best price, and whether the loop goes on.
  unfoldable pub match_at : MatchState → ℕ → Option (Bool × MatchState)
  match_at s price = do
    resting ← front_order s.book (opposite side) price
    elim resting [
      | none ↦ some (false, refuse s)
      | some view ↦ do
        (ok, book) ← execute s.book view.order_id (fill_quantity s.remaining view)
        some (
            if ok
            then (true, after_fill capacity s book price view)
            else (false, refuse (record s { book = book })))
    ]

  unfoldable pub match_round : MatchState → Option (Bool × MatchState)
  match_round s = if s.remaining == 0 then some (false, s) else do
    opposite_price ← best_opposite side s.book
    elim opposite_price [
      | none ↦ some (false, s)
      | some price ↦
          if has_limit && not (crosses side limit_price price)
          then some (false, s)
          else match_at s price
    ]

  -- The loop, which ends with `none` if the fuel runs out.
  unfoldable pub match_from : ℕ → MatchState → Option MatchState
  match_from zero s = none
  match_from (suc fuel) s = do
    (more, s') ← match_round s
    elim more [ true ↦ match_from fuel s' | false ↦ some s' ]

abbrev pub after_match : Engine → ℕ → MatchState → MatchResult × Engine
after_match e locate s = (
  record s.result { resting = s.remaining },
  put_book (record e { resting_order_count = s.resting_order_count }) locate s.book,
)

-- `MatchingEngine::match`
unfoldable pub match : Engine → ℕ → Side → ℕ → ℕ → Bool → ℕ → Option (MatchResult × Engine)
match e locate side limit_price quantity has_limit capacity = elim (find_book e locate) [
  | none ↦ some (record no_result { resting = quantity }, e)
  | some book ↦ do
    s ← match_from side limit_price has_limit capacity (suc quantity) (record {
      book = book;
      resting_order_count = e.resting_order_count;
      remaining = quantity;
      result = no_result;
    })
    some (after_match e locate s)
]

abbrev pub give_up : MatchResult → MatchResult
give_up r = record r { unfilled = add32 r.unfilled r.resting; resting = 0; accepted = false }

-- What is left of a limit order rests in the book, or is given up.
unfoldable pub rest_order : MatchResult → Engine → ℕ → ℕ → Side → ℕ → Option (MatchResult × Engine)
rest_order r e locate id side price =
    if not (can_create_order e locate) then some (give_up r, e) else do
      let (book, e1) = ensure_book e locate
      (ok, book') ← add book id side price r.resting
      let e2 = put_book e1 locate book'
      some (if ok then (r, one_more e2) else (give_up r, e2))

abbrev pub book_contains : Engine → ℕ → ℕ → Bool
book_contains e locate id = elim (find_book e locate) [
  | none ↦ false
  | some book ↦ contains book id
]

unfoldable pub submit_limit : Engine → ℕ → ℕ → Side → ℕ → ℕ → ℕ → Option (MatchResult × Engine)
submit_limit e locate id side limit_price quantity capacity =
    if quantity == 0 || book_contains e locate id then some (refused, e) else do
      (r, e1) ← match e locate side limit_price quantity true capacity
      if r.resting == 0 then some (r, e1) else rest_order r e1 locate id side limit_price

unfoldable pub submit_market : Engine → ℕ → Side → ℕ → ℕ → Option (MatchResult × Engine)
submit_market e locate side quantity capacity = if quantity == 0 then some (refused, e) else do
  (r, e1) ← match e locate side 0 quantity false capacity
  some (record r { unfilled = r.resting; resting = 0 }, e1)
