-- ===== src/MatchingEngine/Trading.antt =====
-- The simulated orders keep the count of resting orders and both limits.
use nasdaq_itch_order_book_e.Base.{
  ℕ, zero, suc, ◌+◌, ◌^◌, ◌≤◌, ◌<◌, ◌≡◌, refl, ap, Bool, true, false, Option, some, ◌==◌,
  if◌then◌else◌, inl, inr, arith, Bool-cases, Option-cases, sub64,
}
use nasdaq_itch_order_book_e.Base.Assoc.{find}
use nasdaq_itch_order_book_e.Base.Keys.{Unique}
use nasdaq_itch_order_book_e.Base.Outcomes.{
  Returns, Returns-some, Returns-none, Returns-if, Returns-bind,
}
use nasdaq_itch_order_book_e.Common.{Side, opposite}
use nasdaq_itch_order_book_e.OrderBook.{Impl, OrderView, level_ref, execute}
use nasdaq_itch_order_book_e.OrderBook.Queue.{is_empty}
use nasdaq_itch_order_book_e.OrderBook.Reads.{no_price, top}
use nasdaq_itch_order_book_e.OrderBook.Queries.{order_count}
use nasdaq_itch_order_book_e.OrderBook.Tallies.{Tallied, add-Tallied, cancel-Tallied}
use nasdaq_itch_order_book_e.MatchingEngine.{
  Engine, EngineLimits, MatchResult, find_book, put_book, can_create_order, ensure_book, one_more,
}
use nasdaq_itch_order_book_e.MatchingEngine.Matching.{
  MatchState, no_result, fill_quantity, after_fill, refuse, match_at, match_round, match_from,
  match, after_match, rest_order, submit_limit, submit_market,
}
use nasdaq_itch_order_book_e.MatchingEngine.Books.{Books}
use nasdaq_itch_order_book_e.MatchingEngine.Filling.{Filling, Front-at, best_lem, round_lem}
use nasdaq_itch_order_book_e.MatchingEngine.Settled.{
  Settled, put-Settled, room-Settled, ensure_book-Ensured, orders_at_bound,
}
use nasdaq_itch_order_book_e.MatchingEngine.Settling.{more-Settled, refused-Settled}

-- A book of the loop and its count, against the book and the engine that the loop began with.
record Balanced (e : Engine) (start book : Impl) (resting : ℕ) : Type 0 where
  keys : Unique book.orders
  moved : order_count book + e.resting_order_count ≡ order_count start + resting
  bound : resting ≤ e.resting_order_count

module _ (e : Engine) (start : Impl) (le : order_count start ≤ e.resting_order_count)
    (word : e.resting_order_count < 2 ^ 64) where
  refused-Balanced :
      (book b : Impl) (resting lost : ℕ)
      → Balanced e start book resting
      → Tallied book 0 lost (false, b)
      → Balanced e start b resting
  refused-Balanced book b resting lost was t = record {
    keys = t.keys was.keys;
    moved = (let count = t.count was.keys in let moved = was.moved in omega arith);
    bound = was.bound;
  }

  filled-Balanced :
      (book b : Impl) (resting amount left : ℕ)
      → Balanced e start book resting
      → Tallied book 0 (if amount == left then 1 else 0) (true, b)
      → Balanced e start b (if amount == left then sub64 resting 1 else resting)
  filled-Balanced book b resting amount left was t =
      let moved = was.moved in
      let bound = was.bound in
      elim (Bool-cases (amount == left)) [
        | inl all ↦
            let t' : Tallied book 0 1 (true, b) = rw all at t in
            let count = t'.count was.keys in
            rw all (record { keys = t'.keys was.keys; moved = omega arith; bound = omega arith })
        | inr part ↦
            let t' : Tallied book 0 0 (true, b) = rw part at t in
            let count = t'.count was.keys in
            rw part (record { keys = t'.keys was.keys; moved = omega arith; bound = bound })
      ]

  abbrev BalancedAt : MatchState → Type 0
  BalancedAt s = Balanced e start s.book s.resting_order_count

  abbrev BalancedRun : Option (Bool × MatchState) → Type 0
  BalancedRun run = Returns (λ r. BalancedAt r.1) run

  module _ (side : Side) (limit_price : ℕ) (has_limit : Bool) (capacity k quantity : ℕ)
      (small : quantity < 2 ^ 32) where
    answered_fill :
        (s : MatchState) (price : ℕ) (view : OrderView) (r : Bool × Impl)
        → BalancedAt s
        → Tallied s.book 0 (if fill_quantity s.remaining view == view.quantity then 1 else 0) r
        → BalancedRun (
            some (
              if r.0
              then (true, after_fill capacity s r.1 price view)
              else (false, refuse (record s { book = r.1 }))))
    answered_fill s price view (true, book) b t =
        Returns-some _ _ (filled-Balanced s.book book s.resting_order_count _ view.quantity b t)
    answered_fill s price view (false, book) b t =
        Returns-some _ _ (refused-Balanced s.book book s.resting_order_count _ b t)

    match_at-Balanced :
        (s : MatchState) (price : ℕ) (f : Filling k quantity s)
        → BalancedAt s
        → is_empty (f.queues (level_ref (opposite side) price)) ≡ false
        → BalancedRun (match_at side limit_price has_limit capacity s price)
    unfolding match_at execute
    match_at-Balanced s price f b h =
        let (view, front) = Front-at k quantity small s (opposite side) price f h in
        rw (match_at, front.found)
          (Returns-bind _ _ _ _
            (cancel-Tallied s.book view.order_id (fill_quantity s.remaining view) front.node
              front.at)
            (λ r t. answered_fill s price view r b (rw front.same at t)))

    match_round-Balanced :
        (s : MatchState) (f : Filling k quantity s)
        → BalancedAt s
        → BalancedRun (match_round side limit_price has_limit capacity s)
    unfolding match_round
    match_round-Balanced s f b = elim (Bool-cases (s.remaining == 0)) [
      | inl done ↦ rw (match_round, done) (Returns-some _ _ b)
      | inr left ↦ elim (best_lem k quantity small side s f) [
        | no_price e empty ↦ rw (match_round, left, e) (Returns-some _ _ b)
        | top p e h here before ↦
            rw (match_round, left, e)
              (Returns-if _ _ _ _ (Returns-some _ _ b) (match_at-Balanced s p f b here))
      ]
    ]

    match_from-Balanced :
        (fuel : ℕ) (s : MatchState)
        → Filling k quantity s
        → BalancedAt s
        → Returns BalancedAt (match_from side limit_price has_limit capacity fuel s)
    unfolding match_from
    match_from-Balanced zero s f b = Returns-none _
    match_from-Balanced (suc fuel) s f b =
        elim (round_lem k quantity small side limit_price has_limit capacity s f) [
          | inl (e, rest) ↦ rw (match_from, e) (Returns-some _ _ b)
          | inr (s', e, f', less) ↦
              rw (match_from, e)
                (match_from-Balanced fuel s' f' ((match_round-Balanced s f b).result (true, s') e))
        ]

-- The engine that the loop leaves.
after_match-Settled :
    (e : Engine) (locate : ℕ) (book : Impl) (s : MatchState)
    → Settled e
    → find locate e.books ≡ some book
    → Balanced e book s.book s.resting_order_count
    → Settled (after_match e locate s).1
after_match-Settled e locate book s settled here b =
    let bound = b.bound in
    let capped = settled.capped in
    put-Settled e locate s.resting_order_count book s.book settled here b.keys b.moved (omega arith)

abbrev SettledMatch : Option (MatchResult × Engine) → Type 0
SettledMatch run = Returns (λ r. Settled r.1) run

match-Settled :
    (k : ℕ) (e : Engine) (locate : ℕ) (side : Side) (limit_price quantity : ℕ) (has_limit : Bool)
    (capacity : ℕ)
    → Books k e.books
    → quantity < 2 ^ 32
    → Settled e
    → SettledMatch (match e locate side limit_price quantity has_limit capacity)
unfolding match find_book
match-Settled k e locate side limit_price quantity has_limit capacity books small s =
    elim (Option-cases (find locate e.books)) [
      | inl missing ↦ rw (match, missing) (Returns-some _ _ s)
      | inr (book, here) ↦
          let (qs, v, w) = books locate book here in
          let start : MatchState = record {
            book = book;
            resting_order_count = e.resting_order_count;
            remaining = quantity;
            result = no_result;
          } in
          let filling : Filling k quantity start = record {
            queues = qs;
            valid = v;
            bounded = w;
            accepted = refl;
            whole = omega arith;
            unfilled = refl;
          } in
          let le = orders_at_bound e locate book s here in
          let word = s.word in
          let capped = s.capped in
          let b : Balanced e book book e.resting_order_count = record {
            keys = s.keys locate book here;
            moved = omega arith;
            bound = omega arith;
          } in
          rw (match, here)
            (Returns-bind _ _ _ _
              (match_from-Balanced e book le (omega arith) side limit_price has_limit capacity k
                quantity small (suc quantity) start filling b)
              (λ end balanced.
                Returns-some _ _ (after_match-Settled e locate book end s here balanced)))
    ]

rested :
    (e : Engine) (locate : ℕ) (book : Impl) (r : Bool × Impl) (kept given_up : MatchResult)
    → Settled e
    → find locate e.books ≡ some book
    → e.resting_order_count < e.limits.max_resting_orders
    → Tallied book 1 0 r
    → SettledMatch (
        some (
          if r.0
          then (kept, one_more (put_book e locate r.1))
          else (given_up, put_book e locate r.1)))
rested e locate book (true, b) kept given_up s here room t =
    Returns-some _ _ (more-Settled e s locate book here b room t)
rested e locate book (false, b) kept given_up s here room t =
    Returns-some _ _ (refused-Settled e s locate book here 1 0 b t)

rest_order-Settled :
    (r : MatchResult) (e : Engine) (locate id : ℕ) (side : Side) (price : ℕ)
    → Settled e
    → SettledMatch (rest_order r e locate id side price)
unfolding rest_order
rest_order-Settled r e locate id side price s = elim (Bool-cases (can_create_order e locate)) [
  | inr full ↦ rw (rest_order, full) (Returns-some _ _ s)
  | inl can ↦
      let room = room-Settled e locate s can in
      let x = ensure_book-Ensured e locate s can in
      let (book, e1) = ensure_book e locate in
      let count = x.count in
      let limits = ap (λ (l : EngineLimits). l.max_resting_orders) x.limits in
      rw (rest_order, can)
        (Returns-bind _ _ _ _ (add-Tallied book id side price r.resting)
          (λ a t. rested e1 locate book a r _ x.settled x.there (omega arith) t))
]

-- If all books of the engine are valid, `resting_order_count` is the number of orders in them and both
-- limits are kept, then the engine that a limit order below 2 ^ 32 shares leaves has such a count and
-- such limits again.
pub submit_limit-Settled :
    (k : ℕ) (e : Engine) (locate id : ℕ) (side : Side) (limit_price quantity capacity : ℕ)
    → Books k e.books
    → quantity < 2 ^ 32
    → Settled e
    → Returns
        (λ (r : MatchResult × Engine). Settled r.1)
        (submit_limit e locate id side limit_price quantity capacity)
unfolding submit_limit
submit_limit-Settled k e locate id side limit_price quantity capacity books small s =
    Returns-if _ _ _ _ (Returns-some _ _ s) (
      Returns-bind _ _ _ _
        (match-Settled k e locate side limit_price quantity true capacity books small s)
        (λ r settled.
          Returns-if _ _ _ _ (Returns-some _ _ settled)
            (rest_order-Settled r.0 r.1 locate id side limit_price settled)))

-- The same for a market order.
pub submit_market-Settled :
    (k : ℕ) (e : Engine) (locate : ℕ) (side : Side) (quantity capacity : ℕ)
    → Books k e.books
    → quantity < 2 ^ 32
    → Settled e
    → Returns
        (λ (r : MatchResult × Engine). Settled r.1)
        (submit_market e locate side quantity capacity)
unfolding submit_market
submit_market-Settled k e locate side quantity capacity books small s =
    Returns-if _ _ _ _ (Returns-some _ _ s) (
      Returns-bind _ _ _ _ (match-Settled k e locate side 0 quantity false capacity books small s)
        (λ r settled. Returns-some _ _ settled))
