-- ===== src/MatchingEngine/Resting.antt =====
-- What is left of a limit order after its match.
use nasdaq_itch_order_book_e.Base.{
  ℕ, ◌+◌, ◌^◌, ◌≤◌, ◌<◌, ◌≡◌, refl, ◌∙◌, Bool, true, false, not, ◌||◌, ◌&&◌, Option, none, some, [],
  ◌∷◌, ◌++◌, ◌==◌, inl, inr, arith, if◌then◌else◌, Bool-cases, Option-cases, length,
}
use nasdaq_itch_order_book_e.Base.Assoc.{find, find-insert}
use nasdaq_itch_order_book_e.Common.{Side, buy, sell, opposite}
use nasdaq_itch_order_book_e.OrderBook.{
  Impl, empty_book, OrderNode, node_at, level_ref, same_level, contains,
}
use nasdaq_itch_order_book_e.OrderBook.Queue.{Queue, entry, is_empty, Chain}
use nasdaq_itch_order_book_e.OrderBook.Valid.{Queues, set_queue, IsValid}
use nasdaq_itch_order_book_e.OrderBook.Operations.{add_lem, empty_book-IsValid}
use nasdaq_itch_order_book_e.OrderBook.Lengths.{Within, Within-add}
use nasdaq_itch_order_book_e.OrderBook.Unlinking.{at_node}
use nasdaq_itch_order_book_e.MatchingEngine.{
  Engine, MatchResult, find_book, put_book, can_create_order, ensure_book, one_more,
}
use nasdaq_itch_order_book_e.MatchingEngine.Matching.{crosses, give_up, rest_order}
use nasdaq_itch_order_book_e.MatchingEngine.Books.{Books, Books-mono, Books-insert, find_book-put}
use nasdaq_itch_order_book_e.MatchingEngine.Orders.{Apart, Apart-of}

-- The book holds what remains of the order, and no order that it may trade with.
pub record Rests (locate id : ℕ) (side : Side) (limit_price resting : ℕ) (e : Engine) : Type 0 where
  pub book : Impl
  pub found : find_book e locate ≡ some book
  pub node : OrderNode
  pub placed : node_at book id ≡ some node
  pub side_is : node.side ≡ side
  pub price_is : node.price ≡ limit_price
  pub quantity_is : node.quantity ≡ resting
  pub apart : Apart side limit_price true book

-- A limit order that ends. It was turned down at once, or worked.
pub record Submitted (k : ℕ) (e : Engine) (locate id : ℕ) (side : Side) (limit_price quantity : ℕ)
    (turned_down : Bool) (run : Option (MatchResult × Engine)) : Type 0 where
  pub result : MatchResult
  pub engine : Engine
  pub ended : run ≡ some (result, engine)
  pub books : Books k engine.books
  pub others : (j : ℕ) → (locate == j) ≡ false → find_book engine j ≡ find_book e j
  pub kept : turned_down ≡ true → engine ≡ e
  pub whole :
      result.filled + (result.resting + result.unfilled) ≡ (if turned_down then 0 else quantity)
  pub accepted : result.accepted ≡ true → result.unfilled ≡ 0
  pub given_up : result.accepted ≡ false → result.resting ≡ 0
  pub rests : 0 < result.resting → Rests locate id side limit_price result.resting engine

pub either :
    (k : ℕ) (e : Engine) (locate id : ℕ) (side : Side) (limit_price quantity : ℕ)
    (turned_down : Bool) (run : Option (MatchResult × Engine))
    → (turned_down ≡ true → Submitted k e locate id side limit_price quantity true run)
    → (turned_down ≡ false → Submitted k e locate id side limit_price quantity false run)
    → Submitted k e locate id side limit_price quantity turned_down run
either k e locate id side limit_price quantity true run t f = t refl
either k e locate id side limit_price quantity false run t f = f refl

other_side :
    (side : Side) (p q : ℕ) → same_level (level_ref side p) (level_ref (opposite side) q) ≡ false
unfolding opposite
other_side buy p q = refl
other_side sell p q = refl

Apart-queue :
    (side : Side) (limit_price q : ℕ) (book : Impl) (qs : Queues)
    → IsValid book qs
    → Apart side limit_price true book
    → is_empty (qs (level_ref (opposite side) q)) ≡ false
    → (true && not (crosses side limit_price q)) ≡ true
Apart-queue side limit_price q book qs v apart h =
    go (qs (level_ref (opposite side) q)) (v.chains (level_ref (opposite side) q)) h
  where
    go :
        (es : Queue)
        → Chain (node_at book) (opposite side) q none es
        → is_empty es ≡ false
        → (true && not (crosses side limit_price q)) ≡ true
    go [] c e = cc
    go (x ∷ es) c e = apart x.id _ c.0 refl

-- The book after the addition.
module _ (k : ℕ) (room : k + 1 < 2 ^ 64) (locate id : ℕ) (side : Side) (limit_price resting : ℕ)
    (small : resting < 2 ^ 32) (in_range : limit_price < 2 ^ 32) (book : Impl) (qs : Queues)
    (v : IsValid book qs) (w : Within k qs) (apart : Apart side limit_price true book) where
  Rests-in :
      (e1 : Engine) (b : Impl)
      → IsValid b (
          set_queue qs
            (level_ref side limit_price)
            (qs (level_ref side limit_price) ++ entry id resting ∷ []))
      → Rests locate id side limit_price resting (one_more (put_book e1 locate b))
  unfolding find_book
  Rests-in e1 b v' =
      let r = level_ref side limit_price in
      let here : same_level r r ≡ true = ground arith in
      record {
        book = b;
        found =
            (let hit : (locate == locate) ≡ true = ground arith in
              find-insert locate locate b e1.books ∙ rw hit refl);
        node = _;
        placed = (at_node v' r (qs r) (entry id resting) [] (rw here refl)).0;
        side_is = refl;
        price_is = refl;
        quantity_is = refl;
        apart = Apart-of side limit_price true b _ v' (λ q s h.
            Apart-queue side limit_price q book qs v apart
              (rw (other_side side limit_price q) at h));
      }

  module _ (e e1 : Engine) (r : MatchResult) (quantity : ℕ) (all : quantity < 2 ^ 32)
      (whole : r.filled + r.resting ≡ quantity) (unfilled : r.unfilled ≡ 0)
      (accepted : r.accepted ≡ true) (same : r.resting ≡ resting) where
    rest_at :
        can_create_order e locate ≡ true
        → ensure_book e locate ≡ (book, e1)
        → Books k e1.books
        → ((j : ℕ) → (locate == j) ≡ false → find_book e1 j ≡ find_book e j)
        → Submitted
            (k + 1)
            e
            locate
            id
            side
            limit_price
            quantity
            false
            (rest_order r e locate id side limit_price)
    unfolding rest_order find_book
    rest_at can is books1 others1 =
        let l = level_ref side limit_price in
        let short : length (qs l) ≤ k = w l in
        let run = add_lem v id side limit_price resting small in_range (omega arith) in
        let e2 = put_book e1 locate run.book in
        let books2 =
          Books-insert (k + 1) e1.books locate run.book _
            (Books-mono k (k + 1) e1.books (omega arith) books1) run.valid
            (Within-add k qs w _ l (entry id resting)) in
        let others2 : (j : ℕ) → (locate == j) ≡ false → find_book e2 j ≡ find_book e j =
          λ j h. find_book-put e1 locate run.book j h ∙ others1 j h in
        elim (Bool-cases (not (resting == 0 || contains book id))) [
          | inl fits ↦ record {
            result = r;
            engine = one_more e2;
            ended = rw (rest_order, can, is, same, run.ended, fits) refl;
            books = books2;
            others = others2;
            kept = λ h. cc;
            whole = omega arith;
            accepted = λ h. unfilled;
            given_up = λ h. cc;
            rests = λ h. rw same (Rests-in e1 run.book (rw fits at run.valid));
          }
          | inr unfit ↦ record {
            result = give_up r;
            engine = e2;
            ended = rw (rest_order, can, is, same, run.ended, unfit) refl;
            books = books2;
            others = others2;
            kept = λ h. cc;
            whole = omega arith;
            accepted = λ h. cc;
            given_up = λ h. refl;
            rests = λ h. absurd (omega arith);
          }
        ]

empty_Apart : (side : Side) (limit_price : ℕ) → Apart side limit_price true empty_book
unfolding node_at find
empty_Apart side limit_price id n e same = cc

module _ (k : ℕ) (room : k + 1 < 2 ^ 64) (e : Engine) (books : Books k e.books) (locate id : ℕ)
    (side : Side) (limit_price quantity : ℕ) (small : quantity < 2 ^ 32)
    (in_range : limit_price < 2 ^ 32) where
  pub rest_order_lem :
      (r : MatchResult)
      → r.filled + r.resting ≡ quantity
      → r.unfilled ≡ 0
      → r.accepted ≡ true
      → ((book : Impl) → find_book e locate ≡ some book → Apart side limit_price true book)
      → Submitted
          (k + 1)
          e
          locate
          id
          side
          limit_price
          quantity
          false
          (rest_order r e locate id side limit_price)
  unfolding rest_order find_book ensure_book
  rest_order_lem r whole unfilled accepted apart = elim (Bool-cases (can_create_order e locate)) [
    | inr full ↦ record {
      result = give_up r;
      engine = e;
      ended = rw (rest_order, full) refl;
      books = Books-mono k (k + 1) e.books (omega arith) books;
      others = λ j h. refl;
      kept = λ h. cc;
      whole = omega arith;
      accepted = λ h. cc;
      given_up = λ h. refl;
      rests = λ h. absurd (omega arith);
    }
    | inl can ↦ elim (Option-cases (find locate e.books)) [
      | inr (book, here) ↦
          let (qs, v, w) = books locate book here in
          rest_at k room locate id side limit_price r.resting (omega arith) in_range book qs v w
            (apart book here) e e r quantity small whole unfilled accepted refl can
            (rw (here, ensure_book) refl) books (λ j h. refl)
      | inl missing ↦
          rest_at k room locate id side limit_price r.resting (omega arith) in_range empty_book
            (λ l. []) empty_book-IsValid (λ l. omega arith) (empty_Apart side limit_price) e
            (put_book e locate empty_book) r quantity small whole unfilled accepted refl can
            (rw (missing, ensure_book) refl)
            (Books-insert k e.books locate empty_book _ books empty_book-IsValid (λ l. omega arith))
            (λ j h. find_book-put e locate empty_book j h)
    ]
  ]

  -- After a match that ended.
  pub worked :
      (capacity : ℕ) (e1 : Engine) (run : Option (MatchResult × Engine))
      → ((j : ℕ) → (locate == j) ≡ false → find_book e1 j ≡ find_book e j)
      → Submitted (k + 1) e1 locate id side limit_price quantity false run
      → Submitted (k + 1) e locate id side limit_price quantity false run
  worked capacity e1 run others s = record {
    result = s.result;
    engine = s.engine;
    ended = s.ended;
    books = s.books;
    others = λ j h. s.others j h ∙ others j h;
    kept = λ h. cc;
    whole = s.whole;
    accepted = s.accepted;
    given_up = s.given_up;
    rests = s.rests;
  }
