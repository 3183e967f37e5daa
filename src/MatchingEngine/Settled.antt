-- ===== src/MatchingEngine/Settled.antt =====
-- The engine's count of resting orders against its books and its limits.
use nasdaq_itch_order_book_e.Base.{
  ℕ, ◌+◌, ◌^◌, ◌≤◌, ◌<◌, ◌≡◌, refl, sym, ◌∙◌, true, false, none, some, [], ◌∷◌, ◌==◌, inl, inr,
  arith, Bool-cases, Option-cases, is_some,
}
use mathlib.Core.Option.{some-injective}
use nasdaq_itch_order_book_e.Base.Assoc.{Assoc, find, insert, size, find-insert, size-insert}
use nasdaq_itch_order_book_e.Base.Keys.{Unique, no_key}
use nasdaq_itch_order_book_e.OrderBook.{Impl, empty_book}
use nasdaq_itch_order_book_e.OrderBook.Queries.{order_count}
use nasdaq_itch_order_book_e.MatchingEngine.{
  Engine, ReplayStats, find_book, put_book, can_create_order, ensure_book,
}

-- The orders in all books.
abbrev pub total_orders : Assoc Impl → ℕ
total_orders [] = 0
total_orders ((locate, book) ∷ m) = order_count book + total_orders m

abbrev pub orders_at : ℕ → Assoc Impl → ℕ
orders_at locate m = elim (find locate m) [ none ↦ 0 | some book ↦ order_count book ]

total_orders-insert :
    (locate : ℕ) (book : Impl) (m : Assoc Impl)
    → total_orders (insert locate book m) + orders_at locate m ≡ total_orders m + order_count book
unfolding insert find
total_orders-insert locate book [] = omega arith
total_orders-insert locate book ((j, b) ∷ m) = ground (arith, total_orders-insert locate book m)

orders_at-le : (locate : ℕ) (m : Assoc Impl) → orders_at locate m ≤ total_orders m
unfolding find
orders_at-le locate [] = omega arith
orders_at-le locate ((j, b) ∷ m) = ground (arith, orders_at-le locate m)

-- The count is the number of orders in the books, and both limits are kept.
pub record Settled (e : Engine) : Type 0 where
  pub keys : (locate : ℕ) (book : Impl) → find locate e.books ≡ some book → Unique book.orders
  pub counted : e.resting_order_count ≡ total_orders e.books
  pub capped : e.resting_order_count ≤ e.limits.max_resting_orders
  pub instruments : size e.books ≤ e.limits.max_instruments
  pub word : e.limits.max_resting_orders < 2 ^ 64

pub stats-Settled :
    (e : Engine) (stats : ReplayStats) → Settled e → Settled (record e { stats = stats })
stats-Settled e stats s = record {
  keys = s.keys;
  counted = s.counted;
  capped = s.capped;
  instruments = s.instruments;
  word = s.word;
}

keys-insert :
    (m : Assoc Impl) (locate : ℕ) (book : Impl)
    → ((j : ℕ) (b : Impl) → find j m ≡ some b → Unique b.orders)
    → Unique book.orders
    → (j : ℕ) (b : Impl) → find j (insert locate book m) ≡ some b
    → Unique b.orders
keys-insert m locate book keys u j b e = elim (Bool-cases (locate == j)) [
  | inl t ↦
      let here : some book ≡ some b = rw t at (sym (find-insert locate j book m) ∙ e) in
      rw (← some-injective book b here) u
  | inr f ↦ keys j b (rw f at (sym (find-insert locate j book m) ∙ e))
]

-- A book takes the place of the one that was there, and the count follows.
pub put-Settled :
    (e : Engine) (locate resting : ℕ) (book book' : Impl)
    → Settled e
    → find locate e.books ≡ some book
    → Unique book'.orders
    → order_count book' + e.resting_order_count ≡ order_count book + resting
    → resting ≤ e.limits.max_resting_orders
    → Settled (record (put_book e locate book') { resting_order_count = resting })
put-Settled e locate resting book book' s here u moved bound = record {
  keys = keys-insert e.books locate book' s.keys u;
  counted =
      let old : orders_at locate e.books ≡ order_count book = rw (orders_at, here) refl in
      let counted = s.counted in omega (arith, total_orders-insert locate book' e.books);
  capped = bound;
  instruments = rw (size-insert, here) s.instruments;
  word = s.word;
}

pub new_book-Settled :
    (e : Engine) (locate : ℕ)
    → Settled e
    → find locate e.books ≡ none
    → size e.books < e.limits.max_instruments
    → Settled (put_book e locate empty_book)
unfolding order_count size
new_book-Settled e locate s missing room = record {
  keys = keys-insert e.books locate empty_book s.keys no_key;
  counted =
      let old : orders_at locate e.books ≡ 0 = rw (orders_at, missing) refl in
      let counted = s.counted in omega (arith, total_orders-insert locate empty_book e.books);
  capped = s.capped;
  instruments = rw (size-insert, missing) (omega arith);
  word = s.word;
}

pub room-Settled :
    (e : Engine) (locate : ℕ)
    → Settled e
    → can_create_order e locate ≡ true
    → e.resting_order_count < e.limits.max_resting_orders
unfolding can_create_order
room-Settled e locate s can = ground arith

-- The book that `ensure_book` returns, and the engine that holds it.
pub record Ensured (e : Engine) (locate : ℕ) (r : Impl × Engine) : Type 0 where
  pub settled : Settled r.1
  pub there : find locate r.1.books ≡ some r.0
  pub count : r.1.resting_order_count ≡ e.resting_order_count
  pub limits : r.1.limits ≡ e.limits

pub ensure_book-Ensured :
    (e : Engine) (locate : ℕ)
    → Settled e
    → can_create_order e locate ≡ true
    → Ensured e locate (ensure_book e locate)
unfolding can_create_order ensure_book find_book
ensure_book-Ensured e locate s can = elim (Option-cases (find locate e.books)) [
  | inl missing ↦
      rw (ensure_book, missing)
        (record {
          settled =
              new_book-Settled e locate s missing (
                let found : is_some (find locate e.books) ≡ false = rw missing refl in
                ground arith);
          there =
              (let hit : (locate == locate) ≡ true = ground arith in
                find-insert locate locate empty_book e.books ∙ rw hit refl);
          count = refl;
          limits = refl;
        })
  | inr (book, here) ↦
      rw (ensure_book, here) (record { settled = s; there = here; count = refl; limits = refl })
]

pub orders_at_bound :
    (e : Engine) (locate : ℕ) (book : Impl)
    → Settled e
    → find locate e.books ≡ some book
    → order_count book ≤ e.resting_order_count
orders_at_bound e locate book s here =
    let old : orders_at locate e.books ≡ order_count book = rw (orders_at, here) refl in
    omega (arith, orders_at-le locate e.books, s.counted)
