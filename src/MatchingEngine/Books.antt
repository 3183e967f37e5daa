-- ===== src/MatchingEngine/Books.antt =====
-- The books of an engine, and what a handler that ends leaves behind.
use nasdaq_itch_order_book_e.Base.{
  ℕ, ◌≤◌, ◌≡◌, refl, sym, ap, ◌∙◌, Bool, true, false, Option, none, some, ◌==◌, if◌then◌else◌, inl,
  inr, Bool-cases,
}
use mathlib.Core.Option.{some-injective}
use nasdaq_itch_order_book_e.Base.Assoc.{Assoc, find, insert, find-insert}
use nasdaq_itch_order_book_e.OrderBook.{Impl, OrderNode, node_at}
use nasdaq_itch_order_book_e.OrderBook.Valid.{Queues, IsValid}
use nasdaq_itch_order_book_e.OrderBook.Lengths.{Within, Within-mono}
use nasdaq_itch_order_book_e.MatchingEngine.{
  Engine, ApplyAction, ApplyResult, rejected, find_book, reject, count, finish, put_book,
}

-- Every book of the map is valid, with queues no longer than the bound.
abbrev pub Books : ℕ → Assoc Impl → Type 0
Books k m =
    (locate : ℕ) (book : Impl)
    → find locate m ≡ some book
    → (qs : Queues) × IsValid book qs × Within k qs

pub Books-mono : (k j : ℕ) (m : Assoc Impl) → k ≤ j → Books k m → Books j m
Books-mono k j m h b locate book e =
    let (qs, v, w) = b locate book e in (qs, v, Within-mono k j qs h w)

pub Books-insert :
    (k : ℕ) (m : Assoc Impl) (locate : ℕ) (book : Impl) (qs : Queues)
    → Books k m
    → IsValid book qs
    → Within k qs
    → Books k (insert locate book m)
Books-insert k m locate book qs h v w j b e = elim (Bool-cases (locate == j)) [
  | inl t ↦
      let here : some book ≡ some b = rw t at (sym (find-insert locate j book m) ∙ e) in
      (qs, rw (← some-injective book b here) v, w)
  | inr f ↦ h j b (rw f at (sym (find-insert locate j book m) ∙ e))
]

-- A handler that ends: its verdict, the counter that it moves, and the books that are left.
pub record Handled (k : ℕ) (e : Engine) (locate : ℕ) (accept : Bool) (action : ApplyAction)
    (run : Option (ApplyResult × Engine)) : Type 0 where
  pub result : ApplyResult
  pub engine : Engine
  pub ended : run ≡ some (result, engine)
  pub books : Books k engine.books
  pub verdict : result.action ≡ (if accept then action else rejected)
  pub changed : result.changed_book ≡ accept
  pub others : (j : ℕ) → (locate == j) ≡ false → find_book engine j ≡ find_book e j
  pub counted : engine.stats ≡ count result.action e.stats

-- Whether the book of the locate number holds an order that passes the test.
abbrev pub holds : Engine → ℕ → ℕ → (OrderNode → Bool) → Bool
holds e locate id test = elim (find_book e locate) [
  | none ↦ false
  | some book ↦ elim (node_at book id) [ none ↦ false | some n ↦ test n ]
]

module _ (k : ℕ) (e : Engine) (locate : ℕ) (accept : Bool) (action : ApplyAction)
    (run : Option (ApplyResult × Engine)) (e' : Engine) (books : Books k e'.books)
    (others : (j : ℕ) → (locate == j) ≡ false → find_book e' j ≡ find_book e j)
    (same_stats : e'.stats ≡ e.stats) where
  pub turned_down :
      accept ≡ false → run ≡ some (reject e' locate) → Handled k e locate accept action run
  unfolding reject finish find_book
  turned_down a h = record {
    result = _;
    engine = _;
    ended = h;
    books = books;
    verdict = rw a refl;
    changed = sym a;
    others = others;
    counted = ap (count rejected) same_stats;
  }

  pub carried_out :
      accept ≡ true
      → run ≡ some (finish e' action locate true)
      → Handled k e locate accept action run
  unfolding finish find_book
  carried_out a h = record {
    result = _;
    engine = _;
    ended = h;
    books = books;
    verdict = rw a refl;
    changed = sym a;
    others = others;
    counted = ap (count action) same_stats;
  }

pub find_book-put :
    (e : Engine) (locate : ℕ) (book : Impl) (j : ℕ)
    → (locate == j) ≡ false
    → find j (insert locate book e.books) ≡ find j e.books
find_book-put e locate book j h = rw (find-insert, h) refl

-- A call of one book, put back into the map.
module _ (k k' : ℕ) (e : Engine) (books : Books k e.books) (le : k ≤ k') (locate : ℕ)
    (accept : Bool) (action : ApplyAction) (run : Option (ApplyResult × Engine)) (book : Impl)
    (qs : Queues) (v : IsValid book qs) (w : Within k' qs) where
  put_back : Books k' (insert locate book e.books)
  put_back = Books-insert k' e.books locate book qs (Books-mono k k' e.books le books) v w

  pub put_down :
      accept ≡ false
      → run ≡ some (reject (put_book e locate book) locate)
      → Handled k' e locate accept action run
  unfolding find_book
  put_down a h =
      turned_down k' e locate accept action run (put_book e locate book) put_back
        (λ j d. find_book-put e locate book j d) refl a h

  -- With the count of resting orders changed or not.
  pub put_out :
      (resting : ℕ)
      → accept ≡ true
      → run
        ≡ some (
            finish
              (record (put_book e locate book) { resting_order_count = resting })
              action
              locate
              true)
      → Handled k' e locate accept action run
  unfolding find_book
  put_out resting a h =
      carried_out k' e locate accept action run
        (record (put_book e locate book) { resting_order_count = resting }) put_back
        (λ j d. find_book-put e locate book j d) refl a h
