-- ===== src/MatchingEngine/Handlers.antt =====
-- The handlers of `apply` on an engine whose books are valid.
use nasdaq_itch_order_book_e.Base.{
  ℕ, ◌+◌, ◌-◌, ◌^◌, ◌≤◌, ◌<◌, ◌≡◌, refl, ap, ◌∙◌, Bool, true, false, ◌||◌, ◌&&◌, not, some, ◌==◌,
  ltb, if◌then◌else◌, inl, inr, arith, Bool-cases, Option-cases, length, sub64, [],
}
use nasdaq_itch_order_book_e.Base.Assoc.{find}
use nasdaq_itch_order_book_e.Common.{Side}
use nasdaq_itch_order_book_e.MatchingEngine.Matching.{book_contains}
use nasdaq_itch_order_book_e.OrderBook.{
  Impl, empty_book, level_ref, OrderNode, node_at, contains, cancel, execute,
}
use nasdaq_itch_order_book_e.OrderBook.Valid.{Queues, IsValid}
use nasdaq_itch_order_book_e.OrderBook.Operations.{
  ref_of, erase_lem, erase_missing, cancel_lem, add_lem, empty_book-IsValid,
}
use nasdaq_itch_order_book_e.OrderBook.Queue.{entry}
use nasdaq_itch_order_book_e.OrderBook.Modifying.{replace_lem, replace_missing}
use nasdaq_itch_order_book_e.OrderBook.Lengths.{
  Within, Within-mono, Within-remove, Within-cancel, Within-add, Within-replace,
}
use nasdaq_itch_order_book_e.OrderBook.Queries.{order}
use nasdaq_itch_order_book_e.MatchingEngine.{
  Engine, ApplyAction, deleted, added, replaced, apply_replace, can_create_order, ensure_book,
  one_more, apply_add, find_book, finish, put_book, one_less, apply_delete, apply_reduce,
}
use nasdaq_itch_order_book_e.MatchingEngine.Books.{
  Books, Books-mono, Books-insert, Handled, holds, turned_down, carried_out, put_down, put_out,
  find_book-put,
}

module _ (k : ℕ) (e : Engine) (books : Books k e.books) (locate id : ℕ) where
  -- The case where the book is there.
  delete_in :
      (book : Impl)
      → find locate e.books ≡ some book
      → Handled k e locate (holds e locate id (λ n. true)) deleted (apply_delete e locate id)
  unfolding apply_delete find_book
  delete_in book here =
      let (qs, v, w) = books locate book here in
      elim (Option-cases (node_at book id)) [
        | inl missing ↦
            let run = erase_missing v id missing in
            put_down k k e books (omega arith) locate _ deleted _ book qs v w
              (rw (here, missing, holds) refl) (rw (here, apply_delete, run) refl)
        | inr (n, found) ↦
            let run = erase_lem v id n found in
            put_out k k e books (omega arith) locate _ deleted _ run.book _ run.valid
              (Within-remove k qs w (ref_of n) id) (sub64 e.resting_order_count 1)
              (rw (here, found, holds) refl) (rw (here, apply_delete, run.ended) refl)
      ]

  -- If all books of the engine are valid with queues no longer than k, a delete message ends: it is accepted
  -- just when the book of the locate number holds the order; its action, its counter and `changed_book` say so, the other books are as they were, and all books are
  -- valid again with queues no longer than k.
  pub delete_lem :
      Handled k e locate (holds e locate id (λ n. true)) deleted (apply_delete e locate id)
  unfolding apply_delete find_book
  delete_lem = elim (Option-cases (find locate e.books)) [
    | inr (book, here) ↦ delete_in book here
    | inl missing ↦
        turned_down k e locate _ deleted _ e books (λ j h. refl) refl (rw (missing, holds) refl)
          (rw (missing, apply_delete) refl)
  ]

-- `one_less` under a test changes the count only.
resting_of_less :
    (b : Bool) (e : Engine)
    → (if b then one_less e else e)
      ≡ record e { resting_order_count = (if b then one_less e else e).resting_order_count }
resting_of_less true e = refl
resting_of_less false e = refl

abbrev pub covers : ℕ → OrderNode → Bool
covers shares n = not (shares == 0 || ltb n.quantity shares)

module _ (k : ℕ) (e : Engine) (books : Books k e.books) (locate id shares : ℕ)
    (action : ApplyAction) where
  reduce_at :
      (book : Impl) (n : OrderNode)
      → find locate e.books ≡ some book
      → node_at book id ≡ some n
      → Handled k e locate
          (holds e locate id (covers shares))
          action
          (apply_reduce cancel action e locate id shares)
  unfolding apply_reduce find_book order
  reduce_at book n here found =
      let (qs, v, w) = books locate book here in
      let run = cancel_lem v id shares n found in
      let w' = Within-cancel k qs w _ (shares == n.quantity) (ref_of n) id (n.quantity - shares) in
      elim (Bool-cases (covers shares n)) [
        | inr no_cover ↦
            put_down k k e books (omega arith) locate _ action _ run.book _ run.valid w'
              (rw (here, found, holds) no_cover)
              (rw (here, apply_reduce, found, run.ended, no_cover) refl)
        | inl covered ↦
            put_out k k e books (omega arith) locate _ action _ run.book _ run.valid w'
              (if n.quantity == shares
                then one_less (put_book e locate run.book)
                else put_book e locate run.book).resting_order_count
              (rw (here, found, holds) covered)
              (rw (here, apply_reduce, found, run.ended, covered)
                (ap (λ (e2 : Engine). some (finish e2 action locate true))
                  (resting_of_less (n.quantity == shares) (put_book e locate run.book))))
      ]

  -- If all books of the engine are valid with queues no longer than k, a cancel message ends: it is accepted
  -- just when the book of the locate number holds the order and the shares are neither zero nor above the
  -- order's; its action, its counter and `changed_book` say so, the other books are as they were, and all books are
  -- valid again with queues no longer than k.
  pub reduce_lem :
      Handled k e locate
        (holds e locate id (covers shares))
        action
        (apply_reduce cancel action e locate id shares)
  unfolding apply_reduce find_book order
  reduce_lem = elim (Option-cases (find locate e.books)) [
    | inl missing ↦
        turned_down k e locate _ action _ e books (λ j h. refl) refl (rw (missing, holds) refl)
          (rw (missing, apply_reduce) refl)
    | inr (book, here) ↦ elim (Option-cases (node_at book id)) [
      | inl absent ↦
          turned_down k e locate _ action _ e books (λ j h. refl) refl
            (rw (here, absent, holds) refl) (rw (here, apply_reduce, absent) refl)
      | inr (n, found) ↦ reduce_at book n here found
    ]
  ]

  -- If all books of the engine are valid with queues no longer than k, an execution message ends: it is
  -- accepted just when the book of the locate number holds the order and the shares are neither zero nor
  -- above the order's; its action, its counter and `changed_book` say so, the other books are as they were, and all books are
  -- valid again with queues no longer than k.
  pub execute_lem :
      Handled k e locate
        (holds e locate id (covers shares))
        action
        (apply_reduce execute action e locate id shares)
  unfolding execute
  execute_lem = reduce_lem

contains_none : (id : ℕ) → false ≡ contains empty_book id
unfolding contains node_at find
contains_none id = refl

-- Add messages: what the handler asks of the engine.
abbrev pub may_add : Engine → ℕ → ℕ → ℕ → Bool
may_add e locate id shares =
    can_create_order e locate && not (shares == 0 || book_contains e locate id)

module _ (k : ℕ) (room : k + 1 < 2 ^ 64) (e : Engine) (books : Books k e.books) (locate id : ℕ)
    (side : Side) (price shares : ℕ) (small : shares < 2 ^ 32) (in_range : price < 2 ^ 32) where
  add_at :
      (book : Impl) (e1 : Engine) (qs : Queues)
      → can_create_order e locate ≡ true
      → ensure_book e locate ≡ (book, e1)
      → book_contains e locate id ≡ contains book id
      → IsValid book qs
      → Within k qs
      → Books k e1.books
      → ((j : ℕ) → (locate == j) ≡ false → find j e1.books ≡ find j e.books)
      → e1.stats ≡ e.stats
      → Handled
          (k + 1)
          e
          locate
          (may_add e locate id shares)
          added
          (apply_add e locate id side price shares)
  unfolding apply_add find_book
  add_at book e1 qs can is inside v w books1 others1 stats1 =
      let r = level_ref side price in
      let short : length (qs r) ≤ k = w r in
      let run = add_lem v id side price shares small in_range (omega arith) in
      let e2 = put_book e1 locate run.book in
      let books2 =
        Books-insert (k + 1) e1.books locate run.book _
          (Books-mono k (k + 1) e1.books (omega arith) books1) run.valid
          (Within-add k qs w _ r (entry id shares)) in
      let others2 : (j : ℕ) → (locate == j) ≡ false → find_book e2 j ≡ find_book e j =
        λ j h. find_book-put e1 locate run.book j h ∙ others1 j h in
      elim (Bool-cases (not (shares == 0 || contains book id))) [
        | inl fits ↦
            carried_out (k + 1) e locate _ added _ (one_more e2) books2 others2 stats1
              (rw (can, inside) fits) (rw (can, apply_add, is, run.ended, fits) refl)
        | inr refused ↦
            turned_down (k + 1) e locate _ added _ e2 books2 others2 stats1
              (rw (can, inside) refused) (rw (can, apply_add, is, run.ended, refused) refl)
      ]

  -- If all books of the engine are valid with queues no longer than k, k + 1 is below 2 ^ 64, and shares and
  -- price are of 32 bits, an add message ends: it is accepted just when the limits allow an order, the
  -- shares are not zero and the book has no order of that number; its action, its counter and `changed_book` say so, the other books are as they were, and all books are
  -- valid again with queues no longer than k + 1.
  pub apply_add_lem :
      Handled
        (k + 1)
        e
        locate
        (may_add e locate id shares)
        added
        (apply_add e locate id side price shares)
  unfolding apply_add find_book ensure_book
  apply_add_lem = elim (Bool-cases (can_create_order e locate)) [
    | inr full ↦
        turned_down (k + 1) e locate _ added _ e (Books-mono k (k + 1) e.books (omega arith) books)
          (λ j h. refl) refl (rw full refl) (rw (full, apply_add) refl)
    | inl can ↦ elim (Option-cases (find locate e.books)) [
      | inr (book, here) ↦
          let (qs, v, w) = books locate book here in
          add_at book e qs can (rw (here, ensure_book) refl) (rw (here, book_contains) refl) v w
            books (λ j h. refl) refl
      | inl missing ↦
          add_at empty_book (put_book e locate empty_book) (λ r. []) can
            (rw (missing, ensure_book) refl) (rw (missing, book_contains) (contains_none id))
            empty_book-IsValid (λ r. omega arith)
            (Books-insert k e.books locate empty_book _ books empty_book-IsValid (λ r. omega arith))
            (λ j h. find_book-put e locate empty_book j h) refl
    ]
  ]

-- Replace messages: what the handler asks of the book.
abbrev pub may_replace : Engine → ℕ → ℕ → ℕ → ℕ → Bool
may_replace e locate old_id id shares =
    holds e locate old_id
      (λ n. not (shares == 0) && ((old_id == id) || not (book_contains e locate id)))

module _ (k : ℕ) (room : k + 1 < 2 ^ 64) (e : Engine) (books : Books k e.books) (locate id : ℕ)
    (price shares : ℕ) (small : shares < 2 ^ 32) (in_range : price < 2 ^ 32) where
  replace_at :
      (old_id : ℕ) (book : Impl) (n : OrderNode)
      → find locate e.books ≡ some book
      → node_at book old_id ≡ some n
      → Handled
          (k + 1)
          e
          locate
          (may_replace e locate old_id id shares)
          replaced
          (apply_replace e locate old_id id price shares)
  unfolding apply_replace find_book
  replace_at old_id book n here found =
      let (qs, v, w) = books locate book here in
      let short : length (qs (level_ref n.side price)) ≤ k = w (level_ref n.side price) in
      let run = replace_lem v old_id id n found price shares in_range small (omega arith) in
      let w' =
        Within-replace k qs w (shares == 0) (old_id == id) (contains book id) old_id n id price
          shares in
      let inside : book_contains e locate id ≡ contains book id = rw (here, book_contains) refl in
      let verdict : may_replace e locate old_id id shares
          ≡ (not (shares == 0) && ((old_id == id) || not (contains book id))) =
        rw (here, holds, found)
          (ap (λ (b : Bool). not (shares == 0) && ((old_id == id) || not b)) inside) in
      elim (Bool-cases (not (shares == 0) && ((old_id == id) || not (contains book id)))) [
        | inr refused ↦
            put_down k (k + 1) e books (omega arith) locate _ replaced _ run.book _ run.valid w'
              (verdict ∙ refused) (rw (here, apply_replace, run.ended, refused) refl)
        | inl fine ↦
            put_out k (k + 1) e books (omega arith) locate _ replaced _ run.book _ run.valid w'
              e.resting_order_count (verdict ∙ fine)
              (rw (here, apply_replace, run.ended, fine) refl)
      ]

  -- If all books of the engine are valid with queues no longer than k, k + 1 is below 2 ^ 64, and shares and
  -- price are of 32 bits, a replace message ends: it is accepted just when the book of the locate number
  -- holds the old order, the shares are not zero, and the new number is the old one or not in use; its action, its counter and `changed_book` say so, the other books are as they were, and all books are
  -- valid again with queues no longer than k + 1.
  pub apply_replace_lem :
      (old_id : ℕ)
      → Handled
          (k + 1)
          e
          locate
          (may_replace e locate old_id id shares)
          replaced
          (apply_replace e locate old_id id price shares)
  unfolding apply_replace find_book
  apply_replace_lem old_id = elim (Option-cases (find locate e.books)) [
    | inl missing ↦
        turned_down (k + 1) e locate _ replaced _ e
          (Books-mono k (k + 1) e.books (omega arith) books) (λ j h. refl) refl
          (rw (missing, holds) refl) (rw (missing, apply_replace) refl)
    | inr (book, here) ↦ elim (Option-cases (node_at book old_id)) [
      | inr (n, found) ↦ replace_at old_id book n here found
      | inl absent ↦
          let (qs, v, w) = books locate book here in
          let run = replace_missing book old_id id price shares absent in
          put_down k (k + 1) e books (omega arith) locate _ replaced _ book qs v
            (Within-mono k (k + 1) qs (omega arith) w) (rw (here, absent, holds) refl)
            (rw (here, apply_replace, run) refl)
    ]
  ]
