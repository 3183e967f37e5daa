-- ===== src/OrderBook/Operations.antt =====
-- What each operation of the book does to the queues, on every branch.
use nasdaq_itch_order_book_e.Base.{
  ℕ, ◌+◌, ◌-◌, ◌^◌, ◌<◌, ◌≡◌, refl, sym, ap, ◌∙◌, Bool, true, false, not, ◌||◌, Option, none, some,
  [], ◌∷◌, ◌++◌, inl, inr, arith, ◌==◌, ltb, if◌then◌else◌, Bool-cases, length, ◌>>=◌, sub32, sub64,
}
use mathlib.Core.Option.{some-injective}
use nasdaq_itch_order_book_e.Base.Assoc.{find}
use nasdaq_itch_order_book_e.Common.{Side}
use nasdaq_itch_order_book_e.PriceIndex.Contents
use nasdaq_itch_order_book_e.OrderBook.{
  Impl, OrderNode, LevelRef, level_ref, node_at, level_at, empty_book, contains, add, erase_node,
  write_node, write_level, cancel_found, cancel, erase_book,
}
use nasdaq_itch_order_book_e.OrderBook.Queue.{
  entry, Queue, node_of, first, last_or, remove, set_quantity, Split, split,
}
use nasdaq_itch_order_book_e.OrderBook.Valid.{Queues, set_queue, IsValid, Change-IsValid}
use nasdaq_itch_order_book_e.OrderBook.Adding.{add_node-Change}
use nasdaq_itch_order_book_e.OrderBook.Removing.{erase_node-Change}
use nasdaq_itch_order_book_e.OrderBook.Unlinking.{Sized-at, at_node}
use nasdaq_itch_order_book_e.OrderBook.Reducing.{reduce-Change}

-- A call of the book that ends with the answer and the queues given.
pub record Ends (run : Option (Bool × Impl)) (answer : Bool) (qs : Queues) : Type 0 where
  pub book : Impl
  pub ended : run ≡ some (answer, book)
  pub valid : IsValid book qs

abbrev pub ref_of : OrderNode → LevelRef
ref_of n = level_ref n.side n.price

-- What is known of an order that the book holds.
pub record Held (qs : Queues) (id : ℕ) (n : OrderNode) : Type 0 where
  pub front : Queue
  pub back : Queue
  pub whole : qs (ref_of n) ≡ front ++ entry id n.quantity ∷ back
  pub rest : remove id (qs (ref_of n)) ≡ front ++ back
  pub own_id : n.id ≡ id
  pub own_level : n.level ≡ some (ref_of n)

Held-from :
    {qs : Queues} {id : ℕ} (n : OrderNode) (s : Split id (qs (ref_of n)))
    → n ≡ node_of n.side n.price (last_or none s.front) (first s.back) s.at
    → Held qs id n
Held-from {qs} {id} n s e =
    let number : s.at.id ≡ id = s.hit in
    let quantity : s.at.quantity ≡ n.quantity = sym (ap (λ (o : OrderNode). o.quantity) e) in
    record {
      front = s.front;
      back = s.back;
      whole = s.same ∙ λ i. s.front ++ record { id = number i; quantity = quantity i } ∷ s.back;
      rest = s.rest;
      own_id = ap (λ (o : OrderNode). o.id) e ∙ number;
      own_level = ap (λ (o : OrderNode). o.level) e;
    }

module _ {im : Impl} {qs : Queues} (v : IsValid im qs) where
  pub held : (id : ℕ) (n : OrderNode) → node_at im id ≡ some n → Held qs id n
  held id n h =
      let s = split id (qs (ref_of n)) (v.owned id n h) in
      let found = at_node v (ref_of n) s.front s.at s.back s.same in
      Held-from n s (some-injective n _ (sym h ∙ ap (node_at im) (sym s.hit) ∙ found.0))

  -- Behind its guards `erase_node` removes the order from its queue.
  pub erase_node-lem :
      (id : ℕ) (n : OrderNode)
      → node_at im id ≡ some n
      → (im' : Impl) × (erase_node im id ≡ some im')
        × IsValid im' (set_queue qs (ref_of n) (remove id (qs (ref_of n))))
  erase_node-lem id n h =
      let s = held id n h in
      let (im', e, c) =
        erase_node-Change v (ref_of n) s.front (entry id n.quantity) s.back s.whole in
      (im', e, rw s.rest (Change-IsValid v (ref_of n) (s.front ++ s.back) c))

  pub small_order : (id : ℕ) (n : OrderNode) → node_at im id ≡ some n → n.quantity < 2 ^ 32
  small_order id n h =
      let s = held id n h in
      Sized-at s.front (entry id n.quantity) s.back (rw (← s.whole) (v.sized (ref_of n)))

  -- `add` on a book that stands for one FIFO queue per level, with a quantity and a price of 32 bits
  -- and a level that has room for one more order, ends: it answers false and keeps all queues for a
  -- quantity of zero or an order number in use, and else answers true and puts the order last in its
  -- level. The book that is left is valid again.
  pub add_lem :
      (id : ℕ) (side : Side) (price quantity : ℕ)
      → quantity < 2 ^ 32
      → price < 2 ^ 32
      → length (qs (level_ref side price)) + 1 < 2 ^ 64
      → let accepted = not (quantity == 0 || contains im id) in
        let r = level_ref side price in
        Ends
          (add im id side price quantity)
          accepted
          (if accepted then set_queue qs r (qs r ++ entry id quantity ∷ []) else qs)
  unfolding add contains
  add_lem id side price quantity small in_range room =
      elim (Bool-cases (quantity == 0 || contains im id)) [
        | inl refused ↦ rw refused (record { book = im; ended = refl; valid = v })
        | inr fine ↦
            let positive : 0 < quantity = ground arith in
            let new : node_at im id ≡ none = ground arith in
            let (im', e, c) =
              add_node-Change v id side price quantity positive small in_range new room in
            rw fine (record {
              book = im';
              ended = rw e;
              valid = Change-IsValid v (level_ref side price) _ c;
            })
      ]

  -- `erase` refuses an order number that is not in the book, and removes the order otherwise.
  pub erase_missing : (id : ℕ) → node_at im id ≡ none → erase_book im id ≡ some (false, im)
  unfolding erase_book contains
  erase_missing id h = rw h

  -- `erase` of an order that the valid book holds ends, answers true and removes that order from the
  -- queue of its level. The book that is left is valid again.
  pub erase_lem :
      (id : ℕ) (n : OrderNode)
      → node_at im id ≡ some n
      → Ends (erase_book im id) true (set_queue qs (ref_of n) (remove id (qs (ref_of n))))
  unfolding erase_book contains
  erase_lem id n h =
      let (im', e, valid) = erase_node-lem id n h in
      record { book = im'; ended = rw (h, e); valid = valid }

  -- The queue after a cancel of part or all of an order.
  abbrev pub cancelled : ℕ → ℕ → OrderNode → Queue
  cancelled id quantity n =
      if quantity == n.quantity
      then remove id (qs (ref_of n))
      else set_quantity id (n.quantity - quantity) (qs (ref_of n))

  cancel_part :
      (id quantity : ℕ) (n : OrderNode)
      → node_at im id ≡ some n
      → quantity < n.quantity
      → Ends
          (do
            im1 ← write_node im id λ o. record o { quantity = sub32 o.quantity quantity }
            ref ← n.level
            im2 ← write_level im1 ref λ l. record l { quantity = sub64 l.quantity quantity }
            some (true, im2))
          true
          (set_queue qs (ref_of n) (set_quantity id (n.quantity - quantity) (qs (ref_of n))))
  cancel_part id quantity n h less =
      let s = held id n h in
      let (im1, im2, e1, e2, c) =
        reduce-Change v (ref_of n) s.front (entry id n.quantity) s.back s.whole quantity less
          (small_order id n h) in
      record {
        book = im2;
        ended = rw (e1, s.own_level, e2);
        valid = Change-IsValid v (ref_of n) _ c;
      }

  cancel-missing :
      (id quantity : ℕ) → node_at im id ≡ none → cancel im id quantity ≡ some (false, im)
  unfolding cancel
  cancel-missing id quantity h = rw (h, cancel)

  cancel-found :
      (id quantity : ℕ) (n : OrderNode)
      → node_at im id ≡ some n
      → cancel im id quantity ≡ cancel_found im id quantity n
  unfolding cancel
  cancel-found id quantity n h = rw (h, cancel)

  -- `cancel` of an order that the valid book holds ends: it answers false and keeps all queues for a
  -- quantity of zero or above the order's, removes the order if the quantity is the order's, and else
  -- takes the quantity off the order in its place. The book that is left is valid again.
  pub cancel_lem :
      (id quantity : ℕ) (n : OrderNode)
      → node_at im id ≡ some n
      → let accepted = not (quantity == 0 || ltb n.quantity quantity) in
        Ends
          (cancel im id quantity)
          accepted
          (if accepted then set_queue qs (ref_of n) (cancelled id quantity n) else qs)
  unfolding cancel_found
  cancel_lem id quantity n h =
      rw (cancel-found id quantity n h)
        (elim (Bool-cases (quantity == 0 || ltb n.quantity quantity)) [
          | inl refused ↦ rw refused (record { book = im; ended = refl; valid = v })
          | inr fine ↦ elim (Bool-cases (quantity == n.quantity)) [
            | inl all ↦
                let (im', e, valid) = erase_node-lem id n h in
                rw (fine, all) (record { book = im'; ended = rw e; valid = valid })
            | inr part ↦ rw (fine, part) (cancel_part id quantity n h (ground arith))
          ]
        ])

-- A new book holds no order.
pub empty_book-IsValid : IsValid empty_book (λ r. [])
unfolding level_at node_at find
empty_book-IsValid = record {
  levels = λ r. refl;
  chains = λ r. tt;
  distinct = λ r. tt;
  sized = λ r. tt;
  short = λ r. omega arith;
  priced = λ r h. cc;
  owned = λ id n h. cc;
  indexed = λ s. Contents.new_node-IsWell;
  active = λ r h. Contents.has-new_node r.price;
}
