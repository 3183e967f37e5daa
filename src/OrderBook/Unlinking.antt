-- ===== src/OrderBook/Unlinking.antt =====
-- `Impl::detach` on a level of a valid book, where the book may have gained levels and prices that
-- the queues do not know of: the order leaves its list, and the level record is that of the rest.
use nasdaq_itch_order_book_e.Base.{
  ℕ, suc, ◌+◌, ◌%◌, ◌^◌, ◌<◌, ◌≡◌, refl, sym, ap, ◌∙◌, true, false, Option, none, some, [], ◌∷◌,
  ◌++◌, inl, inr, arith, ◌==◌, if◌then◌else◌, Bool-cases, length, length-append, sub64,
}
use mathlib.Core.Option
use mathlib.Core.List.{append-nil}
use nasdaq_itch_order_book_e.OrderBook.{
  Impl, PriceLevel, LevelRef, same_level, node_at, level_at, put_level, detach,
}
use nasdaq_itch_order_book_e.OrderBook.Queue.{
  Entry, Queue, has_id, Distinct, level_of, node_of, Chain, total, first, last_or, points,
  total-append, last_or-append, points-last_or, points-first, last_or-some, Distinct-cross,
}
use nasdaq_itch_order_book_e.OrderBook.Links.{
  Neighbour, Neighbour-mono, with_next, with_previous, Chain-at,
}
use nasdaq_itch_order_book_e.OrderBook.Store.{
  node_at-put_level, level_at-put_level, indices-put_level, same_level_self,
}
use nasdaq_itch_order_book_e.OrderBook.StoreDetach.{
  Detached, detached_level, detached_node, detach-Detached,
}
use nasdaq_itch_order_book_e.OrderBook.Valid.{Queues, Sized, IsValid}

count_down : (m n : ℕ) → sub64 ((m + suc n) % 2 ^ 64) 1 ≡ (m + n) % 2 ^ 64
count_down m n = omega arith

quantity_down : (m n q : ℕ) → q < 2 ^ 32 → sub64 ((m + (q + n)) % 2 ^ 64) q ≡ (m + n) % 2 ^ 64
quantity_down m n q h = omega arith

head-removed :
    (xs : Queue) (e : Entry) (bs : Queue)
    → (elim (last_or none xs) [ none ↦ first bs | some b ↦ first (xs ++ e ∷ bs) ])
      ≡ first (xs ++ bs)
head-removed [] e bs = refl
head-removed (x ∷ xs) e bs = let (t, h) = last_or-some x.id xs in rw h

tail-removed :
    (xs : Queue) (e : Entry) (bs : Queue)
    → (elim (first bs) [ none ↦ last_or none xs | some a ↦ last_or none (xs ++ e ∷ bs) ])
      ≡ last_or none (xs ++ bs)
tail-removed xs e [] = ap (last_or none) (sym (append-nil xs))
tail-removed xs e (b ∷ bs) = rw (last_or-append, last_or-append)

quantity-removed :
    (xs : Queue) (e : Entry) (bs : Queue)
    → e.quantity < 2 ^ 32
    → sub64 (total (xs ++ e ∷ bs) % 2 ^ 64) e.quantity ≡ total (xs ++ bs) % 2 ^ 64
quantity-removed xs e bs h =
    rw (total-append xs (e ∷ bs), total-append xs bs)
      (quantity_down (total xs) (total bs) e.quantity h)

count-removed :
    (xs : Queue) (e : Entry) (bs : Queue)
    → sub64 (length (xs ++ e ∷ bs) % 2 ^ 64) 1 ≡ length (xs ++ bs) % 2 ^ 64
count-removed xs e bs =
    rw (length-append xs (e ∷ bs), length-append xs bs) (count_down (length xs) (length bs))

-- The level record after the removal is that of the shorter queue.
detached_level-eq :
    (price : ℕ) (xs : Queue) (e : Entry) (bs : Queue)
    → e.quantity < 2 ^ 32
    → detached_level
        (record (level_of price (xs ++ e ∷ bs)) {
          quantity = sub64 (total (xs ++ e ∷ bs) % 2 ^ 64) e.quantity;
        })
        (last_or none xs)
        (first bs)
      ≡ level_of price (xs ++ bs)
detached_level-eq price xs e bs h = λ i. record {
  price = price;
  quantity = quantity-removed xs e bs h i;
  order_count = count-removed xs e bs i;
  head = head-removed xs e bs i;
  tail = tail-removed xs e bs i;
}

pub Sized-at : (xs : Queue) (e : Entry) (bs : Queue) → Sized (xs ++ e ∷ bs) → e.quantity < 2 ^ 32
Sized-at [] e bs s = s.0.1
Sized-at (x ∷ xs) e bs s = Sized-at xs e bs s.1

pub Sized-removed : (xs : Queue) (e : Entry) (bs : Queue) → Sized (xs ++ e ∷ bs) → Sized (xs ++ bs)
Sized-removed [] e bs s = s.1
Sized-removed (x ∷ xs) e bs s = (s.0, Sized-removed xs e bs s.1)

-- What the unlinking leaves behind.
pub record Unlinked (im im0 im2 : Impl) (r : LevelRef) (xs : Queue) (e : Entry) (bs : Queue)
    : Type 0 where
  pub gone :
      node_at im2 e.id
      ≡ some (detached_node (node_of r.side r.price (last_or none xs) (first bs) e))
  pub nodes :
      (j : ℕ)
      → (e.id == j) ≡ false
      → node_at im2 j ≡ (
          if points (first bs) j
          then Option.map (with_previous (last_or none xs)) (node_at im j)
          else if points (last_or none xs) j
          then Option.map (with_next (first bs)) (node_at im j)
          else node_at im j)
  pub level : level_at im2 r ≡ some (level_of r.price (xs ++ bs))
  pub levels : (s : LevelRef) → same_level r s ≡ false → level_at im2 s ≡ level_at im0 s
  pub same_indices : im2.indices ≡ im0.indices

module _ {im : Impl} {qs : Queues} (v : IsValid im qs) (r : LevelRef) (xs : Queue) (e : Entry)
    (bs : Queue) (whole : qs r ≡ xs ++ e ∷ bs) where
  distinct : Distinct (xs ++ e ∷ bs)
  distinct = rw (← whole) (v.distinct r)

  chain : Chain (node_at im) r.side r.price none (xs ++ e ∷ bs)
  chain = rw (← whole) (v.chains r)

  pub at_node :
      (node_at im e.id ≡ some (node_of r.side r.price (last_or none xs) (first bs) e))
      × Neighbour (node_at im) e.id (last_or none xs)
      × Neighbour (node_at im) e.id (first bs)
  at_node = Chain-at r.side r.price (node_at im) none xs e bs distinct tt chain

  pub at_quantity : e.quantity < 2 ^ 32
  at_quantity = Sized-at xs e bs (rw (← whole) (v.sized r))

  -- The level record once the order's quantity is off it.
  abbrev pub taken : PriceLevel
  taken = record (level_of r.price (xs ++ e ∷ bs)) {
    quantity = sub64 (total (xs ++ e ∷ bs) % 2 ^ 64) e.quantity;
  }

  apart_ends : (b : ℕ) → points (last_or none xs) b ≡ true → points (first bs) b ≡ false
  apart_ends b h = elim (Bool-cases (has_id b xs)) [
    | inl t ↦ points-first bs b (Distinct-cross xs e bs b distinct t)
    | inr f ↦ let no = points-last_or none xs b refl f in cc
  ]

  module _ (im0 : Impl) (same_nodes : (j : ℕ) → node_at im0 j ≡ node_at im j) where
    im1 : Impl
    im1 = put_level im0 r taken

    kept : (t : Option ℕ) → Neighbour (node_at im) e.id t → Neighbour (node_at im1) e.id t
    unfolding im1
    kept t =
        Neighbour-mono (node_at im) (node_at im1) e.id t
          (λ j _. node_at-put_level im0 r taken j ∙ same_nodes j)

    run :
        (im' : Impl) × (detach im1 r e.id ≡ some im')
        × Detached im1 im' r e.id (node_of r.side r.price (last_or none xs) (first bs) e) taken
    unfolding im1
    run =
        detach-Detached im1 r taken (level_at-put_level im0 r r taken ∙ rw (same_level_self r))
          r.side r.price e (last_or none xs) (first bs) (kept _ at_node.1) (kept _ at_node.2)
          apart_ends (node_at-put_level im0 r taken e.id ∙ same_nodes e.id ∙ at_node.0)

    level_left : detached_level taken (last_or none xs) (first bs) ≡ level_of r.price (xs ++ bs)
    level_left = detached_level-eq r.price xs e bs at_quantity

    pub detach-Unlinked :
        (im' : Impl) × (detach (put_level im0 r taken) r e.id ≡ some im')
        × Unlinked im im0 im' r xs e bs
    unfolding im1
    detach-Unlinked = (
      run.0,
      run.1,
      record {
        gone = run.2.gone;
        nodes = λ j d. run.2.nodes j d ∙ rw (node_at-put_level im0 r taken j, same_nodes j);
        level =
            run.2.levels r ∙ rw (same_level_self r) (ap (λ (l : PriceLevel). some l) level_left);
        levels = λ s d. run.2.levels s ∙ rw d (level_at-put_level im0 r s taken ∙ rw d);
        same_indices = run.2.same_indices ∙ indices-put_level im0 r taken;
      },
    )
