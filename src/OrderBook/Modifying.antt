-- ===== src/OrderBook/Modifying.antt =====
-- What `modify` and `replace` do to the queues, on every branch.
use nasdaq_itch_order_book_e.Base.{
  ℕ, ◌+◌, ◌-◌, ◌^◌, ◌<◌, ◌≤◌, ◌≡◌, refl, sym, ap, ◌∙◌, true, false, not, ◌&&◌, ◌||◌, none, some, [],
  ◌∷◌, ◌++◌, inl, inr, arith, ◌==◌, leb, if◌then◌else◌, Bool-cases, length, ◌>>=◌, sub32, sub64,
}
use mathlib.Core.Path.{subst}
use nasdaq_itch_order_book_e.OrderBook.{
  Impl, OrderNode, LevelRef, same_level, level_ref, node_at, contains, erase_book, write_node,
  write_level, requeue, modify_found, modify, replace_new, replace,
}
use nasdaq_itch_order_book_e.OrderBook.Queue.{entry, has_id, remove, set_quantity, has_id-append}
use nasdaq_itch_order_book_e.OrderBook.Links.{Chain-node}
use nasdaq_itch_order_book_e.OrderBook.Reducing.{reduce_level-Change}
use nasdaq_itch_order_book_e.OrderBook.Valid.{
  Queues, set_queue, IsValid, Change-IsValid, eq_of_same_level,
}
use nasdaq_itch_order_book_e.OrderBook.Operations.{
  Ends, held, ref_of, small_order, add_lem, erase_lem,
}
use nasdaq_itch_order_book_e.OrderBook.Requeue.{requeue_lem}

-- The queues once an order has left its place and stands last at a price of its side.
abbrev pub requeued : Queues → ℕ → OrderNode → ℕ → ℕ → Queues
requeued qs id n price quantity =
    let qs1 = set_queue qs (ref_of n) (remove id (qs (ref_of n))) in
    let r = level_ref n.side price in set_queue qs1 r (qs1 r ++ entry id quantity ∷ [])

-- The queues after a `modify` that is accepted.
abbrev pub modified : Queues → ℕ → OrderNode → ℕ → ℕ → Queues
modified qs id n price quantity =
    if price == n.price && leb quantity n.quantity
    then set_queue qs (ref_of n) (set_quantity id quantity (qs (ref_of n)))
    else requeued qs id n price quantity

module _ {im : Impl} {qs : Queues} (v : IsValid im qs) (id : ℕ) (n : OrderNode)
    (found : node_at im id ≡ some n) (price quantity : ℕ) where
  in_place :
      0 < quantity
      → quantity ≤ n.quantity
      → Ends
          (do
            im1 ←
                write_level im
                  (ref_of n)
                  λ l. record l { quantity = sub64 l.quantity (sub32 n.quantity quantity) }
            im2 ← write_node im1 id λ o. record o { quantity = quantity }
            some (true, im2))
          true
          (set_queue qs (ref_of n) (set_quantity id quantity (qs (ref_of n))))
  in_place positive le =
      let h = held v id n found in
      let small : n.quantity < 2 ^ 32 = small_order v id n found in
      let (im1, im2, e1, e2, c) =
        reduce_level-Change v (ref_of n) h.front (entry id n.quantity) h.back h.whole
          (n.quantity - quantity) (omega arith) small in
      let back : n.quantity - (n.quantity - quantity) ≡ quantity = omega arith in
      let taken : sub32 n.quantity quantity ≡ n.quantity - quantity = omega arith in
      record {
        book = im2;
        ended = rw (
          taken,
          e1,
          ap (λ (t : ℕ). write_node im1 id (λ o. record o { quantity = t })) (sym back) ∙ e2,
        );
        valid =
            subst
              (λ (t : ℕ). IsValid im2 (set_queue qs (ref_of n) (set_quantity id t (qs (ref_of n)))))
              back (Change-IsValid v (ref_of n) _ c);
      }

  -- `modify` of an order of the book.
  modify-found : modify im id price quantity ≡ modify_found im id price quantity n
  unfolding modify
  modify-found = rw (found, modify)

  moves :
      0 < quantity
      → price < 2 ^ 32
      → quantity < 2 ^ 32
      → length (qs (level_ref n.side price)) + 1 < 2 ^ 64
      → Ends
          (do im1 ← requeue im id n (ref_of n) price quantity; some (true, im1))
          true
          (requeued qs id n price quantity)
  moves positive in_range small room =
      let h = held v id n found in
      let (im', e, valid) = requeue_lem v id n found price quantity in_range positive small room in
      record { book = im'; ended = rw e; valid = rw h.rest valid }

  -- `modify` of an order that the valid book holds, to a price and a quantity of 32 bits where the level of
  -- that price has room for one more order, ends: it answers false and keeps all queues for a quantity of
  -- zero; at the same price and no more than the order's quantity the order keeps its place, and else it
  -- goes to the end of the level of the new price. The book that is left is valid again.
  pub modify_lem :
      price < 2 ^ 32
      → quantity < 2 ^ 32
      → length (qs (level_ref n.side price)) + 1 < 2 ^ 64
      → Ends
          (modify im id price quantity)
          (not (quantity == 0))
          (if quantity == 0 then qs else modified qs id n price quantity)
  unfolding modify_found requeue
  modify_lem in_range small room =
      let h = held v id n found in
      rw modify-found (elim (Bool-cases (quantity == 0)) [
        | inl refused ↦ rw refused (record { book = im; ended = refl; valid = v })
        | inr fine ↦ elim (Bool-cases (price == n.price && leb quantity n.quantity)) [
          | inl here ↦
              let run = in_place (ground arith) (ground arith) in rw (fine, h.own_level, here) run
          | inr away ↦
              let run = moves (ground arith) in_range small room in rw (fine, h.own_level, away) run
        ]
      ])

-- The queues after a `replace` under a new order number: the new order is put in, then the old one
-- is taken out.
abbrev pub replaced : Queues → ℕ → OrderNode → ℕ → ℕ → ℕ → Queues
replaced qs old_id n new_id price quantity =
    let r = level_ref n.side price in
    let qs1 = set_queue qs r (qs r ++ entry new_id quantity ∷ []) in
    set_queue qs1 (ref_of n) (remove old_id (qs1 (ref_of n)))

module _ {im : Impl} {qs : Queues} (v : IsValid im qs) (old_id new_id : ℕ) (n : OrderNode)
    (found : node_at im old_id ≡ some n) (price quantity : ℕ) (in_range : price < 2 ^ 32)
    (small : quantity < 2 ^ 32) (room : length (qs (level_ref n.side price)) + 1 < 2 ^ 64) where
  abbrev r : LevelRef
  r = level_ref n.side price

  abbrev added : Queues
  added = set_queue qs r (qs r ++ entry new_id quantity ∷ [])

  -- The old order is still in its queue.
  still_there : has_id old_id (added (ref_of n)) ≡ true
  still_there =
      let old = v.owned old_id n found in
      elim (Bool-cases (same_level r (ref_of n))) [
        | inl t ↦
            let same = eq_of_same_level r (ref_of n) t in
            let there : has_id old_id (qs r) ≡ true =
              ap (λ (s : LevelRef). has_id old_id (qs s)) same ∙ old in
            rw t (ground (arith, has_id-append old_id (qs r) (entry new_id quantity ∷ [])))
        | inr d ↦ rw d old
      ]

  -- Taking the old order out of the book that has both.
  erases :
      (book : Impl)
      → IsValid book added
      → Ends (erase_book book old_id) true (replaced qs old_id n new_id price quantity)
  erases book w =
      let (m, e, _, side, at_price) =
        Chain-node n.side n.price (node_at book) none (added (ref_of n)) old_id
          (w.chains (ref_of n)) still_there in
      let same : ref_of m ≡ ref_of n = λ i. level_ref (side i) (at_price i) in
      subst
        (λ (s : LevelRef).
          Ends (erase_book book old_id) true (set_queue added s (remove old_id (added s))))
        same (erase_lem w old_id m e)

  replace-found : replace im old_id new_id price quantity ≡ (
      if quantity == 0
      then some (false, im)
      else if old_id == new_id
      then modify im old_id price quantity
      else if contains im new_id
      then some (false, im)
      else replace_new im old_id new_id n.side price quantity)
  unfolding replace
  replace-found = rw (found, replace)

  puts_in :
      (quantity == 0) ≡ false
      → contains im new_id ≡ false
      → Ends
          (replace_new im old_id new_id n.side price quantity)
          true
          (replaced qs old_id n new_id price quantity)
  unfolding replace_new
  puts_in positive new =
      let fits : not (quantity == 0 || contains im new_id) ≡ true = ground arith in
      let run = add_lem v new_id n.side price quantity small in_range room in
      let w : IsValid run.book added = rw fits at run.valid in
      let end = erases run.book w in
      record { book = end.book; ended = rw (run.ended, fits) end.ended; valid = end.valid }

  -- `replace` of an order that the valid book holds, by a price and a quantity of 32 bits where the level
  -- of that price has room for one more order, ends: it answers false and keeps all queues for a quantity
  -- of zero or a new number that another order has; under the old number it is `modify`, so that no more
  -- shares at the same price keep the order's place; and else the new order goes to the end of its level
  -- and the old one leaves. The book that is left is valid again.
  pub replace_lem :
      Ends
        (replace im old_id new_id price quantity)
        (not (quantity == 0) && ((old_id == new_id) || not (contains im new_id)))
        (if quantity == 0
          then qs
          else if old_id == new_id
          then modified qs old_id n price quantity
          else if contains im new_id
          then qs
          else replaced qs old_id n new_id price quantity)
  replace_lem = rw replace-found (elim (Bool-cases (quantity == 0)) [
    | inl refused ↦ rw refused (record { book = im; ended = refl; valid = v })
    | inr fine ↦ elim (Bool-cases (old_id == new_id)) [
      | inl same ↦
          let run = modify_lem v old_id n found price quantity in_range small room in
          rw (fine, same) (rw fine at run)
      | inr other ↦ elim (Bool-cases (contains im new_id)) [
        | inl used ↦ rw (fine, other, used) (record { book = im; ended = refl; valid = v })
        | inr new ↦ rw (fine, other, new) (puts_in fine new)
      ]
    ]
  ])

-- An order number that is not in the book changes nothing.
pub modify_missing :
    (im : Impl) (id price quantity : ℕ)
    → node_at im id ≡ none
    → modify im id price quantity ≡ some (false, im)
unfolding modify
modify_missing im id price quantity h = rw (h, modify)

pub replace_missing :
    (im : Impl) (old_id new_id price quantity : ℕ)
    → node_at im old_id ≡ none
    → replace im old_id new_id price quantity ≡ some (false, im)
unfolding replace
replace_missing im old_id new_id price quantity h = rw (h, replace)
