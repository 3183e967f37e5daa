-- ===== src/OrderBook/Lengths.antt =====
-- How long the queues of a book are: an operation that puts in an order makes one of them longer by
-- one, and no operation makes them longer otherwise.
use nasdaq_itch_order_book_e.Base.{
  ℕ, ◌+◌, ◌≤◌, ◌≡◌, Bool, true, false, ◌&&◌, [], ◌∷◌, ◌++◌, inl, inr, arith, ◌==◌, leb,
  if◌then◌else◌, Bool-cases, length, length-append,
}
use nasdaq_itch_order_book_e.OrderBook.{OrderNode, LevelRef, level_ref, same_level}
use nasdaq_itch_order_book_e.OrderBook.Queue.{
  Entry, entry, Queue, remove, set_quantity, length-set_quantity,
}
use nasdaq_itch_order_book_e.OrderBook.Valid.{Queues, set_queue}
use nasdaq_itch_order_book_e.OrderBook.Operations.{ref_of}
use nasdaq_itch_order_book_e.OrderBook.Modifying.{requeued, modified, replaced}

-- No queue is longer than the bound.
abbrev pub Within : ℕ → Queues → Type 0
Within k qs = (r : LevelRef) → length (qs r) ≤ k

length-remove : (id : ℕ) (es : Queue) → length (remove id es) ≤ length es
unfolding remove
length-remove id [] = omega arith
length-remove id (e ∷ es) = ground (arith, length-remove id es)

length-last : (es : Queue) (e : Entry) → length (es ++ e ∷ []) ≡ length es + 1
length-last es e = omega (arith, length-append es (e ∷ []))

pub Within-mono : (k j : ℕ) (qs : Queues) → k ≤ j → Within k qs → Within j qs
Within-mono k j qs h w r = let b = w r in omega arith

Within-if :
    (b : Bool) (k : ℕ) (xs ys : Queues)
    → Within k xs
    → Within k ys
    → Within k (if b then xs else ys)
Within-if true k xs ys h h' = h
Within-if false k xs ys h h' = h'

Within-set_queue :
    (k : ℕ) (qs : Queues) (r : LevelRef) (es : Queue)
    → Within k qs
    → length es ≤ k
    → Within k (set_queue qs r es)
Within-set_queue k qs r es w h s = elim (Bool-cases (same_level r s)) [
  | inl t ↦ rw t h
  | inr f ↦ rw f (w s)
]

module _ (k : ℕ) (qs : Queues) (w : Within k qs) where
  pub Within-remove : (r : LevelRef) (id : ℕ) → Within k (set_queue qs r (remove id (qs r)))
  Within-remove r id =
      let b = w r in
      Within-set_queue k qs r (remove id (qs r)) w (omega (arith, length-remove id (qs r)))

  Within-set_quantity :
      (r : LevelRef) (id quantity : ℕ) → Within k (set_queue qs r (set_quantity id quantity (qs r)))
  Within-set_quantity r id quantity =
      let b = w r in
      Within-set_queue k qs r (set_quantity id quantity (qs r)) w
        (omega (arith, length-set_quantity id quantity (qs r)))

  pub Within-append : (r : LevelRef) (e : Entry) → Within (k + 1) (set_queue qs r (qs r ++ e ∷ []))
  Within-append r e =
      let b = w r in
      Within-set_queue (k + 1) qs r (qs r ++ e ∷ []) (Within-mono k (k + 1) qs (omega arith) w)
        (omega (arith, length-last (qs r) e))

  pub Within-add :
      (accepted : Bool) (r : LevelRef) (e : Entry)
      → Within (k + 1) (if accepted then set_queue qs r (qs r ++ e ∷ []) else qs)
  Within-add accepted r e =
      Within-if accepted (k + 1) _ qs (Within-append r e) (Within-mono k (k + 1) qs (omega arith) w)

  Within-requeued :
      (id : ℕ) (n : OrderNode) (price quantity : ℕ)
      → Within (k + 1) (requeued qs id n price quantity)
  Within-requeued id n price quantity =
      let qs1 = set_queue qs (ref_of n) (remove id (qs (ref_of n))) in
      let r = level_ref n.side price in
      let w1 = Within-remove (ref_of n) id in
      let b : length (qs1 r) ≤ k = w1 r in
      Within-set_queue (k + 1) qs1 r (qs1 r ++ entry id quantity ∷ [])
        (Within-mono k (k + 1) qs1 (omega arith) w1)
        (omega (arith, length-last (qs1 r) (entry id quantity)))

  Within-modified :
      (id : ℕ) (n : OrderNode) (price quantity : ℕ)
      → Within (k + 1) (modified qs id n price quantity)
  Within-modified id n price quantity =
      Within-if (price == n.price && leb quantity n.quantity) (k + 1) _ _
        (Within-mono k (k + 1) _ (omega arith) (Within-set_quantity (ref_of n) id quantity))
        (Within-requeued id n price quantity)

  Within-replaced :
      (old_id : ℕ) (n : OrderNode) (new_id price quantity : ℕ)
      → Within (k + 1) (replaced qs old_id n new_id price quantity)
  Within-replaced old_id n new_id price quantity =
      let r = level_ref n.side price in
      let qs1 = set_queue qs r (qs r ++ entry new_id quantity ∷ []) in
      let w1 = Within-append r (entry new_id quantity) in
      let b : length (qs1 (ref_of n)) ≤ k + 1 = w1 (ref_of n) in
      Within-set_queue (k + 1) qs1 (ref_of n) (remove old_id (qs1 (ref_of n))) w1
        (omega (arith, length-remove old_id (qs1 (ref_of n))))

  -- What `replace` leaves, on any branch.
  pub Within-replace :
      (zero_shares same used : Bool) (old_id : ℕ) (n : OrderNode) (new_id price quantity : ℕ)
      → Within (k + 1) (
          if zero_shares
          then qs
          else if same
          then modified qs old_id n price quantity
          else if used
          then qs
          else replaced qs old_id n new_id price quantity)
  Within-replace zero_shares same used old_id n new_id price quantity =
      let longer = Within-mono k (k + 1) qs (omega arith) w in
      Within-if zero_shares (k + 1) _ _ longer (
        Within-if same (k + 1) _ _ (Within-modified old_id n price quantity)
          (Within-if used (k + 1) _ _ longer (Within-replaced old_id n new_id price quantity)))

  -- What `cancel` leaves, on any branch.
  pub Within-cancel :
      (accepted all : Bool) (r : LevelRef) (id left : ℕ)
      → Within k (
          if accepted
          then set_queue qs r (if all then remove id (qs r) else set_quantity id left (qs r))
          else qs)
  Within-cancel true true r id left = Within-remove r id
  Within-cancel true false r id left = Within-set_quantity r id left
  Within-cancel false all r id left = w
