-- ===== src/OrderBook/Store.antt =====
-- Reading the store after a write.
use nasdaq_itch_order_book_e.Base.{
  ℕ, ◌≡◌, refl, true, false, Option, none, some, inl, inr, arith, ◌==◌, if◌then◌else◌, Bool-cases,
  add64,
}
use nasdaq_itch_order_book_e.Base.Assoc.{find-insert, find-erase}
use mathlib.Core.Option
use nasdaq_itch_order_book_e.Common.{Side}
use nasdaq_itch_order_book_e.OrderBook.{
  Impl, OrderNode, PriceLevel, LevelRef, side_index, same_level, level_ref, node_at, level_at,
  put_node, put_level, write_node, write_level, erase_level, erase_order, append,
}
use nasdaq_itch_order_book_e.OrderBook.Queue.{points}
use nasdaq_itch_order_book_e.OrderBook.Links.{eq_self, with_next}

pub same_level_self : (r : LevelRef) → same_level r r ≡ true
same_level_self r = ground arith

module _ (im : Impl) where
  pub node_at-put_node :
      (id j : ℕ) (n : OrderNode)
      → node_at (put_node im id n) j ≡ (if id == j then some n else node_at im j)
  unfolding node_at put_node
  node_at-put_node id j n = find-insert id j n im.orders

  pub node_at-put_level :
      (r : LevelRef) (l : PriceLevel) (j : ℕ) → node_at (put_level im r l) j ≡ node_at im j
  unfolding node_at put_level
  node_at-put_level r l j = refl

  pub level_at-put_node :
      (id : ℕ) (n : OrderNode) (r : LevelRef) → level_at (put_node im id n) r ≡ level_at im r
  unfolding level_at put_node
  level_at-put_node id n r = refl

  pub level_at-put_level :
      (r s : LevelRef) (l : PriceLevel)
      → level_at (put_level im r l) s ≡ (if same_level r s then some l else level_at im s)
  unfolding level_at put_level
  level_at-put_level r s l = elim (Bool-cases (side_index r.side == side_index s.side)) [
    | inl t ↦ let e : side_index r.side ≡ side_index s.side = ground arith in rw (t, find-insert, e)
    | inr f ↦ rw f
  ]

  pub level_at-erase_level :
      (s : Side) (p : ℕ) (r : LevelRef)
      → level_at (erase_level im s p) r
        ≡ (if same_level (level_ref s p) r then none else level_at im r)
  unfolding level_at erase_level
  level_at-erase_level s p r = elim (Bool-cases (side_index s == side_index r.side)) [
    | inl t ↦ let e : side_index s ≡ side_index r.side = ground arith in rw (t, find-erase, e)
    | inr f ↦ rw f
  ]

  pub node_at-erase_order :
      (id j : ℕ) → node_at (erase_order im id) j ≡ (if id == j then none else node_at im j)
  unfolding node_at erase_order
  node_at-erase_order id j = find-erase id j im.orders

  pub indices-put_node : (id : ℕ) (n : OrderNode) → (put_node im id n).indices ≡ im.indices
  unfolding put_node
  indices-put_node id n = refl

  pub indices-put_level : (r : LevelRef) (l : PriceLevel) → (put_level im r l).indices ≡ im.indices
  unfolding put_level
  indices-put_level r l = refl

ruleset store = (node_at-put_node, node_at-put_level, level_at-put_node, level_at-put_level)

abbrev pub appended_level : PriceLevel → ℕ → OrderNode → PriceLevel
appended_level l id order = record l {
  head = elim l.tail [ none ↦ some id | some t ↦ l.head ];
  tail = some id;
  quantity = add64 l.quantity order.quantity;
  order_count = add64 l.order_count 1;
}

-- What `append` leaves behind.
pub record Appended (im im' : Impl) (ref : LevelRef) (id : ℕ) (order : OrderNode) (l : PriceLevel)
    : Type 0 where
  pub nodes :
      (j : ℕ)
      → node_at im' j ≡ (
          if id == j
          then some (record order { level = some ref; previous = l.tail; next = none })
          else if points l.tail j
          then Option.map (with_next (some id)) (node_at im j)
          else node_at im j)
  pub levels :
      (r : LevelRef)
      → level_at im' r
        ≡ (if same_level ref r then some (appended_level l id order) else level_at im r)
  pub same_indices : im'.indices ≡ im.indices

abbrev pub tailed : ℕ → ℕ → ℕ → Option ℕ → Option ℕ → PriceLevel
tailed p q c head tail = record {
  price = p;
  quantity = q;
  order_count = c;
  head = head;
  tail = tail;
}

module _ (im : Impl) (ref : LevelRef) (id : ℕ) (order : OrderNode) (p q c : ℕ) (head : Option ℕ)
    (hn : node_at im id ≡ some order) where
  abbrev pub linked_order : Option ℕ → OrderNode
  linked_order previous = record order { level = some ref; previous = previous; next = none }

  pub append-first :
      level_at im ref ≡ some (tailed p q c head none)
      → (im' : Impl) × (append im ref id ≡ some im')
        × Appended im im' ref id order (tailed p q c head none)
  unfolding append write_node write_level
  append-first hl =
      let l1 = tailed p q c (some id) none in
      let l2 = tailed p (add64 q order.quantity) (add64 c 1) (some id) (some id) in
      (
        put_level (put_level (put_node im id (linked_order none)) ref l1) ref l2,
        simp (
          hl, hn, node_at-put_node, node_at-put_level, level_at-put_node, level_at-put_level,
          eq_self,
        ),
        record {
          nodes = λ j. simp (node_at-put_node, node_at-put_level);
          levels = λ r. simp (level_at-put_node, level_at-put_level) (ground arith);
          same_indices = simp (indices-put_node, indices-put_level);
        },
      )

  relinked :
      (t : ℕ) (n : OrderNode) (j : ℕ)
      → node_at im t ≡ some n
      → (id == t) ≡ false
      → (if t == j
          then some (with_next (some id) n)
          else if id == j
          then some (linked_order (some t))
          else node_at im j)
        ≡ (if id == j
            then some (linked_order (some t))
            else if t == j
            then Option.map (with_next (some id)) (node_at im j)
            else node_at im j)
  relinked t n j ht ne = elim (Bool-cases (t == j)) [
    | inl h ↦ let e : t ≡ j = ground arith in rw (← e, eq_self t, ne, ht)
    | inr h ↦ rw h
  ]

  pub append-last :
      (t : ℕ) (n : OrderNode)
      → level_at im ref ≡ some (tailed p q c head (some t))
      → node_at im t ≡ some n
      → (id == t) ≡ false
      → (im' : Impl) × (append im ref id ≡ some im')
        × Appended im im' ref id order (tailed p q c head (some t))
  unfolding append write_node write_level
  append-last t n hl ht ne =
      let im1 = put_node im id (linked_order (some t)) in
      let im2 = put_node im1 t (with_next (some id) n) in
      let l2 = tailed p (add64 q order.quantity) (add64 c 1) head (some id) in
      let ne' : (t == id) ≡ false = ground arith in
      (
        put_level im2 ref l2,
        simp (hl, hn, ht, ne, ne', node_at-put_node, level_at-put_node, eq_self),
        record {
          nodes = λ j. simp (node_at-put_node, node_at-put_level) (relinked t n j ht ne);
          levels = λ r. simp (level_at-put_node, level_at-put_level);
          same_indices = simp (indices-put_node, indices-put_level);
        },
      )
