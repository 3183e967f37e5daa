-- ===== src/OrderBook.antt =====
-- `OrderBook` of include/lob/order_book.hpp and src/book/order_book.cpp. An order node is owned by
-- the map of orders and a price level by the map of levels of its side, so a pointer to one is
-- modelled by the key that owns it. A null or dangling pointer that the source would follow ends
-- the call with `none`. Allocation does not fail in the model.
pub mod Queue
pub mod Links
pub mod Store
pub mod StoreDetach
pub mod Valid
pub mod Appending
pub mod Adding
pub mod Unlinking
pub mod Removing
pub mod Reducing
pub mod Queries
pub mod Operations
pub mod Requeue
pub mod Modifying
pub mod Lengths
pub mod Reads
pub mod Counting
pub mod Tallies
use nasdaq_itch_order_book_e.Base.{
  ℕ, ◌+◌, Bool, true, false, ◌||◌, ◌&&◌, not, Option, none, some, [], ◌>>=◌, ◌==◌, ltb, leb,
  if◌then◌else◌, is_some, update, add64, sub64, sub32,
}
use nasdaq_itch_order_book_e.Base.Assoc.{Assoc, find, insert, erase, size}
use nasdaq_itch_order_book_e.Common.{Side, buy, sell}
use nasdaq_itch_order_book_e.PriceIndex
use nasdaq_itch_order_book_e.PriceIndex.{PriceIndex, new_node}

pub record Depth : Type 0 where
  pub price : ℕ
  pub quantity : ℕ
  pub order_count : ℕ

pub record OrderView : Type 0 where
  pub order_id : ℕ
  pub side : Side
  pub price : ℕ
  pub quantity : ℕ

abbrev pub side_index : Side → ℕ
side_index buy = 0
side_index sell = 1

-- A `PriceLevel*`: the side and the price that own the level.
pub record LevelRef : Type 0 where
  pub side : Side
  pub price : ℕ

-- Equality of two such pointers.
abbrev pub same_level : LevelRef → LevelRef → Bool
same_level a b = side_index a.side == side_index b.side && a.price == b.price

pub record OrderNode : Type 0 where
  pub id : ℕ
  pub side : Side
  pub price : ℕ
  pub quantity : ℕ
  pub level : Option LevelRef
  pub previous : Option ℕ
  pub next : Option ℕ

pub record PriceLevel : Type 0 where
  pub price : ℕ
  pub quantity : ℕ
  pub order_count : ℕ
  pub head : Option ℕ
  pub tail : Option ℕ

-- `OrderBook::Impl`
pub record Impl : Type 0 where
  pub levels : ℕ → Assoc PriceLevel
  pub indices : ℕ → PriceIndex
  pub orders : Assoc OrderNode

abbrev pub new_level : ℕ → PriceLevel
new_level price = record { price = price; quantity = 0; order_count = 0; head = none; tail = none }

abbrev pub level_ref : Side → ℕ → LevelRef
level_ref side price = record { side = side; price = price }

-- Reads and writes through the pointers.
unfoldable pub node_at : Impl → ℕ → Option OrderNode
node_at im id = find id im.orders

unfoldable pub level_at : Impl → LevelRef → Option PriceLevel
level_at im ref = find ref.price (im.levels (side_index ref.side))

unfoldable pub put_node : Impl → ℕ → OrderNode → Impl
put_node im id node = record im { orders = insert id node im.orders }

unfoldable pub put_level : Impl → LevelRef → PriceLevel → Impl
put_level im ref level = record im {
  levels =
      update im.levels (side_index ref.side)
        (insert ref.price level (im.levels (side_index ref.side)));
}

unfoldable pub write_node : Impl → ℕ → (OrderNode → OrderNode) → Option Impl
write_node im id f = do node ← node_at im id; some (put_node im id (f node))

unfoldable pub write_level : Impl → LevelRef → (PriceLevel → PriceLevel) → Option Impl
write_level im ref f = do level ← level_at im ref; some (put_level im ref (f level))

unfoldable pub get_or_create_level : Impl → Side → ℕ → Impl
get_or_create_level im side price =
    if is_some (level_at im (level_ref side price))
    then im
    else put_level im (level_ref side price) (new_level price)

unfoldable pub index_price : Impl → Side → ℕ → Impl
index_price im side price = record im {
  indices =
      update im.indices (side_index side) (PriceIndex.add (im.indices (side_index side)) price);
}

unfoldable pub unindex_price : Impl → Side → ℕ → Option Impl
unindex_price im side price = do
  index ← PriceIndex.remove (im.indices (side_index side)) price
  some (record im { indices = update im.indices (side_index side) index })

unfoldable pub erase_level : Impl → Side → ℕ → Impl
erase_level im side price = record im {
  levels = update im.levels (side_index side) (erase price (im.levels (side_index side)));
}

unfoldable pub erase_order : Impl → ℕ → Impl
erase_order im id = record im { orders = erase id im.orders }

-- `Impl::append`
unfoldable pub append : Impl → LevelRef → ℕ → Option Impl
append im ref id = do
  level ← level_at im ref
  im1 ← write_node im id λ o. record o { level = some ref; previous = level.tail; next = none }
  im2 ← elim level.tail [
    | some last ↦ write_node im1 last λ o. record o { next = some id }
    | none ↦ write_level im1 ref λ l. record l { head = some id }
  ]
  order ← node_at im2 id
  write_level im2 ref λ l. record l {
    tail = some id;
    quantity = add64 l.quantity order.quantity;
    order_count = add64 l.order_count 1;
  }

-- `Impl::detach`
unfoldable pub detach : Impl → LevelRef → ℕ → Option Impl
detach im ref id = do
  order ← node_at im id
  im1 ← elim order.previous [
    | some before ↦ write_node im before λ o. record o { next = order.next }
    | none ↦ write_level im ref λ l. record l { head = order.next }
  ]
  order1 ← node_at im1 id
  im2 ← elim order1.next [
    | some after ↦ write_node im1 after λ o. record o { previous = order1.previous }
    | none ↦ write_level im1 ref λ l. record l { tail = order1.previous }
  ]
  im3 ← write_node im2 id λ o. record o { previous = none; next = none; level = none }
  write_level im3 ref λ l. record l { order_count = sub64 l.order_count 1 }

-- Drop a level that has no order left, from the index and from the map.
unfoldable pub drop_level : Impl → Side → ℕ → Option Impl
drop_level im side price = do im1 ← unindex_price im side price; some (erase_level im1 side price)

-- `Impl::erase_node`
unfoldable pub erase_node : Impl → ℕ → Option Impl
erase_node im id = do
  order ← node_at im id
  ref ← order.level
  im1 ← write_level im ref λ l. record l { quantity = sub64 l.quantity order.quantity }
  im2 ← detach im1 ref id
  level ← level_at im2 ref
  im3 ← if level.order_count == 0 then drop_level im2 order.side order.price else some im2
  some (erase_order im3 id)

abbrev pub empty_book : Impl
empty_book = record { levels = λ i. []; indices = λ i. new_node; orders = [] }

unfoldable pub contains : Impl → ℕ → Bool
contains im id = is_some (node_at im id)

abbrev pub new_order : ℕ → Side → ℕ → ℕ → OrderNode
new_order id side price quantity = record {
  id = id;
  side = side;
  price = price;
  quantity = quantity;
  level = none;
  previous = none;
  next = none;
}

-- `OrderBook::add` behind its guard.
unfoldable pub add_node : Impl → ℕ → Side → ℕ → ℕ → Option Impl
add_node im id side price quantity = do
  let im1 = get_or_create_level im side price
  let im2 = put_node im1 id (new_order id side price quantity)
  level ← level_at im2 (level_ref side price)
  append (if level.order_count == 0 then index_price im2 side price else im2) (level_ref side price)
      id

unfoldable pub add : Impl → ℕ → Side → ℕ → ℕ → Option (Bool × Impl)
add im id side price quantity =
    if quantity == 0 || contains im id
    then some (false, im)
    else do im' ← add_node im id side price quantity; some (true, im')

-- `OrderBook::cancel` on an order that was found.
unfoldable pub cancel_found : Impl → ℕ → ℕ → OrderNode → Option (Bool × Impl)
cancel_found im id quantity order =
    if quantity == 0 || ltb order.quantity quantity
    then some (false, im)
    else if quantity == order.quantity
    then (do im' ← erase_node im id; some (true, im'))
    else do
      im1 ← write_node im id λ o. record o { quantity = sub32 o.quantity quantity }
      ref ← order.level
      im2 ← write_level im1 ref λ l. record l { quantity = sub64 l.quantity quantity }
      some (true, im2)

unfoldable pub cancel : Impl → ℕ → ℕ → Option (Bool × Impl)
cancel im id quantity = elim (node_at im id) [
  | none ↦ some (false, im)
  | some order ↦ cancel_found im id quantity order
]

unfoldable pub erase_book : Impl → ℕ → Option (Bool × Impl)
erase_book im id =
    if contains im id then (do im' ← erase_node im id; some (true, im')) else some (false, im)

unfoldable pub execute : Impl → ℕ → ℕ → Option (Bool × Impl)
execute im id quantity = cancel im id quantity

-- `OrderBook::modify` where the order goes to the tail of its (new) level.
unfoldable pub requeue : Impl → ℕ → OrderNode → LevelRef → ℕ → ℕ → Option Impl
requeue im id order old_ref new_price new_quantity = do
  let im1 = get_or_create_level im order.side new_price
  let new_ref = level_ref order.side new_price
  level ← level_at im1 new_ref
  let activating = not (same_level new_ref old_ref) && level.order_count == 0
  let im2 = if activating then index_price im1 order.side new_price else im1
  im3 ← write_level im2 old_ref λ l. record l { quantity = sub64 l.quantity order.quantity }
  im4 ← detach im3 old_ref id
  old_level ← level_at im4 old_ref
  im5 ←
      if old_level.order_count == 0 && not (same_level old_ref new_ref)
      then drop_level im4 order.side order.price
      else some im4
  im6 ← write_node im5 id λ o. record o { price = new_price; quantity = new_quantity }
  append im6 new_ref id

-- `OrderBook::modify` on an order that was found.
unfoldable pub modify_found : Impl → ℕ → ℕ → ℕ → OrderNode → Option (Bool × Impl)
modify_found im id new_price new_quantity order = if new_quantity == 0 then some (false, im) else do
  old_ref ← order.level
  if new_price == order.price && leb new_quantity order.quantity
      then (do
        im1 ←
            write_level im old_ref
              λ l. record l { quantity = sub64 l.quantity (sub32 order.quantity new_quantity) }
        im2 ← write_node im1 id λ o. record o { quantity = new_quantity }
        some (true, im2))
      else (do im1 ← requeue im id order old_ref new_price new_quantity; some (true, im1))

unfoldable pub modify : Impl → ℕ → ℕ → ℕ → Option (Bool × Impl)
modify im id new_price new_quantity = elim (node_at im id) [
  | none ↦ some (false, im)
  | some order ↦ modify_found im id new_price new_quantity order
]

-- `OrderBook::replace` under a new order number: insert the new order, then erase the old one.
unfoldable pub replace_new : Impl → ℕ → ℕ → Side → ℕ → ℕ → Option (Bool × Impl)
replace_new im old_id new_id side new_price new_quantity = do
  (added, im1) ← add im new_id side new_price new_quantity
  if added then erase_book im1 old_id else some (false, im1)

unfoldable pub replace : Impl → ℕ → ℕ → ℕ → ℕ → Option (Bool × Impl)
replace im old_id new_id new_price new_quantity = elim (node_at im old_id) [
  | none ↦ some (false, im)
  | some old ↦
      if new_quantity == 0
      then some (false, im)
      else if old_id == new_id
      then modify im old_id new_price new_quantity
      else if contains im new_id
      then some (false, im)
      else replace_new im old_id new_id old.side new_price new_quantity
]
