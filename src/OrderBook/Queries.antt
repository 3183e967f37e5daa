-- ===== src/OrderBook/Queries.antt =====
-- The reading operations of src/book/order_book.cpp, and `clear`.
use nasdaq_itch_order_book_e.Base.{ℕ, Option, none, some, [], ◌>>=◌, ◌==◌, if◌then◌else◌}
use mathlib.Core.Option
use nasdaq_itch_order_book_e.Base.Assoc.{size}
use nasdaq_itch_order_book_e.Common.{Side, buy, sell}
use nasdaq_itch_order_book_e.PriceIndex.{new_node, minimum, maximum}
use nasdaq_itch_order_book_e.OrderBook.{
  Impl, Depth, OrderView, OrderNode, PriceLevel, side_index, level_ref, node_at, level_at,
}

abbrev pub view_of : OrderNode → OrderView
view_of n = record { order_id = n.id; side = n.side; price = n.price; quantity = n.quantity }

unfoldable pub order : Impl → ℕ → Option OrderView
order im id = Option.map view_of (node_at im id)

unfoldable pub order_count : Impl → ℕ
order_count im = size im.orders

unfoldable pub best_bid : Impl → Option (Option ℕ)
best_bid im = maximum (im.indices (side_index buy))

unfoldable pub best_ask : Impl → Option (Option ℕ)
best_ask im = minimum (im.indices (side_index sell))

abbrev pub depth_of : PriceLevel → Option Depth
depth_of l =
    if l.order_count == 0
    then none
    else some (record { price = l.price; quantity = l.quantity; order_count = l.order_count })

unfoldable pub depth : Impl → Side → ℕ → Option Depth
depth im side price = do l ← level_at im (level_ref side price); depth_of l

unfoldable pub best_bid_depth : Impl → Option (Option Depth)
best_bid_depth im = do
  price ← best_bid im
  elim price [ none ↦ some none | some p ↦ some (depth im buy p) ]

unfoldable pub best_ask_depth : Impl → Option (Option Depth)
best_ask_depth im = do
  price ← best_ask im
  elim price [ none ↦ some none | some p ↦ some (depth im sell p) ]

-- The outer option is the run, which ends at a head that is not there; the inner one the result.
abbrev pub front_of : Impl → PriceLevel → Option (Option OrderView)
front_of im l = elim l.head [
  | none ↦ some none
  | some id ↦ Option.map (λ n. some (view_of n)) (node_at im id)
]

unfoldable pub front_order : Impl → Side → ℕ → Option (Option OrderView)
front_order im side price = elim (level_at im (level_ref side price)) [
  | none ↦ some none
  | some l ↦ front_of im l
]

unfoldable pub clear : Impl → Impl
clear im = record { levels = λ i. []; indices = λ i. new_node; orders = [] }
