-- ===== src/OrderBook/Reads.antt =====
-- What the reading operations of the book return.
use nasdaq_itch_order_book_e.Base.{
  ℕ, ◌%◌, ◌^◌, ◌<◌, ◌≡◌, refl, sym, ◌∙◌, Bool, true, false, not, Option, none, some, [], ◌∷◌, arith,
  length, ◌>>=◌,
}
use nasdaq_itch_order_book_e.Common.{Side, buy, sell}
use nasdaq_itch_order_book_e.PriceIndex.{minimum, maximum}
use nasdaq_itch_order_book_e.PriceIndex.Tier.{Before}
use nasdaq_itch_order_book_e.PriceIndex.Best.{IsBest, empty, best, find-IsBest}
use nasdaq_itch_order_book_e.OrderBook.{Impl, level_ref, node_at, Depth, OrderView}
use nasdaq_itch_order_book_e.OrderBook.Queue.{Queue, is_empty, total, Chain, first}
use nasdaq_itch_order_book_e.OrderBook.Valid.{Queues, IsValid, level_for, index_of}
use nasdaq_itch_order_book_e.OrderBook.Queries.{
  depth, depth_of, front_order, front_of, best_bid, best_ask,
}

-- The aggregate of a queue, and its oldest order.
abbrev pub depth_for : ℕ → Queue → Option Depth
depth_for price [] = none
depth_for price (e ∷ es) =
    some
      (record { price = price; quantity = total (e ∷ es) % 2 ^ 64; order_count = length (e ∷ es) })

abbrev pub front_for : Side → ℕ → Queue → Option OrderView
front_for side price [] = none
front_for side price (e ∷ es) =
    some (record { order_id = e.id; side = side; price = price; quantity = e.quantity })

-- The answer to a question for the best price of a side.
pub data IsTop (reverse : Bool) (side : Side) (qs : Queues) (r : Option (Option ℕ)) : Type 0 where
  no_price :
      r ≡ some none
      → ((p : ℕ) → p < 2 ^ 32 → is_empty (qs (level_ref side p)) ≡ true)
      → IsTop reverse side qs r
  top :
      (p : ℕ)
      → r ≡ some (some p)
      → p < 2 ^ 32
      → is_empty (qs (level_ref side p)) ≡ false
      → ((q : ℕ) → q < 2 ^ 32 → is_empty (qs (level_ref side q)) ≡ false → Before reverse p q)
      → IsTop reverse side qs r

not-false : {b : Bool} → not b ≡ false → b ≡ true
not-false h = ground arith

not-true : {b : Bool} → not b ≡ true → b ≡ false
not-true h = ground arith

module _ {im : Impl} {qs : Queues} (v : IsValid im qs) where
  depth_at :
      (price : ℕ) (es : Queue)
      → length es < 2 ^ 64
      → (do l ← level_for price es; depth_of l) ≡ depth_for price es
  depth_at price [] h = refl
  depth_at price (e ∷ es) h = ground arith

  -- `depth` of a valid book returns the number of the level's orders and the sum of their quantities,
  -- modulo 2 ^ 64, and nothing for a level without orders.
  pub depth_lem :
      (side : Side) (price : ℕ) → depth im side price ≡ depth_for price (qs (level_ref side price))
  unfolding depth
  depth_lem side price =
      rw (v.levels (level_ref side price))
        (depth_at price (qs (level_ref side price)) (v.short (level_ref side price)))

  front_at :
      (side : Side) (price : ℕ) (es : Queue)
      → Chain (node_at im) side price none es
      → (elim (level_for price es) [ none ↦ some none | some l ↦ front_of im l ])
        ≡ some (front_for side price es)
  front_at side price [] c = refl
  front_at side price (e ∷ es) c = rw c.0

  -- `front_order` of a valid book follows no dangling pointer and returns the oldest order of the
  -- level, and nothing for a level without orders.
  pub front_order_lem :
      (side : Side) (price : ℕ)
      → front_order im side price ≡ some (front_for side price (qs (level_ref side price)))
  unfolding front_order
  front_order_lem side price =
      rw (v.levels (level_ref side price), front_order)
        (front_at side price (qs (level_ref side price)) (v.chains (level_ref side price)))

  IsTop-of :
      (reverse : Bool) (side : Side) (r : Option (Option ℕ))
      → IsBest reverse (index_of im side) r
      → IsTop reverse side qs r
  IsTop-of reverse side r (empty e none_there) =
      no_price e (λ p h. not-false (sym (v.active (level_ref side p) h) ∙ none_there p h))
  IsTop-of reverse side r (best p e small there first) =
      top p e small (not-true (sym (v.active (level_ref side p) small) ∙ there))
        (λ q h n. first q h (v.active (level_ref side q) h ∙ rw n))

  -- `best_bid` of a valid book follows no null pointer and returns the highest price with a resting
  -- buy order, and nothing if there is no such order.
  pub best_bid_lem : IsTop true buy qs (best_bid im)
  unfolding best_bid maximum
  best_bid_lem = IsTop-of true buy _ (find-IsBest true (index_of im buy) (v.indexed buy))

  -- `best_ask` of a valid book follows no null pointer and returns the lowest price with a resting
  -- sell order, and nothing if there is no such order.
  pub best_ask_lem : IsTop false sell qs (best_ask im)
  unfolding best_ask minimum
  best_ask_lem = IsTop-of false sell _ (find-IsBest false (index_of im sell) (v.indexed sell))
