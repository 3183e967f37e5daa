-- ===== src/PriceIndex.antt =====
-- `PriceIndex` of src/book/order_book.cpp: a sparse trie over the four bytes of a price, with an
-- occupancy mask at each tier. A null pointer that the source would follow is `none`.
pub mod Tier
pub mod Nodes
pub mod Contents
pub mod Best
use nasdaq_itch_order_book_e.Base.{
  ℕ, ◌*◌, ◌/◌, ◌%◌, ◌^◌, bit_and, bit_or, Bool, true, false, Option, none, some, ◌>>=◌,
  if◌then◌else◌, update,
}
use nasdaq_itch_order_book_e.Mask.{Mask, empty_mask, set, clear, any, lowest, highest}

-- `static_cast<std::uint8_t>((price >> shift) & 0xff)`
unfoldable pub byte : ℕ → ℕ → ℕ
byte price shift = bit_and (price / 2 ^ shift) 0xff % 256

-- `struct Third`
pub record Third : Type 0 where
  pub prices : Mask

-- `struct Second`, `struct First` and the class itself, whose `root_` and `first_` are the mask and
-- the children of the top tier.
pub record Node (C : Type 0) : Type 0 where
  pub children : Mask
  pub child : ℕ → Option C

abbrev pub Second : Type 0
Second = Node Third

abbrev pub First : Type 0
First = Node Second

abbrev pub PriceIndex : Type 0
PriceIndex = Node First

abbrev pub new_third : Third
new_third = record { prices = empty_mask }

-- Also what `reset` leaves behind.
abbrev pub new_node : {C : Type 0} → Node C
new_node = record { children = empty_mask; child = λ b. none }

abbrev pub or_new : {C : Type 0} → Option C → C → C
or_new none fresh = fresh
or_new (some c) fresh = c

-- Go down to the child of a byte, allocated first if it is missing, and mark it in the mask.
unfoldable pub add_child : {C : Type 0} → Node C → ℕ → C → (C → C) → Node C
add_child node b fresh go = record {
  children = set node.children b;
  child = update node.child b (some (go (or_new (node.child b) fresh)));
}

unfoldable pub add_price : Third → ℕ → Third
add_price third b0 = record { prices = set third.prices b0 }

unfoldable pub add : PriceIndex → ℕ → PriceIndex
unfolding byte add_child add_price
add index price = add_child index (byte price 24) new_node λ first.
    add_child first (byte price 16) new_node
      λ second. add_child second (byte price 8) new_third λ third. add_price third (byte price 0)

-- Go down to the child of a byte, and drop it if nothing is left below it. The flag says that the
-- function has returned: it comes from the tier below, or from this tier's own mask.
unfoldable pub remove_child :
    {C : Type 0} → Node C → ℕ → (C → Option (Bool × C)) → Option (Bool × Node C)
remove_child {C} node b go = do
  c ← node.child b
  (returned, c') ← go c
  let kept : Node C = record node { child = update node.child b (some c') }
  let left = clear node.children b
  let dropped : Node C = record { children = left; child = update node.child b none }
  if returned then some (true, kept) else some (any left, dropped)

unfoldable pub remove_price : Third → ℕ → Option (Bool × Third)
remove_price third b0 =
    let prices = clear third.prices b0 in some (any prices, record { prices = prices })

unfoldable pub remove : PriceIndex → ℕ → Option PriceIndex
unfolding byte remove_child remove_price
remove index price = do
  (_, index') ← remove_child index (byte price 24) λ first.
      remove_child first (byte price 16)
        λ second. remove_child second (byte price 8) λ third. remove_price third (byte price 0)
  some index'

abbrev pub scan_mask : Bool → Mask → ℕ
scan_mask reverse mask = if reverse then highest mask else lowest mask

-- The price of four bytes, `(b3 << 24) | (b2 << 16) | (b1 << 8) | b0`.
unfoldable pub join_bytes : ℕ → ℕ → ℕ → ℕ → ℕ
join_bytes b3 b2 b1 b0 = bit_or (bit_or (bit_or (b3 * 2 ^ 24) (b2 * 2 ^ 16)) (b1 * 2 ^ 8)) b0

unfoldable pub find_bytes : PriceIndex → Bool → Option ℕ
unfolding join_bytes
find_bytes index reverse = do
  let b3 = scan_mask reverse index.children
  first ← index.child b3
  let b2 = scan_mask reverse first.children
  second ← first.child b2
  let b1 = scan_mask reverse second.children
  third ← second.child b1
  let b0 = scan_mask reverse third.prices
  some (join_bytes b3 b2 b1 b0)

unfoldable pub find : PriceIndex → Bool → Option (Option ℕ)
unfolding find_bytes
find index reverse =
    if any index.children
    then (do price ← find_bytes index reverse; some (some price))
    else some none

unfoldable pub minimum : PriceIndex → Option (Option ℕ)
unfolding find
minimum index = find index false

unfoldable pub maximum : PriceIndex → Option (Option ℕ)
unfolding find
maximum index = find index true
