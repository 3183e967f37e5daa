-- ===== src/PriceIndex/Contents.antt =====
-- The price index as a set of prices: what `add` and `remove` do to it.
use nasdaq_itch_order_book_e.Base.{
  ℕ, ◌/◌, ◌%◌, ◌^◌, ◌<◌, ◌≡◌, refl, Bool, true, false, not, ◌&&◌, ◌||◌, some, arith, ◌==◌,
}
use nasdaq_itch_order_book_e.Base.BitLaws.{and-ones}
use nasdaq_itch_order_book_e.PriceIndex.{PriceIndex, byte, new_node, add, remove}
use nasdaq_itch_order_book_e.PriceIndex.Tier.{Tier, third_tier}
use nasdaq_itch_order_book_e.PriceIndex.Nodes.{node_tier}

abbrev pub Bytes : Type 0
Bytes = ℕ × (ℕ × (ℕ × ℕ))

unfoldable pub root_tier : Tier PriceIndex Bytes
unfolding node_tier third_tier
root_tier = node_tier (node_tier (node_tier third_tier))

abbrev pub bytes : ℕ → Bytes
bytes p = (byte p 24, (byte p 16, (byte p 8, byte p 0)))

-- The prices that the index holds.
unfoldable pub has : PriceIndex → ℕ → Bool
unfolding root_tier byte
has index price = root_tier.has index (bytes price)

-- The masks mark exactly the children that there are, and no child is empty.
unfoldable pub IsWell : PriceIndex → Type 0
unfolding root_tier
IsWell index = root_tier.IsWell index

pub byte-mod : (p k : ℕ) → byte p k ≡ p / 2 ^ k % 256
unfolding byte
byte-mod p k = rw (and-ones 8 (p / 2 ^ k)) (omega arith)

pub byte-lt : (p k : ℕ) → byte p k < 256
byte-lt p k = rw byte-mod (omega arith)

pub bytes-InRange : (p : ℕ) → root_tier.InRange (bytes p)
unfolding root_tier
bytes-InRange p = (byte-lt p 24, (byte-lt p 16, (byte-lt p 8, byte-lt p 0)))

four_digits :
    (p q : ℕ)
    → p < 2 ^ 32
    → q < 2 ^ 32
    → ((p / 2 ^ 24 % 256 == q / 2 ^ 24 % 256)
        && ((p / 2 ^ 16 % 256 == q / 2 ^ 16 % 256)
            && ((p / 2 ^ 8 % 256 == q / 2 ^ 8 % 256) && (p / 2 ^ 0 % 256 == q / 2 ^ 0 % 256))))
      ≡ (p == q)
four_digits p q hp hq = ground arith

four_bytes :
    (p q : ℕ)
    → p < 2 ^ 32
    → q < 2 ^ 32
    → ((byte p 24 == byte q 24)
        && ((byte p 16 == byte q 16) && ((byte p 8 == byte q 8) && (byte p 0 == byte q 0))))
      ≡ (p == q)
four_bytes p q hp hq = simp byte-mod (four_digits p q hp hq)

-- Prices with the same bytes are the same.
same-bytes : (p q : ℕ) → p < 2 ^ 32 → q < 2 ^ 32 → root_tier.same (bytes p) (bytes q) ≡ (p == q)
unfolding root_tier
same-bytes p q hp hq = four_bytes p q hp hq

pub new_node-IsWell : IsWell new_node
unfolding IsWell
new_node-IsWell = root_tier.fresh-IsWell

pub has-new_node : (p : ℕ) → has new_node p ≡ false
unfolding has
has-new_node p = refl

add-bytes : (index : PriceIndex) (p : ℕ) → add index p ≡ root_tier.add (bytes p) index
unfolding add root_tier
add-bytes index p = refl

-- Adding a price keeps the index well formed.
pub add-IsWell : (index : PriceIndex) (p : ℕ) → IsWell index → IsWell (add index p)
unfolding IsWell
add-IsWell index p w = rw add-bytes (root_tier.add-IsWell (bytes p) index (bytes-InRange p) w)

-- After `add` of a 32-bit price the index holds that price and the 32-bit prices that it held.
pub has-add :
    (index : PriceIndex) (p q : ℕ)
    → p < 2 ^ 32
    → q < 2 ^ 32
    → has (add index p) q ≡ ((p == q) || has index q)
unfolding has
has-add index p q hp hq =
    rw (add-bytes, ← same-bytes p q hp hq) (root_tier.has-add (bytes p) (bytes q) index)

-- `remove` of a 32-bit price that a well-formed index holds follows no null pointer, and the index
-- that is left is well formed and holds just the other prices of 32 bits.
pub remove-lem :
    (index : PriceIndex) (p : ℕ)
    → p < 2 ^ 32
    → IsWell index
    → has index p ≡ true
    → (index' : PriceIndex) × (remove index p ≡ some index')
      × IsWell index'
      × ((q : ℕ) → q < 2 ^ 32 → has index' q ≡ (not (p == q) && has index q))
unfolding has remove IsWell root_tier
remove-lem index p hp w h =
    let (stay, index', e, w', law, _, _) =
      root_tier.removed (bytes p) index (bytes-InRange p) w h in
    (index', rw e, w', λ q hq. rw (← same-bytes p q hp hq) (law (bytes q) (bytes-InRange q)))
