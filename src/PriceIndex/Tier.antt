-- ===== src/PriceIndex/Tier.antt =====
-- What one tier of the price index promises to the tier above it: a set of keys, the bytes that are
-- left of a price, with insertion, removal and a scan for the least or the greatest key.
use nasdaq_itch_order_book_e.Base.{
  ℕ, ◌<◌, ◌≤◌, ◌≡◌, refl, Bool, true, false, not, ◌&&◌, ◌||◌, Option, some, arith, ◌==◌,
}
use nasdaq_itch_order_book_e.Mask.{Mask, clear, any}
use nasdaq_itch_order_book_e.Mask.Laws.{
  mem, IsMask, mem-set, mem-clear, set-IsMask, clear-IsMask, empty_mask-IsMask, mem-empty_mask,
  lowest_least, highest_greatest, mem_of_any, none_of_any,
}
use nasdaq_itch_order_book_e.PriceIndex.{Third, new_third, add_price, remove_price, scan_mask}

-- The order in which a scan goes.
abbrev pub Before : Bool → ℕ → ℕ → Type 0
Before true a b = b ≤ a
Before false a b = a ≤ b

pub record Tier (C K : Type 0) : Type 1 where
  pub has : C → K → Bool
  pub same : K → K → Bool
  pub InRange : K → Type 0
  pub IsWell : C → Type 0
  pub size : ℕ
  pub value : K → ℕ
  pub fresh : C
  pub add : K → C → C
  pub remove : K → C → Option (Bool × C)
  pub scan : Bool → C → Option K
  pub fresh-IsWell : IsWell fresh
  pub has-fresh : (k : K) → has fresh k ≡ false
  pub same_self : (k : K) → same k k ≡ true
  pub value-lt : (k : K) → InRange k → value k < size
  pub add-IsWell : (k : K) (c : C) → InRange k → IsWell c → IsWell (add k c)
  pub has-add : (k j : K) (c : C) → has (add k c) j ≡ (same k j || has c j)
  -- Removal of a key that is there leaves the others, and its flag says whether there are any.
  pub removed :
      (k : K) (c : C)
      → InRange k
      → IsWell c
      → has c k ≡ true
      → (stay : Bool) × (c' : C) × (remove k c ≡ some (stay, c'))
        × IsWell c'
        × ((j : K) → InRange j → has c' j ≡ (not (same k j) && has c j))
        × (stay ≡ true → (j : K) × InRange j × (has c' j ≡ true))
        × (stay ≡ false → (j : K) → InRange j → has c' j ≡ false)
  -- The scan finds a key, and no key comes before it.
  pub scanned :
      (reverse : Bool) (k : K) (c : C)
      → IsWell c
      → InRange k
      → has c k ≡ true
      → (j : K) × (scan reverse c ≡ some j)
        × InRange j
        × (has c j ≡ true)
        × Before reverse (value j) (value k)

pub scan_mask-lem :
    (reverse : Bool) (k : ℕ) (mask : Mask)
    → IsMask mask
    → k < 256
    → mem mask k ≡ true
    → (j : ℕ) × (scan_mask reverse mask ≡ j) × (j < 256) × (mem mask j ≡ true) × Before reverse j k
scan_mask-lem true k mask h r m = let l = highest_greatest mask h k r m in (_, refl, l.2, l.0, l.1)
scan_mask-lem false k mask h r m =
    let l = lowest_least mask h k r m in (_, refl, omega arith, l.0, l.1)

pub scan_price-lem :
    (reverse : Bool) (k : ℕ) (third : Third)
    → IsMask third.prices
    → k < 256
    → mem third.prices k ≡ true
    → (j : ℕ) × (some (scan_mask reverse third.prices) ≡ some j)
      × (j < 256)
      × (mem third.prices j ≡ true)
      × Before reverse j k
scan_price-lem reverse k third h r m =
    let (j, e, small, member, before) = scan_mask-lem reverse k third.prices h r m in
    (j, rw e, small, member, before)

pub remove_price-lem :
    (k : ℕ) (third : Third)
    → k < 256
    → IsMask third.prices
    → mem third.prices k ≡ true
    → (stay : Bool) × (c' : Third) × (remove_price third k ≡ some (stay, c'))
      × IsMask c'.prices
      × ((j : ℕ) → j < 256 → mem c'.prices j ≡ (not (k == j) && mem third.prices j))
      × (stay ≡ true → (j : ℕ) × (j < 256) × (mem c'.prices j ≡ true))
      × (stay ≡ false → (j : ℕ) → j < 256 → mem c'.prices j ≡ false)
unfolding remove_price
remove_price-lem k third r h m =
    let h' = clear-IsMask third.prices k h in
    (
      any (clear third.prices k),
      record { prices = clear third.prices k },
      refl,
      h',
      λ j s. mem-clear third.prices k j h,
      λ a. mem_of_any (clear third.prices k) h' a,
      λ a j s. none_of_any (clear third.prices k) j s a,
    )

pub ==_self : (b : ℕ) → (b == b) ≡ true
==_self b = ground arith

-- The lowest tier: the last byte of each price, in one mask.
unfoldable pub third_tier : Tier Third ℕ
unfolding add_price
third_tier = record {
  has = λ third b. mem third.prices b;
  same = λ b c. b == c;
  InRange = λ b. b < 256;
  IsWell = λ third. IsMask third.prices;
  size = 256;
  value = λ b. b;
  fresh = new_third;
  add = λ b third. add_price third b;
  remove = λ b third. remove_price third b;
  scan = λ reverse third. some (scan_mask reverse third.prices);
  fresh-IsWell = empty_mask-IsMask;
  has-fresh = λ b. mem-empty_mask b;
  same_self = ==_self;
  value-lt = λ b h. h;
  add-IsWell = λ b third r h. set-IsMask third.prices b h;
  has-add = λ b c third. mem-set third.prices b c;
  removed = remove_price-lem;
  scanned = λ reverse k third h r m. scan_price-lem reverse k third h r m;
}
