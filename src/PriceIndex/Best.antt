-- ===== src/PriceIndex/Best.antt =====
-- The best price: `minimum` and `maximum` follow the masks to the least and the greatest price.
use nasdaq_itch_order_book_e.Base.{
  ℕ, ◌+◌, ◌*◌, ◌^◌, ◌<◌, ◌≡◌, sym, ap, ◌∙◌, Bool, true, false, Option, none, some, inl, inr, arith,
  Bool-cases,
}
use nasdaq_itch_order_book_e.Base.BitLaws.{or-shifted}
use mathlib.Core.Option.{some-injective}
use nasdaq_itch_order_book_e.Mask.{any}
use nasdaq_itch_order_book_e.Mask.Laws.{mem_of_any}
use nasdaq_itch_order_book_e.PriceIndex.{PriceIndex, join_bytes, find_bytes, find}
use nasdaq_itch_order_book_e.PriceIndex.Tier.{Before}
use nasdaq_itch_order_book_e.PriceIndex.Nodes.{key_of_mem, no_key}
use nasdaq_itch_order_book_e.PriceIndex.Contents.{
  Bytes, root_tier, bytes, has, IsWell, byte-mod, bytes-InRange,
}

join_bytes-sum :
    (b3 b2 b1 b0 : ℕ)
    → b2 < 256
    → b1 < 256
    → b0 < 256
    → join_bytes b3 b2 b1 b0 ≡ b3 * 2 ^ 24 + (b2 * 2 ^ 16 + (b1 * 2 ^ 8 + b0))
unfolding join_bytes
join_bytes-sum b3 b2 b1 b0 h2 h1 h0 =
    let top : b3 * 2 ^ 24 + b2 * 2 ^ 16 ≡ (b3 * 256 + b2) * 2 ^ 16 = omega arith in
    let mid : (b3 * 256 + b2) * 2 ^ 16 + b1 * 2 ^ 8 ≡ (b3 * 65536 + b2 * 256 + b1) * 2 ^ 8 =
      omega arith in
    rw
      (
        or-shifted 24 b3 (b2 * 2 ^ 16) (omega arith),
        top,
        or-shifted 16 (b3 * 256 + b2) (b1 * 2 ^ 8) (omega arith),
        mid,
        or-shifted 8 (b3 * 65536 + b2 * 256 + b1) b0 (omega arith),
      )
      (omega arith)

-- The price of in-range bytes, and back.
bytes-join :
    (k : Bytes)
    → root_tier.InRange k
    → let p = join_bytes k.0 k.1.0 k.1.1.0 k.1.1.1 in
      (p ≡ root_tier.value k) × (p < 2 ^ 32) × (bytes p ≡ k)
unfolding root_tier
bytes-join (b3, (b2, (b1, b0))) (h3, (h2, (h1, h0))) =
    let e = join_bytes-sum b3 b2 b1 b0 h2 h1 h0 in
    (rw e, rw e (omega arith), rw e (simp byte-mod (ground arith)))

value-bytes : (q : ℕ) → q < 2 ^ 32 → root_tier.value (bytes q) ≡ q
unfolding root_tier
value-bytes q h = simp byte-mod (omega arith)

-- What a scan of all tiers finds is what `find_bytes` returns.
find_bytes-scan :
    (index : PriceIndex) (reverse : Bool) (b3 b2 b1 b0 : ℕ)
    → root_tier.scan reverse index ≡ some (b3, (b2, (b1, b0)))
    → find_bytes index reverse ≡ some (join_bytes b3 b2 b1 b0)
unfolding root_tier find_bytes
find_bytes-scan index reverse b3 b2 b1 b0 e = ground arith

-- The answer of `find`: nothing if the index is empty, and else its first price in the scan's order.
pub data IsBest (reverse : Bool) (index : PriceIndex) (r : Option (Option ℕ)) : Type 0 where
  empty : r ≡ some none → ((q : ℕ) → q < 2 ^ 32 → has index q ≡ false) → IsBest reverse index r
  best :
      (p : ℕ)
      → r ≡ some (some p)
      → p < 2 ^ 32
      → has index p ≡ true
      → ((q : ℕ) → q < 2 ^ 32 → has index q ≡ true → Before reverse p q)
      → IsBest reverse index r

module _ (reverse : Bool) (index : PriceIndex) (well : IsWell index) where
  found_none : any index.children ≡ false → IsBest reverse index (find index reverse)
  unfolding find IsWell has root_tier
  found_none e = empty (rw e) (λ q h. no_key _ index well e (bytes q) (bytes-InRange q))

  found_some :
      (k : Bytes)
      → any index.children ≡ true
      → root_tier.InRange k
      → root_tier.has index k ≡ true
      → IsBest reverse index (find index reverse)
  unfolding find IsWell has
  found_some k a range member =
      let (j, e, jr, jh, _) = root_tier.scanned reverse k index well range member in
      let (value, small, back) = bytes-join j jr in
      best (join_bytes j.0 j.1.0 j.1.1.0 j.1.1.1)
        (rw (a, find_bytes-scan index reverse j.0 j.1.0 j.1.1.0 j.1.1.1 e)) small
        (ap (root_tier.has index) back ∙ jh) (λ q h m. order j e value q h m)
    where
      order :
          (j : Bytes)
          → root_tier.scan reverse index ≡ some j
          → join_bytes j.0 j.1.0 j.1.1.0 j.1.1.1 ≡ root_tier.value j
          → (q : ℕ) → q < 2 ^ 32
          → root_tier.has index (bytes q) ≡ true
          → Before reverse (join_bytes j.0 j.1.0 j.1.1.0 j.1.1.1) q
      order j e value q h m =
          let (i, e', _, _, before) =
            root_tier.scanned reverse (bytes q) index well (bytes-InRange q) m in
          let same : root_tier.value i ≡ join_bytes j.0 j.1.0 j.1.1.0 j.1.1.1 =
            ap root_tier.value (some-injective i j (sym e' ∙ e)) ∙ sym value in
          rw (same, value-bytes q h) at before

  -- The walk over the masks of a well-formed index follows no null pointer and returns the least
  -- price that the index holds, or the greatest in reverse, and nothing if the index holds none.
  pub find-IsBest : IsBest reverse index (find index reverse)
  unfolding IsWell root_tier
  find-IsBest = elim (Bool-cases (any index.children)) [
    | inl a ↦
        let (i, h, m) = mem_of_any index.children well.words a in
        let (k, r, found) = key_of_mem _ index i h well m in found_some k a r found
    | inr e ↦ found_none e
  ]
