-- ===== src/OrderBook/Adding.antt =====
-- `OrderBook::add`: the new order is the last one of its level.
use nasdaq_itch_order_book_e.Base.{
  ℕ, ◌+◌, ◌%◌, ◌^◌, ◌<◌, ◌≡◌, refl, sym, ap, ◌∙◌, Bool, true, false, none, some, [], ◌∷◌, ◌++◌, inl,
  inr, arith, ◌==◌, if◌then◌else◌, Bool-cases, length,
}
use nasdaq_itch_order_book_e.Common.{Side}
use nasdaq_itch_order_book_e.PriceIndex.Contents
use nasdaq_itch_order_book_e.OrderBook.{
  Impl, LevelRef, side_index, same_level, level_ref, node_at, level_at, put_node, new_level,
  new_order, get_or_create_level, index_price, add_node,
}
use nasdaq_itch_order_book_e.OrderBook.Queue.{
  entry, Queue, is_empty, has_id, level_of, count-is_empty,
}
use nasdaq_itch_order_book_e.OrderBook.Store.{
  node_at-put_node, node_at-put_level, level_at-put_node, level_at-put_level, indices-put_node,
  indices-put_level, same_level_self,
}
use nasdaq_itch_order_book_e.OrderBook.Appending.{Ready, append-Change}
use nasdaq_itch_order_book_e.OrderBook.Valid.{
  Queues, level_for, index_of, IsValid, Change, eq_of_same_level, unowned,
}

-- `get_or_create_level` makes the level of the queue exist, and changes nothing else.
pub record Created (im im' : Impl) (r : LevelRef) (es : Queue) : Type 0 where
  pub levels :
      (s : LevelRef)
      → level_at im' s ≡ (if same_level r s then some (level_of r.price es) else level_at im s)
  pub nodes : (j : ℕ) → node_at im' j ≡ node_at im j
  pub same_indices : im'.indices ≡ im.indices

pub created :
    (im : Impl) (r : LevelRef) (es : Queue)
    → level_at im r ≡ level_for r.price es
    → Created im (get_or_create_level im r.side r.price) r es
unfolding get_or_create_level
created im r [] h = rw h (record {
  levels = λ s. level_at-put_level im r s (new_level r.price);
  nodes = λ j. node_at-put_level im r (new_level r.price) j;
  same_indices = indices-put_level im r (new_level r.price);
})
created im r (e ∷ es) h =
    rw h (record { levels = λ s. found s; nodes = λ j. refl; same_indices = refl })
  where
    found :
        (s : LevelRef)
        → level_at im s
          ≡ (if same_level r s then some (level_of r.price (e ∷ es)) else level_at im s)
    found s = elim (Bool-cases (same_level r s)) [
      | inl t ↦ let same = eq_of_same_level r s t in rw (t, ← same) h
      | inr f ↦ rw f
    ]

module _ (im : Impl) (s : Side) (p : ℕ) where
  pub node_at-index_price :
      (b : Bool) (j : ℕ) → node_at (if b then index_price im s p else im) j ≡ node_at im j
  unfolding index_price node_at
  node_at-index_price true j = refl
  node_at-index_price false j = refl

  pub level_at-index_price :
      (b : Bool) (r : LevelRef) → level_at (if b then index_price im s p else im) r ≡ level_at im r
  unfolding index_price level_at
  level_at-index_price true r = refl
  level_at-index_price false r = refl

  pub index_price-IsWell :
      (b : Bool)
      → ((t : Side) → Contents.IsWell (index_of im t))
      → (t : Side) → Contents.IsWell (index_of (if b then index_price im s p else im) t)
  unfolding index_price
  index_price-IsWell false w t = w t
  index_price-IsWell true w t = elim (Bool-cases (side_index s == side_index t)) [
    | inl h ↦ rw h (Contents.add-IsWell (index_of im s) p (w s))
    | inr h ↦ rw h (w t)
  ]

  pub has-index_price :
      (r : LevelRef)
      → p < 2 ^ 32
      → r.price < 2 ^ 32
      → Contents.has (index_of (index_price im s p) r.side) r.price
        ≡ (if same_level (level_ref s p) r then true else Contents.has (index_of im r.side) r.price)
  unfolding index_price
  has-index_price r hp hr = elim (Bool-cases (side_index s == side_index r.side)) [
    | inl h ↦
        let e : side_index s ≡ side_index r.side = ground arith in
        let same : index_of im s ≡ index_of im r.side = ap im.indices e in
        rw (h, Contents.has-add (index_of im s) p r.price hp hr, same) (ground arith)
    | inr h ↦ rw h
  ]

module _ {im : Impl} {qs : Queues} (v : IsValid im qs) (id : ℕ) (side : Side) (price quantity : ℕ)
    (positive : 0 < quantity) (small : quantity < 2 ^ 32) (in_range : price < 2 ^ 32)
    (new : node_at im id ≡ none) (room : length (qs (level_ref side price)) + 1 < 2 ^ 64) where
  abbrev r : LevelRef
  r = level_ref side price

  abbrev es : Queue
  es = qs r

  abbrev im1 : Impl
  im1 = get_or_create_level im side price

  abbrev im2 : Impl
  im2 = put_node im1 id (new_order id side price quantity)

  abbrev im3 : Impl
  im3 = if length es % 2 ^ 64 == 0 then index_price im2 side price else im2

  was-Created : Created im im1 r es
  was-Created = created im r es (v.levels r)

  out : has_id id es ≡ false
  out = unowned v r id new

  level_before : level_at im2 r ≡ some (level_of price es)
  level_before = level_at-put_node im1 id _ r ∙ was-Created.levels r ∙ rw same_level_self

  nodes_before :
      (j : ℕ)
      → node_at im3 j ≡ (if id == j then some (new_order id side price quantity) else node_at im j)
  nodes_before j =
      node_at-index_price im2 side price (length es % 2 ^ 64 == 0) j
      ∙ node_at-put_node im1 id j (new_order id side price quantity)
      ∙ rw (was-Created.nodes j)

  levels_before :
      (s : LevelRef)
      → level_at im3 s ≡ (if same_level r s then some (level_of price es) else level_at im s)
  levels_before s =
      level_at-index_price im2 side price (length es % 2 ^ 64 == 0) s
      ∙ level_at-put_node im1 id (new_order id side price quantity) s
      ∙ was-Created.levels s

  indices_before : im2.indices ≡ im.indices
  indices_before =
      indices-put_node im1 id (new_order id side price quantity) ∙ was-Created.same_indices

  active_before :
      (s : LevelRef)
      → s.price < 2 ^ 32
      → (b : Bool) → b ≡ is_empty es
      → Contents.has (index_of (if b then index_price im2 side price else im2) s.side) s.price
        ≡ (if same_level r s then true else Contents.has (index_of im s.side) s.price)
  active_before s h true e = has-index_price im2 side price s in_range h ∙ rw indices_before
  active_before s h false e = rw indices_before (elim (Bool-cases (same_level r s)) [
    | inl t ↦
        let same = eq_of_same_level r s t in
        let held : is_empty (qs s) ≡ false = rw (← same) (sym e) in rw t (v.active s h ∙ rw held)
    | inr f ↦ rw f
  ])

  ready : Ready im im3 r es id (new_order id side price quantity)
  ready = record {
    nodes = nodes_before;
    levels = levels_before;
    indexed = λ t.
        index_price-IsWell im2 side price (length es % 2 ^ 64 == 0)
          (λ u. rw indices_before (v.indexed u)) t;
    active = λ s h. active_before s h (length es % 2 ^ 64 == 0) (count-is_empty es (v.short r));
  }

  -- Behind its guard, `add` runs to its end and puts the order last in its level.
  pub add_node-Change :
      (im' : Impl) × (add_node im id side price quantity ≡ some im')
      × Change im im' qs
          (level_ref side price)
          (qs (level_ref side price) ++ entry id quantity ∷ [])
  unfolding add_node
  add_node-Change =
      let (im', e, c) =
        append-Change v id side price quantity positive small in_range new room im3 ready in
      (im', rw level_before e, c)
