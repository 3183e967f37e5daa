-- ===== src/OrderBook/Removing.antt =====
-- `Impl::erase_node`: the order leaves its level, and an empty level leaves the book.
use nasdaq_itch_order_book_e.Base.{
  ℕ, ◌^◌, ◌<◌, ◌≡◌, refl, ap, ◌∙◌, true, false, not, ◌&&◌, ◌||◌, none, some, [], ◌∷◌, ◌++◌, inl,
  inr, arith, ◌==◌, if◌then◌else◌, Bool-cases, length, length-append, update,
}
use mathlib.Core.Option
use nasdaq_itch_order_book_e.Common.{Side}
use nasdaq_itch_order_book_e.PriceIndex.{PriceIndex}
use nasdaq_itch_order_book_e.PriceIndex.Contents
use nasdaq_itch_order_book_e.OrderBook.{
  Impl, LevelRef, side_index, same_level, node_at, level_at, put_level, write_level, detach,
  unindex_price, erase_level, erase_order, drop_level, erase_node,
}
use nasdaq_itch_order_book_e.OrderBook.Queue.{
  Entry, Queue, is_empty, has_id, Distinct, level_of, Chain, first, last_or, points, has_id-append,
  points-last_or, points-first, is_empty-mid, count-is_empty,
}
use nasdaq_itch_order_book_e.OrderBook.Links.{
  eq_self, with_next, with_previous, Distinct-remove, unlink,
}
use nasdaq_itch_order_book_e.OrderBook.Store.{
  level_at-erase_level, node_at-erase_order, same_level_self,
}
use nasdaq_itch_order_book_e.OrderBook.Unlinking.{
  taken, at_node, Unlinked, detach-Unlinked, Sized-removed,
}
use nasdaq_itch_order_book_e.OrderBook.Valid.{
  Queues, level_for, Sized, index_of, IsValid, Change, eq_of_same_level,
}

level_at-erase_order :
    (im : Impl) (id : ℕ) (s : LevelRef) → level_at (erase_order im id) s ≡ level_at im s
unfolding level_at erase_order
level_at-erase_order im id s = refl

level_at-indices :
    (im : Impl) (f : ℕ → PriceIndex) (s : LevelRef)
    → level_at (record im { indices = f }) s ≡ level_at im s
unfolding level_at
level_at-indices im f s = refl

-- What dropping an empty level leaves behind.
pub record Dropped (im im' : Impl) (r : LevelRef) (es : Queue) : Type 0 where
  pub nodes : (j : ℕ) → node_at im' j ≡ node_at im j
  pub level : level_at im' r ≡ level_for r.price es
  pub levels : (s : LevelRef) → same_level r s ≡ false → level_at im' s ≡ level_at im s
  pub indexed : (s : Side) → Contents.IsWell (index_of im' s)
  pub active :
      (s : LevelRef)
      → s.price < 2 ^ 32
      → Contents.has (index_of im' s.side) s.price
        ≡ (if same_level r s then not (is_empty es) else Contents.has (index_of im s.side) s.price)

module _ (im : Impl) (r : LevelRef) (small : r.price < 2 ^ 32)
    (indexed : (s : Side) → Contents.IsWell (index_of im s))
    (held : Contents.has (index_of im r.side) r.price ≡ true) where
  pub drop-Dropped :
      (es : Queue)
      → level_at im r ≡ some (level_of r.price es)
      → (im' : Impl) × ((if is_empty es then drop_level im r.side r.price else some im) ≡ some im')
        × Dropped im im' r es
  unfolding drop_level unindex_price erase_level node_at
  drop-Dropped (e ∷ es) h = (
    im,
    refl,
    record {
      nodes = λ j. refl;
      level = h;
      levels = λ s d. refl;
      indexed = indexed;
      active = λ s hs. kept s;
    },
  )
    where
      kept :
          (s : LevelRef)
          → Contents.has (index_of im s.side) s.price
            ≡ (if same_level r s then true else Contents.has (index_of im s.side) s.price)
      kept s = elim (Bool-cases (same_level r s)) [
        | inl t ↦ let same = eq_of_same_level r s t in rw (t, ← same) held
        | inr f ↦ rw f
      ]
  drop-Dropped [] h =
      let (index, e, well, law) =
        Contents.remove-lem (index_of im r.side) r.price small (indexed r.side) held in
      let im1 : Impl = record im { indices = update im.indices (side_index r.side) index } in
      (
        erase_level im1 r.side r.price,
        rw e,
        record {
          nodes = λ j. refl;
          level = level_at-erase_level im1 r.side r.price r ∙ rw (same_level_self r);
          levels =
              λ s d. level_at-erase_level im1 r.side r.price s ∙ rw d (level_at-indices im _ s);
          indexed = λ s. well_after index well s;
          active = λ s hs. has_after index law s hs;
        },
      )
    where
      well_after :
          (index : PriceIndex)
          → Contents.IsWell index
          → (s : Side)
          → Contents.IsWell (update im.indices (side_index r.side) index (side_index s))
      well_after index well s = elim (Bool-cases (side_index r.side == side_index s)) [
        | inl t ↦ rw t well
        | inr f ↦ rw f (indexed s)
      ]

      has_after :
          (index : PriceIndex)
          → ((q : ℕ)
              → q < 2 ^ 32
              → Contents.has index q ≡ (not (r.price == q) && Contents.has (index_of im r.side) q))
          → (s : LevelRef) → s.price < 2 ^ 32
          → Contents.has (update im.indices (side_index r.side) index (side_index s.side)) s.price
            ≡ (if same_level r s then false else Contents.has (index_of im s.side) s.price)
      has_after index law s hs = elim (Bool-cases (side_index r.side == side_index s.side)) [
        | inl t ↦
            let e : side_index r.side ≡ side_index s.side = ground arith in
            let same : index_of im r.side ≡ index_of im s.side = ap im.indices e in
            rw (t, law s.price hs, same) (ground arith)
        | inr f ↦ rw f
      ]

module _ {im : Impl} {qs : Queues} (v : IsValid im qs) (r : LevelRef) (xs : Queue) (e : Entry)
    (bs : Queue) (whole : qs r ≡ xs ++ e ∷ bs) where
  distinct : Distinct (xs ++ e ∷ bs)
  distinct = rw (← whole) (v.distinct r)

  chain : Chain (node_at im) r.side r.price none (xs ++ e ∷ bs)
  chain = rw (← whole) (v.chains r)

  level_before : level_at im r ≡ some (level_of r.price (xs ++ e ∷ bs))
  level_before = v.levels r ∙ rw (whole, is_empty-mid)

  run :
      (im' : Impl) × (detach (put_level im r (taken v r xs e bs whole)) r e.id ≡ some im')
      × Unlinked im im im' r xs e bs
  run = detach-Unlinked v r xs e bs whole im (λ j. refl)

  im2 : Impl
  im2 = run.0

  detached : Unlinked im im im2 r xs e bs
  unfolding im2
  detached = run.2

  rest : Queue
  rest = xs ++ bs

  level_detached : level_at im2 r ≡ some (level_of r.price rest)
  unfolding rest
  level_detached = detached.level

  indices_detached : im2.indices ≡ im.indices
  indices_detached = detached.same_indices

  in_range : r.price < 2 ^ 32
  in_range = v.priced r (rw (whole, is_empty-mid))

  held : Contents.has (index_of im2 r.side) r.price ≡ true
  held = rw indices_detached (v.active r in_range ∙ rw (whole, is_empty-mid))

  dropping :
      (im' : Impl) × ((if is_empty rest then drop_level im2 r.side r.price else some im2)
        ≡ some im')
      × Dropped im2 im' r rest
  dropping =
      drop-Dropped im2 r in_range (λ s. rw indices_detached (v.indexed s)) held rest level_detached

  rest-short : length rest < 2 ^ 64
  unfolding rest
  rest-short =
      let all : length (xs ++ e ∷ bs) < 2 ^ 64 = rw (← whole) (v.short r) in
      omega (arith, length-append xs (e ∷ bs), length-append xs bs)

  run_from : detach (put_level im r (taken v r xs e bs whole)) r e.id ≡ some im2
  unfolding im2
  run_from = run.1

  erase_node-run : erase_node im e.id ≡ some (erase_order dropping.0 e.id)
  unfolding erase_node write_level
  erase_node-run = rw (
    (at_node v r xs e bs whole).0,
    level_before,
    run_from,
    level_detached,
    count-is_empty rest rest-short,
    dropping.1,
  )

  im4 : Impl
  im4 = erase_order dropping.0 e.id

  node_erased : node_at im4 e.id ≡ none
  unfolding im4
  node_erased = node_at-erase_order dropping.0 e.id e.id ∙ rw (eq_self e.id)

  nodes_after :
      (j : ℕ)
      → (e.id == j) ≡ false
      → node_at im4 j ≡ (
          if points (first bs) j
          then Option.map (with_previous (last_or none xs)) (node_at im j)
          else if points (last_or none xs) j
          then Option.map (with_next (first bs)) (node_at im j)
          else node_at im j)
  unfolding im4
  nodes_after j d =
      node_at-erase_order dropping.0 e.id j ∙ rw d (dropping.2.nodes j ∙ detached.nodes j d)

  Chain-after : Chain (node_at im4) r.side r.price none rest
  unfolding rest
  Chain-after =
      unlink r.side r.price (node_at im) (node_at im4) none xs e bs distinct (λ id h. refl)
        nodes_after chain

  has-rest : (j : ℕ) → has_id j rest ≡ (has_id j xs || has_id j bs)
  unfolding rest
  has-rest j = has_id-append j xs bs

  has-whole : (j : ℕ) → has_id j (qs r) ≡ (has_id j xs || ((e.id == j) || has_id j bs))
  has-whole j = rw whole (has_id-append j xs (e ∷ bs))

  others_after : (j : ℕ) → has_id j (qs r) ≡ false → node_at im4 j ≡ node_at im j
  others_after j h =
      let no_front : has_id j xs ≡ false = ground (arith, has-whole j) in
      let no_back : has_id j bs ≡ false = ground (arith, has-whole j) in
      let ne : (e.id == j) ≡ false = ground (arith, has-whole j) in
      nodes_after j ne ∙ rw (points-first bs j no_back, points-last_or none xs j refl no_front)

  gone_after : (j : ℕ) → has_id j (qs r) ≡ true → has_id j rest ≡ false → node_at im4 j ≡ none
  gone_after j a b =
      let t : (e.id == j) ≡ true = ground (arith, has-whole j, has-rest j) in
      let same : e.id ≡ j = ground arith in rw (← same) node_erased

  level_after : level_at im4 r ≡ level_for r.price rest
  unfolding im4
  level_after = level_at-erase_order dropping.0 e.id r ∙ dropping.2.level

  levels_after : (s : LevelRef) → same_level r s ≡ false → level_at im4 s ≡ level_at im s
  unfolding im4
  levels_after s d =
      level_at-erase_order dropping.0 e.id s ∙ dropping.2.levels s d ∙ detached.levels s d

  indices_after : im4.indices ≡ dropping.0.indices
  unfolding im4 erase_order
  indices_after = refl

  rest-Distinct : Distinct rest
  unfolding rest
  rest-Distinct = (Distinct-remove xs e bs distinct).0

  rest-Sized : Sized rest
  unfolding rest
  rest-Sized = Sized-removed xs e bs (rw (← whole) (v.sized r))

  removal-Change : Change im im4 qs r rest
  removal-Change = record {
    level = level_after;
    chain = Chain-after;
    distinct = rest-Distinct;
    sized = rest-Sized;
    short = rest-short;
    priced = λ _. in_range;
    other_levels = levels_after;
    other_nodes = λ j a b. others_after j a;
    arrived = λ j h. inl (ground (arith, has-whole j, has-rest j));
    gone = gone_after;
    indexed = λ s. rw indices_after (dropping.2.indexed s);
    active = λ s h. rw indices_after (dropping.2.active s h ∙ rw indices_detached);
  }

  -- `erase_node` runs to its end and takes exactly this order out of its level.
  pub erase_node-Change :
      (im' : Impl) × (erase_node im e.id ≡ some im') × Change im im' qs r (xs ++ bs)
  unfolding im4 rest
  erase_node-Change = (im4, erase_node-run, removal-Change)

  -- The same, with the nodes that are left.
  pub erase_node-nodes :
      (im' : Impl) × (erase_node im e.id ≡ some im')
      × Change im im' qs r (xs ++ bs)
      × (node_at im' e.id ≡ none)
      × ((j : ℕ)
          → (e.id == j) ≡ false
          → node_at im' j ≡ (
              if points (first bs) j
              then Option.map (with_previous (last_or none xs)) (node_at im j)
              else if points (last_or none xs) j
              then Option.map (with_next (first bs)) (node_at im j)
              else node_at im j))
  unfolding im4 rest
  erase_node-nodes = (im4, erase_node-run, removal-Change, node_erased, nodes_after)
