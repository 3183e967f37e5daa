-- ===== src/OrderBook/Requeue.antt =====
-- `OrderBook::modify` where the order loses its place: it leaves its level and goes to the tail of
-- the level of the new price, which may be the same one.
use nasdaq_itch_order_book_e.Base.{
  ℕ, ◌+◌, ◌%◌, ◌^◌, ◌<◌, ◌≡◌, refl, sym, ap, ◌∙◌, Bool, true, false, not, ◌&&◌, Option, none, some,
  [], ◌∷◌, ◌++◌, inl, inr, arith, ◌==◌, if◌then◌else◌, Bool-cases, length, length-append,
}
use mathlib.Core.Option
use nasdaq_itch_order_book_e.Common.{Side}
use nasdaq_itch_order_book_e.PriceIndex.Contents
use nasdaq_itch_order_book_e.OrderBook.{
  Impl, OrderNode, LevelRef, same_level, level_ref, node_at, level_at, put_node, put_level,
  write_node, write_level, erase_node, new_order, get_or_create_level, index_price, detach,
  drop_level, append, requeue,
}
use nasdaq_itch_order_book_e.OrderBook.Queue.{
  entry, Queue, is_empty, level_of, is_empty-mid, count-is_empty, points, first, last_or,
}
use nasdaq_itch_order_book_e.OrderBook.Store.{
  node_at-put_node, level_at-put_node, indices-put_node, same_level_self,
}
use nasdaq_itch_order_book_e.OrderBook.Links.{with_next, with_previous}
use nasdaq_itch_order_book_e.OrderBook.Appending.{Ready, append-Change}
use nasdaq_itch_order_book_e.OrderBook.Adding.{
  Created, created, node_at-index_price, level_at-index_price, index_price-IsWell, has-index_price,
}
use nasdaq_itch_order_book_e.OrderBook.Unlinking.{taken, Unlinked, detach-Unlinked}
use nasdaq_itch_order_book_e.OrderBook.Removing.{Dropped, drop-Dropped, erase_node-nodes}
use nasdaq_itch_order_book_e.OrderBook.Valid.{
  Queues, set_queue, level_for, index_of, IsValid, Change, Change-IsValid, eq_of_same_level,
}
use nasdaq_itch_order_book_e.OrderBook.Operations.{Held, held, ref_of}

same_level_comm : (r s : LevelRef) → same_level r s ≡ same_level s r
same_level_comm r s = ground arith

same_level_left : (r r' s : LevelRef) → same_level r r' ≡ true → same_level r' s ≡ same_level r s
same_level_left r r' s h = ground arith

module _ {im : Impl} {qs : Queues} (v : IsValid im qs) (id : ℕ) (n : OrderNode)
    (found : node_at im id ≡ some n) (new_price new_quantity : ℕ)
    (in_range : new_price < 2 ^ 32) where
  abbrev h : Held qs id n
  h = held v id n found

  abbrev old : LevelRef
  old = ref_of n

  abbrev new : LevelRef
  new = level_ref n.side new_price

  abbrev rest : Queue
  rest = h.front ++ h.back

  -- The queues without the order.
  abbrev qs1 : Queues
  qs1 = set_queue qs old rest

  abbrev im1 : Impl
  im1 = get_or_create_level im n.side new_price

  abbrev activating : Bool
  activating = not (same_level new old) && (length (qs new) % 2 ^ 64 == 0)

  abbrev im2 : Impl
  im2 = if activating then index_price im1 n.side new_price else im1

  was-Created : Created im im1 new (qs new)
  was-Created = created im new (qs new) (v.levels new)

  nodes2 : (j : ℕ) → node_at im2 j ≡ node_at im j
  nodes2 j = node_at-index_price im1 n.side new_price activating j ∙ was-Created.nodes j

  levels2 :
      (s : LevelRef)
      → level_at im2 s
        ≡ (if same_level new s then some (level_of new_price (qs new)) else level_at im s)
  levels2 s = level_at-index_price im1 n.side new_price activating s ∙ was-Created.levels s

  indexed2 : (t : Side) → Contents.IsWell (index_of im2 t)
  indexed2 t =
      index_price-IsWell im1 n.side new_price activating
        (λ u. rw was-Created.same_indices (v.indexed u)) t

  old_full : is_empty (qs old) ≡ false
  old_full = rw (h.whole, is_empty-mid)

  -- A level that is not activated has an order.
  not_activated : activating ≡ false → is_empty (qs new) ≡ false
  not_activated f = elim (Bool-cases (same_level new old)) [
    | inl t ↦ let same = eq_of_same_level new old t in rw same old_full
    | inr d ↦ let c = count-is_empty (qs new) (v.short new) in ground (arith, c)
  ]

  active2 :
      (s : LevelRef)
      → s.price < 2 ^ 32
      → Contents.has (index_of im2 s.side) s.price
        ≡ (if same_level new s then true else Contents.has (index_of im s.side) s.price)
  active2 s small = elim (Bool-cases activating) [
    | inl t ↦
        rw t (has-index_price im1 n.side new_price s in_range small ∙ rw was-Created.same_indices)
    | inr f ↦
        rw (f, was-Created.same_indices)
          (elim (Bool-cases (same_level new s)) [
            | inl t ↦
                let same = eq_of_same_level new s t in
                rw (t, ← same) (v.active new in_range ∙ rw (not_activated f))
            | inr d ↦ rw d
          ])
  ]

  level2_old : level_at im2 old ≡ some (level_of n.price (h.front ++ entry id n.quantity ∷ h.back))
  level2_old = levels2 old ∙ elim (Bool-cases (same_level new old)) [
    | inl t ↦
        let same = eq_of_same_level new old t in
        rw t (
          ap (λ (r : LevelRef). some (level_of r.price (qs r))) same
          ∙ ap (λ (es : Queue). some (level_of n.price es)) h.whole)
    | inr f ↦ rw f (v.levels old ∙ rw (h.whole, is_empty-mid))
  ]

  leaving :
      (im' : Impl) × (detach
          (put_level im2 old (taken v old h.front (entry id n.quantity) h.back h.whole))
          old
          id
        ≡ some im')
      × Unlinked im im2 im' old h.front (entry id n.quantity) h.back
  leaving = detach-Unlinked v old h.front (entry id n.quantity) h.back h.whole im2 nodes2

  im4 : Impl
  im4 = leaving.0

  left : Unlinked im im2 im4 old h.front (entry id n.quantity) h.back
  unfolding im4
  left = leaving.2

  levels4 :
      (s : LevelRef)
      → same_level old s ≡ false
      → same_level new s ≡ false
      → level_at im4 s ≡ level_at im s
  levels4 s d d' = left.levels s d ∙ levels2 s ∙ rw d'

  -- The book once the old level is gone if it is empty and not the new one.
  record Settled (im5 : Impl) : Type 0 where
    nodes : (j : ℕ) → node_at im5 j ≡ node_at im4 j
    levels :
        (s : LevelRef)
        → level_at im5 s ≡ (
            if same_level new s
            then some (level_of new_price (qs1 new))
            else level_for s.price (qs1 s))
    indexed : (t : Side) → Contents.IsWell (index_of im5 t)
    active :
        (s : LevelRef)
        → s.price < 2 ^ 32
        → Contents.has (index_of im5 s.side) s.price
          ≡ (if same_level new s then true else not (is_empty (qs1 s)))

  active4 :
      (s : LevelRef)
      → s.price < 2 ^ 32
      → Contents.has (index_of im4 s.side) s.price
        ≡ (if same_level new s then true else not (is_empty (qs s)))
  active4 s small = rw left.same_indices (active2 s small ∙ rw (v.active s small))

  settle_same : same_level old new ≡ true → Settled im4
  settle_same t =
      let price : new_price ≡ n.price = ground arith in
      record {
        nodes = λ j. refl;
        levels = λ s. elim (Bool-cases (same_level old s)) [
          | inl a ↦
              let here = eq_of_same_level old s a in
              let a' = same_level_left old new s t ∙ a in
              rw (a', t)
                (ap (level_at im4) (sym here)
                  ∙ left.level
                  ∙ ap (λ (p : ℕ). some (level_of p rest)) (sym price))
          | inr d ↦
              let d' = same_level_left old new s t ∙ d in rw (d', d) (levels4 s d d' ∙ v.levels s)
        ];
        indexed = λ u. rw left.same_indices (indexed2 u);
        active = λ s small. active4 s small ∙ elim (Bool-cases (same_level old s)) [
          | inl a ↦ let a' = same_level_left old new s t ∙ a in rw a'
          | inr d ↦ let d' = same_level_left old new s t ∙ d in rw (d, d')
        ];
      }

  module _ (t : same_level old new ≡ false) where
    old_active : Contents.has (index_of im4 old.side) old.price ≡ true
    old_active =
        let t' = same_level_comm new old ∙ t in
        active4 old (v.priced old old_full) ∙ rw (t', old_full)

    dropping :
        (im' : Impl) × ((if is_empty rest then drop_level im4 old.side old.price else some im4)
          ≡ some im')
        × Dropped im4 im' old rest
    dropping =
        drop-Dropped im4 old (v.priced old old_full) (λ u. rw left.same_indices (indexed2 u))
          old_active rest left.level

    settle_dropped : Settled dropping.0
    settle_dropped = record {
      nodes = dropping.2.nodes;
      levels = λ s. elim (Bool-cases (same_level old s)) [
        | inl a ↦
            let here = eq_of_same_level old s a in
            let d' : same_level new s ≡ false =
              same_level_comm new s ∙ same_level_left old s new a ∙ t in
            rw (d', a)
              (ap (level_at dropping.0) (sym here)
                ∙ dropping.2.level
                ∙ ap (λ (r : LevelRef). level_for r.price rest) here)
        | inr d ↦
            dropping.2.levels s d
            ∙ left.levels s d
            ∙ levels2 s
            ∙ rw (t, d)
                (elim (Bool-cases (same_level new s)) [ inl b ↦ rw b | inr b ↦ rw b (v.levels s) ])
      ];
      indexed = dropping.2.indexed;
      active = λ s small.
          dropping.2.active s small
          ∙ rw (active4 s small) (elim (Bool-cases (same_level old s)) [
            | inl a ↦
                let d' : same_level new s ≡ false =
                  same_level_comm new s ∙ same_level_left old s new a ∙ t in
                rw (d', a)
            | inr d ↦ rw d
          ]);
    }

  rest-short : length rest < 2 ^ 64
  rest-short =
      let all : length (h.front ++ entry id n.quantity ∷ h.back) < 2 ^ 64 =
        rw (← h.whole) (v.short old) in
      omega
        (arith, length-append h.front (entry id n.quantity ∷ h.back), length-append h.front h.back)

  -- With different levels, the test for dropping is whether the rest is empty.
  drop_test :
      (a b : Option Impl)
      → length rest < 2 ^ 64
      → same_level old new ≡ false
      → (if (length rest % 2 ^ 64 == 0) && not (same_level old new) then a else b)
        ≡ (if is_empty rest then a else b)
  drop_test a b short t = let c = count-is_empty rest short in ground (arith, c)

  settled :
      (im' : Impl) × ((if (length rest % 2 ^ 64 == 0) && not (same_level old new)
          then drop_level im4 n.side n.price
          else some im4)
        ≡ some im')
      × Settled im'
  settled = elim (Bool-cases (same_level old new)) [
    | inl t ↦ (im4, ground arith, settle_same t)
    | inr t ↦ ((dropping t).0, drop_test _ _ rest-short t ∙ (dropping t).1, settle_dropped t)
  ]

  im5 : Impl
  im5 = settled.0

  ready_state : Settled im5
  unfolding im5
  ready_state = settled.2

  abbrev moved : OrderNode
  moved = new_order id n.side new_price new_quantity

  im6 : Impl
  im6 = put_node im5 id moved

  node5 : node_at im5 id ≡ some (new_order id n.side n.price n.quantity)
  node5 = ready_state.nodes id ∙ left.gone

  requeue-run : requeue im id n old new_price new_quantity ≡ append im6 new id
  unfolding requeue write_level write_node im5 im4 im6
  requeue-run =
      let l1 : level_at im1 new ≡ some (level_of new_price (qs new)) =
        was-Created.levels new ∙ rw same_level_self in
      rw (l1, level2_old, leaving.1, left.level, settled.1, node5) refl

  gone :
      (im' : Impl) × (erase_node im id ≡ some im')
      × Change im im' qs old rest
      × (node_at im' id ≡ none)
      × ((j : ℕ)
          → (id == j) ≡ false
          → node_at im' j ≡ (
              if points (first h.back) j
              then Option.map (with_previous (last_or none h.front)) (node_at im j)
              else if points (last_or none h.front) j
              then Option.map (with_next (first h.back)) (node_at im j)
              else node_at im j))
  gone = erase_node-nodes v old h.front (entry id n.quantity) h.back h.whole

  -- The book without the order, which `modify` does not go through.
  without : Impl
  without = gone.0

  without-IsValid : IsValid without qs1
  unfolding without
  without-IsValid = Change-IsValid v old rest gone.2

  ready : Ready without im6 new (qs1 new) id moved
  unfolding im6 without
  ready = record {
    nodes = λ j. node_at-put_node im5 id j moved ∙ elim (Bool-cases (id == j)) [
      | inl t ↦ rw t
      | inr d ↦ rw d (ready_state.nodes j ∙ left.nodes j d ∙ sym (gone.4 j d))
    ];
    levels = λ s.
        level_at-put_node im5 id moved s ∙ ready_state.levels s ∙ rw (without-IsValid.levels s);
    indexed = λ t. rw (indices-put_node im5 id moved) (ready_state.indexed t);
    active = λ s small.
        rw (indices-put_node im5 id moved)
          (ready_state.active s small ∙ rw (without-IsValid.active s small));
  }

  module _ (positive : 0 < new_quantity) (small : new_quantity < 2 ^ 32)
      (room : length (qs new) + 1 < 2 ^ 64) where
    room_left : length (qs1 new) + 1 < 2 ^ 64
    room_left = elim (Bool-cases (same_level old new)) [
      | inl t ↦
          let same = eq_of_same_level old new t in
          let e : length (qs old) ≡ length (qs new) = ap (λ (r : LevelRef). length (qs r)) same in
          let w : length (qs old) ≡ length (h.front ++ entry id n.quantity ∷ h.back) =
            ap (λ (es : Queue). length es) h.whole in
          rw t (
            omega (
              arith,
              length-append h.front (entry id n.quantity ∷ h.back),
              length-append h.front h.back,
            ))
      | inr d ↦ rw d room
    ]

    pub requeue_lem :
        (im' : Impl) × (requeue im id n old new_price new_quantity ≡ some im')
        × IsValid im' (set_queue qs1 new (qs1 new ++ entry id new_quantity ∷ []))
    unfolding without
    requeue_lem =
        let (im', e, c) =
          append-Change without-IsValid id n.side new_price new_quantity positive small in_range
            gone.3 room_left im6 ready in
        (im', requeue-run ∙ e, Change-IsValid without-IsValid new _ c)
