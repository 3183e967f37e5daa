-- ===== src/OrderBook/Appending.antt =====
-- `append` on a book that is ready for an order: the order becomes the last one of its level.
use nasdaq_itch_order_book_e.Base.{
  ℕ, ◌+◌, ◌%◌, ◌^◌, ◌<◌, ◌≡◌, refl, ◌∙◌, true, false, ◌||◌, Option, none, some, [], ◌∷◌, ◌++◌, inl,
  inr, ◌⊎◌, arith, ◌==◌, if◌then◌else◌, Bool-cases, length, length-append,
}
use nasdaq_itch_order_book_e.Common.{Side}
use nasdaq_itch_order_book_e.PriceIndex.Contents
use nasdaq_itch_order_book_e.OrderBook.{
  Impl, OrderNode, LevelRef, same_level, level_ref, node_at, level_at, new_order, append,
}
use nasdaq_itch_order_book_e.OrderBook.Queue.{
  Entry, entry, Queue, is_empty, has_id, Distinct, level_of, Chain, total, first, last_or, points,
  has_id-append, total-append, last_or-append, points-last_or, last_or-some,
}
use nasdaq_itch_order_book_e.OrderBook.Links.{
  Neighbour, Neighbour-mono, eq_self, link_last, last-Neighbour,
}
use nasdaq_itch_order_book_e.OrderBook.Store.{
  same_level_self, appended_level, Appended, append-first, append-last,
}
use nasdaq_itch_order_book_e.OrderBook.Valid.{
  Queues, level_for, Sized, index_of, IsValid, Change, unowned,
}

-- `append` runs to its end where the tail node exists.
append-Appended :
    (im : Impl) (ref : LevelRef) (id : ℕ) (order : OrderNode) (p q c : ℕ) (head tail : Option ℕ)
    → node_at im id ≡ some order
    → level_at im ref
      ≡ some (record { price = p; quantity = q; order_count = c; head = head; tail = tail })
    → Neighbour (node_at im) id tail
    → (im' : Impl) × (append im ref id ≡ some im')
      × Appended im im' ref id order
          (record { price = p; quantity = q; order_count = c; head = head; tail = tail })
append-Appended im ref id order p q c head none hn hl t =
    append-first im ref id order p q c head hn hl
append-Appended im ref id order p q c head (some b) hn hl t =
    append-last im ref id order p q c head hn b t.1 hl t.2 (ground arith)

-- The level record after `append` is that of the longer queue.
appended_level-eq :
    (id : ℕ) (side : Side) (price quantity : ℕ) (es : Queue)
    → quantity < 2 ^ 32
    → some (appended_level (level_of price es) id (new_order id side price quantity))
      ≡ level_for price (es ++ entry id quantity ∷ [])
appended_level-eq id side price quantity [] h = ground arith
appended_level-eq id side price quantity (x ∷ xs) h =
    let (t, e) = last_or-some x.id xs in
    rw (e, last_or-append)
      (ground (
        arith,
        total-append xs (entry id quantity ∷ []),
        length-append xs (entry id quantity ∷ []),
      ))

Distinct-append :
    (es : Queue) (e : Entry) → Distinct es → has_id e.id es ≡ false → Distinct (es ++ e ∷ [])
Distinct-append [] e d h = (refl, tt)
Distinct-append (x ∷ xs) e d h =
    (ground (arith, has_id-append x.id xs (e ∷ [])), Distinct-append xs e d.1 (ground arith))

is_empty-append : (es : Queue) (e : Entry) → is_empty (es ++ e ∷ []) ≡ false
is_empty-append [] e = refl
is_empty-append (x ∷ xs) e = refl

Sized-append :
    (es : Queue) (e : Entry)
    → Sized es
    → (0 < e.quantity) × (e.quantity < 2 ^ 32)
    → Sized (es ++ e ∷ [])
Sized-append [] e s h = (h, tt)
Sized-append (x ∷ xs) e s h = (s.0, Sized-append xs e s.1 h)

-- A book that differs from a valid one by an order in no queue yet, and by the level that waits for
-- it, which exists and stands in the price index.
pub record Ready (im im3 : Impl) (r : LevelRef) (es : Queue) (id : ℕ) (order : OrderNode)
    : Type 0 where
  pub nodes : (j : ℕ) → node_at im3 j ≡ (if id == j then some order else node_at im j)
  pub levels :
      (s : LevelRef)
      → level_at im3 s ≡ (if same_level r s then some (level_of r.price es) else level_at im s)
  pub indexed : (t : Side) → Contents.IsWell (index_of im3 t)
  pub active :
      (s : LevelRef)
      → s.price < 2 ^ 32
      → Contents.has (index_of im3 s.side) s.price
        ≡ (if same_level r s then true else Contents.has (index_of im s.side) s.price)

module _ {im : Impl} {qs : Queues} (v : IsValid im qs) (id : ℕ) (side : Side) (price quantity : ℕ)
    (positive : 0 < quantity) (small : quantity < 2 ^ 32) (in_range : price < 2 ^ 32)
    (new : node_at im id ≡ none) (room : length (qs (level_ref side price)) + 1 < 2 ^ 64)
    (im3 : Impl)
    (ready : Ready im im3
      (level_ref side price)
      (qs (level_ref side price))
      id
      (new_order id side price quantity)) where
  abbrev r : LevelRef
  r = level_ref side price

  abbrev es : Queue
  es = qs r

  out : has_id id es ≡ false
  out = unowned v r id new

  tail_before : Neighbour (node_at im3) id (last_or none es)
  tail_before =
      Neighbour-mono (node_at im) (node_at im3) id (last_or none es) (λ j d. ready.nodes j ∙ rw d)
        (last-Neighbour side price (node_at im) id none es out tt (v.chains r))

  run :
      (im' : Impl) × (append im3 r id ≡ some im')
      × Appended im3 im' r id (new_order id side price quantity) (level_of price es)
  run =
      append-Appended im3 r id (new_order id side price quantity) price (total es % 2 ^ 64)
        (length es % 2 ^ 64) (first es) (last_or none es) (ready.nodes id ∙ rw (eq_self id))
        (ready.levels r ∙ rw (same_level_self r)) tail_before

  done : Queue
  done = es ++ entry id quantity ∷ []

  im4 : Impl
  im4 = run.0

  after : Appended im3 im4 r id (new_order id side price quantity) (level_of price es)
  unfolding im4
  after = run.2

  Chain-after : Chain (node_at im4) side price none done
  unfolding done
  Chain-after =
      link_last side price (node_at im) (node_at im4) none es (entry id quantity) (v.distinct r) out
        (after.nodes id ∙ rw (eq_self id)) (λ j d. after.nodes j ∙ rw (d, ready.nodes j, d))
        (v.chains r)

  has-done : (j : ℕ) → has_id j done ≡ (has_id j es || (id == j))
  unfolding done
  has-done j = rw (has_id-append j es (entry id quantity ∷ [])) (ground arith)

  done-Distinct : Distinct done
  unfolding done
  done-Distinct = Distinct-append es (entry id quantity) (v.distinct r) out

  done-Sized : Sized done
  unfolding done
  done-Sized = Sized-append es (entry id quantity) (v.sized r) (positive, small)

  not_last : (j : ℕ) → has_id j es ≡ false → points (last_or none es) j ≡ false
  not_last j h = points-last_or none es j refl h

  indexed_after : (t : Side) → Contents.IsWell (index_of im4 t)
  indexed_after t = rw after.same_indices (ready.indexed t)

  active_after :
      (s : LevelRef)
      → s.price < 2 ^ 32
      → Contents.has (index_of im4 s.side) s.price
        ≡ (if same_level r s then true else Contents.has (index_of im s.side) s.price)
  active_after s h = rw after.same_indices (ready.active s h)

  is_empty-done : is_empty done ≡ false
  unfolding done
  is_empty-done = is_empty-append es (entry id quantity)

  length-done : length done < 2 ^ 64
  unfolding done
  length-done = omega (arith, length-append es (entry id quantity ∷ []))

  level_after : level_at im4 r ≡ level_for price done
  unfolding done
  level_after =
      after.levels r ∙ rw (same_level_self r) (appended_level-eq id side price quantity es small)

  add-Change : Change im im4 qs r done
  add-Change = record {
    level = level_after;
    chain = Chain-after;
    distinct = done-Distinct;
    sized = done-Sized;
    short = length-done;
    priced = λ _. in_range;
    other_levels = λ s d. after.levels s ∙ rw (d, ready.levels s, d);
    other_nodes = λ j a b.
        let ne : (id == j) ≡ false = ground (arith, has-done j) in
        after.nodes j ∙ rw (ne, not_last j a, ready.nodes j, ne);
    arrived = λ j h. arrival j h;
    gone = λ j a b. cc (has-done j, a, b);
    indexed = indexed_after;
    active = λ s h. active_after s h ∙ rw is_empty-done;
  }
    where
      arrival : (j : ℕ) → has_id j done ≡ true → (has_id j es ≡ true) ⊎ (node_at im j ≡ none)
      arrival j h = elim (Bool-cases (id == j)) [
        | inl t ↦ let same : id ≡ j = ground arith in inr (rw same at new)
        | inr f ↦ inl (ground (arith, has-done j))
      ]

  pub append-Change :
      (im' : Impl) × (append im3 (level_ref side price) id ≡ some im')
      × Change im im' qs
          (level_ref side price)
          (qs (level_ref side price) ++ entry id quantity ∷ [])
  unfolding im4 done
  append-Change = (run.0, run.1, add-Change)
