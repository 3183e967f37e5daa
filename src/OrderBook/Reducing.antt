-- ===== src/OrderBook/Reducing.antt =====
-- The partial cancel of `OrderBook::cancel`: the order keeps its place and loses quantity.
use nasdaq_itch_order_book_e.Base.{
  ℕ, ◌+◌, ◌-◌, ◌%◌, ◌^◌, ◌<◌, ◌≡◌, refl, sym, ap, ◌∙◌, false, not, ◌||◌, none, some, [], ◌∷◌, ◌++◌,
  inl, inr, arith, ◌==◌, if◌then◌else◌, Bool-cases, sub32, sub64,
}
use mathlib.Core.Option
use nasdaq_itch_order_book_e.PriceIndex.Contents
use nasdaq_itch_order_book_e.OrderBook.{
  Impl, OrderNode, PriceLevel, LevelRef, same_level, node_at, level_at, put_node, put_level,
  write_node, write_level,
}
use nasdaq_itch_order_book_e.OrderBook.Queue.{
  Entry, Queue, is_empty, has_id, Distinct, level_of, node_of, total, first, last_or, has_id-append,
  total-append, is_empty-mid, set_quantity, first-set_quantity, last_or-set_quantity,
  length-set_quantity, has_id-set_quantity, set_quantity-Distinct,
}
use nasdaq_itch_order_book_e.OrderBook.Links.{eq_self, Chain-at, Distinct-remove, requantify}
use nasdaq_itch_order_book_e.OrderBook.Store.{
  node_at-put_node, node_at-put_level, level_at-put_node, level_at-put_level, indices-put_node,
  indices-put_level, same_level_self,
}
use nasdaq_itch_order_book_e.OrderBook.Valid.{
  Queues, level_for, Sized, index_of, IsValid, Change, eq_of_same_level,
}

total-set_absent :
    (id n : ℕ) (es : Queue) → has_id id es ≡ false → total (set_quantity id n es) ≡ total es
unfolding set_quantity
total-set_absent id n [] h = refl
total-set_absent id n (e ∷ es) h = ground (arith, total-set_absent id n es)

total-set_quantity :
    (xs : Queue) (e : Entry) (bs : Queue) (n : ℕ)
    → has_id e.id xs ≡ false
    → has_id e.id bs ≡ false
    → total (set_quantity e.id n (xs ++ e ∷ bs)) ≡ total xs + (n + total bs)
unfolding set_quantity
total-set_quantity [] e bs n h k = rw (eq_self e.id, total-set_absent e.id n bs k) (omega arith)
total-set_quantity (x ∷ xs) e bs n h k = ground (arith, total-set_quantity xs e bs n)

set_quantity-Sized :
    (id n : ℕ) (es : Queue) → 0 < n → n < 2 ^ 32 → Sized es → Sized (set_quantity id n es)
unfolding set_quantity
set_quantity-Sized id n [] p q s = tt
set_quantity-Sized id n (e ∷ es) p q s = (ground arith, set_quantity-Sized id n es p q s.1)

is_empty-set_quantity : (id n : ℕ) (es : Queue) → is_empty (set_quantity id n es) ≡ is_empty es
unfolding set_quantity
is_empty-set_quantity id n [] = refl
is_empty-set_quantity id n (e ∷ es) = refl

less_total :
    (x b n q : ℕ)
    → q < n
    → n < 2 ^ 32
    → sub64 ((x + (n + b)) % 2 ^ 64) q ≡ (x + ((n - q) + b)) % 2 ^ 64
less_total x b n q h k = omega arith

quantity-reduced :
    (xs : Queue) (e : Entry) (bs : Queue) (q : ℕ)
    → q < e.quantity
    → e.quantity < 2 ^ 32
    → Distinct (xs ++ e ∷ bs)
    → sub64 (total (xs ++ e ∷ bs) % 2 ^ 64) q
      ≡ total (set_quantity e.id (e.quantity - q) (xs ++ e ∷ bs)) % 2 ^ 64
quantity-reduced xs e bs q less small d =
    let (_, front, back) = Distinct-remove xs e bs d in
    rw (total-append, total-set_quantity xs e bs (e.quantity - q) front back)
      (less_total (total xs) (total bs) e.quantity q less small)

-- The level record after a partial cancel is that of the queue with less quantity.
reduced_level :
    (price : ℕ) (xs : Queue) (e : Entry) (bs : Queue) (q : ℕ)
    → q < e.quantity
    → e.quantity < 2 ^ 32
    → Distinct (xs ++ e ∷ bs)
    → some (record (level_of price (xs ++ e ∷ bs)) {
      quantity = sub64 (total (xs ++ e ∷ bs) % 2 ^ 64) q;
    })
      ≡ level_for price (set_quantity e.id (e.quantity - q) (xs ++ e ∷ bs))
reduced_level price xs e bs q less small d =
    let es = xs ++ e ∷ bs in
    let n = e.quantity - q in
    rw (is_empty-set_quantity, is_empty-mid)
      (λ i. some (record {
        price = price;
        quantity = quantity-reduced xs e bs q less small d i;
        order_count = sym (length-set_quantity e.id n es) i % 2 ^ 64;
        head = sym (first-set_quantity e.id n es) i;
        tail = sym (last_or-set_quantity none e.id n es) i;
      }))

module _ {im : Impl} {qs : Queues} (v : IsValid im qs) (r : LevelRef) (xs : Queue) (e : Entry)
    (bs : Queue) (whole : qs r ≡ xs ++ e ∷ bs) (q : ℕ) (less : q < e.quantity)
    (small : e.quantity < 2 ^ 32) where
  distinct : Distinct (xs ++ e ∷ bs)
  distinct = rw (← whole) (v.distinct r)

  level_before : level_at im r ≡ some (level_of r.price (xs ++ e ∷ bs))
  level_before = v.levels r ∙ rw (whole, is_empty-mid)

  node_before : node_at im e.id ≡ some (node_of r.side r.price (last_or none xs) (first bs) e)
  node_before =
      (Chain-at r.side r.price (node_at im) none xs e bs distinct tt (rw (← whole) (v.chains r))).0

  reduced : Queue
  reduced = set_quantity e.id (e.quantity - q) (qs r)

  new_node : OrderNode
  new_node =
      node_of r.side r.price (last_or none xs) (first bs)
        (record e { quantity = sub32 e.quantity q })

  im1 : Impl
  im1 = put_node im e.id new_node

  left : PriceLevel
  left = record (level_of r.price (xs ++ e ∷ bs)) {
    quantity = sub64 (total (xs ++ e ∷ bs) % 2 ^ 64) q;
  }

  im2 : Impl
  im2 = put_level im1 r left

  runs :
      (write_node im e.id (λ o. record o { quantity = sub32 o.quantity q }) ≡ some im1)
      × (write_level im1 r (λ l. record l { quantity = sub64 l.quantity q }) ≡ some im2)
  unfolding write_node write_level im1 im2 new_node left
  runs = (rw node_before, rw (level_at-put_node im e.id new_node r, level_before))

  nodes_after :
      (j : ℕ)
      → node_at im2 j ≡ (
          if e.id == j
          then Option.map (λ (o : OrderNode). record o { quantity = e.quantity - q }) (node_at im j)
          else node_at im j)
  unfolding im2 im1 new_node
  nodes_after j =
      node_at-put_level im1 r left j
      ∙ node_at-put_node im e.id j new_node
      ∙ elim (Bool-cases (e.id == j)) [
        | inl t ↦
            let same : e.id ≡ j = ground arith in
            let plain : sub32 e.quantity q ≡ e.quantity - q = omega arith in
            rw (t, ← same, node_before, plain)
        | inr f ↦ rw f
      ]

  level_after : level_at im2 r ≡ level_for r.price reduced
  unfolding im2 im1 left reduced
  level_after =
      level_at-put_level im1 r r left
      ∙ rw (same_level_self r) (
          reduced_level r.price xs e bs q less small distinct
          ∙ ap (λ (t : Queue). level_for r.price (set_quantity e.id (e.quantity - q) t))
              (sym whole))

  levels_after : (s : LevelRef) → same_level r s ≡ false → level_at im2 s ≡ level_at im s
  unfolding im2 im1
  levels_after s d = level_at-put_level im1 r s left ∙ rw d (level_at-put_node im e.id new_node s)

  indices_after : im2.indices ≡ im.indices
  unfolding im2 im1
  indices_after = indices-put_level im1 r left ∙ indices-put_node im e.id new_node

  has-whole : (j : ℕ) → has_id j (qs r) ≡ (has_id j xs || ((e.id == j) || has_id j bs))
  has-whole j = rw whole (has_id-append j xs (e ∷ bs))

  still_active :
      (s : LevelRef)
      → s.price < 2 ^ 32
      → Contents.has (index_of im s.side) s.price ≡ (
          if same_level r s
          then not (is_empty (set_quantity e.id (e.quantity - q) (qs r)))
          else Contents.has (index_of im s.side) s.price)
  still_active s h = elim (Bool-cases (same_level r s)) [
    | inl t ↦
        let same = eq_of_same_level r s t in rw (t, is_empty-set_quantity, same) (v.active s h)
    | inr f ↦ rw f
  ]

  reduced-Change : Change im im2 qs r (set_quantity e.id (e.quantity - q) (qs r))
  unfolding reduced
  reduced-Change = record {
    level = level_after;
    chain =
        requantify r.side r.price (node_at im) (node_at im2) e.id (e.quantity - q) none (qs r)
          nodes_after (v.chains r);
    distinct = set_quantity-Distinct e.id (e.quantity - q) (qs r) (v.distinct r);
    sized = set_quantity-Sized e.id (e.quantity - q) (qs r) (omega arith) (omega arith) (v.sized r);
    short = rw length-set_quantity (v.short r);
    priced = λ _. v.priced r (rw (whole, is_empty-mid));
    other_levels = levels_after;
    other_nodes = λ j a b.
        let out : (e.id == j) ≡ false = ground (arith, has-whole j) in nodes_after j ∙ rw out;
    arrived = λ j h. inl (sym (has_id-set_quantity j e.id (e.quantity - q) (qs r)) ∙ h);
    gone = λ j a b. cc (has_id-set_quantity j e.id (e.quantity - q) (qs r));
    indexed = λ s. rw indices_after (v.indexed s);
    active = λ s h. rw indices_after (still_active s h);
  }

  -- A partial cancel touches the one order and the total of its level.
  pub reduce-Change :
      (im1 im2 : Impl) × (write_node im e.id (λ o. record o { quantity = sub32 o.quantity q })
        ≡ some im1)
      × (write_level im1 r (λ l. record l { quantity = sub64 l.quantity q }) ≡ some im2)
      × Change im im2 qs r (set_quantity e.id (e.quantity - q) (qs r))
  reduce-Change = (im1, im2, runs.0, runs.1, reduced-Change)

  swapped :
      put_node (put_level im r left) e.id (
        node_of r.side r.price
          (last_or none xs)
          (first bs)
          (record e { quantity = e.quantity - q }))
      ≡ im2
  unfolding im2 im1 new_node put_node put_level
  swapped =
      let plain : e.quantity - q ≡ sub32 e.quantity q = omega arith in
      λ i.
        put_level
          (put_node im e.id
            (node_of r.side r.price (last_or none xs) (first bs) (record e { quantity = plain i })))
          r left

  -- So does a reduction by `modify`, which writes the level before the order.
  pub reduce_level-Change :
      (im1 im2 : Impl) × (write_level im r (λ l. record l { quantity = sub64 l.quantity q })
        ≡ some im1)
      × (write_node im1 e.id (λ o. record o { quantity = e.quantity - q }) ≡ some im2)
      × Change im im2 qs r (set_quantity e.id (e.quantity - q) (qs r))
  unfolding write_node write_level left
  reduce_level-Change = (
    put_level im r left,
    im2,
    rw level_before refl,
    rw (node_at-put_level im r left e.id, node_before) (ap (λ (b : Impl). some b) swapped),
    reduced-Change,
  )
