-- ===== src/OrderBook/StoreDetach.antt =====
-- What `detach` does to the store.
use nasdaq_itch_order_book_e.Base.{
  ℕ, ◌≡◌, true, false, Option, none, some, inl, inr, arith, ◌==◌, if◌then◌else◌, Bool-cases, sub64,
}
use mathlib.Core.Option
use nasdaq_itch_order_book_e.Common.{Side}
use nasdaq_itch_order_book_e.OrderBook.{
  Impl, OrderNode, PriceLevel, LevelRef, same_level, node_at, level_at, put_node, put_level,
  write_node, write_level, detach,
}
use nasdaq_itch_order_book_e.OrderBook.Queue.{Entry, points, node_of}
use nasdaq_itch_order_book_e.OrderBook.Links.{Neighbour, eq_self, with_next, with_previous}
use nasdaq_itch_order_book_e.OrderBook.Store.{
  node_at-put_node, node_at-put_level, level_at-put_node, level_at-put_level, indices-put_node,
  indices-put_level,
}

abbrev pub detached_level : PriceLevel → Option ℕ → Option ℕ → PriceLevel
detached_level l previous next = record l {
  head = elim previous [ none ↦ next | some b ↦ l.head ];
  tail = elim next [ none ↦ previous | some a ↦ l.tail ];
  order_count = sub64 l.order_count 1;
}

abbrev pub detached_node : OrderNode → OrderNode
detached_node o = record o { previous = none; next = none; level = none }

pub record Detached (im im' : Impl) (ref : LevelRef) (id : ℕ) (o : OrderNode) (l : PriceLevel)
    : Type 0 where
  pub gone : node_at im' id ≡ some (detached_node o)
  pub nodes :
      (j : ℕ)
      → (id == j) ≡ false
      → node_at im' j ≡ (
          if points o.next j
          then Option.map (with_previous o.previous) (node_at im j)
          else if points o.previous j
          then Option.map (with_next o.next) (node_at im j)
          else node_at im j)
  pub levels :
      (r : LevelRef)
      → level_at im' r
        ≡ (if same_level ref r then some (detached_level l o.previous o.next) else level_at im r)
  pub same_indices : im'.indices ≡ im.indices

module _ (im : Impl) (ref : LevelRef) (l : PriceLevel) (hl : level_at im ref ≡ some l) (side : Side)
    (price : ℕ) (e : Entry) where
  -- A write to a node is a change of what is read there.
  mapped :
      (t : ℕ) (n : OrderNode) (j : ℕ) (f : OrderNode → OrderNode) (other : Option OrderNode)
      → node_at im t ≡ some n
      → (if t == j then some (f n) else other)
        ≡ (if t == j then Option.map f (node_at im j) else other)
  mapped t n j f other h = elim (Bool-cases (t == j)) [
    | inl s ↦ let same : t ≡ j = ground arith in rw (← same, h)
    | inr d ↦ rw d
  ]

  abbrev Run : Option ℕ → Option ℕ → Type 0
  Run previous next =
      node_at im e.id ≡ some (node_of side price previous next e)
      → (im' : Impl) × (detach im ref e.id ≡ some im')
        × Detached im im' ref e.id (node_of side price previous next e) l

  detach_only : Run none none
  unfolding detach write_node write_level
  detach_only hn =
      let o = node_of side price none none e in
      let im1 = put_level im ref (record l { head = none }) in
      let im2 = put_level im1 ref (record l { head = none; tail = none }) in
      let im3 = put_node im2 e.id (detached_node o) in
      (
        put_level im3 ref (detached_level l none none),
        simp (
          hl, hn, node_at-put_node, node_at-put_level, level_at-put_node, level_at-put_level,
          eq_self,
        ),
        record {
          gone = simp (node_at-put_node, node_at-put_level, eq_self);
          nodes = λ j ne. simp (node_at-put_node, node_at-put_level, ne);
          levels = λ r. simp (level_at-put_node, level_at-put_level) (ground arith);
          same_indices = simp (indices-put_node, indices-put_level);
        },
      )

  detach_first :
      (a : ℕ) (n : OrderNode) → (a == e.id) ≡ false → node_at im a ≡ some n → Run none (some a)
  unfolding detach write_node write_level
  detach_first a n ne ha hn =
      let o = node_of side price none (some a) e in
      let im1 = put_level im ref (record l { head = some a }) in
      let im2 = put_node im1 a (with_previous none n) in
      let im3 = put_node im2 e.id (detached_node o) in
      let ne' : (e.id == a) ≡ false = ground arith in
      (
        put_level im3 ref (detached_level l none (some a)),
        simp (
          hl, hn, ha, ne, ne', node_at-put_node, node_at-put_level, level_at-put_node,
          level_at-put_level, eq_self,
        ),
        record {
          gone = simp (node_at-put_node, node_at-put_level, eq_self);
          nodes = λ j nj.
              simp (node_at-put_node, node_at-put_level, nj)
                (mapped a n j (with_previous none) (node_at im j) ha);
          levels = λ r. simp (level_at-put_node, level_at-put_level) (ground arith);
          same_indices = simp (indices-put_node, indices-put_level);
        },
      )

  detach_last :
      (b : ℕ) (n : OrderNode) → (b == e.id) ≡ false → node_at im b ≡ some n → Run (some b) none
  unfolding detach write_node write_level
  detach_last b n ne hb hn =
      let o = node_of side price (some b) none e in
      let im1 = put_node im b (with_next none n) in
      let im2 = put_level im1 ref (record l { tail = some b }) in
      let im3 = put_node im2 e.id (detached_node o) in
      (
        put_level im3 ref (detached_level l (some b) none),
        simp (
          hl, hn, hb, ne, node_at-put_node, node_at-put_level, level_at-put_node,
          level_at-put_level, eq_self,
        ),
        record {
          gone = simp (node_at-put_node, node_at-put_level, eq_self);
          nodes = λ j nj.
              simp (node_at-put_node, node_at-put_level, nj)
                (mapped b n j (with_next none) (node_at im j) hb);
          levels = λ r. simp (level_at-put_node, level_at-put_level) (ground arith);
          same_indices = simp (indices-put_node, indices-put_level);
        },
      )

  detach_inner :
      (b : ℕ) (nb : OrderNode)
      → (b == e.id) ≡ false
      → node_at im b ≡ some nb
      → (a : ℕ) (na : OrderNode) → (a == e.id) ≡ false
      → node_at im a ≡ some na
      → (b == a) ≡ false
      → Run (some b) (some a)
  unfolding detach write_node write_level
  detach_inner b nb be hb a na ae ha ba hn =
      let o = node_of side price (some b) (some a) e in
      let im1 = put_node im b (with_next (some a) nb) in
      let im2 = put_node im1 a (with_previous (some b) na) in
      let im3 = put_node im2 e.id (detached_node o) in
      (
        put_level im3 ref (detached_level l (some b) (some a)),
        simp (
          hl, hn, hb, ha, be, ae, ba, node_at-put_node, node_at-put_level, level_at-put_node,
          level_at-put_level, eq_self,
        ),
        record {
          gone = simp (node_at-put_node, node_at-put_level, eq_self);
          nodes = λ j nj.
              simp (node_at-put_node, node_at-put_level, nj)
                (rw (mapped b nb j (with_next (some a)) (node_at im j) hb)
                  (mapped a na j (with_previous (some b)) _ ha));
          levels = λ r. simp (level_at-put_node, level_at-put_level);
          same_indices = simp (indices-put_node, indices-put_level);
        },
      )

  -- `detach` runs to its end where the neighbours exist, and changes the two links around the node.
  pub detach-Detached :
      (previous next : Option ℕ)
      → Neighbour (node_at im) e.id previous
      → Neighbour (node_at im) e.id next
      → ((b : ℕ) → points previous b ≡ true → points next b ≡ false)
      → Run previous next
  detach-Detached none none hb ha apart = detach_only
  detach-Detached none (some a) hb ha apart = detach_first a ha.1 ha.0 ha.2
  detach-Detached (some b) none hb ha apart = detach_last b hb.1 hb.0 hb.2
  detach-Detached (some b) (some a) hb ha apart =
      let far = apart b (eq_self b) in detach_inner b hb.1 hb.0 hb.2 a ha.1 ha.0 ha.2 (ground arith)
