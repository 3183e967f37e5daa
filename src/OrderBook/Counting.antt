-- ===== src/OrderBook/Counting.antt =====
-- How the operations of src/book/order_book.cpp change the number of orders in the map.
use nasdaq_itch_order_book_e.Base.{
  ℕ, ◌≡◌, refl, sym, ap, ◌∙◌, Bool, true, false, Option, none, some, ◌==◌, inl, inr, arith,
  Bool-cases, Option-cases, is_some, ◌>>=◌, if◌then◌else◌,
}
use nasdaq_itch_order_book_e.Base.Assoc.{find, find-insert, size-insert}
use nasdaq_itch_order_book_e.Base.Keys.{Unique, Unique-insert}
use nasdaq_itch_order_book_e.Base.Outcomes.{
  Returns, Returns-some, Returns-none, Returns-bind, Returns-read,
}
use nasdaq_itch_order_book_e.Common.{Side}
use nasdaq_itch_order_book_e.PriceIndex
use nasdaq_itch_order_book_e.OrderBook.{
  side_index, Impl, OrderNode, PriceLevel, LevelRef, node_at, level_at, put_node, put_level,
  write_node, write_level, get_or_create_level, index_price, unindex_price, erase_level, append,
  detach, drop_level, contains,
}
use nasdaq_itch_order_book_e.OrderBook.Queries.{order_count}

-- The map of orders has the same keys as before.
pub record Kept (im im' : Impl) : Type 0 where
  pub keys : Unique im.orders → Unique im'.orders
  pub count : order_count im' ≡ order_count im
  pub domain : (j : ℕ) → contains im' j ≡ contains im j

pub same-Kept : (im im' : Impl) → im'.orders ≡ im.orders → Kept im im'
unfolding contains node_at order_count
same-Kept im im' e = record { keys = λ u. rw e u; count = rw e refl; domain = λ j. rw e refl }

pub Kept-trans : (a b c : Impl) → Kept a b → Kept b c → Kept a c
Kept-trans a b c p q = record {
  keys = λ u. q.keys (p.keys u);
  count = q.count ∙ p.count;
  domain = λ j. q.domain j ∙ p.domain j;
}

pub write_node-Kept :
    (im : Impl) (id : ℕ) (f : OrderNode → OrderNode) → Returns (Kept im) (write_node im id f)
unfolding write_node put_node node_at contains order_count
write_node-Kept im id f = elim (Option-cases (find id im.orders)) [
  | inl absent ↦ rw absent (Returns-none _)
  | inr (node, there) ↦ rw there (
      Returns-some _ _ (record {
        keys = Unique-insert id (f node) im.orders;
        count = rw (size-insert, there) refl;
        domain = λ j. elim (Bool-cases (id == j)) [
          | inl t ↦
              let same : id ≡ j = ground arith in
              rw (find-insert, t) (sym (ap is_some (rw same at there)))
          | inr f ↦ rw (find-insert, f) refl
        ];
      }))
]

pub write_level-Kept :
    (im : Impl) (ref : LevelRef) (f : PriceLevel → PriceLevel)
    → Returns (Kept im) (write_level im ref f)
unfolding write_level put_level
write_level-Kept im ref f =
    Returns-read _ (level_at im ref) _ (λ level e. Returns-some _ _ (same-Kept im _ refl))

-- Two steps, one after the other.
pub then-Kept :
    (im : Impl) (run : Option Impl) (f : Impl → Option Impl)
    → Returns (Kept im) run
    → ((im1 : Impl) → Returns (Kept im1) (f im1))
    → Returns (Kept im) (run >>= f)
then-Kept im run f r next =
    Returns-bind (Kept im) (Kept im) run f r
      (λ im1 k. record { result = λ im2 e. Kept-trans im im1 im2 k ((next im1).result im2 e) })

option-Kept :
    (im : Impl) (o : Option ℕ) (x : Option Impl) (f : ℕ → Option Impl)
    → Returns (Kept im) x
    → ((n : ℕ) → Returns (Kept im) (f n))
    → Returns (Kept im) (elim o [ none ↦ x | some n ↦ f n ])
option-Kept im none x f r next = r
option-Kept im (some n) x f r next = next n

pub append-Kept : (im : Impl) (ref : LevelRef) (id : ℕ) → Returns (Kept im) (append im ref id)
unfolding append
append-Kept im ref id = Returns-read _ (level_at im ref) _ (λ level e.
    then-Kept im _ _ (write_node-Kept im id _) (λ im1.
      then-Kept im1 _ _
        (option-Kept im1 level.tail _ _ (write_level-Kept im1 ref _)
          (λ last. write_node-Kept im1 last _))
        (λ im2. Returns-read _ (node_at im2 id) _ (λ order e2. write_level-Kept im2 ref _))))

pub detach-Kept : (im : Impl) (ref : LevelRef) (id : ℕ) → Returns (Kept im) (detach im ref id)
unfolding detach
detach-Kept im ref id = Returns-read _ (node_at im id) _ (λ order e.
    then-Kept im _ _
      (option-Kept im order.previous _ _ (write_level-Kept im ref _) (λ n. write_node-Kept im n _))
      (λ im1. Returns-read _ (node_at im1 id) _ (λ order1 e1.
        then-Kept im1 _ _
          (option-Kept im1 order1.next _ _ (write_level-Kept im1 ref _)
            (λ n. write_node-Kept im1 n _))
          (λ im2.
            then-Kept im2 _ _ (write_node-Kept im2 id _) (λ im3. write_level-Kept im3 ref _)))))

unindex_price-Kept :
    (im : Impl) (side : Side) (price : ℕ) → Returns (Kept im) (unindex_price im side price)
unfolding unindex_price
unindex_price-Kept im side price =
    Returns-read _ (PriceIndex.remove (im.indices (side_index side)) price) _
      (λ index e. Returns-some _ _ (same-Kept im _ refl))

pub drop_level-Kept :
    (im : Impl) (side : Side) (price : ℕ) → Returns (Kept im) (drop_level im side price)
unfolding drop_level erase_level
drop_level-Kept im side price =
    then-Kept im _ (λ im1. some (erase_level im1 side price)) (unindex_price-Kept im side price)
      (λ im1. Returns-some _ _ (same-Kept im1 _ refl))

pub get_or_create_level-Kept :
    (im : Impl) (side : Side) (price : ℕ) → Kept im (get_or_create_level im side price)
unfolding get_or_create_level put_level
get_or_create_level-Kept im side price =
    elim (Bool-cases (is_some (level_at im (record { side = side; price = price })))) [
      | inl t ↦ rw t (same-Kept im im refl)
      | inr f ↦ rw f (same-Kept im _ refl)
    ]

pub index_price-Kept :
    (b : Bool) (im : Impl) (side : Side) (price : ℕ)
    → Kept im (if b then index_price im side price else im)
unfolding index_price
index_price-Kept true im side price = same-Kept im _ refl
index_price-Kept false im side price = same-Kept im im refl
