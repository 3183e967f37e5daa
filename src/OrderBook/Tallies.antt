-- ===== src/OrderBook/Tallies.antt =====
-- How many orders the operations of src/book/order_book.cpp take and give up.
use nasdaq_itch_order_book_e.Base.{
  ℕ, ◌+◌, ◌≡◌, refl, sym, ap, ◌∙◌, Bool, true, false, not, ◌||◌, Option, none, some, ◌==◌, inl, inr,
  ltb, ◌&&◌, arith, Bool-cases, Option-cases, is_some, ◌>>=◌, if◌then◌else◌,
}
use nasdaq_itch_order_book_e.Base.Assoc.{find, find-insert, size-insert}
use nasdaq_itch_order_book_e.Base.Keys.{Unique, Unique-insert, Unique-erase, size-erase}
use nasdaq_itch_order_book_e.Base.Outcomes.{
  Returns, Returns-some, Returns-if, Returns-bind, Returns-read,
}
use nasdaq_itch_order_book_e.Common.{Side}
use nasdaq_itch_order_book_e.OrderBook.{
  same_level, level_ref, new_order, Impl, OrderNode, LevelRef, node_at, level_at, put_node,
  get_or_create_level, index_price, erase_order, erase_node, contains, add_node, add, cancel_found,
  cancel, erase_book, requeue, modify_found, modify, replace_new, replace,
}
use nasdaq_itch_order_book_e.OrderBook.Queries.{order_count}
use nasdaq_itch_order_book_e.OrderBook.Counting.{
  Kept, same-Kept, Kept-trans, write_node-Kept, write_level-Kept, then-Kept, append-Kept,
  detach-Kept, drop_level-Kept, get_or_create_level-Kept, index_price-Kept,
}

-- An answered call of a book that takes and gives up so many orders if it answers true.
pub record Tallied (im : Impl) (gained lost : ℕ) (r : Bool × Impl) : Type 0 where
  pub keys : Unique im.orders → Unique r.1.orders
  pub count :
      Unique im.orders
      → order_count r.1 + (if r.0 then lost else 0) ≡ order_count im + (if r.0 then gained else 0)
  pub stays : (j : ℕ) → gained ≡ 1 → contains im j ≡ true → contains r.1 j ≡ true

refused-Tallied : (im : Impl) (gained lost : ℕ) → Tallied im gained lost (false, im)
refused-Tallied im gained lost = record { keys = λ u. u; count = λ u. refl; stays = λ j l h. h }

Kept-Tallied : (im im' : Impl) → Kept im im' → Tallied im 0 0 (true, im')
Kept-Tallied im im' k = record {
  keys = k.keys;
  count = λ u. ap (λ (n : ℕ). n + 0) k.count;
  stays = λ j l h. k.domain j ∙ h;
}

erased-Tallied :
    (im im3 : Impl) (id : ℕ) (order : OrderNode)
    → node_at im id ≡ some order
    → Kept im im3
    → Tallied im 0 1 (true, erase_order im3 id)
unfolding erase_order contains node_at order_count
erased-Tallied im im3 id order here k = record {
  keys = λ u. Unique-erase id im3.orders (k.keys u);
  count = λ u.
      let there : is_some (find id im3.orders) ≡ true = k.domain id ∙ rw here refl in
      size-erase id im3.orders (k.keys u) there ∙ k.count ∙ omega arith;
  stays = λ j l h. absurd (omega arith);
}

erase_node-Tallied :
    (im : Impl) (id : ℕ) → Returns (λ im'. Tallied im 0 1 (true, im')) (erase_node im id)
unfolding erase_node
erase_node-Tallied im id = Returns-read _ (node_at im id) _ (λ order here.
    Returns-read _ order.level _ (λ ref e.
      Returns-bind (Kept im) _ _ _ (write_level-Kept im ref _) (λ im1 k1.
        Returns-bind (Kept im1) _ _ _ (detach-Kept im1 ref id) (λ im2 k2.
          Returns-read _ (level_at im2 ref) _ (λ level e2.
            Returns-bind (Kept im2) _ _ _
              (Returns-if _ _ _ _ (drop_level-Kept im2 order.side order.price)
                (Returns-some _ _ (same-Kept im2 im2 refl)))
              (λ im3 k3. Returns-some _ _ (
                erased-Tallied im im3 id order here
                  (Kept-trans im im1 im3 k1 (Kept-trans im1 im2 im3 k2 k3)))))))))

put_node-Tallied :
    (im : Impl) (id : ℕ) (node : OrderNode)
    → contains im id ≡ false
    → Tallied im 1 0 (true, put_node im id node)
unfolding put_node contains node_at order_count
put_node-Tallied im id node new = record {
  keys = Unique-insert id node im.orders;
  count = λ u. rw (size-insert, new) (omega arith);
  stays = λ j l h. elim (Bool-cases (id == j)) [
    | inl t ↦ rw (find-insert, t) refl
    | inr f ↦ rw (find-insert, f) h
  ];
}

-- A call between steps that keep the keys.
around-Tallied :
    (a b c d : Impl) (gained : ℕ)
    → Kept a b
    → Tallied b gained 0 (true, c)
    → Kept c d
    → Tallied a gained 0 (true, d)
around-Tallied a b c d gained p t q = record {
  keys = λ u. q.keys (t.keys (p.keys u));
  count =
      λ u. let first = p.count in let mid = t.count (p.keys u) in let last = q.count in omega arith;
  stays = λ j l h. q.domain j ∙ t.stays j l (p.domain j ∙ h);
}

add_node-Tallied :
    (im : Impl) (id : ℕ) (side : Side) (price quantity : ℕ)
    → contains im id ≡ false
    → Returns (λ im'. Tallied im 1 0 (true, im')) (add_node im id side price quantity)
unfolding add_node
add_node-Tallied im id side price quantity new =
    let im1 = get_or_create_level im side price in
    let k1 = get_or_create_level-Kept im side price in
    let im2 = put_node im1 id (new_order id side price quantity) in
    let t = put_node-Tallied im1 id (new_order id side price quantity) (k1.domain id ∙ new) in
    Returns-read _ (level_at im2 (level_ref side price)) _ (λ level e.
      let k2 = index_price-Kept (level.order_count == 0) im2 side price in
      record {
        result = λ im' run.
            around-Tallied im im1 im2 im' 1 k1 t
              (Kept-trans im2 _ im' k2 ((append-Kept _ (level_ref side price) id).result im' run));
      })

true-Tallied :
    (im : Impl) (gained lost : ℕ) (run : Option Impl)
    → Returns (λ im'. Tallied im gained lost (true, im')) run
    → Returns (Tallied im gained lost) (do im' ← run; some (true, im'))
true-Tallied im gained lost run r = Returns-bind _ _ run _ r (λ im' t. Returns-some _ _ t)

pub add-Tallied :
    (im : Impl) (id : ℕ) (side : Side) (price quantity : ℕ)
    → Returns (Tallied im 1 0) (add im id side price quantity)
unfolding add
add-Tallied im id side price quantity = elim (Bool-cases (quantity == 0 || contains im id)) [
  | inl refused ↦ rw (add, refused) (Returns-some _ _ (refused-Tallied im 1 0))
  | inr fine ↦
      rw (add, fine)
        (true-Tallied im 1 0 _ (add_node-Tallied im id side price quantity (ground arith)))
]

pub erase_book-Tallied : (im : Impl) (id : ℕ) → Returns (Tallied im 0 1) (erase_book im id)
unfolding erase_book
erase_book-Tallied im id =
    Returns-if _ _ _ _ (true-Tallied im 0 1 _ (erase_node-Tallied im id))
      (Returns-some _ _ (refused-Tallied im 0 1))

-- `cancel` gives up the order if the quantity is all of it.
pub cancel-Tallied :
    (im : Impl) (id quantity : ℕ) (n : OrderNode)
    → node_at im id ≡ some n
    → Returns (Tallied im 0 (if quantity == n.quantity then 1 else 0)) (cancel im id quantity)
unfolding cancel cancel_found
cancel-Tallied im id quantity n here =
    rw (cancel, here, cancel_found)
      (elim (Bool-cases (quantity == 0 || ltb n.quantity quantity)) [
        | inl refused ↦ rw refused (Returns-some _ _ (refused-Tallied im 0 _))
        | inr fine ↦ elim (Bool-cases (quantity == n.quantity)) [
          | inl all ↦ rw (fine, all) (true-Tallied im 0 1 _ (erase_node-Tallied im id))
          | inr part ↦
              rw (fine, part)
                (Returns-bind (Kept im) _ _ _ (write_node-Kept im id _) (λ im1 k1.
                  Returns-read _ n.level _ (λ ref e.
                    Returns-bind (Kept im1) _ _ _ (write_level-Kept im1 ref _) (λ im2 k2.
                      Returns-some _ _ (Kept-Tallied im im2 (Kept-trans im im1 im2 k1 k2))))))
        ]
      ])

pub cancel_missing-Tallied :
    (im : Impl) (id quantity : ℕ)
    → node_at im id ≡ none
    → Returns (Tallied im 0 0) (cancel im id quantity)
unfolding cancel
cancel_missing-Tallied im id quantity absent =
    rw (cancel, absent) (Returns-some _ _ (refused-Tallied im 0 0))

from_Kept :
    (im im1 : Impl) (run : Option Impl)
    → Kept im im1
    → Returns (Kept im1) run
    → Returns (Kept im) run
from_Kept im im1 run k r = record { result = λ im2 e. Kept-trans im im1 im2 k (r.result im2 e) }

requeue-Kept :
    (im : Impl) (id : ℕ) (n : OrderNode) (ref : LevelRef) (price quantity : ℕ)
    → Returns (Kept im) (requeue im id n ref price quantity)
unfolding requeue
requeue-Kept im id n ref price quantity =
    let im1 = get_or_create_level im n.side price in
    let new_ref = level_ref n.side price in
    Returns-read _ (level_at im1 new_ref) _ (λ level e.
      let activating = not (same_level new_ref ref) && level.order_count == 0 in
      let im2 = if activating then index_price im1 n.side price else im1 in
      let k2 =
        Kept-trans im im1 im2 (get_or_create_level-Kept im n.side price)
          (index_price-Kept activating im1 n.side price) in
      from_Kept im im2 _ k2 (
        then-Kept im2 _ _ (write_level-Kept im2 ref _) (λ im3.
          then-Kept im3 _ _ (detach-Kept im3 ref id) (λ im4.
            Returns-read _ (level_at im4 ref) _ (λ old_level e4.
              then-Kept im4 _ _
                (Returns-if _ _ _ _ (drop_level-Kept im4 n.side n.price)
                  (Returns-some _ _ (same-Kept im4 im4 refl)))
                (λ im5.
                  then-Kept im5 _ _ (write_node-Kept im5 id _)
                    (λ im6. append-Kept im6 new_ref id)))))))

moved-Tallied :
    (im : Impl) (run : Option Impl)
    → Returns (Kept im) run
    → Returns (Tallied im 0 0) (do im' ← run; some (true, im'))
moved-Tallied im run r =
    Returns-bind (Kept im) _ run _ r (λ im' k. Returns-some _ _ (Kept-Tallied im im' k))

modify_found-Tallied :
    (im : Impl) (id price quantity : ℕ) (n : OrderNode)
    → Returns (Tallied im 0 0) (modify_found im id price quantity n)
unfolding modify_found
modify_found-Tallied im id price quantity n =
    Returns-if _ _ _ _ (Returns-some _ _ (refused-Tallied im 0 0)) (
      Returns-read _ n.level _ (λ old_ref e.
        Returns-if _ _ _ _
          (Returns-bind (Kept im) _ _ _ (write_level-Kept im old_ref _) (λ im1 k1.
            Returns-bind (Kept im1) _ _ _ (write_node-Kept im1 id _)
              (λ im2 k2. Returns-some _ _ (Kept-Tallied im im2 (Kept-trans im im1 im2 k1 k2)))))
          (moved-Tallied im _ (requeue-Kept im id n old_ref price quantity))))

pub modify-Tallied :
    (im : Impl) (id price quantity : ℕ) → Returns (Tallied im 0 0) (modify im id price quantity)
unfolding modify
modify-Tallied im id price quantity = elim (Option-cases (node_at im id)) [
  | inl absent ↦ rw (modify, absent) (Returns-some _ _ (refused-Tallied im 0 0))
  | inr (n, here) ↦ rw (modify, here) (modify_found-Tallied im id price quantity n)
]

answers_true :
    (run : Option Impl) (r : Bool × Impl) → (do im' ← run; some (true, im')) ≡ some r → r.0 ≡ true
answers_true none r e = cc e
answers_true (some im) r e =
    let same : (true, im) ≡ r = cc e in sym (ap (λ (x : Bool × Impl). x.0) same)

replaced-Tallied :
    (im im1 : Impl) (old_id : ℕ) (r : Bool × Impl)
    → Tallied im 1 0 (true, im1)
    → contains im old_id ≡ true
    → erase_book im1 old_id ≡ some r
    → Tallied im 0 0 r
unfolding erase_book
replaced-Tallied im im1 old_id r t here run =
    let erased = (erase_book-Tallied im1 old_id).result r run in
    let there : contains im1 old_id ≡ true = t.stays old_id refl here in
    let ok : r.0 ≡ true = answers_true (erase_node im1 old_id) r (rw (erase_book, there) at run) in
    record {
      keys = λ u. erased.keys (t.keys u);
      count = λ u.
          let first = t.count u in
          let second : order_count r.1 + 1 ≡ order_count im1 + 0 =
            rw ok at (erased.count (t.keys u)) in
          rw ok (omega arith);
      stays = λ j l h. absurd (omega arith);
    }

-- The erasure that follows an insertion.
after_add :
    (im im1 : Impl) (old_id : ℕ) (added : Bool)
    → contains im old_id ≡ true
    → Tallied im 1 0 (added, im1)
    → Returns (Tallied im 0 0) (if added then erase_book im1 old_id else some (false, im1))
after_add im im1 old_id true here t = record {
  result = λ r run. replaced-Tallied im im1 old_id r t here run;
}
after_add im im1 old_id false here t =
    Returns-some _ _
      (record { keys = t.keys; count = t.count; stays = λ j l h. absurd (omega arith) })

replace_new-Tallied :
    (im : Impl) (old_id new_id : ℕ) (side : Side) (price quantity : ℕ)
    → contains im old_id ≡ true
    → Returns (Tallied im 0 0) (replace_new im old_id new_id side price quantity)
unfolding replace_new
replace_new-Tallied im old_id new_id side price quantity here =
    Returns-bind _ _ _ _ (add-Tallied im new_id side price quantity)
      (λ r t. after_add im r.1 old_id r.0 here t)

pub replace-Tallied :
    (im : Impl) (old_id new_id price quantity : ℕ)
    → Returns (Tallied im 0 0) (replace im old_id new_id price quantity)
unfolding replace contains
replace-Tallied im old_id new_id price quantity = elim (Option-cases (node_at im old_id)) [
  | inl absent ↦ rw (replace, absent) (Returns-some _ _ (refused-Tallied im 0 0))
  | inr (old, here) ↦
      rw (replace, here)
        (Returns-if _ _ _ _ (Returns-some _ _ (refused-Tallied im 0 0)) (
          Returns-if _ _ _ _ (modify-Tallied im old_id price quantity) (
            Returns-if _ _ _ _ (Returns-some _ _ (refused-Tallied im 0 0))
              (replace_new-Tallied im old_id new_id old.side price quantity (rw here refl)))))
]
