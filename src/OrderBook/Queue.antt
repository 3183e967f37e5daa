-- ===== src/OrderBook/Queue.antt =====
-- The FIFO queue of one price level as a plain list, and the doubly linked nodes that stand for it.
use nasdaq_itch_order_book_e.Base.{
  ℕ, suc, ◌+◌, ◌%◌, ◌^◌, ◌<◌, ◌≡◌, refl, ap, Bool, true, false, ◌||◌, Option, none, some, List, [],
  ◌∷◌, ◌++◌, inl, inr, arith, ◌==◌, if◌then◌else◌, length, Bool-cases,
}
use nasdaq_itch_order_book_e.Common.{Side}
use nasdaq_itch_order_book_e.OrderBook.{OrderNode, PriceLevel, level_ref}

-- A resting order as its level sees it.
pub record Entry : Type 0 where
  pub id : ℕ
  pub quantity : ℕ

abbrev pub entry : ℕ → ℕ → Entry
entry id quantity = record { id = id; quantity = quantity }

abbrev pub Queue : Type 0
Queue = List Entry

abbrev pub is_empty : Queue → Bool
is_empty [] = true
is_empty (e ∷ es) = false

abbrev pub has_id : ℕ → Queue → Bool
has_id id [] = false
has_id id (e ∷ es) = e.id == id || has_id id es

abbrev pub Distinct : Queue → Type 0
Distinct [] = Unit {0}
Distinct (e ∷ es) = (has_id e.id es ≡ false) × Distinct es

abbrev pub total : Queue → ℕ
total [] = 0
total (e ∷ es) = e.quantity + total es

-- The first order, and the last one, or what stands before the queue.
abbrev pub first : Queue → Option ℕ
first [] = none
first (e ∷ es) = some e.id

abbrev pub last_or : Option ℕ → Queue → Option ℕ
last_or before [] = before
last_or before (e ∷ es) = last_or (some e.id) es

-- Whether a pointer leads to the order.
abbrev pub points : Option ℕ → ℕ → Bool
points none id = false
points (some target) id = target == id

-- The queue without an order; the queue with an order's quantity set.
unfoldable pub remove : ℕ → Queue → Queue
remove id [] = []
remove id (e ∷ es) = if e.id == id then es else e ∷ remove id es

unfoldable pub set_quantity : ℕ → ℕ → Queue → Queue
set_quantity id quantity [] = []
set_quantity id quantity (e ∷ es) =
    record e { quantity = if e.id == id then quantity else e.quantity }
    ∷ set_quantity id quantity es

-- What the level record holds for a queue.
abbrev pub level_of : ℕ → Queue → PriceLevel
level_of price es = record {
  price = price;
  quantity = total es % 2 ^ 64;
  order_count = length es % 2 ^ 64;
  head = first es;
  tail = last_or none es;
}

abbrev pub node_of : Side → ℕ → Option ℕ → Option ℕ → Entry → OrderNode
node_of side price previous next e = record {
  id = e.id;
  side = side;
  price = price;
  quantity = e.quantity;
  level = some (level_ref side price);
  previous = previous;
  next = next;
}

-- The nodes stand for the queue, from `before` on.
module _ (nodes : ℕ → Option OrderNode) (side : Side) (price : ℕ) where
  abbrev pub Chain : Option ℕ → Queue → Type 0
  Chain before [] = Unit {0}
  Chain before (e ∷ es) =
      (nodes e.id ≡ some (node_of side price before (first es) e)) × Chain (some e.id) es

pub points-last_or :
    (before : Option ℕ) (es : Queue) (id : ℕ)
    → points before id ≡ false
    → has_id id es ≡ false
    → points (last_or before es) id ≡ false
points-last_or before [] id p h = p
points-last_or before (e ∷ es) id p h =
    points-last_or (some e.id) es id (ground arith) (ground arith)

pub points-first : (es : Queue) (id : ℕ) → has_id id es ≡ false → points (first es) id ≡ false
points-first [] id h = refl
points-first (e ∷ es) id h = ground arith

pub has_id-append : (id : ℕ) (xs ys : Queue) → has_id id (xs ++ ys) ≡ (has_id id xs || has_id id ys)
has_id-append id [] ys = refl
has_id-append id (x ∷ xs) ys = ground (arith, has_id-append id xs ys)

pub total-append : (xs ys : Queue) → total (xs ++ ys) ≡ total xs + total ys
total-append [] ys = omega arith
total-append (x ∷ xs) ys = omega (arith, total-append xs ys)

pub last_or-append :
    (before : Option ℕ) (xs ys : Queue) → last_or before (xs ++ ys) ≡ last_or (last_or before xs) ys
last_or-append before [] ys = refl
last_or-append before (x ∷ xs) ys = last_or-append (some x.id) xs ys

-- An order of the queue splits it.
pub record Split (id : ℕ) (es : Queue) : Type 0 where
  pub front : Queue
  pub at : Entry
  pub back : Queue
  pub same : es ≡ front ++ (at ∷ back)
  pub hit : at.id ≡ id
  pub rest : remove id es ≡ front ++ back

pub split : (id : ℕ) (es : Queue) → has_id id es ≡ true → Split id es
unfolding remove
split id [] h = cc
split id (e ∷ es) h = elim (Bool-cases (e.id == id)) [
  | inl t ↦ record { front = []; at = e; back = es; same = refl; hit = ground arith; rest = rw t }
  | inr f ↦
      let s = split id es (ground arith) in
      record {
        front = e ∷ s.front;
        at = s.at;
        back = s.back;
        same = ap (λ (t : Queue). e ∷ t) s.same;
        hit = s.hit;
        rest = rw (f, s.rest);
      }
]

pub first-set_quantity : (id q : ℕ) (es : Queue) → first (set_quantity id q es) ≡ first es
unfolding set_quantity
first-set_quantity id q [] = refl
first-set_quantity id q (e ∷ es) = refl

pub last_or-set_quantity :
    (before : Option ℕ) (id q : ℕ) (es : Queue)
    → last_or before (set_quantity id q es) ≡ last_or before es
unfolding set_quantity
last_or-set_quantity before id q [] = refl
last_or-set_quantity before id q (e ∷ es) = last_or-set_quantity (some e.id) id q es

pub length-set_quantity : (id q : ℕ) (es : Queue) → length (set_quantity id q es) ≡ length es
unfolding set_quantity
length-set_quantity id q [] = refl
length-set_quantity id q (e ∷ es) = ap suc (length-set_quantity id q es)

pub has_id-set_quantity : (j id q : ℕ) (es : Queue) → has_id j (set_quantity id q es) ≡ has_id j es
unfolding set_quantity
has_id-set_quantity j id q [] = refl
has_id-set_quantity j id q (e ∷ es) = rw (has_id-set_quantity j id q es)

pub set_quantity-Distinct : (id q : ℕ) (es : Queue) → Distinct es → Distinct (set_quantity id q es)
unfolding set_quantity
set_quantity-Distinct id q [] d = tt
set_quantity-Distinct id q (e ∷ es) d =
    (rw (has_id-set_quantity e.id id q es) d.0, set_quantity-Distinct id q es d.1)

pub last_or-some : (b : ℕ) (es : Queue) → (t : ℕ) × (last_or (some b) es ≡ some t)
last_or-some b [] = (b, refl)
last_or-some b (e ∷ es) = last_or-some e.id es

pub Distinct-cross :
    (xs : Queue) (e : Entry) (bs : Queue) (id : ℕ)
    → Distinct (xs ++ e ∷ bs)
    → has_id id xs ≡ true
    → has_id id bs ≡ false
Distinct-cross [] e bs id d h = cc
Distinct-cross (x ∷ xs) e bs id d h = elim (Bool-cases (x.id == id)) [
  | inl t ↦
      let same : x.id ≡ id = ground arith in
      let out : has_id id (xs ++ e ∷ bs) ≡ false = rw same at d.0 in
      ground (arith, has_id-append id xs (e ∷ bs))
  | inr f ↦ Distinct-cross xs e bs id d.1 (ground arith)
]

pub is_empty-mid : (xs : Queue) (e : Entry) (bs : Queue) → is_empty (xs ++ e ∷ bs) ≡ false
is_empty-mid [] e bs = refl
is_empty-mid (x ∷ xs) e bs = refl

pub count-is_empty : (es : Queue) → length es < 2 ^ 64 → (length es % 2 ^ 64 == 0) ≡ is_empty es
count-is_empty [] h = refl
count-is_empty (e ∷ es) h = ground arith
