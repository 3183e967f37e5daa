-- ===== src/OrderBook/Links.antt =====
-- The doubly linked list of a level: what linking in, unlinking and changing a node do to it.
use nasdaq_itch_order_book_e.Base.{
  ℕ, ◌≡◌, refl, ◌∙◌, true, false, Option, none, some, [], ◌∷◌, ◌++◌, inl, inr, arith, ◌==◌,
  if◌then◌else◌, Bool-cases,
}
use mathlib.Core.Option
use nasdaq_itch_order_book_e.Common.{Side}
use nasdaq_itch_order_book_e.OrderBook.{OrderNode}
use nasdaq_itch_order_book_e.OrderBook.Queue.{
  Entry, Queue, has_id, Distinct, first, last_or, points, node_of, Chain, points-last_or,
  points-first, has_id-append, set_quantity, first-set_quantity,
}

abbrev pub Nodes : Type 0
Nodes = ℕ → Option OrderNode

abbrev pub with_next : Option ℕ → OrderNode → OrderNode
with_next next o = record o { next = next }

abbrev pub with_previous : Option ℕ → OrderNode → OrderNode
with_previous previous o = record o { previous = previous }

-- A node other than the one named, where there is a pointer to it.
abbrev pub Neighbour : Nodes → ℕ → Option ℕ → Type 0
Neighbour nodes id none = Unit {0}
Neighbour nodes id (some b) = ((b == id) ≡ false) × (n : OrderNode) × (nodes b ≡ some n)

pub eq_self : (id : ℕ) → (id == id) ≡ true
eq_self id = ground arith

pub absent :
    (x : ℕ) (es : Queue) (id : ℕ) → has_id x es ≡ false → has_id id es ≡ true → (x == id) ≡ false
absent x es id h k = elim (Bool-cases (x == id)) [
  | inl t ↦ let same : x ≡ id = ground arith in let h' = (rw same at h) in cc
  | inr f ↦ f
]

not_in_front :
    (id : ℕ) (xs : Queue) (e : Entry) (bs : Queue)
    → has_id id (xs ++ e ∷ bs) ≡ false
    → (has_id id xs ≡ false) × ((e.id == id) ≡ false) × (has_id id bs ≡ false)
not_in_front id xs e bs h = ground (arith, has_id-append id xs (e ∷ bs))

pub Neighbour-mono :
    (nodes nodes' : Nodes) (id : ℕ) (t : Option ℕ)
    → ((j : ℕ) → (id == j) ≡ false → nodes' j ≡ nodes j)
    → Neighbour nodes id t
    → Neighbour nodes' id t
Neighbour-mono nodes nodes' id none same n = tt
Neighbour-mono nodes nodes' id (some b) same n = (n.0, n.1, same b (ground arith) ∙ n.2)

module _ (side : Side) (price : ℕ) where
  -- Nodes that do not change keep standing for their queue.
  pub frame :
      (nodes nodes' : Nodes) (before : Option ℕ) (es : Queue)
      → ((id : ℕ) → has_id id es ≡ true → nodes' id ≡ nodes id)
      → Chain nodes side price before es
      → Chain nodes' side price before es
  frame nodes nodes' before [] same c = tt
  frame nodes nodes' before (e ∷ es) same c = (
    rw (same e.id (rw (eq_self e.id))) c.0,
    frame nodes nodes' (some e.id) es (λ id h. same id (rw h (ground arith))) c.1,
  )

  link_head :
      (nodes nodes' : Nodes) (before : Option ℕ) (x : Entry) (xs : Queue) (e : Entry)
      → has_id x.id xs ≡ false
      → nodes' x.id ≡ (
          if points (last_or (some x.id) xs) x.id
          then Option.map (with_next (some e.id)) (nodes x.id)
          else nodes x.id)
      → nodes x.id ≡ some (node_of side price before (first xs) x)
      → nodes' x.id ≡ some (node_of side price before (first (xs ++ e ∷ [])) x)
  link_head nodes nodes' before x [] e d old c = old ∙ rw (eq_self x.id, c)
  link_head nodes nodes' before x (y ∷ ys) e d old c =
      let other = points-last_or (some y.id) ys x.id (ground arith) (ground arith) in
      old ∙ rw (other, c)

  -- `append`: a new last node, to which the old last node is linked.
  pub link_last :
      (nodes nodes' : Nodes) (before : Option ℕ) (es : Queue) (e : Entry)
      → Distinct es
      → has_id e.id es ≡ false
      → nodes' e.id ≡ some (node_of side price (last_or before es) none e)
      → ((id : ℕ)
          → (e.id == id) ≡ false
          → nodes' id ≡ (
              if points (last_or before es) id
              then Option.map (with_next (some e.id)) (nodes id)
              else nodes id))
      → Chain nodes side price before es
      → Chain nodes' side price before (es ++ e ∷ [])
  link_last nodes nodes' before [] e d out new old c = (new, tt)
  link_last nodes nodes' before (x ∷ xs) e d out new old c = (
    link_head nodes nodes' before x xs e d.0 (old x.id (ground arith)) c.0,
    link_last nodes nodes' (some x.id) xs e d.1 (ground arith) new old c.1,
  )

  -- What `detach` does to the nodes other than the one that goes.
  abbrev pub Unlinked : Nodes → Nodes → ℕ → Option ℕ → Option ℕ → Type 0
  Unlinked nodes nodes' gone previous next =
      (id : ℕ)
      → (gone == id) ≡ false
      → nodes' id ≡ (
          if points next id
          then Option.map (with_previous previous) (nodes id)
          else if points previous id
          then Option.map (with_next next) (nodes id)
          else nodes id)

  unlink_after :
      (nodes nodes' : Nodes) (e : Entry) (before : Option ℕ) (bs : Queue)
      → Distinct bs
      → has_id e.id bs ≡ false
      → ((id : ℕ) → has_id id bs ≡ true → points before id ≡ false)
      → Unlinked nodes nodes' e.id before (first bs)
      → Chain nodes side price (some e.id) bs
      → Chain nodes' side price before bs
  unlink_after nodes nodes' e before [] d out apart un c = tt
  unlink_after nodes nodes' e before (b ∷ bs) d out apart un c = (
    un b.id (ground arith) ∙ rw (eq_self b.id, c.0),
    frame nodes nodes' (some b.id) bs
        (λ id h.
          let far : (b.id == id) ≡ false = absent b.id bs id d.0 h in
          un id (absent e.id bs id (ground arith) h) ∙ rw (far, apart id (rw h (ground arith))))
        c.1,
  )

  unlink_head :
      (nodes nodes' : Nodes) (before : Option ℕ) (x : Entry) (xs : Queue) (e : Entry) (bs : Queue)
      → has_id x.id (xs ++ e ∷ bs) ≡ false
      → Unlinked nodes nodes' e.id (last_or (some x.id) xs) (first bs)
      → nodes x.id ≡ some (node_of side price before (first (xs ++ e ∷ bs)) x)
      → nodes' x.id ≡ some (node_of side price before (first (xs ++ bs)) x)
  unlink_head nodes nodes' before x [] e bs d un c =
      let out = not_in_front x.id [] e bs d in
      un x.id out.1 ∙ rw (points-first bs x.id out.2, eq_self x.id, c)
  unlink_head nodes nodes' before x (y ∷ ys) e bs d un c =
      let out = not_in_front x.id (y ∷ ys) e bs d in
      let other = points-last_or (some y.id) ys x.id (ground arith) (ground arith) in
      un x.id out.1 ∙ rw (points-first bs x.id out.2, other, c)

  -- `detach`: the neighbours of a node are linked to each other.
  pub unlink :
      (nodes nodes' : Nodes) (before : Option ℕ) (xs : Queue) (e : Entry) (bs : Queue)
      → Distinct (xs ++ e ∷ bs)
      → ((id : ℕ) → has_id id (xs ++ e ∷ bs) ≡ true → points before id ≡ false)
      → Unlinked nodes nodes' e.id (last_or before xs) (first bs)
      → Chain nodes side price before (xs ++ e ∷ bs)
      → Chain nodes' side price before (xs ++ bs)
  unlink nodes nodes' before [] e bs d apart un c =
      unlink_after nodes nodes' e before bs d.1 d.0 (λ id h. apart id (rw h (ground arith))) un c.1
  unlink nodes nodes' before (x ∷ xs) e bs d apart un c = (
    unlink_head nodes nodes' before x xs e bs d.0 un c.0,
    unlink nodes nodes' (some x.id) xs e bs d.1 (λ id h. absent x.id (xs ++ e ∷ bs) id d.0 h) un
        c.1,
  )

  -- A change of an order's quantity, in place.
  pub requantify :
      (nodes nodes' : Nodes) (id quantity : ℕ) (before : Option ℕ) (es : Queue)
      → ((j : ℕ)
          → nodes' j ≡ (
              if id == j
              then Option.map (λ (o : OrderNode). record o { quantity = quantity }) (nodes j)
              else nodes j))
      → Chain nodes side price before es
      → Chain nodes' side price before (set_quantity id quantity es)
  unfolding set_quantity
  requantify nodes nodes' id quantity before [] change c = tt
  requantify nodes nodes' id quantity before (e ∷ es) change c = (
    change e.id ∙ rw (c.0, first-set_quantity id quantity es) (ground arith),
    requantify nodes nodes' id quantity (some e.id) es change c.1,
  )

  -- The nodes of a queue are there, and name their side and price.
  pub Chain-node :
      (nodes : Nodes) (before : Option ℕ) (es : Queue) (id : ℕ)
      → Chain nodes side price before es
      → has_id id es ≡ true
      → (n : OrderNode) × (nodes id ≡ some n) × (n.id ≡ id) × (n.side ≡ side) × (n.price ≡ price)
  Chain-node nodes before [] id c h = cc
  Chain-node nodes before (e ∷ es) id c h = elim (Bool-cases (e.id == id)) [
    | inl t ↦
        let same : e.id ≡ id = ground arith in
        (node_of side price before (first es) e, rw (← same) c.0, same, refl, refl)
    | inr f ↦ Chain-node nodes (some e.id) es id c.1 (ground arith)
  ]

  pub last-Neighbour :
      (nodes : Nodes) (id : ℕ) (before : Option ℕ) (es : Queue)
      → has_id id es ≡ false
      → Neighbour nodes id before
      → Chain nodes side price before es
      → Neighbour nodes id (last_or before es)
  last-Neighbour nodes id before [] out n c = n
  last-Neighbour nodes id before (e ∷ es) out n c =
      last-Neighbour nodes id (some e.id) es (ground arith) (ground arith, _, c.0) c.1

  pub first-Neighbour :
      (nodes : Nodes) (id : ℕ) (before : Option ℕ) (es : Queue)
      → has_id id es ≡ false
      → Chain nodes side price before es
      → Neighbour nodes id (first es)
  first-Neighbour nodes id before [] out c = tt
  first-Neighbour nodes id before (e ∷ es) out c = (ground arith, _, c.0)

  -- The node of an order in the middle of a queue, and its neighbours.
  pub Chain-at :
      (nodes : Nodes) (before : Option ℕ) (xs : Queue) (e : Entry) (bs : Queue)
      → Distinct (xs ++ e ∷ bs)
      → Neighbour nodes e.id before
      → Chain nodes side price before (xs ++ e ∷ bs)
      → (nodes e.id ≡ some (node_of side price (last_or before xs) (first bs) e))
        × Neighbour nodes e.id (last_or before xs)
        × Neighbour nodes e.id (first bs)
  Chain-at nodes before [] e bs d n c = (c.0, n, first-Neighbour nodes e.id (some e.id) bs d.0 c.1)
  Chain-at nodes before (x ∷ xs) e bs d n c =
      let out = not_in_front x.id xs e bs d.0 in
      Chain-at nodes (some x.id) xs e bs d.1 (ground arith, _, c.0) c.1

pub Distinct-remove :
    (xs : Queue) (e : Entry) (bs : Queue)
    → Distinct (xs ++ e ∷ bs)
    → Distinct (xs ++ bs) × (has_id e.id xs ≡ false) × (has_id e.id bs ≡ false)
Distinct-remove [] e bs d = (d.1, refl, d.0)
Distinct-remove (x ∷ xs) e bs d =
    let rest = Distinct-remove xs e bs d.1 in
    let out = not_in_front x.id xs e bs d.0 in
    ((ground (arith, has_id-append x.id xs bs), rest.0), ground arith, rest.2)
