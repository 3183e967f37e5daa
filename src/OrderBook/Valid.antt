-- ===== src/OrderBook/Valid.antt =====
-- The invariant of a book: its store stands for one FIFO queue per side and price.
use nasdaq_itch_order_book_e.Base.{
  ℕ, ◌^◌, ◌<◌, ◌≡◌, refl, sym, ap, ◌∙◌, true, false, not, Option, none, some, [], ◌∷◌, inl, inr,
  ◌⊎◌, arith, ◌==◌, if◌then◌else◌, Bool-cases, length,
}
use mathlib.Core.Option.{some-injective}
use nasdaq_itch_order_book_e.Common.{Side, buy, sell}
use nasdaq_itch_order_book_e.PriceIndex.{PriceIndex}
use nasdaq_itch_order_book_e.PriceIndex.Contents
use nasdaq_itch_order_book_e.OrderBook.{
  Impl, OrderNode, PriceLevel, LevelRef, side_index, same_level, level_ref, node_at, level_at,
}
use nasdaq_itch_order_book_e.OrderBook.Queue.{Queue, is_empty, has_id, Distinct, level_of, Chain}
use nasdaq_itch_order_book_e.OrderBook.Links.{frame, Chain-node}

-- What the orders of each level are, oldest first.
abbrev pub Queues : Type 0
Queues = LevelRef → Queue

abbrev pub set_queue : Queues → LevelRef → Queue → Queues
set_queue qs r es r' = if same_level r r' then es else qs r'

-- A level is in its map exactly while it has an order.
abbrev pub level_for : ℕ → Queue → Option PriceLevel
level_for price es = if is_empty es then none else some (level_of price es)

abbrev pub Sized : Queue → Type 0
Sized [] = Unit {0}
Sized (e ∷ es) = ((0 < e.quantity) × (e.quantity < 2 ^ 32)) × Sized es

abbrev pub index_of : Impl → Side → PriceIndex
index_of im s = im.indices (side_index s)

pub record IsValid (im : Impl) (qs : Queues) : Type 0 where
  pub levels : (r : LevelRef) → level_at im r ≡ level_for r.price (qs r)
  pub chains : (r : LevelRef) → Chain (node_at im) r.side r.price none (qs r)
  pub distinct : (r : LevelRef) → Distinct (qs r)
  pub sized : (r : LevelRef) → Sized (qs r)
  pub short : (r : LevelRef) → length (qs r) < 2 ^ 64
  pub priced : (r : LevelRef) → is_empty (qs r) ≡ false → r.price < 2 ^ 32
  pub owned :
      (id : ℕ) (n : OrderNode)
      → node_at im id ≡ some n
      → has_id id (qs (level_ref n.side n.price)) ≡ true
  pub indexed : (s : Side) → Contents.IsWell (index_of im s)
  pub active :
      (r : LevelRef)
      → r.price < 2 ^ 32
      → Contents.has (index_of im r.side) r.price ≡ not (is_empty (qs r))

side_of_index : (s t : Side) → (side_index s == side_index t) ≡ true → s ≡ t
side_of_index buy buy h = refl
side_of_index buy sell h = cc
side_of_index sell buy h = cc
side_of_index sell sell h = refl

pub eq_of_same_level : (r s : LevelRef) → same_level r s ≡ true → r ≡ s
eq_of_same_level r s h =
    let side = side_of_index r.side s.side (ground arith) in
    let price : r.price ≡ s.price = ground arith in λ i. record { side = side i; price = price i }

same_level_of : (r s : LevelRef) → r.side ≡ s.side → r.price ≡ s.price → same_level r s ≡ true
same_level_of r s side price = ground arith

-- A change of the store that concerns one level.
pub record Change (im im' : Impl) (qs : Queues) (r : LevelRef) (es : Queue) : Type 0 where
  pub level : level_at im' r ≡ level_for r.price es
  pub chain : Chain (node_at im') r.side r.price none es
  pub distinct : Distinct es
  pub sized : Sized es
  pub short : length es < 2 ^ 64
  pub priced : is_empty es ≡ false → r.price < 2 ^ 32
  pub other_levels : (s : LevelRef) → same_level r s ≡ false → level_at im' s ≡ level_at im s
  pub other_nodes :
      (j : ℕ) → has_id j (qs r) ≡ false → has_id j es ≡ false → node_at im' j ≡ node_at im j
  pub arrived : (j : ℕ) → has_id j es ≡ true → (has_id j (qs r) ≡ true) ⊎ (node_at im j ≡ none)
  pub gone : (j : ℕ) → has_id j (qs r) ≡ true → has_id j es ≡ false → node_at im' j ≡ none
  pub indexed : (s : Side) → Contents.IsWell (index_of im' s)
  pub active :
      (s : LevelRef)
      → s.price < 2 ^ 32
      → Contents.has (index_of im' s.side) s.price
        ≡ (if same_level r s then not (is_empty es) else Contents.has (index_of im s.side) s.price)

module _ {im : Impl} {qs : Queues} (v : IsValid im qs) where
  -- An order is in one queue only.
  pub apart :
      (r s : LevelRef) (id : ℕ)
      → same_level r s ≡ false
      → has_id id (qs s) ≡ true
      → has_id id (qs r) ≡ false
  apart r s id d h = elim (Bool-cases (has_id id (qs r))) [
    | inr f ↦ f
    | inl t ↦
        let (n, e, _, side, price) =
          Chain-node r.side r.price (node_at im) none (qs r) id (v.chains r) t in
        let (m, e', _, side', price') =
          Chain-node s.side s.price (node_at im) none (qs s) id (v.chains s) h in
        let same = some-injective n m (sym e ∙ e') in
        let hit =
          same_level_of r s (sym side ∙ ap (λ (o : OrderNode). o.side) same ∙ side')
            (sym price ∙ ap (λ (o : OrderNode). o.price) same ∙ price') in
        cc
  ]

  pub unowned : (r : LevelRef) (id : ℕ) → node_at im id ≡ none → has_id id (qs r) ≡ false
  unowned r id e = elim (Bool-cases (has_id id (qs r))) [
    | inr f ↦ f
    | inl t ↦
        let (n, e', _, _, _) =
          Chain-node r.side r.price (node_at im) none (qs r) id (v.chains r) t in
        cc
  ]

  module _ {im' : Impl} (r : LevelRef) (es : Queue) (c : Change im im' qs r es) where
    not_arrived :
        (s : LevelRef) (j : ℕ)
        → same_level r s ≡ false
        → has_id j (qs s) ≡ true
        → has_id j es ≡ false
    not_arrived s j d h = elim (Bool-cases (has_id j es)) [
      | inr f ↦ f
      | inl t ↦ elim (c.arrived j t) [
        | inl old ↦ let out = apart r s j d h in cc
        | inr new ↦ let out = unowned s j new in cc
      ]
    ]

    chains_after : (s : LevelRef) → Chain (node_at im') s.side s.price none (set_queue qs r es s)
    chains_after s = elim (Bool-cases (same_level r s)) [
      | inl t ↦ let e = eq_of_same_level r s t in rw (t, ← e) c.chain
      | inr f ↦ rw f (
          frame s.side s.price (node_at im) (node_at im') none (qs s)
            (λ j h. c.other_nodes j (apart r s j f h) (not_arrived s j f h)) (v.chains s))
    ]

    levels_after : (s : LevelRef) → level_at im' s ≡ level_for s.price (set_queue qs r es s)
    levels_after s = elim (Bool-cases (same_level r s)) [
      | inl t ↦ let e = eq_of_same_level r s t in rw (t, ← e) c.level
      | inr f ↦ rw f (c.other_levels s f ∙ v.levels s)
    ]

    owned_after :
        (j : ℕ) (n : OrderNode)
        → node_at im' j ≡ some n
        → has_id j (set_queue qs r es (level_ref n.side n.price)) ≡ true
    owned_after j n h = elim (Bool-cases (has_id j es)) [
      | inl t ↦
          let (m, e, _, side, price) =
            Chain-node r.side r.price (node_at im') none es j c.chain t in
          let same = some-injective n m (sym h ∙ e) in
          let hit =
            same_level_of r (level_ref n.side n.price)
              (sym side ∙ ap (λ (o : OrderNode). o.side) (sym same))
              (sym price ∙ ap (λ (o : OrderNode). o.price) (sym same)) in
          rw hit t
      | inr f ↦ elim (Bool-cases (has_id j (qs r))) [
        | inl t ↦ let none' = c.gone j t f in cc
        | inr f' ↦
            let old = v.owned j n (sym (c.other_nodes j f' f) ∙ h) in
            elim (Bool-cases (same_level r (level_ref n.side n.price))) [
              | inl t ↦
                  let e = eq_of_same_level r (level_ref n.side n.price) t in
                  let old' : has_id j (qs r) ≡ true = rw e old in cc
              | inr d ↦ rw d old
            ]
      ]
    ]

    active_after :
        (s : LevelRef)
        → s.price < 2 ^ 32
        → Contents.has (index_of im' s.side) s.price ≡ not (is_empty (set_queue qs r es s))
    active_after s h = elim (Bool-cases (same_level r s)) [
      | inl t ↦ c.active s h ∙ rw t
      | inr f ↦ c.active s h ∙ rw f (v.active s h)
    ]

    priced_after : (s : LevelRef) → is_empty (set_queue qs r es s) ≡ false → s.price < 2 ^ 32
    priced_after s h = elim (Bool-cases (same_level r s)) [
      | inl t ↦
          let e = eq_of_same_level r s t in
          let here : is_empty es ≡ false = rw t at h in rw (← e) (c.priced here)
      | inr f ↦ v.priced s (rw f at h)
    ]

    -- A change of one level keeps the invariant.
    pub Change-IsValid : IsValid im' (set_queue qs r es)
    Change-IsValid = record {
      levels = levels_after;
      chains = chains_after;
      distinct = λ s. by_level s Distinct c.distinct (v.distinct s);
      sized = λ s. by_level s Sized c.sized (v.sized s);
      short = λ s. by_level s (λ (q : Queue). length q < 2 ^ 64) c.short (v.short s);
      priced = priced_after;
      owned = owned_after;
      indexed = c.indexed;
      active = active_after;
    }
      where
        by_level : (s : LevelRef) (P : Queue → Type 0) → P es → P (qs s) → P (set_queue qs r es s)
        by_level s P here there = elim (Bool-cases (same_level r s)) [
          | inl t ↦ rw t here
          | inr f ↦ rw f there
        ]
