-- ===== src/MatchingEngine/Filling.antt =====
-- The matching loop against a valid book.
use nasdaq_itch_order_book_e.Base.{
  ℕ, ◌-◌, zero, suc, ◌+◌, ◌^◌, ◌<◌, ◌≡◌, refl, Bool, true, false, ◌||◌, ◌&&◌, not, Option, none,
  some, [], ◌∷◌, ◌==◌, ltb, inl, inr, ◌⊎◌, arith, Bool-cases,
}
use nasdaq_itch_order_book_e.Common.{Side, buy, sell, opposite, is_buy}
use nasdaq_itch_order_book_e.PriceIndex.Tier.{Before}
use nasdaq_itch_order_book_e.OrderBook.{OrderNode, level_ref, node_at, execute, OrderView}
use nasdaq_itch_order_book_e.OrderBook.Queue.{Queue, is_empty, Chain}
use nasdaq_itch_order_book_e.OrderBook.Valid.{Queues, IsValid, Sized}
use nasdaq_itch_order_book_e.OrderBook.Operations.{cancel_lem, ref_of}
use nasdaq_itch_order_book_e.OrderBook.Lengths.{Within, Within-cancel}
use nasdaq_itch_order_book_e.OrderBook.Reads.{
  IsTop, no_price, top, front_for, front_order_lem, best_bid_lem, best_ask_lem,
}
use nasdaq_itch_order_book_e.OrderBook.Queries.{front_order}
use nasdaq_itch_order_book_e.MatchingEngine.Matching.{
  MatchState, best_opposite, crosses, fill_quantity, after_fill, match_at, match_round, match_from,
}

-- A state of the loop: its book is valid with queues no longer than the bound, and what is filled and what remains make the order.
pub record Filling (k quantity : ℕ) (s : MatchState) : Type 0 where
  pub queues : Queues
  pub valid : IsValid s.book queues
  pub bounded : Within k queues
  pub accepted : s.result.accepted ≡ true
  pub whole : s.result.filled + s.remaining ≡ quantity
  pub unfilled : s.result.unfilled ≡ 0

-- The queue in front of the round has an order.
pub record Front (s : MatchState) (side : Side) (price : ℕ) (view : OrderView) : Type 0 where
  pub found : front_order s.book side price ≡ some (some view)
  pub node : OrderNode
  pub at : node_at s.book view.order_id ≡ some node
  pub same : node.quantity ≡ view.quantity
  pub positive : 0 < view.quantity
  pub small : view.quantity < 2 ^ 32

module _ (k quantity : ℕ) (small : quantity < 2 ^ 32) where
  pub Front-at :
      (s : MatchState) (side : Side) (price : ℕ) (f : Filling k quantity s)
      → is_empty (f.queues (level_ref side price)) ≡ false
      → (view : OrderView) × Front s side price view
  Front-at s side price f h =
      go (f.queues (level_ref side price)) (f.valid.chains (level_ref side price))
        (f.valid.sized (level_ref side price)) (front_order_lem f.valid side price) h
    where
      go :
          (es : Queue)
          → Chain (node_at s.book) side price none es
          → Sized es
          → front_order s.book side price ≡ some (front_for side price es)
          → is_empty es ≡ false
          → (view : OrderView) × Front s side price view
      go [] c z e h = cc
      go (x ∷ es) c z e h = (
        record { order_id = x.id; side = side; price = price; quantity = x.quantity },
        record { found = e; node = _; at = c.0; same = refl; positive = z.0.0; small = z.0.1 },
      )

  pub best_lem :
      (side : Side) (s : MatchState) (f : Filling k quantity s)
      → IsTop (is_buy (opposite side)) (opposite side) f.queues (best_opposite side s.book)
  unfolding opposite
  best_lem buy s f = best_ask_lem f.valid
  best_lem sell s f = best_bid_lem f.valid

  away :
      (side : Side) (limit_price : ℕ) (has_limit : Bool) (p q : ℕ)
      → Before (is_buy (opposite side)) p q
      → (has_limit && not (crosses side limit_price p)) ≡ true
      → (has_limit && not (crosses side limit_price q)) ≡ true
  unfolding opposite
  away buy limit_price has_limit p q b h = ground arith
  away sell limit_price has_limit p q b h = ground arith

  module _ (side : Side) (limit_price : ℕ) (has_limit : Bool) (capacity : ℕ) where
    abbrev pub Filled : MatchState → Option (Bool × MatchState) → Type 0
    Filled s r =
        (s' : MatchState) × (r ≡ some (true, s'))
        × Filling k quantity s'
        × (s'.remaining < s.remaining)

    Filled-at :
        (s : MatchState) (price : ℕ) (f : Filling k quantity s)
        → 0 < s.remaining
        → is_empty (f.queues (level_ref (opposite side) price)) ≡ false
        → Filled s (match_at side limit_price has_limit capacity s price)
    unfolding match_at execute
    Filled-at s price f left h =
        let (view, front) = Front-at s (opposite side) price f h in
        let amount = fill_quantity s.remaining view in
        let same : front.node.quantity ≡ view.quantity = front.same in
        let positive : 0 < view.quantity = front.positive in
        let bounded : view.quantity < 2 ^ 32 = front.small in
        let allowed : not (amount == 0 || ltb front.node.quantity amount) ≡ true = ground arith in
        let run = cancel_lem f.valid view.order_id amount front.node front.at in
        let whole : s.result.filled + s.remaining ≡ quantity = f.whole in
        (
          after_fill capacity s run.book price view,
          rw (front.found, run.ended, allowed) refl,
          record {
            queues = _;
            valid = run.valid;
            bounded =
                Within-cancel k f.queues f.bounded _ (amount == front.node.quantity)
                  (ref_of front.node) view.order_id (front.node.quantity - amount);
            accepted = f.accepted;
            whole = ground arith;
            unfilled = f.unfilled;
          },
          ground arith,
        )

    -- No resting order of the other side has a price that the order may trade at.
    abbrev pub Exhausted : MatchState → Queues → Type 0
    Exhausted s queues =
        (q : ℕ)
        → q < 2 ^ 32
        → is_empty (queues (level_ref (opposite side) q)) ≡ false
        → (has_limit && not (crosses side limit_price q)) ≡ true

    -- The end of the loop.
    pub record Matched (r : Option MatchState) : Type 0 where
      pub state : MatchState
      pub ended : r ≡ some state
      pub filling : Filling k quantity state
      pub rest : (state.remaining ≡ 0) ⊎ Exhausted state filling.queues

    abbrev pub Stopped : (s : MatchState) → Queues → Option (Bool × MatchState) → Type 0
    Stopped s queues r = (r ≡ some (false, s)) × ((s.remaining ≡ 0) ⊎ Exhausted s queues)

    pub round_lem :
        (s : MatchState) (f : Filling k quantity s)
        → Stopped s f.queues (match_round side limit_price has_limit capacity s)
          ⊎ Filled s (match_round side limit_price has_limit capacity s)
    unfolding match_round
    round_lem s f = elim (Bool-cases (s.remaining == 0)) [
      | inl z ↦ inl (rw z refl, inl (ground arith))
      | inr left ↦ elim (best_lem side s f) [
        | no_price e empty ↦ inl (rw (left, e) refl, inr (λ q h n. let e' = empty q h in cc))
        | top p e h here before ↦
            elim (Bool-cases (has_limit && not (crosses side limit_price p))) [
              | inl far ↦ inl (
                rw (left, e, far) refl,
                inr (λ q h n. away side limit_price has_limit p q (before q h n) far),
              )
              | inr near ↦
                  let (s', e', f', less) = Filled-at s p f (ground arith) here in
                  inr (s', rw (left, e, near) e', f', less)
            ]
      ]
    ]

    -- With more fuel than shares that remain, for an order below 2 ^ 32 shares and a valid book with queues no
    -- longer than k, the matching loop ends. The book that is left is valid with queues no longer than k,
    -- the shares filled and the shares that remain make the order, and either nothing remains or no order
    -- of the other side, at any 32-bit price, may trade with what remains.
    pub match_from_lem :
        (fuel : ℕ) (s : MatchState)
        → Filling k quantity s
        → s.remaining < fuel
        → Matched (match_from side limit_price has_limit capacity fuel s)
    unfolding match_from
    match_from_lem zero s f h = ground arith
    match_from_lem (suc fuel) s f h = elim (round_lem s f) [
      | inl (e, rest) ↦ record { state = s; ended = rw e refl; filling = f; rest = rest }
      | inr (s', e, f', less) ↦
          let run = match_from_lem fuel s' f' (omega arith) in
          record {
            state = run.state;
            ended = rw e run.ended;
            filling = run.filling;
            rest = run.rest;
          }
    ]
