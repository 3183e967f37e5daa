-- ===== src/MatchingEngine/Settling.antt =====
-- The handlers of `apply` keep the count of resting orders and both limits.
use nasdaq_itch_order_book_e.Base.{
  ℕ, ◌+◌, ◌≤◌, ◌<◌, ◌≡◌, refl, ap, Bool, true, false, Option, some, ◌==◌, if◌then◌else◌, inl, inr,
  arith, Bool-cases, Option-cases, sub64,
}
use nasdaq_itch_order_book_e.Base.Assoc.{find}
use nasdaq_itch_order_book_e.Base.Outcomes.{Returns, Returns-some, Returns-bind}
use nasdaq_itch_order_book_e.Common.{Side}
use nasdaq_itch_order_book_e.OrderBook.{Impl, node_at, cancel, execute}
use nasdaq_itch_order_book_e.OrderBook.Queries.{order}
use nasdaq_itch_order_book_e.OrderBook.Tallies.{
  Tallied, add-Tallied, cancel-Tallied, erase_book-Tallied, replace-Tallied,
}
use nasdaq_itch_order_book_e.Itch.{
  ItchEvent, system_event, stock_directory, trading_action, add_order, add_attributed_order,
  order_executed, order_executed_with_price, order_cancel, order_delete, order_replace, trade,
  cross_trade, broken_trade, net_order_imbalance, skipped_message,
}
use nasdaq_itch_order_book_e.MatchingEngine.{
  Engine, EngineLimits, ApplyAction, executed, cancelled, ApplyResult, find_book, put_book,
  can_create_order, ensure_book, finish, reject, one_more, one_less, apply_add, apply_reduce,
  apply_delete, apply_replace, handle, apply,
}
use nasdaq_itch_order_book_e.MatchingEngine.Settled.{
  Settled, stats-Settled, put-Settled, room-Settled, ensure_book-Ensured, orders_at_bound,
}

module _ (e : Engine) (s : Settled e) (locate : ℕ) (book : Impl)
    (here : find locate e.books ≡ some book) where
  pub accepted-Settled :
      (gained lost resting : ℕ) (b : Impl)
      → Tallied book gained lost (true, b)
      → resting + lost ≡ e.resting_order_count + gained
      → resting ≤ e.limits.max_resting_orders
      → Settled (record (put_book e locate b) { resting_order_count = resting })
  accepted-Settled gained lost resting b t moved bound =
      let u = s.keys locate book here in
      put-Settled e locate resting book b s here (t.keys u) (omega (arith, t.count u)) bound

  pub refused-Settled :
      (gained lost : ℕ) (b : Impl)
      → Tallied book gained lost (false, b)
      → Settled (put_book e locate b)
  refused-Settled gained lost b t =
      let u = s.keys locate book here in
      put-Settled e locate e.resting_order_count book b s here (t.keys u) (omega (arith, t.count u))
        s.capped

  -- An accepted call that gives up an order leaves a count to take it off.
  pub gone_one :
      (b : Impl)
      → Tallied book 0 1 (true, b)
      → sub64 e.resting_order_count 1 + 1 ≡ e.resting_order_count
  gone_one b t =
      let bound = orders_at_bound e locate book s here in
      let counts = t.count (s.keys locate book here) in
      let word = s.word in let capped = s.capped in omega arith

  pub more-Settled :
      (b : Impl)
      → e.resting_order_count < e.limits.max_resting_orders
      → Tallied book 1 0 (true, b)
      → Settled (one_more (put_book e locate b))
  more-Settled b room t =
      let word = s.word in accepted-Settled 1 0 _ b t (omega arith) (omega arith)

  pub less-Settled :
      (b : Impl) → Tallied book 0 1 (true, b) → Settled (one_less (put_book e locate b))
  less-Settled b t =
      let one = gone_one b t in
      let capped = s.capped in accepted-Settled 0 1 _ b t (omega arith) (omega arith)

  pub even-Settled : (b : Impl) → Tallied book 0 0 (true, b) → Settled (put_book e locate b)
  even-Settled b t = accepted-Settled 0 0 e.resting_order_count b t refl s.capped

-- What a handler returns is settled.
abbrev pub SettledRun : Option (ApplyResult × Engine) → Type 0
SettledRun run = Returns (λ r. Settled r.1) run

finish-Settled :
    (e : Engine) (action : ApplyAction) (locate : ℕ) (changed : Bool)
    → Settled e
    → SettledRun (some (finish e action locate changed))
unfolding finish
finish-Settled e action locate changed s = Returns-some _ _ (stats-Settled e _ s)

answered-Settled :
    (ok : Bool) (yes_engine no_engine : Engine) (action : ApplyAction) (locate : ℕ)
    → (ok ≡ true → Settled yes_engine)
    → (ok ≡ false → Settled no_engine)
    → SettledRun
        (some (if ok then finish yes_engine action locate true else reject no_engine locate))
unfolding reject
answered-Settled true a b action locate p q = finish-Settled a action locate true (p refl)
answered-Settled false a b action locate p q = finish-Settled b _ locate false (q refl)

-- The answer of a book, put back into the engine.
answered_book :
    (e : Engine) (locate : ℕ) (book : Impl) (gained lost : ℕ) (r : Bool × Impl)
    (action : ApplyAction) (change : Engine → Engine)
    → Settled e
    → find locate e.books ≡ some book
    → Tallied book gained lost r
    → ((b : Impl) → Tallied book gained lost (true, b) → Settled (change (put_book e locate b)))
    → SettledRun (
        some (
          if r.0
          then finish (change (put_book e locate r.1)) action locate true
          else reject (put_book e locate r.1) locate))
answered_book e locate book gained lost (true, b) action change s here t p =
    answered-Settled true (change (put_book e locate b)) (put_book e locate b) action locate
      (λ ok. p b t) (λ ok. cc ok)
answered_book e locate book gained lost (false, b) action change s here t p =
    answered-Settled false (change (put_book e locate b)) (put_book e locate b) action locate
      (λ ok. cc ok) (λ ok. refused-Settled e s locate book here gained lost b t)

apply_add-Settled :
    (e : Engine) (locate id : ℕ) (side : Side) (price shares : ℕ)
    → Settled e
    → SettledRun (apply_add e locate id side price shares)
unfolding apply_add reject
apply_add-Settled e locate id side price shares s = elim (Bool-cases (can_create_order e locate)) [
  | inr full ↦ rw (apply_add, full) (finish-Settled e _ locate false s)
  | inl can ↦
      let room = room-Settled e locate s can in
      let x = ensure_book-Ensured e locate s can in
      let (book, e1) = ensure_book e locate in
      let count = x.count in
      let limits = ap (λ (l : EngineLimits). l.max_resting_orders) x.limits in
      rw (apply_add, can)
        (Returns-bind _ _ _ _ (add-Tallied book id side price shares) (λ r t.
          answered_book e1 locate book 1 0 r _ one_more x.settled x.there t
            (λ b yes. more-Settled e1 x.settled locate book x.there b (omega arith) yes)))
]

apply_delete-Settled :
    (e : Engine) (locate id : ℕ) → Settled e → SettledRun (apply_delete e locate id)
unfolding apply_delete find_book reject
apply_delete-Settled e locate id s = elim (Option-cases (find locate e.books)) [
  | inl missing ↦ rw (apply_delete, missing) (finish-Settled e _ locate false s)
  | inr (book, here) ↦
      rw (apply_delete, here)
        (Returns-bind _ _ _ _ (erase_book-Tallied book id) (λ r t.
          answered_book e locate book 0 1 r _ one_less s here t
            (less-Settled e s locate book here)))
]

apply_replace-Settled :
    (e : Engine) (locate old_id new_id price shares : ℕ)
    → Settled e
    → SettledRun (apply_replace e locate old_id new_id price shares)
unfolding apply_replace find_book reject
apply_replace-Settled e locate old_id new_id price shares s =
    elim (Option-cases (find locate e.books)) [
      | inl missing ↦ rw (apply_replace, missing) (finish-Settled e _ locate false s)
      | inr (book, here) ↦
          rw (apply_replace, here)
            (Returns-bind _ _ _ _ (replace-Tallied book old_id new_id price shares) (λ r t.
              answered_book e locate book 0 0 r _ (λ e'. e') s here t
                (even-Settled e s locate book here)))
    ]

reduced_book :
    (e : Engine) (locate : ℕ) (book b : Impl) (left shares : ℕ)
    → Settled e
    → find locate e.books ≡ some book
    → Tallied book 0 (if shares == left then 1 else 0) (true, b)
    → Settled (if left == shares then one_less (put_book e locate b) else put_book e locate b)
reduced_book e locate book b left shares s here t = elim (Bool-cases (shares == left)) [
  | inl all ↦
      let flip : (left == shares) ≡ true = ground arith in
      rw flip (less-Settled e s locate book here b (rw all at t))
  | inr part ↦
      let flip : (left == shares) ≡ false = ground arith in
      rw flip (even-Settled e s locate book here b (rw part at t))
]

apply_reduce-Settled :
    (step : Impl → ℕ → ℕ → Option (Bool × Impl)) (action : ApplyAction) (e : Engine)
    (locate id shares : ℕ)
    → ((im : Impl) → step im id shares ≡ cancel im id shares)
    → Settled e
    → SettledRun (apply_reduce step action e locate id shares)
unfolding apply_reduce find_book reject order
apply_reduce-Settled step action e locate id shares same s =
    elim (Option-cases (find locate e.books)) [
      | inl missing ↦ rw (apply_reduce, missing) (finish-Settled e _ locate false s)
      | inr (book, here) ↦ elim (Option-cases (node_at book id)) [
        | inl absent ↦ rw (apply_reduce, here, order, absent) (finish-Settled e _ locate false s)
        | inr (n, there) ↦
            rw (apply_reduce, here, order, there, same)
              (Returns-bind _ _ _ _ (cancel-Tallied book id shares n there) (λ r t.
                answered_book e locate book 0 _ r action
                  (λ e'. if n.quantity == shares then one_less e' else e') s here t
                  (λ b yes. reduced_book e locate book b n.quantity shares s here yes)))
      ]
    ]

handle-Settled : (e : Engine) (event : ItchEvent) → Settled e → SettledRun (handle e event)
unfolding handle execute
handle-Settled e (add_order m) s = apply_add-Settled e _ _ _ _ _ s
handle-Settled e (add_attributed_order m) s = apply_add-Settled e _ _ _ _ _ s
handle-Settled e (order_executed m) s = apply_reduce-Settled execute executed e _ _ _ (λ im. refl) s
handle-Settled e (order_executed_with_price m) s =
    apply_reduce-Settled execute executed e _ _ _ (λ im. refl) s
handle-Settled e (order_cancel m) s = apply_reduce-Settled cancel cancelled e _ _ _ (λ im. refl) s
handle-Settled e (order_delete m) s = apply_delete-Settled e _ _ s
handle-Settled e (order_replace m) s = apply_replace-Settled e _ _ _ _ _ s
handle-Settled e (skipped_message m) s = elim (Option-cases m.header) [
  | inl missing ↦ rw missing (finish-Settled e _ _ false s)
  | inr (header, there) ↦ rw there (finish-Settled e _ _ false s)
]
handle-Settled e (system_event m) s = finish-Settled e _ _ false s
handle-Settled e (stock_directory m) s = finish-Settled e _ _ false s
handle-Settled e (trading_action m) s = finish-Settled e _ _ false s
handle-Settled e (trade m) s = finish-Settled e _ _ false s
handle-Settled e (cross_trade m) s = finish-Settled e _ _ false s
handle-Settled e (broken_trade m) s = finish-Settled e _ _ false s
handle-Settled e (net_order_imbalance m) s = finish-Settled e _ _ false s

-- If `resting_order_count` is the number of orders in all books and both limits are kept, then what
-- `apply` returns, on an event of any kind, has such a count and such limits again.
pub apply-Settled :
    (e : Engine) (event : ItchEvent)
    → Settled e
    → Returns (λ (r : ApplyResult × Engine). Settled r.1) (apply e event)
unfolding apply
apply-Settled e event s = handle-Settled _ event (stats-Settled e _ s)
