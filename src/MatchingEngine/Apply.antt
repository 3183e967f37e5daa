-- ===== src/MatchingEngine/Apply.antt =====
-- `MatchingEngine::apply` as a whole: it ends on every event, with the books valid and the counters
-- right.
use nasdaq_itch_order_book_e.Base.{
  ℕ, suc, ◌+◌, ◌%◌, ◌^◌, ◌≤◌, ◌<◌, ◌≡◌, refl, ap, ◌∙◌, Bool, true, false, Option, none, some, List,
  [], ◌∷◌, ◌>>=◌, inl, inr, ◌⊎◌, arith, ◌==◌, if◌then◌else◌, Option-cases, add64, length,
}
use nasdaq_itch_order_book_e.Itch.{
  SkippedMessage, ItchEvent, system_event, stock_directory, trading_action, add_order,
  add_attributed_order, order_executed, order_executed_with_price, order_cancel, order_delete,
  order_replace, trade, cross_trade, broken_trade, net_order_imbalance, skipped_message,
}
use nasdaq_itch_order_book_e.MatchingEngine.{
  Engine, ReplayStats, ApplyAction, ApplyResult, ignored, added, executed, cancelled, deleted,
  replaced, rejected, find_book, count, finish, handle, apply,
}
use nasdaq_itch_order_book_e.MatchingEngine.Books.{Books, Books-mono, Handled}
use nasdaq_itch_order_book_e.MatchingEngine.Handlers.{
  apply_add_lem, reduce_lem, execute_lem, delete_lem, apply_replace_lem,
}

-- The words of an event that are used as prices and quantities are of 32 bits.
abbrev pub Fits : ItchEvent → Type 0
Fits (add_order m) = (m.shares < 2 ^ 32) × (m.price < 2 ^ 32)
Fits (add_attributed_order m) = (m.shares < 2 ^ 32) × (m.price < 2 ^ 32)
Fits (order_replace m) = (m.shares < 2 ^ 32) × (m.price < 2 ^ 32)
Fits event = Unit {0}

-- The stock locate number that an event is for; that of a skipped message may be missing.
abbrev pub locate_of : ItchEvent → ℕ
locate_of (add_order m) = m.header.stock_locate
locate_of (add_attributed_order m) = m.header.stock_locate
locate_of (order_executed m) = m.header.stock_locate
locate_of (order_executed_with_price m) = m.header.stock_locate
locate_of (order_cancel m) = m.header.stock_locate
locate_of (order_delete m) = m.header.stock_locate
locate_of (order_replace m) = m.header.stock_locate
locate_of (system_event m) = m.header.stock_locate
locate_of (stock_directory m) = m.header.stock_locate
locate_of (trading_action m) = m.header.stock_locate
locate_of (trade m) = m.header.stock_locate
locate_of (cross_trade m) = m.header.stock_locate
locate_of (broken_trade m) = m.header.stock_locate
locate_of (net_order_imbalance m) = m.header.stock_locate
locate_of (skipped_message m) = elim m.header [ some h ↦ h.stock_locate | none ↦ 0 ]

-- The actions that an event of this kind may end with.
abbrev pub MayEnd : ItchEvent → ApplyAction → Type 0
MayEnd (add_order m) a = (a ≡ added) ⊎ (a ≡ rejected)
MayEnd (add_attributed_order m) a = (a ≡ added) ⊎ (a ≡ rejected)
MayEnd (order_executed m) a = (a ≡ executed) ⊎ (a ≡ rejected)
MayEnd (order_executed_with_price m) a = (a ≡ executed) ⊎ (a ≡ rejected)
MayEnd (order_cancel m) a = (a ≡ cancelled) ⊎ (a ≡ rejected)
MayEnd (order_delete m) a = (a ≡ deleted) ⊎ (a ≡ rejected)
MayEnd (order_replace m) a = (a ≡ replaced) ⊎ (a ≡ rejected)
MayEnd event a = a ≡ ignored

abbrev pub received : ReplayStats → ReplayStats
received s = record s { messages = add64 s.messages 1 }

-- An event that was applied.
pub record Applied (k : ℕ) (e : Engine) (event : ItchEvent) (run : Option (ApplyResult × Engine))
    : Type 0 where
  pub result : ApplyResult
  pub engine : Engine
  pub ended : run ≡ some (result, engine)
  pub books : Books k engine.books
  pub others : (j : ℕ) → (locate_of event == j) ≡ false → find_book engine j ≡ find_book e j
  pub action : MayEnd event result.action
  pub counted : engine.stats ≡ count result.action (received e.stats)

module _ (k : ℕ) (e : Engine) where
  abbrev e1 : Engine
  e1 = record e { stats = received e.stats }

  one_of :
      (accept : Bool) (a b : ApplyAction)
      → a ≡ (if accept then b else rejected)
      → (a ≡ b) ⊎ (a ≡ rejected)
  one_of true a b h = inl h
  one_of false a b h = inr h

  module _ (room : k + 1 < 2 ^ 64) (books : Books k e.books) where
    -- From a handler's call to that of `apply`.
    concluded :
        (j : ℕ) (event : ItchEvent) (accept : Bool) (action : ApplyAction)
        (run : Option (ApplyResult × Engine))
        → j ≤ k + 1
        → apply e event ≡ run
        → Handled j e1 (locate_of event) accept action run
        → ((a : ApplyAction) → (a ≡ action) ⊎ (a ≡ rejected) → MayEnd event a)
        → Applied (k + 1) e event (apply e event)
    unfolding find_book
    concluded j event accept action run le same h may = record {
      result = h.result;
      engine = h.engine;
      ended = same ∙ h.ended;
      books = Books-mono j (k + 1) h.engine.books le h.books;
      others = h.others;
      action = may h.result.action (one_of accept h.result.action action h.verdict);
      counted = h.counted;
    }

    passed_over :
        (event : ItchEvent) (locate : ℕ)
        → apply e event ≡ some (finish e1 ignored locate false)
        → MayEnd event ignored
        → Applied (k + 1) e event (apply e event)
    unfolding finish find_book
    passed_over event locate same may = record {
      result = _;
      engine = _;
      ended = same;
      books = Books-mono k (k + 1) e.books (omega arith) books;
      others = λ j h. refl;
      action = may;
      counted = refl;
    }

    skipped_lem :
        (m : SkippedMessage) → Applied (k + 1) e (skipped_message m) (apply e (skipped_message m))
    unfolding apply handle
    skipped_lem m = elim (Option-cases m.header) [
      | inl missing ↦ passed_over (skipped_message m) 0 (rw missing refl) refl
      | inr (h, there) ↦ passed_over (skipped_message m) h.stock_locate (rw there refl) refl
    ]

    -- If all books of the engine are valid with queues no longer than k, k + 1 below 2 ^ 64, `apply` of an
    -- event of any kind, with words of 32 bits, ends: the action is one that the kind of event may have, the
    -- counter of that action moves, the books of other locate numbers are as they were, and all books are
    -- valid again with queues no longer than k + 1.
    pub apply_lem : (event : ItchEvent) → Fits event → Applied (k + 1) e event (apply e event)
    unfolding apply handle
    apply_lem (add_order m) f =
        concluded (k + 1) (add_order m) _ added _ (omega arith) refl
          (apply_add_lem k room e1 books m.header.stock_locate m.order_reference m.side m.price
            m.shares f.0 f.1)
          (λ a h. h)
    apply_lem (add_attributed_order m) f =
        concluded (k + 1) (add_attributed_order m) _ added _ (omega arith) refl
          (apply_add_lem k room e1 books m.header.stock_locate m.order_reference m.side m.price
            m.shares f.0 f.1)
          (λ a h. h)
    apply_lem (order_executed m) f =
        concluded k (order_executed m) _ executed _ (omega arith) refl
          (execute_lem k e1 books m.header.stock_locate m.order_reference m.executed_shares
            executed)
          (λ a h. h)
    apply_lem (order_executed_with_price m) f =
        concluded k (order_executed_with_price m) _ executed _ (omega arith) refl
          (execute_lem k e1 books m.header.stock_locate m.order_reference m.executed_shares
            executed)
          (λ a h. h)
    apply_lem (order_cancel m) f =
        concluded k (order_cancel m) _ cancelled _ (omega arith) refl
          (reduce_lem k e1 books m.header.stock_locate m.order_reference m.canceled_shares
            cancelled)
          (λ a h. h)
    apply_lem (order_delete m) f =
        concluded k (order_delete m) _ deleted _ (omega arith) refl
          (delete_lem k e1 books m.header.stock_locate m.order_reference) (λ a h. h)
    apply_lem (order_replace m) f =
        concluded (k + 1) (order_replace m) _ replaced _ (omega arith) refl
          (apply_replace_lem k room e1 books m.header.stock_locate m.new_order_reference m.price
            m.shares f.0 f.1 m.original_order_reference)
          (λ a h. h)
    apply_lem (skipped_message m) f = skipped_lem m
    apply_lem (system_event m) f = passed_over (system_event m) m.header.stock_locate refl refl
    apply_lem (stock_directory m) f =
        passed_over (stock_directory m) m.header.stock_locate refl refl
    apply_lem (trading_action m) f = passed_over (trading_action m) m.header.stock_locate refl refl
    apply_lem (trade m) f = passed_over (trade m) m.header.stock_locate refl refl
    apply_lem (cross_trade m) f = passed_over (cross_trade m) m.header.stock_locate refl refl
    apply_lem (broken_trade m) f = passed_over (broken_trade m) m.header.stock_locate refl refl
    apply_lem (net_order_imbalance m) f =
        passed_over (net_order_imbalance m) m.header.stock_locate refl refl

-- The events of a stream, one after the other.
unfoldable pub apply_all : Engine → List ItchEvent → Option Engine
apply_all e [] = some e
apply_all e (event ∷ events) = do (result, e') ← apply e event; apply_all e' events

abbrev pub AllFit : List ItchEvent → Type 0
AllFit [] = Unit {0}
AllFit (event ∷ events) = Fits event × AllFit events

-- A stream that was applied to its end.
pub record Replayed (k : ℕ) (e : Engine) (events : List ItchEvent) (run : Option Engine)
    : Type 0 where
  pub engine : Engine
  pub ended : run ≡ some engine
  pub books : Books k engine.books
  pub messages : engine.stats.messages ≡ (e.stats.messages + length events) % 2 ^ 64

messages-count : (a : ApplyAction) (s : ReplayStats) → (count a s).messages ≡ s.messages
unfolding count
messages-count ignored s = refl
messages-count added s = refl
messages-count executed s = refl
messages-count cancelled s = refl
messages-count deleted s = refl
messages-count replaced s = refl
messages-count rejected s = refl

-- From an engine whose books are valid with queues no longer than k, where k and the number of events
-- together are below 2 ^ 64, applying any list of events with words of 32 bits ends: no null or dangling
-- pointer is followed, all books are valid again, and the message counter has moved by the number of
-- events, modulo 2 ^ 64.
pub apply_all_lem :
    (events : List ItchEvent) (k : ℕ) (e : Engine)
    → AllFit events
    → Books k e.books
    → k + length events < 2 ^ 64
    → e.stats.messages < 2 ^ 64
    → Replayed (k + length events) e events (apply_all e events)
unfolding apply_all
apply_all_lem [] k e f b h m = record {
  engine = e;
  ended = refl;
  books = Books-mono k (k + 0) e.books (omega arith) b;
  messages = omega arith;
}
apply_all_lem (event ∷ events) k e f b h m =
    let run = apply_lem k e (omega arith) b event f.0 in
    let moved : run.engine.stats.messages ≡ (e.stats.messages + 1) % 2 ^ 64 =
      ap (λ (s : ReplayStats). s.messages) run.counted ∙ messages-count run.result.action _ in
    let all = apply_all_lem events (k + 1) run.engine f.1 run.books (omega arith) (omega arith) in
    record {
      engine = all.engine;
      ended = rw run.ended all.ended;
      books =
          Books-mono (k + 1 + length events) (k + suc (length events)) all.engine.books
            (omega arith) all.books;
      messages = all.messages ∙ omega arith;
    }
