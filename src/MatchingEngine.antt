-- ===== src/MatchingEngine.antt =====
-- `MatchingEngine` of include/lob/matching_engine.hpp and src/engine/matching_engine.cpp: one book
-- for each stock locate number. A call of a book that follows a null pointer ends the run with
-- `none`.
pub mod Matching
pub mod Settled
pub mod Settling
pub mod Trading
pub mod Filling
pub mod Books
pub mod Handlers
pub mod Apply
pub mod Orders
pub mod Resting
pub mod Limits
pub mod Feed
pub mod Calls
use nasdaq_itch_order_book_e.Base.{
  ℕ, zero, suc, ◌+◌, Bool, true, false, ◌||◌, ◌&&◌, not, Option, none, some, List, [], ◌∷◌, ◌++◌,
  ◌>>=◌, ◌==◌, ltb, leb, if◌then◌else◌, is_some, length, add64, sub64, add32, sub32,
}
use nasdaq_itch_order_book_e.Base.Assoc.{Assoc, find, insert, size}
use nasdaq_itch_order_book_e.Common.{Side, buy, sell, opposite}
use nasdaq_itch_order_book_e.Itch.{
  ItchEvent, MessageHeader, system_event, stock_directory, trading_action, add_order,
  add_attributed_order, order_executed, order_executed_with_price, order_cancel, order_delete,
  order_replace, trade, cross_trade, broken_trade, net_order_imbalance, skipped_message,
}
use nasdaq_itch_order_book_e.OrderBook.{
  Impl, empty_book, contains, add, cancel, execute, erase_book, replace, OrderView,
}
use nasdaq_itch_order_book_e.OrderBook.Queries.{order, best_bid, best_ask, front_order}

pub data ApplyAction : Type 0 where
  ignored added executed cancelled deleted replaced rejected : ApplyAction

pub record ApplyResult : Type 0 where
  pub action : ApplyAction
  pub stock_locate : ℕ
  pub changed_book : Bool

pub record ReplayStats : Type 0 where
  pub messages : ℕ
  pub ignores : ℕ
  pub adds : ℕ
  pub executions : ℕ
  pub cancels : ℕ
  pub deletes : ℕ
  pub replaces : ℕ
  pub rejects : ℕ

pub record EngineLimits : Type 0 where
  pub max_instruments : ℕ
  pub max_resting_orders : ℕ

pub record Fill : Type 0 where
  pub resting_order : ℕ
  pub price : ℕ
  pub quantity : ℕ

-- `MatchResult`, with the fills that were written to the output span.
pub record MatchResult : Type 0 where
  pub filled : ℕ
  pub resting : ℕ
  pub unfilled : ℕ
  pub fill_count : ℕ
  pub fills_truncated : Bool
  pub accepted : Bool
  pub fill_output : List Fill

pub record Engine : Type 0 where
  pub books : Assoc Impl
  pub limits : EngineLimits
  pub resting_order_count : ℕ
  pub stats : ReplayStats

abbrev pub no_stats : ReplayStats
no_stats = record {
  messages = 0;
  ignores = 0;
  adds = 0;
  executions = 0;
  cancels = 0;
  deletes = 0;
  replaces = 0;
  rejects = 0;
}

abbrev pub new_engine : EngineLimits → Engine
new_engine limits = record {
  books = [];
  limits = limits;
  resting_order_count = 0;
  stats = no_stats;
}

unfoldable pub find_book : Engine → ℕ → Option Impl
find_book e locate = find locate e.books

abbrev pub put_book : Engine → ℕ → Impl → Engine
put_book e locate book = record e { books = insert locate book e.books }

unfoldable pub instrument_count : Engine → ℕ
instrument_count e = size e.books

unfoldable pub clear : Engine → Engine
clear e = record e { books = []; resting_order_count = 0; stats = no_stats }

-- The book of a locate number, made if there is none, and the engine that holds it.
unfoldable pub ensure_book : Engine → ℕ → Impl × Engine
ensure_book e locate = elim (find_book e locate) [
  | some book ↦ (book, e)
  | none ↦ (empty_book, put_book e locate empty_book)
]

unfoldable pub can_create_order : Engine → ℕ → Bool
can_create_order e locate =
    if leb e.limits.max_resting_orders e.resting_order_count
    then false
    else is_some (find_book e locate) || ltb (size e.books) e.limits.max_instruments

abbrev pub answer : ApplyAction → ℕ → Bool → ApplyResult
answer action locate changed = record {
  action = action;
  stock_locate = locate;
  changed_book = changed;
}

-- A counter of `stats_` that the handler moves.
unfoldable pub count : ApplyAction → ReplayStats → ReplayStats
count ignored s = record s { ignores = add64 s.ignores 1 }
count added s = record s { adds = add64 s.adds 1 }
count executed s = record s { executions = add64 s.executions 1 }
count cancelled s = record s { cancels = add64 s.cancels 1 }
count deleted s = record s { deletes = add64 s.deletes 1 }
count replaced s = record s { replaces = add64 s.replaces 1 }
count rejected s = record s { rejects = add64 s.rejects 1 }

unfoldable pub finish : Engine → ApplyAction → ℕ → Bool → ApplyResult × Engine
finish e action locate changed =
    (answer action locate changed, record e { stats = count action e.stats })

unfoldable pub reject : Engine → ℕ → ApplyResult × Engine
reject e locate = finish e rejected locate false

abbrev pub one_more : Engine → Engine
one_more e = record e { resting_order_count = add64 e.resting_order_count 1 }

abbrev pub one_less : Engine → Engine
one_less e = record e { resting_order_count = sub64 e.resting_order_count 1 }

-- The two add messages.
unfoldable pub apply_add : Engine → ℕ → ℕ → Side → ℕ → ℕ → Option (ApplyResult × Engine)
apply_add e locate id side price shares =
    if not (can_create_order e locate) then some (reject e locate) else do
      let (book, e1) = ensure_book e locate
      (ok, book') ← add book id side price shares
      let e2 = put_book e1 locate book'
      some (if ok then finish (one_more e2) added locate true else reject e2 locate)

-- The messages that take shares off an order: `step` is `execute` or `cancel`.
unfoldable pub apply_reduce :
    (Impl → ℕ → ℕ → Option (Bool × Impl))
    → ApplyAction
    → Engine
    → ℕ
    → ℕ
    → ℕ
    → Option (ApplyResult × Engine)
apply_reduce step action e locate id shares = elim (find_book e locate) [
  | none ↦ some (reject e locate)
  | some book ↦ elim (order book id) [
    | none ↦ some (reject e locate)
    | some view ↦ do
      (ok, book') ← step book id shares
      let e1 = put_book e locate book'
      let e2 = if view.quantity == shares then one_less e1 else e1
      some (if ok then finish e2 action locate true else reject e1 locate)
  ]
]

unfoldable pub apply_delete : Engine → ℕ → ℕ → Option (ApplyResult × Engine)
apply_delete e locate id = elim (find_book e locate) [
  | none ↦ some (reject e locate)
  | some book ↦ do
    (ok, book') ← erase_book book id
    let e1 = put_book e locate book'
    some (if ok then finish (one_less e1) deleted locate true else reject e1 locate)
]

unfoldable pub apply_replace : Engine → ℕ → ℕ → ℕ → ℕ → ℕ → Option (ApplyResult × Engine)
apply_replace e locate old_id new_id price shares = elim (find_book e locate) [
  | none ↦ some (reject e locate)
  | some book ↦ do
    (ok, book') ← replace book old_id new_id price shares
    let e1 = put_book e locate book'
    some (if ok then finish e1 replaced locate true else reject e1 locate)
]

abbrev pub ignore : Engine → MessageHeader → Option (ApplyResult × Engine)
ignore e header = some (finish e ignored header.stock_locate false)

-- The visitor of `apply`, after the message was counted.
unfoldable pub handle : Engine → ItchEvent → Option (ApplyResult × Engine)
handle e (add_order m) = apply_add e m.header.stock_locate m.order_reference m.side m.price m.shares
handle e (add_attributed_order m) =
    apply_add e m.header.stock_locate m.order_reference m.side m.price m.shares
handle e (order_executed m) =
    apply_reduce execute executed e m.header.stock_locate m.order_reference m.executed_shares
handle e (order_executed_with_price m) =
    apply_reduce execute executed e m.header.stock_locate m.order_reference m.executed_shares
handle e (order_cancel m) =
    apply_reduce cancel cancelled e m.header.stock_locate m.order_reference m.canceled_shares
handle e (order_delete m) = apply_delete e m.header.stock_locate m.order_reference
handle e (order_replace m) =
    apply_replace e m.header.stock_locate m.original_order_reference m.new_order_reference m.price
      m.shares
handle e (skipped_message m) = elim m.header [
  | some header ↦ ignore e header
  | none ↦ some (finish e ignored 0 false)
]
handle e (system_event m) = ignore e m.header
handle e (stock_directory m) = ignore e m.header
handle e (trading_action m) = ignore e m.header
handle e (trade m) = ignore e m.header
handle e (cross_trade m) = ignore e m.header
handle e (broken_trade m) = ignore e m.header
handle e (net_order_imbalance m) = ignore e m.header

-- `MatchingEngine::apply`
unfoldable pub apply : Engine → ItchEvent → Option (ApplyResult × Engine)
apply e event =
    handle (record e { stats = record e.stats { messages = add64 e.stats.messages 1 } }) event
