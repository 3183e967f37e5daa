-- ===== src/Replay/Report.antt =====
-- The end of `main` in src/app/itch_replay.cpp: the exit status and the snapshot of a book.
use nasdaq_itch_order_book_e.Base.{
  ℕ, ◌%◌, [], ◌∷◌, ◌<◌, ◌^◌, ◌≡◌, refl, sym, ◌∙◌, Bool, true, false, not, ◌&&◌, Option, none, some,
  ◌==◌, ◌>>=◌, if◌then◌else◌, List, inl, inr, Option-cases, length,
}
use nasdaq_itch_order_book_e.Base.Assoc.{find}
use nasdaq_itch_order_book_e.Itch.{ItchEvent}
use nasdaq_itch_order_book_e.Common.{buy, sell, Side}
use nasdaq_itch_order_book_e.PriceIndex.Tier.{Before}
use nasdaq_itch_order_book_e.OrderBook.{Impl, Depth, level_ref}
use nasdaq_itch_order_book_e.OrderBook.Queue.{Queue, is_empty, total}
use nasdaq_itch_order_book_e.OrderBook.Queries.{best_bid_depth, best_ask_depth}
use nasdaq_itch_order_book_e.OrderBook.Reads.{
  no_price, top, depth_for, depth_lem, best_bid_lem, best_ask_lem,
}
use nasdaq_itch_order_book_e.OrderBook.Valid.{Queues, IsValid}
use nasdaq_itch_order_book_e.MatchingEngine.{Engine, find_book}
use nasdaq_itch_order_book_e.MatchingEngine.Books.{Books}
use nasdaq_itch_order_book_e.Replay.{ReplayConfig}
use nasdaq_itch_order_book_e.Replay.Pipeline.{Pipeline, left}
use nasdaq_itch_order_book_e.Replay.Runs.{Replays}

-- The numbers that are printed.
pub record Snapshot : Type 0 where
  pub stock_locate : ℕ
  pub bid_price : ℕ
  pub bid_quantity : ℕ
  pub ask_price : ℕ
  pub ask_quantity : ℕ

abbrev price_or_zero : Option Depth → ℕ
price_or_zero none = 0
price_or_zero (some d) = d.price

abbrev quantity_or_zero : Option Depth → ℕ
quantity_or_zero none = 0
quantity_or_zero (some d) = d.quantity

abbrev snapshot_with : ℕ → Option Depth → Option Depth → Snapshot
snapshot_with locate bid ask = record {
  stock_locate = locate;
  bid_price = price_or_zero bid;
  bid_quantity = quantity_or_zero bid;
  ask_price = price_or_zero ask;
  ask_quantity = quantity_or_zero ask;
}

-- The inner option is empty where the engine has no book of the number.
unfoldable pub snapshot_of : Engine → ℕ → Option (Option Snapshot)
snapshot_of e locate = elim (find_book e locate) [
  | none ↦ some none
  | some book ↦ do
    bid ← best_bid_depth book
    ask ← best_ask_depth book
    some (some (snapshot_with locate bid ask))
]

pub record Outcome : Type 0 where
  pub status : ℕ
  pub snapshot : Option (Option Snapshot)

abbrev exit_status : ReplayConfig → Engine → ℕ
exit_status config e = if config.fail_on_reject && not (e.stats.rejects == 0) then 1 else 0

-- What follows the consumer's loop.
unfoldable pub finish_replay : {Stream : Type 0} → ReplayConfig → Pipeline Stream → Option Outcome
finish_replay config p =
    if p.producer_failed
    then some (record { status = 1; snapshot = none })
    else elim config.snapshot_locate [
      | none ↦ some (record { status = exit_status config p.engine; snapshot = none })
      | some locate ↦ do
        snapshot ← snapshot_of p.engine locate
        some (record { status = exit_status config p.engine; snapshot = some snapshot })
    ]

-- The price and the total of the best level of a side, or zeros if there is no order.
pub data IsBest (reverse : Bool) (side : Side) (qs : Queues) (price quantity : ℕ) : Type 0 where
  no_level :
      ((p : ℕ) → p < 2 ^ 32 → is_empty (qs (level_ref side p)) ≡ true)
      → price ≡ 0
      → quantity ≡ 0
      → IsBest reverse side qs price quantity
  best_level :
      is_empty (qs (level_ref side price)) ≡ false
      → ((q : ℕ) → q < 2 ^ 32 → is_empty (qs (level_ref side q)) ≡ false → Before reverse price q)
      → quantity ≡ total (qs (level_ref side price)) % 2 ^ 64
      → IsBest reverse side qs price quantity

-- A snapshot of the book of a number.
pub data Shows (e : Engine) (locate : ℕ) (run : Option (Option Snapshot)) : Type 0 where
  missing : find_book e locate ≡ none → run ≡ some none → Shows e locate run
  shown :
      (book : Impl) (qs : Queues)
      → find_book e locate ≡ some book
      → IsValid book qs
      → (snapshot : Snapshot) → run ≡ some (some snapshot)
      → snapshot.stock_locate ≡ locate
      → IsBest true buy qs snapshot.bid_price snapshot.bid_quantity
      → IsBest false sell qs snapshot.ask_price snapshot.ask_quantity
      → Shows e locate run

depth_of_queue :
    (p : ℕ) (es : Queue)
    → is_empty es ≡ false
    → (price_or_zero (depth_for p es) ≡ p) × (quantity_or_zero (depth_for p es) ≡ total es % 2 ^ 64)
depth_of_queue p [] h = cc
depth_of_queue p (x ∷ es) h = (refl, refl)

top-IsBest :
    (reverse : Bool) (side : Side) (qs : Queues) (p : ℕ)
    → is_empty (qs (level_ref side p)) ≡ false
    → ((q : ℕ) → q < 2 ^ 32 → is_empty (qs (level_ref side q)) ≡ false → Before reverse p q)
    → let found = depth_for p (qs (level_ref side p)) in
      IsBest reverse side qs (price_or_zero found) (quantity_or_zero found)
top-IsBest reverse side qs p here before =
    let (price, quantity) = depth_of_queue p (qs (level_ref side p)) here in
    rw (price, quantity) (best_level here before refl)

bid_ends :
    (im : Impl) (qs : Queues)
    → IsValid im qs
    → (bid : Option Depth) × (best_bid_depth im ≡ some bid)
      × IsBest true buy qs (price_or_zero bid) (quantity_or_zero bid)
unfolding best_bid_depth
bid_ends im qs v = elim (best_bid_lem v) [
  | no_price e nothing ↦ (none, rw (best_bid_depth, e) refl, no_level nothing refl refl)
  | top p e h here before ↦ (
    depth_for p (qs (level_ref buy p)),
    rw (best_bid_depth, e, depth_lem v buy p) refl,
    top-IsBest true buy qs p here before,
  )
]

ask_ends :
    (im : Impl) (qs : Queues)
    → IsValid im qs
    → (ask : Option Depth) × (best_ask_depth im ≡ some ask)
      × IsBest false sell qs (price_or_zero ask) (quantity_or_zero ask)
unfolding best_ask_depth
ask_ends im qs v = elim (best_ask_lem v) [
  | no_price e nothing ↦ (none, rw (best_ask_depth, e) refl, no_level nothing refl refl)
  | top p e h here before ↦ (
    depth_for p (qs (level_ref sell p)),
    rw (best_ask_depth, e, depth_lem v sell p) refl,
    top-IsBest false sell qs p here before,
  )
]

snapshot_of-Shows :
    (k : ℕ) (e : Engine) (locate : ℕ) → Books k e.books → Shows e locate (snapshot_of e locate)
unfolding snapshot_of find_book
snapshot_of-Shows k e locate books = elim (Option-cases (find locate e.books)) [
  | inl absent ↦ missing absent (rw (snapshot_of, absent) refl)
  | inr (book, here) ↦
      let (qs, v, w) = books locate book here in
      let (bid, run_bid, is_bid) = bid_ends book qs v in
      let (ask, run_ask, is_ask) = ask_ends book qs v in
      shown book qs here v (snapshot_with locate bid ask)
        (rw (snapshot_of, here, run_bid, run_ask) refl) refl is_bid is_ask
]

-- The end of a replay whose decoder found all messages whole, or did not.
pub record Finished (config : ReplayConfig) (ok : Bool) (e : Engine) (run : Option Outcome)
    : Type 0 where
  pub outcome : Outcome
  pub ended : run ≡ some outcome
  pub status :
      outcome.status
      ≡ (if ok && not (config.fail_on_reject && not (e.stats.rejects == 0)) then 0 else 1)
  pub unasked : config.snapshot_locate ≡ none → outcome.snapshot ≡ none
  pub asked :
      (locate : ℕ)
      → ok ≡ true
      → config.snapshot_locate ≡ some locate
      → (snapshot : Option Snapshot) × (outcome.snapshot ≡ some snapshot)
        × Shows e locate (some snapshot)

Shows-ends :
    (e : Engine) (locate : ℕ) (run : Option (Option Snapshot))
    → Shows e locate run
    → (snapshot : Option Snapshot) × (run ≡ some snapshot) × Shows e locate (some snapshot)
Shows-ends e locate run (missing absent r) = (none, r, missing absent refl)
Shows-ends e locate run (shown book qs here v snapshot r same is_bid is_ask) =
    (some snapshot, r, shown book qs here v snapshot refl same is_bid is_ask)

Shows-at :
    (e : Engine) (locate l : ℕ) (run : Option (Option Snapshot))
    → locate ≡ l
    → Shows e locate run
    → Shows e l run
Shows-at e locate l run same shows = rw same at shows

exit_status-ok : (b : Bool) → ◌≡◌ {A = ℕ} (if b then 1 else 0) (if true && not b then 0 else 1)
exit_status-ok true = refl
exit_status-ok false = refl

finish_at :
    {Stream : Type 0} (k : ℕ) (config : ReplayConfig) (p : Pipeline Stream) (asked : Option ℕ)
    → Books k p.engine.books
    → p.producer_failed ≡ false
    → config.snapshot_locate ≡ asked
    → Finished config true p.engine (finish_replay config p)
unfolding finish_replay
finish_at k config p none books fine from = record {
  outcome = record { status = exit_status config p.engine; snapshot = none };
  ended = simp (finish_replay, fine, from) refl;
  status = exit_status-ok _;
  unasked = λ h. refl;
  asked = λ locate ok h. cc;
}
finish_at k config p (some locate) books fine from =
    let (snapshot, run, shows) =
      Shows-ends p.engine locate _ (snapshot_of-Shows k p.engine locate books) in
    record {
      outcome = record { status = exit_status config p.engine; snapshot = some snapshot };
      ended = simp (finish_replay, fine, from, run) refl;
      status = exit_status-ok _;
      unasked = λ h. cc;
      asked = λ l ok h.
          let both : some locate ≡ some l = sym from ∙ h in
          let same : locate ≡ l = cc both in
          (snapshot, refl, Shows-at p.engine locate l (some snapshot) same shows);
    }

finish_failed :
    {Stream : Type 0} (config : ReplayConfig) (p : Pipeline Stream)
    → p.producer_failed ≡ true
    → Finished config false p.engine (finish_replay config p)
unfolding finish_replay
finish_failed config p failure = record {
  outcome = record { status = 1; snapshot = none };
  ended = simp (finish_replay, failure) refl;
  status = refl;
  unasked = λ h. refl;
  asked = λ locate ok h. cc;
}

-- After a replay of a file whose consumer has left its loop, what follows the loop ends. The exit status
-- is 0 just when no message of the file is cut off or fails and either no event was rejected or
-- `--fail-on-reject` was not given. If all messages are whole, a snapshot that was asked for is missing
-- just without a book, and else gives the book's number, the highest price with a resting buy order and
-- the lowest with a resting sell order, each with the sum of the quantities there, modulo 2 ^ 64, or
-- zeros for a side without orders.
pub finish_replay_lem :
    {Stream : Type 0} (config : ReplayConfig) (total : List ItchEvent × Bool)
    (run : Option (Pipeline Stream)) (r : Replays config.engine_limits total run)
    → r.state.consumer ≡ left
    → Finished config total.1 r.state.engine (finish_replay config r.state)
finish_replay_lem config total run r gone = go total.1 (r.verdict gone)
  where
    go :
        (ok : Bool)
        → r.state.producer_failed ≡ not ok
        → Finished config ok r.state.engine (finish_replay config r.state)
    go true e = finish_at (length r.applied) config r.state config.snapshot_locate r.books e refl
    go false e = finish_failed config r.state e
