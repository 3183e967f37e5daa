-- ===== src/MatchingEngine/Feed.antt =====
-- The decoder and the engine together: what the decoder hands over is in the range that the engine
-- relies on.
use nasdaq_itch_order_book_e.Base.{
  ℕ, zero, suc, ◌+◌, ◌^◌, ◌<◌, ◌≡◌, Bool, true, false, List, arith, if◌then◌else◌,
}
use native.Mathlib.Nat.{mod-lt}
use nasdaq_itch_order_book_e.Itch.{
  DecodeResult, DecodeError, DecodedMessage, ItchEvent, complete, need_more_data, failed,
}
use nasdaq_itch_order_book_e.Itch.Decoder.{
  read_be, read_be_from, decode_message, decode_next, done, system_event_of, stock_directory_of,
  trading_action_of, add_order_of, add_attributed_order_of, order_executed_of,
  order_executed_with_price_of, order_cancel_of, order_delete_of, order_replace_of, trade_of,
  cross_trade_of, broken_trade_of, net_order_imbalance_of, skipped_message_of,
}
use nasdaq_itch_order_book_e.MatchingEngine.Apply.{Fits}

read_be_from-bound :
    (rounds width value : ℕ) (bytes : List ℕ) (offset : ℕ)
    → 0 < 2 ^ width
    → value < 2 ^ width
    → read_be_from rounds width value bytes offset < 2 ^ width
unfolding read_be_from
read_be_from-bound zero width value bytes offset p h = h
read_be_from-bound (suc rounds) width value bytes offset p h =
    read_be_from-bound rounds width _ bytes (offset + 1) p (mod-lt _ p)

word : (bytes : List ℕ) (offset : ℕ) → read_be 4 bytes offset < 2 ^ 32
unfolding read_be
word bytes offset = read_be_from-bound 4 32 0 bytes offset (omega arith) (omega arith)

abbrev EventFits : DecodeResult → Type 0
EventFits (complete m) = Fits m.event
EventFits need_more_data = Unit {0}
EventFits (failed e) = Unit {0}

record Handed (r : DecodeResult) : Type 0 where
  fits : EventFits r

either : (b : Bool) (x y : DecodeResult) → Handed x → Handed y → Handed (if b then x else y)
either true x y p q = p
either false x y p q = q

done-Handed : (event : ItchEvent) (n : ℕ) → Fits event → Handed (done event n)
done-Handed event n h = record { fits = h }

failed-Handed : (e : DecodeError) → Handed (failed e)
failed-Handed e = record { fits = tt }

waiting-Handed : Handed need_more_data
waiting-Handed = record { fits = tt }

add_order-Handed : (m : List ℕ) (n : ℕ) → Handed (done (add_order_of m) n)
unfolding add_order_of
add_order-Handed m n = record { fits = (word m 20, word m 32) }

attributed-Handed : (m : List ℕ) (n : ℕ) → Handed (done (add_attributed_order_of m) n)
unfolding add_attributed_order_of
attributed-Handed m n = record { fits = (word m 20, word m 32) }

replace-Handed : (m : List ℕ) (n : ℕ) → Handed (done (order_replace_of m) n)
unfolding order_replace_of
replace-Handed m n = record { fits = (word m 27, word m 31) }

system_event-Handed : (m : List ℕ) (n : ℕ) → Handed (done (system_event_of m) n)
unfolding system_event_of
system_event-Handed m n = record { fits = tt }

stock_directory-Handed : (m : List ℕ) (n : ℕ) → Handed (done (stock_directory_of m) n)
unfolding stock_directory_of
stock_directory-Handed m n = record { fits = tt }

trading_action-Handed : (m : List ℕ) (n : ℕ) → Handed (done (trading_action_of m) n)
unfolding trading_action_of
trading_action-Handed m n = record { fits = tt }

order_executed-Handed : (m : List ℕ) (n : ℕ) → Handed (done (order_executed_of m) n)
unfolding order_executed_of
order_executed-Handed m n = record { fits = tt }

order_executed_with_price-Handed :
    (m : List ℕ) (n : ℕ) → Handed (done (order_executed_with_price_of m) n)
unfolding order_executed_with_price_of
order_executed_with_price-Handed m n = record { fits = tt }

order_cancel-Handed : (m : List ℕ) (n : ℕ) → Handed (done (order_cancel_of m) n)
unfolding order_cancel_of
order_cancel-Handed m n = record { fits = tt }

order_delete-Handed : (m : List ℕ) (n : ℕ) → Handed (done (order_delete_of m) n)
unfolding order_delete_of
order_delete-Handed m n = record { fits = tt }

trade-Handed : (m : List ℕ) (n : ℕ) → Handed (done (trade_of m) n)
unfolding trade_of
trade-Handed m n = record { fits = tt }

cross_trade-Handed : (m : List ℕ) (n : ℕ) → Handed (done (cross_trade_of m) n)
unfolding cross_trade_of
cross_trade-Handed m n = record { fits = tt }

broken_trade-Handed : (m : List ℕ) (n : ℕ) → Handed (done (broken_trade_of m) n)
unfolding broken_trade_of
broken_trade-Handed m n = record { fits = tt }

net_order_imbalance-Handed : (m : List ℕ) (n : ℕ) → Handed (done (net_order_imbalance_of m) n)
unfolding net_order_imbalance_of
net_order_imbalance-Handed m n = record { fits = tt }

skipped_message-Handed : (m : List ℕ) (n : ℕ) → Handed (done (skipped_message_of m) n)
unfolding skipped_message_of
skipped_message-Handed m n = record { fits = tt }

ruleset handing = (
  either, failed-Handed, waiting-Handed, add_order-Handed, attributed-Handed, replace-Handed,
  system_event-Handed, stock_directory-Handed, trading_action-Handed, order_executed-Handed,
  order_executed_with_price-Handed, order_cancel-Handed, order_delete-Handed, trade-Handed,
  cross_trade-Handed, broken_trade-Handed, net_order_imbalance-Handed, skipped_message-Handed,
)

message-Handed : (message : List ℕ) (n : ℕ) → Handed (decode_message message n)
unfolding decode_message
message-Handed message n = search handing depth 20 fits 4000

next-Handed : (input : List ℕ) → Handed (decode_next input)
unfolding decode_next
next-Handed input = search (handing, message-Handed) depth 8

-- The prices and the share counts of the orders in a decoded event are of 32 bits.
pub next-Fits :
    (input : List ℕ) (m : DecodedMessage) → decode_next input ≡ complete m → Fits m.event
next-Fits input m h = rw h at ((next-Handed input).fits)
