-- ===== src/Itch/Decoder.antt =====
-- `ItchDecoder` of src/itch/itch.cpp: one framed message of TotalView-ITCH 5.0 from a list of bytes.
use nasdaq_itch_order_book_e.Base.{
  ℕ, zero, suc, ◌+◌, ◌*◌, ◌%◌, ◌^◌, Bool, ◌||◌, none, some, List, [], ◌∷◌, ◌==◌, ltb, leb,
  if◌then◌else◌, length, get_or, take, drop, bit_or,
}
use nasdaq_itch_order_book_e.Common.{Side, buy, sell}
use nasdaq_itch_order_book_e.Itch.{
  MessageHeader, ItchEvent, DecodeErrorCode, DecodeResult, complete, need_more_data, failed,
  invalid_frame_length, unexpected_message_length, invalid_side, system_event, stock_directory,
  trading_action, add_order, add_attributed_order, order_executed, order_executed_with_price,
  order_cancel, order_delete, order_replace, trade, cross_trade, broken_trade, net_order_imbalance,
  skipped_message,
}

abbrev pub k_frame_prefix_bytes : ℕ
k_frame_prefix_bytes = 2

abbrev pub k_common_header_bytes : ℕ
k_common_header_bytes = 11

-- `bytes[offset]`; every call stands behind a test of the size.
unfoldable pub byte_at : List ℕ → ℕ → ℕ
byte_at bytes offset = get_or bytes offset 0

-- The rounds of `read_be` on a word of the given width in bits, with the number of rounds left.
unfoldable pub read_be_from : ℕ → ℕ → ℕ → List ℕ → ℕ → ℕ
unfolding byte_at
read_be_from zero width value bytes offset = value
read_be_from (suc rounds) width value bytes offset =
    read_be_from rounds width
      (bit_or (value * 2 ^ 8 % 2 ^ width) (byte_at bytes offset) % 2 ^ width) bytes (offset + 1)

-- `read_be<Unsigned>` for a type of the given size in bytes.
unfoldable pub read_be : ℕ → List ℕ → ℕ → ℕ
unfolding read_be_from
read_be size bytes offset = read_be_from size (8 * size) 0 bytes offset

-- Six bytes into a 64-bit word.
unfoldable pub read_timestamp : List ℕ → ℕ → ℕ
unfolding read_be_from
read_timestamp bytes offset = read_be_from 6 64 0 bytes offset

unfoldable pub read_chars : ℕ → List ℕ → ℕ → List ℕ
unfolding byte_at
read_chars zero bytes offset = []
read_chars (suc count) bytes offset = byte_at bytes offset ∷ read_chars count bytes (offset + 1)

unfoldable pub read_header : List ℕ → MessageHeader
unfolding read_be read_timestamp
read_header message = record {
  stock_locate = read_be 2 message 1;
  tracking_number = read_be 2 message 3;
  timestamp = read_timestamp message 5;
}

abbrev pub valid_side : ℕ → Bool
valid_side value = value == b'B' || value == b'S'

abbrev pub to_side : ℕ → Side
to_side value = if value == b'B' then buy else sell

abbrev pub error : DecodeErrorCode → ℕ → DecodeResult
error code offset = failed (record { code = code; offset = offset })

abbrev pub wrong_size : DecodeResult
wrong_size = error unexpected_message_length k_frame_prefix_bytes

abbrev pub wrong_side : DecodeResult
wrong_side = error invalid_side (k_frame_prefix_bytes + 19)

abbrev pub done : ItchEvent → ℕ → DecodeResult
done event bytes_consumed = complete (record { event = event; bytes_consumed = bytes_consumed })

-- A message of fixed size; one of fixed size with a side at offset 19.
abbrev pub sized : List ℕ → ℕ → DecodeResult → DecodeResult
sized message expected result = if length message == expected then result else wrong_size

abbrev pub sided : List ℕ → ℕ → DecodeResult → DecodeResult
sided message expected result =
    sized message expected (if valid_side (byte_at message 19) then result else wrong_side)

module _ (message : List ℕ) where
  unfoldable pub system_event_of : ItchEvent
  unfolding read_header byte_at
  system_event_of =
      system_event (record { header = read_header message; event_code = byte_at message 11 })

  unfoldable pub stock_directory_of : ItchEvent
  unfolding read_header byte_at read_be read_chars
  stock_directory_of = stock_directory (record {
    header = read_header message;
    stock = read_chars 8 message 11;
    market_category = byte_at message 19;
    financial_status_indicator = byte_at message 20;
    round_lot_size = read_be 4 message 21;
    round_lots_only = byte_at message 25;
    issue_classification = byte_at message 26;
    issue_sub_type = read_chars 2 message 27;
    authenticity = byte_at message 29;
    short_sale_threshold_indicator = byte_at message 30;
    ipo_flag = byte_at message 31;
    luld_reference_price_tier = byte_at message 32;
    etp_flag = byte_at message 33;
    etp_leverage_factor = read_be 4 message 34;
    inverse_indicator = byte_at message 38;
  })

  unfoldable pub trading_action_of : ItchEvent
  unfolding read_header byte_at read_chars
  trading_action_of = trading_action (record {
    header = read_header message;
    stock = read_chars 8 message 11;
    trading_state = byte_at message 19;
    reserved = byte_at message 20;
    reason = read_chars 4 message 21;
  })

  unfoldable pub add_order_of : ItchEvent
  unfolding read_header byte_at read_be read_chars
  add_order_of = add_order (record {
    header = read_header message;
    order_reference = read_be 8 message 11;
    side = to_side (byte_at message 19);
    shares = read_be 4 message 20;
    stock = read_chars 8 message 24;
    price = read_be 4 message 32;
  })

  unfoldable pub add_attributed_order_of : ItchEvent
  unfolding read_header byte_at read_be read_chars
  add_attributed_order_of = add_attributed_order (record {
    header = read_header message;
    order_reference = read_be 8 message 11;
    side = to_side (byte_at message 19);
    shares = read_be 4 message 20;
    stock = read_chars 8 message 24;
    price = read_be 4 message 32;
    attribution = read_chars 4 message 36;
  })

  unfoldable pub order_executed_of : ItchEvent
  unfolding read_header read_be
  order_executed_of = order_executed (record {
    header = read_header message;
    order_reference = read_be 8 message 11;
    executed_shares = read_be 4 message 19;
    match_number = read_be 8 message 23;
  })

  unfoldable pub order_executed_with_price_of : ItchEvent
  unfolding read_header byte_at read_be
  order_executed_with_price_of = order_executed_with_price (record {
    header = read_header message;
    order_reference = read_be 8 message 11;
    executed_shares = read_be 4 message 19;
    match_number = read_be 8 message 23;
    printable = byte_at message 31;
    execution_price = read_be 4 message 32;
  })

  unfoldable pub order_cancel_of : ItchEvent
  unfolding read_header read_be
  order_cancel_of = order_cancel (record {
    header = read_header message;
    order_reference = read_be 8 message 11;
    canceled_shares = read_be 4 message 19;
  })

  unfoldable pub order_delete_of : ItchEvent
  unfolding read_header read_be
  order_delete_of =
      order_delete (record { header = read_header message; order_reference = read_be 8 message 11 })

  unfoldable pub order_replace_of : ItchEvent
  unfolding read_header read_be
  order_replace_of = order_replace (record {
    header = read_header message;
    original_order_reference = read_be 8 message 11;
    new_order_reference = read_be 8 message 19;
    shares = read_be 4 message 27;
    price = read_be 4 message 31;
  })

  unfoldable pub trade_of : ItchEvent
  unfolding read_header byte_at read_be read_chars
  trade_of = trade (record {
    header = read_header message;
    order_reference = read_be 8 message 11;
    side = to_side (byte_at message 19);
    shares = read_be 4 message 20;
    stock = read_chars 8 message 24;
    price = read_be 4 message 32;
    match_number = read_be 8 message 36;
  })

  unfoldable pub cross_trade_of : ItchEvent
  unfolding read_header byte_at read_be read_chars
  cross_trade_of = cross_trade (record {
    header = read_header message;
    shares = read_be 8 message 11;
    stock = read_chars 8 message 19;
    cross_price = read_be 4 message 27;
    match_number = read_be 8 message 31;
    cross_type = byte_at message 39;
  })

  unfoldable pub broken_trade_of : ItchEvent
  unfolding read_header read_be
  broken_trade_of =
      broken_trade (record { header = read_header message; match_number = read_be 8 message 11 })

  unfoldable pub net_order_imbalance_of : ItchEvent
  unfolding read_header byte_at read_be read_chars
  net_order_imbalance_of = net_order_imbalance (record {
    header = read_header message;
    paired_shares = read_be 8 message 11;
    imbalance_shares = read_be 8 message 19;
    imbalance_direction = byte_at message 27;
    stock = read_chars 8 message 28;
    far_price = read_be 4 message 36;
    near_price = read_be 4 message 40;
    current_reference_price = read_be 4 message 44;
    cross_type = byte_at message 48;
    price_variation_indicator = byte_at message 49;
  })

  unfoldable pub skipped_message_of : ItchEvent
  unfolding read_header byte_at
  skipped_message_of = skipped_message (record {
    message_type = byte_at message 0;
    header =
        if leb k_common_header_bytes (length message) then some (read_header message) else none;
  })

-- `decode_message`: the switch on the first byte.
unfoldable pub decode_message : List ℕ → ℕ → DecodeResult
decode_message message bytes_consumed =
    let type = byte_at message 0 in
    if type == b'S'
    then sized message 12 (done (system_event_of message) bytes_consumed)
    else if type == b'R'
    then sized message 39 (done (stock_directory_of message) bytes_consumed)
    else if type == b'H'
    then sized message 25 (done (trading_action_of message) bytes_consumed)
    else if type == b'A'
    then sided message 36 (done (add_order_of message) bytes_consumed)
    else if type == b'F'
    then sided message 40 (done (add_attributed_order_of message) bytes_consumed)
    else if type == b'E'
    then sized message 31 (done (order_executed_of message) bytes_consumed)
    else if type == b'C'
    then sized message 36 (done (order_executed_with_price_of message) bytes_consumed)
    else if type == b'X'
    then sized message 23 (done (order_cancel_of message) bytes_consumed)
    else if type == b'D'
    then sized message 19 (done (order_delete_of message) bytes_consumed)
    else if type == b'U'
    then sized message 35 (done (order_replace_of message) bytes_consumed)
    else if type == b'P'
    then sided message 44 (done (trade_of message) bytes_consumed)
    else if type == b'Q'
    then sized message 40 (done (cross_trade_of message) bytes_consumed)
    else if type == b'B'
    then sized message 19 (done (broken_trade_of message) bytes_consumed)
    else if type == b'I'
    then sized message 50 (done (net_order_imbalance_of message) bytes_consumed)
    else done (skipped_message_of message) bytes_consumed

-- `ItchDecoder::decode_next`
unfoldable pub decode_next : List ℕ → DecodeResult
decode_next input =
    let message_length = read_be 2 input 0 in
    let total_length = k_frame_prefix_bytes + message_length in
    if ltb (length input) k_frame_prefix_bytes
    then need_more_data
    else if message_length == 0
    then error invalid_frame_length 0
    else if ltb (length input) total_length
    then need_more_data
    else decode_message (take message_length (drop k_frame_prefix_bytes input)) total_length
