-- ===== src/Itch.antt =====
-- The typed events of include/lob/itch.hpp. Fields are unsigned words, bytes or byte strings.
pub mod Decoder
pub mod Framing
pub mod Words
use nasdaq_itch_order_book_e.Base.{ℕ, Option, List}
use nasdaq_itch_order_book_e.Common.{Side}

pub record MessageHeader : Type 0 where
  pub stock_locate : ℕ
  pub tracking_number : ℕ
  pub timestamp : ℕ

pub record SystemEvent : Type 0 where
  pub header : MessageHeader
  pub event_code : ℕ

pub record StockDirectory : Type 0 where
  pub header : MessageHeader
  pub stock : List ℕ
  pub market_category : ℕ
  pub financial_status_indicator : ℕ
  pub round_lot_size : ℕ
  pub round_lots_only : ℕ
  pub issue_classification : ℕ
  pub issue_sub_type : List ℕ
  pub authenticity : ℕ
  pub short_sale_threshold_indicator : ℕ
  pub ipo_flag : ℕ
  pub luld_reference_price_tier : ℕ
  pub etp_flag : ℕ
  pub etp_leverage_factor : ℕ
  pub inverse_indicator : ℕ

pub record TradingAction : Type 0 where
  pub header : MessageHeader
  pub stock : List ℕ
  pub trading_state : ℕ
  pub reserved : ℕ
  pub reason : List ℕ

pub record AddOrder : Type 0 where
  pub header : MessageHeader
  pub order_reference : ℕ
  pub side : Side
  pub shares : ℕ
  pub stock : List ℕ
  pub price : ℕ

pub record AddAttributedOrder : Type 0 where
  pub header : MessageHeader
  pub order_reference : ℕ
  pub side : Side
  pub shares : ℕ
  pub stock : List ℕ
  pub price : ℕ
  pub attribution : List ℕ

pub record OrderExecuted : Type 0 where
  pub header : MessageHeader
  pub order_reference : ℕ
  pub executed_shares : ℕ
  pub match_number : ℕ

pub record OrderExecutedWithPrice : Type 0 where
  pub header : MessageHeader
  pub order_reference : ℕ
  pub executed_shares : ℕ
  pub match_number : ℕ
  pub printable : ℕ
  pub execution_price : ℕ

pub record OrderCancel : Type 0 where
  pub header : MessageHeader
  pub order_reference : ℕ
  pub canceled_shares : ℕ

pub record OrderDelete : Type 0 where
  pub header : MessageHeader
  pub order_reference : ℕ

pub record OrderReplace : Type 0 where
  pub header : MessageHeader
  pub original_order_reference : ℕ
  pub new_order_reference : ℕ
  pub shares : ℕ
  pub price : ℕ

pub record Trade : Type 0 where
  pub header : MessageHeader
  pub order_reference : ℕ
  pub side : Side
  pub shares : ℕ
  pub stock : List ℕ
  pub price : ℕ
  pub match_number : ℕ

pub record CrossTrade : Type 0 where
  pub header : MessageHeader
  pub shares : ℕ
  pub stock : List ℕ
  pub cross_price : ℕ
  pub match_number : ℕ
  pub cross_type : ℕ

pub record BrokenTrade : Type 0 where
  pub header : MessageHeader
  pub match_number : ℕ

pub record NetOrderImbalance : Type 0 where
  pub header : MessageHeader
  pub paired_shares : ℕ
  pub imbalance_shares : ℕ
  pub imbalance_direction : ℕ
  pub stock : List ℕ
  pub far_price : ℕ
  pub near_price : ℕ
  pub current_reference_price : ℕ
  pub cross_type : ℕ
  pub price_variation_indicator : ℕ

pub record SkippedMessage : Type 0 where
  pub message_type : ℕ
  pub header : Option MessageHeader

pub data ItchEvent : Type 0 where
  system_event : SystemEvent → ItchEvent
  stock_directory : StockDirectory → ItchEvent
  trading_action : TradingAction → ItchEvent
  add_order : AddOrder → ItchEvent
  add_attributed_order : AddAttributedOrder → ItchEvent
  order_executed : OrderExecuted → ItchEvent
  order_executed_with_price : OrderExecutedWithPrice → ItchEvent
  order_cancel : OrderCancel → ItchEvent
  order_delete : OrderDelete → ItchEvent
  order_replace : OrderReplace → ItchEvent
  trade : Trade → ItchEvent
  cross_trade : CrossTrade → ItchEvent
  broken_trade : BrokenTrade → ItchEvent
  net_order_imbalance : NetOrderImbalance → ItchEvent
  skipped_message : SkippedMessage → ItchEvent

pub data DecodeErrorCode : Type 0 where
  invalid_frame_length : DecodeErrorCode
  truncated_frame : DecodeErrorCode
  unexpected_message_length : DecodeErrorCode
  unsupported_message_type : DecodeErrorCode
  invalid_side : DecodeErrorCode

-- `DecodeError` without its text.
pub record DecodeError : Type 0 where
  pub code : DecodeErrorCode
  pub offset : ℕ

pub record DecodedMessage : Type 0 where
  pub event : ItchEvent
  pub bytes_consumed : ℕ

-- `DecodeResult`: each status comes with just what the decoder sets for it.
pub data DecodeResult : Type 0 where
  complete : DecodedMessage → DecodeResult
  need_more_data : DecodeResult
  failed : DecodeError → DecodeResult
