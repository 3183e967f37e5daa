-- ===== src/Common.antt =====
-- include/lob/common.hpp. Prices and quantities are below 2 ^ 32, order numbers below 2 ^ 64.
use nasdaq_itch_order_book_e.Base.{Bool, true, false}

pub data Side : Type 0 where
  buy sell : Side

unfoldable pub opposite : Side → Side
opposite buy = sell
opposite sell = buy

abbrev pub is_buy : Side → Bool
is_buy buy = true
is_buy sell = false
