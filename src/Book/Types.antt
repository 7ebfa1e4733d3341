-- ===== src/Book/Types.antt =====
-- common/market_data/normalized/MarketTypes.h. Prices, quantities, identifiers and timestamps
-- are the numbers of their unsigned types.
use low_latency_trading.Base.{Bool, true, false}

pub data Side : Type 0 where
  buy sell : Side

pub data TradingState : Type 0 where
  unknown halted paused quotation_only trading : TradingState

pub data RegShoState : Type 0 where
  unknown no_restriction restriction_in_effect restriction_remains : RegShoState

abbrev pub is_buy : Side → Bool
is_buy buy = true
is_buy sell = false
