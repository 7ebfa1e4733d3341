-- ===== src/Itch/Messages/Trades.antt =====
-- common/market_data/itch/messages: the messages about trades and auctions. Integers and characters are numbers,
-- an array of characters is the list of them.
use low_latency_trading.Base.{ℕ, List}

pub record TradeMessage : Type 0 where
  pub stock_locate : ℕ
  pub tracking_number : ℕ
  pub timestamp : ℕ
  pub order_reference_number : ℕ
  pub buy_sell_indicator : ℕ
  pub shares : ℕ
  pub stock : List ℕ
  pub price : ℕ
  pub match_number : ℕ

pub record CrossTradeMessage : Type 0 where
  pub stock_locate : ℕ
  pub tracking_number : ℕ
  pub timestamp : ℕ
  pub shares : ℕ
  pub stock : List ℕ
  pub cross_price : ℕ
  pub match_number : ℕ
  pub cross_type : ℕ

pub record BrokenTradeMessage : Type 0 where
  pub stock_locate : ℕ
  pub tracking_number : ℕ
  pub timestamp : ℕ
  pub match_number : ℕ

pub record NoiiMessage : Type 0 where
  pub stock_locate : ℕ
  pub tracking_number : ℕ
  pub timestamp : ℕ
  pub paired_shares : ℕ
  pub imbalance_shares : ℕ
  pub imbalance_direction : ℕ
  pub stock : List ℕ
  pub far_price : ℕ
  pub near_price : ℕ
  pub current_reference_price : ℕ
  pub cross_type : ℕ
  pub price_variation_indicator : ℕ
