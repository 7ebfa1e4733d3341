-- ===== src/Itch/Messages/Market.antt =====
-- common/market_data/itch/messages: the messages about the whole market. Integers and characters are numbers,
-- an array of characters is the list of them.
use low_latency_trading.Base.{ℕ}

pub record SystemEventMessage : Type 0 where
  pub stock_locate : ℕ
  pub tracking_number : ℕ
  pub timestamp : ℕ
  pub event_code : ℕ

pub record MwcbDeclineLevelMessage : Type 0 where
  pub stock_locate : ℕ
  pub tracking_number : ℕ
  pub timestamp : ℕ
  pub level1 : ℕ
  pub level2 : ℕ
  pub level3 : ℕ

pub record MwcbStatusMessage : Type 0 where
  pub stock_locate : ℕ
  pub tracking_number : ℕ
  pub timestamp : ℕ
  pub breached_level : ℕ
