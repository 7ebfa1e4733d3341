-- ===== src/Itch/Messages/Stocks.antt =====
-- common/market_data/itch/messages: the messages about one instrument. Integers and characters are numbers,
-- an array of characters is the list of them.
use low_latency_trading.Base.{ℕ, List}

pub record StockDirectoryMessage : Type 0 where
  pub stock_locate : ℕ
  pub tracking_number : ℕ
  pub timestamp : ℕ
  pub stock : List ℕ
  pub market_category : ℕ
  pub financial_status_indicator : ℕ
  pub round_lot_size : ℕ
  pub round_lots_only : ℕ
  pub issue_classification : ℕ
  pub issue_sub_type : List ℕ
  pub authenticity : ℕ
  pub short_sale_threshold_indicator : ℕ
  pub ipo_flag : ℕ
  pub luld_reference_price_tier : ℕ
  pub etp_flag : ℕ
  pub etp_leverage_factor : ℕ
  pub inverse_indicator : ℕ

pub record StockTradingActionMessage : Type 0 where
  pub stock_locate : ℕ
  pub tracking_number : ℕ
  pub timestamp : ℕ
  pub stock : List ℕ
  pub trading_state : ℕ
  pub reserved : ℕ
  pub reason : List ℕ

pub record MarketParticipantPositionMessage : Type 0 where
  pub stock_locate : ℕ
  pub tracking_number : ℕ
  pub timestamp : ℕ
  pub mpid : List ℕ
  pub stock : List ℕ
  pub primary_market_maker : ℕ
  pub market_maker_mode : ℕ
  pub market_participant_state : ℕ

pub record RegShoRestrictionMessage : Type 0 where
  pub stock_locate : ℕ
  pub tracking_number : ℕ
  pub timestamp : ℕ
  pub stock : List ℕ
  pub reg_sho_action : ℕ

pub record LuldAuctionCollarMessage : Type 0 where
  pub stock_locate : ℕ
  pub tracking_number : ℕ
  pub timestamp : ℕ
  pub stock : List ℕ
  pub auction_collar_reference_price : ℕ
  pub upper_auction_collar_price : ℕ
  pub lower_auction_collar_price : ℕ
  pub auction_collar_extension : ℕ
