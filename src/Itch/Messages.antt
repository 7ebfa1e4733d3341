-- ===== src/Itch/Messages.antt =====
-- common/market_data/itch/ItchMessage.h: the variant of all ITCH messages.
mod Orders
mod Trades
mod Stocks
mod Market
pub use Orders.*
pub use Trades.*
pub use Stocks.*
pub use Market.*

pub data ItchMessage : Type 0 where
  system_event : SystemEventMessage → ItchMessage
  stock_directory : StockDirectoryMessage → ItchMessage
  add_order : AddOrderMessage → ItchMessage
  add_order_with_mpid : AddOrderWithMpidMessage → ItchMessage
  order_executed : OrderExecutedMessage → ItchMessage
  order_executed_with_price : OrderExecutedWithPriceMessage → ItchMessage
  order_cancel : OrderCancelMessage → ItchMessage
  order_delete : OrderDeleteMessage → ItchMessage
  order_replace : OrderReplaceMessage → ItchMessage
  trade : TradeMessage → ItchMessage
  cross_trade : CrossTradeMessage → ItchMessage
  broken_trade : BrokenTradeMessage → ItchMessage
  stock_trading_action : StockTradingActionMessage → ItchMessage
  market_participant_position : MarketParticipantPositionMessage → ItchMessage
  reg_sho_restriction : RegShoRestrictionMessage → ItchMessage
  mwcb_decline_level : MwcbDeclineLevelMessage → ItchMessage
  mwcb_status : MwcbStatusMessage → ItchMessage
  noii : NoiiMessage → ItchMessage
  luld_auction_collar : LuldAuctionCollarMessage → ItchMessage
