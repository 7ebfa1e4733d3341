-- ===== src/Itch/Normalizer.antt =====
-- common/market_data/itch/ItchNormalizer.h.
use low_latency_trading.Base.{ℕ, ◌==◌, if◌then◌else◌}
use low_latency_trading.Book.Types.{Side, buy, sell, TradingState, RegShoState}
use low_latency_trading.Instruments.{Instrument}
use low_latency_trading.OrderStore.{Order}
use low_latency_trading.Itch.Messages.{
  StockDirectoryMessage, StockTradingActionMessage, RegShoRestrictionMessage, AddOrderMessage,
  AddOrderWithMpidMessage,
}

-- `instrument` keeps its default `regShoState`.
unfoldable pub normalize : StockDirectoryMessage → Instrument
normalize m = record {
  id = m.stock_locate;
  symbol = m.stock;
  trading_state = TradingState.unknown;
  reg_sho_state = RegShoState.unknown;
}

unfoldable pub normalize_trading_state : StockTradingActionMessage → TradingState
normalize_trading_state m =
    if m.trading_state == b'H'
    then TradingState.halted
    else if m.trading_state == b'P'
    then TradingState.paused
    else if m.trading_state == b'Q'
    then TradingState.quotation_only
    else if m.trading_state == b'T'
    then TradingState.trading
    else TradingState.unknown

unfoldable pub normalize_reg_sho_state : RegShoRestrictionMessage → RegShoState
normalize_reg_sho_state m =
    if m.reg_sho_action == b'0'
    then RegShoState.no_restriction
    else if m.reg_sho_action == b'1'
    then RegShoState.restriction_in_effect
    else if m.reg_sho_action == b'2'
    then RegShoState.restriction_remains
    else RegShoState.unknown

-- `message.buySellIndicator == 'B' ? Buy : Sell`.
abbrev pub side_of_indicator : ℕ → Side
side_of_indicator c = if c == b'B' then buy else sell

unfoldable pub normalize_order : AddOrderMessage → Order
normalize_order m = record {
  order_id = m.order_reference_number;
  instrument_id = m.stock_locate;
  timestamp = m.timestamp;
  price = m.price;
  quantity = m.shares;
  side = side_of_indicator m.buy_sell_indicator;
}

unfoldable pub normalize_order_with_mpid : AddOrderWithMpidMessage → Order
normalize_order_with_mpid m = record {
  order_id = m.order_reference_number;
  instrument_id = m.stock_locate;
  timestamp = m.timestamp;
  price = m.price;
  quantity = m.shares;
  side = side_of_indicator m.buy_sell_indicator;
}
