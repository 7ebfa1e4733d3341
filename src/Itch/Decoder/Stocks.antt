-- ===== src/Itch/Decoder/Stocks.antt =====
-- itch/ItchDecoder.cpp: the decoders of the messages about one instrument.
use low_latency_trading.Base.{Option}
use low_latency_trading.Mold.Codec.{Span}
use low_latency_trading.Itch.Decoder.Words.{decoded, read_u16, read_u32, read_u48, chars}
use low_latency_trading.Itch.Messages.{
  StockDirectoryMessage, StockTradingActionMessage, MarketParticipantPositionMessage,
  RegShoRestrictionMessage, LuldAuctionCollarMessage,
}

unfoldable pub decode_stock_directory : Option Span → Option StockDirectoryMessage
unfolding decoded
decode_stock_directory s = decoded s 39 b'R' (λ d. record {
  stock_locate = read_u16 d 1;
  tracking_number = read_u16 d 3;
  timestamp = read_u48 d 5;
  stock = chars 8 d 11;
  market_category = d 19;
  financial_status_indicator = d 20;
  round_lot_size = read_u32 d 21;
  round_lots_only = d 25;
  issue_classification = d 26;
  issue_sub_type = chars 2 d 27;
  authenticity = d 29;
  short_sale_threshold_indicator = d 30;
  ipo_flag = d 31;
  luld_reference_price_tier = d 32;
  etp_flag = d 33;
  etp_leverage_factor = read_u32 d 34;
  inverse_indicator = d 38;
})

unfoldable pub decode_stock_trading_action : Option Span → Option StockTradingActionMessage
unfolding decoded
decode_stock_trading_action s = decoded s 25 b'H' (λ d. record {
  stock_locate = read_u16 d 1;
  tracking_number = read_u16 d 3;
  timestamp = read_u48 d 5;
  stock = chars 8 d 11;
  trading_state = d 19;
  reserved = d 20;
  reason = chars 4 d 21;
})

unfoldable pub decode_market_participant_position :
    Option Span → Option MarketParticipantPositionMessage
unfolding decoded
decode_market_participant_position s = decoded s 26 b'L' (λ d. record {
  stock_locate = read_u16 d 1;
  tracking_number = read_u16 d 3;
  timestamp = read_u48 d 5;
  mpid = chars 4 d 11;
  stock = chars 8 d 15;
  primary_market_maker = d 23;
  market_maker_mode = d 24;
  market_participant_state = d 25;
})

unfoldable pub decode_reg_sho_restriction : Option Span → Option RegShoRestrictionMessage
unfolding decoded
decode_reg_sho_restriction s = decoded s 20 b'Y' (λ d. record {
  stock_locate = read_u16 d 1;
  tracking_number = read_u16 d 3;
  timestamp = read_u48 d 5;
  stock = chars 8 d 11;
  reg_sho_action = d 19;
})

unfoldable pub decode_luld_auction_collar : Option Span → Option LuldAuctionCollarMessage
unfolding decoded
decode_luld_auction_collar s = decoded s 35 b'J' (λ d. record {
  stock_locate = read_u16 d 1;
  tracking_number = read_u16 d 3;
  timestamp = read_u48 d 5;
  stock = chars 8 d 11;
  auction_collar_reference_price = read_u32 d 19;
  upper_auction_collar_price = read_u32 d 23;
  lower_auction_collar_price = read_u32 d 27;
  auction_collar_extension = read_u32 d 31;
})
