-- ===== src/Itch/Decoder/Trades.antt =====
-- itch/ItchDecoder.cpp: the decoders of the messages about trades and auctions.
use low_latency_trading.Base.{Option}
use low_latency_trading.Mold.Codec.{Span}
use low_latency_trading.Itch.Decoder.Words.{decoded, read_u16, read_u32, read_u48, read_u64, chars}
use low_latency_trading.Itch.Messages.{
  TradeMessage, CrossTradeMessage, BrokenTradeMessage, NoiiMessage,
}

unfoldable pub decode_trade : Option Span → Option TradeMessage
unfolding decoded
decode_trade s = decoded s 44 b'P' (λ d. record {
  stock_locate = read_u16 d 1;
  tracking_number = read_u16 d 3;
  timestamp = read_u48 d 5;
  order_reference_number = read_u64 d 11;
  buy_sell_indicator = d 19;
  shares = read_u32 d 20;
  stock = chars 8 d 24;
  price = read_u32 d 32;
  match_number = read_u64 d 36;
})

unfoldable pub decode_cross_trade : Option Span → Option CrossTradeMessage
unfolding decoded
decode_cross_trade s = decoded s 40 b'Q' (λ d. record {
  stock_locate = read_u16 d 1;
  tracking_number = read_u16 d 3;
  timestamp = read_u48 d 5;
  shares = read_u64 d 11;
  stock = chars 8 d 19;
  cross_price = read_u32 d 27;
  match_number = read_u64 d 31;
  cross_type = d 39;
})

unfoldable pub decode_broken_trade : Option Span → Option BrokenTradeMessage
unfolding decoded
decode_broken_trade s = decoded s 19 b'B' (λ d. record {
  stock_locate = read_u16 d 1;
  tracking_number = read_u16 d 3;
  timestamp = read_u48 d 5;
  match_number = read_u64 d 11;
})

unfoldable pub decode_noii : Option Span → Option NoiiMessage
unfolding decoded
decode_noii s = decoded s 50 b'I' (λ d. record {
  stock_locate = read_u16 d 1;
  tracking_number = read_u16 d 3;
  timestamp = read_u48 d 5;
  paired_shares = read_u64 d 11;
  imbalance_shares = read_u64 d 19;
  imbalance_direction = d 27;
  stock = chars 8 d 28;
  far_price = read_u32 d 36;
  near_price = read_u32 d 40;
  current_reference_price = read_u32 d 44;
  cross_type = d 48;
  price_variation_indicator = d 49;
})
