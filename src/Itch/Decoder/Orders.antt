-- ===== src/Itch/Decoder/Orders.antt =====
-- itch/ItchDecoder.cpp: the decoders of the messages about the life of a resting order.
use low_latency_trading.Base.{Option}
use low_latency_trading.Mold.Codec.{Span}
use low_latency_trading.Itch.Decoder.Words.{decoded, read_u16, read_u32, read_u48, read_u64, chars}
use low_latency_trading.Itch.Messages.{
  AddOrderMessage, AddOrderWithMpidMessage, OrderExecutedMessage, OrderExecutedWithPriceMessage,
  OrderCancelMessage, OrderDeleteMessage, OrderReplaceMessage,
}

unfoldable pub decode_add_order : Option Span → Option AddOrderMessage
unfolding decoded
decode_add_order s = decoded s 36 b'A' (λ d. record {
  stock_locate = read_u16 d 1;
  tracking_number = read_u16 d 3;
  timestamp = read_u48 d 5;
  order_reference_number = read_u64 d 11;
  buy_sell_indicator = d 19;
  shares = read_u32 d 20;
  stock = chars 8 d 24;
  price = read_u32 d 32;
})

unfoldable pub decode_add_order_with_mpid : Option Span → Option AddOrderWithMpidMessage
unfolding decoded
decode_add_order_with_mpid s = decoded s 40 b'F' (λ d. record {
  stock_locate = read_u16 d 1;
  tracking_number = read_u16 d 3;
  timestamp = read_u48 d 5;
  order_reference_number = read_u64 d 11;
  buy_sell_indicator = d 19;
  shares = read_u32 d 20;
  stock = chars 8 d 24;
  price = read_u32 d 32;
  attribution = chars 4 d 36;
})

unfoldable pub decode_order_executed : Option Span → Option OrderExecutedMessage
unfolding decoded
decode_order_executed s = decoded s 31 b'E' (λ d. record {
  stock_locate = read_u16 d 1;
  tracking_number = read_u16 d 3;
  timestamp = read_u48 d 5;
  order_reference_number = read_u64 d 11;
  executed_shares = read_u32 d 19;
  match_number = read_u64 d 23;
})

unfoldable pub decode_order_executed_with_price : Option Span → Option OrderExecutedWithPriceMessage
unfolding decoded
decode_order_executed_with_price s = decoded s 36 b'C' (λ d. record {
  stock_locate = read_u16 d 1;
  tracking_number = read_u16 d 3;
  timestamp = read_u48 d 5;
  order_reference_number = read_u64 d 11;
  executed_shares = read_u32 d 19;
  match_number = read_u64 d 23;
  printable = d 31;
  execution_price = read_u32 d 32;
})

unfoldable pub decode_order_cancel : Option Span → Option OrderCancelMessage
unfolding decoded
decode_order_cancel s = decoded s 23 b'X' (λ d. record {
  stock_locate = read_u16 d 1;
  tracking_number = read_u16 d 3;
  timestamp = read_u48 d 5;
  order_reference_number = read_u64 d 11;
  cancelled_shares = read_u32 d 19;
})

unfoldable pub decode_order_delete : Option Span → Option OrderDeleteMessage
unfolding decoded
decode_order_delete s = decoded s 19 b'D' (λ d. record {
  stock_locate = read_u16 d 1;
  tracking_number = read_u16 d 3;
  timestamp = read_u48 d 5;
  order_reference_number = read_u64 d 11;
})

unfoldable pub decode_order_replace : Option Span → Option OrderReplaceMessage
unfolding decoded
decode_order_replace s = decoded s 35 b'U' (λ d. record {
  stock_locate = read_u16 d 1;
  tracking_number = read_u16 d 3;
  timestamp = read_u48 d 5;
  original_order_reference_number = read_u64 d 11;
  new_order_reference_number = read_u64 d 19;
  shares = read_u32 d 27;
  price = read_u32 d 31;
})
