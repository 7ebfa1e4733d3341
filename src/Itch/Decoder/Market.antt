-- ===== src/Itch/Decoder/Market.antt =====
-- itch/ItchDecoder.cpp: the decoders of the messages about the whole market.
use low_latency_trading.Base.{Option}
use low_latency_trading.Mold.Codec.{Span}
use low_latency_trading.Itch.Decoder.Words.{decoded, read_u16, read_u48, read_u64}
use low_latency_trading.Itch.Messages.{
  SystemEventMessage, MwcbDeclineLevelMessage, MwcbStatusMessage,
}

unfoldable pub decode_system_event : Option Span → Option SystemEventMessage
unfolding decoded
decode_system_event s = decoded s 12 b'S' (λ d. record {
  stock_locate = read_u16 d 1;
  tracking_number = read_u16 d 3;
  timestamp = read_u48 d 5;
  event_code = d 11;
})

unfoldable pub decode_mwcb_decline_level : Option Span → Option MwcbDeclineLevelMessage
unfolding decoded
decode_mwcb_decline_level s = decoded s 35 b'V' (λ d. record {
  stock_locate = read_u16 d 1;
  tracking_number = read_u16 d 3;
  timestamp = read_u48 d 5;
  level1 = read_u64 d 11;
  level2 = read_u64 d 19;
  level3 = read_u64 d 27;
})

unfoldable pub decode_mwcb_status : Option Span → Option MwcbStatusMessage
unfolding decoded
decode_mwcb_status s = decoded s 12 b'W' (λ d. record {
  stock_locate = read_u16 d 1;
  tracking_number = read_u16 d 3;
  timestamp = read_u48 d 5;
  breached_level = d 11;
})
