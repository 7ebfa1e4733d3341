-- ===== src/Itch/Wire/Trades.antt =====
-- The decoders of itch/ItchDecoder.cpp accept exactly the wire format: the messages about
-- trades and auctions.
use low_latency_trading.Base.{◌≡◌, ◌↔◌, some, arith}
use low_latency_trading.Mold.Codec.{Span}
use low_latency_trading.Itch.Decoder.{
  decode_trade, decode_cross_trade, decode_broken_trade, decode_noii,
}
use low_latency_trading.Itch.Messages.{
  TradeMessage, CrossTradeMessage, BrokenTradeMessage, NoiiMessage, trade, cross_trade,
  broken_trade, noii,
}
use low_latency_trading.Itch.Wire.{Accepted, fields}
use low_latency_trading.Itch.Wire.Numbers.{
  number-byte, number-u16, number-u32, number-u48, number-u64,
}

pub decode_trade-Accepted :
    (s : Span) (x : TradeMessage) → (decode_trade (some s) ≡ some x) ↔ Accepted s (trade x)
unfolding decode_trade fields
decode_trade-Accepted s x =
    let d = s.bytes in
    (
      λ e. ground (
        arith,
        number-byte d 0,
        number-u16 d 1,
        number-u16 d 3,
        number-u48 d 5,
        number-u64 d 11,
        number-byte d 19,
        number-u32 d 20,
        number-u32 d 32,
        number-u64 d 36,
      ),
      λ (size, laid). ground (
        arith,
        number-byte d 0,
        number-u16 d 1,
        number-u16 d 3,
        number-u48 d 5,
        number-u64 d 11,
        number-byte d 19,
        number-u32 d 20,
        number-u32 d 32,
        number-u64 d 36,
      ),
    )

pub decode_cross_trade-Accepted :
    (s : Span) (x : CrossTradeMessage)
    → (decode_cross_trade (some s) ≡ some x) ↔ Accepted s (cross_trade x)
unfolding decode_cross_trade fields
decode_cross_trade-Accepted s x =
    let d = s.bytes in
    (
      λ e. ground (
        arith,
        number-byte d 0,
        number-u16 d 1,
        number-u16 d 3,
        number-u48 d 5,
        number-u64 d 11,
        number-u32 d 27,
        number-u64 d 31,
        number-byte d 39,
      ),
      λ (size, laid). ground (
        arith,
        number-byte d 0,
        number-u16 d 1,
        number-u16 d 3,
        number-u48 d 5,
        number-u64 d 11,
        number-u32 d 27,
        number-u64 d 31,
        number-byte d 39,
      ),
    )

pub decode_broken_trade-Accepted :
    (s : Span) (x : BrokenTradeMessage)
    → (decode_broken_trade (some s) ≡ some x) ↔ Accepted s (broken_trade x)
unfolding decode_broken_trade fields
decode_broken_trade-Accepted s x =
    let d = s.bytes in
    (
      λ e.
          ground (
            arith,
            number-byte d 0,
            number-u16 d 1,
            number-u16 d 3,
            number-u48 d 5,
            number-u64 d 11,
          ),
      λ (size, laid).
          ground (
            arith,
            number-byte d 0,
            number-u16 d 1,
            number-u16 d 3,
            number-u48 d 5,
            number-u64 d 11,
          ),
    )

pub decode_noii-Accepted :
    (s : Span) (x : NoiiMessage) → (decode_noii (some s) ≡ some x) ↔ Accepted s (noii x)
unfolding decode_noii fields
decode_noii-Accepted s x =
    let d = s.bytes in
    (
      λ e. ground (
        arith,
        number-byte d 0,
        number-u16 d 1,
        number-u16 d 3,
        number-u48 d 5,
        number-u64 d 11,
        number-u64 d 19,
        number-byte d 27,
        number-u32 d 36,
        number-u32 d 40,
        number-u32 d 44,
        number-byte d 48,
        number-byte d 49,
      ),
      λ (size, laid). ground (
        arith,
        number-byte d 0,
        number-u16 d 1,
        number-u16 d 3,
        number-u48 d 5,
        number-u64 d 11,
        number-u64 d 19,
        number-byte d 27,
        number-u32 d 36,
        number-u32 d 40,
        number-u32 d 44,
        number-byte d 48,
        number-byte d 49,
      ),
    )
