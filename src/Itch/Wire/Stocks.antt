-- ===== src/Itch/Wire/Stocks.antt =====
-- The decoders of itch/ItchDecoder.cpp accept exactly the wire format: the messages about
-- one instrument.
use low_latency_trading.Base.{◌≡◌, ◌↔◌, some, arith}
use low_latency_trading.Mold.Codec.{Span}
use low_latency_trading.Itch.Decoder.{
  decode_stock_directory, decode_stock_trading_action, decode_market_participant_position,
  decode_reg_sho_restriction, decode_luld_auction_collar,
}
use low_latency_trading.Itch.Messages.{
  StockDirectoryMessage, StockTradingActionMessage, MarketParticipantPositionMessage,
  RegShoRestrictionMessage, LuldAuctionCollarMessage, stock_directory, stock_trading_action,
  market_participant_position, reg_sho_restriction, luld_auction_collar,
}
use low_latency_trading.Itch.Wire.{Accepted, fields}
use low_latency_trading.Itch.Wire.Numbers.{number-byte, number-u16, number-u32, number-u48}

pub decode_stock_directory-Accepted :
    (s : Span) (x : StockDirectoryMessage)
    → (decode_stock_directory (some s) ≡ some x) ↔ Accepted s (stock_directory x)
unfolding decode_stock_directory fields
decode_stock_directory-Accepted s x =
    let d = s.bytes in
    (
      λ e. ground (
        arith,
        number-byte d 0,
        number-u16 d 1,
        number-u16 d 3,
        number-u48 d 5,
        number-byte d 19,
        number-byte d 20,
        number-u32 d 21,
        number-byte d 25,
        number-byte d 26,
        number-byte d 29,
        number-byte d 30,
        number-byte d 31,
        number-byte d 32,
        number-byte d 33,
        number-u32 d 34,
        number-byte d 38,
      ),
      λ (size, laid). ground (
        arith,
        number-byte d 0,
        number-u16 d 1,
        number-u16 d 3,
        number-u48 d 5,
        number-byte d 19,
        number-byte d 20,
        number-u32 d 21,
        number-byte d 25,
        number-byte d 26,
        number-byte d 29,
        number-byte d 30,
        number-byte d 31,
        number-byte d 32,
        number-byte d 33,
        number-u32 d 34,
        number-byte d 38,
      ),
    )

pub decode_stock_trading_action-Accepted :
    (s : Span) (x : StockTradingActionMessage)
    → (decode_stock_trading_action (some s) ≡ some x) ↔ Accepted s (stock_trading_action x)
unfolding decode_stock_trading_action fields
decode_stock_trading_action-Accepted s x =
    let d = s.bytes in
    (
      λ e. ground (
        arith,
        number-byte d 0,
        number-u16 d 1,
        number-u16 d 3,
        number-u48 d 5,
        number-byte d 19,
        number-byte d 20,
      ),
      λ (size, laid). ground (
        arith,
        number-byte d 0,
        number-u16 d 1,
        number-u16 d 3,
        number-u48 d 5,
        number-byte d 19,
        number-byte d 20,
      ),
    )

pub decode_market_participant_position-Accepted :
    (s : Span) (x : MarketParticipantPositionMessage)
    → (decode_market_participant_position (some s) ≡ some x)
      ↔ Accepted s (market_participant_position x)
unfolding decode_market_participant_position fields
decode_market_participant_position-Accepted s x =
    let d = s.bytes in
    (
      λ e. ground (
        arith,
        number-byte d 0,
        number-u16 d 1,
        number-u16 d 3,
        number-u48 d 5,
        number-byte d 23,
        number-byte d 24,
        number-byte d 25,
      ),
      λ (size, laid). ground (
        arith,
        number-byte d 0,
        number-u16 d 1,
        number-u16 d 3,
        number-u48 d 5,
        number-byte d 23,
        number-byte d 24,
        number-byte d 25,
      ),
    )

pub decode_reg_sho_restriction-Accepted :
    (s : Span) (x : RegShoRestrictionMessage)
    → (decode_reg_sho_restriction (some s) ≡ some x) ↔ Accepted s (reg_sho_restriction x)
unfolding decode_reg_sho_restriction fields
decode_reg_sho_restriction-Accepted s x =
    let d = s.bytes in
    (
      λ e. ground (
        arith,
        number-byte d 0,
        number-u16 d 1,
        number-u16 d 3,
        number-u48 d 5,
        number-byte d 19,
      ),
      λ (size, laid). ground (
        arith,
        number-byte d 0,
        number-u16 d 1,
        number-u16 d 3,
        number-u48 d 5,
        number-byte d 19,
      ),
    )

pub decode_luld_auction_collar-Accepted :
    (s : Span) (x : LuldAuctionCollarMessage)
    → (decode_luld_auction_collar (some s) ≡ some x) ↔ Accepted s (luld_auction_collar x)
unfolding decode_luld_auction_collar fields
decode_luld_auction_collar-Accepted s x =
    let d = s.bytes in
    (
      λ e. ground (
        arith,
        number-byte d 0,
        number-u16 d 1,
        number-u16 d 3,
        number-u48 d 5,
        number-u32 d 19,
        number-u32 d 23,
        number-u32 d 27,
        number-u32 d 31,
      ),
      λ (size, laid). ground (
        arith,
        number-byte d 0,
        number-u16 d 1,
        number-u16 d 3,
        number-u48 d 5,
        number-u32 d 19,
        number-u32 d 23,
        number-u32 d 27,
        number-u32 d 31,
      ),
    )
