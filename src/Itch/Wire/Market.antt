-- ===== src/Itch/Wire/Market.antt =====
-- The decoders of itch/ItchDecoder.cpp accept exactly the wire format: the messages about
-- the whole market.
use low_latency_trading.Base.{◌≡◌, ◌↔◌, some, arith}
use low_latency_trading.Mold.Codec.{Span}
use low_latency_trading.Itch.Decoder.{
  decode_system_event, decode_mwcb_decline_level, decode_mwcb_status,
}
use low_latency_trading.Itch.Messages.{
  SystemEventMessage, MwcbDeclineLevelMessage, MwcbStatusMessage, system_event, mwcb_decline_level,
  mwcb_status,
}
use low_latency_trading.Itch.Wire.{Accepted, fields}
use low_latency_trading.Itch.Wire.Numbers.{number-byte, number-u16, number-u48, number-u64}

pub decode_system_event-Accepted :
    (s : Span) (x : SystemEventMessage)
    → (decode_system_event (some s) ≡ some x) ↔ Accepted s (system_event x)
unfolding decode_system_event fields
decode_system_event-Accepted s x =
    let d = s.bytes in
    (
      λ e. ground (
        arith,
        number-byte d 0,
        number-u16 d 1,
        number-u16 d 3,
        number-u48 d 5,
        number-byte d 11,
      ),
      λ (size, laid). ground (
        arith,
        number-byte d 0,
        number-u16 d 1,
        number-u16 d 3,
        number-u48 d 5,
        number-byte d 11,
      ),
    )

pub decode_mwcb_decline_level-Accepted :
    (s : Span) (x : MwcbDeclineLevelMessage)
    → (decode_mwcb_decline_level (some s) ≡ some x) ↔ Accepted s (mwcb_decline_level x)
unfolding decode_mwcb_decline_level fields
decode_mwcb_decline_level-Accepted s x =
    let d = s.bytes in
    (
      λ e. ground (
        arith,
        number-byte d 0,
        number-u16 d 1,
        number-u16 d 3,
        number-u48 d 5,
        number-u64 d 11,
        number-u64 d 19,
        number-u64 d 27,
      ),
      λ (size, laid). ground (
        arith,
        number-byte d 0,
        number-u16 d 1,
        number-u16 d 3,
        number-u48 d 5,
        number-u64 d 11,
        number-u64 d 19,
        number-u64 d 27,
      ),
    )

pub decode_mwcb_status-Accepted :
    (s : Span) (x : MwcbStatusMessage)
    → (decode_mwcb_status (some s) ≡ some x) ↔ Accepted s (mwcb_status x)
unfolding decode_mwcb_status fields
decode_mwcb_status-Accepted s x =
    let d = s.bytes in
    (
      λ e. ground (
        arith,
        number-byte d 0,
        number-u16 d 1,
        number-u16 d 3,
        number-u48 d 5,
        number-byte d 11,
      ),
      λ (size, laid). ground (
        arith,
        number-byte d 0,
        number-u16 d 1,
        number-u16 d 3,
        number-u48 d 5,
        number-byte d 11,
      ),
    )
