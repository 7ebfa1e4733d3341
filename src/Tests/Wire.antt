-- ===== src/Tests/Wire.antt =====
-- ITCH messages at small inputs.
use low_latency_trading.Base.{
  ◌+◌, ◌≤◌, none, true, ℕ, ◌<◌, ◌≡◌, ◌↔◌, refl, some, arith, ◌==◌, if◌then◌else◌,
}
use low_latency_trading.Mold.Codec.{Bytes, Span}
use low_latency_trading.Itch.Messages.{ItchMessage, system_event}
use low_latency_trading.Itch.Decoder.{decode_system_event, read_u16, read_u48}
use low_latency_trading.Itch.Dispatcher.{dispatch}
use low_latency_trading.Itch.UdpCodec
use low_latency_trading.Itch.UdpCodec.{decode-none_iff, encode, decode, datagram, decode-encode}
use low_latency_trading.Feed.Packets.{ItchUdpPacket}
use low_latency_trading.Itch.Wire.{fields, Fits, Accepted}
use low_latency_trading.Itch.Wire.Dispatch.{dispatch-Accepted}
use low_latency_trading.Itch.Wire.Encode.{encoded, dispatch-encoded}

-- The start of the messages of a day, as a message and as 12 bytes.
abbrev pub opening : ItchMessage
opening =
    system_event
      (record { stock_locate = 0; tracking_number = 0; timestamp = 0; event_code = b'O' })

abbrev pub opening_bytes : Bytes
opening_bytes i = if i == 0 then b'S' else if i == 11 then b'O' else 0

abbrev pub opening_span : Span
opening_span = record { bytes = opening_bytes; size = 12 }

pub opening_is_read : dispatch (some opening_span) ≡ some opening
unfolding dispatch decode_system_event read_u16 read_u48
opening_is_read = refl

dispatch-Accepted_example :
    (dispatch (some opening_span) ≡ some opening) ↔ Accepted opening_span opening
dispatch-Accepted_example = dispatch-Accepted opening_span opening

opening-Fits : Fits (fields opening)
unfolding fields
opening-Fits = (omega arith, (omega arith, (omega arith, (omega arith, (omega arith, tt)))))

dispatch-encoded_example : dispatch (some (encoded opening)) ≡ some opening
dispatch-encoded_example = dispatch-encoded opening opening-Fits

abbrev packet : ItchUdpPacket
packet = record { sequence = 5; payload = opening_span }

abbrev blank_packet : ItchUdpPacket
blank_packet = record { sequence = 0; payload = record { bytes = λ i. 0; size = 0 } }

decode-encode_example :
    ((encode packet (λ i. 0)).0 ≡ true)
    × ((z : ItchUdpPacket) × (decode (some (datagram packet (λ i. 0))) blank_packet ≡ some z)
        × (z.sequence ≡ packet.sequence)
        × (z.payload.size ≡ packet.payload.size)
        × ((i : ℕ) → i < packet.payload.size → z.payload.bytes i ≡ packet.payload.bytes i))
decode-encode_example = decode-encode packet blank_packet (λ i. 0) (omega arith) (omega arith)

-- A header that says a payload of no bytes, with a byte more.
abbrev trailing : Span
trailing = record { bytes = λ i. 0; size = 11 }

decode-none_iff_example : (decode (some trailing) blank_packet ≡ none) ↔ (
    ¬ (
      (10 ≤ 11)
      × (UdpCodec.read_u16 trailing.bytes 8 ≤ 2048)
      × (11 ≡ 10 + UdpCodec.read_u16 trailing.bytes 8)))
decode-none_iff_example = decode-none_iff trailing blank_packet
