-- ===== src/Tests/Packets.antt =====
-- Packets of moldudp64 at small inputs.
use low_latency_trading.Base.{
  ℕ, ◌+◌, ◌≤◌, ◌<◌, ◌≡◌, refl, some, List, [], ◌∷◌, arith, ◌==◌, if◌then◌else◌, length,
}
use low_latency_trading.Mold.Codec.{
  Bytes, Packet, Span, Header, MessageView, begin_packet, finalize_packet, decode_header,
  next_message, read_u16, header_size,
}
use low_latency_trading.Mold.Frames.{Framed}
use low_latency_trading.Mold.Packets.{
  append_all, read_all, views, total_size, packet_round_trip, next_message-within,
}

abbrev session : Bytes
session i = 48 + i

abbrev messages : List Span
messages = record { bytes = λ i. 7 + i; size = 3 } ∷ record { bytes = λ i. 200; size = 300 } ∷ []

messages_fit : header_size + total_size messages ≤ 1400
unfolding total_size
messages_fit = omega arith

packet_round_trip_example :
    (p : Packet) × (append_all (begin_packet session 41) messages ≡ some p)
    × (p.encoded_size ≡ header_size + total_size messages)
    × ((h : Header) × (decode_header
            (some (record { bytes = finalize_packet p; size = p.encoded_size }))
          ≡ some h)
        × ((i : ℕ) → i < 10 → h.session i ≡ session i)
        × (h.sequence_number ≡ 41)
        × (h.message_count ≡ length messages))
    × (read_all
          (record { bytes = finalize_packet p; size = p.encoded_size })
          (length messages)
          header_size
          41
        ≡ some (views header_size 41 messages, p.encoded_size))
    × Framed (finalize_packet p) header_size messages p.encoded_size
packet_round_trip_example =
    packet_round_trip session 41 messages (omega arith) (omega arith, (omega arith, tt))
      messages_fit

-- A frame of 2 bytes at offset 1.
abbrev frame : Span
frame = record { bytes = λ i. if i == 2 then 2 else if i == 1 then 0 else 9; size = 5 }

abbrev frame_view : MessageView
frame_view = record { start = 3; size = 2; sequence_number = 8 }

frame_is_read : next_message (some frame) 1 8 ≡ (some frame_view, 5)
unfolding next_message read_u16
frame_is_read = refl

next_message-within_example :
    (frame_view.start ≡ 1 + 2)
    × (5 ≡ frame_view.start + frame_view.size)
    × (5 ≤ frame.size)
    × (frame_view.size ≡ read_u16 frame.bytes 1)
    × (frame_view.sequence_number ≡ 8)
next_message-within_example = next_message-within frame 1 8 5 frame_view frame_is_read
