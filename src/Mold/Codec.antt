-- ===== src/Mold/Codec.antt =====
-- common/market_data/moldudp64/MoldUdp64.h and MoldUdp64Codec.cpp. Memory is a function from
-- offsets to bytes, a pointer into it is an offset, and `none` is the null pointer.
use low_latency_trading.Base.{
  ℕ, ◌+◌, ◌-◌, ◌*◌, ◌/◌, ◌^◌, Bool, true, false, ◌||◌, Option, none, some, ltb, ◌==◌, if◌then◌else◌,
  u8, u16, update,
}

abbrev pub Bytes : Type 0
Bytes = ℕ → ℕ

abbrev pub session_size : ℕ
session_size = 10

abbrev pub header_size : ℕ
header_size = 20

abbrev pub max_datagram_size : ℕ
max_datagram_size = 1400

abbrev pub sequence_offset : ℕ
sequence_offset = 10

abbrev pub message_count_offset : ℕ
message_count_offset = 18

abbrev pub message_length_size : ℕ
message_length_size = 2

pub record Header : Type 0 where
  pub session : Bytes
  pub sequence_number : ℕ
  pub message_count : ℕ

-- `start` is the offset of the message in the datagram.
pub record MessageView : Type 0 where
  pub start : ℕ
  pub size : ℕ
  pub sequence_number : ℕ

-- The bytes at a pointer, and how many there are.
pub record Span : Type 0 where
  pub bytes : Bytes
  pub size : ℕ

-- `std::memcpy` of `n` bytes to the offset `o`.
unfoldable pub copy : Bytes → ℕ → Bytes → ℕ → Bytes
copy d o s n i = if ltb i o then d i else if ltb i (o + n) then s (i - o) else d i

unfoldable pub write_u16 : Bytes → ℕ → ℕ → Bytes
write_u16 d o v = update (update d o (u8 (v / 2 ^ 8))) (o + 1) (u8 v)

unfoldable pub write_u64 : Bytes → ℕ → ℕ → Bytes
write_u64 d o v =
    update
      (update
        (update
          (update
            (update
              (update (update (update d o (u8 (v / 2 ^ 56))) (o + 1) (u8 (v / 2 ^ 48))) (o + 2)
                (u8 (v / 2 ^ 40)))
              (o + 3) (u8 (v / 2 ^ 32)))
            (o + 4) (u8 (v / 2 ^ 24)))
          (o + 5) (u8 (v / 2 ^ 16)))
        (o + 6) (u8 (v / 2 ^ 8)))
      (o + 7) (u8 v)

-- The shifted bytes have no bit in common, so `|` is a sum.
unfoldable pub read_u16 : Bytes → ℕ → ℕ
read_u16 d o = d o * 2 ^ 8 + d (o + 1)

unfoldable pub read_u64 : Bytes → ℕ → ℕ
read_u64 d o =
    d o * 2 ^ 56
    + d (o + 1) * 2 ^ 48
    + d (o + 2) * 2 ^ 40
    + d (o + 3) * 2 ^ 32
    + d (o + 4) * 2 ^ 24
    + d (o + 5) * 2 ^ 16
    + d (o + 6) * 2 ^ 8
    + d (o + 7)

-- A packet under construction: the output, `encodedSize` and `messageCount`.
pub record Packet : Type 0 where
  pub output : Bytes
  pub encoded_size : ℕ
  pub message_count : ℕ

-- `beginPacket`; the caller starts with no message.
unfoldable pub begin_packet : Bytes → ℕ → Packet
begin_packet session first = record {
  output =
      write_u16 (write_u64 (copy (λ i. 0) 0 session session_size) sequence_offset first)
        message_count_offset 0;
  encoded_size = header_size;
  message_count = 0;
}

-- `appendMessage`.
unfoldable pub append_message : Packet → Option Span → Bool × Packet
append_message p none = (false, p)
append_message p (some s) =
    if s.size == 0
    then (false, p)
    else if ltb 65535 s.size
    then (false, p)
    else if p.message_count == 65535
    then (false, p)
    else if ltb max_datagram_size p.encoded_size
        || ltb (max_datagram_size - p.encoded_size) (message_length_size + s.size)
    then (false, p)
    else (
      true,
      record {
        output =
            copy (write_u16 p.output p.encoded_size (u16 s.size))
              (p.encoded_size + message_length_size) s.bytes s.size;
        encoded_size = p.encoded_size + message_length_size + s.size;
        message_count = u16 (p.message_count + 1);
      },
    )

-- `finalizePacket`.
unfoldable pub finalize_packet : Packet → Bytes
finalize_packet p = write_u16 p.output message_count_offset p.message_count

-- `decodeHeader`; `none` is the result `false`.
unfoldable pub decode_header : Option Span → Option Header
decode_header none = none
decode_header (some s) =
    if ltb s.size header_size
    then none
    else some (record {
      session = copy (λ i. 0) 0 s.bytes session_size;
      sequence_number = read_u64 s.bytes sequence_offset;
      message_count = read_u16 s.bytes message_count_offset;
    })

-- `nextMessage` returns the result, the new offset, and the view if the result is `true`. The
-- offset has moved past the length when the message is cut short.
unfoldable pub next_message : Option Span → ℕ → ℕ → Option MessageView × ℕ
next_message none offset sequence = (none, offset)
next_message (some s) offset sequence =
    if ltb s.size offset
    then (none, offset)
    else if ltb (s.size - offset) message_length_size
    then (none, offset)
    else let size = read_u16 s.bytes offset in
      let start = offset + message_length_size in
      if ltb (s.size - start) size
      then (none, start)
      else (some (record { start = start; size = size; sequence_number = sequence }), start + size)
