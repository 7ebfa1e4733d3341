-- ===== src/Itch/UdpCodec.antt =====
-- common/market_data/itch/ItchUdpCodec.cpp: packets with one message each as datagrams.
use low_latency_trading.Base.{
  ℕ, zero, suc, ◌+◌, ◌*◌, ◌/◌, ◌^◌, ◌≤◌, ◌<◌, ◌≡◌, ◌↔◌, ap, ◌∙◌, Bool, true, false, Option, none,
  some, ltb, ◌==◌, if◌then◌else◌, u8, u64, update, arith,
}
use low_latency_trading.Mold.Codec
use low_latency_trading.Mold.Codec.{Bytes, Span, copy}
use low_latency_trading.Mold.Words.{
  read-write_u16, read-write_u64, read_u64-same, read_u16-same, write_u16-below, copy-below,
  copy-inside, copy-start,
}
use low_latency_trading.Feed.Types.{max_payload_size}
use low_latency_trading.Feed.Packets.{ItchUdpPacket}

abbrev udp_header_size : ℕ
udp_header_size = 10

unfoldable write_u16 : Bytes → ℕ → ℕ → Bytes
write_u16 d o v = update (update d o (u8 (v / 2 ^ 8))) (o + 1) (u8 v)

-- The loop of `writeU64`, for the last `n` bytes.
unfoldable write_bytes : ℕ → Bytes → ℕ → ℕ → Bytes
write_bytes zero d o v = d
write_bytes (suc n) d o v = write_bytes n (update d o (u8 (v / 2 ^ (n * 8)))) (o + 1) v

unfoldable write_u64 : Bytes → ℕ → ℕ → Bytes
unfolding write_bytes
write_u64 d o v = write_bytes 8 d o v

unfoldable pub read_u16 : Bytes → ℕ → ℕ
read_u16 d o = d o * 2 ^ 8 + d (o + 1)

-- The loop of `readU64`, with the value so far. The shifted value and the byte have no bit in
-- common, so `|` is a sum.
unfoldable read_bytes : ℕ → Bytes → ℕ → ℕ → ℕ
read_bytes zero d o v = v
read_bytes (suc n) d o v = read_bytes n d (o + 1) (u64 (v * 2 ^ 8) + d o)

unfoldable read_u64 : Bytes → ℕ → ℕ
unfolding read_bytes
read_u64 d o = read_bytes 8 d o 0

-- The result, the output and `outputSize`.
unfoldable pub encode : ItchUdpPacket → Bytes → Bool × Bytes × ℕ
unfolding write_u16 write_u64
encode x d =
    let n = x.payload.size in
    if ltb max_payload_size n then (false, d, 0) else (
      true,
      copy (write_u16 (write_u64 d 0 x.sequence) 8 n) udp_header_size x.payload.bytes n,
      udp_header_size + n,
    )

-- The packet after the call, if the result is `true`.
unfoldable pub decode : Option Span → ItchUdpPacket → Option ItchUdpPacket
unfolding read_u16 read_u64
decode none y = none
decode (some s) y =
    let n = read_u16 s.bytes 8 in
    if ltb s.size udp_header_size
    then none
    else if ltb max_payload_size n
    then none
    else if s.size == udp_header_size + n
    then some (record {
      sequence = read_u64 s.bytes 0;
      payload = record {
        bytes = copy y.payload.bytes 0 (λ i. s.bytes (udp_header_size + i)) n;
        size = n;
      };
    })
    else none

write_u64-same : (d : Bytes) (v : ℕ) → write_u64 d 0 v ≡ Codec.write_u64 d 0 v
unfolding write_u64 Codec.write_u64
write_u64-same d v =
    let last : v / 1 ≡ v = omega arith in
    ap
      (λ t.
        update
          (update
            (update
              (update
                (update
                  (update (update (update d 0 (u8 (v / 2 ^ 56))) 1 (u8 (v / 2 ^ 48))) 2
                    (u8 (v / 2 ^ 40)))
                  3 (u8 (v / 2 ^ 32)))
                4 (u8 (v / 2 ^ 24)))
              5 (u8 (v / 2 ^ 16)))
            6 (u8 (v / 2 ^ 8)))
          7 (u8 t))
      last

write_u64_small : (d : Bytes) (v i : ℕ) → i < 8 → Codec.write_u64 d 0 v i < 256
unfolding Codec.write_u64
write_u64_small d v i h = ground (arith, h)

read_u64-same_sum : (d : Bytes) → ((i : ℕ) → i < 8 → d i < 256) → read_u64 d 0 ≡ Codec.read_u64 d 0
unfolding read_u64 Codec.read_u64
read_u64-same_sum d h = omega (
  arith,
  h 0 (omega arith),
  h 1 (omega arith),
  h 2 (omega arith),
  h 3 (omega arith),
  h 4 (omega arith),
  h 5 (omega arith),
  h 6 (omega arith),
  h 7 (omega arith),
)

-- The datagram of an encoded packet.
abbrev pub datagram : ItchUdpPacket → Bytes → Span
datagram x d = record { bytes = (encode x d).1; size = (encode x d).2 }

-- For a packet with a number below 2 ^ 64 and a payload of at most 2048 bytes, `encode` succeeds,
-- and `decode` of the datagram, into any packet, yields a packet with the same number, the same
-- payload size and the same bytes of the payload.
pub decode-encode :
    (x y : ItchUdpPacket) (d : Bytes)
    → x.sequence < 2 ^ 64
    → x.payload.size ≤ max_payload_size
    → ((encode x d).0 ≡ true)
      × ((z : ItchUdpPacket) × (decode (some (datagram x d)) y ≡ some z)
          × (z.sequence ≡ x.sequence)
          × (z.payload.size ≡ x.payload.size)
          × ((i : ℕ) → i < x.payload.size → z.payload.bytes i ≡ x.payload.bytes i))
unfolding encode decode read_u16 Codec.read_u16 write_u16 Codec.write_u16
decode-encode x y d small fits =
    let n = x.payload.size in
    let w = write_u16 (write_u64 d 0 x.sequence) 8 n in
    let out = copy w 10 x.payload.bytes n in
    let coded : encode x d ≡ (true, out, 10 + n) = ground (arith, fits) in
    let word : Bytes = Codec.write_u64 d 0 x.sequence in
    let head : (i : ℕ) → i < 8 → out i ≡ word i = λ i h.
      copy-below w x.payload.bytes 10 n i (omega (arith, h))
      ∙ write_u16-below (write_u64 d 0 x.sequence) 8 n i h
      ∙ ap (λ t. t i) (write_u64-same d x.sequence) in
    let sequence : read_u64 out 0 ≡ x.sequence =
      read_u64-same_sum out (λ i h. omega (arith, head i h, write_u64_small d x.sequence i h))
      ∙ read_u64-same out word 0 (λ i le h. head i h)
      ∙ read-write_u64 d 0 x.sequence small in
    let c = read_u16 out 8 in
    let count : c ≡ n =
      read_u16-same out w 8 (λ i le h. copy-below w x.payload.bytes 10 n i (omega (arith, h)))
      ∙ read-write_u16 (write_u64 d 0 x.sequence) 8 n (omega (arith, fits)) in
    let z : ItchUdpPacket = record {
      sequence = read_u64 out 0;
      payload = record { bytes = copy y.payload.bytes 0 (λ i. out (10 + i)) c; size = c };
    } in
    let plain : Span = record { bytes = out; size = 10 + n } in
    let read : decode (some plain) y ≡ some z = ground (arith, fits, count) in
    (
      ap (λ t. t.0) coded,
      (
        z,
        ap (λ t. decode (some (record { bytes = t.1; size = t.2 })) y) coded ∙ read,
        sequence,
        count,
        λ i h.
            copy-start y.payload.bytes (λ j. out (10 + j)) c i (omega (arith, h, count))
            ∙ copy-inside w x.payload.bytes 10 n i h,
      ),
    )

-- `decode` of a span fails exactly when it is shorter than a header, says a payload of more than
-- 2048 bytes, or does not have exactly the size of the header and that payload.
pub decode-none_iff :
    (s : Span) (y : ItchUdpPacket)
    → (decode (some s) y ≡ none) ↔ (
        ¬ (
          (udp_header_size ≤ s.size)
          × (read_u16 s.bytes 8 ≤ max_payload_size)
          × (s.size ≡ udp_header_size + read_u16 s.bytes 8)))
unfolding decode
decode-none_iff s y = (λ h g. ground (arith, h, g), λ h. ground (arith, h))
