-- ===== src/Mold/Packets.antt =====
-- Whole packets of moldudp64/MoldUdp64Codec.cpp, built and read.
use mathlib.Core.Path.{subst}
use low_latency_trading.Base.{
  ℕ, zero, suc, ◌+◌, ◌^◌, ◌≤◌, ◌<◌, ◌≡◌, refl, ap, ◌∙◌, Bool, true, false, Option, none, some, List,
  [], ◌∷◌, ◌++◌, arith, length, All, u64,
}
use low_latency_trading.Mold.Codec.{
  Bytes, Packet, Span, Header, MessageView, begin_packet, append_message, finalize_packet,
  decode_header, next_message, copy, write_u16, read_u16, read_u64, header_size, max_datagram_size,
}
use low_latency_trading.Mold.Words.{
  read-write_u16, read_u64-same, write_u16-above, write_u16-below, copy-start,
}
use low_latency_trading.Mold.Frames.{
  Framed, Framed-le, Framed-same, Carries, begin-Carries, append-Carries,
}

-- `appendMessage` for one message after another, while it succeeds.
append_next : Bool × Packet → (Packet → Option Packet) → Option Packet
append_next (true, p) k = k p
append_next (false, p) k = none

unfoldable pub append_all : Packet → List Span → Option Packet
unfolding append_next
append_all p [] = some p
append_all p (m ∷ ms) = append_next (append_message p (some m)) (λ q. append_all q ms)

-- `nextMessage`, `n` times, with sequence numbers one after another: the views and the offset.
read_next :
    Option MessageView × ℕ → (ℕ → Option (List MessageView × ℕ)) → Option (List MessageView × ℕ)
read_next (none, o) k = none
read_next (some v, o) k = elim (k o) [ none ↦ none | some (vs, e) ↦ some (v ∷ vs, e) ]

unfoldable pub read_all : Span → ℕ → ℕ → ℕ → Option (List MessageView × ℕ)
unfolding read_next
read_all s zero o q = some ([], o)
read_all s (suc n) o q = read_next (next_message (some s) o q) (λ e. read_all s n e (u64 (q + 1)))

-- Where the messages are, and their sequence numbers.
unfoldable pub views : ℕ → ℕ → List Span → List MessageView
views o q [] = []
views o q (m ∷ ms) =
    record { start = o + 2; size = m.size; sequence_number = q }
    ∷ views (o + 2 + m.size) (u64 (q + 1)) ms

unfoldable pub total_size : List Span → ℕ
total_size [] = 0
total_size (m ∷ ms) = 2 + m.size + total_size ms

append-nil : {A : Type 0} (xs ys : List A) (x : A) → (xs ++ x ∷ []) ++ ys ≡ xs ++ x ∷ ys
append-nil [] ys x = refl
append-nil (z ∷ xs) ys x = ap (λ t. z ∷ t) (append-nil xs ys x)

append-empty : {A : Type 0} (xs : List A) → xs ≡ xs ++ []
append-empty [] = refl
append-empty (x ∷ xs) = ap (λ t. x ∷ t) (append-empty xs)

append_all-Carries :
    (p : Packet) (session : Bytes) (first : ℕ) (ms xs : List Span)
    → Carries p session first ms
    → All (λ m. 0 < m.size) xs
    → p.encoded_size + total_size xs ≤ max_datagram_size
    → (q : Packet) × (append_all p xs ≡ some q)
      × (q.encoded_size ≡ p.encoded_size + total_size xs)
      × Carries q session first (ms ++ xs)
unfolding append_all total_size
append_all-Carries p session first ms [] c h room =
    (p, refl, omega arith, subst (Carries p session first) (append-empty ms) c)
append_all-Carries p session first ms (x ∷ xs) c (some', h) room =
    let (q, done, size, d) = append-Carries p session first ms x c some' (omega (arith, room)) in
    let (r, rest, size', e) =
      append_all-Carries q session first (ms ++ x ∷ []) xs d h (omega (arith, room, size)) in
    (
      r,
      ground (arith, done, rest),
      omega (arith, size, size'),
      subst (Carries r session first) (append-nil ms xs x) e,
    )

read_all-views :
    (d : Bytes) (s o e q : ℕ) (ms : List Span)
    → Framed d o ms e
    → e ≤ s
    → read_all (record { bytes = d; size = s }) (length ms) o q ≡ some (views o q ms, e)
unfolding read_all views next_message
read_all-views d s o e q [] f h = ap (λ x. some ([], x)) f
read_all-views d s o e q (m ∷ ms) (a, b, f) h = ground (
  arith,
  a,
  Framed-le d (o + 2 + m.size) e ms f,
  read_all-views d s (o + 2 + m.size) e (u64 (q + 1)) ms f h,
)

-- What the finished packet holds.
finalize-Carries :
    (p : Packet) (session : Bytes) (first : ℕ) (ms : List Span)
    → Carries p session first ms
    → p.encoded_size ≤ max_datagram_size
    → let d = finalize_packet p in
      ((i : ℕ) → i < 10 → d i ≡ session i)
      × (read_u64 d 10 ≡ first)
      × (read_u16 d 18 ≡ length ms)
      × Framed d 20 ms p.encoded_size
unfolding finalize_packet
finalize-Carries p session first ms c small =
    let d = write_u16 p.output 18 p.message_count in
    (
      (λ i x. write_u16-below p.output 18 p.message_count i (omega (arith, x)) ∙ c.named i x),
      read_u64-same d p.output 10
            (λ i x y. write_u16-below p.output 18 p.message_count i (omega (arith, y)))
          ∙ c.sequence,
      read-write_u16 p.output 18 p.message_count (omega (arith, c.count, c.few, small)) ∙ c.count,
      Framed-same p.output d 20 p.encoded_size ms
          (λ i x y. write_u16-above p.output 18 p.message_count i x) c.framed,
    )

-- For a first sequence number below 2 ^ 64 and messages that are not empty and fit the datagram
-- with their lengths and the header, every `appendMessage` succeeds, the header of the finished
-- packet decodes to the session, the first sequence number and the number of messages, and reading
-- that many messages yields views of exactly the messages, in order and with successive sequence
-- numbers, up to the end of the packet.
pub packet_round_trip :
    (session : Bytes) (first : ℕ) (ms : List Span)
    → first < 2 ^ 64
    → All (λ m. 0 < m.size) ms
    → header_size + total_size ms ≤ max_datagram_size
    → (p : Packet) × (append_all (begin_packet session first) ms ≡ some p)
      × (p.encoded_size ≡ header_size + total_size ms)
      × ((h : Header) × (decode_header
              (some (record { bytes = finalize_packet p; size = p.encoded_size }))
            ≡ some h)
          × ((i : ℕ) → i < 10 → h.session i ≡ session i)
          × (h.sequence_number ≡ first)
          × (h.message_count ≡ length ms))
      × (read_all
            (record { bytes = finalize_packet p; size = p.encoded_size })
            (length ms)
            header_size
            first
          ≡ some (views header_size first ms, p.encoded_size))
      × Framed (finalize_packet p) header_size ms p.encoded_size
unfolding decode_header begin_packet
packet_round_trip session first ms h positive room =
    let (p, done, size, c) =
      append_all-Carries (begin_packet session first) session first [] ms
        (begin-Carries session first h) positive room in
    let (named, sequence, count, framed) =
      finalize-Carries p session first ms c (omega (arith, size, room)) in
    let d = finalize_packet p in
    (
      p,
      done,
      size,
      (
        record {
          session = copy (λ i. 0) 0 d 10;
          sequence_number = read_u64 d 10;
          message_count = read_u16 d 18;
        },
        ground (arith, size),
        (λ i x. copy-start (λ i. 0) d 10 i x ∙ named i x),
        sequence,
        count,
      ),
      read_all-views d p.encoded_size header_size p.encoded_size first ms framed (omega arith),
      framed,
    )

-- When `nextMessage` succeeds, on any bytes, the view starts after the two bytes of the length,
-- has the length that they say, lies within the datagram and ends at the new offset, and its
-- sequence number is the one given.
pub next_message-within :
    (s : Span) (o q e : ℕ) (v : MessageView)
    → next_message (some s) o q ≡ (some v, e)
    → (v.start ≡ o + 2)
      × (e ≡ v.start + v.size)
      × (e ≤ s.size)
      × (v.size ≡ read_u16 s.bytes o)
      × (v.sequence_number ≡ q)
unfolding next_message
next_message-within s o q e v h = ground arith
