-- ===== src/Mold/Frames.antt =====
-- What a packet of moldudp64/MoldUdp64Codec.cpp carries, and how it is built and read.
use low_latency_trading.Base.{
  ℕ, ◌+◌, ◌%◌, ◌^◌, ◌≤◌, ◌<◌, ◌≡◌, refl, ap, ◌∙◌, true, some, List, [], ◌∷◌, ◌++◌, inl, arith,
  length, length-append,
}
use low_latency_trading.Mold.Codec.{
  Bytes, Packet, Span, begin_packet, append_message, copy, write_u16, write_u64, read_u16, read_u64,
  header_size, max_datagram_size,
}
use low_latency_trading.Mold.Words.{
  read-write_u16, read-write_u64, write_u64-outside, read_u64-same, read_u16-same, write_u16-below,
  copy-below, copy-inside, copy-start,
}

-- From the offset `o` to the offset `e` there are the messages, each behind its length.
abbrev pub Framed : Bytes → ℕ → List Span → ℕ → Type 0
Framed d o [] e = o ≡ e
Framed d o (m ∷ ms) e =
    (read_u16 d o ≡ m.size)
    × ((i : ℕ) → i < m.size → d (o + 2 + i) ≡ m.bytes i)
    × Framed d (o + 2 + m.size) ms e

pub Framed-le : (d : Bytes) (o e : ℕ) (ms : List Span) → Framed d o ms e → o ≤ e
Framed-le d o e [] f = omega (arith, f)
Framed-le d o e (m ∷ ms) (a, b, f) = omega (arith, Framed-le d (o + 2 + m.size) e ms f)

-- Other bytes do not matter.
pub Framed-same :
    (d c : Bytes) (o e : ℕ) (ms : List Span)
    → ((i : ℕ) → o ≤ i → i < e → c i ≡ d i)
    → Framed d o ms e
    → Framed c o ms e
Framed-same d c o e [] h f = f
Framed-same d c o e (m ∷ ms) h (a, b, f) =
    let le = Framed-le d (o + 2 + m.size) e ms f in
    (
      read_u16-same c d o (λ i x y. h i x (omega (arith, y, le))) ∙ a,
      (λ i x. h (o + 2 + i) (omega arith) (omega (arith, x, le)) ∙ b i x),
      Framed-same d c (o + 2 + m.size) e ms (λ i x y. h i (omega (arith, x)) y) f,
    )

pub Framed-append :
    (d : Bytes) (o e : ℕ) (ms : List Span) (m : Span)
    → Framed d o ms e
    → read_u16 d e ≡ m.size
    → ((i : ℕ) → i < m.size → d (e + 2 + i) ≡ m.bytes i)
    → Framed d o (ms ++ m ∷ []) (e + 2 + m.size)
Framed-append d o e [] m f a b =
    (ap (read_u16 d) f ∙ a, (λ i x. ap (λ j. d (j + 2 + i)) f ∙ b i x), ap (λ j. j + 2 + m.size) f)
Framed-append d o e (x ∷ ms) m (p, q, f) a b = (p, q, Framed-append d (o + 2 + x.size) e ms m f a b)

-- The packet carries the session, the first sequence number and the messages.
pub record Carries (p : Packet) (session : Bytes) (first : ℕ) (ms : List Span) : Type 0 where
  pub named : (i : ℕ) → i < 10 → p.output i ≡ session i
  pub sequence : read_u64 p.output 10 ≡ first
  pub framed : Framed p.output header_size ms p.encoded_size
  pub count : p.message_count ≡ length ms
  pub few : length ms ≤ p.encoded_size

pub begin-Carries :
    (session : Bytes) (first : ℕ)
    → first < 2 ^ 64
    → Carries (begin_packet session first) session first []
unfolding begin_packet
begin-Carries session first h =
    let d = copy (λ i. 0) 0 session 10 in
    let e = write_u64 d 10 first in
    record {
      named = λ i x.
          write_u16-below e 18 0 i (omega arith)
          ∙ write_u64-outside d 10 first i (inl x)
          ∙ copy-start (λ i. 0) session 10 i x;
      sequence =
          read_u64-same (write_u16 e 18 0) e 10
            (λ i x y. write_u16-below e 18 0 i (omega (arith, y)))
          ∙ read-write_u64 d 10 first h;
      framed = refl;
      count = refl;
      few = omega arith;
    }

-- A message that is not empty and for which there is room is appended.
pub append-Carries :
    (p : Packet) (session : Bytes) (first : ℕ) (ms : List Span) (m : Span)
    → Carries p session first ms
    → 0 < m.size
    → p.encoded_size + 2 + m.size ≤ max_datagram_size
    → (q : Packet) × (append_message p (some m) ≡ (true, q))
      × (q.encoded_size ≡ p.encoded_size + 2 + m.size)
      × Carries q session first (ms ++ m ∷ [])
unfolding append_message
append-Carries p session first ms m c some' room =
    let o = p.encoded_size in
    let least = Framed-le p.output 20 o ms c.framed in
    let d = write_u16 p.output o (m.size % 65536) in
    let e = copy d (o + 2) m.bytes m.size in
    let q : Packet = record {
      output = e;
      encoded_size = o + 2 + m.size;
      message_count = (p.message_count + 1) % 65536;
    } in
    let kept : (i : ℕ) → i < o → e i ≡ p.output i = λ i x.
      copy-below d m.bytes (o + 2) m.size i (omega (arith, x))
      ∙ write_u16-below p.output o (m.size % 65536) i x in
    (
      q,
      ground (arith, c.count, c.few),
      refl,
      record {
        named = λ i x. kept i (omega (arith, least, x)) ∙ c.named i x;
        sequence =
            read_u64-same e p.output 10 (λ i x y. kept i (omega (arith, least, y))) ∙ c.sequence;
        framed =
            Framed-append e 20 o ms m (Framed-same p.output e 20 o ms (λ i x y. kept i y) c.framed)
              (read_u16-same e d o (λ i x y. copy-below d m.bytes (o + 2) m.size i y)
                ∙ read-write_u16 p.output o (m.size % 65536) (omega arith)
                ∙ omega arith)
              (λ i x. copy-inside d m.bytes (o + 2) m.size i x);
        count = omega (arith, c.count, c.few, length-append ms (m ∷ []));
        few = omega (arith, c.few, length-append ms (m ∷ []));
      },
    )
