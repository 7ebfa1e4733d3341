-- ===== src/Feed/Framing.antt =====
-- What pass 1 of `processDatagram` in feed_handler/MoldItchFeedHandler.cpp accepts.
use mathlib.Core.Path.{subst}
use low_latency_trading.Base.{
  ◌≢◌, ◌||◌, Bool-cases, ℕ, zero, suc, ◌+◌, ◌≤◌, ◌≡◌, refl, ap, some, List, [], ◌∷◌, arith, length,
  u64, false, Option-cases, inl, inr, ltb, ◌==◌,
}
use low_latency_trading.Mold.Codec.{
  Span, next_message, read_u16, read_u64, decode_header, header_size, message_count_offset,
}
use low_latency_trading.Itch.Messages.{ItchMessage}
use low_latency_trading.Feed.Types.{SequenceCheckResult, SequencedItchMessage}
use low_latency_trading.Mold.Frames.{Framed, Framed-le}
use low_latency_trading.Feed.MoldItch.{Feed, process_datagram, validated}

-- There are `n` messages, each behind its length, from the offset `o` to the offset `e`.
abbrev pub Frames : Span → ℕ → ℕ → ℕ → Type 0
Frames s n o e = (ms : List Span) × (length ms ≡ n) × Framed s.bytes o ms e × (e ≤ s.size)

pub validated-Frames :
    (s : Span) (n o q e : ℕ) → o ≤ s.size → validated s n o q ≡ some e → Frames s n o e
unfolding validated next_message
validated-Frames s zero o q e below h = ([], refl, ground (arith, h), ground (arith, h))
validated-Frames s (suc n) o q e below h =
    let size = read_u16 s.bytes o in
    let fits : o + 2 + size ≤ s.size = ground (arith, h) in
    let (ms, len, framed, within) =
      validated-Frames s n (o + 2 + size) (u64 (q + 1)) e fits (ground (arith, h)) in
    (
      record { bytes = λ i. s.bytes (o + 2 + i); size = size } ∷ ms,
      omega (arith, len),
      (refl, (λ i k. refl), framed),
      within,
    )

pub Frames-validated :
    (s : Span) (o q e : ℕ) (ms : List Span)
    → Framed s.bytes o ms e
    → e ≤ s.size
    → validated s (length ms) o q ≡ some e
unfolding validated next_message
Frames-validated s o q e [] f h = ap some f
Frames-validated s o q e (m ∷ ms) (a, b, f) h = ground (
  arith,
  a,
  Framed-le s.bytes (o + 2 + m.size) e ms f,
  Frames-validated s (o + 2 + m.size) (u64 (q + 1)) e ms f h,
)

-- The datagram is long enough for a header that counts some message, and the messages fill it.
abbrev pub WellFramed : Span → Type 0
WellFramed s =
    (header_size ≤ s.size)
    × (read_u16 s.bytes message_count_offset ≢ 0)
    × Frames s (read_u16 s.bytes message_count_offset) header_size s.size

module _ {M : Type 0} (deliver : M → ItchMessage → M)
    (recover : ℕ → ℕ → SequenceCheckResult × List SequencedItchMessage) where
  -- A datagram that is shorter than a header, counts no message, or is not filled exactly by the
  -- messages that it counts, is refused without any change.
  pub process_datagram-malformed :
      (f : Feed M) (s : Span) → ¬ WellFramed s → process_datagram deliver recover f s ≡ (false, f)
  unfolding process_datagram decode_header
  process_datagram-malformed f s h =
      let n = read_u16 s.bytes 18 in
      let q = read_u64 s.bytes 10 in
      elim (Bool-cases (ltb s.size 20 || n == 0)) [
        | inl short ↦ ground (arith, short)
        | inr long ↦ elim (Option-cases (validated s n 20 q)) [
          | inl broken ↦ ground (arith, long, broken)
          | inr (e, framed) ↦ elim (Bool-cases (e == s.size)) [
            | inl exact ↦
                let full : e ≡ s.size = ground (arith, exact) in
                let most : 20 ≤ s.size = ground (arith, long) in
                let some' : n ≢ 0 = ground (arith, long) in
                absurd (
                  h (
                    most,
                    some',
                    subst (Frames s n 20) full (validated-Frames s n 20 q e most framed),
                  ))
            | inr trailing ↦ ground (arith, long, framed, trailing)
          ]
        ]
      ]
