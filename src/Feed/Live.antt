-- ===== src/Feed/Live.antt =====
-- Datagrams that feed_handler/MoldItchFeedHandler.cpp accepts.
use mathlib.Core.Path.{subst}
use low_latency_trading.Base.{
  ℕ, zero, suc, ◌+◌, ◌≤◌, ◌<◌, ◌^◌, ◌≡◌, ◌≢◌, ◌⊎◌, refl, sym, ap, ◌∙◌, Bool, true, false, some,
  List, arith, u64, Bool-cases, inl, inr, ◌==◌,
}
use low_latency_trading.Mold.Codec.{
  Span, MessageView, next_message, decode_header, read_u16, read_u64, header_size, sequence_offset,
  message_count_offset,
}
use low_latency_trading.Itch.Messages.{ItchMessage}
use low_latency_trading.Itch.Dispatcher.{dispatch}
use low_latency_trading.Feed.Progress.{Unwrapped, payload_at}
use low_latency_trading.Feed.Types.{SequenceCheckResult, SequencedItchMessage}
use low_latency_trading.Feed.MoldItch.{
  Feed, validated, process_message, recovered_next, processed_next, check_sequence, process_view,
  process_messages, process_datagram,
}

-- A payload that is not empty and that the dispatcher reads.
abbrev pub Legible : Span → Type 0
Legible s = (s.size ≢ 0) × ((a : ItchMessage) × (dispatch (some s) ≡ some a))

-- From the offset `o` on there are `n` payloads, each behind its length, which the dispatcher
-- reads, and nothing else.
abbrev pub Readable : Span → ℕ → ℕ → Type 0
Readable s zero o = o ≡ s.size
Readable s (suc n) o =
    Legible (payload_at s o)
    × (o + 2 + read_u16 s.bytes o ≤ s.size)
    × Readable s n (o + 2 + read_u16 s.bytes o)

module _ {M : Type 0} (deliver : M → ItchMessage → M)
    (recover : ℕ → ℕ → SequenceCheckResult × List SequencedItchMessage) where
  -- `q` is not beyond the next expected number.
  abbrev pub Gapless : Feed M → ℕ → Type 0
  Gapless f q = (f.has_sequence ≡ false) ⊎ ((f.has_sequence ≡ true) × (q ≤ f.expected_sequence))

  -- The handler goes on and expects a number from `q` on, and has detected no further gap.
  abbrev pub Accepts : Feed M → ℕ → Bool × Feed M → Type 0
  Accepts f q r =
      (r.0 ≡ true)
      × (r.1.has_sequence ≡ true)
      × (q ≤ r.1.expected_sequence)
      × (r.1.gaps_detected ≡ f.gaps_detected)

  process_message-Accepts :
      (f : Feed M) (q : ℕ) (s : Span)
      → Legible s
      → f.has_sequence ≡ true
      → q ≤ f.expected_sequence
      → Accepts f q (process_message deliver recover f s)
  unfolding process_message
  process_message-Accepts f q s (some', (a, good)) has next =
      let g : Feed M = record f {
        market = deliver f.market a;
        processed_messages = u64 (f.processed_messages + 1);
      } in
      let result : process_message deliver recover f s ≡ (true, g) = ground (arith, some', good) in
      subst (Accepts f q) (sym result) (refl, has, next, refl)

  process_view-Accepts :
      (f : Feed M) (q : ℕ) (s : Span)
      → q + 1 < 2 ^ 64
      → Legible s
      → Gapless f q
      → Accepts f (q + 1) (process_view deliver recover f q s)
  unfolding process_view check_sequence
  process_view-Accepts f q s small legible (inl none') =
      let g : Feed M = record f { expected_sequence = u64 (q + 1); has_sequence = true } in
      let result : process_view deliver recover f q s ≡ process_message deliver recover g s =
        ground (arith, none') in
      subst (Accepts f (q + 1)) (sym result)
        (process_message-Accepts g (q + 1) s legible refl (omega (arith, small)))
  process_view-Accepts f q s small legible (inr (has, most)) =
      elim (Bool-cases (q == f.expected_sequence)) [
        | inl equal ↦
            let g : Feed M = record f { expected_sequence = u64 (q + 1) } in
            let result : process_view deliver recover f q s ≡ process_message deliver recover g s =
              ground (arith, has, equal) in
            subst (Accepts f (q + 1)) (sym result)
              (process_message-Accepts g (q + 1) s legible has (omega (arith, small)))
        | inr other ↦
            let g : Feed M = record f { ignored_messages = u64 (f.ignored_messages + 1) } in
            let result : process_view deliver recover f q s ≡ (true, g) =
              ground (arith, has, other, most) in
            subst (Accepts f (q + 1)) (sym result) (refl, has, ground (arith, other, most), refl)
      ]

  next-Accepts :
      (f : Feed M) (q r : ℕ) (b : Bool × Feed M) (k : Feed M → Bool × Feed M)
      → Accepts f q b
      → ((g : Feed M) → g.has_sequence ≡ true → q ≤ g.expected_sequence → Accepts g r (k g))
      → Accepts f r (recovered_next deliver recover b k)
  unfolding recovered_next
  next-Accepts f q r (true, g) k (done, has, next, same) h =
      let (done', has', next', same') = h g has next in (done', has', next', same' ∙ same)
  next-Accepts f q r (false, g) k (done, has, next, same) h = ground (arith, done)

  -- One message, and then the others.
  step-Accepts :
      (f : Feed M) (s : Span) (n o q : ℕ)
      → q + suc n < 2 ^ 64
      → Readable s (suc n) o
      → Gapless f q
      → ((g : Feed M)
          → g.has_sequence ≡ true
          → q + 1 ≤ g.expected_sequence
          → Accepts g
              (q + suc n)
              (process_messages deliver recover g s n (o + 2 + read_u16 s.bytes o) (u64 (q + 1))))
      → Accepts f (q + suc n) (process_messages deliver recover f s (suc n) o q)
  unfolding process_messages processed_next next_message
  step-Accepts f s n o q small (legible, fits, readable) gapless h =
      let size = read_u16 s.bytes o in
      let v : MessageView = record { start = o + 2; size = size; sequence_number = q } in
      let read : next_message (some s) o q ≡ (some v, o + 2 + size) = ground (arith, fits) in
      let k : Feed M → ℕ → Bool × Feed M =
        λ g e. process_messages deliver recover g s n e (u64 (q + 1)) in
      subst (λ r. Accepts f (q + suc n) (processed_next deliver recover f s.bytes r k)) (sym read)
        (next-Accepts f (q + 1) (q + suc n) (process_view deliver recover f q (payload_at s o))
          (λ g. k g (o + 2 + size))
          (process_view-Accepts f q (payload_at s o) (omega (arith, small)) legible gapless) h)

  process_messages-Accepts :
      (f : Feed M) (s : Span) (n o q : ℕ)
      → q + n < 2 ^ 64
      → Readable s n o
      → f.has_sequence ≡ true
      → q ≤ f.expected_sequence
      → Accepts f (q + n) (process_messages deliver recover f s n o q)
  unfolding process_messages
  process_messages-Accepts f s zero o q small readable has most =
      (refl, has, omega (arith, most), refl)
  process_messages-Accepts f s (suc n) o q small (legible, fits, readable) has most =
      step-Accepts f s n o q small (legible, fits, readable) (inr (has, most))
        (λ g has' most'.
          let r = u64 (q + 1) in
          let wraps : r + n ≡ q + suc n = omega (arith, small) in
          let e = o + 2 + read_u16 s.bytes o in
          subst (λ t. Accepts g t (process_messages deliver recover g s n e r)) wraps
            (process_messages-Accepts g s n e r (omega (arith, small)) readable has'
              (omega (arith, small, most'))))

  Readable-validated : (s : Span) (n o q : ℕ) → Readable s n o → validated s n o q ≡ some s.size
  unfolding validated next_message
  Readable-validated s zero o q h = ap some h
  Readable-validated s (suc n) o q (legible, fits, h) =
      ground (arith, fits, Readable-validated s n (o + 2 + read_u16 s.bytes o) (u64 (q + 1)) h)

  -- When the handler expects no earlier number than the datagram's first or has no number yet, a
  -- datagram with at least one message, whose numbers do not wrap around, whose messages fill it
  -- and are each not empty and read by the dispatcher, is processed to its end: the result is
  -- true, the handler then expects a number that is not below the one after the datagram's last,
  -- and it has detected no further gap.
  pub process_datagram-Accepts :
      (f : Feed M) (s : Span) (n : ℕ)
      → header_size ≤ s.size
      → read_u16 s.bytes message_count_offset ≡ suc n
      → Unwrapped s
      → Readable s (suc n) header_size
      → Gapless f (read_u64 s.bytes sequence_offset)
      → Accepts f (read_u64 s.bytes sequence_offset + suc n) (process_datagram deliver recover f s)
  unfolding process_datagram decode_header
  process_datagram-Accepts f s n long count small readable gapless =
      let q = read_u64 s.bytes 10 in
      let framed = Readable-validated s (suc n) 20 q readable in
      let result : process_datagram deliver recover f s
          ≡ process_messages deliver recover f s (suc n) 20 q =
        ground (arith, long, count, framed) in
      let within : q + suc n < 2 ^ 64 = omega (arith, small, count) in
      subst (Accepts f (q + suc n)) (sym result) (
        step-Accepts f s n 20 q within readable gapless (λ g has most.
          let r = u64 (q + 1) in
          let wraps : r + n ≡ q + suc n = omega (arith, within) in
          let e = 22 + read_u16 s.bytes 20 in
          subst (λ t. Accepts g t (process_messages deliver recover g s n e r)) wraps
            (process_messages-Accepts g s n e r (omega (arith, within)) readable.2 has
              (omega (arith, within, most)))))
