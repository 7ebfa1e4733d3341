-- ===== src/Feed/Settling.antt =====
-- feed_handler/MoldItchFeedHandler.cpp with the recovery of moldudp64/MoldItchSequenceRecovery.cpp:
-- one datagram.
use mathlib.Core.Path.{subst}
use low_latency_trading.Base.{
  ℕ, ◌+◌, ◌≤◌, ◌≡◌, ◌⊎◌, refl, Bool, true, false, Option, List, inl, inr, arith, if◌then◌else◌,
}
use low_latency_trading.Mold.Codec.{Span, read_u16, read_u64}
use low_latency_trading.Itch.Messages.{ItchMessage}
use low_latency_trading.Feed.Types.{SequencedItchMessage}
use low_latency_trading.Feed.MoldItch.{Feed, process_datagram}
use low_latency_trading.Feed.Progress.{
  Current, Outcome, Progress, Progress-none, Sourced, All-of, Unwrapped, items,
}
use low_latency_trading.Feed.Sources.{recover, recover-Sourced, recover-forward}
use low_latency_trading.Feed.Delivery.{process_datagram-Outcome}

module _ {M : Type 0} (deliver : M → ItchMessage → M)
    (source : ℕ → ℕ → Option (List SequencedItchMessage)) where
  -- The handler has a sequence number, or it is as new.
  abbrev pub Started : Feed M → Type 0
  Started f = (f.has_sequence ≡ true) ⊎ ((f.has_sequence ≡ false) × (f.expected_sequence ≡ 0))

  -- The number that the handler goes on from.
  abbrev pub next_number : Feed M → Span → ℕ
  next_number f s = if f.has_sequence then f.expected_sequence else read_u64 s.bytes 10

  -- The market has gone on from that number up to `r` by messages of the datagram and of the
  -- source, each with the number that it came with.
  abbrev pub Advanced : Feed M → Span → Feed M → ℕ → Type 0
  Advanced f s g r =
      Progress deliver (Sourced source (items s)) f.market (next_number f s) g.market r

  -- Processed to the end, up to the next expected number, with no number of the datagram or from
  -- before left; or not.
  abbrev pub Settled : Feed M → Span → Bool × Feed M → Type 0
  Settled f s b =
      ((b.0 ≡ true)
        × (b.1.has_sequence ≡ true)
        × Advanced f s b.1 b.1.expected_sequence
        × (read_u64 s.bytes 10 + read_u16 s.bytes 18 ≤ b.1.expected_sequence)
        × (f.expected_sequence ≤ b.1.expected_sequence))
      ⊎ ((b.0 ≡ false) × ((r : ℕ) × Advanced f s b.1 r))

  Started-Current :
      (f : Feed M) (s : Span)
      → Started f
      → Current deliver
          (Sourced source (items s))
          f.market
          (next_number f s)
          (read_u64 s.bytes 10)
          f
  Started-Current f s (inl has) =
      let at : f.expected_sequence ≡ next_number f s = ground (arith, has) in
      inr (
        has,
        subst
            (λ t.
              Progress deliver (Sourced source (items s)) f.market t f.market f.expected_sequence)
            at (Progress-none deliver (Sourced source (items s)) f.market f.expected_sequence),
      )
  Started-Current f s (inr (none', zero')) = inl ((none', zero', refl), ground (arith, none'))

  Outcome-Settled :
      (f : Feed M) (s : Span) (run : Bool) (b : Bool × Feed M)
      → Outcome deliver
          (Sourced source (items s))
          f.market
          (next_number f s)
          (read_u64 s.bytes 10 + read_u16 s.bytes 18)
          f.expected_sequence
          run
          b
      → Settled f s b
  Outcome-Settled f s run (true, g) ((has, p), passed, above, same) =
      inl (refl, has, p, passed, above)
  Outcome-Settled f s run (false, g) h = inr (refl, h)

  -- Over any source of lost messages, for a datagram whose sequence numbers do not wrap around and
  -- a handler that has a sequence number or is as new: the market goes on from the number that the
  -- handler expects, or as new from the datagram's first, by messages whose numbers follow each
  -- other, each delivered once, and each is a message of the datagram with its number there or one
  -- that the source returned with that number. If the result is true, they go up to the next
  -- number that the handler then expects, which is not below the number after the datagram's last
  -- and not below the one expected before; if it is false, they go up to some number.
  pub process_datagram-Settled :
      (f : Feed M) (s : Span)
      → Unwrapped s
      → Started f
      → Settled f s (process_datagram deliver (recover source) f s)
  process_datagram-Settled f s small start =
      Outcome-Settled f s f.is_running (process_datagram deliver (recover source) f s) (
        process_datagram-Outcome (Sourced source (items s)) deliver (recover source)
          (recover-Sourced source (items s)) (recover-forward source) f.market (next_number f s) f s
          small (All-of (Sourced source (items s)) (items s) (λ x d. inl d))
          (Started-Current f s start))
