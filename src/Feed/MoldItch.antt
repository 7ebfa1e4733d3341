-- ===== src/Feed/MoldItch.antt =====
-- feed_handler/MoldItchFeedHandler.cpp. The market and the recovery are the two interfaces that
-- the handler is built with: `deliver` is `onMessage`, and `recover` returns its result and the
-- vector that it fills.
use low_latency_trading.Base.{
  ℕ, zero, suc, ◌+◌, Bool, true, false, ◌||◌, Option, none, some, List, [], ◌∷◌, ltb, ◌==◌,
  if◌then◌else◌, u64,
}
use low_latency_trading.Mold.Codec.{
  Bytes, Span, MessageView, decode_header, next_message, header_size,
}
use low_latency_trading.Itch.Messages.{ItchMessage}
use low_latency_trading.Itch.Dispatcher.{dispatch}
use low_latency_trading.Feed.Types.{
  FeedHandlerState, stopped, running, failed, SequenceCheckResult, process, ignore, stop,
  SequencedItchMessage, max_payload_size,
}

pub record Feed (M : Type 0) : Type 0 where
  pub market : M
  pub expected_sequence : ℕ
  pub has_sequence : Bool
  pub processed_datagrams : ℕ
  pub processed_messages : ℕ
  pub recovered_messages : ℕ
  pub ignored_messages : ℕ
  pub gaps_detected : ℕ
  pub malformed_datagrams : ℕ
  pub state : FeedHandlerState
  pub is_running : Bool

-- The bytes that a view shows.
abbrev pub viewed : Bytes → MessageView → Span
viewed d v = record { bytes = λ i. d (v.start + i); size = v.size }

-- Pass 1 of `processDatagram`: the offset after `n` messages, if the framing holds so far.
validated_next : Option MessageView × ℕ → (ℕ → Option ℕ) → Option ℕ
validated_next (none, o) k = none
validated_next (some v, o) k = k o

unfoldable pub validated : Span → ℕ → ℕ → ℕ → Option ℕ
unfolding validated_next
validated s zero o q = some o
validated s (suc n) o q =
    validated_next (next_message (some s) o q) (λ e. validated s n e (u64 (q + 1)))

module _ {M : Type 0} (deliver : M → ItchMessage → M)
    (recover : ℕ → ℕ → SequenceCheckResult × List SequencedItchMessage) where
  unfoldable pub start_lifecycle : Feed M → Feed M
  start_lifecycle f = record {
    market = f.market;
    expected_sequence = 0;
    has_sequence = false;
    processed_datagrams = 0;
    processed_messages = 0;
    recovered_messages = 0;
    ignored_messages = 0;
    gaps_detected = 0;
    malformed_datagrams = 0;
    state = running;
    is_running = true;
  }

  unfoldable pub finish_lifecycle : Feed M → Feed M
  finish_lifecycle f = record f {
    is_running = false;
    state = elim f.state [ failed ↦ failed | _ ↦ stopped ];
  }

  unfoldable pub process_message : Feed M → Span → Bool × Feed M
  process_message f s = if s.size == 0 then (false, f) else elim (dispatch (some s)) [
    | none ↦ (false, f)
    | some m ↦ (
      true,
      record f { market = deliver f.market m; processed_messages = u64 (f.processed_messages + 1) },
    )
  ]

  unfoldable pub process_recovered_message : Feed M → SequencedItchMessage → Bool × Feed M
  process_recovered_message f x =
      if x.payload.size == 0 || ltb max_payload_size x.payload.size
      then (false, f)
      else elim (dispatch (some x.payload)) [
        | none ↦ (false, f)
        | some m ↦ (
          true,
          record f {
            market = deliver f.market m;
            recovered_messages = u64 (f.recovered_messages + 1);
          },
        )
      ]

  -- The loop over the recovered messages.
  unfoldable pub recovered_next : Bool × Feed M → (Feed M → Bool × Feed M) → Bool × Feed M
  recovered_next (true, f) k = k f
  recovered_next (false, f) k = (false, f)

  unfoldable pub process_recovered : Feed M → List SequencedItchMessage → Bool × Feed M
  unfolding recovered_next
  process_recovered f [] = (true, f)
  process_recovered f (x ∷ xs) =
      recovered_next (process_recovered_message f x) (λ g. process_recovered g xs)

  -- What follows the recovery of a gap.
  unfoldable pub replayed : Bool × Feed M → ℕ → SequenceCheckResult × Feed M
  replayed (false, f) q = (stop, f)
  replayed (true, f) q = (process, record f { expected_sequence = u64 (q + 1) })

  unfoldable pub recovered :
      Feed M → ℕ → SequenceCheckResult × List SequencedItchMessage → SequenceCheckResult × Feed M
  unfolding replayed
  recovered f q (process, xs) = replayed (process_recovered f xs) q
  recovered f q (ignore, xs) = (ignore, f)
  recovered f q (stop, xs) = (stop, f)

  unfoldable pub check_sequence : Feed M → ℕ → SequenceCheckResult × Feed M
  unfolding recovered
  check_sequence f q =
      if f.has_sequence
      then if q == f.expected_sequence
        then (process, record f { expected_sequence = u64 (q + 1) })
        else if ltb q f.expected_sequence
        then (ignore, record f { ignored_messages = u64 (f.ignored_messages + 1) })
        else recovered (record f { gaps_detected = u64 (f.gaps_detected + 1) }) q
            (recover f.expected_sequence q)
      else (process, record f { expected_sequence = u64 (q + 1); has_sequence = true })

  -- One message of pass 2: the sequence check, and the message if it is to be processed.
  unfoldable pub checked : SequenceCheckResult × Feed M → Span → Bool × Feed M
  checked (process, f) s = process_message f s
  checked (ignore, f) s = (true, f)
  checked (stop, f) s = (false, f)

  unfoldable pub process_view : Feed M → ℕ → Span → Bool × Feed M
  unfolding checked
  process_view f q s = checked (check_sequence f q) s

  -- Pass 2.
  unfoldable pub processed_next :
      Feed M → Bytes → Option MessageView × ℕ → (Feed M → ℕ → Bool × Feed M) → Bool × Feed M
  unfolding recovered_next
  processed_next f d (none, o) k = (false, f)
  processed_next f d (some v, o) k =
      recovered_next (process_view f v.sequence_number (viewed d v)) (λ g. k g o)

  unfoldable pub process_messages : Feed M → Span → ℕ → ℕ → ℕ → Bool × Feed M
  unfolding processed_next
  process_messages f s zero o q = (true, f)
  process_messages f s (suc n) o q =
      processed_next f s.bytes (next_message (some s) o q)
        (λ g e. process_messages g s n e (u64 (q + 1)))

  unfoldable pub process_datagram : Feed M → Span → Bool × Feed M
  process_datagram f s = elim (decode_header (some s)) [
    | none ↦ (false, f)
    | some h ↦
        if h.message_count == 0
        then (false, f)
        else elim (validated s h.message_count header_size h.sequence_number) [
          | none ↦ (false, f)
          | some e ↦
              if e == s.size
              then process_messages f s h.message_count header_size h.sequence_number
              else (false, f)
        ]
  ]
