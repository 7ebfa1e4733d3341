-- ===== src/Tests/Feed.antt =====
-- The feed handler of MoldUDP64 datagrams at small inputs.
use low_latency_trading.Base.{
  ℕ, ◌+◌, ◌<◌, ◌≡◌, ◌↔◌, refl, true, false, Option, none, some, List, [], ◌∷◌, arith, ◌==◌,
  if◌then◌else◌, inl, inr, take,
}
use low_latency_trading.Mold.Codec.{Span, read_u16, read_u64, header_size, message_count_offset}
use low_latency_trading.Itch.Messages.{ItchMessage}
use low_latency_trading.Itch.Decoder
use low_latency_trading.Itch.Decoder.{decode_system_event}
use low_latency_trading.Itch.Dispatcher.{dispatch}
use low_latency_trading.Itch.Market.State.{MarketState, initial}
use low_latency_trading.Itch.Market.Invariant.{Inv}
use low_latency_trading.Itch.Market.Spec.{view, after_all}
use low_latency_trading.Feed.Types.{process, running, SequencedItchMessage}
use low_latency_trading.Feed.Recovery
use low_latency_trading.Feed.Recovery.{Consecutive, recover_iff}
use low_latency_trading.Feed.MoldItch.{Feed, process_datagram}
use low_latency_trading.Feed.Loops.{
  Poll, received, nothing, stopping, QueuePoll, popped, stopped_receiver, run, start, run_queued,
}
use low_latency_trading.Feed.Framing.{WellFramed, process_datagram-malformed}
use low_latency_trading.Feed.Progress.{Unwrapped}
use low_latency_trading.Feed.Sources.{recover}
use low_latency_trading.Feed.Settling.{Settled, process_datagram-Settled}
use low_latency_trading.Feed.Live.{Accepts, Readable, process_datagram-Accepts}
use low_latency_trading.Feed.Runs.{heard, heard_queue}
use low_latency_trading.Feed.Ending.{Ended, loops-Ended}
use low_latency_trading.Feed.Market.{Delivered-initial, HasBytes, Reads, deliver}
use low_latency_trading.Tests.Wire.{opening, opening_span, opening_is_read}

-- Two numbers for a gap from 4 to 6.
abbrev numbers : ℕ → ℕ → Option (List ℕ)
numbers e r = some (4 ∷ 5 ∷ [])

recover_iff_example :
    (Recovery.recover (λ x. x) numbers 4 6 ≡ (process, 4 ∷ 5 ∷ []))
    ↔ ((4 < 6) × (numbers 4 6 ≡ some (4 ∷ 5 ∷ [])) × Consecutive (λ x. x) 4 (4 ∷ 5 ∷ []) 6)
recover_iff_example = recover_iff (λ x. x) numbers 4 6 (4 ∷ 5 ∷ []) (omega arith)

-- Nothing can be recovered.
abbrev no_source : ℕ → ℕ → Option (List SequencedItchMessage)
no_source e r = none

-- A datagram with the first message of a day, of the sequence number 5.
abbrev datagram : Span
datagram = record {
  bytes = λ i.
      if i == 17
      then 5
      else if i == 19
      then 1
      else if i == 21
      then 12
      else if i == 22
      then b'S'
      else if i == 33
      then b'O'
      else 0;
  size = 34;
}

datagram-Unwrapped : Unwrapped datagram
unfolding read_u64 read_u16
datagram-Unwrapped = omega arith

datagram_count : read_u16 datagram.bytes message_count_offset ≡ 1
unfolding read_u16
datagram_count = refl

datagram-Readable : Readable datagram 1 header_size
unfolding read_u16 dispatch decode_system_event Decoder.read_u16 Decoder.read_u48
datagram-Readable = ((omega arith, (opening, refl)), omega arith, refl)

-- A header that counts a message, without the message.
abbrev header_only : Span
header_only = record { bytes = datagram.bytes; size = 20 }

abbrev fresh : Feed (Option MarketState)
fresh = record {
  market = some (initial true true);
  expected_sequence = 0;
  has_sequence = false;
  processed_datagrams = 0;
  processed_messages = 0;
  recovered_messages = 0;
  ignored_messages = 0;
  gaps_detected = 0;
  malformed_datagrams = 0;
  state = running;
  is_running = true;
}

header_only_not_framed : ¬ WellFramed header_only
unfolding read_u16
header_only_not_framed (long, some', ([], len, framed, within)) = omega (arith, len)
header_only_not_framed (long, some', (m ∷ [], len, framed, within)) = omega (arith, framed.2)
header_only_not_framed (long, some', (m ∷ v ∷ ms, len, framed, within)) = omega (arith, len)

process_datagram-malformed_example :
    process_datagram deliver (recover no_source) fresh header_only ≡ (false, fresh)
process_datagram-malformed_example =
    process_datagram-malformed deliver (recover no_source) fresh header_only header_only_not_framed

process_datagram-Settled_example :
    Settled deliver no_source fresh datagram
      (process_datagram deliver (recover no_source) fresh datagram)
process_datagram-Settled_example =
    process_datagram-Settled deliver no_source fresh datagram datagram-Unwrapped (inr (refl, refl))

process_datagram-Accepts_example :
    Accepts deliver
      (recover no_source)
      fresh
      (read_u64 datagram.bytes 10 + 1)
      (process_datagram deliver (recover no_source) fresh datagram)
process_datagram-Accepts_example =
    process_datagram-Accepts deliver (recover no_source) fresh datagram 0 (omega arith)
      datagram_count datagram-Unwrapped datagram-Readable (inl refl)

abbrev polls : List Poll
polls = nothing ∷ received datagram ∷ stopping ∷ []

abbrev queue_polls : List QueuePoll
queue_polls = popped datagram ∷ stopped_receiver true ∷ []

loops-Ended_example :
    Ended deliver no_source fresh.market (heard polls) (run deliver (recover no_source) fresh polls)
    × Ended deliver no_source fresh.market
        (take 2 (heard polls))
        (start deliver (recover no_source) 2 fresh polls)
    × Ended deliver no_source fresh.market
        (heard_queue true queue_polls)
        (run_queued deliver (recover no_source) fresh queue_polls)
loops-Ended_example =
    loops-Ended deliver no_source fresh 2 polls queue_polls (datagram-Unwrapped, tt)
      (datagram-Unwrapped, tt)

-- The first message of the day, delivered.
abbrev first : SequencedItchMessage
first = record { sequence = 5; payload = opening_span }

first-HasBytes : HasBytes first
first-HasBytes i = ground arith

Delivered-initial_example :
    (u : MarketState) × (ms : List ItchMessage) × Reads (first ∷ []) ms
    × (deliver fresh.market opening ≡ some u)
    × Inv u
    × (u.faults ≡ (initial true true).faults)
    × (view u.orders ≡ after_all (λ id. none) ms)
Delivered-initial_example =
    Delivered-initial true true (first ∷ []) (deliver fresh.market opening)
      (opening, opening_is_read, refl) (first-HasBytes, tt) (omega arith)
