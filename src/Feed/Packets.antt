-- ===== src/Feed/Packets.antt =====
-- feed_handler/ItchFeedHandler.cpp, the handler of packets with one message each. The market and
-- the recovery are parameters, as they are references in the source.
use low_latency_trading.Base.{
  ℕ, zero, suc, ◌+◌, Bool, true, false, ◌||◌, Option, none, some, List, [], ◌∷◌, ltb, ◌==◌,
  if◌then◌else◌, u64,
}
use low_latency_trading.Itch.Messages.{ItchMessage}
use low_latency_trading.Itch.Dispatcher.{dispatch}
use low_latency_trading.Feed.Types.{
  FeedHandlerState, stopped, running, failed, SequenceCheckResult, process, ignore, stop,
  SequencedItchMessage, max_payload_size,
}

-- The same fields with the same limit as a sequenced message.
abbrev pub ItchUdpPacket : Type 0
ItchUdpPacket = SequencedItchMessage

pub record PacketFeed (M : Type 0) : Type 0 where
  pub market : M
  pub expected_sequence : ℕ
  pub has_sequence : Bool
  pub processed_packets : ℕ
  pub recovered_packets : ℕ
  pub ignored_packets : ℕ
  pub gaps_detected : ℕ
  pub state : FeedHandlerState
  pub is_running : Bool

-- What a poll of the source brings: a packet, nothing, or first a call of `stop()` by another
-- thread.
pub data PacketPoll : Type 0 where
  received : ItchUdpPacket → PacketPoll
  nothing stopping : PacketPoll

module _ {M : Type 0} where
  unfoldable pub start_lifecycle : PacketFeed M → PacketFeed M
  start_lifecycle f = record {
    market = f.market;
    expected_sequence = 0;
    has_sequence = false;
    processed_packets = 0;
    recovered_packets = 0;
    ignored_packets = 0;
    gaps_detected = 0;
    state = running;
    is_running = true;
  }

  unfoldable pub finish_lifecycle : PacketFeed M → PacketFeed M
  finish_lifecycle f = record f {
    is_running = false;
    state = elim f.state [ failed ↦ failed | _ ↦ stopped ];
  }

  module _ (deliver : M → ItchMessage → M) where
    -- The market after the packet, or `false`.
    unfoldable pub process_packet : M → ItchUdpPacket → Option M
    process_packet w x =
        if x.payload.size == 0 || ltb max_payload_size x.payload.size
        then none
        else elim (dispatch (some x.payload)) [ none ↦ none | some a ↦ some (deliver w a) ]

    -- The loop over the recovered packets.
    unfoldable pub process_recovered : PacketFeed M → List ItchUdpPacket → Bool × PacketFeed M
    process_recovered f [] = (true, f)
    process_recovered f (x ∷ xs) = elim (process_packet f.market x) [
      | none ↦ (false, f)
      | some w ↦
          process_recovered
            (record f { market = w; recovered_packets = u64 (f.recovered_packets + 1) }) xs
    ]

    unfoldable pub replayed : Bool × PacketFeed M → ℕ → SequenceCheckResult × PacketFeed M
    replayed (false, f) q = (stop, f)
    replayed (true, f) q = (process, record f { expected_sequence = u64 (q + 1) })

    -- What follows the recovery of a gap.
    unfoldable pub recovered :
        PacketFeed M
        → ℕ
        → SequenceCheckResult × List ItchUdpPacket
        → SequenceCheckResult × PacketFeed M
    unfolding replayed
    recovered f q (process, xs) = replayed (process_recovered f xs) q
    recovered f q (ignore, xs) = (ignore, f)
    recovered f q (stop, xs) = (stop, f)

    -- The packet after its sequence check.
    unfoldable pub handled :
        SequenceCheckResult × PacketFeed M → ItchUdpPacket → SequenceCheckResult × PacketFeed M
    handled (stop, f) x = (stop, record f { state = failed })
    handled (ignore, f) x = (ignore, f)
    handled (process, f) x = elim (process_packet f.market x) [
      | none ↦ (stop, record f { state = failed })
      | some w ↦
          (process, record f { market = w; processed_packets = u64 (f.processed_packets + 1) })
    ]

    module _ (recover : ℕ → ℕ → SequenceCheckResult × List ItchUdpPacket) where
      unfoldable pub check_sequence : PacketFeed M → ℕ → SequenceCheckResult × PacketFeed M
      unfolding recovered
      check_sequence f q =
          if f.has_sequence
          then if q == f.expected_sequence
            then (process, record f { expected_sequence = u64 (q + 1) })
            else if ltb q f.expected_sequence
            then (ignore, record f { ignored_packets = u64 (f.ignored_packets + 1) })
            else recovered (record f { gaps_detected = u64 (f.gaps_detected + 1) }) q
                (recover f.expected_sequence q)
          else (process, record f { expected_sequence = u64 (q + 1); has_sequence = true })

      -- One round of the loops with a packet.
      unfoldable pub handle : PacketFeed M → ItchUdpPacket → SequenceCheckResult × PacketFeed M
      unfolding handled
      handle f x = handled (check_sequence f x.sequence) x

      -- The end of a round: out of the loop, or on, with or without a packet more.
      unfoldable pub looped :
          SequenceCheckResult × PacketFeed M
          → (PacketFeed M → PacketFeed M)
          → (PacketFeed M → PacketFeed M)
          → PacketFeed M
      looped (stop, f) skip more = finish_lifecycle f
      looped (ignore, f) skip more = skip f
      looped (process, f) skip more = more f

      -- The loop of `run`, over what the polls bring; after the last the loop goes on polling.
      unfoldable pub run_loop : PacketFeed M → List PacketPoll → PacketFeed M
      unfolding looped
      run_loop f [] = elim f.is_running [ true ↦ f | false ↦ finish_lifecycle f ]
      run_loop f (p ∷ ps) = elim f.is_running [
        | false ↦ finish_lifecycle f
        | true ↦ elim p [
          | received x ↦ looped (handle f x) (λ g. run_loop g ps) (λ g. run_loop g ps)
          | nothing ↦ run_loop f ps
          | stopping ↦ run_loop (record f { is_running = false }) ps
        ]
      ]

      unfoldable pub run : PacketFeed M → List PacketPoll → PacketFeed M
      unfolding run_loop
      run f ps = run_loop (start_lifecycle f) ps

      -- The loop of `start`, for `n` more packets.
      unfoldable pub start_loop : ℕ → PacketFeed M → List PacketPoll → PacketFeed M
      unfolding looped
      start_loop zero f ps = finish_lifecycle f
      start_loop (suc n) f [] = elim f.is_running [ true ↦ f | false ↦ finish_lifecycle f ]
      start_loop (suc n) f (p ∷ ps) = elim f.is_running [
        | false ↦ finish_lifecycle f
        | true ↦ elim p [
          | received x ↦ looped (handle f x) (λ g. start_loop (suc n) g ps) (λ g. start_loop n g ps)
          | nothing ↦ start_loop (suc n) f ps
          | stopping ↦ start_loop (suc n) (record f { is_running = false }) ps
        ]
      ]

      unfoldable pub start : ℕ → PacketFeed M → List PacketPoll → PacketFeed M
      unfolding start_loop
      start n f ps = start_loop n (start_lifecycle f) ps
