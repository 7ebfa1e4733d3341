-- ===== src/Tests/PacketFeeds.antt =====
-- The feed handler of packets at small inputs.
use low_latency_trading.Base.{ℕ, true, false, Option, some, List, [], ◌∷◌, arith}
use low_latency_trading.Itch.Market.State.{MarketState, initial}
use low_latency_trading.Feed.Types.{stopped, SequencedItchMessage}
use low_latency_trading.Feed.Packets.{
  PacketFeed, PacketPoll, received, nothing, stopping, run, start,
}
use low_latency_trading.Feed.PacketRuns.{heard, counted}
use low_latency_trading.Feed.PacketEnding.{Ended, packet_loops-Ended}
use low_latency_trading.Feed.Sources.{recover}
use low_latency_trading.Feed.Market.{deliver}
use low_latency_trading.Tests.Wire.{opening_span}

-- The source has the packet with the number 6.
abbrev lost_packet : ℕ → ℕ → Option (List SequencedItchMessage)
lost_packet e r = some (record { sequence = 6; payload = opening_span } ∷ [])

abbrev new_feed : PacketFeed (Option MarketState)
new_feed = record {
  market = some (initial true true);
  expected_sequence = 0;
  has_sequence = false;
  processed_packets = 0;
  recovered_packets = 0;
  ignored_packets = 0;
  gaps_detected = 0;
  state = stopped;
  is_running = false;
}

-- A packet, the same again, one after a gap, and a call of `stop()`.
abbrev packet_polls : List PacketPoll
packet_polls =
    received (record { sequence = 5; payload = opening_span })
    ∷ received (record { sequence = 5; payload = opening_span })
    ∷ nothing
    ∷ received (record { sequence = 7; payload = opening_span })
    ∷ stopping
    ∷ []

packet_loops-Ended_example :
    Ended deliver lost_packet new_feed.market
      (heard packet_polls)
      (run deliver (recover lost_packet) new_feed packet_polls)
    × Ended deliver lost_packet new_feed.market
        (counted 3 0 (heard packet_polls))
        (start deliver (recover lost_packet) 3 new_feed packet_polls)
packet_loops-Ended_example =
    packet_loops-Ended deliver lost_packet new_feed 3 packet_polls
      (omega arith, (omega arith, (omega arith, tt)))
