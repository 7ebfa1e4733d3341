-- ===== src/Feed/Types.antt =====
-- feed_handler/FeedHandlerState.h, common/types/SequenceCheckResult.h and
-- common/market_data/moldudp64/SequencedItchMessage.h.
use low_latency_trading.Base.{ℕ}
use low_latency_trading.Mold.Codec.{Span}

pub data FeedHandlerState : Type 0 where
  stopped running failed : FeedHandlerState

pub data SequenceCheckResult : Type 0 where
  process ignore stop : SequenceCheckResult

-- The payload with its `payloadSize`.
pub record SequencedItchMessage : Type 0 where
  pub sequence : ℕ
  pub payload : Span

abbrev pub max_payload_size : ℕ
max_payload_size = 2048
