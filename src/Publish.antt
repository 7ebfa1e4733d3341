-- ===== src/Publish.antt =====
-- common/market_data: itch/ItchQuotePublisher and itch/ItchTradePublisher, which send the market's
-- quotes and executions to the queue of market events.
use low_latency_trading.Base.{
  ℕ, ◌+◌, ◌-◌, ◌%◌, ◌^◌, Bool, true, false, not, ◌||◌, Option, none, some, List, [], ◌∷◌, ◌++◌,
  length, ltb, ◌==◌, if◌then◌else◌, u64,
}
use low_latency_trading.Book.Types.{Side, buy, sell}
use low_latency_trading.Book.Bbo.{Bbo}
use low_latency_trading.Instruments
use low_latency_trading.Instruments.{Instrument, InstrumentStore, symbol_view}
use low_latency_trading.Ring.{Ring, push}
pub mod Quotes
pub mod Trades

pub record Level : Type 0 where
  pub price : ℕ
  pub quantity : ℕ

pub record Quote : Type 0 where
  pub instrument : List ℕ
  pub sequence : ℕ
  pub timestamp : ℕ
  pub bid : Level
  pub ask : Level

pub record Trade : Type 0 where
  pub instrument : List ℕ
  pub sequence : ℕ
  pub timestamp : ℕ
  pub price : ℕ
  pub quantity : ℕ
  pub side : Side

pub data MarketEvent : Type 0 where
  quote : Quote → MarketEvent
  trade : Trade → MarketEvent

pub record UnknownInstrumentSample : Type 0 where
  pub instrument_id : ℕ
  pub timestamp : ℕ
  pub occurrences : ℕ

abbrev sample_capacity : ℕ
sample_capacity = 16

-- The samples are those of the array before its count.
pub record QuotePublisher : Type 0 where
  pub next_sequence : ℕ
  pub published_quotes : ℕ
  pub dropped_quotes : ℕ
  pub unknown_instruments : ℕ
  pub samples : List UnknownInstrumentSample

pub record TradePublisher : Type 0 where
  pub next_sequence : ℕ
  pub published_trades : ℕ
  pub dropped_trades : ℕ
  pub unknown_instruments : ℕ

-- The loop over the samples, if it finds the identifier.
unfoldable occurred : List UnknownInstrumentSample → ℕ → Option (List UnknownInstrumentSample)
occurred [] id = none
occurred (x ∷ xs) id =
    let rest = occurred xs id in
    if x.instrument_id == id
    then some (record x { occurrences = u64 (x.occurrences + 1) } ∷ xs)
    else elim rest [ none ↦ none | some ys ↦ some (x ∷ ys) ]

unfoldable record_unknown_instrument : QuotePublisher → ℕ → ℕ → QuotePublisher
unfolding occurred
record_unknown_instrument p id t = elim (occurred p.samples id) [
  | some xs ↦ record p { samples = xs }
  | none ↦
      if ltb (length p.samples) sample_capacity
      then record p {
        samples = p.samples ++ record { instrument_id = id; timestamp = t; occurrences = 1 } ∷ [];
      }
      else p
]

-- The quote that is sent of an instrument.
unfoldable pub quote_of : Instrument → ℕ → ℕ → Bbo → Quote
quote_of i sequence t b = record {
  instrument = symbol_view i.symbol;
  sequence = sequence;
  timestamp = t;
  bid = record { price = b.bid_price; quantity = b.bid_quantity % 2 ^ 32 };
  ask = record { price = b.ask_price; quantity = b.ask_quantity % 2 ^ 32 };
}

unfoldable quote_sent : QuotePublisher → Bool × Ring MarketEvent → QuotePublisher × Ring MarketEvent
quote_sent p (true, r) = (record p { published_quotes = u64 (p.published_quotes + 1) }, r)
quote_sent p (false, r) = (record p { dropped_quotes = u64 (p.dropped_quotes + 1) }, r)

unfoldable pub trade_of : Instrument → ℕ → ℕ → ℕ → ℕ → Side → Trade
trade_of i sequence t price quantity side = record {
  instrument = symbol_view i.symbol;
  sequence = sequence;
  timestamp = t;
  price = price;
  quantity = quantity % 2 ^ 32;
  side = elim side [ buy ↦ buy | sell ↦ sell ];
}

unfoldable trade_sent : TradePublisher → Bool × Ring MarketEvent → TradePublisher × Ring MarketEvent
trade_sent p (true, r) = (record p { published_trades = u64 (p.published_trades + 1) }, r)
trade_sent p (false, r) = (record p { dropped_trades = u64 (p.dropped_trades + 1) }, r)

module _ (capacity : ℕ) where
  unfoldable pub on_bbo_change :
      QuotePublisher
      → Ring MarketEvent
      → InstrumentStore
      → ℕ
      → ℕ
      → Bbo
      → QuotePublisher × Ring MarketEvent
  unfolding record_unknown_instrument quote_of quote_sent
  on_bbo_change p r s id t b = elim (Instruments.find s id) [
    | none ↦ (
      record_unknown_instrument (record p { unknown_instruments = u64 (p.unknown_instruments + 1) })
          id t,
      r,
    )
    | some i ↦
        if not b.has_bid || not b.has_ask
        then (p, r)
        else if ltb (2 ^ 32 - 1) b.bid_quantity || ltb (2 ^ 32 - 1) b.ask_quantity
        then (record p { dropped_quotes = u64 (p.dropped_quotes + 1) }, r)
        else quote_sent (record p { next_sequence = u64 (p.next_sequence + 1) })
            (push capacity r (quote (quote_of i p.next_sequence t b)))
  ]

  unfoldable pub on_order_execution :
      TradePublisher
      → Ring MarketEvent
      → InstrumentStore
      → ℕ
      → ℕ
      → ℕ
      → ℕ
      → Side
      → TradePublisher × Ring MarketEvent
  unfolding trade_of trade_sent
  on_order_execution p r s id t price quantity side = elim (Instruments.find s id) [
    | none ↦ (record p { unknown_instruments = u64 (p.unknown_instruments + 1) }, r)
    | some i ↦
        trade_sent (record p { next_sequence = u64 (p.next_sequence + 1) })
          (push capacity r (trade (trade_of i p.next_sequence t price quantity side)))
  ]
