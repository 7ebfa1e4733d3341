-- ===== src/Tests/Publish.antt =====
-- The publishers at small inputs.
use low_latency_trading.Base.{refl, true, List, [], ◌∷◌, arith, inl}
use low_latency_trading.Book.Bbo.{Bbo}
use low_latency_trading.Book.Types.{TradingState, RegShoState, sell}
use low_latency_trading.Instruments
use low_latency_trading.Instruments.{Instrument, InstrumentStore}
use low_latency_trading.Ring.{new_ring}
use low_latency_trading.Ring.Layout.{entry}
use low_latency_trading.Ring.Calls.{Stores}
use low_latency_trading.Publish.{
  MarketEvent, QuotePublisher, TradePublisher, on_bbo_change, on_order_execution,
}
use low_latency_trading.Publish.Trades.{TradeSent, on_order_execution-TradeSent}
use low_latency_trading.Publish.Quotes.{QuoteSent, on_bbo_change-QuoteSent}

abbrev acme : Instrument
acme = record {
  id = 3;
  symbol = b'A' ∷ b'C' ∷ b' ' ∷ [];
  trading_state = TradingState.unknown;
  reg_sho_state = RegShoState.unknown;
}

abbrev one_instrument : InstrumentStore
one_instrument = record { instruments = λ i. acme; present = λ i. true; size = 1 }

abbrev no_events : List MarketEvent
no_events = []

new_ring-Stores : Stores 4 new_ring no_events
unfolding new_ring entry
new_ring-Stores = record {
  indices = record {
    write_small = omega arith;
    read_small = omega arith;
    cached_read_small = omega arith;
    cached_write_small = omega arith;
    span = (omega arith, inl refl);
    behind = (0, (omega arith, inl refl), omega arith, omega arith);
    ahead = (0, (omega arith, inl refl), omega arith, omega arith);
  };
  contents = λ k i below after. refl;
}

abbrev publisher : QuotePublisher
publisher = record {
  next_sequence = 0;
  published_quotes = 0;
  dropped_quotes = 0;
  unknown_instruments = 0;
  samples = [];
}

abbrev spread : Bbo
spread = record {
  has_bid = true;
  bid_price = 99;
  bid_quantity = 5;
  has_ask = true;
  ask_price = 101;
  ask_quantity = 7;
}

on_bbo_change-QuoteSent_example :
    QuoteSent 4 publisher new_ring no_events
      (Instruments.find one_instrument 3)
      50
      spread
      (on_bbo_change 4 publisher new_ring one_instrument 3 50 spread)
on_bbo_change-QuoteSent_example =
    on_bbo_change-QuoteSent 4 publisher new_ring no_events one_instrument 3 50 spread
      new_ring-Stores

abbrev trade_publisher : TradePublisher
trade_publisher = record {
  next_sequence = 0;
  published_trades = 0;
  dropped_trades = 0;
  unknown_instruments = 0;
}

on_order_execution-TradeSent_example :
    TradeSent 4 trade_publisher new_ring no_events
      (Instruments.find one_instrument 3)
      50
      99
      5
      sell
      (on_order_execution 4 trade_publisher new_ring one_instrument 3 50 99 5 sell)
on_order_execution-TradeSent_example =
    on_order_execution-TradeSent 4 trade_publisher new_ring no_events one_instrument 3 50 99 5 sell
      new_ring-Stores (omega arith)
