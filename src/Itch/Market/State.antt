-- ===== src/Itch/Market/State.antt =====
-- common/market_data/itch/ItchMarketState.h: the state, and the calls of its two callbacks, which
-- are recorded, newest first.
use low_latency_trading.Base.{ℕ, ◌+◌, Bool, ◌||◌, not, List, [], ◌∷◌, if◌then◌else◌, u64}
use low_latency_trading.Book.Types.{Side}
use low_latency_trading.Book.Bbo.{Bbo, bbo_eq}
use low_latency_trading.Book.Store.{BookStore}
use low_latency_trading.Book.Store
use low_latency_trading.Instruments.{InstrumentStore}
use low_latency_trading.Instruments
use low_latency_trading.OrderStore.{OrderStore}
use low_latency_trading.OrderStore

pub data MarketEvent : Type 0 where
  bbo_change : (instrument timestamp : ℕ) → Bbo → MarketEvent
  trade : (instrument timestamp price quantity : ℕ) → Side → MarketEvent

pub record Counters : Type 0 where
  pub unknown_trading_action_instruments : ℕ
  pub unknown_reg_sho_instruments : ℕ
  pub unknown_order_executions : ℕ
  pub over_executed_orders : ℕ
  pub unknown_order_executions_with_price : ℕ
  pub over_executed_orders_with_price : ℕ
  pub unknown_order_cancels : ℕ
  pub over_cancelled_orders : ℕ
  pub unknown_order_deletes : ℕ
  pub unknown_order_replaces : ℕ
  pub duplicate_replacement_order_ids : ℕ
  pub duplicate_add_orders : ℕ

-- The counters of failures inside the books.
pub record Faults : Type 0 where
  pub missing_books : ℕ
  pub failed_book_reductions : ℕ
  pub failed_book_removals : ℕ

-- `has_bbo_handler` and `has_trade_handler` say whether the callbacks are set.
pub record MarketState : Type 0 where
  pub instruments : InstrumentStore
  pub orders : OrderStore
  pub books : BookStore
  pub counters : Counters
  pub faults : Faults
  pub has_bbo_handler : Bool
  pub has_trade_handler : Bool
  pub events : List MarketEvent

-- A new state, with callbacks set or not.
abbrev pub initial : Bool → Bool → MarketState
initial has_bbo has_trade = record {
  instruments = Instruments.empty_store;
  orders = OrderStore.empty_store;
  books = Store.empty_store;
  counters = record {
    unknown_trading_action_instruments = 0;
    unknown_reg_sho_instruments = 0;
    unknown_order_executions = 0;
    over_executed_orders = 0;
    unknown_order_executions_with_price = 0;
    over_executed_orders_with_price = 0;
    unknown_order_cancels = 0;
    over_cancelled_orders = 0;
    unknown_order_deletes = 0;
    unknown_order_replaces = 0;
    duplicate_replacement_order_ids = 0;
    duplicate_add_orders = 0;
  };
  faults = record { missing_books = 0; failed_book_reductions = 0; failed_book_removals = 0 };
  has_bbo_handler = has_bbo;
  has_trade_handler = has_trade;
  events = [];
}

-- `++counter`.
abbrev pub inc : ℕ → ℕ
inc n = u64 (n + 1)

unfoldable pub notify_bbo_change : MarketState → ℕ → ℕ → Bbo → Bbo → MarketState
notify_bbo_change m instrument timestamp before after =
    if bbo_eq before after || not m.has_bbo_handler
    then m
    else record m { events = bbo_change instrument timestamp after ∷ m.events }

unfoldable pub notify_trade : MarketState → ℕ → ℕ → ℕ → ℕ → Side → MarketState
notify_trade m instrument timestamp price quantity side =
    if not m.has_trade_handler
    then m
    else record m { events = trade instrument timestamp price quantity side ∷ m.events }
