-- ===== src/Itch/Market/Handlers.antt =====
-- The handlers of itch/ItchMarketState.h, one for each message that it does not ignore.
use low_latency_trading.Base.{
  Bool, true, false, not, ◌&&◌, Option, none, some, ltb, ◌==◌, if◌then◌else◌,
}
use low_latency_trading.Book.Sides
use low_latency_trading.Book.Bbo.{bbo, side_of}
use low_latency_trading.Book.Store
use low_latency_trading.Instruments
use low_latency_trading.OrderStore.{Order, stored, find_index, contains}
use low_latency_trading.OrderStore
use low_latency_trading.Itch.Messages.{
  StockDirectoryMessage, StockTradingActionMessage, RegShoRestrictionMessage, AddOrderMessage,
  AddOrderWithMpidMessage, OrderExecutedMessage, OrderExecutedWithPriceMessage, OrderCancelMessage,
  OrderDeleteMessage, OrderReplaceMessage, TradeMessage, ItchMessage, system_event, stock_directory,
  add_order, add_order_with_mpid, order_executed, order_executed_with_price, order_cancel,
  order_delete, order_replace, trade, stock_trading_action, reg_sho_restriction,
}
use low_latency_trading.Itch.Normalizer.{
  normalize, normalize_trading_state, normalize_reg_sho_state, normalize_order,
  normalize_order_with_mpid, side_of_indicator,
}
use low_latency_trading.Itch.Market.State.{MarketState, Counters, inc, notify_trade}
use low_latency_trading.Itch.Market.Resting.{
  put_side, publish, missing_book, add_order as add_resting, remove_resting, reduce_resting,
}

abbrev pub count : MarketState → (Counters → Counters) → MarketState
count m f = record m { counters = f m.counters }

unfoldable pub handle_stock_directory : MarketState → StockDirectoryMessage → MarketState
handle_stock_directory m x = record m {
  instruments = (Instruments.add m.instruments (normalize x)).1;
}

unfoldable pub handle_stock_trading_action : MarketState → StockTradingActionMessage → MarketState
handle_stock_trading_action m x = elim (Instruments.find m.instruments x.stock_locate) [
  | none ↦ count m λ c. record c {
    unknown_trading_action_instruments = inc c.unknown_trading_action_instruments;
  }
  | some v ↦ record m {
    instruments =
        Instruments.put m.instruments x.stock_locate
          (record v { trading_state = normalize_trading_state x });
  }
]

unfoldable pub handle_reg_sho_restriction : MarketState → RegShoRestrictionMessage → MarketState
handle_reg_sho_restriction m x = elim (Instruments.find m.instruments x.stock_locate) [
  | none ↦ count m λ c. record c { unknown_reg_sho_instruments = inc c.unknown_reg_sho_instruments }
  | some v ↦ record m {
    instruments =
        Instruments.put m.instruments x.stock_locate
          (record v { reg_sho_state = normalize_reg_sho_state x });
  }
]

unfoldable pub handle_add_order : MarketState → AddOrderMessage → MarketState
unfolding normalize_order
handle_add_order m x = add_resting m (normalize_order x) x.timestamp

unfoldable pub handle_add_order_with_mpid : MarketState → AddOrderWithMpidMessage → MarketState
unfolding normalize_order_with_mpid
handle_add_order_with_mpid m x = add_resting m (normalize_order_with_mpid x) x.timestamp

unfoldable pub handle_order_executed : MarketState → OrderExecutedMessage → Option MarketState
handle_order_executed m x = elim (find_index m.orders x.order_reference_number) [
  | none ↦
      some (count m λ c. record c { unknown_order_executions = inc c.unknown_order_executions })
  | some it ↦
      let order = (stored m.orders it).order in
      if ltb order.quantity x.executed_shares
      then some (count m λ c. record c { over_executed_orders = inc c.over_executed_orders })
      else elim (Store.find m.books order.instrument_id) [
        | none ↦ some (missing_book m)
        | some book ↦
            reduce_resting
              (notify_trade m order.instrument_id x.timestamp order.price x.executed_shares
                order.side)
              it book x.executed_shares x.timestamp
      ]
]

-- The trade is reported at the message's price; the level is the order's.
unfoldable pub handle_order_executed_with_price :
    MarketState → OrderExecutedWithPriceMessage → Option MarketState
handle_order_executed_with_price m x = elim (find_index m.orders x.order_reference_number) [
  | none ↦ some (
      count m λ c. record c {
        unknown_order_executions_with_price = inc c.unknown_order_executions_with_price;
      })
  | some it ↦
      let order = (stored m.orders it).order in
      if ltb order.quantity x.executed_shares
      then some (
          count m λ c. record c {
            over_executed_orders_with_price = inc c.over_executed_orders_with_price;
          })
      else elim (Store.find m.books order.instrument_id) [
        | none ↦ some (missing_book m)
        | some book ↦
            reduce_resting
              (notify_trade m order.instrument_id x.timestamp x.execution_price x.executed_shares
                order.side)
              it book x.executed_shares x.timestamp
      ]
]

unfoldable pub handle_order_cancel : MarketState → OrderCancelMessage → Option MarketState
handle_order_cancel m x = elim (find_index m.orders x.order_reference_number) [
  | none ↦ some (count m λ c. record c { unknown_order_cancels = inc c.unknown_order_cancels })
  | some it ↦
      let order = (stored m.orders it).order in
      if ltb order.quantity x.cancelled_shares
      then some (count m λ c. record c { over_cancelled_orders = inc c.over_cancelled_orders })
      else elim (Store.find m.books order.instrument_id) [
        | none ↦ some (missing_book m)
        | some book ↦ reduce_resting m it book x.cancelled_shares x.timestamp
      ]
]

unfoldable pub handle_order_delete : MarketState → OrderDeleteMessage → Option MarketState
handle_order_delete m x = elim (find_index m.orders x.order_reference_number) [
  | none ↦ some (count m λ c. record c { unknown_order_deletes = inc c.unknown_order_deletes })
  | some it ↦
      let order = (stored m.orders it).order in
      elim (Store.find m.books order.instrument_id) [
        | none ↦ some (missing_book m)
        | some book ↦
            remove_resting m it book order.quantity
              (λ u. some (publish u order.instrument_id x.timestamp (bbo book)))
      ]
]

-- The new order stands at the message's price with its shares, on the old order's side.
abbrev pub replacement : Order → OrderReplaceMessage → Order
replacement old x = record {
  order_id = x.new_order_reference_number;
  instrument_id = old.instrument_id;
  timestamp = x.timestamp;
  price = x.price;
  quantity = x.shares;
  side = old.side;
}

abbrev pub duplicate_replacement : MarketState → MarketState
duplicate_replacement m =
    count m
      λ c. record c { duplicate_replacement_order_ids = inc c.duplicate_replacement_order_ids }

-- What the replace handler does once the old order is gone: `side.add`, then `orders_.add`.
unfoldable pub add_replacement : MarketState → Order → MarketState × Bool
add_replacement m o =
    let book = m.books.books o.instrument_id in
    let (level, side) = Sides.add (side_of book o.side) o.price o.quantity in
    let m' = put_side m o.instrument_id book o.side side in
    let (added, orders) = OrderStore.add m.orders o level in
    if added then (record m' { orders = orders }, true) else (duplicate_replacement m', false)

unfoldable pub handle_order_replace : MarketState → OrderReplaceMessage → Option MarketState
unfolding add_replacement
handle_order_replace m x = elim (find_index m.orders x.original_order_reference_number) [
  | none ↦ some (count m λ c. record c { unknown_order_replaces = inc c.unknown_order_replaces })
  | some it ↦
      let old = (stored m.orders it).order in
      if not (x.new_order_reference_number == x.original_order_reference_number)
        && contains m.orders x.new_order_reference_number
      then some (duplicate_replacement m)
      else elim (Store.find m.books old.instrument_id) [
        | none ↦ some (missing_book m)
        | some book ↦ remove_resting m it book old.quantity λ u.
            let (u', added) = add_replacement u (replacement old x) in
            some (if added then publish u' old.instrument_id x.timestamp (bbo book) else u')
      ]
]

unfoldable pub handle_trade : MarketState → TradeMessage → MarketState
handle_trade m x =
    notify_trade m x.stock_locate x.timestamp x.price x.shares
      (side_of_indicator x.buy_sell_indicator)

-- `onMessage`: the other messages are ignored.
unfoldable pub on_message : MarketState → ItchMessage → Option MarketState
on_message m (system_event x) = some m
on_message m (stock_directory x) = some (handle_stock_directory m x)
on_message m (add_order x) = some (handle_add_order m x)
on_message m (add_order_with_mpid x) = some (handle_add_order_with_mpid m x)
on_message m (order_executed x) = handle_order_executed m x
on_message m (order_executed_with_price x) = handle_order_executed_with_price m x
on_message m (order_cancel x) = handle_order_cancel m x
on_message m (order_delete x) = handle_order_delete m x
on_message m (order_replace x) = handle_order_replace m x
on_message m (trade x) = some (handle_trade m x)
on_message m (stock_trading_action x) = some (handle_stock_trading_action m x)
on_message m (reg_sho_restriction x) = some (handle_reg_sho_restriction m x)
on_message m ignored = some m
