-- ===== src/Itch/Market/Resting.antt =====
-- The parts that the order handlers of itch/ItchMarketState.h repeat: adding an order, taking
-- executed or cancelled shares off a resting order, and removing it.
use low_latency_trading.Base.{ℕ, ◌-◌, true, false, Option, none, some, ◌==◌, if◌then◌else◌}
use low_latency_trading.Book.Types.{Side}
use low_latency_trading.Book.Sides.{BookSide}
use low_latency_trading.Book.Sides
use low_latency_trading.Book.Bbo.{Bbo, OrderBook, bbo, side_of, with_side}
use low_latency_trading.Book.Store
use low_latency_trading.OrderStore.{
  Order, StoredOrder, OrderStore, stored, remove_at, set_quantity, find_index,
}
use low_latency_trading.OrderStore
use low_latency_trading.Itch.Market.State.{MarketState, inc, notify_bbo_change}

-- Writing a side of a book through the references `book` and `side`.
abbrev pub put_side : MarketState → ℕ → OrderBook → Side → BookSide → MarketState
put_side m i book d s = record m { books = Store.put m.books i (with_side book d s) }

-- `if (hasHandler) { const auto after = book.bbo(); notifyBboChange(...); }`
unfoldable pub publish : MarketState → ℕ → ℕ → Bbo → MarketState
publish m i timestamp before =
    if m.has_bbo_handler then notify_bbo_change m i timestamp before (bbo (m.books.books i)) else m

abbrev pub missing_book : MarketState → MarketState
missing_book m = record m {
  faults = record (m.faults) { missing_books = inc m.faults.missing_books };
}

abbrev pub failed_reduction : MarketState → MarketState
failed_reduction m = record m {
  faults = record (m.faults) { failed_book_reductions = inc m.faults.failed_book_reductions };
}

abbrev pub failed_removal : MarketState → MarketState
failed_removal m = record m {
  faults = record (m.faults) { failed_book_removals = inc m.faults.failed_book_removals };
}

abbrev pub duplicate_add : MarketState → MarketState
duplicate_add m = record m {
  counters = record (m.counters) { duplicate_add_orders = inc m.counters.duplicate_add_orders };
}

-- The order joins its level, and then the store.
unfoldable pub add_new : MarketState → Order → ℕ → MarketState
add_new m o timestamp =
    let m' = record m { books = Store.get_or_create m.books o.instrument_id } in
    let book = m'.books.books o.instrument_id in
    let (level, side) = Sides.add (side_of book o.side) o.price o.quantity in
    let m'' = put_side m' o.instrument_id book o.side side in
    let (added, orders) = OrderStore.add m.orders o level in
    if added
    then publish (record m'' { orders = orders }) o.instrument_id timestamp (bbo book)
    else duplicate_add m''

-- The body that the handlers of AddOrder and AddOrderWithMpid share.
unfoldable pub add_order : MarketState → Order → ℕ → MarketState
add_order m o timestamp =
    if OrderStore.contains m.orders o.order_id then duplicate_add m else add_new m o timestamp

-- `removeOrder` through the level handle, then `removeAt`; `k` goes on.
unfoldable pub remove_resting :
    MarketState → ℕ → OrderBook → ℕ → (MarketState → Option MarketState) → Option MarketState
remove_resting m it book remaining k =
    let v = stored m.orders it in
    elim (Sides.remove_order_at (side_of book v.order.side) v.level remaining) [
      | none ↦ none
      | some (false, side) ↦ some (failed_removal m)
      | some (true, side) ↦ elim (remove_at m.orders it) [
        | none ↦ none
        | some orders ↦
            k (record (put_side m v.order.instrument_id book v.order.side side) { orders = orders })
      ]
    ]

-- Execution and cancellation, from `hasHandler` on: the level is reduced, and the order is
-- removed when nothing of it is left.
unfoldable pub reduce_resting : MarketState → ℕ → OrderBook → ℕ → ℕ → Option MarketState
unfolding remove_resting
reduce_resting m it book shares timestamp =
    let v = stored m.orders it in
    let i = v.order.instrument_id in
    elim (Sides.reduce_at (side_of book v.order.side) v.level shares) [
      | none ↦ none
      | some (false, side) ↦ some (failed_reduction m)
      | some (true, side) ↦
          let m' = put_side m i book v.order.side side in
          if shares == v.order.quantity
          then remove_resting m' it (m'.books.books i) 0
              (λ u. some (publish u i timestamp (bbo book)))
          else some (
              publish (record m' { orders = set_quantity m.orders it (v.order.quantity - shares) })
                i timestamp (bbo book))
    ]
