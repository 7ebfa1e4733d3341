-- ===== src/Itch/Market/Messages.antt =====
-- Every handler of itch/ItchMarketState.h keeps the invariant.
use mathlib.Core.Path.{subst}
use low_latency_trading.Base.{
  ℕ, ◌≤◌, ◌<◌, ◌≡◌, true, some, ◌∷◌, arith, ltb, Bool-cases, Option-cases, inl, inr,
}
use low_latency_trading.Book.Bbo.{bbo}
use low_latency_trading.OrderStore
use low_latency_trading.OrderStore.{capacity, find_index, stored}
use low_latency_trading.OrderStore.Probe.{find_index-lt}
use low_latency_trading.Itch.Messages.{
  OrderExecutedMessage, OrderExecutedWithPriceMessage, OrderCancelMessage, OrderDeleteMessage,
}
use low_latency_trading.Itch.Market.State.{MarketState, MarketEvent, Counters, notify_trade}
use low_latency_trading.Itch.Market.State
use low_latency_trading.Itch.Market.Spec.{view, without, taken_off, reduced, view-Removed}
use low_latency_trading.Itch.Market.Resting.{reduce_resting, publish}
use low_latency_trading.Itch.Market.Handlers
use low_latency_trading.Itch.Market.Handlers.{count, on_message}
use low_latency_trading.Itch.Market.Invariant.{Inv, Handled, publish-Inv}
use low_latency_trading.Itch.Market.Safe.{remove_resting_lem, reduce_resting-Handled}
use low_latency_trading.Itch.Market.Outcomes.{count-Handled, Handled-of_eq, find-resting}

-- A report of a trade before the shares leave.
traded-Handled :
    (m : MarketState) (it x t price : ℕ)
    → Inv m
    → m.orders.size < capacity
    → it < capacity
    → (m.orders.slots it).occupied ≡ true
    → x ≤ (stored m.orders it).order.quantity
    → let o = (stored m.orders it).order in
      Handled m (taken_off (view m.orders) o x) (
        reduce_resting
          (notify_trade m o.instrument_id t price x o.side)
          it
          (m.books.books o.instrument_id)
          x
          t)
unfolding notify_trade
traded-Handled m it x t price v room h full fits =
    let o = (stored m.orders it).order in
    let told : MarketState = record m {
      events = State.trade o.instrument_id t price x o.side ∷ m.events;
    } in
    elim (Bool-cases m.has_trade_handler) [
      | inl has ↦
          subst
            (λ y.
              Handled m (taken_off (view m.orders) o x)
                (reduce_resting y it (m.books.books o.instrument_id) x t))
            (ground (arith, has))
            (reduce_resting-Handled told it
              (record { consistent = v.consistent; in_step = v.in_step }) room h full x t fits)
      | inr none' ↦
          subst
            (λ y.
              Handled m (taken_off (view m.orders) o x)
                (reduce_resting y it (m.books.books o.instrument_id) x t))
            (ground (arith, none')) (reduce_resting-Handled m it v room h full x t fits)
    ]

pub executed-Handled :
    (m : MarketState) (x : OrderExecutedMessage)
    → Inv m
    → m.orders.size < capacity
    → Handled m
        (reduced (view m.orders) x.order_reference_number x.executed_shares)
        (Handlers.handle_order_executed m x)
unfolding Handlers.handle_order_executed OrderStore.find
executed-Handled m x v room = elim (Option-cases (find_index m.orders x.order_reference_number)) [
  | inl missing ↦
      Handled-of_eq m (ground (arith, missing)) (λ id. ground (arith, missing))
        (count-Handled m
          (λ c. record c { unknown_order_executions = State.inc c.unknown_order_executions }) v)
  | inr (it, found) ↦
      let (below, full, _) = find_index-lt m.orders x.order_reference_number found in
      let o = (stored m.orders it).order in
      elim (Bool-cases (ltb o.quantity x.executed_shares)) [
        | inl over ↦
            Handled-of_eq m (ground (arith, found, over)) (λ id. ground (arith, found, over))
              (count-Handled m
                (λ c. record c { over_executed_orders = State.inc c.over_executed_orders }) v)
        | inr fits ↦
            Handled-of_eq m (ground (arith, found, fits, find-resting m it v below full))
              (λ id. ground (arith, found, fits))
              (traded-Handled m it x.executed_shares x.timestamp o.price v room below full
                (ground (arith, fits)))
      ]
]

pub executed_with_price-Handled :
    (m : MarketState) (x : OrderExecutedWithPriceMessage)
    → Inv m
    → m.orders.size < capacity
    → Handled m
        (reduced (view m.orders) x.order_reference_number x.executed_shares)
        (Handlers.handle_order_executed_with_price m x)
unfolding Handlers.handle_order_executed_with_price OrderStore.find
executed_with_price-Handled m x v room =
    elim (Option-cases (find_index m.orders x.order_reference_number)) [
      | inl missing ↦
          Handled-of_eq m (ground (arith, missing)) (λ id. ground (arith, missing))
            (count-Handled m
              (λ c. record c {
                unknown_order_executions_with_price =
                    State.inc c.unknown_order_executions_with_price;
              })
              v)
      | inr (it, found) ↦
          let (below, full, _) = find_index-lt m.orders x.order_reference_number found in
          let o = (stored m.orders it).order in
          elim (Bool-cases (ltb o.quantity x.executed_shares)) [
            | inl over ↦
                Handled-of_eq m (ground (arith, found, over)) (λ id. ground (arith, found, over))
                  (count-Handled m
                    (λ c. record c {
                      over_executed_orders_with_price = State.inc c.over_executed_orders_with_price;
                    })
                    v)
            | inr fits ↦
                Handled-of_eq m (ground (arith, found, fits, find-resting m it v below full))
                  (λ id. ground (arith, found, fits))
                  (traded-Handled m it x.executed_shares x.timestamp x.execution_price v room below
                    full (ground (arith, fits)))
          ]
    ]

pub cancel-Handled :
    (m : MarketState) (x : OrderCancelMessage)
    → Inv m
    → m.orders.size < capacity
    → Handled m
        (reduced (view m.orders) x.order_reference_number x.cancelled_shares)
        (Handlers.handle_order_cancel m x)
unfolding Handlers.handle_order_cancel OrderStore.find
cancel-Handled m x v room = elim (Option-cases (find_index m.orders x.order_reference_number)) [
  | inl missing ↦
      Handled-of_eq m (ground (arith, missing)) (λ id. ground (arith, missing))
        (count-Handled m
          (λ c. record c { unknown_order_cancels = State.inc c.unknown_order_cancels }) v)
  | inr (it, found) ↦
      let (below, full, _) = find_index-lt m.orders x.order_reference_number found in
      let o = (stored m.orders it).order in
      elim (Bool-cases (ltb o.quantity x.cancelled_shares)) [
        | inl over ↦
            Handled-of_eq m (ground (arith, found, over)) (λ id. ground (arith, found, over))
              (count-Handled m
                (λ c. record c { over_cancelled_orders = State.inc c.over_cancelled_orders }) v)
        | inr fits ↦
            Handled-of_eq m (ground (arith, found, fits, find-resting m it v below full))
              (λ id. ground (arith, found, fits))
              (reduce_resting-Handled m it v room below full x.cancelled_shares x.timestamp
                (ground (arith, fits)))
      ]
]

pub delete-Handled :
    (m : MarketState) (x : OrderDeleteMessage)
    → Inv m
    → m.orders.size < capacity
    → Handled m
        (without (view m.orders) x.order_reference_number)
        (Handlers.handle_order_delete m x)
unfolding Handlers.handle_order_delete OrderStore.find
delete-Handled m x v room = elim (Option-cases (find_index m.orders x.order_reference_number)) [
  | inl missing ↦
      Handled-of_eq m (ground (arith, missing)) (λ id. ground (arith, missing))
        (count-Handled m
          (λ c. record c { unknown_order_deletes = State.inc c.unknown_order_deletes }) v)
  | inr (it, found) ↦
      let (below, full, its) = find_index-lt m.orders x.order_reference_number found in
      let o = (stored m.orders it).order in
      let i = o.instrument_id in
      let (m', gone, changed, removed, _) =
        remove_resting_lem m it v room below full
          (λ u. some (publish u i x.timestamp (bbo (m.books.books i)))) in
      let (inv, faults, growth, same) = publish-Inv m m' i x.timestamp v changed in
      (
        publish m' i x.timestamp (bbo (m.books.books i)),
        ground (arith, found, find-resting m it v below full, gone),
        inv,
        faults,
        growth,
        λ id. ground (arith, its, same id, view-Removed removed id),
      )
]
