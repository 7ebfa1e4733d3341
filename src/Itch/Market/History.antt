-- ===== src/Itch/Market/History.antt =====
-- `onMessage` of itch/ItchMarketState.h, and histories of messages.
use mathlib.Core.Path.{fun_ext}
use low_latency_trading.Base.{
  ℕ, ◌+◌, ◌≤◌, ◌<◌, ◌≡◌, refl, ap, ◌∙◌, Option, none, some, List, [], ◌∷◌, arith, length, All,
  Bool-cases, Option-cases, inl, inr,
}
use low_latency_trading.Book.Types.{Side}
use low_latency_trading.Instruments
use low_latency_trading.Instruments.{InstrumentStore}
use low_latency_trading.OrderStore.{capacity}
use low_latency_trading.Itch.Messages.{
  StockTradingActionMessage, RegShoRestrictionMessage, ItchMessage, system_event, stock_directory,
  add_order, add_order_with_mpid, order_executed, order_executed_with_price, order_cancel,
  order_delete, order_replace, trade, stock_trading_action, reg_sho_restriction,
}
use low_latency_trading.Itch.Normalizer.{
  normalize, normalize_trading_state, normalize_reg_sho_state, normalize_order,
  normalize_order_with_mpid,
}
use low_latency_trading.Itch.Market.State.{MarketState, initial, notify_trade}
use low_latency_trading.Itch.Market.State
use low_latency_trading.Itch.Market.Handlers
use low_latency_trading.Itch.Market.Handlers.{on_message}
use low_latency_trading.Itch.Market.Spec.{view, after, after_all}
use low_latency_trading.Itch.Market.Invariant.{Inv, Handled}
use low_latency_trading.Itch.Market.Joining.{add_order-Handled}
use low_latency_trading.Itch.Market.Outcomes.{HasShares, count-Handled, Handled-of_eq}
use low_latency_trading.Itch.Market.Messages.{
  executed-Handled, executed_with_price-Handled, cancel-Handled, delete-Handled,
}
use low_latency_trading.Itch.Market.Replace.{replace-Handled}

same-Handled : (m : MarketState) → Inv m → Handled m (view m.orders) (some m)
same-Handled m v = (m, refl, v, refl, omega arith, λ id. refl)

trade-Handled :
    (m : MarketState) (i t p q : ℕ)
    → Inv m
    → (d : Side) → Handled m (view m.orders) (some (notify_trade m i t p q d))
unfolding notify_trade
trade-Handled m i t p q v d = elim (Bool-cases m.has_trade_handler) [
  | inl has ↦ (
    record m { events = State.trade i t p q d ∷ m.events },
    ground (arith, has),
    record { consistent = v.consistent; in_step = v.in_step },
    refl,
    omega arith,
    λ id. refl,
  )
  | inr off ↦ (m, ground (arith, off), v, refl, omega arith, λ id. refl)
]

with_instruments-Handled :
    (m : MarketState) (j : InstrumentStore)
    → Inv m
    → Handled m (view m.orders) (some (record m { instruments = j }))
with_instruments-Handled m j v = (
  record m { instruments = j },
  refl,
  record { consistent = v.consistent; in_step = v.in_step },
  refl,
  omega arith,
  λ id. refl,
)

action-Handled :
    (m : MarketState) (x : StockTradingActionMessage)
    → Inv m
    → Handled m (view m.orders) (some (Handlers.handle_stock_trading_action m x))
unfolding Handlers.handle_stock_trading_action
action-Handled m x v = elim (Option-cases (Instruments.find m.instruments x.stock_locate)) [
  | inl missing ↦
      Handled-of_eq m (ground (arith, missing)) (λ id. refl)
        (count-Handled m
          (λ c. record c {
            unknown_trading_action_instruments = State.inc c.unknown_trading_action_instruments;
          })
          v)
  | inr (i, found) ↦
      Handled-of_eq m (ground (arith, found)) (λ id. refl)
        (with_instruments-Handled m
          (Instruments.put m.instruments x.stock_locate
            (record i { trading_state = normalize_trading_state x }))
          v)
]

restriction-Handled :
    (m : MarketState) (x : RegShoRestrictionMessage)
    → Inv m
    → Handled m (view m.orders) (some (Handlers.handle_reg_sho_restriction m x))
unfolding Handlers.handle_reg_sho_restriction
restriction-Handled m x v = elim (Option-cases (Instruments.find m.instruments x.stock_locate)) [
  | inl missing ↦
      Handled-of_eq m (ground (arith, missing)) (λ id. refl)
        (count-Handled m
          (λ c. record c { unknown_reg_sho_instruments = State.inc c.unknown_reg_sho_instruments })
          v)
  | inr (i, found) ↦
      Handled-of_eq m (ground (arith, found)) (λ id. refl)
        (with_instruments-Handled m
          (Instruments.put m.instruments x.stock_locate
            (record i { reg_sho_state = normalize_reg_sho_state x }))
          v)
]

-- In a state that keeps the invariant and whose order table is not full, a message whose shares
-- are a 32-bit number is handled: the result is defined, it keeps the invariant, no counter of a
-- fault inside a book moves, at most one more order is stored, and the stored orders are those
-- that the message's abstract meaning gives.
pub on_message-Handled :
    (m : MarketState) (x : ItchMessage)
    → Inv m
    → HasShares x
    → m.orders.size < capacity
    → Handled m (after (view m.orders) x) (on_message m x)
unfolding on_message Handlers.handle_stock_directory Handlers.handle_add_order
    Handlers.handle_add_order_with_mpid Handlers.handle_trade Handlers.handle_stock_trading_action
    Handlers.handle_reg_sho_restriction
on_message-Handled m (system_event x) v h room = same-Handled m v
on_message-Handled m (stock_directory x) v h room =
    with_instruments-Handled m (Instruments.add m.instruments (normalize x)).1 v
on_message-Handled m (add_order x) v h room =
    add_order-Handled m (normalize_order x) x.timestamp v h room
on_message-Handled m (add_order_with_mpid x) v h room =
    add_order-Handled m (normalize_order_with_mpid x) x.timestamp v h room
on_message-Handled m (order_executed x) v h room = executed-Handled m x v room
on_message-Handled m (order_executed_with_price x) v h room = executed_with_price-Handled m x v room
on_message-Handled m (order_cancel x) v h room = cancel-Handled m x v room
on_message-Handled m (order_delete x) v h room = delete-Handled m x v room
on_message-Handled m (order_replace x) v h room = replace-Handled m x v h room
on_message-Handled m (trade x) v h room = trade-Handled m _ _ _ _ v _
on_message-Handled m (stock_trading_action x) v h room = action-Handled m x v
on_message-Handled m (reg_sho_restriction x) v h room = restriction-Handled m x v
on_message-Handled m ignored v h room = same-Handled m v

-- Messages one after another.
unfoldable pub run : MarketState → List ItchMessage → Option MarketState
run m [] = some m
run m (x ∷ xs) = elim (on_message m x) [ none ↦ none | some u ↦ run u xs ]

-- Any history of at most as many messages as the order table has free slots is handled to its end:
-- afterwards the books show exactly the stored orders, the subscriber's quotes are those of the
-- books, and no counter of a fault inside a book has moved.
pub run_lem :
    (m : MarketState) (xs : List ItchMessage)
    → Inv m
    → All HasShares xs
    → m.orders.size + length xs ≤ capacity
    → (u : MarketState) × (run m xs ≡ some u)
      × Inv u
      × (u.faults ≡ m.faults)
      × (view u.orders ≡ after_all (view m.orders) xs)
unfolding run
run_lem m [] v h room = (m, refl, v, refl, refl)
run_lem m (x ∷ xs) v (h, hs) room =
    let (u, done, w, faults, growth, shows) = on_message-Handled m x v h (omega (arith, room)) in
    let (r, rest, z, faults', shown) = run_lem u xs w hs (omega (arith, room, growth)) in
    (
      r,
      ground (arith, done, rest),
      z,
      faults' ∙ faults,
      shown ∙ ap (λ f. after_all f xs) (fun_ext shows),
    )
