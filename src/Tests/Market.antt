-- ===== src/Tests/Market.antt =====
-- Histories of messages.
use low_latency_trading.Base.{◌≡◌, true, none, some, List, [], ◌∷◌, arith}
use low_latency_trading.Itch.Messages.{
  ItchMessage, add_order, order_executed, order_replace, order_delete,
}
use low_latency_trading.Itch.Market.State.{MarketState, initial}
use low_latency_trading.Itch.Market.Spec.{after, after_all, view}
use low_latency_trading.Itch.Market.Handlers.{on_message}
use low_latency_trading.Itch.Market.Invariant.{Inv, Handled}
use low_latency_trading.Itch.Market.History.{run, on_message-Handled}
use low_latency_trading.Itch.Market.Initial.{initial-Inv, run-initial}

-- A bid of 30 shares of stock 3 at 100.
abbrev bid : ItchMessage
bid = add_order (record {
  stock_locate = 3;
  tracking_number = 0;
  timestamp = 10;
  order_reference_number = 7;
  buy_sell_indicator = b'B';
  shares = 30;
  stock = [];
  price = 100;
})

abbrev execution : ItchMessage
execution = order_executed (record {
  stock_locate = 3;
  tracking_number = 0;
  timestamp = 11;
  order_reference_number = 7;
  executed_shares = 12;
  match_number = 1;
})

abbrev replacement : ItchMessage
replacement = order_replace (record {
  stock_locate = 3;
  tracking_number = 0;
  timestamp = 12;
  original_order_reference_number = 7;
  new_order_reference_number = 8;
  shares = 40;
  price = 101;
})

abbrev deletion : ItchMessage
deletion =
    order_delete
      (record { stock_locate = 3; tracking_number = 0; timestamp = 13; order_reference_number = 8 })

on_message-Handled_example :
    Handled
      (initial true true)
      (after (view (initial true true).orders) bid)
      (on_message (initial true true) bid)
on_message-Handled_example =
    on_message-Handled (initial true true) bid (initial-Inv true true) (omega arith) (omega arith)

abbrev day : List ItchMessage
day = bid ∷ execution ∷ replacement ∷ deletion ∷ []

run-initial_example :
    (u : MarketState) × (run (initial true true) day ≡ some u)
    × Inv u
    × (u.faults ≡ (initial true true).faults)
    × (view u.orders ≡ after_all (λ id. none) day)
run-initial_example =
    run-initial true true day (omega arith, (tt, (omega arith, (tt, tt)))) (ground arith)
