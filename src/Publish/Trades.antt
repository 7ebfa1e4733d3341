-- ===== src/Publish/Trades.antt =====
-- itch/ItchTradePublisher of common/market_data: what `onOrderExecution` sends.
use low_latency_trading.Base.{
  ℕ, Option-cases, ◌+◌, ◌^◌, ◌<◌, ◌≡◌, ◌⊎◌, refl, sym, inl, inr, Bool, true, false, Option, none,
  some, List, [], ◌∷◌, ◌++◌, length, u64, arith,
}
use mathlib.Core.Path.{subst}
use low_latency_trading.Book.Types.{Side, buy, sell}
use low_latency_trading.Instruments
use low_latency_trading.Instruments.{Instrument, InstrumentStore, symbol_view}
use low_latency_trading.Ring.{Ring, push}
use low_latency_trading.Ring.Calls.{Stores, Pushed, push-Pushed}
use low_latency_trading.Publish.{
  Trade, MarketEvent, trade, TradePublisher, trade_of, trade_sent, on_order_execution,
}

module _ (capacity : ℕ) where
  -- What the trade shows of the execution, with the publisher's number.
  abbrev pub Shows : TradePublisher → Instrument → ℕ → ℕ → ℕ → Side → Trade → Type 0
  Shows p i t price quantity side x =
      (x.instrument ≡ symbol_view i.symbol)
      × (x.sequence ≡ p.next_sequence)
      × (x.timestamp ≡ t)
      × (x.price ≡ price)
      × (x.quantity ≡ quantity)
      × (x.side ≡ side)

  -- Of an instrument that may be unknown. The number is used up, and a trade goes to the end of
  -- the queue and is counted as published, or the queue is full and the trade is counted as
  -- dropped.
  abbrev pub TradeSent :
      TradePublisher
      → Ring MarketEvent
      → List MarketEvent
      → Option Instrument
      → ℕ
      → ℕ
      → ℕ
      → Side
      → TradePublisher × Ring MarketEvent
      → Type 0
  TradeSent p r ys none t price quantity side o =
      (o.1 ≡ r) × (o.0 ≡ record p { unknown_instruments = u64 (p.unknown_instruments + 1) })
  TradeSent p r ys (some i) t price quantity side o =
      (o.0.next_sequence ≡ u64 (p.next_sequence + 1))
      × (o.0.unknown_instruments ≡ p.unknown_instruments)
      × (((length ys + 1 < capacity)
            × ((x : Trade) × Shows p i t price quantity side x
                × Stores capacity o.1 (ys ++ trade x ∷ []))
            × (o.0.published_trades ≡ u64 (p.published_trades + 1))
            × (o.0.dropped_trades ≡ p.dropped_trades))
          ⊎ ((length ys + 1 ≡ capacity)
              × Stores capacity o.1 ys
              × (o.0.published_trades ≡ p.published_trades)
              × (o.0.dropped_trades ≡ u64 (p.dropped_trades + 1))))

  trade_of-Shows :
      (p : TradePublisher) (i : Instrument) (t price quantity : ℕ) (side : Side)
      → quantity < 2 ^ 32
      → Shows p i t price quantity side (trade_of i p.next_sequence t price quantity side)
  unfolding trade_of
  trade_of-Shows p i t price quantity buy small =
      (refl, refl, refl, refl, omega (arith, small), refl)
  trade_of-Shows p i t price quantity sell small =
      (refl, refl, refl, refl, omega (arith, small), refl)

  trade_sent-TradeSent :
      (p : TradePublisher) (r : Ring MarketEvent) (ys : List MarketEvent) (i : Instrument)
      (t price quantity : ℕ) (side : Side) (x : Trade) (o : Bool × Ring MarketEvent)
      → Shows p i t price quantity side x
      → Pushed capacity ys (trade x) o
      → TradeSent p r ys
          (some i)
          t
          price
          quantity
          side
          (trade_sent (record p { next_sequence = u64 (p.next_sequence + 1) }) o)
  unfolding trade_sent
  trade_sent-TradeSent p r ys i t price quantity side x (true, u) shows (inl (room, done, stores)) =
      (refl, refl, inl (room, (x, shows, stores), refl, refl))
  trade_sent-TradeSent p r ys i t price quantity side x (true, u) shows (inr (full, done, stores)) =
      ground (arith, done)
  trade_sent-TradeSent p r ys i t price quantity side x (false, u) shows
        (inl (room, done, stores)) =
      ground (arith, done)
  trade_sent-TradeSent p r ys i t price quantity side x (false, u) shows
        (inr (full, done, stores)) =
      (refl, refl, inr (full, stores, refl, refl))

  -- On a queue that holds given events, for a quantity below 2 ^ 32: `onOrderExecution` of an
  -- unknown instrument leaves the queue as it was and only counts the instrument as unknown. Of a
  -- known one it uses up the next number, and where there is room the queue then holds a trade
  -- more at its end and the trade is counted as published, and where there is none the queue holds
  -- the same events and the trade is counted as dropped. The trade has the instrument's symbol,
  -- that number, and the given time, price, quantity and side.
  pub on_order_execution-TradeSent :
      (p : TradePublisher) (r : Ring MarketEvent) (ys : List MarketEvent) (s : InstrumentStore)
      (id t price quantity : ℕ) (side : Side)
      → Stores capacity r ys
      → quantity < 2 ^ 32
      → TradeSent p r ys
          (Instruments.find s id)
          t
          price
          quantity
          side
          (on_order_execution capacity p r s id t price quantity side)
  unfolding on_order_execution
  on_order_execution-TradeSent p r ys s id t price quantity side stores small =
      elim (Option-cases (Instruments.find s id)) [
        | inl unknown ↦
            let u : TradePublisher = record p {
              unknown_instruments = u64 (p.unknown_instruments + 1);
            } in
            let result : on_order_execution capacity p r s id t price quantity side ≡ (u, r) =
              ground (arith, unknown) in
            subst
              (λ f.
                TradeSent p r ys f t price quantity side
                  (on_order_execution capacity p r s id t price quantity side))
              (sym unknown)
              (subst (TradeSent p r ys none t price quantity side) (sym result) (refl, refl))
        | inr (i, known) ↦
            let x = trade_of i p.next_sequence t price quantity side in
            let u : TradePublisher = record p { next_sequence = u64 (p.next_sequence + 1) } in
            let result : on_order_execution capacity p r s id t price quantity side
                ≡ trade_sent u (push capacity r (trade x)) =
              ground (arith, known) in
            subst
              (λ f.
                TradeSent p r ys f t price quantity side
                  (on_order_execution capacity p r s id t price quantity side))
              (sym known)
              (subst (TradeSent p r ys (some i) t price quantity side) (sym result) (
                trade_sent-TradeSent p r ys i t price quantity side x (push capacity r (trade x))
                  (trade_of-Shows p i t price quantity side small)
                  (push-Pushed capacity r ys (trade x) stores)))
      ]
