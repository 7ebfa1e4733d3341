-- ===== src/Feed/Market.antt =====
-- The parts put together: the messages that feed_handler/MoldItchFeedHandler.cpp hands to the
-- market of itch/ItchMarketState.h.
use mathlib.Core.List.{map}
use low_latency_trading.Base.{
  ℕ, ◌≤◌, ◌<◌, ◌≡◌, refl, sym, ap, ◌∙◌, suc, Bool, Option, none, some, List, [], ◌∷◌, arith, length,
  All,
}
use low_latency_trading.Itch.Messages.{
  ItchMessage, system_event, stock_directory, add_order, add_order_with_mpid, order_executed,
  order_executed_with_price, order_cancel, order_delete, order_replace, trade, cross_trade,
  broken_trade, stock_trading_action, market_participant_position, reg_sho_restriction,
  mwcb_decline_level, mwcb_status, noii, luld_auction_collar,
}
use low_latency_trading.Itch.Dispatcher.{dispatch}
use low_latency_trading.Itch.Wire.{fields}
use low_latency_trading.Itch.Wire.Bounds.{Bounded, dispatch-Bounded}
use low_latency_trading.Itch.Market.State.{MarketState, initial}
use low_latency_trading.Itch.Market.Handlers.{on_message}
use low_latency_trading.Itch.Market.Invariant.{Inv}
use low_latency_trading.Itch.Market.Spec.{view, after_all}
use low_latency_trading.Itch.Market.Outcomes.{HasShares}
use low_latency_trading.Itch.Market.History
use low_latency_trading.Itch.Market.Initial.{run-initial}
use low_latency_trading.OrderStore.{capacity}
use low_latency_trading.Feed.Types.{SequencedItchMessage}
use low_latency_trading.Feed.Progress.{Delivered}

-- `marketState_.onMessage`; a market that is undefined stays so.
abbrev pub deliver : Option MarketState → ItchMessage → Option MarketState
deliver none x = none
deliver (some m) x = on_message m x

Bounded-HasShares : (x : ItchMessage) → Bounded (fields x) → HasShares x
unfolding fields
Bounded-HasShares (system_event x) h = tt
Bounded-HasShares (stock_directory x) h = tt
Bounded-HasShares (add_order x) h = omega arith
Bounded-HasShares (add_order_with_mpid x) h = omega arith
Bounded-HasShares (order_executed x) h = tt
Bounded-HasShares (order_executed_with_price x) h = tt
Bounded-HasShares (order_cancel x) h = tt
Bounded-HasShares (order_delete x) h = tt
Bounded-HasShares (order_replace x) h = omega arith
Bounded-HasShares (trade x) h = tt
Bounded-HasShares (cross_trade x) h = tt
Bounded-HasShares (broken_trade x) h = tt
Bounded-HasShares (stock_trading_action x) h = tt
Bounded-HasShares (market_participant_position x) h = tt
Bounded-HasShares (reg_sho_restriction x) h = tt
Bounded-HasShares (mwcb_decline_level x) h = tt
Bounded-HasShares (mwcb_status x) h = tt
Bounded-HasShares (noii x) h = tt
Bounded-HasShares (luld_auction_collar x) h = tt

-- What the payloads read as.
abbrev pub Reads : List SequencedItchMessage → List ItchMessage → Type 0
Reads xs ms = map (λ x. dispatch (some x.payload)) xs ≡ map some ms

-- The payload's bytes are bytes.
abbrev pub HasBytes : SequencedItchMessage → Type 0
HasBytes x = (i : ℕ) → x.payload.bytes i < 256

-- Messages one after another, from a market that may be undefined.
abbrev run_from : Option MarketState → List ItchMessage → Option MarketState
run_from m ms = elim m [ none ↦ none | some u ↦ History.run u ms ]

run_from-cons :
    (m : Option MarketState) (a : ItchMessage) (ms : List ItchMessage)
    → run_from (deliver m a) ms ≡ run_from m (a ∷ ms)
unfolding History.run
run_from-cons none a ms = refl
run_from-cons (some u) a ms = refl

run_from-nil : (m : Option MarketState) → m ≡ run_from m []
unfolding History.run
run_from-nil none = refl
run_from-nil (some u) = refl

-- To deliver payloads is to run what they read as.
Delivered-run :
    (m : Option MarketState) (xs : List SequencedItchMessage) (w : Option MarketState)
    → Delivered deliver m xs w
    → All HasBytes xs
    → (ms : List ItchMessage) × Reads xs ms
      × All HasShares ms
      × (length ms ≡ length xs)
      × (w ≡ run_from m ms)
Delivered-run m [] w h bytes = ([], refl, tt, refl, sym h ∙ run_from-nil m)
Delivered-run m (x ∷ xs) w (a, e, h) (b, bytes) =
    let (ms, reads, shares, same, done) = Delivered-run (deliver m a) xs w h bytes in
    (
      a ∷ ms,
      ap (λ y. y ∷ map (λ z. dispatch (some z.payload)) xs) e ∙ ap (λ ys. some a ∷ ys) reads,
      (Bounded-HasShares a (dispatch-Bounded x.payload a b e), shares),
      ap suc same,
      done ∙ run_from-cons m a ms,
    )

-- Delivered one after another from a new market, at most 2 ^ 22 payloads of bytes are handled to
-- their end: the market stays defined and keeps its invariant, its stored orders are those of the
-- abstract history of the messages that the payloads read as, and no counter of a fault inside a
-- book has moved.
pub Delivered-initial :
    (a b : Bool) (xs : List SequencedItchMessage) (w : Option MarketState)
    → Delivered deliver (some (initial a b)) xs w
    → All HasBytes xs
    → length xs ≤ capacity
    → (u : MarketState) × (ms : List ItchMessage) × Reads xs ms
      × (w ≡ some u)
      × Inv u
      × (u.faults ≡ (initial a b).faults)
      × (view u.orders ≡ after_all (λ id. none) ms)
Delivered-initial a b xs w h bytes fits =
    let (ms, reads, shares, same, done) = Delivered-run (some (initial a b)) xs w h bytes in
    let (u, ran, v, faults, shows) = run-initial a b ms shares (omega (arith, same, fits)) in
    (u, ms, reads, done ∙ ran, v, faults, shows)
