-- ===== src/Itch/Market/Outcomes.antt =====
-- What the handlers of itch/ItchMarketState.h have in common: counting, and finding the book.
use low_latency_trading.Base.{ℕ, ◌<◌, ◌≡◌, refl, ◌∙◌, true, Option, some, arith}
use low_latency_trading.Book.Store
use low_latency_trading.OrderStore.{capacity, stored}
use low_latency_trading.Itch.Messages.{ItchMessage, add_order, add_order_with_mpid, order_replace}
use low_latency_trading.Itch.Market.State.{MarketState, Counters}
use low_latency_trading.Itch.Market.Spec.{View, view}
use low_latency_trading.Itch.Market.Handlers.{count}
use low_latency_trading.Itch.Market.Weights.{share_limit}
use low_latency_trading.Itch.Market.Entry.{entry_sound}
use low_latency_trading.Itch.Market.Invariant.{Inv, Handled}

-- The shares of a message are a 32-bit number, as its field is.
abbrev pub HasShares : ItchMessage → Type 0
HasShares (add_order x) = x.shares < share_limit
HasShares (add_order_with_mpid x) = x.shares < share_limit
HasShares (order_replace x) = x.shares < share_limit
HasShares other = Unit

-- Counting changes neither books nor orders.
pub count-Handled :
    (m : MarketState) (f : Counters → Counters)
    → Inv m
    → Handled m (view m.orders) (some (count m f))
count-Handled m f v = (
  count m f,
  refl,
  record { consistent = v.consistent; in_step = v.in_step },
  refl,
  omega arith,
  λ id. refl,
)

pub Handled-of_eq :
    (m : MarketState) {f g : View} {r s : Option MarketState}
    → r ≡ s
    → ((id : ℕ) → g id ≡ f id)
    → Handled m g s
    → Handled m f r
Handled-of_eq m e same (u, done, inv, faults, growth, shows) =
    (u, e ∙ done, inv, faults, growth, λ id. shows id ∙ same id)

-- The book of a resting order exists.
pub find-resting :
    (m : MarketState) (it : ℕ)
    → Inv m
    → it < capacity
    → (m.orders.slots it).occupied ≡ true
    → let i = (stored m.orders it).order.instrument_id in
      Store.find m.books i ≡ some (m.books.books i)
unfolding Store.find
find-resting m it v h full = ground (arith, entry_sound m.books m.orders it v.consistent h full)
