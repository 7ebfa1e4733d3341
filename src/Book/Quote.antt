-- ===== src/Book/Quote.antt =====
-- `OrderBook::bbo` of book/OrderBook.h against the orders that its sides show.
use mathlib.Core.Path.{subst}
use low_latency_trading.Base.{ℕ, ◌≡◌, ◌≢◌, refl, Option, none, some, [], arith, All}
use low_latency_trading.Book.Types.{Side, buy, sell}
use low_latency_trading.Book.Level.{PriceLevel}
use low_latency_trading.Book.Orders.{Orders, depth, count, summary}
use low_latency_trading.Book.Sides.{BookSide, best}
use low_latency_trading.Book.Refine.{Represents}
use low_latency_trading.Book.Best.{NoBetter, best_lem, best-none_iff}
use low_latency_trading.Book.Bbo.{OrderBook, bbo, quoted}

-- What a quote says of one side's orders: nothing rests, or the whole quantity at the best price.
abbrev pub IsTop : Side → Orders → Option (ℕ × ℕ) → Type 0
IsTop side os none = os ≡ []
IsTop side os (some (p, q)) =
    (count p os ≢ 0) × (q ≡ depth p os) × All (λ o. NoBetter side o.0 p) os

abbrev shown : Option PriceLevel → Option (ℕ × ℕ)
shown none = none
shown (some l) = some (l.price, l.quantity)

best-IsTop :
    (s : BookSide) (os : Orders) (o : Option PriceLevel)
    → Represents s os
    → best s ≡ o
    → IsTop s.side os (shown o)
unfolding summary
best-IsTop s os none r e = (best-none_iff s os r).0 e
best-IsTop s os (some l) r e =
    let (at, top) = best_lem s os l r e in (ground (arith, at), ground (arith, at), top)

quoted-bbo : (b : OrderBook) → quoted (bbo b) ≡ (shown (best b.bids), shown (best b.asks))
unfolding quoted bbo
quoted-bbo b = ground arith

-- The sides of a book hold bids and offers.
abbrev pub Sided : OrderBook → Type 0
Sided b = (b.bids.side ≡ buy) × (b.asks.side ≡ sell)

-- For a book whose two sides show given bids and offers, the quote shows the highest bid and the
-- lowest offer, each with all that rests at its price, and shows no price for a side where nothing
-- rests.
pub bbo-IsTop :
    (b : OrderBook) (bids asks : Orders)
    → Sided b
    → Represents b.bids bids
    → Represents b.asks asks
    → IsTop buy bids (quoted (bbo b)).0 × IsTop sell asks (quoted (bbo b)).1
bbo-IsTop b bids asks sided r s = rw (quoted-bbo b) (
  subst (λ side. IsTop side bids (shown (best b.bids))) sided.0 (best-IsTop b.bids bids _ r refl),
  subst (λ side. IsTop side asks (shown (best b.asks))) sided.1 (best-IsTop b.asks asks _ s refl),
)
