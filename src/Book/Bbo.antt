-- ===== src/Book/Bbo.antt =====
-- common/market_data/book/OrderBook.h: the two sides of a book, and its best bid and offer.
use low_latency_trading.Base.{
  ℕ, ◌≡◌, ◌↔◌, Bool, true, false, not, ◌&&◌, ◌||◌, Option, none, some, arith, ◌==◌, if◌then◌else◌,
}
use low_latency_trading.Book.Types.{Side, buy, sell}
use low_latency_trading.Book.Level.{PriceLevel}
use low_latency_trading.Book.Sides.{BookSide, empty_side, best, is_empty}

pub record Bbo : Type 0 where
  pub has_bid : Bool
  pub bid_price : ℕ
  pub bid_quantity : ℕ
  pub has_ask : Bool
  pub ask_price : ℕ
  pub ask_quantity : ℕ

-- `Bbo{}`.
abbrev pub no_bbo : Bbo
no_bbo = record {
  has_bid = false;
  bid_price = 0;
  bid_quantity = 0;
  has_ask = false;
  ask_price = 0;
  ask_quantity = 0;
}

abbrev same_flag : Bool → Bool → Bool
same_flag true b = b
same_flag false b = not b

-- `Bbo::operator==`.
unfoldable pub bbo_eq : Bbo → Bbo → Bool
bbo_eq a b =
    if not (same_flag a.has_bid b.has_bid)
    then false
    else if not (same_flag a.has_ask b.has_ask)
    then false
    else if a.has_bid
        && (not (a.bid_price == b.bid_price) || not (a.bid_quantity == b.bid_quantity))
    then false
    else if a.has_ask
        && (not (a.ask_price == b.ask_price) || not (a.ask_quantity == b.ask_quantity))
    then false
    else true

pub record OrderBook : Type 0 where
  pub bids : BookSide
  pub asks : BookSide

abbrev pub empty_book : OrderBook
empty_book = record { bids = empty_side buy; asks = empty_side sell }

-- `side(Side)`, and writing through the reference that it returns.
abbrev pub side_of : OrderBook → Side → BookSide
side_of b buy = b.bids
side_of b sell = b.asks

abbrev pub with_side : OrderBook → Side → BookSide → OrderBook
with_side b buy s = record b { bids = s }
with_side b sell s = record b { asks = s }

abbrev with_bid : Bbo → Option PriceLevel → Bbo
with_bid r none = r
with_bid r (some l) = record r { has_bid = true; bid_price = l.price; bid_quantity = l.quantity }

abbrev with_ask : Bbo → Option PriceLevel → Bbo
with_ask r none = r
with_ask r (some l) = record r { has_ask = true; ask_price = l.price; ask_quantity = l.quantity }

-- `OrderBook::bbo()`.
unfoldable pub bbo : OrderBook → Bbo
bbo b = with_ask (with_bid no_bbo (best b.bids)) (best b.asks)

-- `OrderBook::empty()`.
unfoldable pub book_empty : OrderBook → Bool
book_empty b = is_empty b.bids && is_empty b.asks

-- What a reader of a `Bbo` sees: each side's price and quantity, where it is present.
abbrev pub Quoted : Type 0
Quoted = Option (ℕ × ℕ) × Option (ℕ × ℕ)

unfoldable pub quoted : Bbo → Quoted
quoted r = (
  if r.has_bid then some (r.bid_price, r.bid_quantity) else none,
  if r.has_ask then some (r.ask_price, r.ask_quantity) else none,
)

-- `operator==` on quotes holds exactly when both show the same to a reader, who sees a side's
-- price and quantity where the side is present.
pub bbo_eq_iff : (a b : Bbo) → (bbo_eq a b ≡ true) ↔ (quoted a ≡ quoted b)
unfolding bbo_eq quoted
bbo_eq_iff a b = ground arith
