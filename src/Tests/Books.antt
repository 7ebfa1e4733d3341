-- ===== src/Tests/Books.antt =====
-- Price levels, book sides, quotes and the table of books at small inputs.
use low_latency_trading.Base.{
  ◌≤◌, ◌≡◌, ◌≢◌, ◌↔◌, refl, sym, true, none, some, [], ◌∷◌, arith, ◌==◌, if◌then◌else◌, length, All,
  count_set-none,
}
use low_latency_trading.Book.Types.{buy, sell}
use low_latency_trading.Book.Level
use low_latency_trading.Book.Levels.{find_level}
use low_latency_trading.Book.Sides
use low_latency_trading.Book.Sides.{BookSide, empty_side, best}
use low_latency_trading.Book.Orders.{Orders, count, depth, summary, total}
use low_latency_trading.Book.Refine.{
  Represents, empty_side-Represents, add-Represents, reduce-Represents, remove_order-Represents,
  reduce-true_iff, remove_order-true_iff,
}
use low_latency_trading.Book.Best.{NoBetter, best_lem, best-none_iff}
use low_latency_trading.Book.Bbo.{Bbo, OrderBook, bbo, bbo_eq, bbo_eq_iff, no_bbo, quoted}
use low_latency_trading.Book.Quote.{IsTop, bbo-IsTop}
use low_latency_trading.Book.Store

-- Bids of 30 and 20 shares at 100, and of 10 at 99.
abbrev bids : Orders
bids = (100, 20) ∷ (99, 10) ∷ (100, 30) ∷ []

abbrev bid_side : BookSide
bid_side = record {
  side = buy;
  levels =
      (99, record { price = 99; quantity = 10; order_count = 1 })
      ∷ (100, record { price = 100; quantity = 50; order_count = 2 })
      ∷ [];
}

bid_side-Represents : Represents bid_side bids
unfolding find_level summary count depth
bid_side-Represents = record { sorted = (omega arith, tt); shows = λ p. ground arith }

highest_bid : best bid_side ≡ some (record { price = 100; quantity = 50; order_count = 2 })
unfolding best low_latency_trading.Book.Levels.last_level low_latency_trading.Book.Levels.last_from
highest_bid = refl

bids-total : total bids ≡ 60
unfolding total
bids-total = refl

add-Represents_example : Represents (Sides.add bid_side 101 5).1 ((101, 5) ∷ bids)
add-Represents_example =
    add-Represents bid_side bids 101 5 bid_side-Represents (omega (arith, bids-total)) (omega arith)

reduce-Represents_example :
    ((Sides.reduce bid_side 99 4).0 ≡ true)
    × Represents (Sides.reduce bid_side 99 4).1 ((100, 20) ∷ (99, 6) ∷ (100, 30) ∷ [])
reduce-Represents_example =
    reduce-Represents bid_side ((100, 20) ∷ []) ((100, 30) ∷ []) 99 10 bid_side-Represents 4
      (omega arith)

remove_order-Represents_example :
    ((Sides.remove_order bid_side 99 10).0 ≡ true)
    × Represents (Sides.remove_order bid_side 99 10).1 ((100, 20) ∷ (100, 30) ∷ [])
remove_order-Represents_example =
    remove_order-Represents bid_side ((100, 20) ∷ []) ((100, 30) ∷ []) 99 10 bid_side-Represents

reduce-true_iff_example :
    ((Sides.reduce bid_side 100 60).0 ≡ true) ↔ ((count 100 bids ≢ 0) × (60 ≤ depth 100 bids))
reduce-true_iff_example = reduce-true_iff bid_side bids 100 60 bid_side-Represents

remove_order-true_iff_example :
    ((Sides.remove_order bid_side 98 1).0 ≡ true) ↔ ((count 98 bids ≢ 0) × (1 ≤ depth 98 bids))
remove_order-true_iff_example = remove_order-true_iff bid_side bids 98 1 bid_side-Represents

lowest :
    find_level 99 bid_side.levels ≡ some (record { price = 99; quantity = 10; order_count = 1 })
unfolding find_level
lowest = refl

best_lem_example :
    let l : Level.PriceLevel = record { price = 100; quantity = 50; order_count = 2 } in
    (summary 100 bids ≡ some l) × All (λ o. NoBetter buy o.0 100) bids
best_lem_example =
    best_lem bid_side bids (record { price = 100; quantity = 50; order_count = 2 })
      bid_side-Represents highest_bid

best-none_iff_example : (best bid_side ≡ none) ↔ (bids ≡ [])
best-none_iff_example = best-none_iff bid_side bids bid_side-Represents

abbrev one_sided : OrderBook
one_sided = record { bids = bid_side; asks = empty_side sell }

bbo-IsTop_example :
    IsTop buy bids (quoted (bbo one_sided)).0 × IsTop sell [] (quoted (bbo one_sided)).1
bbo-IsTop_example =
    bbo-IsTop one_sided bids [] (refl, refl) bid_side-Represents (empty_side-Represents sell)

-- An absent bid's price is of no account.
abbrev stale : Bbo
stale = record no_bbo { bid_price = 5 }

stale_eq : bbo_eq stale no_bbo ≡ true
unfolding bbo_eq
stale_eq = refl

bbo_eq_iff_example : (bbo_eq stale no_bbo ≡ true) ↔ (quoted stale ≡ quoted no_bbo)
bbo_eq_iff_example = bbo_eq_iff stale no_bbo

no_books : Store.SizeIsCount Store.empty_store
no_books = sym (count_set-none Store.capacity)

get_or_create_lem_example :
    let s = Store.empty_store in
    Store.SizeIsCount (Store.get_or_create s 9)
    × (Store.find (Store.get_or_create s 9) 9
        ≡ (if 9 == 9 then some (s.books 9) else Store.find s 9))
get_or_create_lem_example =
    Store.get_or_create_lem Store.empty_store 9 9 (omega arith) (omega arith) no_books

length-for_each_example : length (Store.for_each Store.empty_store) ≡ 0
length-for_each_example = Store.length-for_each Store.empty_store no_books
