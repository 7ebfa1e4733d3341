-- ===== src/Book/Refine.antt =====
-- book/BookSide.h refines the collection of resting orders: `Represents` is kept by every
-- operation, and the wrap-around of the 64-bit counters is never reached below its bounds.
use low_latency_trading.Base.{
  ℕ, ◌+◌, ◌-◌, ◌≤◌, ◌<◌, ◌^◌, ◌≡◌, ◌≢◌, ◌↔◌, refl, true, some, [], ◌∷◌, ◌++◌, arith, length, suc,
}
use low_latency_trading.Book.Types.{Side}
use low_latency_trading.Book.Level
use low_latency_trading.Book.Levels.{Ascending, find_level}
use low_latency_trading.Book.Orders.{
  Orders, depth, count, total, summary, depth-le-total, count-le-length, depth-of_count,
  depth-append, count-append,
}
use low_latency_trading.Book.Sides.{BookSide, empty_side}
use low_latency_trading.Book.Sides
use low_latency_trading.Book.Effects.{
  find_level-add, add-Ascending, find_level-reduce, find_level-remove_order, reduce-true,
  remove_order-true, reduce-Ascending, remove_order-Ascending,
}

-- Keys ascend, and the level at each price is the summary of the orders that rest there.
pub record Represents (s : BookSide) (os : Orders) : Type 0 where
  pub sorted : Ascending s.levels
  pub shows : (p : ℕ) → find_level p s.levels ≡ summary p os

pub empty_side-Represents : (s : Side) → Represents (empty_side s) []
unfolding find_level summary count
empty_side-Represents s = record { sorted = tt; shows = λ p. refl }

-- On a side that shows given orders, adding an order makes it show that order too, while the total
-- quantity and the number of orders stay below 2 ^ 64.
pub add-Represents :
    (s : BookSide) (os : Orders) (p q : ℕ)
    → Represents s os
    → total os + q < 2 ^ 64
    → length os + 1 < 2 ^ 64
    → Represents (Sides.add s p q).1 ((p, q) ∷ os)
unfolding summary count depth Level.add_order
add-Represents s os p q r h k = record {
  sorted = add-Ascending s p q r.sorted;
  shows = λ j. ground (
    arith,
    r.shows j,
    r.shows p,
    find_level-add s p q j r.sorted,
    depth-le-total p os,
    count-le-length p os,
    depth-of_count p os,
  );
}

-- An order that rests among the others, and the level that shows it.
module _ (s : BookSide) (xs ys : Orders) (p q : ℕ) (r : Represents s (xs ++ (p, q) ∷ ys)) where
  abbrev pub resting : Level.PriceLevel
  resting = record {
    price = p;
    quantity = depth p xs + (q + depth p ys);
    order_count = count p xs + suc (count p ys);
  }

  pub find_level-resting : find_level p s.levels ≡ some resting
  unfolding summary depth count
  find_level-resting =
      ground (arith, r.shows p, depth-append p xs ((p, q) ∷ ys), count-append p xs ((p, q) ∷ ys))

  -- On a side that shows given orders, taking at most its quantity off one of them succeeds, and
  -- the side then shows the orders with that quantity reduced.
  pub reduce-Represents :
      (part : ℕ)
      → part ≤ q
      → ((Sides.reduce s p part).0 ≡ true)
        × Represents (Sides.reduce s p part).1 (xs ++ (p, q - part) ∷ ys)
  unfolding summary depth count
  reduce-Represents part h = (
    reduce-true s p part resting find_level-resting (omega arith),
    record {
      sorted = reduce-Ascending s p part r.sorted;
      shows = λ j. ground (
        arith,
        r.shows j,
        find_level-reduce s p part resting find_level-resting j,
        depth-append j xs ((p, q) ∷ ys),
        count-append j xs ((p, q) ∷ ys),
        depth-append j xs ((p, q - part) ∷ ys),
        count-append j xs ((p, q - part) ∷ ys),
      );
    },
  )

  -- On a side that shows given orders, removing one of them with its remaining quantity succeeds,
  -- and the side then shows exactly the others.
  pub remove_order-Represents :
      ((Sides.remove_order s p q).0 ≡ true) × Represents (Sides.remove_order s p q).1 (xs ++ ys)
  unfolding summary depth count
  remove_order-Represents = (
    remove_order-true s p q resting find_level-resting (omega arith) (omega arith),
    record {
      sorted = remove_order-Ascending s p q r.sorted;
      shows = λ j. ground (
        arith,
        r.shows j,
        find_level-remove_order s p q resting find_level-resting j,
        r.sorted,
        depth-append j xs ((p, q) ∷ ys),
        count-append j xs ((p, q) ∷ ys),
        depth-append j xs ys,
        count-append j xs ys,
        depth-of_count j xs,
        depth-of_count j ys,
      );
    },
  )

-- On a side that shows given orders, `reduce` by price succeeds exactly when some order rests at
-- the price and the orders there have at least the quantity in all.
pub reduce-true_iff :
    (s : BookSide) (os : Orders) (p q : ℕ)
    → Represents s os
    → ((Sides.reduce s p q).0 ≡ true) ↔ ((count p os ≢ 0) × (q ≤ depth p os))
unfolding Sides.reduce summary
reduce-true_iff s os p q r =
    (λ h. ground (arith, r.shows p), λ h. ground (arith, r.shows p, h.0, h.1))

-- On a side that shows given orders, `removeOrder` by price succeeds exactly when some order rests
-- at the price and the orders there have at least the quantity in all.
pub remove_order-true_iff :
    (s : BookSide) (os : Orders) (p q : ℕ)
    → Represents s os
    → ((Sides.remove_order s p q).0 ≡ true) ↔ ((count p os ≢ 0) × (q ≤ depth p os))
unfolding Sides.remove_order summary
remove_order-true_iff s os p q r =
    (λ h. ground (arith, r.shows p), λ h. ground (arith, r.shows p, h.0, h.1))
